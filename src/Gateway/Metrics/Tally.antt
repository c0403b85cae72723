-- ===== src/Gateway/Metrics/Tally.antt =====
-- What the histograms of apps/gateway/src/metrics.rs count.
use cce.Prelude.{
  ℕ, ◌+◌, ◌^◌, ◌≤◌, ◌<◌, ◌≡◌, refl, ap, ap₂, ◌∙◌, List, [], ◌∷◌, ◌++◌, map, leb, ltb, count, length,
  arith, inl, inr, Bool-cases,
}
use cce.Prelude.Lists.{keep}
use cce.Gateway.Metrics.{
  Histogram, fetch_add, hist_bounds_ms, position, bump, zeros, new_histogram, observe,
  cumulative_from, cumulative,
}

-- The observations, the latest first.
unfoldable pub observe_all : List ℕ → Histogram
observe_all [] = new_histogram
observe_all (ms ∷ before) = observe ms (observe_all before)

at_most : ℕ → List ℕ → ℕ
at_most bound seen = count (λ ms. leb ms bound) seen

above : ℕ → List ℕ → List ℕ
above bound seen = keep (λ ms. ltb bound ms) seen

-- How many observations fall to each bucket.
tally : List ℕ → List ℕ → List ℕ
tally [] seen = length seen ∷ []
tally (bound ∷ bounds) seen = at_most bound seen ∷ tally bounds (above bound seen)

at_most-above :
    (bound : ℕ) (seen : List ℕ) → at_most bound seen + length (above bound seen) ≡ length seen
unfolding at_most above keep
at_most-above bound [] = omega arith
at_most-above bound (ms ∷ seen) = ground (arith, at_most-above bound seen)

bump-tally :
    (bounds : List ℕ) (ms : ℕ) (seen : List ℕ)
    → length seen + 1 < 2 ^ 64
    → bump (position ms bounds) (tally bounds seen) ≡ tally bounds (ms ∷ seen)
unfolding bump position tally at_most above keep
bump-tally [] ms seen h = ground arith
bump-tally (bound ∷ bounds) ms seen h = elim (Bool-cases (leb ms bound)) [
  | inl e ↦ ground (arith, e, at_most-above bound seen)
  | inr e ↦ ground (arith, e, at_most-above bound seen, bump-tally bounds ms (above bound seen))
]

zeros-tally : (bounds : List ℕ) → zeros bounds ≡ tally bounds []
unfolding zeros tally at_most above keep
zeros-tally [] = refl
zeros-tally (bound ∷ bounds) = ap (λ rest. 0 ∷ rest) (zeros-tally bounds)

-- Bounds that ascend from a least value.
Ascending : ℕ → List ℕ → Type 0
Ascending least [] = Unit
Ascending least (bound ∷ bounds) = (least ≤ bound) × Ascending bound bounds

-- The count up to each bound, and the count of all, with `running` before them.
totals : ℕ → List ℕ → List ℕ → List ℕ
totals running bounds seen =
    map (λ bound. running + at_most bound seen) bounds ++ ((running + length seen) ∷ [])

at_most-split :
    (low high : ℕ) (seen : List ℕ)
    → low ≤ high
    → at_most high seen ≡ at_most low seen + at_most high (above low seen)
unfolding at_most above keep
at_most-split low high [] h = omega arith
at_most-split low high (ms ∷ seen) h = ground (arith, at_most-split low high seen h)

weaken :
    (low bound : ℕ) (bounds : List ℕ) → low ≤ bound → Ascending bound bounds → Ascending low bounds
unfolding Ascending
weaken low bound [] h a = tt
weaken low bound (next ∷ bounds) h (k, a) = (omega arith, a)

totals-above :
    (running low : ℕ) (bounds : List ℕ) (seen : List ℕ)
    → Ascending low bounds
    → totals (running + at_most low seen) bounds (above low seen) ≡ totals running bounds seen
unfolding totals Ascending
totals-above running low [] seen a = ap (λ n. n ∷ []) (omega (arith, at_most-above low seen))
totals-above running low (bound ∷ bounds) seen (h, a) =
    ap₂ (λ n rest. n ∷ rest) (omega (arith, at_most-split low bound seen h))
      (totals-above running low bounds seen (weaken low bound bounds h a))

cumulative_from-tally :
    (running : ℕ) (bounds : List ℕ) (seen : List ℕ)
    → Ascending 0 bounds
    → running + length seen < 2 ^ 64
    → cumulative_from running (tally bounds seen) ≡ totals running bounds seen
unfolding cumulative_from tally totals Ascending
cumulative_from-tally running [] seen a h = ap (λ n. n ∷ []) (omega arith)
cumulative_from-tally running (bound ∷ bounds) seen (_, a) h = rw no_wrap (
    ap (λ rest. (running + at_most bound seen) ∷ rest)
      (cumulative_from-tally (running + at_most bound seen) bounds (above bound seen)
          (weaken 0 bound bounds (omega arith) a) (omega (arith, at_most-above bound seen))
        ∙ totals-above running bound bounds seen a))
  where
    no_wrap : fetch_add running (at_most bound seen) ≡ running + at_most bound seen
    no_wrap = omega (arith, at_most-above bound seen)

totals_zero :
    (bounds seen : List ℕ)
    → totals 0 bounds seen
      ≡ map (λ bound. count (λ ms. leb ms bound) seen) bounds ++ (length seen ∷ [])
unfolding totals at_most
totals_zero [] seen = ap (λ n. n ∷ []) (omega arith)
totals_zero (bound ∷ bounds) seen = ap₂ (λ n rest. n ∷ rest) (omega arith) (totals_zero bounds seen)

observe_all-tally :
    (seen : List ℕ)
    → length seen < 2 ^ 64
    → ((observe_all seen).buckets ≡ tally hist_bounds_ms seen)
      × ((observe_all seen).count ≡ length seen)
unfolding observe_all observe
observe_all-tally [] h = (zeros-tally hist_bounds_ms, refl)
observe_all-tally (ms ∷ before) h =
    let (buckets, count) = observe_all-tally before (omega arith) in
    (
      ap (bump (position ms hist_bounds_ms)) buckets
          ∙ bump-tally hist_bounds_ms ms before (omega arith),
      omega (arith, count),
    )

-- Fewer than 2^64 observations, in any order: what the histogram reports for a bound is how many of
-- them are at most the bound, and for the last bucket, as in the count, how many there are.
pub cumulative_counts :
    (seen : List ℕ)
    → length seen < 2 ^ 64
    → (cumulative (observe_all seen)
        ≡ map (λ bound. count (λ ms. leb ms bound) seen) hist_bounds_ms ++ (length seen ∷ []))
      × ((observe_all seen).count ≡ length seen)
unfolding cumulative Ascending
cumulative_counts seen h =
    let (buckets, count) = observe_all-tally seen h in
    (
      ap (cumulative_from 0) buckets
          ∙ cumulative_from-tally 0 hist_bounds_ms seen (ground arith) (omega arith)
          ∙ totals_zero hist_bounds_ms seen,
      count,
    )
