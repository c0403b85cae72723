-- ===== src/Core/Text/Terms.antt =====
-- The terms of an identifier: in order, each once, none empty.
use cce.Prelude.{
  ℕ, ◌≡◌, ◌∙◌, refl, ap, sym, subst, true, false, ◌&&◌, List, [], ◌∷◌, ◌++◌, map, Text, text_eq,
  ◌==◌, to_ascii_lowercase, All, Bool-cases, inl, inr, eq_iff,
}
use cce.Prelude.Sort.{dedup, sort_by, text_leb, Sorted, Sorted-sort_by, All-sort_by}
use cce.Prelude.Trim.{is_empty}
use cce.Prelude.Words.{Chars}
use cce.Core.Text.{Splitting, push_term, split_char, split_chars, split_identifier_terms}

-- Each term is strictly before the next.
abbrev pub Ascending : List Text → Type 0
Ascending [] = Unit
Ascending (x ∷ []) = Unit
Ascending (x ∷ y ∷ ys) = (text_leb x y ≡ true) × ((x == y) ≡ false) × Ascending (y ∷ ys)

dedup-Ascending :
    (x : Text) (xs : List Text)
    → Sorted (λ t. t) (x ∷ xs)
    → (r : List Text) × (dedup (x ∷ xs) ≡ x ∷ r) × Ascending (x ∷ r)
unfolding dedup
dedup-Ascending x [] h = ([], refl, tt)
dedup-Ascending x (y ∷ ys) (h, hs) =
    let (r, e, a) = dedup-Ascending y ys hs in
    elim (Bool-cases (x == y)) [
      | inl same ↦
          let equal = (eq_iff x y).0 same in
          rw same (
            r,
            e ∙ ap (λ (t : Text). t ∷ r) (sym equal),
            subst (λ (t : Text). Ascending (t ∷ r)) (sym equal) a,
          )
      | inr other ↦ rw other (y ∷ r, ap (λ (t : List Text). x ∷ t) e, (h, other, a))
    ]

abbrev IsFilled : Text → Type 0
IsFilled t = is_empty t ≡ false

All-dedup : (xs : List Text) → All IsFilled xs → All IsFilled (dedup xs)
unfolding dedup
All-dedup [] h = tt
All-dedup (x ∷ []) h = h
All-dedup (x ∷ y ∷ ys) (h, hs) = elim (Bool-cases (x == y)) [
  | inl same ↦ rw same (All-dedup (y ∷ ys) hs)
  | inr other ↦ rw other (h, All-dedup (y ∷ ys) hs)
]

All-snoc : (ts : List Text) (t : Text) → All IsFilled ts → IsFilled t → All IsFilled (ts ++ t ∷ [])
All-snoc [] t h k = (k, tt)
All-snoc (u ∷ ts) t (h, hs) k = (h, All-snoc ts t hs k)

IsFilled-lowercase : (t : Text) → IsFilled t → IsFilled (map to_ascii_lowercase t)
IsFilled-lowercase [] h = h
IsFilled-lowercase (c ∷ t) h = refl

push_term-IsFilled : (st : Splitting) → All IsFilled st.terms → All IsFilled (push_term st).terms
push_term-IsFilled st h = elim (Bool-cases (is_empty st.current)) [
  | inl none_read ↦ rw none_read h
  | inr read ↦
      rw read (
        All-snoc st.terms (map to_ascii_lowercase st.current) h
          (IsFilled-lowercase st.current read))
]

module _ (chars : Chars) where
  split_char-IsFilled :
      (c : ℕ) (st : Splitting) → All IsFilled st.terms → All IsFilled (split_char chars c st).terms
  unfolding split_char
  split_char-IsFilled c st h = elim (Bool-cases (chars.is_alphanumeric c)) [
    | inl word ↦ elim (Bool-cases (st.previous_lower && chars.is_uppercase c)) [
      | inl hump ↦ rw (word, hump) (push_term-IsFilled st h)
      | inr flat ↦ rw (word, flat) h
    ]
    | inr other ↦ elim (Bool-cases (is_empty st.current)) [
      | inl none_read ↦ rw (other, none_read) h
      | inr read ↦
          rw (other, read)
            (All-snoc st.terms (map to_ascii_lowercase st.current) h
              (IsFilled-lowercase st.current read))
    ]
  ]

  split_chars-IsFilled :
      (s : Text) (st : Splitting)
      → All IsFilled st.terms
      → All IsFilled (split_chars chars s st).terms
  unfolding split_chars
  split_chars-IsFilled [] st h = h
  split_chars-IsFilled (c ∷ s) st h =
      split_chars-IsFilled s (split_char chars c st) (split_char-IsFilled c st h)

  ascending : (xs : List Text) → Sorted (λ t. t) xs → Ascending (dedup xs)
  unfolding dedup
  ascending [] h = tt
  ascending (x ∷ xs) h = let (r, e, a) = dedup-Ascending x xs h in rw e a

  -- Whatever the name: its terms are in strictly ascending order, so that none stands twice, and
  -- none of them is empty.
  pub split_identifier_terms-Ascending :
      (name : Text)
      → Ascending (split_identifier_terms chars name)
        × All (λ (t : Text). is_empty t ≡ false) (split_identifier_terms chars name)
  unfolding split_identifier_terms
  split_identifier_terms-Ascending name =
      let st =
        split_chars chars name (record { terms = []; current = []; previous_lower = false }) in
      let ts = (push_term st).terms in
      (
        ascending (sort_by (λ t. t) ts) (Sorted-sort_by (λ t. t) ts),
        All-dedup (sort_by (λ t. t) ts) (
            All-sort_by (λ t. t) IsFilled ts
              (push_term-IsFilled st (split_chars-IsFilled name _ tt))),
      )
