-- ===== src/Core/Address/Normal.antt =====
-- The paths that a `SourceAddress` can have.
use cce.Prelude.{
  ℕ, ◌+◌, ◌++◌, ◌≤◌, ◌≡◌, ◌⊎◌, ◌≢◌, refl, false, Option, none, some, List, [], ◌∷◌, Text, txt,
  text_eq, ◌==◌, nat_eq, map, All, arith, Bool-cases, Option-cases, inl, inr, ltb,
}
use cce.Prelude.Split.{split_on, join, Lacks, split_on-Lacks, split_on-All, split_on-join}
use cce.Prelude.Trim.{is_empty}
use cce.Prelude.Components.{IsName, IsName-Lacks}
use cce.Core.Address.{
  SourceAddress, CceError, Result, ok, err, push_piece, slashed, normalized,
  normalize_relative_path, new, byte_len,
}

-- A path of one or more names, joined by slashes, without a backslash.
pub record IsNormal (path : Text) : Type 0 where
  pub pieces : List Text
  pub nonempty : pieces ≢ []
  pub named : All IsName pieces
  pub plain : All (Lacks b'\\') pieces
  pub joined : path ≡ join (txt "/") pieces

slashed-Lacks : (s : Text) → Lacks b'\\' (map slashed s)
slashed-Lacks [] = tt
slashed-Lacks (c ∷ s) = (ground arith, slashed-Lacks s)

push_piece-some :
    (piece : Text) (o : Option (List Text)) (ns : List Text)
    → push_piece piece o ≡ some ns
    → (rest : List Text) × (o ≡ some rest) × (ns ≡ piece ∷ rest)
push_piece-some piece none ns h = absurd (cc)
push_piece-some piece (some rest) ns h = (rest, refl, cc)

-- What is kept of the pieces.
Kept : List Text → Type 0
Kept ns = All IsName ns × All (Lacks b'\\') ns

Kept-normalized :
    (pieces ns : List Text)
    → All (Lacks b'/') pieces
    → All (Lacks b'\\') pieces
    → normalized pieces ≡ some ns
    → Kept ns
unfolding Kept normalized
Kept-normalized [] [] l m h = (tt, tt)
Kept-normalized [] (n ∷ ns) l m h = absurd (cc)
Kept-normalized (p ∷ ps) ns (l, ls) (m, ms) h = elim (Bool-cases (is_empty p)) [
  | inl gone ↦ Kept-normalized ps ns ls ms (ground (arith, gone))
  | inr stays ↦ elim (Bool-cases (p == txt ".")) [
    | inl here ↦ Kept-normalized ps ns ls ms (ground (arith, stays, here))
    | inr below ↦ elim (Bool-cases (p == txt "..")) [
      | inl up ↦ absurd (ground (arith, stays, below, up))
      | inr inside ↦
          let (rest, e, split) =
            push_piece-some p (normalized ps) ns (ground (arith, stays, below, inside)) in
          let (names, plain) = Kept-normalized ps rest ls ms e in
          rw split (
            (record { nonempty = stays; below = below; inside = inside; one = l }, names),
            (m, plain),
          )
    ]
  ]
]

normalized-IsNormal : (path path' : Text) → normalize_relative_path path ≡ ok path' → IsNormal path'
unfolding normalize_relative_path Kept
normalized-IsNormal path path' h =
    let pieces = split_on b'/' (map slashed path) in
    elim (Option-cases (normalized pieces)) [
      | inl escaped ↦ absurd (ground (arith, escaped))
      | inr ([], kept) ↦ absurd (ground (arith, kept))
      | inr (n ∷ ns, kept) ↦
          let (named, plain) =
            Kept-normalized pieces (n ∷ ns) (split_on-Lacks b'/' (map slashed path))
              (split_on-All (λ c. (c == b'\\') ≡ false) b'/' (map slashed path)
                (slashed-Lacks path))
              kept in
          record {
            pieces = n ∷ ns;
            nonempty = λ e. cc;
            named = named;
            plain = plain;
            joined = ground (arith, kept);
          }
    ]

slashed_of_Lacks : (s : Text) → Lacks b'\\' s → map slashed s ≡ s
slashed_of_Lacks [] h = refl
slashed_of_Lacks (c ∷ s) (h, hs) = rw (h, slashed_of_Lacks s hs) refl

normalized_of_names : (ns : List Text) → All IsName ns → normalized ns ≡ some ns
unfolding normalized
normalized_of_names [] h = refl
normalized_of_names (n ∷ ns) (h, hs) =
    rw (h.nonempty, h.below, h.inside, normalized_of_names ns hs) refl

Lacks-append : (d : ℕ) (s t : Text) → Lacks d s → Lacks d t → Lacks d (s ++ t)
Lacks-append d [] t h k = k
Lacks-append d (c ∷ s) t (h, hs) k = (h, Lacks-append d s t hs k)

Lacks-join : (ns : List Text) → All (Lacks b'\\') ns → Lacks b'\\' (join (txt "/") ns)
unfolding join
Lacks-join [] h = tt
Lacks-join (n ∷ []) (h, hs) = h
Lacks-join (n ∷ q ∷ ns) (h, hs) =
    Lacks-append b'\\' n (b'/' ∷ join (txt "/") (q ∷ ns)) h (refl, Lacks-join (q ∷ ns) hs)

nonempty_cons : (ns : List Text) → ns ≢ [] → is_empty ns ≡ false
nonempty_cons [] h = absurd (h refl)
nonempty_cons (n ∷ ns) h = refl

normalize_of_IsNormal : (path : Text) → IsNormal path → normalize_relative_path path ≡ ok path
unfolding normalize_relative_path
normalize_of_IsNormal path h =
    let s = join (txt "/") h.pieces in
    rw (h.joined) (
      rw
        (
          slashed_of_Lacks s (Lacks-join h.pieces h.plain),
          split_on-join b'/' h.pieces h.nonempty (IsName-Lacks h.pieces h.named),
          normalized_of_names h.pieces h.named,
          nonempty_cons h.pieces h.nonempty,
          normalize_relative_path,
        )
        refl)

-- Whatever the path: normalizing it fails, or gives a normal path: one or more names joined by
-- slashes, none of them empty, `.` or `..`, and no backslash. The normal paths are exactly those
-- that normalizing leaves as they are, so that normalizing twice is normalizing once.
pub normalize_sound :
    (path path' : Text)
    → (normalize_relative_path path ≡ ok path'
        → IsNormal path' × (normalize_relative_path path' ≡ ok path'))
      × (IsNormal path → normalize_relative_path path ≡ ok path)
normalize_sound path path' = (
  λ h. (
    normalized-IsNormal path path' h,
    normalize_of_IsNormal path' (normalized-IsNormal path path' h),
  ),
  normalize_of_IsNormal path,
)

Result-cases : {A : Type 0} (r : Result A) → ((e : CceError) × (r ≡ err e)) ⊎ ((a : A) × (r ≡ ok a))
Result-cases (err e) = inl (e, refl)
Result-cases (ok a) = inr (a, refl)

-- An address that is built has a normal path, the given ids and lines, no symbol, and a byte range
-- that does not end before it starts; its length is the length of that range.
pub new_sound :
    (repository_id snapshot_id path : Text) (start_byte end_byte start_line end_line : ℕ)
    (a : SourceAddress)
    → new repository_id snapshot_id path (start_byte, end_byte) (start_line, end_line) ≡ ok a
    → IsNormal a.path
      × (start_byte ≤ end_byte)
      × (byte_len a + start_byte ≡ end_byte)
      × (a.start_line ≡ start_line)
      × (a.end_line ≡ end_line)
      × (a.symbol_id ≡ none)
unfolding new byte_len
new_sound r s path sb eb sl el a h = elim (Result-cases (normalize_relative_path path)) [
  | inl (e, failed) ↦ absurd (ground (arith, failed))
  | inr (path', normal) ↦ elim (Bool-cases (ltb eb sb)) [
    | inl inverted ↦ absurd (ground (arith, normal, inverted))
    | inr fits ↦
        let same : a.path ≡ path' = ground (arith, normal, fits) in
        (
          rw same (normalized-IsNormal path path' normal),
          ground (arith, normal, fits),
          ground (arith, normal, fits),
          ground (arith, normal, fits),
          ground (arith, normal, fits),
          ground (arith, normal, fits),
        )
  ]
]
