-- ===== src/Gateway/Registry/Paths.antt =====
-- `safe_relpath` and `blob_path` of apps/gateway/src/main.rs: what a push may name.
use cce.Prelude.{
  map, ℕ, ◌≡◌, refl, sym, ◌≢◌, Bool, true, false, ◌||◌, ◌&&◌, not, Option, none, some, List, [],
  ◌∷◌, Text, txt, text_eq, ◌==◌, nat_eq, if◌then◌else◌, All, arith, Bool-cases, inl, inr, take, leb,
  is_ascii_digit,
}
use cce.Prelude.Lists.{any}
use cce.Prelude.Split.{split_on, join, Lacks, split_on-join, split_on-head, split_on-Lacks}
use cce.Prelude.Trim.{is_empty, starts_with}
use cce.Prelude.Utf8.{byte_len}
use cce.Prelude.Components.{
  Component, root_dir, cur_dir, parent_dir, normal, components_of, components, IsName, IsName-Lacks,
  is_absolute, walk,
}

abbrev is_not_normal : Component → Bool
is_not_normal (normal _) = false
is_not_normal _ = true

-- `none` is the error response.
unfoldable pub safe_relpath : Text → Option Text
safe_relpath path =
    if is_empty path || is_absolute path || any is_not_normal (components path)
    then none
    else some path

abbrev is_ascii_hexdigit : ℕ → Bool
is_ascii_hexdigit c = is_ascii_digit c || (leb b'a' c && leb c b'f') || (leb b'A' c && leb c b'F')

-- `data_dir.join("blobs").join(&digest[..2]).join(digest)`, as the names below `data_dir`.
unfoldable pub blob_path : Text → Option (List Text)
blob_path digest =
    if not (byte_len digest == 64) || any (λ c. not (is_ascii_hexdigit c)) digest
    then none
    else some (txt "blobs" ∷ take 2 digest ∷ digest ∷ [])

-- The names that normal components carry.
unfoldable pub names : List Component → List Text
names [] = []
names (normal name ∷ cs) = name ∷ names cs
names (_ ∷ cs) = names cs

-- The directory reached by going down by these names.
abbrev pub descend : List Text → List Text → List Text
descend dirs [] = dirs
descend dirs (name ∷ ns) = descend (name ∷ dirs) ns

walk-normal :
    (base : List Text) (cs : List Component)
    → any is_not_normal cs ≡ false
    → walk base cs ≡ descend base (names cs)
unfolding walk any names
walk-normal base [] h = refl
walk-normal base (normal name ∷ cs) h = walk-normal (name ∷ base) cs h
walk-normal base (root_dir ∷ cs) h = absurd (cc)
walk-normal base (cur_dir ∷ cs) h = absurd (cc)
walk-normal base (parent_dir ∷ cs) h = absurd (cc)

names-IsName :
    (front : Bool) (pieces : List Text)
    → All (Lacks b'/') pieces
    → any is_not_normal (components_of front pieces) ≡ false
    → All IsName (names (components_of front pieces))
unfolding any names components_of
names-IsName front [] l h = tt
names-IsName front (p ∷ ps) (l, ls) h = elim (Bool-cases (is_empty p)) [
  | inl gone ↦ rw gone (names-IsName false ps ls (ground (arith, gone)))
  | inr stays ↦ elim (Bool-cases (p == txt ".")) [
    | inl here ↦ elim (Bool-cases front) [
      | inl first ↦ absurd (ground (arith, stays, here, first))
      | inr later ↦
          rw (stays, here, later) (names-IsName false ps ls (ground (arith, stays, here, later)))
    ]
    | inr below ↦ elim (Bool-cases (p == txt "..")) [
      | inl up ↦ absurd (ground (arith, stays, below, up))
      | inr inside ↦
          rw (stays, below, inside)
            (
              record { nonempty = stays; below = below; inside = inside; one = l },
              names-IsName false ps ls (ground (arith, stays, below, inside)),
            )
    ]
  ]
]

first_is_kept :
    (c : ℕ) (s : Text) (ps : List Text)
    → any is_not_normal (components_of true ((c ∷ s) ∷ ps)) ≡ false
    → names (components_of true ((c ∷ s) ∷ ps)) ≢ []
unfolding any names components_of
first_is_kept c s ps h e = elim (Bool-cases ((c ∷ s) == txt ".")) [
  | inl here ↦ absurd (ground (arith, here))
  | inr below ↦ elim (Bool-cases ((c ∷ s) == txt "..")) [
    | inl up ↦ absurd (ground (arith, below, up))
    | inr inside ↦ absurd (ground (arith, below, inside))
  ]
]

slash_is_absolute : (c : ℕ) (s : Text) → (c == b'/') ≡ true → is_absolute (c ∷ s) ≢ false
unfolding starts_with
slash_is_absolute c s h e = ground (arith, h, e)

names-nonempty :
    (path : Text)
    → is_empty path ≡ false
    → is_absolute path ≡ false
    → any is_not_normal (components_of true (split_on b'/' path)) ≡ false
    → names (components_of true (split_on b'/' path)) ≢ []
names-nonempty [] n r h = absurd (cc)
names-nonempty (c ∷ s) n r h = elim (Bool-cases (c == b'/')) [
  | inl same ↦ absurd (slash_is_absolute c s same r)
  | inr other ↦
      let (p, ps, e) = split_on-head b'/' c s other in rw e (first_is_kept c p ps (rw e at h))
]

-- What is accepted is the path itself. It has one or more components, all of them plain names, and
-- from whatever directory it leads down by these names: it never leaves that directory.
pub safe_relpath_stays_inside :
    (path rel : Text)
    → safe_relpath path ≡ some rel
    → (rel ≡ path)
      × (ns : List Text) × (ns ≢ [])
      × All IsName ns
      × ((dir : List Text) → walk dir (components rel) ≡ descend dir ns)
unfolding safe_relpath components
safe_relpath_stays_inside path rel h = elim (Bool-cases (is_empty path)) [
  | inl none_given ↦ absurd (ground (arith, none_given))
  | inr given ↦ elim (Bool-cases (is_absolute path)) [
    | inl outside ↦ absurd (ground (arith, given, outside))
    | inr relative ↦
        elim (Bool-cases (any is_not_normal (components_of true (split_on b'/' path)))) [
          | inl bad ↦ absurd (ground (arith, given, relative, bad))
          | inr good ↦
              let same : path ≡ rel = ground (arith, given, relative, good, h) in
              let cs = components_of true (split_on b'/' path) in
              (
                sym same,
                names cs,
                names-nonempty path given relative good,
                names-IsName true (split_on b'/' path) (split_on-Lacks b'/' path) good,
                λ dir. rw (← same, relative) (walk-normal dir cs good),
              )
        ]
  ]
]

components_of-names :
    (front : Bool) (ns : List Text) → All IsName ns → components_of front ns ≡ map normal ns
unfolding components_of
components_of-names front [] h = refl
components_of-names front (n ∷ ns) (h, hs) =
    rw (h.nonempty, h.below, h.inside, components_of-names false ns hs) refl

any-normal : (ns : List Text) → any is_not_normal (map normal ns) ≡ false
unfolding any
any-normal [] = refl
any-normal (n ∷ ns) = any-normal ns

joined_is_relative :
    (ns : List Text)
    → ns ≢ []
    → All IsName ns
    → (is_empty (join (txt "/") ns) ≡ false) × (is_absolute (join (txt "/") ns) ≡ false)
unfolding join starts_with
joined_is_relative [] ne h = absurd (ne refl)
joined_is_relative ([] ∷ ns) ne (h, hs) = absurd (cc (h.nonempty))
joined_is_relative ((c ∷ s) ∷ []) ne (h, hs) = (refl, ground (arith, h.one.0))
joined_is_relative ((c ∷ s) ∷ q ∷ ns) ne (h, hs) = (refl, ground (arith, h.one.0))

-- Every path made of one or more plain names is accepted, as it is.
pub safe_relpath_accepts :
    (ns : List Text)
    → ns ≢ []
    → All IsName ns
    → safe_relpath (join (txt "/") ns) ≡ some (join (txt "/") ns)
unfolding safe_relpath components
safe_relpath_accepts ns ne h =
    let (given, relative) = joined_is_relative ns ne h in
    rw
      (
        given,
        relative,
        split_on-join b'/' ns ne (IsName-Lacks ns h),
        components_of-names true ns h,
        any-normal ns,
      )
      refl
