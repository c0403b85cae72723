-- ===== src/Gateway/Registry/Slug.antt =====
-- `slugify` of apps/gateway/src/main.rs: the directory name of a repository.
use cce.Prelude.{
  ℕ, ◌≡◌, refl, subst, ◌↔◌, Bool, true, false, ◌||◌, [], ◌∷◌, map, Text, txt, ◌==◌, nat_eq,
  if◌then◌else◌, is_ascii_alphanumeric, is_ascii_digit, is_ascii_lowercase, to_ascii_lowercase, All,
  arith,
}
use cce.Prelude.Trim.{
  is_empty, trim, trim_start, Starts, Ends, trim_start-Starts, trim_end-Starts, trim_end-Ends,
  trim_start_of_Starts, trim_end_of_Ends, All-trim_start, All-trim_end,
}

abbrev is_kept : ℕ → Bool
is_kept c = is_ascii_alphanumeric c || c == b'-' || c == b'_' || c == b'.'

unfoldable pub slug_char : ℕ → ℕ
slug_char c = if is_kept c then to_ascii_lowercase c else b'-'

abbrev or_repo : Text → Text
or_repo s = if is_empty s then txt "repo" else s

unfoldable pub slugify : Text → Text
slugify name = or_repo (trim b'-' (map slug_char name))

-- A lower-case letter, a digit, `-`, `_` or `.`.
abbrev pub is_slug_char : ℕ → Bool
is_slug_char c = is_ascii_lowercase c || is_ascii_digit c || c == b'-' || c == b'_' || c == b'.'

pub record IsSlug (s : Text) : Type 0 where
  pub chars : All (λ c. is_slug_char c ≡ true) s
  pub nonempty : is_empty s ≡ false
  pub start : Starts b'-' s
  pub end : Ends b'-' s

slug_char-is_slug_char : (c : ℕ) → is_slug_char (slug_char c) ≡ true
unfolding slug_char
slug_char-is_slug_char c = ground arith

slug_char_fixed : (c : ℕ) → is_slug_char c ≡ true → slug_char c ≡ c
unfolding slug_char
slug_char_fixed c h = ground arith

map-chars : (s : Text) → All (λ c. is_slug_char c ≡ true) (map slug_char s)
map-chars [] = tt
map-chars (c ∷ s) = (slug_char-is_slug_char c, map-chars s)

map_fixed : (s : Text) → All (λ c. is_slug_char c ≡ true) s → map slug_char s ≡ s
map_fixed [] h = refl
map_fixed (c ∷ s) (h, hs) = rw (slug_char_fixed c h, map_fixed s hs)

or_repo-IsSlug :
    (s : Text)
    → All (λ c. is_slug_char c ≡ true) s
    → Starts b'-' s
    → Ends b'-' s
    → IsSlug (or_repo s)
or_repo-IsSlug [] h a e = record {
  chars = (refl, (refl, (refl, (refl, tt))));
  nonempty = refl;
  start = refl;
  end = refl;
}
or_repo-IsSlug (c ∷ s) h a e = record { chars = h; nonempty = refl; start = a; end = e }

slugify-IsSlug : (name : Text) → IsSlug (slugify name)
unfolding slugify
slugify-IsSlug name =
    let s = map slug_char name in
    let P : ℕ → Type 0 = λ c. is_slug_char c ≡ true in
    or_repo-IsSlug (trim b'-' s)
      (All-trim_end P b'-' (trim_start b'-' s) (All-trim_start P b'-' s (map-chars name)))
      (trim_end-Starts b'-' (trim_start b'-' s) (trim_start-Starts b'-' s))
      (trim_end-Ends b'-' (trim_start b'-' s))

slugify_of_IsSlug : (s : Text) → IsSlug s → slugify s ≡ s
unfolding slugify
slugify_of_IsSlug s h = rw (
  map_fixed s h.chars,
  trim_start_of_Starts b'-' s h.start,
  trim_end_of_Ends b'-' s h.end,
  h.nonempty,
)

-- Whatever the name: its slug is not empty, consists of lower-case letters, digits, `-`, `_` and
-- `.`, and neither begins nor ends with `-`; and slugs are exactly the texts that `slugify` leaves
-- as they are.
pub slugify_sound : (name s : Text) → IsSlug (slugify name) × (IsSlug s ↔ (slugify s ≡ s))
slugify_sound name s =
    (slugify-IsSlug name, (slugify_of_IsSlug s, λ e. subst IsSlug e (slugify-IsSlug s)))
