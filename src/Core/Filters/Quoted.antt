-- ===== src/Core/Filters/Quoted.antt =====
-- Quoted filter values.
use mathlib.Core.List.{append_assoc, append-nil}
use cce.Prelude.{
  ℕ, ◌≡◌, refl, ap, ◌∙◌, false, none, some, [], ◌∷◌, ◌++◌, map, Text, txt, text_eq, nat_eq, ◌==◌,
  Bool-cases, inl, inr, arith, eq_iff, eq_refl, length, length-append, to_ascii_lowercase,
}
use cce.Prelude.Strings.{list_beq}
use cce.Prelude.Split.{join, Lacks}
use cce.Prelude.Trim.{is_empty}
use cce.Prelude.Words.{is_whitespace}
use cce.Core.Filters.{
  no_filters, scan, start, tokens_from, tokenize_filters, ends_key, split_once, strip_suffix,
  unwrap_mark, value_of, begin, take_filter, parse_token, parse_tokens, promote,
  parse_query_filters,
}

-- Up to the closing mark everything belongs to the token.
tokens-quoted :
    (m : ℕ) (t v s : Text)
    → Lacks m v
    → tokens_from (record { quote = some m; token = some t }) (v ++ m ∷ s)
      ≡ tokens_from (record { quote = none; token = some (t ++ (v ++ m ∷ [])) }) s
unfolding tokens_from scan
tokens-quoted m t [] s h = rw (eq_refl m) refl
tokens-quoted m t (c ∷ v) s (h, hs) = rw (h) (
    tokens-quoted m (t ++ c ∷ []) v s hs
    ∙ ap (λ (r : Text). tokens_from (record { quote = none; token = some r }) s)
        (append_assoc t (c ∷ []) (v ++ m ∷ [])))

-- An open quote runs to the end.
tokens-open :
    (m : ℕ) (t v : Text)
    → Lacks m v
    → tokens_from (record { quote = some m; token = some t }) v ≡ (t ++ v) ∷ []
unfolding tokens_from scan
tokens-open m t [] h = rw append-nil refl
tokens-open m t (c ∷ v) (h, hs) =
    rw h (tokens-open m (t ++ c ∷ []) v hs ∙ ap (λ (r : Text). r ∷ []) (append_assoc t (c ∷ []) v))

strip_suffix-append : (d : ℕ) (v : Text) → strip_suffix d (v ++ d ∷ []) ≡ some v
unfolding strip_suffix
strip_suffix-append d [] = rw (eq_refl d) refl
strip_suffix-append d (c ∷ []) = rw (strip_suffix-append d []) refl
strip_suffix-append d (c ∷ e ∷ v) = rw (strip_suffix-append d (e ∷ v)) refl

strip_suffix-Lacks : (d : ℕ) (v : Text) → Lacks d v → strip_suffix d v ≡ none
unfolding strip_suffix
strip_suffix-Lacks d [] h = refl
strip_suffix-Lacks d (c ∷ []) (h, hs) = rw h refl
strip_suffix-Lacks d (c ∷ e ∷ v) (h, hs) = rw (strip_suffix-Lacks d (e ∷ v) hs) refl

longer : (c d : ℕ) (v : Text) → (v == c ∷ (v ++ d ∷ [])) ≡ false
longer c d v = elim (Bool-cases (v == c ∷ (v ++ d ∷ []))) [
  | inr other ↦ other
  | inl same ↦
      absurd
        (omega (arith, ap length ((eq_iff v (c ∷ (v ++ d ∷ []))).0 same), length-append v (d ∷ [])))
]

value-quoted : (v : Text) → value_of (b'\'' ∷ (v ++ b'\'' ∷ [])) ≡ v
unfolding value_of unwrap_mark
value-quoted v = rw (strip_suffix-append b'\'' v) refl

value-open : (v : Text) → Lacks b'\'' v → value_of (b'\'' ∷ v) ≡ b'\'' ∷ v
unfolding value_of unwrap_mark
value-open v h = rw (strip_suffix-Lacks b'\'' v h) refl

-- The quoted token of a key, and its filter.
abbrev quoted : Text → Text → Text
quoted key v = key ++ (b':' ∷ b'\'' ∷ (v ++ b'\'' ∷ []))

-- A key that the tokenizer and `split_once` read off at the front of a query.
record IsKey (key : Text) : Type 0 where
  scanned :
      (s : Text)
      → tokens_from start (key ++ (b':' ∷ b'\'' ∷ s))
        ≡ tokens_from (record { quote = some b'\''; token = some (key ++ (b':' ∷ b'\'' ∷ [])) }) s
  split : (s : Text) → split_once b':' (key ++ (b':' ∷ s)) ≡ some (key, s)

parse-quoted :
    (key v : Text)
    → IsKey key
    → Lacks b'\'' v
    → is_empty v ≡ false
    → parse_query_filters (quoted key v) ≡ promote (take_filter (quoted key v) key v begin)
unfolding parse_query_filters tokenize_filters parse_tokens parse_token tokens_from promote
parse-quoted key v k h n =
    let one = append_assoc key (b':' ∷ b'\'' ∷ []) (v ++ b'\'' ∷ []) in
    rw
      (
        k.scanned (v ++ b'\'' ∷ []),
        tokens-quoted b'\'' (key ++ (b':' ∷ b'\'' ∷ [])) v [] h,
        tokens_from,
        one,
      )
      (rw (k.split (b'\'' ∷ (v ++ b'\'' ∷ [])), parse_tokens, parse_token)
        (rw (value-quoted v) (rw (longer b'\'' b'\'' v, n) refl)))

parse-open :
    (key v : Text)
    → IsKey key
    → Lacks b'\'' v
    → parse_query_filters (key ++ (b':' ∷ b'\'' ∷ v)) ≡ (key ++ (b':' ∷ b'\'' ∷ v), no_filters)
unfolding parse_query_filters tokenize_filters parse_tokens parse_token tokens_from promote join
parse-open key v k h =
    let one = append_assoc key (b':' ∷ b'\'' ∷ []) v in
    rw (k.scanned v, tokens-open b'\'' (key ++ (b':' ∷ b'\'' ∷ [])) v h, one)
      (rw (k.split (b'\'' ∷ v), parse_token) (rw (value-open v h) (rw (eq_refl (b'\'' ∷ v)) refl)))

pat-IsKey : IsKey (txt "pat")
unfolding tokens_from scan ends_key split_once is_whitespace
pat-IsKey = record { scanned = λ s. refl; split = λ s. refl }

path-IsKey : IsKey (txt "path")
unfolding tokens_from scan ends_key split_once is_whitespace
path-IsKey = record { scanned = λ s. refl; split = λ s. refl }

lang-IsKey : IsKey (txt "lang")
unfolding tokens_from scan ends_key split_once is_whitespace
lang-IsKey = record { scanned = λ s. refl; split = λ s. refl }

-- A value that is not empty and has no single quote, whatever else it holds (spaces, colons,
-- parentheses), comes back from a query that quotes it: as the pattern, as the path prefix, or in
-- lower case as the language; nothing else is set, and no query text is left.
pub quoted_value_comes_back :
    (v : Text)
    → Lacks b'\'' v
    → is_empty v ≡ false
    → (parse_query_filters (txt "pat:'" ++ (v ++ txt "'"))
        ≡ ([], record no_filters { pattern = some v }))
      × (parse_query_filters (txt "path:'" ++ (v ++ txt "'"))
          ≡ ([], record no_filters { path_prefix = some v }))
      × (parse_query_filters (txt "lang:'" ++ (v ++ txt "'"))
          ≡ ([], record no_filters { language = some (map to_ascii_lowercase v) }))
unfolding take_filter promote join list_beq
quoted_value_comes_back v h n = (
  parse-quoted (txt "pat") v pat-IsKey h n,
  parse-quoted (txt "path") v path-IsKey h n,
  parse-quoted (txt "lang") v lang-IsKey h n,
)

-- A quote that is opened and never closed is not read as a filter: for a value without a single
-- quote, the query comes back as it was, to its end, and no filter is set.
pub unclosed_quote_is_kept :
    (v : Text)
    → Lacks b'\'' v
    → (parse_query_filters (txt "pat:'" ++ v) ≡ (txt "pat:'" ++ v, no_filters))
      × (parse_query_filters (txt "path:'" ++ v) ≡ (txt "path:'" ++ v, no_filters))
      × (parse_query_filters (txt "lang:'" ++ v) ≡ (txt "lang:'" ++ v, no_filters))
unclosed_quote_is_kept v h = (
  parse-open (txt "pat") v pat-IsKey h,
  parse-open (txt "path") v path-IsKey h,
  parse-open (txt "lang") v lang-IsKey h,
)
