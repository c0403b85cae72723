-- ===== src/Core/Filters.antt =====
-- Query filters of crates/cce-core/src/retrieval.rs: `tokenize_filters` and `parse_query_filters`.
-- A slice of the query is the list of its characters.
pub mod Quoted
use cce.Prelude.{
  ℕ, Bool, true, false, not, ◌&&◌, ◌||◌, Option, none, some, List, [], ◌∷◌, ◌++◌, map, Text, txt,
  text_eq, nat_eq, ◌==◌, if◌then◌else◌, is_ascii_alphanumeric, to_ascii_lowercase,
}
use cce.Prelude.Split.{join}
use cce.Prelude.Trim.{is_empty, starts_with}
use cce.Prelude.Words.{is_whitespace}

pub record QueryFilters : Type 0 where
  pub path_prefix : Option Text
  pub language : Option Text
  pub hit_type : Option Text
  pub pattern : Option Text

abbrev pub is_none : Option Text → Bool
is_none none = true
is_none (some _) = false

-- `QueryFilters::default()` and `is_empty`.
abbrev pub no_filters : QueryFilters
no_filters = record { path_prefix = none; language = none; hit_type = none; pattern = none }

unfoldable pub has_no_filter : QueryFilters → Bool
has_no_filter f =
    is_none f.path_prefix && is_none f.language && is_none f.hit_type && is_none f.pattern

-- The variables of the tokenizer: the mark of an open quote, and the token read so far.
pub record Scan : Type 0 where
  pub quote : Option ℕ
  pub token : Option Text

abbrev pub read : Option Text → Text
read none = []
read (some token) = token

abbrev pub flush : Option Text → List Text
flush none = []
flush (some token) = token ∷ []

abbrev is_key_char : ℕ → Bool
is_key_char c = is_ascii_alphanumeric c || c == b'_'

-- `strip_suffix(':')` gives letters, digits and underscores.
unfoldable pub ends_key : Text → Bool
ends_key [] = false
ends_key (c ∷ []) = c == b':'
ends_key (c ∷ d ∷ s) = is_key_char c && ends_key (d ∷ s)

abbrev pub is_mark : ℕ → Bool
is_mark c = c == b'\'' || c == b'"'

abbrev pub opens : Text → ℕ → Option ℕ
opens token c = if is_mark c && ends_key token then some c else none

abbrev in_quote : ℕ → ℕ → Scan → Scan × List Text
in_quote mark c st = (
  record { quote = if c == mark then none else some mark; token = some (read st.token ++ c ∷ []) },
  [],
)

abbrev outside : ℕ → Scan → Scan × List Text
outside c st =
    if is_whitespace c
    then (record { quote = none; token = none }, flush st.token)
    else (record { quote = opens (read st.token) c; token = some (read st.token ++ c ∷ []) }, [])

-- One character: the variables afterwards, and the token that it ends.
unfoldable pub scan : ℕ → Scan → Scan × List Text
scan c st = elim st.quote [ some mark ↦ in_quote mark c st | none ↦ outside c st ]

unfoldable pub tokens_from : Scan → Text → List Text
tokens_from st [] = flush st.token
tokens_from st (c ∷ s) = let (st', ended) = scan c st in ended ++ tokens_from st' s

abbrev pub start : Scan
start = record { quote = none; token = none }

unfoldable pub tokenize_filters : Text → List Text
tokenize_filters query = tokens_from start query

-- `split_once(':')`.
abbrev push_key : ℕ → Option (Text × Text) → Option (Text × Text)
push_key c none = none
push_key c (some (key, value)) = some (c ∷ key, value)

unfoldable pub split_once : ℕ → Text → Option (Text × Text)
split_once d [] = none
split_once d (c ∷ s) = let rest = split_once d s in if c == d then some ([], s) else push_key c rest

abbrev push_front : ℕ → Option Text → Option Text
push_front c none = none
push_front c (some s) = some (c ∷ s)

unfoldable pub strip_suffix : ℕ → Text → Option Text
strip_suffix d [] = none
strip_suffix d (c ∷ []) = if c == d then some [] else none
strip_suffix d (c ∷ e ∷ s) = push_front c (strip_suffix d (e ∷ s))

-- `strip_prefix(mark).and_then(|v| v.strip_suffix(mark))`.
unfoldable pub unwrap_mark : ℕ → Text → Option Text
unwrap_mark d [] = none
unwrap_mark d (c ∷ s) = let rest = strip_suffix d s in if c == d then rest else none

abbrev or_raw : Text → Option Text → Option Text → Text
or_raw raw (some v) o = v
or_raw raw none (some v) = v
or_raw raw none none = raw

unfoldable pub value_of : Text → Text
value_of raw = or_raw raw (unwrap_mark b'\'' raw) (unwrap_mark b'"' raw)

abbrev is_quoted : Text → Bool
is_quoted [] = false
is_quoted (c ∷ s) = is_mark c

-- The variables of the parser.
pub record Parsing : Type 0 where
  pub filters : QueryFilters
  pub structural : Bool
  pub kept : List Text

abbrev pub keep_token : Text → Parsing → Parsing
keep_token token p = record p { kept = p.kept ++ token ∷ [] }

abbrev set_path : Text → QueryFilters → QueryFilters
set_path value f = record f { path_prefix = some value }

abbrev set_language : Text → QueryFilters → QueryFilters
set_language value f = record f { language = some (map to_ascii_lowercase value) }

abbrev set_type : Text → QueryFilters → QueryFilters
set_type value f = record f { hit_type = some value }

abbrev set_pattern : Text → QueryFilters → QueryFilters
set_pattern value f = record f { pattern = some value }

unfoldable pub is_hit_type : Text → Bool
is_hit_type value = value == txt "diff" || value == txt "commit" || value == txt "file"

unfoldable pub take_filter : Text → Text → Text → Parsing → Parsing
unfolding is_hit_type
take_filter token key value p =
    if key == txt "lang"
    then record p { filters = set_language value p.filters }
    else if key == txt "path"
    then record p { filters = set_path value p.filters }
    else if key == txt "type" && is_hit_type value
    then record p { filters = set_type value p.filters }
    else if key == txt "pat"
    then record p { filters = set_pattern value p.filters }
    else if key == txt "patterntype" && value == txt "structural"
    then record p { structural = true }
    else keep_token token p

unfoldable pub parse_token : Text → Parsing → Parsing
parse_token token p = elim (split_once b':' token) [
  | none ↦ keep_token token p
  | some (key, raw_value) ↦
      let value = value_of raw_value in
      if is_quoted raw_value && value == raw_value
      then keep_token token p
      else (if is_empty value then keep_token token p else take_filter token key value p)
]

unfoldable pub parse_tokens : List Text → Parsing → Parsing
parse_tokens [] p = p
parse_tokens (token ∷ tokens) p = parse_tokens tokens (parse_token token p)

-- What is returned once all tokens are read.
unfoldable pub promote : Parsing → Text × QueryFilters
promote p =
    if p.structural && is_none p.filters.pattern
    then ([], set_pattern (join (txt " ") p.kept) p.filters)
    else (join (txt " ") p.kept, p.filters)

abbrev pub begin : Parsing
begin = record { filters = no_filters; structural = false; kept = [] }

unfoldable pub parse_query_filters : Text → Text × QueryFilters
parse_query_filters query = promote (parse_tokens (tokenize_filters query) begin)
