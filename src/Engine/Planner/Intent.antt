-- ===== src/Engine/Planner/Intent.antt =====
-- `classify` of crates/cce-engine/src/planner.rs: the intent that the words of a query suggest. The
-- Unicode tests on characters are the standard library's, and a parameter.
use cce.Prelude.{
  ℕ, ◌*◌, Bool, true, false, not, ◌&&◌, ◌||◌, Option, none, some, List, [], ◌∷◌, Text, txt, text_eq,
  nat_eq, ◌==◌, ltb, leb, if◌then◌else◌, length, is_ascii_alphanumeric,
}
use cce.Prelude.Lists.{any, contains, keep}
use cce.Prelude.Split.{split_on, split_where}
use cce.Prelude.Trim.{is_empty}
use cce.Prelude.Utf8.{byte_len}
use cce.Prelude.Words.{Chars, is_whitespace, has_part}
use cce.Core.Retrieval.{
  QueryIntent, exact_entity, natural_language_behavior, issue_localization, trace, impact,
  architecture, history, precise_dataflow,
}

unfoldable pub contains_any : Text → List Text → Bool
contains_any value needles = any (λ needle. has_part needle value) needles

-- The piece after the last dot, and whether anything stands before that dot.
abbrev last_of : Bool → Text → List Text → Option (Bool × Text)
last_of stem piece [] = some (stem, piece)
last_of stem piece (q ∷ ps) = last_of true q ps

abbrev after_dot : List Text → Option (Bool × Text)
after_dot [] = none
after_dot (_ ∷ []) = none
after_dot (p ∷ q ∷ ps) = last_of (not (is_empty p)) q ps

module _ (chars : Chars) where
  open chars use {is_alphanumeric, is_uppercase, is_lowercase}

  abbrev pub is_word_char : ℕ → Bool
  is_word_char c = is_alphanumeric c || c == b'_'

  unfoldable pub has_any_word : Text → List Text → Bool
  has_any_word query words =
      any (λ token. contains words token) (split_where (λ c. not (is_word_char c)) query)

  -- The loop over the characters, with `previous_lower`.
  unfoldable pub has_hump : Bool → Text → Bool
  has_hump previous_lower [] = false
  has_hump previous_lower (c ∷ s) = previous_lower && is_uppercase c || has_hump (is_lowercase c) s

  abbrev is_file_shape : Option (Bool × Text) → Bool
  is_file_shape none = false
  is_file_shape (some (stem, ext)) =
      stem
      && not (is_empty ext)
      && leb (byte_len ext) 5
      && not (any (λ c. not (is_ascii_alphanumeric c)) ext)

  unfoldable pub looks_like_code : Text → Bool
  looks_like_code token =
      has_part (txt "_") token
      || has_part (txt "::") token
      || has_hump false token
      || is_file_shape (after_dot (split_on b'.' token))

  unfoldable pub is_exact_entity_query : Text → Text → Bool
  unfolding looks_like_code
  is_exact_entity_query original query =
      let tokens = keep (λ token. not (is_empty token)) (split_where is_whitespace original) in
      let code_tokens = length (keep looks_like_code tokens) in
      not (is_empty tokens)
      && (leb (length tokens) (code_tokens * 2)
          || ltb 0 code_tokens
            && (has_any_word query (
                  txt "defined"
                  ∷ txt "definition"
                  ∷ txt "references"
                  ∷ txt "implemented"
                  ∷ txt "decided"
                  ∷ [])
                || contains_any query (
                    txt "where is"
                    ∷ txt "在哪定义"
                    ∷ txt "谁引用"
                    ∷ txt "在哪里"
                    ∷ txt "定义"
                    ∷ txt "引用"
                    ∷ [])))

  unfoldable pub asks_dataflow : Text → Bool
  asks_dataflow query =
      has_any_word query (txt "taint" ∷ txt "taints" ∷ [])
      || contains_any query
          (txt "source to sink" ∷ txt "source→sink" ∷ txt "污点" ∷ txt "用户输入" ∷ txt "shell 参数" ∷ [])

  unfoldable pub asks_history : Text → Bool
  asks_history query =
      has_any_word query
        (txt "history" ∷ txt "commit" ∷ txt "commits" ∷ txt "committed" ∷ txt "blame" ∷ [])
      || contains_any query (txt "历史" ∷ txt "什么时候改" ∷ txt "何时改" ∷ txt "谁改" ∷ txt "提交" ∷ [])
      || (has_any_word query (txt "why" ∷ [])
          && has_any_word query (
              txt "added"
              ∷ txt "changed"
              ∷ txt "introduced"
              ∷ txt "removed"
              ∷ txt "deprecated"
              ∷ txt "renamed"
              ∷ txt "deleted"
              ∷ txt "modified"
              ∷ txt "reverted"
              ∷ []))
      || (contains_any query (txt "为什么" ∷ txt "为何" ∷ [])
          && contains_any query
              (txt "修改" ∷ txt "改动" ∷ txt "引入" ∷ txt "添加" ∷ txt "删除" ∷ txt "重命名" ∷ txt "弃用" ∷ []))

  unfoldable pub asks_impact : Text → Bool
  asks_impact query =
      has_any_word query (txt "impact" ∷ txt "affected" ∷ [])
      || (has_any_word query (txt "break" ∷ txt "breaks" ∷ [])
          && has_any_word query (txt "if" ∷ txt "when" ∷ []))
      || contains_any query (txt "影响" ∷ txt "会破坏" ∷ txt "哪些地方会" ∷ [])

  unfoldable pub asks_trace : Text → Bool
  asks_trace query =
      has_any_word query (txt "trace" ∷ txt "traces" ∷ txt "lifecycle" ∷ [])
      || contains_any query
          (txt "data movement" ∷ txt "调用链" ∷ txt "链路" ∷ txt "流向" ∷ txt "生命周期" ∷ [])

  unfoldable pub asks_architecture : Text → Bool
  asks_architecture query =
      has_any_word query
        (txt "architecture" ∷ txt "subsystem" ∷ txt "boundary" ∷ txt "responsibility" ∷ [])
      || contains_any query (txt "架构" ∷ txt "模块" ∷ txt "职责" ∷ txt "边界" ∷ [])

  unfoldable pub asks_issue : Text → Bool
  asks_issue query =
      has_any_word query (
        txt "bug"
        ∷ txt "fail"
        ∷ txt "fails"
        ∷ txt "failure"
        ∷ txt "error"
        ∷ txt "broken"
        ∷ txt "occasionally"
        ∷ [])
      || contains_any query (txt "错误" ∷ txt "失败" ∷ txt "偶发" ∷ txt "不生效" ∷ [])

  unfoldable pub classify : Text → Text → QueryIntent
  unfolding asks_dataflow asks_history asks_impact asks_trace asks_architecture asks_issue
      is_exact_entity_query
  classify original query =
      if asks_dataflow query
      then precise_dataflow
      else if asks_history query
      then history
      else if asks_impact query
      then impact
      else if asks_trace query
      then trace
      else if asks_architecture query
      then architecture
      else if asks_issue query
      then issue_localization
      else if is_exact_entity_query original query
      then exact_entity
      else natural_language_behavior
