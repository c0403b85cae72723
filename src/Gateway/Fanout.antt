-- ===== src/Gateway/Fanout.antt =====
-- The cross-repository search of apps/gateway/src/fanout.rs. Network calls and clocks are
-- arguments. An error's message is the value of `FanoutError` that it is printed from.
pub mod Merge
pub mod Reports
pub mod Accounting
use cce.Prelude.{
  ℕ, suc, Bool, true, false, ◌||◌, ◌&&◌, Option, none, some, List, [], ◌∷◌, ◌++◌, map, Text, txt,
  text_eq, ◌==◌, leb, ltb, if◌then◌else◌, length, max,
}
use cce.Prelude.Sort.{sort_by}
use cce.Prelude.Map.{insert}
use cce.Gateway.Json.{Json}
use cce.Gateway.Breaker
use cce.Gateway.Breaker.{Breakers}
use cce.Gateway.Registry.{RepoEntry}
use Merge.{merge_hits}

pub data FanoutError : Type 0 where
  unknown_repo saturated circuit_open timeout : FanoutError
  unreachable : Text → FanoutError
  worker_error : ℕ → FanoutError
  invalid_response : ℕ → Text → FanoutError

pub record DegradedRepo : Type 0 where
  pub repo_id : Text
  pub repo_slug : Text
  pub error : FanoutError

pub record RepoOutcome : Type 0 where
  pub repo_id : Text
  pub repo_slug : Text
  pub hit_count : ℕ
  pub latency_ms : ℕ

-- The requested set: what is selected, and the selectors that name no repository.
pub record Selection : Type 0 where
  pub selected : List RepoEntry
  pub unknown : List DegradedRepo

unfoldable pub is_named : Text → RepoEntry → Bool
is_named selector entry = entry.id == selector || entry.slug == selector || entry.name == selector

unfoldable pub find_entry : Text → List RepoEntry → Option RepoEntry
find_entry selector [] = none
find_entry selector (entry ∷ entries) =
    let rest = find_entry selector entries in if is_named selector entry then some entry else rest

abbrev pub add_selector : Text → Option RepoEntry → Selection → Selection
add_selector selector (some entry) s = record s { selected = entry ∷ s.selected }
add_selector selector none s = record s {
  unknown = (record { repo_id = selector; repo_slug = selector; error = unknown_repo }) ∷ s.unknown;
}

unfoldable pub resolve : List RepoEntry → List Text → Selection
resolve entries [] = record { selected = []; unknown = [] }
resolve entries (selector ∷ selectors) =
    add_selector selector (find_entry selector entries) (resolve entries selectors)

unfoldable pub select : List RepoEntry → List Text → Selection
select entries [] = record { selected = sort_by (λ (e : RepoEntry). e.slug) entries; unknown = [] }
select entries (selector ∷ selectors) =
    let s = resolve entries (selector ∷ selectors) in
    record s { selected = sort_by (λ (e : RepoEntry). e.slug) s.selected }

module _ (json : Json) where
  open json use {Value, get_member, as_array, as_str}

  -- How the call of a worker ends: no answer in time, a transport error, or a response with its
  -- status and its body, parsed or not.
  pub data Upstream : Type 0 where
    timed_out : Upstream
    send_error : Text → Upstream
    unparsed : ℕ → Text → Upstream
    parsed : ℕ → Value → Upstream

  pub record Answer : Type 0 where
    pub hits : List Value
    pub missing : List Text
    pub verdict : Option Value

  pub data Reply : Type 0 where
    ok : Answer → Reply
    err : FanoutError → Reply

  abbrev or_empty {ℓ} : {A : Type ℓ} → Option (List A) → List A
  or_empty none = []
  or_empty (some xs) = xs

  abbrev and_then {ℓ κ} : {A : Type ℓ} {B : Type κ} → Option A → (A → Option B) → Option B
  and_then none f = none
  and_then (some a) f = f a

  abbrev push_some {ℓ} : {A : Type ℓ} → Option A → List A → List A
  push_some none xs = xs
  push_some (some x) xs = x ∷ xs

  unfoldable pub strings : List Value → List Text
  strings [] = []
  strings (item ∷ items) = push_some (as_str item) (strings items)

  unfoldable pub read_answer : Value → Answer
  unfolding strings
  read_answer body = record {
    hits = or_empty (and_then (get_member (txt "hits") body) as_array);
    missing = strings (or_empty (and_then (get_member (txt "missingCapabilities") body) as_array));
    verdict = get_member (txt "verdict") body;
  }

  abbrev is_server_error : ℕ → Bool
  is_server_error status = leb 500 status && ltb status 600

  abbrev is_success : ℕ → Bool
  is_success status = leb 200 status && ltb status 300

  -- The reply, and whether the worker counts as healthy.
  unfoldable pub classify : Upstream → Reply × Bool
  unfolding read_answer
  classify timed_out = (err timeout, false)
  classify (send_error error) = (err (unreachable error), false)
  classify (unparsed status error) =
      if is_server_error status
      then (err (worker_error status), false)
      else (err (invalid_response status error), false)
  classify (parsed status body) =
      if is_server_error status
      then (err (worker_error status), false)
      else (if is_success status
          then (ok (read_answer body), true)
          else (err (worker_error status), true))

  -- One task: the permit comes before the circuit, and an admitted call that ends reports one
  -- outcome. `none` is a task that is dropped while its call runs (the request is cancelled, and with
  -- it the `JoinSet`) or that panics there: it reports none.
  unfoldable pub ask_worker :
      Bool → ℕ → ℕ → RepoEntry → Option Upstream → Breakers → Option Reply × Breakers
  ask_worker permit asked_at ended_at entry ending b =
      if permit
      then (let (admitted, b') = Breaker.admit asked_at entry.id b in
          if admitted
          then elim ending [
            | none ↦ (none, b')
            | some upstream ↦
                let (reply, healthy) = classify upstream in
                (
                  some reply,
                  if healthy
                      then Breaker.on_success entry.id b'
                      else Breaker.on_failure ended_at entry.id b',
                )
          ]
          else (some (err circuit_open), b'))
      else (some (err saturated), b)

  pub record RepoReply : Type 0 where
    pub entry : RepoEntry
    pub answer : Answer
    pub latency_ms : ℕ

  -- What a task returns.
  pub record Joined : Type 0 where
    pub entry : RepoEntry
    pub elapsed_ms : ℕ
    pub reply : Reply

  pub record Collected : Type 0 where
    pub replies : List RepoReply
    pub degraded : List DegradedRepo

  abbrev pub add_joined : Joined → Reply → Collected → Collected
  add_joined j (ok answer) c = record c {
    replies = (record { entry = j.entry; answer = answer; latency_ms = j.elapsed_ms }) ∷ c.replies;
  }
  add_joined j (err error) c = record c {
    degraded =
        (record { repo_id = j.entry.id; repo_slug = j.entry.slug; error = error }) ∷ c.degraded;
  }

  -- The `join_next` loop, over the tasks in the order in which they end. The lists are sorted
  -- afterwards by a stable sort, with the selectors that name nothing in front.
  unfoldable pub collect : List Joined → Collected
  collect [] = record { replies = []; degraded = [] }
  collect (j ∷ js) = add_joined j j.reply (collect js)

  pub record FanoutResponse : Type 0 where
    pub query : Text
    pub limit : ℕ
    pub searched : ℕ
    pub degraded : List DegradedRepo
    pub per_repo : List RepoOutcome
    pub hits : Option (List Value)
    pub missing_capabilities : List Text
    pub verdicts : List (Text × Value)

  abbrev outcome_of : RepoReply → RepoOutcome
  outcome_of r = record {
    repo_id = r.entry.id;
    repo_slug = r.entry.slug;
    hit_count = length r.answer.hits;
    latency_ms = r.latency_ms;
  }

  unfoldable pub prefixed_missing : List RepoReply → List Text
  prefixed_missing [] = []
  prefixed_missing (r ∷ rs) =
      map (λ (cap : Text). r.entry.slug ++ (txt ": " ++ cap)) r.answer.missing
      ++ prefixed_missing rs

  -- `collect` into a `HashMap`: a later entry takes the place of an earlier one.
  unfoldable pub verdicts_from : List RepoReply → List (Text × Value) → List (Text × Value)
  verdicts_from [] m = m
  verdicts_from (r ∷ rs) m =
      verdicts_from rs (elim r.answer.verdict [ none ↦ m | some v ↦ insert r.entry.slug v m ])

  -- The response from what the tasks returned.
  unfoldable pub respond : Text → ℕ → List DegradedRepo → List Joined → FanoutResponse
  unfolding collect prefixed_missing verdicts_from
  respond query limit unknown joined =
      let c = collect joined in
      let replies = sort_by (λ (r : RepoReply). r.entry.slug) c.replies in
      record {
        query = query;
        limit = limit;
        searched = length replies;
        degraded = sort_by (λ (d : DegradedRepo). d.repo_slug) (unknown ++ c.degraded);
        per_repo = map outcome_of replies;
        hits =
            merge_hits json (map (λ (r : RepoReply). (r.entry.slug, r.answer.hits)) replies)
              (max limit 1);
        missing_capabilities = prefixed_missing replies;
        verdicts = verdicts_from replies [];
      }
