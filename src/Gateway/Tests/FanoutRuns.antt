-- ===== src/Gateway/Tests/FanoutRuns.antt =====
-- Runs of apps/gateway/src/fanout.rs.
use mathlib.Core.List.Permᴰ
use cce.Prelude.{
  ◌==◌, if◌then◌else◌, ℕ, ◌+◌, ◌≡◌, refl, true, false, none, some, Option, List, [], ◌∷◌, Text, txt,
  text_eq, length, max, take, count, Bool,
}
use cce.Prelude.Strings.{list_beq}
use cce.Prelude.Map.{lookup, insert, remove}
use cce.Prelude.Sort.{pair-Apart, sort_by, text_leb}
use cce.Gateway.Json.{Json}
use cce.Gateway.Breaker
use cce.Gateway.Breaker.{Breakers}
use cce.Gateway.Breaker.Single
use cce.Gateway.Registry.{RepoEntry}
use cce.Gateway.Fanout.Merge.{merge_hits, longest, round, rounds, with_repo}
use cce.Gateway.Fanout.Merge.ByRank.{by_rank, merge_hits-by_rank}
use cce.Gateway.Fanout.{
  Upstream, timed_out, DegradedRepo, unknown_repo, Reply, ok, err, timeout, Joined, select,
  is_named, find_entry, resolve, collect, respond, prefixed_missing, verdicts_from, ask_worker,
  classify, RepoReply,
}
use cce.Gateway.Fanout.Accounting.{
  Named, requested, searched_as, degraded_as, fanout_accounts, order_of_replies_does_not_show,
}
use cce.Gateway.Fanout.Reports.{ask_worker_releases_probe, is_probing}

-- A value is a number, a text or an object with the members that were put into it.
data Small : Type 0 where
  number : ℕ → Small
  text : Text → Small
  empty : Small
  with : Text → Small → Small → Small

abbrev members : Small → Option Small
members empty = some empty
members (with k v o) = some (with k v o)
members _ = none

abbrev member : Text → Small → Option Small
member k (with j v o) = let rest = member k o in if j == k then some v else rest
member k _ = none

abbrev chars : Small → Option Text
chars (text t) = some t
chars _ = none

abbrev small : Json
small = record {
  Value = Small;
  Object = Small;
  as_object = members;
  object = λ o. o;
  string = text;
  put_member = with;
  get_member = member;
  as_array = λ _. none;
  as_str = chars;
}

program : Unit {0}
unfolding merge_hits round rounds with_repo longest by_rank select is_named find_entry resolve
    collect respond prefixed_missing verdicts_from ask_worker classify sort_by text_leb lookup
    insert remove list_beq
program = tt

abbrev lanes : List (Text × List Small)
lanes = (txt "a", number 1 ∷ number 2 ∷ []) ∷ (txt "b", number 3 ∷ []) ∷ []

merged : merge_hits small lanes 3 ≡ some (number 1 ∷ number 3 ∷ number 2 ∷ [])
unfolding program
merged = refl

merge_hits-by_rank_example :
    merge_hits small lanes 2
    ≡ some (take (max 2 1) (by_rank small 0 (longest small lanes + 1) lanes))
unfolding program
merge_hits-by_rank_example = merge_hits-by_rank small lanes 2

abbrev repo : Text → RepoEntry
repo slug = record {
  id = slug;
  name = slug;
  slug = slug;
  worker_url = [];
  created_at = [];
  last_push = none;
}

abbrev found : List Small → Reply small
found hits = ok (record { hits = hits; missing = []; verdict = none })

abbrev task_a : Joined small
task_a = record { entry = repo (txt "a"); elapsed_ms = 1; reply = found (number 1 ∷ []) }

abbrev task_b : Joined small
task_b = record { entry = repo (txt "b"); elapsed_ms = 2; reply = found (number 2 ∷ []) }

abbrev late_b : Joined small
late_b = record { entry = repo (txt "b"); elapsed_ms = 2; reply = err timeout }

abbrev late_c : Joined small
late_c = record { entry = repo (txt "c"); elapsed_ms = 2; reply = err timeout }

abbrev all_names : Named → Bool
all_names n = true

abbrev entries : List RepoEntry
entries = repo (txt "b") ∷ repo (txt "a") ∷ []

abbrev selectors : List Text
selectors = txt "a" ∷ txt "x" ∷ txt "b" ∷ []

abbrev no_such : List DegradedRepo
no_such = (record { repo_id = txt "x"; repo_slug = txt "x"; error = unknown_repo }) ∷ []

fanout_accounts_example :
    let r = respond small [] 5 (select entries selectors).unknown (late_b ∷ task_a ∷ []) in
    (searched_as all_names r.per_repo + degraded_as all_names r.degraded
      ≡ count all_names (requested entries selectors))
    × (r.searched ≡ length r.per_repo)
unfolding program
fanout_accounts_example =
    fanout_accounts small [] 5 entries selectors (late_b ∷ task_a ∷ []) all_names
      (Permᴰ.swap refl refl)

order_of_replies_does_not_show_example :
    let r = respond small [] 5 no_such (task_a ∷ task_b ∷ late_c ∷ []) in
    let r' = respond small [] 5 no_such (task_b ∷ task_a ∷ late_c ∷ []) in r ≡ r'
unfolding program
order_of_replies_does_not_show_example =
    order_of_replies_does_not_show small [] 5 no_such (task_a ∷ task_b ∷ late_c ∷ [])
      (task_b ∷ task_a ∷ late_c ∷ []) (Permᴰ.swap refl refl)
      (pair-Apart (λ (r : RepoReply small). r.entry.slug) _ _ refl)
      (pair-Apart (λ (d : DegradedRepo). d.repo_slug) _ _ refl)

abbrev tripped : Breakers
unfolding Breaker.new Breaker.on_failure Single.fail program
tripped = Breaker.on_failure 1 (txt "a") (Breaker.new 1 5)

ask_worker_releases_probe_example :
    let after = λ (ending : Option (Upstream small)).
      lookup (txt "a") (ask_worker small true 6 7 (repo (txt "a")) ending tripped).1.circuits in
    (is_probing (after (some timed_out)) ≡ false) × (is_probing (after none) ≡ true)
unfolding program tripped
ask_worker_releases_probe_example =
    ask_worker_releases_probe small true 6 7 (repo (txt "a")) timed_out tripped refl
