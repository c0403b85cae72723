-- ===== src/Gateway/Tests/MetricsRuns.antt =====
-- Runs of apps/gateway/src/metrics.rs.
use cce.Prelude.{◌≡◌, refl, true, [], ◌∷◌, ◌++◌, map, txt, text_eq, leb, count, arith}
use cce.Prelude.Strings.{list_beq}
use cce.Prelude.Decimal.{decimal}
use cce.Gateway.Metrics.{
  hist_bounds_ms, position, bump, zeros, observe, cumulative_from, cumulative, new, record_proxy,
  record_upstream_ms, record_fanout, record_push, counter_lines,
}
use cce.Gateway.Metrics.Tally.{observe_all, cumulative_counts}

program : Unit {0}
unfolding list_beq decimal position bump zeros observe cumulative_from cumulative new record_proxy
    record_upstream_ms record_fanout record_push counter_lines
program = tt

-- A bound counts what is equal to it, and the last bucket all.
boundary_is_inclusive :
    cumulative (record_upstream_ms 120001 (record_upstream_ms 100 new)).upstream_ms
    ≡ 0 ∷ 1 ∷ 1 ∷ 1 ∷ 1 ∷ 1 ∷ 1 ∷ 1 ∷ 1 ∷ 1 ∷ 2 ∷ []
unfolding program
boundary_is_inclusive = refl

unknown_kinds_fold : (record_proxy (txt "made-up-kind") new).proxy_other ≡ 1
unfolding program
unknown_kinds_fold = refl

push_counts_files : (record_push true 2 7 (record_fanout 3 1 new)).push_files ≡ 2
unfolding program
push_counts_files = refl

typed_series :
    counter_lines (txt "c") (txt "Calls.") 42 ≡ txt "# HELP c Calls.\n# TYPE c counter\nc 42\n"
unfolding program
typed_series = refl

cumulative_counts_example :
    (cumulative (observe_all (700 ∷ 100 ∷ 3 ∷ []))
      ≡ map (λ bound. count (λ ms. leb ms bound) (700 ∷ 100 ∷ 3 ∷ [])) hist_bounds_ms ++ (3 ∷ []))
    × ((observe_all (700 ∷ 100 ∷ 3 ∷ [])).count ≡ 3)
cumulative_counts_example = cumulative_counts (700 ∷ 100 ∷ 3 ∷ []) (omega arith)
