-- ===== src/Gateway/Metrics.antt =====
-- apps/gateway/src/metrics.rs: the gateway's counters and histograms. An `AtomicU64` wraps at 2^64.
pub mod Tally
use cce.Prelude.{
  ℕ, zero, suc, ◌+◌, ◌%◌, ◌^◌, Bool, Option, none, some, List, [], ◌∷◌, ◌++◌, Text, txt, text_eq,
  leb, ◌==◌, if◌then◌else◌, get_elem?,
}
use cce.Prelude.Decimal.{decimal}

abbrev pub fetch_add : ℕ → ℕ → ℕ
fetch_add counter n = (counter + n) % 2 ^ 64

-- `HIST_BOUNDS_MS`.
abbrev pub hist_bounds_ms : List ℕ
hist_bounds_ms = 50 ∷ 100 ∷ 250 ∷ 500 ∷ 1000 ∷ 2500 ∷ 5000 ∷ 15000 ∷ 30000 ∷ 120000 ∷ []

pub record Histogram : Type 0 where
  pub buckets : List ℕ
  pub sum : ℕ
  pub count : ℕ

-- `position(..).unwrap_or(HIST_BOUNDS_MS.len())`.
unfoldable pub position : ℕ → List ℕ → ℕ
position ms [] = 0
position ms (bound ∷ bounds) = let rest = position ms bounds in if leb ms bound then 0 else suc rest

unfoldable pub bump : ℕ → List ℕ → List ℕ
bump index [] = []
bump zero (bucket ∷ buckets) = fetch_add bucket 1 ∷ buckets
bump (suc index) (bucket ∷ buckets) = bucket ∷ bump index buckets

-- A bucket for each bound and one for what is above them all.
unfoldable pub zeros : List ℕ → List ℕ
zeros [] = 0 ∷ []
zeros (bound ∷ bounds) = 0 ∷ zeros bounds

abbrev pub new_histogram : Histogram
new_histogram = record { buckets = zeros hist_bounds_ms; sum = 0; count = 0 }

unfoldable pub observe : ℕ → Histogram → Histogram
observe ms h = record {
  buckets = bump (position ms hist_bounds_ms) h.buckets;
  sum = fetch_add h.sum ms;
  count = fetch_add h.count 1;
}

unfoldable pub cumulative_from : ℕ → List ℕ → List ℕ
cumulative_from running [] = []
cumulative_from running (bucket ∷ buckets) =
    let running' = fetch_add running bucket in running' ∷ cumulative_from running' buckets

unfoldable pub cumulative : Histogram → List ℕ
cumulative h = cumulative_from 0 h.buckets

pub record Metrics : Type 0 where
  pub proxy_ok : ℕ
  pub proxy_timeout : ℕ
  pub proxy_connect : ℕ
  pub proxy_other : ℕ
  pub proxy_shed : ℕ
  pub proxy_breaker : ℕ
  pub cache_hit : ℕ
  pub cache_miss : ℕ
  pub cache_follower : ℕ
  pub upstream_ms : Histogram
  pub fanout_requests : ℕ
  pub fanout_repos_searched : ℕ
  pub fanout_repos_degraded : ℕ
  pub push_ok : ℕ
  pub push_failed : ℕ
  pub push_files : ℕ
  pub push_ms : Histogram

unfoldable pub new : Metrics
new = record {
  proxy_ok = 0;
  proxy_timeout = 0;
  proxy_connect = 0;
  proxy_other = 0;
  proxy_shed = 0;
  proxy_breaker = 0;
  cache_hit = 0;
  cache_miss = 0;
  cache_follower = 0;
  upstream_ms = new_histogram;
  fanout_requests = 0;
  fanout_repos_searched = 0;
  fanout_repos_degraded = 0;
  push_ok = 0;
  push_failed = 0;
  push_files = 0;
  push_ms = new_histogram;
}

unfoldable pub record_proxy : Text → Metrics → Metrics
record_proxy kind m =
    if kind == txt "ok"
    then record m { proxy_ok = fetch_add m.proxy_ok 1 }
    else (if kind == txt "timeout"
        then record m { proxy_timeout = fetch_add m.proxy_timeout 1 }
        else (if kind == txt "connect"
            then record m { proxy_connect = fetch_add m.proxy_connect 1 }
            else (if kind == txt "shed"
                then record m { proxy_shed = fetch_add m.proxy_shed 1 }
                else (if kind == txt "breaker"
                    then record m { proxy_breaker = fetch_add m.proxy_breaker 1 }
                    else (if kind == txt "cache_hit"
                        then record m { cache_hit = fetch_add m.cache_hit 1 }
                        else (if kind == txt "cache_miss"
                            then record m { cache_miss = fetch_add m.cache_miss 1 }
                            else (if kind == txt "singleflight"
                                then record m { cache_follower = fetch_add m.cache_follower 1 }
                                else record m { proxy_other = fetch_add m.proxy_other 1 })))))))

unfoldable pub record_upstream_ms : ℕ → Metrics → Metrics
record_upstream_ms ms m = record m { upstream_ms = observe ms m.upstream_ms }

unfoldable pub record_fanout : ℕ → ℕ → Metrics → Metrics
record_fanout searched degraded m = record m {
  fanout_requests = fetch_add m.fanout_requests 1;
  fanout_repos_searched = fetch_add m.fanout_repos_searched searched;
  fanout_repos_degraded = fetch_add m.fanout_repos_degraded degraded;
}

unfoldable pub record_push : Bool → ℕ → ℕ → Metrics → Metrics
record_push ok files elapsed_ms m = record m {
  push_ok = if ok then fetch_add m.push_ok 1 else m.push_ok;
  push_failed = if ok then m.push_failed else fetch_add m.push_failed 1;
  push_files = fetch_add m.push_files files;
  push_ms = observe elapsed_ms m.push_ms;
}

unfoldable pub counter_lines : Text → Text → ℕ → Text
counter_lines name help value =
    txt "# HELP "
    ++ name
    ++ txt " "
    ++ help
    ++ txt "\n# TYPE "
    ++ name
    ++ txt " counter\n"
    ++ name
    ++ txt " "
    ++ decimal value
    ++ txt "\n"

abbrev unwrap_or_default : Option ℕ → ℕ
unwrap_or_default none = 0
unwrap_or_default (some n) = n

-- `last`.
unfoldable pub last : List ℕ → Option ℕ
last [] = none
last (n ∷ []) = some n
last (n ∷ k ∷ ns) = last (k ∷ ns)

unfoldable pub bucket_lines : Text → ℕ → List ℕ → List ℕ → Text
bucket_lines name index totals [] = []
bucket_lines name index totals (bound ∷ bounds) =
    name
    ++ txt "_bucket{le=\""
    ++ decimal bound
    ++ txt "\"} "
    ++ decimal (unwrap_or_default (get_elem? totals index))
    ++ txt "\n"
    ++ bucket_lines name (index + 1) totals bounds

unfoldable pub histogram_lines : Text → Text → Histogram → Text
histogram_lines name help h =
    txt "# HELP "
    ++ name
    ++ txt " "
    ++ help
    ++ txt "\n# TYPE "
    ++ name
    ++ txt " histogram\n"
    ++ bucket_lines name 0 (cumulative h) hist_bounds_ms
    ++ name
    ++ txt "_bucket{le=\"+Inf\"} "
    ++ decimal (unwrap_or_default (last (cumulative h)))
    ++ txt "\n"
    ++ name
    ++ txt "_sum "
    ++ decimal h.sum
    ++ txt "\n"
    ++ name
    ++ txt "_count "
    ++ decimal h.count
    ++ txt "\n"

-- The first argument is how many seconds the process has run.
unfoldable pub render_prometheus : ℕ → Metrics → Text
render_prometheus uptime m =
    counter_lines (txt "cce_gateway_uptime_seconds")
      (txt "Seconds since the gateway process started.") uptime
    ++ counter_lines (txt "cce_gateway_proxy_ok_total")
        (txt "Proxied requests the worker answered (any status).") m.proxy_ok
    ++ counter_lines (txt "cce_gateway_proxy_timeout_total")
        (txt "Proxied requests that timed out against the worker.") m.proxy_timeout
    ++ counter_lines (txt "cce_gateway_proxy_connect_total")
        (txt "Proxied requests that failed to connect to the worker.") m.proxy_connect
    ++ counter_lines (txt "cce_gateway_proxy_other_total")
        (txt "Proxied requests failed by other transport errors.") m.proxy_other
    ++ counter_lines (txt "cce_gateway_proxy_shed_total")
        (txt "Requests shed by the upstream concurrency bound.") m.proxy_shed
    ++ counter_lines (txt "cce_gateway_proxy_breaker_total")
        (txt "Requests fast-failed on an open worker circuit.") m.proxy_breaker
    ++ counter_lines (txt "cce_gateway_cache_hit_total")
        (txt "Cacheable search requests replayed from cache.") m.cache_hit
    ++ counter_lines (txt "cce_gateway_cache_miss_total")
        (txt "Cacheable search requests that fetched upstream.") m.cache_miss
    ++ counter_lines (txt "cce_gateway_cache_singleflight_total")
        (txt "Search requests coalesced onto an in-flight leader.") m.cache_follower
    ++ counter_lines (txt "cce_gateway_fanout_requests_total")
        (txt "Fan-out search requests served.") m.fanout_requests
    ++ counter_lines (txt "cce_gateway_fanout_repos_searched_total")
        (txt "Repos that answered a fan-out branch.") m.fanout_repos_searched
    ++ counter_lines (txt "cce_gateway_fanout_repos_degraded_total")
        (txt "Repos degraded inside a fan-out request.") m.fanout_repos_degraded
    ++ counter_lines (txt "cce_gateway_push_ok_total") (txt "Pushes materialized successfully.")
        m.push_ok
    ++ counter_lines (txt "cce_gateway_push_failed_total")
        (txt "Pushes that failed before materializing.") m.push_failed
    ++ counter_lines (txt "cce_gateway_push_files_total")
        (txt "Files materialized across successful pushes.") m.push_files
    ++ histogram_lines (txt "cce_gateway_upstream_milliseconds")
        (txt "Upstream worker call latency in milliseconds.") m.upstream_ms
    ++ histogram_lines (txt "cce_gateway_push_milliseconds")
        (txt "Push materialization wall time in milliseconds.") m.push_ms
