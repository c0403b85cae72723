-- ===== src/Lib.antt =====
-- CCE, a code context engine: the parts of its Rust code that decide what is answered.
--
-- Prelude holds shared notation, lists, texts (lists of code points), maps (association lists),
-- sorting and splitting.
--
-- Gateway models the gateway service (apps/gateway/src):
--   Breaker: `Breakers` and `Circuit` of breaker.rs. A state is a record, a call is an `Event`, and
--     a run is the list of the calls in the order in which they take the mutex. The clock is an
--     argument of each call.
--   Cache: `SearchCache` of cache.rs, modelled in the same way. A watch channel is a number.
--   Fanout: `search_all` and `merge_hits` of fanout.rs. What the network answers is an argument, and
--     serde_json is the record parameter `Json`. `merge_hits` runs on fuel: one more than the
--     longest lane is enough, since each pass but the last takes a hit from that lane.
--   Registry: the registry of main.rs, with slugs (Slug), the checks of paths and digests (Paths)
--     and the handlers that register and look up repositories. A hash, the clock and the outcome
--     of file-system calls are arguments, and so is the order in which a `HashMap` gives its values.
--   Metrics: metrics.rs. Tally shows what the histograms count.
--   Ingest and Push: the push side of main.rs. Files are inodes with contents, so that a hard link
--     shares the content of its blob (Ingest); Push puts the manifest, the files, the registry and
--     the cache together. The directories under `sources` are a map by name, in which the staging
--     directory of one slug can be the source directory of another; the slugs `.` and `..` lead to
--     the data directory. Calls of the file system fail only where the files themselves make them
--     fail. A push runs under a lock of its repository and is one step.
-- A fan-out task asks the breaker before it calls a worker, and reports one outcome to it unless it
-- is dropped during the call.
--
-- Core models shared types of crates/cce-core/src: Address (address.rs), Retrieval (retrieval.rs),
-- Context (context.rs), Entity (entity.rs), Relation (relation.rs), Filters (the query filters of
-- retrieval.rs) and Text (text.rs); the Unicode tests on characters are the record parameter
-- `Chars`. A float that is only copied is a number, its bits.
--
-- Engine models parts of crates/cce-engine/src:
--   Context: `ContextPacker::pack` of context.rs. Render classifies, prints and measures a hit,
--     Admission is `render_item`, Context the two passes over the hits, Report the delivery report.
--   Planner: planner.rs, with the words it looks for (Intent), and the views that routes need
--     (`required_views_for_routes` of retrieval.rs).
--   Diff: the patch scanner of diff.rs, with the line numbers (Numbers) and counts (Counts) of what
--     it records. A line counter is a `u32`, written modulo 2^32.
--   Dense: `DenseIndex` and `DeterministicEmbedder` of dense.rs. An f32 is its 32 bits; its
--     arithmetic, the embedding model and BLAKE3 are parameters. Written and Parsed are the parts
--     of the binary format that RoundTrip and Canonical put together; Build fills an index (Batches
--     are what goes to the model at once), and Search answers from it. A panic is an outcome of its
--     own. Memory that cannot be allocated is not modelled. The fuel of `chunks_exact` and of
--     `batches` is the length of the list, enough for chunks that are not empty.
--   SnapshotDiff: snapshot_diff.rs. Keys are the keys and references, Delta the two deltas, and
--     SnapshotDiff the choice of the snapshots and the report. A `BTreeMap` of lists is an
--     association list in the order of its keys.
--
-- Daemon models the watch loop of apps/daemon/src/watch.rs (Watch).
--
-- Not modelled: the network and the gateway's proxy, the file system but for what a push does, the
-- store (crates/cce-store), retrieval over it, parsing and language models, the command-line
-- programs and the web interface.
pub mod Prelude
pub mod Core
pub mod Daemon
pub mod Engine
pub mod Gateway
