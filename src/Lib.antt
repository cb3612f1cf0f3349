-- ===== src/Lib.antt =====
-- The Python core of the infinite streaming encoder, modelled and verified.
--
-- The encoder cuts a source clip into chunks on a grid, encodes each chunk once per rung of a
-- bitrate ladder, joins the chunks of a rung, packages the result as fMP4, and rewrites the DASH
-- manifest at fragment granularity, from which the HLS playlists are made. Workers report what
-- they do as marker lines that a publisher batches. All paths are below
-- scripts/infinite_streaming_encoder.
--
-- Parts, and the files that model them:
--   Chunking    chunking.py: chunk_grid_for, chunk_count, _validate and plan_chunks. Grid is about
--               the grid, Tiling about the list of chunks, Plan about the planner, Accepted about
--               what it refuses; Tail models
--               _coalesce_runt_tail of encode_variants.py.
--   Units       encode_variants.py, encode_all: the list of what is still to be encoded and joined.
--   Ladder      ladder.py: burnin_for_height, res_height, build_rungs, select_rungs. Labels is about
--               the text of labels, Distinct and Select about the lists of rungs; Store models
--               _store_path, load_ladders and get_ladder, Seeds the built-in ladders.
--   Groups      cli_local_dist.py, _plan_groups: which rungs of the ladder share a decode.
--   Padding     padding.py and gop.py: the boundary, the padding and the keyframe interval.
--   Fragments   fragments.py: the parser of the moof boxes. Order is about the byte ranges,
--               Headers and Loops about the end of its loops.
--   Resume      resume.py: discover and resolve_codec_selection, over the files of a directory.
--   Manifests   manifests.py: write_fragmented_mpd, which expands the whole-segment entries by the
--               fragments that Fragments finds, and _extract_segments, which collapses them again.
--   Telemetry   telemetry.py: the markers, the publisher's batches, the names of its queues, and
--               Telemetry.Sink, which packs a batch into a message of the queue. The publisher is
--               run by any interleaving of its threads, as a list of steps: what a thread does under
--               the lock, a call of the sink outside the lock, the test and the count of a warning.
--               Numbering, Batches and Items are about its lists, Queueing and Sending about its
--               steps, Delivery and Settling about a run of them.
--   Stages      cli_batch.py, _emit_stage: the board that every stage announcement goes through.
--   Jobs        cli_batch.py, _stage_key_for_job and _emit_plan: names of jobs, keys of stages.
--   Census      cli_batch.py, _sync_stages_from_batch and _drain_state: what Batch says of stages.
--   Drain       cli_batch.py, _drain_telemetry: the markers as they come out of the queue. Forward
--               is about stages, Records and Replay about what is printed, and Sink joins the
--               publisher of Telemetry to the drain.
--   Staging     dist_staging.py: the deletion of a job's staging, Staging.Sweep the scan and the
--               sweep of what is idle, Staging.Lifecycle the expiry rule of the bucket. Requests and
--               Deletion are about one deletion, Names, Guard and Containment about what can be
--               deleted, Groups, Prefixes and Keep about the sweep.
--   Prelude     Boolean tests, lists, Python's rounding, text, dict, JSON, sort, environment.
--   Tests       runs at concrete data, and each result at an input of its own.
--
-- How state and operations correspond: an operation of a class takes the record of its attributes
-- and returns the new one (`_Publisher.add` is Telemetry.add); a loop is structural recursion with
-- the variables it changes as arguments; an exception is the `raised` side of Raises. A dict is an
-- association list in insertion order, a text a list of code points, and bytes a list.
--
-- Units: Chunking counts microseconds, so its tolerance `_EPS` is one; Padding counts
-- milliseconds; the clocks of Telemetry, Drain and Staging are in milliseconds, an age that is not
-- past being 0; a percent of Stages is counted in millionths of one percent; a megapixel of Groups
-- is counted in pixels. Quotients that the source rounds are rounded the same way, halves to even;
-- other floating-point products are exact here. A number that is not positive is zero where the
-- source treats them alike.
--
-- Fuel: decimal printing takes the number plus one; chunk_grid_for takes the bound of its own
-- loop; Euclid's algorithm takes the second number plus one; each loop of the fragment parser
-- takes the length of the file plus one, and a loop that uses it up is `endless`, an error of its
-- own; the slices of Census take the number
-- of ids. The loops of Census and Drain over a time budget take the list of what each receive
-- gave. The theorems say when each is enough.
--
-- Parameters: `_segment_fragments` of the manifest rewrite (the sidecar file or the parser), the
-- answer of the sink of the publisher to each call, the order of the steps of its threads, the environment, the store file and the join
-- of paths in Ladder.Store, the jobs and the messages that AWS gives to Census and Drain, and the
-- listings and failures of the object storage of Staging. Nothing is assumed of them beyond what a
-- theorem names.
--
-- Not modelled: the drivers of ffmpeg, of the packager, of the cloud and of the task queue, whose
-- results come from outside; reading XML and JSON; locks (the operations of the
-- stage board run one at a time under its lock); progress, and of the
-- orchestrators what submits, polls and downloads; the control plane in Go (cmd, internal), the
-- page (static), the infrastructure (infra) and the demo (tools).
pub mod Prelude
pub mod Chunking
pub mod Manifests
pub mod Telemetry
pub mod Ladder
pub mod Groups
pub mod Padding
pub mod Fragments
pub mod Resume
pub mod Stages
pub mod Jobs
pub mod Census
pub mod Drain
pub mod Staging
pub mod Units
mod Tests
