-- ===== src/Lib.antt =====
-- The core of the audio engine: the blocks of samples that its parts hand each other, the contract
-- that a streaming processor keeps towards its caller, the chain that runs processors in series
-- and drains them, the playback pipeline that drives a chain from the audio callback, and the ring
-- that decouples the decoder from its reader.
--
-- How the parts interact. A processor is given a block, or an input and an output block
-- (src/audio_block.rs), and reports its progress, which the caller checks against the capacity of
-- those blocks (`ProcessCapacity::validate`, src/processor/traits.rs). The chain
-- (src/processor/dsp_chain.rs) calls its processors through the checked calls, so that its own
-- drain can rest on their reports. The playback pipeline (src/pipeline.rs) owns a chain on the
-- audio callback; its controllers send it requests over one atomic word, which it takes at the
-- next block: it filters, fades out, renders the chain's tail, or is idle. The adapters of
-- one-to-one processors share helpers (src/processor/adapters.rs) that report under that contract,
-- and read their parameters from snapshots that a control thread publishes without a lock
-- (src/processor/lockfree_params.rs). The convolver gets its kernels from control threads through
-- slots and gives them back to be dropped (src/processor/adapters/convolver/control.rs). The ring
-- (src/pipeline/ring_buffer.rs) stands by itself. The HTTP source (src/decoder/source/http.rs)
-- gives the decoder a remote file: a seekable stream over Range requests, which are checked and
-- retried, or, from a server without ranges, the file as a whole. The offline renderer
-- (src/processor/output_chain.rs) runs the processors over a whole input, block by block: the
-- source stages feed a rate boundary, and that a collector with the limiter and the noise shaper,
-- which also observes tails without a known end, and cuts them.
--
-- Which file models which part:
--   AudioBlock   src/audio_block.rs: `AudioBlockRef::new`, `AudioBlockMut::new`
--   Timing       src/processor/traits.rs: `FrameDuration`, `TailSpec`
--   Traits       src/processor/traits.rs: progress, capacity, `StreamingProcessor` and the checked
--                calls; Traits/Progress has what an accepted report means
--   DspChain     src/processor/dsp_chain.rs: `process`, `reset`, `set_sample_rate`;
--                DspChain/Finish and DspChain/Segment have `finish_with_policy`, DspChain/Composed
--                `add`, `latency` and `tail`; the proofs about them are in DspChain/Moves,
--                DspChain/Fits, DspChain/Drain, DspChain/Ends and DspChain/Lifecycle
--   Pipeline     src/pipeline.rs: `LifecycleChannel` and the controller's requests;
--                Pipeline/Callback has `CallbackSpec` and `PlaybackPipeline`; the proofs are in
--                Pipeline/Channel, Pipeline/Armed, Pipeline/Steps and Pipeline/Requests
--   FixedStage   src/processor/adapters.rs: `FixedLifecycle` and the helpers of the adapters of
--                one-to-one processors; FixedStage/Accepted has the proofs
--   DecodeBudget src/decode_budget.rs: `resolve_decode_memory_budget`
--   RealtimeSnapshot  src/processor/lockfree_params.rs: `load_with_generation` and `publish`, as single
--                atomic accesses in any order; the proofs are in RealtimeSnapshot/Safe,
--                RealtimeSnapshot/Load, RealtimeSnapshot/Publish and RealtimeSnapshot/Reads
--   HttpSource   src/decoder/error.rs: `NetworkError` and `with_network_retry`; of
--                src/decoder/source/http.rs, HttpSource/Policy has the address policy,
--                HttpSource/ContentRange and HttpSource/Headers the headers, HttpSource/Fetch the Range
--                request, HttpSource/Stream `RangeStream`, HttpSource/Download the full download and
--                `open_http_media_source`; the proofs are in their child modules and in
--                HttpSource/Retry
--   KernelHandoff  src/processor/adapters/convolver/control.rs and handoff.rs: the publication and
--                `is_quiescent`; KernelHandoff/Audio has `sync_convolver` of
--                src/processor/adapters/convolver.rs, KernelHandoff/Status `status`, each as single
--                accesses; the proofs are in KernelHandoff/Kept, KernelHandoff/Quiescent,
--                KernelHandoff/Reading and KernelHandoff/Status
--   OutputChain  src/processor/output_chain.rs: the policies and frame limits; OutputChain/Tail has
--                the energy detector and `TailObservation`, OutputChain/Collector
--                `OutputBlockCollector`, OutputChain/Boundary `RateBoundary`, OutputChain/Sources the
--                manifest and `SourcePipeline`, OutputChain/Render and OutputChain/Chain
--                `OutputRenderChain`, OutputChain/Offline `drive_offline_stage`; the proofs are in
--                the other files of the folder
--   RingBuffer   src/pipeline/ring_buffer.rs, with its proofs in RingBuffer/Copy, RingBuffer/Write,
--                RingBuffer/Read and RingBuffer/Counters
--   Float        the operations of `f64`, a parameter
--   Base         shared names, lists, machine integers, results and actions on a world
--
-- State is passed explicitly: a method takes the record of its object and returns its result with
-- the new record, and with the samples that it leaves in a borrowed slice. A `Result` is
-- Base.Results, a panic is `none`. An integer of 64 bits keeps its wrap-around or saturation where
-- the source writes one; frame counts of one block do not reach 2^64, as a slice is below 2^63
-- bytes.
--
-- Bounds and fuel. The `while` loop of `finish_with_policy` runs on fuel. Each round either moves
-- the chain to its next stage or fills at least one frame of the output, so one unit more than the
-- stages and the frames of the output together is enough; the callback of the pipeline is given
-- just that. The loop that reads a body runs for the limit of bytes it may read, and one round
-- more, since every round but the last reads some; the download likewise for its limit of memory.
-- The attempts of the compare-exchange loop of a request are a list. The sequence of a snapshot
-- counts two for each publication, and a step that would wrap it is left out: that is after 2^63
-- of them. So is a publication of a kernel past generation 2^64 - 1. In the offline renderer a push
-- through the collector makes as many rounds as its block has frames, of which each takes at least
-- one; the finish loops run on fuel, of which their limit of frames, and one more, is enough; a push
-- through the rate boundary needs fuel for each frame of its input and for what the resampler may
-- hold back there. A whole render needs that for a block of its scratch, and 2^64 more, since every
-- limit of a finish fits in 64 bits.
--
-- That a resampler ends is a hypothesis on the library behind it (OutputChain/Room `Exhausts`): what
-- it holds back is bounded, and is less after a call that had input and room for output and consumed
-- nothing. A call without room may stand still. OutputChain/Exhausting has the processors that run
-- `process_fixed_1_to_1` of src/processor/adapters.rs; the states of a processor are those that it can
-- be in, as the bound is on each.
--
-- Not modelled: the construction of the processors of an offline render, its read-outs of the
-- limiter, and its reclaims of retired kernels; the numerics of the processors themselves
-- (filters, FFTs, gains), the decoder, which drives a library, the HTTP client, of which the
-- server's side is a hypothesis, the configuration of a pipeline, the typed parameter sets, and
-- the databases and threads around them. The trait object of a processor is any record of
-- operations; what it reports is not trusted but checked by the code.
pub mod AudioBlock
pub mod Base
pub mod DecodeBudget
pub mod DspChain
pub mod FixedStage
pub mod Float
pub mod HttpSource
pub mod KernelHandoff
pub mod OutputChain
pub mod Pipeline
pub mod RealtimeSnapshot
pub mod RingBuffer
pub mod Timing
pub mod Traits
