-- ===== src/Lib.antt =====
-- A model of the LLM serving engine: src/llm_serving_engine/ of the repository.
--
-- The engine's scheduler thread keeps the lists `running` and `waiting` and a KV allocator. In each
-- iteration `scheduler_step` builds a batch plan from them: a decode token for every decoding
-- sequence (preempting from the tail of `running` when the pool is full), the next chunks of the
-- prompts, and new admissions. The GPU worker runs the plan, and `handle_iteration_results` folds
-- the tokens back in and frees what has finished. Tokens reach the clients through bounded queues.
--
-- The parts, and the files that model them:
--   * Sampling, Metrics, Sequence: the data of model/sampling.py, observability/metrics.py and
--     scheduling/sequence.py, batch_plan.py. A sequence object is in one list at a time, so it is
--     a value there and its `seq_id` is its identity.
--   * Allocator: scheduling/allocator.py. `KvAllocator` is the interface that the scheduler takes
--     as a parameter; Allocator/Block and Allocator/Contiguous are the two classes, and
--     Allocator/Books fills the interface and its ledgers. Allocator/Cover is about the blocks
--     that a table needs, and Allocator/Calls and Allocator/Counter set the
--     paged pool against a counter.
--   * Scheduler: scheduling/scheduler.py. State, Decodes, Prefills, Admissions and Step are
--     `scheduler_step` and its three passes; Results is the loops of
--     `handle_iteration_results` and `abort`.
--     Rules and Admitting reduce a statement about a pass to its single operations. The other modules are
--     proofs: Books, Folding (book-keeping), Returns, Phase, Lifecycle, Ownership, Census, Entries,
--     Budget, Progress and Fuel.
--   * Dispatch: scheduling/dispatch.py, what the callbacks on the event loop do to the queues.
--   * Engine: engine.py. Engine/State is what `InferenceEngine` keeps and `submit`, `stop`,
--     `_drain_ingress`, `_abort` and `_apply`, where Results' loops get their callbacks;
--     Engine/Moves is the scheduler thread's loop and the step relation of the IO thread and the
--     scheduler thread. Lists, Conservation, Tracking and Forward are proofs.
--   * Paging: the host side of model/model_runner.py and model/paged_batch.py: tokens, positions
--     and the pool slots that an iteration writes. Paging/Emit is the results it emits, where the
--     model and `sample_tokens` are a parameter; Engine/Forward compares them with what `_apply` takes.
--     Paging/Buffers is how far `contiguous_attention` fills the buffers of the contiguous allocator.
--   * Graphs: the buckets of model/decode_graph.py and model/piecewise_graph.py and the path that
--     `ModelRunner.forward` takes. Graphs/Plans ties them to the scheduler's budget. Graphs/Fill is
--     what a decode graph's tensors hold (`_alloc`, `_fill_dummy`, `_fill_real`, `forget`), a row of
--     a graph being one index of the tensors; Graphs/Cells and Graphs/Replay compare it with Paging.
--   * Decoder: `decoder_hidden`, `paged_attention` and `forward_fused` of model/model_runner.py on the
--     paged pool, where a tensor is a function of the token's row and the weights are a parameter.
--     Decoder/Served is `attend_paged` on the model of the paged kernel, with `to_device` of
--     model/paged_batch.py. Decoder/Pools, Local and Planned are proofs.
--   * Graphs/Segments and Graphs/Capture: the rest of model/piecewise_graph.py; what the replay of a
--     captured segment does is a parameter, and memory runs out between whole warm-up runs only.
--     Graphs/Entered, Padding, Runs, Piecewise, Served and Startup are proofs.
--   * Metrics/Percentile and Metrics/Export: the summaries of observability/metrics.py, and
--     `record_request` of observability/metrics_export.py. Metrics/Ranks is proofs.
--   * Tokenizer: `decode_incremental` and `forget` of model/tokenizer.py, over a parameter `decode`.
--     Tokenizer/Windows states what the windows rely on of it, and is proofs.
--   * Server: server.py. Server/Stream is the generator of `/v1/generate`, Server/Switch is
--     `EngineHandle`, with the steps of `switch_model` as changes that interleave with the moves of
--     Engine; what a load yields is any engine. Server/Answers and Server/Drained are proofs.
--   * Report: loadgen/report.py; Report/Latencies is `summarize_latencies`, Report/Build the reports.
--     Report/Monitors is the statistics of loadgen/kv_monitor.py and
--     loadgen/gpu_monitor.py.
--   * Workload: `shape_schedule` of loadgen/client.py, with proofs in Shares and Schedule.
--   * Client: `send_request` of loadgen/client.py and loadgen/timing.py; Client/Closed is the closed
--     loop as a step relation, Client/Answered sets a client against the server's stream.
--   * Config: the sizing of the KV pool in config.py, and `_build_scheduler` and `_build_allocator` of
--     engine.py. Config/Environment is what config.py reads from the environment and from a model.
--   * Kernels: the kernels of kernels/flash_attention.py and their wrappers. Kernels/Softmax is the
--     loop over the tiles for one row, Kernels/Lanes what a lane loads and scores, Kernels/Flash and
--     Kernels/Paged the programs and the launches. The arithmetic is a parameter, Kernels/Numbers,
--     with laws of the real numbers, and so is `triton`; `none` stands for -inf in a score, and
--     in an output for NaN or for what is not stored. Folds, Online, Scan, Rows, Forward,
--     Agreement and Isolation are proofs.
--   * Base: names that all share, lists, sums, integers, fractions and orders over the native
--     numbers. Examples: concrete states, and the theorems applied to them.
--
-- Python ints that can go below zero are ℤ, the others ℕ; there is no machine arithmetic. Loops
-- whose recursion is not on a list run on fuel: `running`'s length for the decodes and for the
-- preemptions (each round moves on or pops one), `waiting`'s length for the admissions (each round
-- deletes one or moves on), `max_batch` for the doubling of the buckets. The clock is a parameter.
-- Floats are exact: the quotients of the reports are fractions, percents are counted in tenths and
-- the weights of a workload in hundredths, so rounding is not modelled.
--
-- Not modelled: the tensor code of the contiguous allocator and of the HuggingFace path, a kernel's
-- rounding, and what the device does to capture and replay CUDA graphs; the routes of FastAPI and
-- the JSON and SSE texts; how the engine starts its threads; HTTP, subprocesses, files and argument
-- handling of the load generator and of scripts/benchmark.py; the plots; the Prometheus library.
pub mod Base
pub mod Sampling
pub mod Metrics
pub mod Sequence
pub mod Allocator
pub mod Scheduler
pub mod Config
pub mod Dispatch
pub mod Engine
pub mod Tokenizer
pub mod Paging
pub mod Graphs
pub mod Kernels
pub mod Decoder
pub mod Server
pub mod Report
pub mod Workload
pub mod Client
pub mod Examples
