-- ===== src/Lib.antt =====
-- OpenModel shares the GPUs of a storage miner between mining and LLM inference. This library models
-- the inference service, src/py-inference/src, where the miner's commands meet the serving of
-- requests:
--
--   - The scheduler listener (scheduler_client/listener.py) polls the scheduler for the state of the
--     GPU, and pauses or resumes the engine pool; if the scheduler is silent for 60 seconds, it
--     pauses it (fail-safe).
--   - The engine pool (inference/engine_pool.py) passes pause, resume, stop and switch_model on to
--     its engines, picks the engine for a request, and reports an aggregate status.
--   - An engine (inference/engine.py, VLLMEngine) owns a vLLM core with its subprocesses. Its
--     coroutines pause (unload), resume (reload), start, stop, switch the model, recover a dead
--     core, and serve requests; they interleave on one asyncio loop and share the fields of the
--     engine and its transition lock.
--   - The API server (inference/api_server.py) admits requests, switches the model for them, passes
--     them to the pool, and answers with the result or a stream of events, with a signed receipt
--     (inference/receipt.py) of what was served.
--   - The model manager (model/manager.py) keeps a cache of models on disk and fills it through the
--     FOC client (model/foc_real.py), which has a bridge download the weights.
--   - The process (main.py) reads the configuration (config.py), builds the pool, and starts it or,
--     while the GPU is not free, leaves it paused for the listener to resume.
--
-- Files
--   Base            lists, tests and texts that the parts share
--   Engine.State    the enumerations, VLLMEngine's fields (a record), __init__, is_available, status
--   Engine.Sections what a coroutine does between two awaits, as functions on the record: the
--                   sections of pause, resume, _do_reload, start, _mark_dead, _destroy_engine
--   Engine.Moves, Requests, Tasks
--                   a coroutine as a program counter (Task, one constructor per await); the sections
--                   of a request; and `advance`, which runs a coroutine to its next await on what
--                   the await gave (Outcome)
--   Engine.System   the loop: the engine, the lock's holder and the list of tasks; Step and Reach,
--                   any interleaving of calls and wake-ups; `schedule`, the same by a list of rounds
--   Engine.Rules, Accounting, Lock, Phases, Owners, Release, Flags, Safety
--                   invariants of every reachable state, each by induction on the steps
--   Engine.Commitment, Yield
--                   what a pause commits the engine to, through every later section
--   Engine.Cores, Lifecycle
--                   when there is a vLLM engine object; VLLMEngine against the engine's life as the
--                   miner sees it (Life, may_follow)
--   Engine.Leaving, Progress
--                   how _destroy_engine ends, and the coroutines that wait for the transition lock
--   Engine.Guarantees, Completion, Races
--                   what follows for the miner, and orders in which a command is lost
--   Engine.Creation, Children, Kills
--                   the engines of one process: _create_engine under the class-wide lock, with
--                   CUDA_VISIBLE_DEVICES, the subprocesses and the set of pids that each engine records
--   Engine.Vram, Gpu  _wait_for_vram_release, and _query_gpu_free_ratio over nvidia-smi
--   Engine.Outputs, Streaming, Sampling
--                   what generate and generate_stream make of vLLM's outputs; sampling parameters
--   Engine.Schedules  a list of rounds as a derivation of Reach
--   Pool.State, Sessions, Pick, Fanout
--                   EnginePool: fields and status; the session table; _pick_engine; the loops of
--                   pause, resume, stop and switch_model with a pause arriving between two engines
--   Pool.Routes     generate's choice of an engine, current_model, detailed_status
--   Pool.Choice, Balance, Pinned, Affinity, Rotation, Yielding, Report
--                   the proofs about them, by subject
--   Mock.Tasks, Laws, Answers
--                   MockEngine, whose coroutines sleep and take no lock, and what it answers
--   Listener.Poll   SchedulerListener: _poll, _apply_state, _run as functions of what a poll meets
--   Listener.Client, Heartbeat
--                   SchedulerClient (scheduler_client/grpc_client.py) and _report_status over it
--   Listener.Thread  start, stop and the thread
--   Listener.Fence, Failsafe
--                   whether mining is fenced off from inference, over every run of the listener
--   Service.Dispatch  the listener and the pool together: its commands as coroutines of the pool that
--                   start in the order of their dispatch, between all that else happens
--   Service.Told, Obeyed, Fencing
--                   whether a yield reaches the engines, and lasts
--   Api.Names, Requests, Handlers, Stream, Switch
--                   _model_matches; what is read of a request; the endpoints; sse_generator;
--                   _ensure_model_loaded of many requests under the switch lock
--   Api.Matching, Attested, Gates, Once
--                   the proofs about them
--   Receipt.Json, Decimal, Payload, Signer
--                   json.dumps of a text, a number in a text, canonical_payload, get_signer and
--                   build_receipt
--   Receipt.Character, Reader, Decode
--                   a reader of the payload
--   Models.Foc, Cids  the registry, manifest and requests of RealFOCClient
--   Models.Cache, Download, Crash, Outcome
--                   is_model_complete; download_weights as the states of the files that it passes
--                   through; what it leaves when killed, and when it ends
--   Models.Archive, Paths, Confined
--                   the checks of _safe_extractall
--   Models.Manager, Ensure  ensure_model
--   Models.MockClient, Local  MockFOCClient and create_foc_client; find_local_model
--   Config.Devices, Load, Build, Environment
--                   detect_gpus and _resolve_multi_gpu; load_config; create_engine_pool and
--                   create_engine; _interpolate_env_vars
--   Config.Covers, Interpolate
--                   the proofs about them
--   Startup.Wiring, Boot, Fresh, Deferral, Shutdown
--                   what main passes from the configuration to its parts; the part that decides
--                   whether the engines are started; its `finally`
--   Examples        in each part, concrete runs
--
-- Reading the model
--   - A request id, a process id and an engine object are numbers; time is a number of clock units.
--     Engines of a pool are named by their index. A Python dict is an association list in the
--     order of insertion.
--   - vLLM, asyncio, gRPC and the clock are not modelled: what an await gives is chosen by the
--     environment, and every choice that the code handles is covered. A wake-up may come later
--     than the real loop would give it, and waiters of the lock are woken in any order.
--   - A timely environment (Engine.Phases, `timely`) is one where vLLM reports a dead core only
--     to an engine that is running or already dead, `start` is called on a stopped engine, and
--     `stop` finds no other transition under way. Theorems that say "timely" need it; Races
--     has orders of events outside of it.
--   - In Engine.Creation the environment is `documented`: multiprocessing lists the live subprocesses,
--     vLLM starts one only while its engine is constructed,
--     the operating system gives a new process a pid that is in no set of the process, a vLLM
--     construction that raises leaves no subprocess, and an engine is built only when it has none.
--   - There is no fuel but that of the reader of Receipt.Reader, which is above the text's length:
--     sections are straight-line code, waiting is a step of the environment, and the session table,
--     the polls and the samples of nvidia-smi are lists.
--   - In Api, Receipt, Models and Config a text is the list of its code points; lower() is that of
--     ASCII, which the texts compared are. ed25519, SHA-256, `re`, the archive and the answers of the
--     bridge are parameters or chosen freely, so are the outputs of vLLM. The request has passed
--     FastAPI and pydantic; a number of the configuration file is not negative. Texts that UTF-8
--     cannot encode reach no hash.
--   - rmtree and the extraction change a directory file by file, in any number of steps that a kill
--     may fall between; a rename is one step. Any file may resist rmtree, whose errors the code
--     ignores, and the tarball may resist unlink. A name that an extraction writes over one that is
--     left stands twice in the list of entries.
--   - Startup.Boot takes the pools whose engines are VLLMEngines; MockEngine, the default of the
--     development configuration, has its own model in Mock.
--
-- Not modelled: FastAPI, pydantic, uvicorn, asyncio, vLLM, gRPC and its generated code
-- (sidecar_pb2, sidecar_pb2_grpc), and the YAML parser. In Engine.Tasks the wait for free VRAM is an
-- await that returns; Engine.Gpu is about that wait; and the two sleeps of _destroy_engine are one
-- await. Also left out: links in the file system, so that a path is resolved by its text alone; a
-- key file that breaks off while it is written; logging, the command line and sleeping between two
-- polls; subscribe_events, which nothing calls; the Go scheduler and the FOC bridge, which are other
-- programs.
pub mod Api
pub mod Base
pub mod Config
pub mod Engine
pub mod Listener
pub mod Mock
pub mod Models
pub mod Pool
pub mod Receipt
pub mod Service
pub mod Startup
