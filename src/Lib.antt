-- ===== src/Lib.antt =====
-- A model of py_kvcache, a KV cache offload to shared storage, and what is proved of it.
--
-- The scheduler's side is the manager, which vLLM asks whether a block can be loaded, and the load
-- planner, which the manager asks whether to load a request's blocks now, later or never. The worker's
-- side reads and writes the files through staging slots; completed slots are kept in a cache with an
-- eviction policy. The reactor is its thread: it takes in jobs and requests for preloads, opens,
-- reads and writes through io_uring, copies between slots and the GPU, and shares preloaded slots.
--
-- Staging        py_kvcache/staging.py: `StagingPool`, the free slots.
-- CachePolicy    py_kvcache/staging_cache.py: `LruPolicy`, `ArcPolicy` and the protocol they share.
-- StagingCache   py_kvcache/staging_cache.py: `StagingDataCache`, slots kept under their block hash.
-- Seconds        floats, a parameter: a type with the operations that the source applies to them.
-- CostModel      py_kvcache/cost_model.py: `CostTables` and its accessors.
-- LoadPlanner    py_kvcache/load_planner.py: LoadPlanner/State has the data and what is kept between
--                calls, LoadPlanner the call of `plan`, with a definition for each branch of its loop.
-- Manager        py_kvcache/vllm.py: `SharedStorageOffloadingManager`.
-- Handler        py_kvcache/vllm.py: `NoopSharedStorageOffloadingHandler`.
-- BreakEven      py_kvcache/break_even.py: the thresholds, the load gate and the cost curves.
-- FsConfig       py_kvcache/fs_config.py: the settings, read and checked.
-- Transfer       py_kvcache/transfer.py: how block ids are divided among files and expanded.
-- Reactor        py_kvcache/reactor.py: `IoReactor`. Reactor/State has the data, Reactor/Demand the
--                counts of who wants which hash, Reactor/Places the slots, Reactor/Jobs the jobs and
--                what is submitted, Reactor/Complete what follows a completion, Reactor/Schedule and
--                Reactor/Preload `_schedule_work`, Reactor/Intake `_intake`, Reactor/Run the loop.
-- Prelude        lists, dictionaries in order of insertion, key lists for `OrderedDict` and `set`,
--                results with Python's exceptions, integers.
-- Tests          runs at concrete inputs.
--
-- An object is a record; a method that changes it returns the new record, paired with what the source
-- returns, or a `Result` where the source raises. `None` is `none`. A block hash, of which the code
-- only tests equality, is a number; so is a slot. Loops run over lists, but for those of the reactor
-- that are named below. An operation that takes the time takes it as an argument, and the file system
-- as the set of hashes whose file exists.
--
-- Parameters are vLLM's offload keys (`OffloadKeys`) and the floats (`Seconds`); theorems that compare
-- times assume that comparison is a total order and that adding is monotone (`IsOrdered`), which holds
-- of floats other than NaN.
--
-- Objects of the reactor that several attributes refer to, the jobs and the shared slots, are entries of
-- a heap named by their index. A completion of the ring and the end of a copy are events, with their
-- result as an argument, in any order; `World` says whether the ring takes a submission and whether a
-- copy can be launched. A loop of the reactor that runs until a queue is empty or a job has no file left
-- recurses on that queue, or on that number of files as fuel, since each turn begins one file.
--
-- Not modelled: the reactor's thread, its lock and queue, and the pointers it gives to CUDA;
-- py_kvcache/liburing_file.py, py_kvcache/_pchip.py, py_kvcache/file_mapper.py, the profiler, and the glue
-- that builds the components from vLLM's configuration.
pub mod Prelude
pub mod Staging
pub mod CachePolicy
pub mod StagingCache
pub mod Seconds
pub mod CostModel
pub mod LoadPlanner
pub mod Manager
pub mod Handler
pub mod BreakEven
pub mod FsConfig
pub mod Transfer
pub mod Reactor
mod Tests
