-- ===== src/Lib.antt =====
-- Verification of AI-SSD: the storage side of an LLM whose KV cache is paged to an SSD.
--
-- The program's parts and the files that model them (paths from the repository's root):
-- - person2_ssd/nand: flash pages, erase blocks, planes and dies. Nand.Page, Nand.Block, Nand.Die;
--   proofs in Nand.Counts and Nand.Writing.
-- - person2_ssd/ftl: the flash translation layers, a mapping table with a reverse map behind a
--   sequential and a tensor-aware allocation. Ftl.Base, Ftl.Conventional, Ftl.TensorAware; proofs
--   in Ftl.Linear, Ftl.Consistency, Ftl.Batch (sequential) and Ftl.Striping, Ftl.Striped.
-- - person2_ssd/kv_allocator: the allocator over a layer (Ftl.Allocator) and the text of a physical
--   coordinate (Location.Text).
-- - person2_ssd/channels: the bus and the queue of a channel. Channel.Defs, Channel.Serial.
-- - person2_ssd/storage_model: the latency model (Storage.Latency, Storage.Contention), the search
--   of location texts (Location.Parse, Location.RoundTrip) and the simulator that ties the parts
--   together (Storage.Simulator; proofs in Storage.Pages, Placing, Integrity and Fresh).
-- - common/schemas/kv_block.py: the block descriptor that they share. Schema.Block.
-- - person3_system/prefetch: the predictor with its history (Prefetch.Predictor) and the two
--   prefetchers with a staging buffer, an OrderedDict (Prefetch.Ordered, Staging and Accounted;
--   proofs in Prefetch.Lru, Accounts
--   and Requests).
-- - person3_system/storage: the abstract backend with its batch loop and the in-memory backend.
--   Backend.Interface, Backend.Mock, Backend.ReadBack.
-- - person1_kv_engine/tiering: blocks of tokens in RAM or on an SSD. Tiering.Pool, Tiering.Policy,
--   Tiering.Manager, Tiering.Windows.
-- - person1_kv_engine/cache_manager and mock_ssd.py: the paged cache, its eviction and an SSD in
--   memory that keeps references. Cache.Blocks, Hotness, MockSsd and Paged; proofs in
--   Cache.Numbered and Offload.
-- - person1_kv_engine/storage_backend: the simulated controller with a DRAM cache.
--   Controller.FlashModel, Controller.MockSsdController, Controller.DramBudget.
-- - person2_ssd/kv_allocator/tensor_mapping.py: the mapper from tensor coordinates to addresses.
--   Mapper.Coordinates, Mapper.Addressing; proofs in Mapper.Distinct and Mapper.Agreement.
-- - person2_ssd/inference_backend.py: the storage of live inference over a backing file.
--   Inference.Device (the file), State, Store, Reads, Batches and TopK; proofs in Inference.Refines,
--   Ready, Total, Loops, Fitting and Agree.
-- - person3_system/prefetch/inference_adapter.py: the adapter between live inference and its
--   storage. Adapter.Interface (the storage), State, Staging, Reads and Writes; proofs in
--   Adapter.Coherent, Workers, Hits, Filling, Dispatch, Demands, Batched and Transparent.
--   The thread pool is the set of its tasks; a worker runs one at any moment
--   (Adapter.Transparent.Event).
-- - person1_kv_engine/adapters: the state providers of live inference (transformer_kv.py,
--   sliding_window_kv.py). Provider.Backend (what they use of the storage), State, Select and
--   Window; proofs in Provider.Cutting, Ordering, Choosing, Laid, Layers, Picked, RoundTrip,
--   Session, Losing, Valid and Windowed.
-- A simulator stores a block by asking its allocator for a location, which its layer records in
-- both maps; it parses the text of the location and programs that page. A class is a record, a
-- method a function that returns the new state; a call that may raise returns a Result, with the
-- state beside it where something is written before the raise. Python's dict is an association
-- list in insertion order (Prelude.Dict), a str a list of code points.
--
-- Bounds and fuel: a decimal is printed with the number itself as fuel, which is enough since
-- each round divides by ten. The blocks of a prefill are cut with the number of its rows as fuel,
-- since each round takes a row at least. Numbers are natural numbers: the code has no negative
-- identifiers, sizes or times. Times are whole microseconds, as the constants of
-- common/constants.py are, or nanoseconds (Cache.MockSsd); where the code divides times, floats
-- are a parameter (Prelude.Floats). Texts that are searched are ASCII. An array is the list of
-- its rows (Tiering.Pool, Provider.State), its shape (Cache.Blocks) or its size with what it
-- holds (Controller).
--
-- Not modelled: the arithmetic on tensors (the score of a block is a parameter of Provider.Select),
-- thread pools, energy, the models with their hybrid and recurrent states, NVMe I/O, the dashboard,
-- the benchmarks and the scripts.
pub mod Prelude
pub mod Nand
pub mod Location
pub mod Schema
pub mod Ftl
pub mod Channel
pub mod Storage
pub mod Prefetch
pub mod Backend
pub mod Tiering
pub mod Cache
pub mod Controller
pub mod Mapper
pub mod Inference
pub mod Adapter
pub mod Provider
mod Tests
