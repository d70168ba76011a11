-- ===== src/Location.antt =====
-- Physical locations `ch<C>_die<D>_pl<P>_blk<B>_pg<G>`: the coordinate and its text
-- (person2_ssd/kv_allocator/tensor_mapping.py, `NANDPhysicalCoordinate`), and the search of that
-- text (person2_ssd/storage_model/io_model.py and latency.py). `Text` has texts and decimals,
-- `Parse` the two regular expressions, `RoundTrip` the proofs.
pub mod Text
pub mod Parse
pub mod RoundTrip
