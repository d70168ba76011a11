-- ===== src/Provider.antt =====
-- The state providers of live inference (person1_kv_engine/adapters: transformer_kv.py,
-- sliding_window_kv.py): `Backend` is what they use of the storage, `State` the prefill, `Select` the
-- active state, `Window` the sliding window. The other modules prove.
pub mod Backend
pub mod State
pub mod Select
pub mod Cutting
pub mod Ordering
pub mod Choosing
pub mod Laid
pub mod Layers
pub mod Picked
pub mod RoundTrip
pub mod Session
pub mod Window
pub mod Valid
pub mod Windowed
pub mod Losing
