-- ===== src/Tests/Inferring.antt =====
-- Concrete runs of the storage backend of live inference, over a file in memory, and of the mapper.
use ai_ssd.Prelude.{
  ℕ, max, min, sym, ap, ◌-◌, zero, suc, ◌+◌, ◌%◌, ◌↔◌, ◌≤◌, ◌<◌, ◌≡◌, ◌⊎◌, inl, inr, refl, ◌∙◌,
  true, false, none, some, ok, List, [], ◌∷◌, length, arith, ite, ℕ_discrete,
}
use ai_ssd.Prelude.Dict.{lookup, nat_key, pair_key}
use ai_ssd.Mapper.Coordinates.{coordinate, tensor_aware, conventional, LbaAddress, token_block_idx}
use ai_ssd.Mapper.Distinct.{room, Fits, tensor_to_lba_bounds, tensor_to_lba-injective}
use ai_ssd.Mapper.Agreement.{geometry_of, target-agrees}
use ai_ssd.Ftl.TensorAware.{stripe_die, stripe_plane, stripe_channel}
use ai_ssd.Mapper.Addressing.{
  DeterministicTensorMapper, new_mapper, tensor_to_lba, target_channel, target_die, target_plane,
  stripe_unit, raw_lba,
}
use ai_ssd.Inference.Device.{Device}
use ai_ssd.Inference.State.{reshaped, zeros_from, Array, raw, array, float32, no_stats}
use ai_ssd.Inference.Store.{RealInferenceStorageBackend, new_backend, write_block, as_array}
use ai_ssd.Inference.Batches.{read_key_page_batch}
use ai_ssd.Inference.Refines.{IsLaid, Holds, write_block-Holds}
use ai_ssd.Inference.Ready.{IsReady, zeros_from-AllCounted}
use ai_ssd.Inference.Total.{write_block-IsReady}
use ai_ssd.Inference.Fitting.{KeysFit, write_block-KeysFit}
use ai_ssd.Inference.Loops.{results_of}
use ai_ssd.Prefetch.Ordered.{present}
use ai_ssd.Inference.Agree.{key_of, outcome, in_mode, read_key_page_batch-agrees}

store_bytes : (ℕ → ℕ) → List ℕ → ℕ → ℕ → ℕ
store_bytes f [] offset i = f i
store_bytes f (x ∷ xs) offset i = ite (ℕ_discrete offset i) x (store_bytes f xs (suc offset) i)

load_bytes : (ℕ → ℕ) → ℕ → ℕ → List ℕ
load_bytes f zero at = []
load_bytes f (suc n) at = f at ∷ load_bytes f n (suc at)

store_bytes_outside :
    (f : ℕ → ℕ) (bytes : List ℕ) (offset i : ℕ)
    → (i < offset) ⊎ (offset + length bytes ≤ i)
    → store_bytes f bytes offset i ≡ f i
unfolding store_bytes
store_bytes_outside f [] offset i h = refl
store_bytes_outside f (x ∷ xs) offset i h =
    elim (ℕ_discrete offset i) as (λ d. ite d x (store_bytes f xs (suc offset) i) ≡ f i) [
      | yes same ↦ absurd (outside same h)
      | no ne ↦ store_bytes_outside f xs (suc offset) i (shifted h)
    ]
  where
    outside : offset ≡ i → (i < offset) ⊎ (offset + suc (length xs) ≤ i) → ⊥
    outside same (inl low) = omega (arith, same, low)
    outside same (inr high) = omega (arith, same, high)

    shifted :
        (i < offset) ⊎ (offset + suc (length xs) ≤ i)
        → (i < suc offset) ⊎ (suc offset + length xs ≤ i)
    shifted (inl low) = inl (omega arith)
    shifted (inr high) = inr (omega arith)

load_bytes_same :
    (f g : ℕ → ℕ) (n at : ℕ)
    → ((i : ℕ) → at ≤ i → i < at + n → f i ≡ g i)
    → load_bytes f n at ≡ load_bytes g n at
unfolding load_bytes
load_bytes_same f g zero at h = refl
load_bytes_same f g (suc n) at h =
    let first : f at ≡ g at = h at (omega arith) (omega arith) in
    let rest = load_bytes_same f g n (suc at) (λ i low high. h i (omega arith) (omega arith)) in cc

load_bytes-store_bytes :
    (f : ℕ → ℕ) (bytes : List ℕ) (offset : ℕ)
    → load_bytes (store_bytes f bytes offset) (length bytes) offset ≡ bytes
unfolding load_bytes store_bytes
load_bytes-store_bytes f [] offset = refl
load_bytes-store_bytes f (x ∷ xs) offset =
    let first : ite (ℕ_discrete offset offset) x (store_bytes f xs (suc offset) offset) ≡ x =
      ground arith in
    let rest =
      load_bytes_same (store_bytes f (x ∷ xs) offset) (store_bytes f xs (suc offset)) (length xs)
        (suc offset) (λ i low high. ground (arith))
      ∙ load_bytes-store_bytes f xs (suc offset) in
    cc

load_bytes-store_bytes_ne :
    (f : ℕ → ℕ) (bytes : List ℕ) (offset n at : ℕ)
    → at + n ≤ offset
    → load_bytes (store_bytes f bytes offset) n at ≡ load_bytes f n at
load_bytes-store_bytes_ne f bytes offset n at h =
    load_bytes_same _ _ n at
      (λ i low high. store_bytes_outside f bytes offset i (inl (omega arith)))

-- the size of a file behind a write
grown : ℕ → List ℕ → ℕ → ℕ
grown s [] offset = s
grown s (x ∷ xs) offset = max s (offset + length (x ∷ xs))

grown-le : (s : ℕ) (bytes : List ℕ) (offset : ℕ) → s ≤ grown s bytes offset
unfolding grown
grown-le s [] offset = omega arith
grown-le s (x ∷ xs) offset = omega arith

grown-covers :
    (s : ℕ) (bytes : List ℕ) (offset : ℕ)
    → offset ≤ s
    → offset + length bytes ≤ grown s bytes offset
unfolding grown
grown-covers s [] offset h = omega arith
grown-covers s (x ∷ xs) offset h = omega arith

-- a read ends with the file
read_file : (ℕ → ℕ) × ℕ → ℕ → ℕ → List ℕ
read_file (f, s) n at = load_bytes f (min n (s - at)) at

read_file-within :
    (f : ℕ → ℕ) (s n at : ℕ) → (n ≡ 0) ⊎ (at + n ≤ s) → read_file (f, s) n at ≡ load_bytes f n at
unfolding read_file
read_file-within f s n at (inl h) =
    let all : min n (s - at) ≡ n = omega (arith, h) in ap (λ m. load_bytes f m at) all
read_file-within f s n at (inr h) =
    let all : min n (s - at) ≡ n = omega (arith, h) in ap (λ m. load_bytes f m at) all

grown-holds :
    (s : ℕ) (bytes : List ℕ) (offset : ℕ)
    → (length bytes ≡ 0) ⊎ (offset + length bytes ≤ grown s bytes offset)
unfolding grown
grown-holds s [] offset = inl refl
grown-holds s (x ∷ xs) offset = inr (omega arith)

-- a file in memory: what stands at every place, and its size
abbrev memory : Device
memory = record {
  File = (ℕ → ℕ) × ℕ;
  pwrite = λ f bytes offset. ((store_bytes f.0 bytes offset, grown f.1 bytes offset), length bytes);
  pread = read_file;
  size = λ f. f.1;
  pread-pwrite = λ f bytes offset full.
      read_file-within (store_bytes f.0 bytes offset) (grown f.1 bytes offset) (length bytes) offset
        (grown-holds f.1 bytes offset)
      ∙ load_bytes-store_bytes f.0 bytes offset;
  pread-pwrite_ne = λ f bytes offset n at within h.
      read_file-within (store_bytes f.0 bytes offset) (grown f.1 bytes offset) n at
        (inr (omega (arith, within, grown-le f.1 bytes offset)))
      ∙ load_bytes-store_bytes_ne f.0 bytes offset n at h
      ∙ sym (read_file-within f.0 f.1 n at (inr within));
  size-pwrite = λ f bytes offset within full. grown-covers f.1 bytes offset within;
  size-pwrite-le = λ f bytes offset. grown-le f.1 bytes offset;
}

-- two channels of two dies, one head, empty
abbrev device : RealInferenceStorageBackend memory
device = new_backend memory 2 2 2 4 4 1 1 2 1 tensor_aware true ((λ i. 0), 0)

abbrev one_key : Array
one_key = record {
  shape = 2 ∷ 1 ∷ 1 ∷ [];
  dtype = float32;
  bytes = 1 ∷ 2 ∷ 3 ∷ 4 ∷ 5 ∷ 6 ∷ 7 ∷ 8 ∷ [];
}

abbrev eight : List ℕ
eight = 9 ∷ 0 ∷ 0 ∷ 0 ∷ 7 ∷ 0 ∷ 0 ∷ 0 ∷ []

device-IsLaid : IsLaid memory device
unfolding new_backend lookup
device-IsLaid = (omega arith, λ key e h. cc)

device-IsReady : IsReady memory device
unfolding new_backend no_stats new_mapper stripe_unit lookup
device-IsReady = record {
  mode = refl;
  tables = (omega arith, omega arith, omega arith, omega arith, omega arith);
  stripe = omega arith;
  same = refl;
  counted = (all, all, all, all, all);
  entries = λ key e h. cc;
}
  where
    all : (c : ℕ) → c < 2 → present (lookup c (zeros_from 0 2)) ≡ true
    all c h = zeros_from-AllCounted 0 2 c (omega arith) (omega arith)

writes : (write_block memory device 3 7 (array one_key) (raw eight) 0 32).1 ≡ none
writes = (write_block-IsReady memory device 3 7 (array one_key) (raw eight) 0 32 device-IsReady).0

stored-IsReady : IsReady memory (write_block memory device 3 7 (array one_key) (raw eight) 0 32).0
stored-IsReady =
    (write_block-IsReady memory device 3 7 (array one_key) (raw eight) 0 32 device-IsReady).1

write_block-IsReady_example :
    ((write_block memory device 3 7 (array one_key) (raw eight) 0 32).1 ≡ none)
    × IsReady memory (write_block memory device 3 7 (array one_key) (raw eight) 0 32).0
write_block-IsReady_example =
    write_block-IsReady memory device 3 7 (array one_key) (raw eight) 0 32 device-IsReady

write_block-Holds_example :
    Holds memory device
      (write_block memory device 3 7 (array one_key) (raw eight) 0 32).0
      (3, 7)
      (some (reshaped one_key, reshaped (as_array memory device (raw eight))))
unfolding as_array
write_block-Holds_example =
    write_block-Holds memory device 3 7 (array one_key) (raw eight) 0 32 device-IsLaid (refl, refl)
      writes

stored-KeysFit : KeysFit memory (write_block memory device 3 7 (array one_key) (raw eight) 0 32).0
unfolding as_array reshaped new_backend lookup
stored-KeysFit =
    write_block-KeysFit memory device 3 7 (array one_key) (raw eight) 0 32 device-IsLaid
      (refl, refl) writes refl (λ key e h. cc)

abbrev stored : RealInferenceStorageBackend memory
stored = (write_block memory device 3 7 (array one_key) (raw eight) 0 32).0

read_key_page_batch-agrees_example :
    (outcome memory (read_key_page_batch memory (in_mode memory true stored) 3 (7 ∷ 5 ∷ []) 0 32)
      ≡ outcome memory
          (read_key_page_batch memory (in_mode memory false stored) 3 (7 ∷ 5 ∷ []) 0 32))
    × ((read_key_page_batch memory (in_mode memory true stored) 3 (7 ∷ 5 ∷ []) 0 32).1
        ≡ ok (
            results_of
              (λ bid. key_of memory stored (lookup (3, bid) stored.storage))
              (7 ∷ 5 ∷ [])
              []))
read_key_page_batch-agrees_example =
    read_key_page_batch-agrees memory stored 3 (7 ∷ 5 ∷ []) 0 32 stored-IsReady stored-KeysFit

-- two channels of two dies; two layers of two heads with four blocks each
abbrev table : DeterministicTensorMapper
table = new_mapper 2 2 2 4 4 4096 64 2 2

tensor_to_lba_bounds_example :
    (a : LbaAddress) × (tensor_to_lba table (coordinate 1 1 40 16 0) tensor_aware ≡ ok a)
    × (a.lba < table.total_device_blocks)
unfolding new_mapper room stripe_unit
tensor_to_lba_bounds_example =
    tensor_to_lba_bounds table tensor_aware (coordinate 1 1 40 16 0) (omega arith)

block-Fits : Fits table conventional (coordinate 1 1 40 16 0)
unfolding new_mapper room raw_lba token_block_idx
block-Fits = record { head = omega arith; index = omega arith; inside = omega arith }

other-Fits : Fits table conventional (coordinate 1 1 47 16 0)
unfolding new_mapper room raw_lba token_block_idx
other-Fits = record { head = omega arith; index = omega arith; inside = omega arith }

tensor_to_lba-injective_example :
    ((coordinate 1 1 40 16 0).layer_id ≡ (coordinate 1 1 47 16 0).layer_id)
    × ((coordinate 1 1 40 16 0).head_id ≡ (coordinate 1 1 47 16 0).head_id)
    × (token_block_idx (coordinate 1 1 40 16 0) ≡ token_block_idx (coordinate 1 1 47 16 0))
unfolding tensor_to_lba new_mapper raw_lba token_block_idx
tensor_to_lba-injective_example =
    tensor_to_lba-injective table conventional (coordinate 1 1 40 16 0) (coordinate 1 1 47 16 0)
      block-Fits other-Fits refl refl

target-agrees_example :
    (target_die table 3 1 5 ≡ stripe_die (geometry_of table) 3 1 5)
    × (target_plane table 5 ≡ stripe_plane (geometry_of table) 5)
    × ((target_channel table 3 1 5 ≡ stripe_channel (geometry_of table) 1 5)
        ↔ (3 % table.channels ≡ 0))
unfolding new_mapper
target-agrees_example = target-agrees table 3 1 5 (omega arith)
