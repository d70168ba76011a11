-- ===== src/Inference/Refines.antt =====
-- person2_ssd/inference_backend.py: the backend as a map from layers and blocks to arrays.
use ai_ssd.Prelude.{
  ℕ, ◌+◌, ◌/◌, ◌≤◌, ◌≡◌, ◌≢◌, refl, sym, ap, ◌∙◌, Option, none, some, List, [], length, Result, ok,
  err, arith,
}
use ai_ssd.Prelude.Dict.{
  nat_key, pair_key, lookup, insert, pair_discrete, lookup-insert_self, lookup-insert_ne,
}
use ai_ssd.Mapper.Coordinates.{coordinate, LbaAddress}
use ai_ssd.Mapper.Addressing.{tensor_to_lba}
use ai_ssd.Inference.Device.{Device}
use ai_ssd.Inference.State.{reshaped, Array, Payload, Entry, Stats}
use ai_ssd.Inference.Store.{
  RealInferenceStorageBackend, as_array, heads_in_block, place_heads, new_entry, commit,
  finish_write, write_block,
}
use ai_ssd.Inference.Reads.{raw_key, raw_value, stored_key, stored_value}

module _ (dev : Device) where
  open dev use {
    File, pwrite, pread, size, pread-pwrite, pread-pwrite_ne, size-pwrite, size-pwrite-le,
  }

  -- what a read of an entry gives: its arrays, or a raise where bytes do not fit their shape
  unfoldable pub arrays_of :
      RealInferenceStorageBackend dev → Option Entry → Option (Result Array × Result Array)
  arrays_of b none = none
  arrays_of b (some e) = some (stored_key dev b e, stored_value dev b e)

  -- what a backend holds: the abstract view
  unfoldable pub contents :
      RealInferenceStorageBackend dev → ℕ × ℕ → Option (Result Array × Result Array)
  contents b key = arrays_of b (lookup key b.storage)

  -- every entry lies below the offset of the next write, which lies within the file
  abbrev pub IsLaid : RealInferenceStorageBackend dev → Type 0
  IsLaid b =
      (b.file_offset ≤ size b.backing)
      × ((key : ℕ × ℕ) (e : Entry)
          → lookup key b.storage ≡ some e
          → (e.k_offset + e.k_size ≤ b.file_offset) × (e.v_offset + e.v_size ≤ b.file_offset))

  -- the two writes of a block, at an offset of the file, are not short
  abbrev pub AreComplete : File → (k v : List ℕ) → ℕ → Type 0
  AreComplete f k v offset =
      ((pwrite f k offset).1 ≡ length k)
      × ((pwrite (pwrite f k offset).0 v (offset + length k)).1 ≡ length v)

  abbrev pub at_block : ℕ → ℕ → ℕ × ℕ
  at_block layer_idx block_id = (layer_idx, block_id)

  -- a backend after its commit holds the new arrays, and the old ones elsewhere
  abbrev pub Holds :
      RealInferenceStorageBackend dev
      → RealInferenceStorageBackend dev
      → ℕ × ℕ
      → Option (Result Array × Result Array)
      → Type 0
  Holds b after key held =
      IsLaid after
      × (contents after key ≡ held)
      × ((j : ℕ × ℕ) → key ≢ j → contents after j ≡ contents b j)

  abbrev two_writes : File → (k v : List ℕ) → ℕ → File
  two_writes f k v offset = (pwrite (pwrite f k offset).0 v (offset + length k)).0

  two_writes_keep :
      (f : File) (k v : List ℕ) (offset n at : ℕ)
      → offset ≤ size f
      → at + n ≤ offset
      → pread (two_writes f k v offset) n at ≡ pread f n at
  two_writes_keep f k v offset n at within h =
      pread-pwrite_ne (pwrite f k offset).0 v (offset + length k) n at
        (omega (arith, size-pwrite-le f k offset)) (omega arith)
      ∙ pread-pwrite_ne f k offset n at (omega arith) h

  two_writes_first :
      (f : File) (k v : List ℕ) (offset : ℕ)
      → offset ≤ size f
      → AreComplete f k v offset
      → pread (two_writes f k v offset) (length k) offset ≡ k
  two_writes_first f k v offset within full =
      pread-pwrite_ne (pwrite f k offset).0 v (offset + length k) (length k) offset
        (size-pwrite f k offset within full.0) (omega arith)
      ∙ pread-pwrite f k offset full.0

  two_writes_size :
      (f : File) (k v : List ℕ) (offset : ℕ)
      → offset ≤ size f
      → AreComplete f k v offset
      → offset + (length k + length v) ≤ size (two_writes f k v offset)
  two_writes_size f k v offset within full = omega (
    arith,
    size-pwrite (pwrite f k offset).0 v (offset + length k) (size-pwrite f k offset within full.0)
        full.1,
  )

  module _ (b : RealInferenceStorageBackend dev) (layer_idx block_id head_id token_start : ℕ)
      (k v : Array) (assigned : List ℕ) (lba : ℕ)
      (full : AreComplete b.backing k.bytes v.bytes b.file_offset) where
    abbrev done : RealInferenceStorageBackend dev
    done = commit dev b layer_idx block_id head_id token_start k v assigned lba

    entry : Entry
    entry = new_entry dev b head_id token_start k v assigned lba

    commit-IsLaid : IsLaid b → IsLaid done
    unfolding commit entry new_entry
    commit-IsLaid (within, laid) =
        (two_writes_size b.backing k.bytes v.bytes b.file_offset within full, below laid)
      where
        below :
            ((j : ℕ × ℕ) (e : Entry)
              → lookup j b.storage ≡ some e
              → (e.k_offset + e.k_size ≤ b.file_offset) × (e.v_offset + e.v_size ≤ b.file_offset))
            → (j : ℕ × ℕ) (e : Entry) → lookup j done.storage ≡ some e
            → (e.k_offset + e.k_size ≤ done.file_offset)
              × (e.v_offset + e.v_size ≤ done.file_offset)
        below laid j e h = elim (pair_discrete (layer_idx, block_id) j) [
          | yes same ↦
              let q : some entry ≡ some e =
                sym (lookup-insert_self j entry b.storage)
                ∙ ap (λ i. lookup j (insert i entry b.storage)) (sym same)
                ∙ h in
              let r : entry ≡ e = cc in
              let first = ap (λ x. x.k_offset + x.k_size) r in
              let second = ap (λ x. x.v_offset + x.v_size) r in
              (omega (arith, first), omega (arith, second))
          | no ne ↦
              let old =
                laid j e (sym (lookup-insert_ne (layer_idx, block_id) j entry b.storage ne) ∙ h) in
              (omega (arith, old), omega (arith, old))
        ]

    commit_new :
        IsLaid b → contents done (at_block layer_idx block_id) ≡ some (reshaped k, reshaped v)
    unfolding commit contents arrays_of stored_key stored_value raw_key raw_value entry new_entry
    commit_new laid =
        ap (arrays_of done) (lookup-insert_self (layer_idx, block_id) entry b.storage)
        ∙ ap (λ x. some (reshaped (record k { bytes = x }), stored_value dev done entry))
            (two_writes_first b.backing k.bytes v.bytes b.file_offset laid.0 full)
        ∙ ap (λ x. some (reshaped k, reshaped (record v { bytes = x })))
            (pread-pwrite (pwrite b.backing k.bytes b.file_offset).0 v.bytes
              (b.file_offset + length k.bytes) full.1)

    commit_old :
        IsLaid b → (j : ℕ × ℕ) → at_block layer_idx block_id ≢ j → contents done j ≡ contents b j
    unfolding commit contents arrays_of stored_key stored_value raw_key raw_value entry
    commit_old laid j ne =
        ap (arrays_of done) (lookup-insert_ne (layer_idx, block_id) j entry b.storage ne)
        ∙ kept (lookup j b.storage) refl
      where
        kept : (e : Option Entry) → lookup j b.storage ≡ e → arrays_of done e ≡ arrays_of b e
        kept none h = refl
        kept (some e) h =
            ap
              (λ x.
                some (reshaped (record (raw_key dev b e) { bytes = x }), stored_value dev done e))
              (two_writes_keep b.backing k.bytes v.bytes b.file_offset e.k_size e.k_offset laid.0
                (laid.1 j e h).0)
            ∙ ap
                (λ x.
                  some (stored_key dev b e, reshaped (record (raw_value dev b e) { bytes = x })))
                (two_writes_keep b.backing k.bytes v.bytes b.file_offset e.v_size e.v_offset laid.0
                  (laid.1 j e h).1)

  -- the counters do not change what a backend holds
  pub contents_counted :
      (b : RealInferenceStorageBackend dev) (s : Stats) (j : ℕ × ℕ)
      → contents (record b { stats = s }) j ≡ contents b j
  unfolding contents arrays_of stored_key stored_value raw_key raw_value
  contents_counted b s j = held (lookup j b.storage)
    where
      held : (e : Option Entry) → arrays_of (record b { stats = s }) e ≡ arrays_of b e
      held none = refl
      held (some e) = refl

  finish_write-Holds :
      (b : RealInferenceStorageBackend dev) (layer_idx block_id head_id token_start : ℕ)
      (k v : Array) (placed : Result (List ℕ)) (a : Result LbaAddress)
      → IsLaid b
      → AreComplete b.backing k.bytes v.bytes b.file_offset
      → (finish_write dev b layer_idx block_id head_id token_start k v placed a).1 ≡ none
      → Holds b
          (finish_write dev b layer_idx block_id head_id token_start k v placed a).0
          (layer_idx, block_id)
          (some (reshaped k, reshaped v))
  unfolding finish_write commit insert
  finish_write-Holds b layer_idx block_id head_id token_start k v (err e) a laid full good = cc
  finish_write-Holds b layer_idx block_id head_id token_start k v (ok assigned) (err e) laid full
        good =
      cc
  finish_write-Holds b layer_idx block_id head_id token_start k v (ok assigned) (ok a) laid full
        good =
      (
        commit-IsLaid b layer_idx block_id head_id token_start k v assigned a.lba full laid,
        commit_new b layer_idx block_id head_id token_start k v assigned a.lba full laid,
        commit_old b layer_idx block_id head_id token_start k v assigned a.lba full laid,
      )

  -- In a backend whose entries lie below the next offset, this within the file: a write that does
  -- not raise, and whose two writes to the file are not short, makes a read of its layer and
  -- block give its two arrays, or raise where their bytes do not fit their shape. What is read
  -- under every other key stays, and every entry again lies below the next offset, this within
  -- the file.
  pub write_block-Holds :
      (b : RealInferenceStorageBackend dev) (layer_idx block_id : ℕ) (k_block v_block : Payload)
      (head_id token_start : ℕ)
      → IsLaid b
      → AreComplete b.backing
          (as_array dev b k_block).bytes
          (as_array dev b v_block).bytes
          b.file_offset
      → (write_block dev b layer_idx block_id k_block v_block head_id token_start).1 ≡ none
      → Holds b
          (write_block dev b layer_idx block_id k_block v_block head_id token_start).0
          (layer_idx, block_id)
          (some (reshaped (as_array dev b k_block), reshaped (as_array dev b v_block)))
  unfolding write_block
  write_block-Holds b layer_idx block_id k_block v_block head_id token_start laid full good =
      let k = as_array dev b k_block in
      let v = as_array dev b v_block in
      let heads = heads_in_block dev k_block in
      let loop : Stats × Result (List ℕ) =
        place_heads dev b layer_idx block_id token_start ((length k.bytes + length v.bytes) / heads)
          head_id heads (b.stats, []) in
      let (laid_after, new, old) =
        finish_write-Holds (record b { stats = loop.0 }) layer_idx block_id head_id token_start k v
          loop.1
          (tensor_to_lba b.mapper (coordinate layer_idx head_id token_start 16 block_id)
            b.mapping_mode)
          laid full good in
      (laid_after, new, λ j ne. old j ne ∙ contents_counted b loop.0 j)
