-- ===== src/Backend/ReadBack.antt =====
-- What the in-memory backend (person3_system/storage/mock_backend.py) reads back.
use ai_ssd.Prelude.{
  ℕ, zero, suc, ◌+◌, ◌-◌, ◌≡◌, ◌≢◌, refl, ap, ◌∙◌, true, false, some, List, [], ◌∷◌, ◌++◌, arith,
  length, length-append, length-replicate, length-take, take, drop, replicate,
}
use ai_ssd.Prelude.Dict.{nat_key, lookup, insert, lookup-insert}
use ai_ssd.Backend.Mock.{
  MockStorageBackend, read, write, fails, read_bytes, write_bytes, buffer_or_new,
}

drop-append : {A : Type 0} (xs ys : List A) (n : ℕ) → length xs ≡ n → drop n (xs ++ ys) ≡ ys
drop-append [] ys zero h = refl
drop-append [] ys (suc n) h = absurd (omega (arith, h))
drop-append (x ∷ xs) ys zero h = absurd (omega (arith, h))
drop-append (x ∷ xs) ys (suc n) h = drop-append xs ys n (omega arith)

take-append : {A : Type 0} (xs ys : List A) (n : ℕ) → length xs ≡ n → take n (xs ++ ys) ≡ xs
take-append [] ys zero h = refl
take-append [] ys (suc n) h = absurd (omega (arith, h))
take-append (x ∷ xs) ys zero h = absurd (omega (arith, h))
take-append (x ∷ xs) ys (suc n) h = ap (λ zs. x ∷ zs) (take-append xs ys n (omega arith))

-- the bytes of the slice that was assigned
pub read_bytes-write_bytes :
    (buf : List ℕ) (offset : ℕ) (bytes : List ℕ)
    → read_bytes (some (write_bytes buf offset bytes)) offset (length bytes) ≡ bytes
unfolding read_bytes write_bytes
read_bytes-write_bytes buf offset bytes =
    let end_ = offset + length bytes in
    let zeros : List ℕ = replicate (end_ - length buf) 0 in
    let size : length zeros ≡ end_ - length buf = length-replicate (end_ - length buf) 0 in
    let target = buf ++ zeros in
    let whole : length (take offset target) ≡ offset =
      omega (arith, length-take offset target, length-append buf zeros, size) in
    ap (take (length bytes))
      (drop-append (take offset target) (bytes ++ drop end_ target) offset whole)
    ∙ take-append bytes (drop end_ target) (length bytes) refl

-- what a backend holds at an offset of a block, for a read of `n` bytes
unfoldable pub held : MockStorageBackend → ℕ → ℕ → ℕ → List ℕ
held s block_id offset n = read_bytes (lookup block_id s.store) offset n

abbrev pub ReadsBack : MockStorageBackend → (block_id offset layer_id head_id : ℕ) → List ℕ → Type 0
ReadsBack s block_id offset layer_id head_id bytes =
    let after = (write s block_id offset bytes layer_id head_id).0 in
    ((read after block_id offset (length bytes) layer_id head_id).1.payload ≡ some bytes)
    × ((read after block_id offset (length bytes) layer_id head_id).1.success ≡ true)
    × ((b o n : ℕ) → b ≢ block_id → held after b o n ≡ held s b o n)
    × (after.counters.total_writes ≡ s.counters.total_writes + 1)
    × (after.counters.bytes_written ≡ s.counters.bytes_written + length bytes)

-- the state after a write that is accepted
accepted : MockStorageBackend → ℕ → ℕ → List ℕ → MockStorageBackend
accepted s block_id offset bytes = record s {
  counters = record s.counters {
    total_writes = s.counters.total_writes + 1;
    bytes_written = s.counters.bytes_written + length bytes;
    total_latency_us = s.counters.total_latency_us + s.write_latency_us;
  };
  store =
      insert block_id
        (write_bytes (buffer_or_new (lookup block_id s.store) (offset + length bytes)) offset bytes)
        s.store;
}

write-accepted :
    (s : MockStorageBackend) (block_id offset layer_id head_id : ℕ) (bytes : List ℕ)
    → fails s.fail_block_id block_id ≡ false
    → (write s block_id offset bytes layer_id head_id).0 ≡ accepted s block_id offset bytes
unfolding write accepted
write-accepted s block_id offset layer_id head_id bytes good = rw (good, write) refl

read_accepted :
    (s : MockStorageBackend) (block_id offset n layer_id head_id : ℕ)
    → fails s.fail_block_id block_id ≡ false
    → ((read s block_id offset n layer_id head_id).1.payload ≡ some (held s block_id offset n))
      × ((read s block_id offset n layer_id head_id).1.success ≡ true)
unfolding read held
read_accepted s block_id offset n layer_id head_id good = rw (good, read) (refl, refl)

-- Bytes that are written to a block that does not fail are read back, from that offset and in any
-- layer and head; what the other blocks hold stays, and the write is counted.
pub read-write :
    (s : MockStorageBackend) (block_id offset layer_id head_id : ℕ) (bytes : List ℕ)
    → fails s.fail_block_id block_id ≡ false
    → ReadsBack s block_id offset layer_id head_id bytes
unfolding held accepted
read-write s block_id offset layer_id head_id bytes good =
    let after : MockStorageBackend = accepted s block_id offset bytes in
    let reached = write-accepted s block_id offset layer_id head_id bytes good in
    let buf = buffer_or_new (lookup block_id s.store) (offset + length bytes) in
    let found : lookup block_id (insert block_id (write_bytes buf offset bytes) s.store)
        ≡ some (write_bytes buf offset bytes) =
      ground (arith, lookup-insert block_id block_id (write_bytes buf offset bytes) s.store) in
    let back : held after block_id offset (length bytes) ≡ bytes =
      rw found (read_bytes-write_bytes buf offset bytes) in
    let answer = read_accepted after block_id offset (length bytes) layer_id head_id good in
    rw reached (
      answer.0 ∙ ap some back,
      answer.1,
      (λ b o n ne. ground (arith, lookup-insert block_id b (write_bytes buf offset bytes) s.store)),
      refl,
      refl,
    )
