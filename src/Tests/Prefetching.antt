-- ===== src/Tests/Prefetching.antt =====
-- Concrete runs of the prefetchers and of the in-memory backend (person3_system).
use ai_ssd.Prelude.{◌+◌, ◌-◌, ◌*◌, ◌/◌, max, ℕ, refl, Bool, true, some, List, [], ◌∷◌, arith}
use ai_ssd.Prelude.Floats.{Float}
use ai_ssd.Prefetch.Staging.{new_prefetcher}
use ai_ssd.Prelude.Dict.{Dict, lookup, pair_key}
use ai_ssd.Prefetch.Ordered.{IsDistinct}
use ai_ssd.Prefetch.Lru.{IsLruBuffer, StagesBatch, stage_blocks_lem}
use ai_ssd.Prefetch.Accounted.{V2Prefetcher, new_v2, prefetch_blocks}
use ai_ssd.Prefetch.Accounts.{IsAccounted, unread, prefetch_blocks-IsAccounted}
use ai_ssd.Prefetch.Requests.{Accesses, access_blocks-Serves}
use ai_ssd.Backend.Interface.{StorageRequest, StorageResult, submit_batch}
use ai_ssd.Backend.Mock.{MockStorageBackend, new_mock, read, write, fails}
use ai_ssd.Backend.ReadBack.{ReadsBack, read-write}

-- a full buffer of two blocks; the block that is staged is new
abbrev buffer : Dict (ℕ × ℕ) Bool
buffer = ((1, 5), true) ∷ ((1, 6), true) ∷ []

buffer-IsLruBuffer : IsLruBuffer 2 buffer
unfolding IsLruBuffer IsDistinct lookup
buffer-IsLruBuffer = ((ground arith, (refl, tt)), omega arith)

-- whole numbers in place of floats
abbrev naturals : Float
naturals = record {
  F = ℕ;
  zero_f = 0;
  of_ℕ = λ n. n;
  add = λ a b. a + b;
  sub = λ a b. a - b;
  mul = λ a b. a * b;
  div = λ a b. a / b;
  max_f = λ a b. max a b;
}

start-IsLruBuffer : IsLruBuffer 2 (new_prefetcher naturals 2 4096 65).staged_buffer
unfolding new_prefetcher IsLruBuffer IsDistinct
start-IsLruBuffer = (tt, omega arith)

stage_blocks_example :
    StagesBatch naturals (new_prefetcher naturals 2 4096 65) (5 ∷ 6 ∷ 5 ∷ 7 ∷ []) 1
unfolding new_prefetcher
stage_blocks_example =
    stage_blocks_lem naturals (new_prefetcher naturals 2 4096 65) (5 ∷ 6 ∷ 5 ∷ 7 ∷ []) 1
      (omega arith) start-IsLruBuffer

abbrev backend : MockStorageBackend
backend = new_mock 25 200 (some 13)

abbrev batch : MockStorageBackend → List StorageRequest → MockStorageBackend × List StorageResult
batch = submit_batch read write

new_v2-IsAccounted : IsAccounted (new_v2 2 4096 65)
unfolding IsAccounted unread
new_v2-IsAccounted = omega arith

prefetch_blocks-IsAccounted_example :
    IsAccounted (prefetch_blocks batch (new_v2 2 4096 65) backend (1 ∷ 2 ∷ 13 ∷ []) 3 100).0.0
prefetch_blocks-IsAccounted_example =
    prefetch_blocks-IsAccounted batch (new_v2 2 4096 65) backend (1 ∷ 2 ∷ 13 ∷ []) 3 100
      new_v2-IsAccounted

abbrev filled : V2Prefetcher
filled = (prefetch_blocks batch (new_v2 2 4096 65) backend (1 ∷ 2 ∷ 13 ∷ []) 3 100).0.0

read-write_example : ReadsBack backend 4 5000 0 0 (7 ∷ 8 ∷ 9 ∷ [])
unfolding fails
read-write_example = read-write backend 4 5000 0 0 (7 ∷ 8 ∷ 9 ∷ []) refl

access_blocks-Serves_example : Accesses batch filled backend (2 ∷ 9 ∷ 2 ∷ []) 3 110
access_blocks-Serves_example = access_blocks-Serves batch filled backend (2 ∷ 9 ∷ 2 ∷ []) 3 110
