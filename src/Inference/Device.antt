-- ===== src/Inference/Device.antt =====
-- What person2_ssd/inference_backend.py uses of the operating system: a backing file with
-- `os.pwrite` and `os.pread`, a parameter with its documented behaviour: a
-- write may be short, and a read behind the end of the file is.
use ai_ssd.Prelude.{ℕ, ◌+◌, ◌≤◌, ◌≡◌, List, length}

pub record Device : Type 1 where
  pub File : Type 0
  -- the file, and how many bytes were written
  pub pwrite : File → List ℕ → ℕ → File × ℕ
  pub pread : File → ℕ → ℕ → List ℕ
  pub size : File → ℕ
  -- a write that is not short is read back
  pub pread-pwrite :
      (f : File) (bytes : List ℕ) (offset : ℕ)
      → (pwrite f bytes offset).1 ≡ length bytes
      → pread (pwrite f bytes offset).0 (length bytes) offset ≡ bytes
  -- a write leaves the bytes of the file that lie in front of it
  pub pread-pwrite_ne :
      (f : File) (bytes : List ℕ) (offset n at : ℕ)
      → at + n ≤ size f
      → at + n ≤ offset
      → pread (pwrite f bytes offset).0 n at ≡ pread f n at
  -- a write that starts within the file and is not short ends within it
  pub size-pwrite :
      (f : File) (bytes : List ℕ) (offset : ℕ)
      → offset ≤ size f
      → (pwrite f bytes offset).1 ≡ length bytes
      → offset + length bytes ≤ size (pwrite f bytes offset).0
  pub size-pwrite-le :
      (f : File) (bytes : List ℕ) (offset : ℕ) → size f ≤ size (pwrite f bytes offset).0
