-- ===== src/Inference/Fitting.antt =====
-- person2_ssd/inference_backend.py: when the keys in the file fit the shapes that were recorded.
use ai_ssd.Prelude.{
  ℕ, false, ◌≡◌, inl, inr, refl, sym, ap, ◌∙◌, Option, Option-cases, none, some, Bool-cases, length,
  ◌*◌, ◌==◌, Result, ok, err, value_error,
}
use ai_ssd.Prelude.Dict.{nat_key, pair_key, pair_discrete, lookup}
use ai_ssd.Inference.Device.{Device}
use ai_ssd.Inference.State.{Array, Payload, Entry, reshaped, elements, itemsize_of}
use ai_ssd.Inference.Store.{RealInferenceStorageBackend, as_array, write_block}
use ai_ssd.Inference.Reads.{raw_key, stored_key, stored_value}
use ai_ssd.Inference.Refines.{IsLaid, AreComplete, arrays_of, contents, write_block-Holds}

reshaped-ok : (a c : Array) → reshaped a ≡ ok c → reshaped a ≡ ok a
unfolding reshaped
reshaped-ok a c h = elim (Bool-cases (length a.bytes == elements a.shape * itemsize_of a.dtype)) [
  | inl fits ↦ rw (reshaped, fits) refl
  | inr unfit ↦ absurd (bad (sym (raised unfit) ∙ h))
]
  where
    bad : {x : Array} → ¬ (err value_error ≡ ok x)
    bad e = cc

    raised :
        (length a.bytes == elements a.shape * itemsize_of a.dtype) ≡ false
        → reshaped a ≡ err value_error
    raised unfit = rw (reshaped, unfit) refl

key_part : Option (Result Array × Result Array) → Result Array
key_part none = err value_error
key_part (some p) = p.0

module _ (dev : Device) where
  -- a read of any key gives what stands in the file
  abbrev pub KeysFit : RealInferenceStorageBackend dev → Type 0
  KeysFit b =
      (key : ℕ × ℕ) (e : Entry)
      → lookup key b.storage ≡ some e
      → stored_key dev b e ≡ ok (raw_key dev b e)

  key_part-contents :
      (b : RealInferenceStorageBackend dev) (key : ℕ × ℕ) (e : Entry)
      → lookup key b.storage ≡ some e
      → key_part (contents dev b key) ≡ stored_key dev b e
  unfolding key_part contents arrays_of
  key_part-contents b key e there = rw (contents, there) refl

  contents-none :
      (b : RealInferenceStorageBackend dev) (key : ℕ × ℕ)
      → lookup key b.storage ≡ none
      → contents dev b key ≡ none
  unfolding contents arrays_of
  contents-none b key absent = rw (contents, absent) refl

  contents-some :
      (b : RealInferenceStorageBackend dev) (key : ℕ × ℕ) (e : Entry)
      → lookup key b.storage ≡ some e
      → contents dev b key ≡ some (stored_key dev b e, stored_value dev b e)
  unfolding contents arrays_of
  contents-some b key e there = rw (contents, there) refl

  stored_key-ok :
      (b : RealInferenceStorageBackend dev) (e : Entry) (c : Array)
      → stored_key dev b e ≡ ok c
      → stored_key dev b e ≡ ok (raw_key dev b e)
  unfolding stored_key
  stored_key-ok b e c h = reshaped-ok (raw_key dev b e) c h

  -- A write of a key that fits its shape keeps the keys fitting.
  pub write_block-KeysFit :
      (b : RealInferenceStorageBackend dev) (layer_idx block_id : ℕ) (k_block v_block : Payload)
      (head_id token_start : ℕ)
      → IsLaid dev b
      → AreComplete dev b.backing
          (as_array dev b k_block).bytes
          (as_array dev b v_block).bytes
          b.file_offset
      → (write_block dev b layer_idx block_id k_block v_block head_id token_start).1 ≡ none
      → reshaped (as_array dev b k_block) ≡ ok (as_array dev b k_block)
      → KeysFit b
      → KeysFit (write_block dev b layer_idx block_id k_block v_block head_id token_start).0
  write_block-KeysFit b layer_idx block_id k_block v_block head_id token_start laid full good fits
        fit j e there =
      let after = (write_block dev b layer_idx block_id k_block v_block head_id token_start).0 in
      let (laid_after, new, old) =
        write_block-Holds dev b layer_idx block_id k_block v_block head_id token_start laid full
          good in
      let here = key_part-contents after j e there in
      elim (pair_discrete (layer_idx, block_id) j) [
        | yes same ↦ stored_key-ok after e (as_array dev b k_block) (
            sym here
            ∙ ap (λ i. key_part (contents dev after i)) (sym same)
            ∙ ap key_part new
            ∙ unfold key_part in fits)
        | no ne ↦ elim (Option-cases (lookup j b.storage)) [
          | inl absent ↦ absurd (
              lost
                (sym (contents-none b j absent) ∙ sym (old j ne) ∙ contents-some after j e there))
          | inr (e', was) ↦
              stored_key-ok after e (raw_key dev b e')
                (sym here ∙ ap key_part (old j ne) ∙ key_part-contents b j e' was ∙ fit j e' was)
        ]
      ]
    where
      lost : {x : Result Array × Result Array} → ¬ (none ≡ some x)
      lost q = cc
