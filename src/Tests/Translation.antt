-- ===== src/Tests/Translation.antt =====
-- The flash translation layers.
use ai_ssd.Prelude.{ℕ, ◌+◌, ◌*◌, ◌≡◌, ◌≢◌, refl, inl, [], ◌∷◌, arith, err, zero_division_error}
use ai_ssd.Prelude.Dict.{lookup}
use ai_ssd.Location.Text.{codes}
use ai_ssd.Schema.Block.{KvBlock, StorageTier, create_default}
use ai_ssd.Ftl.Base.{Geometry, new_base, record_mapping, reverse_translate, translate}
use ai_ssd.Ftl.Conventional.{new_conventional}
use ai_ssd.Ftl.TensorAware.{
  new_tensor_aware, stripe_channel, stripe_location, token_block_index, allocate,
}
use ai_ssd.Ftl.Linear.{IsWithin}
use ai_ssd.Ftl.Consistency.{
  IsConsistent, record_mapping-IsConsistent, new_conventional-IsSequential, GivesNext,
  allocate_sequential,
}
use ai_ssd.Ftl.Batch.{AllocatesAll, allocate_batch_total}
use ai_ssd.Ftl.Striping.{stripe_channel-ne, stripe_location-IsWithin, stripe_location_period}
use ai_ssd.Ftl.Striped.{
  new_tensor_aware-IsStriped, used, channel_for, GivesStripe, allocate_striped,
}

abbrev geometry : Geometry
geometry = record {
  channels = 2;
  dies_per_channel = 2;
  planes_per_die = 1;
  blocks_per_plane = 2;
  pages_per_block = 2;
}

abbrev block : ℕ → KvBlock
block id =
    create_default id 0 (16 * id) 16 0 1 64 (codes "FP32") StorageTier.gpu
      (record { num = 1; den = 1 })

new_base-IsConsistent : IsConsistent (new_base geometry)
unfolding new_base translate reverse_translate lookup
new_base-IsConsistent = record { forward = λ b loc h. cc; backward = λ b loc h. cc }

record_mapping-IsConsistent_example :
    IsConsistent (record_mapping (new_base geometry) 5 (codes "ch0_die0_pl0_blk0_pg0"))
record_mapping-IsConsistent_example =
    record_mapping-IsConsistent (new_base geometry) 5 (codes "ch0_die0_pl0_blk0_pg0")
      new_base-IsConsistent (unfold new_base reverse_translate lookup in refl)

allocate_sequential_example : GivesNext (new_conventional geometry) (block 3)
allocate_sequential_example =
    allocate_sequential (new_conventional geometry) (block 3)
      (new_conventional-IsSequential geometry)

allocate_batch_total_example :
    AllocatesAll (new_conventional geometry) (block 3 ∷ block 4 ∷ block 3 ∷ []) []
unfolding new_conventional new_base
allocate_batch_total_example =
    allocate_batch_total (new_conventional geometry) (block 3 ∷ block 4 ∷ block 3 ∷ []) []
      (new_conventional-IsSequential geometry) (λ c. unfold lookup in inl refl) (omega arith)

stripe_channel-ne_example : stripe_channel geometry 1 4 ≢ stripe_channel geometry 1 5
stripe_channel-ne_example = stripe_channel-ne geometry 1 4 5 (omega arith) refl (omega arith)

stripe_location-IsWithin_example : IsWithin geometry (stripe_location geometry (block 9) 77)
stripe_location-IsWithin_example = stripe_location-IsWithin geometry (block 9) 77 refl

stripe_location_period_example :
    stripe_location geometry (block 9) (1 + 2 * 2) ≡ stripe_location geometry (block 9) 1
stripe_location_period_example = stripe_location_period geometry (block 9) 1 refl

allocate_striped_example : GivesStripe (new_tensor_aware geometry) (block 3)
unfolding new_tensor_aware new_base used channel_for stripe_channel create_default token_block_index
allocate_striped_example =
    allocate_striped (new_tensor_aware geometry) (block 3)
      (new_tensor_aware-IsStriped geometry refl) (omega arith)

allocate_degenerate :
    allocate (new_tensor_aware (record geometry { planes_per_die = 0 })) (block 3)
    ≡ err zero_division_error
unfolding allocate new_tensor_aware new_base
allocate_degenerate = refl
