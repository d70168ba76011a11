-- ===== src/Nand/Die.antt =====
-- person2_ssd/nand/nand.py: planes and dies. Times are whole microseconds; the constants of
-- common/constants.py are, and a float holds such times without an error below 2 ^ 53.
use ai_ssd.Prelude.{ℕ, zero, suc, ◌+◌, max, Bool, List, [], ◌∷◌, ltb, length}
use ai_ssd.Nand.Block.{
  FlashBlock, new_block, ssd_pages_per_block, valid_page_count, invalid_page_count, free_page_count,
}

pub record FlashPlane : Type 0 where
  pub plane_id : ℕ
  pub blocks : List FlashBlock

-- `[FlashBlock(i) for i in range(blocks_per_plane)]`, from the index `i` on
unfoldable pub new_blocks : ℕ → ℕ → List FlashBlock
new_blocks zero i = []
new_blocks (suc n) i = new_block i ssd_pages_per_block 3000 ∷ new_blocks n (i + 1)

unfoldable pub new_plane : ℕ → ℕ → FlashPlane
new_plane plane_id blocks_per_plane = record {
  plane_id = plane_id;
  blocks = new_blocks blocks_per_plane 0;
}

abbrev sum_blocks : (FlashBlock → ℕ) → List FlashBlock → ℕ
sum_blocks f [] = 0
sum_blocks f (b ∷ bs) = f b + sum_blocks f bs

unfoldable pub total_valid_pages : FlashPlane → ℕ
total_valid_pages p = sum_blocks valid_page_count p.blocks

unfoldable pub total_invalid_pages : FlashPlane → ℕ
total_invalid_pages p = sum_blocks invalid_page_count p.blocks

unfoldable pub total_free_pages : FlashPlane → ℕ
total_free_pages p = sum_blocks free_page_count p.blocks

pub record FlashDie : Type 0 where
  pub die_id : ℕ
  pub planes : List FlashPlane
  pub busy_until_us : ℕ

-- `[FlashPlane(p, blocks_per_plane) for p in range(planes_per_die)]`, from the index `i` on
unfoldable pub new_planes : ℕ → ℕ → ℕ → List FlashPlane
new_planes zero blocks_per_plane i = []
new_planes (suc n) blocks_per_plane i =
    new_plane i blocks_per_plane ∷ new_planes n blocks_per_plane (i + 1)

unfoldable pub new_die : ℕ → ℕ → ℕ → FlashDie
new_die die_id planes_per_die blocks_per_plane = record {
  die_id = die_id;
  planes = new_planes planes_per_die blocks_per_plane 0;
  busy_until_us = 0;
}

abbrev pub t_r_us : ℕ
t_r_us = 25

abbrev pub t_prog_us : ℕ
t_prog_us = 200

abbrev pub t_bers_us : ℕ
t_bers_us = 2000

unfoldable pub is_busy : FlashDie → ℕ → Bool
is_busy d current_time_us = ltb current_time_us d.busy_until_us

-- Each of these returns the die and the completion time, which is its new `busy_until_us`.
unfoldable pub schedule_read : FlashDie → ℕ → FlashDie × ℕ
schedule_read d start_time_us =
    let done = max start_time_us d.busy_until_us + t_r_us in
    (record d { busy_until_us = done }, done)

unfoldable pub schedule_program : FlashDie → ℕ → FlashDie × ℕ
schedule_program d start_time_us =
    let done = max start_time_us d.busy_until_us + t_prog_us in
    (record d { busy_until_us = done }, done)

unfoldable pub schedule_erase : FlashDie → ℕ → FlashDie × ℕ
schedule_erase d start_time_us =
    let done = max start_time_us d.busy_until_us + t_bers_us in
    (record d { busy_until_us = done }, done)

unfoldable pub reset_die : FlashDie → FlashDie
reset_die d = record d { busy_until_us = 0 }

-- `__len__`, by which Python also reads a die as a condition
unfoldable pub die_len : FlashDie → ℕ
die_len d = length d.planes
