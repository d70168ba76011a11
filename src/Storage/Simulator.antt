-- ===== src/Storage/Simulator.antt =====
-- person2_ssd/storage_model/io_model.py, `StorageSimulator`: the flash channels behind the
-- allocator.
use ai_ssd.Prelude.{
  ℕ, zero, suc, ◌+◌, max, true, false, Option, none, some, List, [], ◌∷◌, ◌++◌, map, Result, ok,
  err, unbound_local_error, get_elem?, modify,
}
use ai_ssd.Location.Text.{Text, Location}
use ai_ssd.Location.Parse.{parse_physical_location}
use ai_ssd.Schema.Block.{KvBlock, StorageTier}
use ai_ssd.Nand.Page.{FlashPage, PageState, is_state, program}
use ai_ssd.Nand.Page
use ai_ssd.Nand.Block.{FlashBlock}
use ai_ssd.Nand.Die.{FlashDie, FlashPlane, schedule_program}
use ai_ssd.Channel.Defs.{
  FlashChannel, OpType, request, new_channel, schedule_transfer, enqueue_request, process_queue,
  reset_channel, set_die, bus_transfer_us_per_page,
}
use ai_ssd.Ftl.Allocator.{KvStorageAllocator, Mode, new_allocator}
use ai_ssd.Ftl.Allocator
use ai_ssd.Storage.Latency.{LatencyModel, default_model, calculate_batch_read_latency}

pub record StorageSimulator : Type 0 where
  pub mode : Mode
  pub num_channels : ℕ
  pub channels : List FlashChannel
  pub allocator : KvStorageAllocator
  pub latency_model : LatencyModel

-- `[FlashChannel(c, …) for c in range(channels)]`, from the index `i` on
unfoldable pub new_channels :
    (n dies_per_channel planes_per_die blocks_per_plane i : ℕ) → List FlashChannel
new_channels zero dies_per_channel planes_per_die blocks_per_plane i = []
new_channels (suc n) dies_per_channel planes_per_die blocks_per_plane i =
    new_channel i dies_per_channel planes_per_die blocks_per_plane
    ∷ new_channels n dies_per_channel planes_per_die blocks_per_plane (i + 1)

unfoldable pub new_simulator :
    Mode → (channels dies_per_channel planes_per_die blocks_per_plane : ℕ) → StorageSimulator
new_simulator mode channels dies_per_channel planes_per_die blocks_per_plane = record {
  mode = mode;
  num_channels = channels;
  channels = new_channels channels dies_per_channel planes_per_die blocks_per_plane 0;
  allocator = new_allocator mode channels;
  latency_model = default_model channels;
}

-- The page of a location is programmed if it is there and free; `free_page_index` moves behind it.
unfoldable pub program_in_block : FlashBlock → (pg block_id : ℕ) → FlashBlock
program_in_block blk pg block_id = elim (get_elem? blk.pages pg) [
  | none ↦ blk
  | some page ↦ elim (is_state page.state PageState.free) [
    | false ↦ blk
    | true ↦ elim (program page (some block_id) none) [
      | err e ↦ blk
      | ok page' ↦ record blk {
        pages = modify blk.pages pg (λ _. page');
        free_page_index = max blk.free_page_index (pg + 1);
      }
    ]
  ]
]

-- a change of the block of a location, where its plane and block are in range
unfoldable pub in_plane : FlashPlane → ℕ → (FlashBlock → FlashBlock) → FlashPlane
in_plane plane blk f = record plane { blocks = modify plane.blocks blk f }

unfoldable pub in_die : FlashDie → Location → (FlashBlock → FlashBlock) → FlashDie
unfolding in_plane
in_die die l f = record die {
  planes = modify die.planes l.plane (λ plane. in_plane plane l.block f);
}

unfoldable pub set_channel : StorageSimulator → ℕ → FlashChannel → StorageSimulator
set_channel s ch channel = record s { channels = modify s.channels ch (λ _. channel) }

-- What `store_block` does with the parsed location. Where the die is out of range, `die_obj` is
-- never bound, and its use behind the bus transfer raises.
unfoldable pub place : StorageSimulator → ℕ → Location → StorageSimulator × Result (Unit {0})
unfolding program_in_block in_die set_channel schedule_transfer schedule_program set_die
place s block_id l = elim (get_elem? s.channels l.channel) [
  | none ↦ (s, ok tt)
  | some channel ↦ elim (get_elem? channel.dies l.die) [
    | none ↦ (
      set_channel s l.channel (schedule_transfer channel 0 bus_transfer_us_per_page).0,
      err unbound_local_error,
    )
    | some die ↦
        let die' = in_die die l (λ blk. program_in_block blk l.page block_id) in
        let channel' =
          set_die (schedule_transfer channel 0 bus_transfer_us_per_page).0 l.die
            (schedule_program die' 0).0 in
        (set_channel s l.channel channel', ok tt)
  ]
]

-- the location, unless the placement raised
abbrev outcome : Result (Unit {0}) → Text → Result Text
outcome (ok _) loc = ok loc
outcome (err e) loc = err e

abbrev place_parsed : StorageSimulator → ℕ → Text → Option Location → StorageSimulator × Result Text
place_parsed s block_id loc none = (s, ok loc)
place_parsed s block_id loc (some l) = let (s', r) = place s block_id l in (s', outcome r loc)

-- The simulator and the block after the call beside its result.
unfoldable pub store_block : StorageSimulator → KvBlock → StorageSimulator × KvBlock × Result Text
store_block s b =
    let b' = record b { storage_tier = StorageTier.ssd } in
    elim (Allocator.store_block s.allocator b') [
      | err e ↦ (s, b', err e)
      | ok (allocator', b'', loc) ↦
          let (s', r) =
            place_parsed (record s { allocator = allocator' }) b''.block_id loc
              (parse_physical_location loc) in
          (s', b'', r)
    ]

unfoldable pub load_block : StorageSimulator → ℕ → Option KvBlock
load_block s block_id = Allocator.load_block s.allocator block_id

unfoldable pub get_location : StorageSimulator → ℕ → Option Text
get_location s block_id = Allocator.get_location s.allocator block_id

-- `page.read()`, where the page is in range
unfoldable pub read_in_block : FlashBlock → ℕ → FlashBlock
read_in_block blk pg = record blk { pages = modify blk.pages pg (λ page. (Page.read page 0).0) }

-- the read of one parsed location: the page is touched, and the channel gets a request
unfoldable pub touch : StorageSimulator → ℕ → Option Location → StorageSimulator
unfolding read_in_block in_die set_channel
touch s bid none = s
touch s bid (some l) = elim (get_elem? s.channels l.channel) [
  | none ↦ s
  | some channel ↦
      let dies' =
        modify channel.dies l.die (λ die. in_die die l (λ blk. read_in_block blk l.page)) in
      set_channel s l.channel (
        enqueue_request (record channel { dies = dies' })
          (request bid l.die l.plane l.block l.page OpType.read))
]

-- the loop over the identifiers; an identifier without a location is passed over
unfoldable pub collect : StorageSimulator → List ℕ → List Text → StorageSimulator × List Text
collect s [] locations = (s, locations)
collect s (bid ∷ bids) locations = elim (get_location s bid) [
  | none ↦ collect s bids locations
  | some [] ↦ collect s bids locations
  | some (c ∷ loc) ↦
      collect (touch s bid (parse_physical_location (c ∷ loc))) bids (locations ++ (c ∷ loc) ∷ [])
]

unfoldable pub estimate_read_latency : StorageSimulator → List ℕ → StorageSimulator × ℕ
unfolding collect
estimate_read_latency s block_ids =
    let (s', locations) = collect s block_ids [] in
    (
      record s' { channels = map (λ ch. (process_queue ch 0).0) s'.channels },
      calculate_batch_read_latency s'.latency_model locations,
    )

-- an argument of `read_blocks`
pub data BlockRef : Type 0 where
  by_block : KvBlock → BlockRef
  by_id : ℕ → BlockRef

abbrev ref_id : BlockRef → ℕ
ref_id (by_block b) = b.block_id
ref_id (by_id n) = n

unfoldable pub read_blocks : StorageSimulator → List BlockRef → StorageSimulator × ℕ
read_blocks s refs = estimate_read_latency s (map ref_id refs)

unfoldable pub reset : StorageSimulator → StorageSimulator
reset s = record s { channels = map reset_channel s.channels }
