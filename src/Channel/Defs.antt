-- ===== src/Channel/Defs.antt =====
-- person2_ssd/channels/channel.py. Times are whole microseconds, a request's identifier is a
-- number, and every enqueued request is an object of its own.
use ai_ssd.Prelude.{
  ℕ, zero, suc, ◌+◌, max, true, false, Option, none, some, List, [], ◌∷◌, ◌++◌, map, ◌==◌,
  get_elem?, modify,
}
use ai_ssd.Nand.Die.{
  FlashDie, new_die, schedule_read, schedule_program, schedule_erase, reset_die, die_len, t_r_us,
}

-- "READ", "PROGRAM", "ERASE" or any other text
pub data OpType : Type 0 where
  read program erase other : OpType

pub record ChannelTransferRequest : Type 0 where
  pub request_id : ℕ
  pub die_id : ℕ
  pub plane_id : ℕ
  pub block_id : ℕ
  pub page_id : ℕ
  pub op_type : OpType
  pub arrival_time_us : ℕ
  pub transfer_time_us : ℕ
  pub start_time_us : ℕ
  pub completion_time_us : ℕ

abbrev pub bus_transfer_us_per_page : ℕ
bus_transfer_us_per_page = 5

-- a request with the defaults for the arrival and the transfer time
unfoldable pub request :
    (request_id die_id plane_id block_id page_id : ℕ) → OpType → ChannelTransferRequest
request request_id die_id plane_id block_id page_id op_type = record {
  request_id = request_id;
  die_id = die_id;
  plane_id = plane_id;
  block_id = block_id;
  page_id = page_id;
  op_type = op_type;
  arrival_time_us = 0;
  transfer_time_us = bus_transfer_us_per_page;
  start_time_us = 0;
  completion_time_us = 0;
}

pub record FlashChannel : Type 0 where
  pub channel_id : ℕ
  pub dies : List FlashDie
  pub bus_busy_until_us : ℕ
  pub queue : List ChannelTransferRequest
  pub completed_transfers : List ChannelTransferRequest

-- `[FlashDie(d, …) for d in range(dies_per_channel)]`, from the index `i` on
unfoldable pub new_dies : ℕ → ℕ → ℕ → ℕ → List FlashDie
new_dies zero planes_per_die blocks_per_plane i = []
new_dies (suc n) planes_per_die blocks_per_plane i =
    new_die i planes_per_die blocks_per_plane ∷ new_dies n planes_per_die blocks_per_plane (i + 1)

unfoldable pub new_channel :
    (channel_id dies_per_channel planes_per_die blocks_per_plane : ℕ) → FlashChannel
unfolding new_dies
new_channel channel_id dies_per_channel planes_per_die blocks_per_plane = record {
  channel_id = channel_id;
  dies = new_dies dies_per_channel planes_per_die blocks_per_plane 0;
  bus_busy_until_us = 0;
  queue = [];
  completed_transfers = [];
}

unfoldable pub schedule_transfer : FlashChannel → ℕ → ℕ → FlashChannel × ℕ
schedule_transfer c current_time_us transfer_time_us =
    let completion_time = max current_time_us c.bus_busy_until_us + transfer_time_us in
    (record c { bus_busy_until_us = completion_time }, completion_time)

unfoldable pub enqueue_request : FlashChannel → ChannelTransferRequest → FlashChannel
enqueue_request c req = record c { queue = c.queue ++ req ∷ [] }

-- The die of a request, if Python takes it as true: a die with no planes has length 0.
unfoldable pub find_die : FlashChannel → ℕ → Option FlashDie
unfolding die_len
find_die c die_id = elim (get_elem? c.dies die_id) [
  | none ↦ none
  | some die ↦ elim (die_len die == 0) [ true ↦ none | false ↦ some die ]
]

unfoldable pub set_die : FlashChannel → ℕ → FlashDie → FlashChannel
set_die c die_id die = record c { dies = modify c.dies die_id (λ _. die) }

-- The channel with its die at work, and the start and the finish of the transfer on the bus.
unfoldable pub serve :
    FlashChannel → Option FlashDie → ChannelTransferRequest → OpType → ℕ → FlashChannel × ℕ × ℕ
unfolding set_die schedule_read schedule_program schedule_erase
serve c none req OpType.read base_time_us =
    let sensing_finish = req.arrival_time_us + base_time_us + t_r_us in
    let bus_start = max sensing_finish c.bus_busy_until_us in
    (c, bus_start, bus_start + req.transfer_time_us)
serve c (some die) req OpType.read base_time_us =
    let (die', sensing_finish) = schedule_read die (req.arrival_time_us + base_time_us) in
    let bus_start = max sensing_finish c.bus_busy_until_us in
    (set_die c req.die_id die', bus_start, bus_start + req.transfer_time_us)
serve c none req OpType.program base_time_us =
    let bus_start = max (req.arrival_time_us + base_time_us) c.bus_busy_until_us in
    (c, bus_start, bus_start + req.transfer_time_us)
serve c (some die) req OpType.program base_time_us =
    let bus_start = max (req.arrival_time_us + base_time_us) c.bus_busy_until_us in
    let bus_finish = bus_start + req.transfer_time_us in
    (set_die c req.die_id (schedule_program die bus_finish).0, bus_start, bus_finish)
serve c none req OpType.erase base_time_us =
    let bus_start = max (req.arrival_time_us + base_time_us) c.bus_busy_until_us in
    (c, bus_start, bus_start)
serve c (some die) req OpType.erase base_time_us =
    let bus_start = max (req.arrival_time_us + base_time_us) c.bus_busy_until_us in
    (
      set_die c req.die_id (schedule_erase die (req.arrival_time_us + base_time_us)).0,
      bus_start,
      bus_start,
    )
serve c die req OpType.other base_time_us =
    let bus_start = max (req.arrival_time_us + base_time_us) c.bus_busy_until_us in
    (c, bus_start, bus_start + req.transfer_time_us)

-- one round of the loop of `process_queue`
unfoldable pub process_one : FlashChannel → ChannelTransferRequest → ℕ → FlashChannel
process_one c req base_time_us =
    let (c', bus_start, bus_finish) =
      serve c (find_die c req.die_id) req req.op_type base_time_us in
    record c' {
      bus_busy_until_us = max c'.bus_busy_until_us bus_finish;
      completed_transfers =
          c'.completed_transfers
          ++ record req { start_time_us = bus_start; completion_time_us = bus_finish } ∷ [];
    }

unfoldable pub process_all : FlashChannel → List ChannelTransferRequest → ℕ → FlashChannel
process_all c [] base_time_us = c
process_all c (req ∷ reqs) base_time_us =
    process_all (process_one c req base_time_us) reqs base_time_us

unfoldable pub process_queue : FlashChannel → ℕ → FlashChannel × ℕ
process_queue c base_time_us =
    let c' = process_all c c.queue base_time_us in (record c' { queue = [] }, c'.bus_busy_until_us)

unfoldable pub reset_channel : FlashChannel → FlashChannel
unfolding reset_die
reset_channel c = record c {
  bus_busy_until_us = 0;
  queue = [];
  completed_transfers = [];
  dies = map reset_die c.dies;
}
