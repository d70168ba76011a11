-- ===== src/Channel/Serial.antt =====
-- The bus of a channel carries one transfer at a time, in the order of the queue
-- (person2_ssd/channels/channel.py, `process_queue`).
use mathlib.Core.Path.{subst}
use ai_ssd.Prelude.{
  ℕ, max, ◌==◌, ◌≢◌, false, Bool-cases, Option-cases, inl, inr, get_elem?, get_elem?-modify_self,
  get_elem?-modify_ne, ◌+◌, ◌≤◌, ◌≡◌, refl, sym, ap, ◌∙◌, Option, none, some, List, [], ◌∷◌, ◌++◌,
  append_assoc, append-nil, arith,
}
use ai_ssd.Nand.Die.{
  FlashDie, die_len, schedule_read, schedule_program, schedule_erase, t_r_us, t_prog_us, t_bers_us,
}
use ai_ssd.Channel.Defs.{
  OpType, ChannelTransferRequest, FlashChannel, find_die, set_die, serve, process_one, process_all,
  process_queue,
}

-- how long an operation holds the bus: an erase does not
pub bus_time : OpType → ℕ → ℕ
bus_time OpType.erase transfer_time_us = 0
bus_time _ transfer_time_us = transfer_time_us

-- how long a request is at work before it may take the bus: a read senses its page first
pub lead_time : OpType → ℕ
lead_time OpType.read = t_r_us
lead_time _ = 0

-- how long an operation occupies its die
pub die_time : OpType → ℕ
die_time OpType.read = t_r_us
die_time OpType.program = t_prog_us
die_time OpType.erase = t_bers_us
die_time OpType.other = 0

-- when an operation may begin on its die: a program once its page is transferred
pub die_start : OpType → (ready completion : ℕ) → ℕ
die_start OpType.program ready completion = completion
die_start OpType.other ready completion = 0
die_start _ ready completion = ready

-- what `process_queue` makes of a request on the channel `c`, and what it leaves of the channel
pub record IsServed (base : ℕ) (c : FlashChannel) (req done : ChannelTransferRequest)
    (after : FlashChannel) : Type 0 where
  pub same : done ≡ record req {
    start_time_us = done.start_time_us;
    completion_time_us = done.completion_time_us;
  }
  pub waits : c.bus_busy_until_us ≤ done.start_time_us
  pub arrived : req.arrival_time_us + base + lead_time req.op_type ≤ done.start_time_us
  pub sensed :
      (die : FlashDie)
      → find_die c req.die_id ≡ some die
      → req.op_type ≡ OpType.read
      → die.busy_until_us + t_r_us ≤ done.start_time_us
  pub holds :
      done.completion_time_us ≡ done.start_time_us + bus_time req.op_type req.transfer_time_us
  pub bus : after.bus_busy_until_us ≡ done.completion_time_us
  pub works :
      (die : FlashDie)
      → find_die c req.die_id ≡ some die
      → (die' : FlashDie) × (find_die after req.die_id ≡ some die')
        × (max
                (die_start req.op_type (req.arrival_time_us + base) done.completion_time_us)
                die.busy_until_us
              + die_time req.op_type
            ≤ die'.busy_until_us)
  pub others : (j : ℕ) → req.die_id ≢ j → find_die after j ≡ find_die c j

-- The requests of `reqs` became those of `done` one after the other, each on the channel that the
-- one before it left, the bus being busy until `u` in the end.
pub IsSerial :
    ℕ → FlashChannel → List ChannelTransferRequest → List ChannelTransferRequest → ℕ → Type 0
IsSerial base c [] [] u = c.bus_busy_until_us ≡ u
IsSerial base c (req ∷ reqs) (d ∷ done) u =
    (after : FlashChannel) × IsServed base c req d after × IsSerial base after reqs done u
IsSerial base c _ _ u = ⊥

record Keeps (c : FlashChannel) (r : FlashChannel × ℕ × ℕ) : Type 0 where
  bus : (r.0).bus_busy_until_us ≡ c.bus_busy_until_us
  completed : (r.0).completed_transfers ≡ c.completed_transfers

serve-Keeps :
    (c : FlashChannel) (die : Option FlashDie) (req : ChannelTransferRequest) (op : OpType)
    (base : ℕ)
    → Keeps c (serve c die req op base)
unfolding serve
serve-Keeps c none req OpType.read base = record { bus = refl; completed = refl }
serve-Keeps c (some d) req OpType.read base = record { bus = refl; completed = refl }
serve-Keeps c none req OpType.program base = record { bus = refl; completed = refl }
serve-Keeps c (some d) req OpType.program base = record { bus = refl; completed = refl }
serve-Keeps c none req OpType.erase base = record { bus = refl; completed = refl }
serve-Keeps c (some d) req OpType.erase base = record { bus = refl; completed = refl }
serve-Keeps c die req OpType.other base = record { bus = refl; completed = refl }

serve_times :
    (c : FlashChannel) (die : Option FlashDie) (req : ChannelTransferRequest) (op : OpType)
    (base : ℕ)
    → (c.bus_busy_until_us ≤ (serve c die req op base).1)
      × (req.arrival_time_us + base + lead_time op ≤ (serve c die req op base).1)
      × ((serve c die req op base).2
          ≡ (serve c die req op base).1 + bus_time op req.transfer_time_us)
unfolding serve lead_time bus_time
serve_times c none req OpType.read base = omega arith
serve_times c (some d) req OpType.read base = omega arith
serve_times c none req OpType.program base = omega arith
serve_times c (some d) req OpType.program base = omega arith
serve_times c none req OpType.erase base = omega arith
serve_times c (some d) req OpType.erase base = omega arith
serve_times c die req OpType.other base = omega arith

find_die-set_die :
    (c : FlashChannel) (i : ℕ) (die die' : FlashDie)
    → find_die c i ≡ some die
    → die_len die' ≡ die_len die
    → find_die (set_die c i die') i ≡ some die'
unfolding find_die set_die
find_die-set_die c i die die' found same = elim (Option-cases (get_elem? c.dies i)) [
  | inl absent ↦ cc
  | inr (d, there) ↦
      let now = get_elem?-modify_self c.dies i (λ _. die') there in
      elim (Bool-cases (die_len d == 0)) [
        | inl empty ↦ absurd (lost (sym (rw (find_die, there, empty) refl) ∙ found))
        | inr full ↦
            let d_is : some d ≡ some die = sym (rw (find_die, there, full) refl) ∙ found in
            let full' : (die_len die' == 0) ≡ false = cc in rw (find_die, set_die, now, full') refl
      ]
]
  where
    lost : ¬ (none ≡ some die)
    lost e = cc

find_die-set_die_ne :
    (c : FlashChannel) (i j : ℕ) (die : FlashDie)
    → i ≢ j
    → find_die (set_die c i die) j ≡ find_die c j
unfolding find_die set_die
find_die-set_die_ne c i j die ne =
    let same = get_elem?-modify_ne c.dies i j (λ _. die) ne in rw (find_die, set_die, same) refl

serve_others :
    (c : FlashChannel) (die : Option FlashDie) (req : ChannelTransferRequest) (op : OpType)
    (base j : ℕ)
    → req.die_id ≢ j
    → find_die (serve c die req op base).0 j ≡ find_die c j
unfolding serve
serve_others c none req OpType.read base j ne = refl
serve_others c (some d) req OpType.read base j ne = find_die-set_die_ne c req.die_id j _ ne
serve_others c none req OpType.program base j ne = refl
serve_others c (some d) req OpType.program base j ne = find_die-set_die_ne c req.die_id j _ ne
serve_others c none req OpType.erase base j ne = refl
serve_others c (some d) req OpType.erase base j ne = find_die-set_die_ne c req.die_id j _ ne
serve_others c die req OpType.other base j ne = refl

-- a die behind an operation
DieServed : FlashChannel → FlashDie → ChannelTransferRequest → OpType → ℕ → Type 0
DieServed c die req op base =
    let r = serve c (some die) req op base in
    (die' : FlashDie) × (find_die r.0 req.die_id ≡ some die')
    × (max (die_start op (req.arrival_time_us + base) r.2) die.busy_until_us + die_time op
        ≤ die'.busy_until_us)

serve_die :
    (c : FlashChannel) (die : FlashDie) (req : ChannelTransferRequest) (op : OpType) (base : ℕ)
    → find_die c req.die_id ≡ some die
    → DieServed c die req op base
unfolding DieServed serve schedule_read schedule_program schedule_erase die_len die_start die_time
serve_die c die req OpType.read base found =
    (_, find_die-set_die c req.die_id die _ found refl, omega arith)
serve_die c die req OpType.program base found =
    (_, find_die-set_die c req.die_id die _ found refl, omega arith)
serve_die c die req OpType.erase base found =
    (_, find_die-set_die c req.die_id die _ found refl, omega arith)
serve_die c die req OpType.other base found = (die, found, omega arith)

serve_sensed :
    (c : FlashChannel) (die : FlashDie) (req : ChannelTransferRequest) (op : OpType) (base : ℕ)
    → op ≡ OpType.read
    → die.busy_until_us + t_r_us ≤ (serve c (some die) req op base).1
unfolding serve schedule_read
serve_sensed c die req OpType.read base is_read = omega arith
serve_sensed c die req OpType.program base is_read = cc
serve_sensed c die req OpType.erase base is_read = cc
serve_sensed c die req OpType.other base is_read = cc

-- One round of the loop.
process_one_lem :
    (c : FlashChannel) (req : ChannelTransferRequest) (base : ℕ)
    → (d : ChannelTransferRequest) × IsServed base c req d (process_one c req base)
      × ((process_one c req base).completed_transfers ≡ c.completed_transfers ++ d ∷ [])
unfolding process_one find_die DieServed
process_one_lem c req base =
    let r = serve c (find_die c req.die_id) req req.op_type base in
    let k = serve-Keeps c (find_die c req.die_id) req req.op_type base in
    let (waits, arrived, holds) = serve_times c (find_die c req.die_id) req req.op_type base in
    let d : ChannelTransferRequest = record req { start_time_us = r.1; completion_time_us = r.2 } in
    (
      d,
      record {
        same = refl;
        waits = waits;
        arrived = arrived;
        sensed = λ die found is_read.
            subst (λ o. die.busy_until_us + t_r_us ≤ (serve c o req req.op_type base).1) (sym found)
              (serve_sensed c die req req.op_type base is_read);
        holds = holds;
        bus = omega (arith, k.bus);
        works = λ die found.
            subst
              (λ o.
                (die' : FlashDie) × (find_die (serve c o req req.op_type base).0 req.die_id
                  ≡ some die')
                × (max
                        (die_start req.op_type (req.arrival_time_us + base)
                          (serve c o req req.op_type base).2)
                        die.busy_until_us
                      + die_time req.op_type
                    ≤ die'.busy_until_us))
              (sym found) (serve_die c die req req.op_type base found);
        others = λ j ne. serve_others c (find_die c req.die_id) req req.op_type base j ne;
      },
      ap (λ (xs : List ChannelTransferRequest). xs ++ d ∷ []) k.completed,
    )

process_all-IsSerial :
    (c : FlashChannel) (reqs : List ChannelTransferRequest) (base : ℕ)
    → (done : List ChannelTransferRequest) × IsSerial base c reqs done
        (process_all c reqs base).bus_busy_until_us
      × ((process_all c reqs base).completed_transfers ≡ c.completed_transfers ++ done)
unfolding process_all IsSerial
process_all-IsSerial c [] base = ([], refl, sym (append-nil c.completed_transfers))
process_all-IsSerial c (req ∷ reqs) base =
    let (d, served, completed) = process_one_lem c req base in
    let (done, serial, all) = process_all-IsSerial (process_one c req base) reqs base in
    (
      d ∷ done,
      (process_one c req base, served, serial),
      all
          ∙ ap (λ (xs : List ChannelTransferRequest). xs ++ done) completed
          ∙ append_assoc c.completed_transfers (d ∷ []) done,
    )

-- What `process_queue` leaves.
abbrev pub ServesQueue : FlashChannel → ℕ → Type 0
ServesQueue c base =
    (done : List ChannelTransferRequest) × IsSerial base c c.queue done (process_queue c base).1
    × (((process_queue c base).0).completed_transfers ≡ c.completed_transfers ++ done)
    × (((process_queue c base).0).queue ≡ [])
    × (((process_queue c base).0).bus_busy_until_us ≡ (process_queue c base).1)

-- `process_queue` serves every queued request in the order of the queue and appends it, with its
-- two times filled in and else unchanged, to the completed transfers. No transfer starts before
-- the one in front of it is complete, nor before its request has arrived; a read also starts only
-- after its page was sensed, which begins when its die is free. It holds the bus for its transfer
-- time, an erase for none. Its die is then busy at least for the time of the operation, from when
-- the die was free and the operation could begin, and the other dies stay. The queue is empty
-- then, and the time that is returned is when the last one is complete.
pub process_queue_serial : (c : FlashChannel) (base : ℕ) → ServesQueue c base
unfolding process_queue
process_queue_serial c base =
    let (done, serial, completed) = process_all-IsSerial c c.queue base in
    (done, serial, completed, refl, refl)

-- how long a list of requests holds the bus
pub bus_work : List ChannelTransferRequest → ℕ
bus_work [] = 0
bus_work (req ∷ reqs) = bus_time req.op_type req.transfer_time_us + bus_work reqs

serial_work :
    (base u : ℕ) (c : FlashChannel) (reqs done : List ChannelTransferRequest)
    → IsSerial base c reqs done u
    → c.bus_busy_until_us + bus_work reqs ≤ u
unfolding IsSerial bus_work
serial_work base u c [] [] h = omega (arith, h)
serial_work base u c [] (d ∷ done) h = absurd h
serial_work base u c (req ∷ reqs) [] h = absurd h
serial_work base u c (req ∷ reqs) (d ∷ done) (after, served, h) =
    omega (arith, serial_work base u after reqs done h, served.waits, served.holds, served.bus)

-- Requests on one channel serialise: the bus is busy at least for the sum of their transfers
-- beyond what it was busy for before.
bus_work-le-process_queue :
    (c : FlashChannel) (base : ℕ)
    → c.bus_busy_until_us + bus_work c.queue ≤ (process_queue c base).1
bus_work-le-process_queue c base =
    let (done, serial, _, _, _) = process_queue_serial c base in
    serial_work base _ c c.queue done serial
