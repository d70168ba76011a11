-- ===== src/Tests/Flash.antt =====
-- Pages, erase blocks, locations and channels.
use ai_ssd.Prelude.{◌≡◌, refl, none, some}
use ai_ssd.Nand.Block.{FlashBlock, new_block, erase}
use ai_ssd.Nand.Writing.{Allocates, allocate_page_total, erase_lem}
use ai_ssd.Location.Text.{Location, to_location_str}
use ai_ssd.Location.Parse.{parse_physical_location}
use ai_ssd.Location.RoundTrip.{parse-to_location_str, to_location_str-injective}
use ai_ssd.Channel.Defs.{FlashChannel, OpType, request, new_channel, enqueue_request}
use ai_ssd.Channel.Serial.{ServesQueue, process_queue_serial}

abbrev small : FlashBlock
small = new_block 0 3 3000

allocate_page_total_example : Allocates (erase small) (some 7) none
allocate_page_total_example = allocate_page_total (erase small) (some 7) none (erase_lem small).0

abbrev corner : Location
corner = record { channel = 7; die = 3; plane = 1; block = 63; page = 127 }

parse-to_location_str_example : parse_physical_location (to_location_str corner) ≡ some corner
parse-to_location_str_example = parse-to_location_str corner

to_location_str-injective_example : corner ≡ corner
to_location_str-injective_example = to_location_str-injective corner corner refl

abbrev busy : FlashChannel
busy =
    enqueue_request (enqueue_request (new_channel 0 2 1 1) (request 1 0 0 0 0 OpType.read))
      (request 2 1 0 0 1 OpType.program)

process_queue_serial_example : ServesQueue busy 0
process_queue_serial_example = process_queue_serial busy 0
