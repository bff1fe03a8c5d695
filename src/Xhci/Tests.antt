-- ===== src/Xhci/Tests.antt =====
-- Runs and witnesses for drivers/usb/xhci.c: a transfer ring at its link, a command ring at its end, a
-- controller with one urb, and an event ring of four blocks at 0x100 with one event before its end and
-- one at its base.
use oscar_kernel.Common.{
  map, ℕ, ◌-◌, ◌^◌, ◌<◌, ◌≡◌, refl, bit_or, List, [], ◌∷◌, ◌==◌, ltb, if◌then◌else◌, arith,
}
use oscar_kernel.Bootmem.{virt_to_phys}
use oscar_kernel.Xhci.{
  Trb, zero_trb, with_cycle, TransferRing, insert_transfer_trb, CommandRing, xhci_cmd_ring_insert,
  new_command_ring,
}
use oscar_kernel.Xhci.Cycle.{Phase, insert-Phase}
use oscar_kernel.Xhci.Ring.{consume, ring_address, consume-insert, insert_transfer_trbs}
use oscar_kernel.Xhci.Command.{Ready, cmd_ring_insert-Ready, consume-cmd_ring_insert}
use oscar_kernel.Xhci.Transfer.{
  Urb, Xhci, usb_control_transfer, usb_bulk_transfer, handle_transfer_completion,
}
use oscar_kernel.Xhci.Stages.{stage, stages_of, IsRequest}
use oscar_kernel.Xhci.Control.{ring_of, consume-usb_control_transfer}
use oscar_kernel.Xhci.Wait.{EventRing, xhci_wait_transfer_completion}
use oscar_kernel.Xhci.Found.{IsReport, wait_transfer-IsReport}
use oscar_kernel.Xhci.Event.{Handlers, xhci_intr, handle_all}
use oscar_kernel.Xhci.Interrupt.{xhci_intr-wrap}

-- A ring that is filled up to its link.
abbrev full_ring : TransferRing
full_ring = record {
  transfer_ring_base = 0xFFFF800000001000;
  trbs = λ i. if ltb i 255 then with_cycle zero_trb 1 else zero_trb;
  enquene_pointer = 255;
  dcs = 1;
}

full_ring-Phase : Phase full_ring
unfolding Phase
full_ring-Phase = (omega arith, omega arith, (λ i h. ground arith), (λ i h k. ground arith))

abbrev normal : Trb
normal = record zero_trb { parameter = 0x5000; trb_type = 1 }

insert-Phase_example : Phase (insert_transfer_trb full_ring normal).0
insert-Phase_example = insert-Phase full_ring normal full_ring-Phase

consume-insert_example :
    consume
      (ring_address full_ring)
      7
      (insert_transfer_trbs (normal ∷ normal ∷ []) full_ring).trbs
      255
      1
    ≡ normal ∷ normal ∷ []
consume-insert_example =
    consume-insert (normal ∷ normal ∷ []) full_ring 7 full_ring-Phase (refl, (refl, tt))
      (omega arith) (omega arith)

-- A command ring at its last block.
abbrev full_commands : CommandRing
full_commands = record (new_command_ring 0xFFFF800000002000) { cmd_ring_enqueue_ptr = 255 }

full_commands-Ready : Ready full_commands
unfolding Ready
full_commands-Ready = (refl, refl, omega arith, refl)

abbrev enable_slot : Trb
enable_slot = record zero_trb { trb_type = 9 }

cmd_ring_insert-Ready_example :
    Ready (xhci_cmd_ring_insert full_commands enable_slot).0
    × ((xhci_cmd_ring_insert full_commands enable_slot).1 < 255)
    × ((xhci_cmd_ring_insert full_commands enable_slot).0.commands
          (xhci_cmd_ring_insert full_commands enable_slot).1
        ≡ with_cycle enable_slot 1)
cmd_ring_insert-Ready_example = cmd_ring_insert-Ready full_commands enable_slot full_commands-Ready

consume-cmd_ring_insert_example :
    consume
      (virt_to_phys 0xFFFF800000002000)
      3
      (xhci_cmd_ring_insert full_commands enable_slot).0.commands
      255
      1
    ≡ enable_slot ∷ []
consume-cmd_ring_insert_example =
    consume-cmd_ring_insert full_commands enable_slot 0 full_commands-Ready refl

-- A controller whose rings are filled up to their links, and a urb with a buffer.
abbrev controller : Xhci
controller = record {
  port = λ p. record { slot_id = 3; transfer_ring_status = λ e. full_ring };
  inflight_transfer_list = [];
  doorbells = [];
}

abbrev urb : Urb
urb = record {
  address = 0x700;
  port = 2;
  pipe = 0x80000001;
  setup_packet = record {
    request_type = 0x80;
    request = 6;
    w_value = 0x100;
    w_index = 0;
    w_length = 18;
  };
  transfer_buffer = 0xFFFF800000003000;
  transfer_buffer_length = 18;
  complete = 1;
}

urb-IsRequest : IsRequest urb.setup_packet
urb-IsRequest = record {
  request_type = omega arith;
  request = omega arith;
  w_value = omega arith;
  w_index = omega arith;
  w_length = omega arith;
}

consume-usb_control_transfer_example :
    map stage (
      consume
        (ring_address full_ring)
        7
        (ring_of (usb_control_transfer controller urb).0 urb).trbs
        255
        1)
    ≡ stages_of urb
consume-usb_control_transfer_example =
    consume-usb_control_transfer controller urb 7 full_ring-Phase urb-IsRequest refl (omega arith)

none_under_way : handle_transfer_completion [] (usb_bulk_transfer controller urb).1 ≡ ([], [])
unfolding handle_transfer_completion
none_under_way = refl

-- The event ring, with the dequeue pointer at its last block.
abbrev event_ring : EventRing
event_ring = record {
  ring_segment_base_addr = 0x100;
  event_ring_size = 64;
  erdp = 0x130;
  event_ring_ccs = 1;
}

abbrev last_event : Trb
last_event = record zero_trb { parameter = 0x5000; c = 1; trb_type = 32 }

abbrev first_event : Trb
first_event = record zero_trb { parameter = 0x6000; c = 0; trb_type = 33 }

abbrev events : ℕ → Trb
events address =
    if address == 0x130
    then last_event
    else if address == 0x100
    then first_event
    else if address == 0x110
    then with_cycle zero_trb 1
    else zero_trb

wait_transfer-IsReport_example :
    IsReport 2 event_ring 0x5000
      (λ round. events)
      (xhci_wait_transfer_completion 2 event_ring 0x5000 (λ round. events))
wait_transfer-IsReport_example =
    wait_transfer-IsReport 2 event_ring 0x5000 (λ round. events)
      (omega arith, omega arith, omega arith, omega arith)

-- The handlers that keep a list of what they were given.
abbrev recorders : Handlers (List Trb)
recorders = record {
  handle_port_status_change = λ event seen. event ∷ seen;
  handle_cmd_completion = λ event seen. event ∷ seen;
  handle_transfer_completion = λ event seen. event ∷ seen;
}

xhci_intr-wrap_example : xhci_intr recorders 4 event_ring events [] ≡ (
  record {
    ring_segment_base_addr = 0x100;
    event_ring_size = 64;
    erdp = 0x110;
    event_ring_ccs = 2 ^ 64 - 2;
  },
  bit_or 0x110 8,
  handle_all recorders (first_event ∷ []) (handle_all recorders (last_event ∷ []) []),
)
xhci_intr-wrap_example =
    xhci_intr-wrap recorders event_ring events (last_event ∷ []) (first_event ∷ []) 4 []
      (refl, refl, tt) refl (omega arith) (refl, refl, refl) (omega arith) (omega arith)
