-- ===== src/Xhci/Wait.antt =====
-- The searches of the event ring in drivers/usb/xhci.c: `xhci_wait_cmd_completion` and
-- `xhci_wait_transfer_completion`, and the commands that wait for their completion. The controller
-- writes the ring while the code looks, so each round of a search has its own contents of it, a
-- function from physical addresses to blocks. The number of rounds is a parameter.
use oscar_kernel.Common.{
  ℕ, zero, suc, ◌+◌, ◌-◌, ◌*◌, ◌/◌, ◌%◌, ◌^◌, bit_or, Bool, false, ◌&&◌, Option, none, some, ◌==◌,
  ltb, leb, if◌then◌else◌,
}
use oscar_kernel.Bootmem.{virt_to_phys}
use oscar_kernel.Xhci.{Trb, zero_trb, CommandRing, xhci_cmd_ring_insert}

-- `struct event_ring_segment_table_entry` with the size that the code uses, the software's copy of the
-- dequeue pointer, and the cycle state.
pub record EventRing : Type 0 where
  pub ring_segment_base_addr : ℕ
  pub event_ring_size : ℕ
  pub erdp : ℕ
  pub event_ring_ccs : ℕ

-- `~ccs` of an `int`.
abbrev pub flip : ℕ → ℕ
flip ccs = 2 ^ 32 - 1 - ccs % 2 ^ 32

-- One of the loops: from `start` up, while the address is `inside`, to the first block that passes.
-- The steps bound the loop.
unfoldable pub find_trb : ℕ → (ℕ → Bool) → (Trb → Bool) → (ℕ → Trb) → ℕ → Option ℕ
find_trb zero inside test trbs address = none
find_trb (suc steps) inside test trbs address =
    let rest = find_trb steps inside test trbs (address + 16) in
    if inside address then if test (trbs address) then some address else rest else none

abbrev or_else : Option ℕ → Option ℕ → Option ℕ
or_else none o = o
or_else (some a) o = some a

abbrev pub below_end : EventRing → ℕ → Bool
below_end ring address = ltb address (ring.ring_segment_base_addr + ring.event_ring_size)

abbrev pub below_erdp : EventRing → ℕ → Bool
below_erdp ring address = leb address ((ring.erdp + 2 ^ 64 - 16) % 2 ^ 64)

abbrev pub is_event : ℕ → ℕ → Trb → Bool
is_event kind pointer trb = (trb.trb_type == kind) && (trb.parameter == pointer)

abbrev pub has_cycle : ℕ → Trb → Bool
has_cycle ccs trb = trb.c == ccs % 2

abbrev pub completes : ℕ → ℕ → Trb → Bool
completes ccs pointer trb = has_cycle ccs trb && is_event 32 pointer trb

-- The steps of a loop: the blocks of the ring and one.
abbrev pub ring_steps : EventRing → ℕ
ring_steps ring = suc (ring.event_ring_size / 16)

-- One round: from the dequeue pointer to the end with the cycle state, then from the base to the
-- dequeue pointer with the other one.
unfoldable pub transfer_round : EventRing → ℕ → (ℕ → Trb) → Option ℕ
unfolding find_trb
transfer_round ring pointer trbs =
    let ccs = ring.event_ring_ccs in
    or_else (find_trb (ring_steps ring) (below_end ring) (completes ccs pointer) trbs ring.erdp) (
      find_trb (ring_steps ring) (below_erdp ring) (completes (flip ccs) pointer) trbs
        ring.ring_segment_base_addr)

-- The way out of a round: the address with the round, or the rounds that are left.
abbrev pub found_or : Option ℕ → ℕ → Option (ℕ × ℕ) → Option (ℕ × ℕ)
found_or none round later = later
found_or (some a) round later = some (round, a)

unfoldable pub xhci_wait_transfer_completion : ℕ → EventRing → ℕ → (ℕ → ℕ → Trb) → Option (ℕ × ℕ)
unfolding transfer_round
xhci_wait_transfer_completion zero ring pointer trbs = none
xhci_wait_transfer_completion (suc rounds) ring pointer trbs =
    let later = xhci_wait_transfer_completion rounds ring pointer trbs in
    found_or (transfer_round ring pointer (trbs rounds)) rounds later

-- A round of `xhci_wait_cmd_completion`: the second loop looks at no cycle bit.
unfoldable pub cmd_round : EventRing → ℕ → ℕ → (ℕ → Trb) → Option ℕ
unfolding find_trb
cmd_round ring ccs pointer trbs =
    or_else
      (find_trb (ring_steps ring) (below_end ring)
        (λ trb. has_cycle ccs trb && is_event 33 pointer trb) trbs ring.erdp)
      (find_trb (ring_steps ring) (below_erdp ring) (is_event 33 pointer) trbs
        ring.ring_segment_base_addr)

-- The cycle state is turned over with each round.
unfoldable pub xhci_wait_cmd_completion : ℕ → EventRing → ℕ → ℕ → (ℕ → ℕ → Trb) → Option (ℕ × ℕ)
unfolding cmd_round
xhci_wait_cmd_completion zero ring ccs pointer trbs = none
xhci_wait_cmd_completion (suc rounds) ring ccs pointer trbs =
    let later = xhci_wait_cmd_completion rounds ring (flip ccs) pointer trbs in
    found_or (cmd_round ring ccs pointer (trbs rounds)) rounds later

-- The blocks of the commands; a slot is the upper byte of `control`, `cmd.control` is given its value.
abbrev pub slot_command : ℕ → ℕ → Trb
slot_command kind slot_id = record zero_trb { trb_type = kind; control = slot_id * 2 ^ 8 % 2 ^ 16 }

abbrev pub context_command : ℕ → ℕ → ℕ → Trb
context_command kind input_ctx slot_id = record zero_trb {
  parameter = virt_to_phys input_ctx;
  trb_type = kind;
  control = slot_id % 2 ^ 8 * 2 ^ 8;
}

-- The insertion and the wait: the ring after them, and the block of the completion.
unfoldable pub run_command :
    ℕ → CommandRing → EventRing → (ℕ → ℕ → Trb) → Trb → CommandRing × Option Trb
run_command rounds commands ring trbs cmd =
    let (after, index) = xhci_cmd_ring_insert commands cmd in
    let pointer = virt_to_phys (after.cmd_ring + 16 * index) in
    (
      after,
      elim (xhci_wait_cmd_completion rounds ring ring.event_ring_ccs pointer trbs) [
        | none ↦ none
        | some (round, address) ↦ some (trbs round address)
      ],
    )

-- `completion_code` is the upper byte of the status; 0 is `true`, -1 is `false`.
unfoldable pub succeeded : Option Trb → Bool
succeeded none = false
succeeded (some trb) = trb.status / 2 ^ 24 == 1

module _ (rounds : ℕ) (commands : CommandRing) (ring : EventRing) (trbs : ℕ → ℕ → Trb) where
  -- The slot is read whether or not the command succeeded; without a completion, through NULL (`none`).
  pub xhci_cmd_enable_slot : CommandRing × Option ℕ
  xhci_cmd_enable_slot =
      let (after, completion) =
        run_command rounds commands ring trbs (record zero_trb { trb_type = 9 }) in
      (after, elim completion [ none ↦ none | some trb ↦ some (trb.control / 2 ^ 8) ])

  unfoldable pub report : Trb → CommandRing × Bool
  report cmd =
      let (after, completion) = run_command rounds commands ring trbs cmd in
      (after, succeeded completion)

  pub xhci_cmd_disable_slot : ℕ → CommandRing × Bool
  xhci_cmd_disable_slot slot_id = report (slot_command 10 slot_id)

  pub xhci_cmd_address_device : ℕ → ℕ → CommandRing × Bool
  xhci_cmd_address_device input_ctx slot_id = report (context_command 11 input_ctx slot_id)

  pub xhci_cmd_configure_endpoint : ℕ → ℕ → CommandRing × Bool
  xhci_cmd_configure_endpoint input_ctx slot_id = report (context_command 12 input_ctx slot_id)

  pub xhci_cmd_evaluate_context : ℕ → ℕ → CommandRing × Bool
  xhci_cmd_evaluate_context input_ctx slot_id = report (context_command 13 input_ctx slot_id)

  -- `endpoint_id` is or-ed under the slot.
  pub xhci_stop_endpoint : ℕ → ℕ → CommandRing × Bool
  xhci_stop_endpoint slot_id endpoint_id =
      report
        (record zero_trb { trb_type = 15; control = bit_or (slot_id * 2 ^ 8) endpoint_id % 2 ^ 16 })

  pub xhci_reset_endpoint : ℕ → ℕ → CommandRing × Bool
  xhci_reset_endpoint slot_id endpoint_id =
      report
        (record zero_trb { trb_type = 14; control = bit_or (slot_id * 2 ^ 8) endpoint_id % 2 ^ 16 })
