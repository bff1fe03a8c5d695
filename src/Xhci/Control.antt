-- ===== src/Xhci/Control.antt =====
-- What the controller reads after the transfers of drivers/usb/xhci.c, and what their completion leaves.
use oscar_kernel.Common.{
  ℕ, ◌%◌, ◌^◌, ◌≤◌, ◌≡◌, sym, refl, ap, ◌∙◌, inl, inr, bit_and, List, [], ◌∷◌, map, length, All,
  ◌==◌, if◌then◌else◌, ==_refl, arith, Bool-cases,
}
use oscar_kernel.Xhci.{Trb, with_cycle, TransferRing, insert_transfer_trb}
use oscar_kernel.Common.Bits.{digit, has_bit-digit}
use oscar_kernel.Xhci.Stages.{stage, stages_of, IsRequest, word_fields}
use oscar_kernel.Xhci.Cycle.{Phase}
use oscar_kernel.Xhci.Ring.{consume, ring_address, consume-insert, insert_transfer_trbs, IsNoLink}
use oscar_kernel.Xhci.Transfer.{
  Urb, Xhci, is_in, xhci_insert_transfer_trb, usb_control_transfer, usb_bulk_transfer, ring_index,
  setup_trb, data_trb, status_trb, normal_trb, handle_transfer_completion,
}

-- The ring that a urb's blocks go to.
abbrev pub ring_of : Xhci → Urb → TransferRing
ring_of xhci urb = (xhci.port urb.port).transfer_ring_status (ring_index (bit_and urb.pipe 0xffff))

abbrev pub control_trbs : Urb → List Trb
control_trbs urb =
    setup_trb urb
    ∷ (if urb.transfer_buffer == 0 then status_trb urb ∷ [] else data_trb urb ∷ status_trb urb ∷ [])

insert_on_ring :
    (xhci : Xhci) (port endpoint : ℕ) (trb : Trb)
    → ((xhci_insert_transfer_trb xhci port endpoint trb).0.port port).transfer_ring_status endpoint
      ≡ (insert_transfer_trb ((xhci.port port).transfer_ring_status endpoint) trb).0
unfolding xhci_insert_transfer_trb
insert_on_ring xhci port endpoint trb = rw (==_refl port) (rw (==_refl endpoint) refl)

control_ring :
    (xhci : Xhci) (urb : Urb)
    → ring_of (usb_control_transfer xhci urb).0 urb
      ≡ insert_transfer_trbs (control_trbs urb) (ring_of xhci urb)
unfolding usb_control_transfer insert_transfer_trbs
control_ring xhci urb =
    let endpoint = ring_index (bit_and urb.pipe 0xffff) in
    let first = (xhci_insert_transfer_trb xhci urb.port endpoint (setup_trb urb)).0 in
    let second = (xhci_insert_transfer_trb first urb.port endpoint (data_trb urb)).0 in
    let set_up = insert_on_ring xhci urb.port endpoint (setup_trb urb) in
    elim (Bool-cases (urb.transfer_buffer == 0)) [
      | inl q ↦ rw q (
          insert_on_ring first urb.port endpoint (status_trb urb)
          ∙ ap (λ r. (insert_transfer_trb r (status_trb urb)).0) set_up)
      | inr q ↦ rw q (
          insert_on_ring second urb.port endpoint (status_trb urb)
          ∙ ap (λ r. (insert_transfer_trb r (status_trb urb)).0)
              (insert_on_ring first urb.port endpoint (data_trb urb)
                ∙ ap (λ r. (insert_transfer_trb r (data_trb urb)).0) set_up))
    ]

control_no_links : (urb : Urb) → All IsNoLink (control_trbs urb)
control_no_links urb = elim (Bool-cases (urb.transfer_buffer == 0)) [
  | inl q ↦ rw q (refl, (refl, tt))
  | inr q ↦ rw q (refl, (refl, (refl, tt)))
]

control_few : (urb : Urb) → length (control_trbs urb) ≤ 3
control_few urb = elim (Bool-cases (urb.transfer_buffer == 0)) [
  | inl q ↦ rw q (omega arith)
  | inr q ↦ rw q (omega arith)
]

control_cycles : (urb : Urb) → map (λ trb. with_cycle trb 0) (control_trbs urb) ≡ control_trbs urb
control_cycles urb = elim (Bool-cases (urb.transfer_buffer == 0)) [
  | inl q ↦ rw q refl
  | inr q ↦ rw q refl
]

pipe_in : (urb : Urb) → is_in urb ≡ (digit 31 urb.pipe == 1)
pipe_in urb = ground (arith, has_bit-digit urb.pipe 31)

stages-control_trbs :
    (urb : Urb)
    → IsRequest urb.setup_packet
    → (urb.transfer_buffer == 0) ≡ (urb.setup_packet.w_length == 0)
    → map stage (control_trbs urb) ≡ stages_of urb
unfolding stage stages_of
stages-control_trbs urb request buffer =
    let r = urb.setup_packet in
    let bytes = word_fields r request in
    let len : r.w_length % 2 ^ 17 ≡ r.w_length = omega (arith, request.w_length) in
    rw (buffer, bytes.0, bytes.1, bytes.2, bytes.3, bytes.4)
      (elim (Bool-cases (r.w_length == 0)) [
        | inl n ↦ rw n (elim (Bool-cases (is_in urb)) [
          | inl d ↦ rw (d, sym (pipe_in urb) ∙ d) refl
          | inr d ↦ rw (d, sym (pipe_in urb) ∙ d) refl
        ])
        | inr n ↦ rw n (elim (Bool-cases (is_in urb)) [
          | inl d ↦ rw (d, sym (pipe_in urb) ∙ d, len) refl
          | inr d ↦ rw (d, sym (pipe_in urb) ∙ d, len) refl
        ])
      ])

control_blocks :
    (xhci : Xhci) (urb : Urb) (fuel : ℕ)
    → Phase (ring_of xhci urb)
    → 7 ≤ fuel
    → consume
        (ring_address (ring_of xhci urb))
        fuel
        (ring_of (usb_control_transfer xhci urb).0 urb).trbs
        (ring_of xhci urb).enquene_pointer
        (ring_of xhci urb).dcs
      ≡ control_trbs urb
control_blocks xhci urb fuel phase enough =
    ap
      (λ (r : TransferRing).
        consume (ring_address (ring_of xhci urb)) fuel r.trbs (ring_of xhci urb).enquene_pointer
          (ring_of xhci urb).dcs)
      (control_ring xhci urb)
    ∙ consume-insert (control_trbs urb) (ring_of xhci urb) fuel phase (control_no_links urb)
        (omega (arith, control_few urb)) (omega (arith, control_few urb))
    ∙ control_cycles urb

-- For a urb whose request has fields of their widths and whose buffer is NULL exactly if the request has
-- the length 0, where the blocks of the endpoint's ring before the enqueue pointer carry its cycle state
-- and those from it on the other: after `usb_control_transfer` what the controller that stood at the
-- enqueue pointer reads, in at most seven steps, is the request, then the data at the buffer's physical
-- address in the direction of the pipe if the length is not 0, then the status in the other direction,
-- with an interrupt for the last two, and nothing else.
pub consume-usb_control_transfer :
    (xhci : Xhci) (urb : Urb) (fuel : ℕ)
    → Phase (ring_of xhci urb)
    → IsRequest urb.setup_packet
    → (urb.transfer_buffer == 0) ≡ (urb.setup_packet.w_length == 0)
    → 7 ≤ fuel
    → map stage (
        consume
          (ring_address (ring_of xhci urb))
          fuel
          (ring_of (usb_control_transfer xhci urb).0 urb).trbs
          (ring_of xhci urb).enquene_pointer
          (ring_of xhci urb).dcs)
      ≡ stages_of urb
consume-usb_control_transfer xhci urb fuel phase request buffer enough =
    ap (map stage) (control_blocks xhci urb fuel phase enough)
    ∙ stages-control_trbs urb request buffer

-- Where the blocks of the endpoint's ring before the enqueue pointer carry its cycle state and those
-- from it on the other, after `usb_bulk_transfer` the controller that stood at the enqueue pointer
-- reads the urb's block and nothing else, in at most three steps, and the completion of the block at
-- the address that is given, with no other transfer under way at this address, calls back for this
-- urb, if it has a callback, and leaves the list that was there before.
pub bulk_transfer-completion :
    (xhci : Xhci) (urb : Urb) (fuel : ℕ)
    → Phase (ring_of xhci urb)
    → 3 ≤ fuel
    → handle_transfer_completion xhci.inflight_transfer_list (usb_bulk_transfer xhci urb).1
      ≡ (xhci.inflight_transfer_list, [])
    → (consume
          (ring_address (ring_of xhci urb))
          fuel
          (ring_of (usb_bulk_transfer xhci urb).0 urb).trbs
          (ring_of xhci urb).enquene_pointer
          (ring_of xhci urb).dcs
        ≡ normal_trb urb ∷ [])
      × (handle_transfer_completion
            (usb_bulk_transfer xhci urb).0.inflight_transfer_list
            (usb_bulk_transfer xhci urb).1
          ≡ (xhci.inflight_transfer_list, if urb.complete == 0 then [] else urb ∷ []))
unfolding usb_bulk_transfer handle_transfer_completion insert_transfer_trbs xhci_insert_transfer_trb
bulk_transfer-completion xhci urb fuel phase enough alone = (
  ap
        (λ (r : TransferRing).
          consume (ring_address (ring_of xhci urb)) fuel r.trbs (ring_of xhci urb).enquene_pointer
            (ring_of xhci urb).dcs)
        (insert_on_ring xhci urb.port (ring_index (bit_and urb.pipe 0xffff)) (normal_trb urb))
      ∙ consume-insert (normal_trb urb ∷ []) (ring_of xhci urb) fuel phase (refl, tt) (omega arith)
          (omega arith),
  rw (alone) (rw (==_refl (usb_bulk_transfer xhci urb).1) refl),
)
