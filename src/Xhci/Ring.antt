-- ===== src/Xhci/Ring.antt =====
-- The transfer rings of drivers/usb/xhci.c against the controller that reads them: what it finds after a
-- run of insertions.
use oscar_kernel.Common.{
  ℕ, zero, suc, ◌+◌, ◌-◌, ◌*◌, ◌/◌, ◌%◌, ◌^◌, ◌≤◌, ◌<◌, ◌≡◌, ◌⊎◌, refl, sym, ap, ◌∙◌, inl, inr,
  true, false, List, [], ◌∷◌, map, length, All, ◌==◌, leb, if◌then◌else◌, ==_refl, ==_iff, arith,
  Bool-cases,
}
use oscar_kernel.Bootmem.{virt_to_phys}
use oscar_kernel.Xhci.{
  Trb, trb_link, link_trb, with_cycle, TransferRing, wrap_transfer_ring, insert_transfer_trb,
}
use oscar_kernel.Xhci.Cycle.{Phase, insert-Phase}

-- The controller's side: from an index and a cycle state it takes the blocks whose cycle bit is that
-- state, follows a link to the block at the address in the link, where the link's `ent` bit (its
-- toggle) is set with the other cycle state, and stops at a block with another cycle bit. Block `i` is at
-- the physical address `base + 16 * i`; what is below `base` is not read. The cycle bits are cleared in
-- what it reports.
unfoldable pub consume : ℕ → ℕ → (ℕ → Trb) → ℕ → ℕ → List Trb
consume base zero trbs index ccs = []
consume base (suc fuel) trbs index ccs =
    let trb = trbs index in
    let after_link =
      consume base fuel trbs ((trb.parameter - base) / 16)
        (if trb.ent == 1 then 1 - ccs else ccs) in
    let after_trb = consume base fuel trbs (index + 1) ccs in
    if trb.c == ccs
    then if trb.trb_type == trb_link
      then if leb base trb.parameter then after_link else []
      else with_cycle trb 0 ∷ after_trb
    else []

-- The physical address of a ring.
abbrev pub ring_address : TransferRing → ℕ
ring_address ring = virt_to_phys ring.transfer_ring_base

unfoldable pub insert_transfer_trbs : List Trb → TransferRing → TransferRing
insert_transfer_trbs [] ring = ring
insert_transfer_trbs (trb ∷ trbs) ring = insert_transfer_trbs trbs (insert_transfer_trb ring trb).0

abbrev pub IsNoLink : Trb → Type 0
IsNoLink trb = (trb.trb_type == trb_link) ≡ false

-- A block that the next insertions do not reach.
Kept : TransferRing → ℕ → ℕ → Type 0
Kept ring n p =
    ((p < ring.enquene_pointer) × (n + ring.enquene_pointer ≤ 255 + p))
    ⊎ ((ring.enquene_pointer ≤ p) × (p ≤ 255) × (n + ring.enquene_pointer ≤ p))

insert_keeps :
    (ring : TransferRing) (trb : Trb) (n p : ℕ)
    → ring.enquene_pointer ≤ 255
    → Kept ring (suc n) p
    → ((insert_transfer_trb ring trb).0.trbs p ≡ ring.trbs p)
      × ((insert_transfer_trb ring trb).0.enquene_pointer ≤ 255)
      × Kept (insert_transfer_trb ring trb).0 n p
unfolding insert_transfer_trb wrap_transfer_ring Kept
insert_keeps ring trb n p e kept = elim (Bool-cases (ring.enquene_pointer == 255)) [
  | inl q ↦
      let zero_ne : (p == 0) ≡ false = ground (arith, kept) in
      let last_ne : (p == 255) ≡ false = ground (arith, kept) in
      rw q (rw (zero_ne, last_ne) (refl, omega arith, inr (ground (arith, kept))))
  | inr q ↦
      let ne : (p == ring.enquene_pointer) ≡ false = ground (arith, kept) in
      rw q (rw ne (refl, ground arith, ground (arith, kept)))
]

insertions_keep :
    (trbs : List Trb) (ring : TransferRing) (p : ℕ)
    → ring.enquene_pointer ≤ 255
    → Kept ring (length trbs) p
    → (insert_transfer_trbs trbs ring).trbs p ≡ ring.trbs p
unfolding insert_transfer_trbs
insertions_keep [] ring p e kept = refl
insertions_keep (trb ∷ trbs) ring p e kept =
    let (same, e', kept') = insert_keeps ring trb (length trbs) p e kept in
    insertions_keep trbs (insert_transfer_trb ring trb).0 p e' kept' ∙ same

pub leb_refl : (base : ℕ) → leb base base ≡ true
leb_refl base = ground arith

pub first_block : (base : ℕ) → (base - base) / 16 ≡ 0
first_block base = omega arith

-- Where the controller stands on a block, on a link, and at the end.
pub consume_trb :
    (base fuel : ℕ) (trbs : ℕ → Trb) (index ccs : ℕ) (trb : Trb)
    → IsNoLink trb
    → trbs index ≡ with_cycle trb ccs
    → consume base (suc fuel) trbs index ccs
      ≡ with_cycle trb 0 ∷ consume base fuel trbs (index + 1) ccs
unfolding consume
consume_trb base fuel trbs index ccs trb no_link at = rw at (rw (==_refl ccs, no_link) refl)

consume_link :
    (base fuel : ℕ) (trbs : ℕ → Trb) (index ccs : ℕ)
    → trbs index ≡ link_trb base ccs 1
    → consume base (suc fuel) trbs index ccs ≡ consume base fuel trbs 0 (1 - ccs)
unfolding consume
consume_link base fuel trbs index ccs at =
    rw at (rw (==_refl ccs, leb_refl base, first_block base) refl)

consume_end :
    (base fuel : ℕ) (ring : TransferRing)
    → Phase ring
    → consume base fuel ring.trbs ring.enquene_pointer ring.dcs ≡ []
unfolding consume Phase
consume_end base zero ring phase = refl
consume_end base (suc fuel) ring (e, d, old, new) =
    let other : ((ring.trbs ring.enquene_pointer).c == ring.dcs) ≡ false =
      ground (arith, new ring.enquene_pointer) in
    rw other refl

-- What an insertion writes below the link, and what it writes at the link.
insert_below :
    (ring : TransferRing) (trb : Trb)
    → (ring.enquene_pointer == 255) ≡ false
    → ((insert_transfer_trb ring trb).0.trbs ring.enquene_pointer ≡ with_cycle trb ring.dcs)
      × ((insert_transfer_trb ring trb).0.enquene_pointer ≡ ring.enquene_pointer + 1)
      × ((insert_transfer_trb ring trb).0.dcs ≡ ring.dcs)
unfolding insert_transfer_trb wrap_transfer_ring
insert_below ring trb q = rw q (rw (==_refl ring.enquene_pointer) refl, refl, refl)

insert_at_link :
    (ring : TransferRing) (trb : Trb)
    → (ring.enquene_pointer == 255) ≡ true
    → ring.dcs < 2
    → ((insert_transfer_trb ring trb).0.trbs 255
        ≡ link_trb (virt_to_phys ring.transfer_ring_base) ring.dcs 1)
      × ((insert_transfer_trb ring trb).0.trbs 0 ≡ with_cycle trb (1 - ring.dcs))
      × ((insert_transfer_trb ring trb).0.enquene_pointer ≡ 1)
      × ((insert_transfer_trb ring trb).0.dcs ≡ 1 - ring.dcs)
unfolding insert_transfer_trb wrap_transfer_ring
insert_at_link ring trb q d =
    let other : (2 ^ 32 - 1 - ring.dcs) % 2 ≡ 1 - ring.dcs = omega arith in
    rw q (refl, ap (with_cycle trb) other, refl, other)

enqueue_at_most :
    (ring : TransferRing) (trb : Trb)
    → Phase ring
    → (insert_transfer_trb ring trb).0.enquene_pointer ≤ 255
unfolding Phase
enqueue_at_most ring trb phase = (insert-Phase ring trb phase).0

cycle_bit : (ring : TransferRing) → Phase ring → ring.dcs < 2
unfolding Phase
cycle_bit ring (e, d, old, new) = d

insert_base :
    (ring : TransferRing) (trb : Trb)
    → (insert_transfer_trb ring trb).0.transfer_ring_base ≡ ring.transfer_ring_base
unfolding insert_transfer_trb wrap_transfer_ring
insert_base ring trb = elim (Bool-cases (ring.enquene_pointer == 255)) [
  | inl q ↦ rw q refl
  | inr q ↦ rw q refl
]

consume_insertions :
    (base : ℕ) (trbs : List Trb) (ring : TransferRing) (fuel : ℕ)
    → ring_address ring ≡ base
    → Phase ring
    → All IsNoLink trbs
    → length trbs ≤ 254
    → 2 * length trbs < fuel
    → consume base fuel (insert_transfer_trbs trbs ring).trbs ring.enquene_pointer ring.dcs
      ≡ map (λ trb. with_cycle trb 0) trbs
unfolding insert_transfer_trbs Kept Phase
consume_insertions base [] ring fuel here phase no_links few enough =
    consume_end base fuel ring phase
consume_insertions base (trb ∷ trbs) ring zero here phase no_links few enough = absurd (omega arith)
consume_insertions base (trb ∷ trbs) ring (suc zero) here phase no_links few enough =
    absurd (omega arith)
consume_insertions base (trb ∷ trbs) ring (suc (suc fuel)) here phase no_links few enough =
    let next = (insert_transfer_trb ring trb).0 in
    let fin = (insert_transfer_trbs trbs next).trbs in
    let next_phase = insert-Phase ring trb phase in
    let next_here = ap virt_to_phys (insert_base ring trb) ∙ here in
    let at_most = enqueue_at_most ring trb phase in
    elim (Bool-cases (ring.enquene_pointer == 255)) [
      | inr q ↦
          let (at, e, d) = insert_below ring trb q in
          let rest =
            consume_insertions base trbs next (suc fuel) next_here next_phase no_links.1
              (omega arith) (omega arith) in
          let kept = insertions_keep trbs next ring.enquene_pointer at_most (ground (arith, e)) in
          consume_trb base (suc fuel) fin ring.enquene_pointer ring.dcs trb no_links.0 (kept ∙ at)
          ∙ ap (λ l. with_cycle trb 0 ∷ l) (sym (rw (e, d) refl) ∙ rest)
      | inl q ↦
          let (link, at, e, d) = insert_at_link ring trb q (cycle_bit ring phase) in
          let rest =
            consume_insertions base trbs next fuel next_here next_phase no_links.1 (omega arith)
              (omega arith) in
          let last = (==_iff ring.enquene_pointer 255).0 q in
          let kept = insertions_keep trbs next 255 at_most (ground (arith, e)) in
          let kept_first = insertions_keep trbs next 0 at_most (ground (arith, e)) in
          ap (λ i. consume base (suc (suc fuel)) fin i ring.dcs) last
          ∙ consume_link base (suc fuel) fin 255 ring.dcs
              (kept ∙ link ∙ ap (λ a. link_trb a ring.dcs 1) here)
          ∙ consume_trb base fuel fin 0 (1 - ring.dcs) trb no_links.0 (kept_first ∙ at)
          ∙ ap (λ l. with_cycle trb 0 ∷ l) (sym (rw (e, d) refl) ∙ rest)
    ]

-- On a ring whose blocks before the enqueue pointer carry its cycle state and whose blocks from it on
-- carry the other, after the insertion of at most 254 blocks that are no links, the controller that
-- stood at the enqueue pointer reads these blocks, all of them, in their order and nothing else, in
-- at most two steps for each and one more, where a link leads to the block at the address in it.
pub consume-insert :
    (trbs : List Trb) (ring : TransferRing) (fuel : ℕ)
    → Phase ring
    → All IsNoLink trbs
    → length trbs ≤ 254
    → 2 * length trbs < fuel
    → consume
        (ring_address ring)
        fuel
        (insert_transfer_trbs trbs ring).trbs
        ring.enquene_pointer
        ring.dcs
      ≡ map (λ trb. with_cycle trb 0) trbs
consume-insert trbs ring fuel phase no_links few enough =
    consume_insertions (ring_address ring) trbs ring fuel refl phase no_links few enough
