-- ===== src/Xhci/Command.antt =====
-- The command ring of drivers/usb/xhci.c against the controller that reads it.
use oscar_kernel.Common.{
  ℕ, zero, suc, ◌+◌, ◌-◌, ◌/◌, ◌%◌, ◌^◌, ◌≤◌, ◌<◌, ◌≡◌, refl, sym, ap, ◌∙◌, inl, inr, true, false,
  [], ◌∷◌, ◌==◌, ==_refl, ==_iff, arith, Bool-cases,
}
use oscar_kernel.Bootmem.{virt_to_phys}
use oscar_kernel.Xhci.{
  Trb, link_trb, with_cycle, CommandRing, wrap_command_ring, xhci_cmd_ring_insert,
}
use oscar_kernel.Xhci.Ring.{consume, consume_trb, leb_refl, first_block, IsNoLink}

-- A ring of 4 KB with the cycle state that `xhci_probe` sets, whose block at the enqueue pointer the
-- controller does not take.
unfoldable pub Ready : CommandRing → Type 0
Ready ring =
    (ring.cmd_ring_size ≡ 0x1000)
    × (ring.cmd_ring_dcs ≡ 1)
    × (ring.cmd_ring_enqueue_ptr ≤ 255)
    × ((ring.commands ring.cmd_ring_enqueue_ptr).c ≡ 0)

last_index :
    (ring : CommandRing)
    → ring.cmd_ring_size ≡ 0x1000
    → (ring.cmd_ring_size / 16 + 2 ^ 64 - 1) % 2 ^ 64 ≡ 255
last_index ring size = rw size refl

at_most : (ring : CommandRing) → Ready ring → ring.cmd_ring_enqueue_ptr ≤ 255
unfolding Ready
at_most ring (size, cycle, le, free) = le

consume-Ready :
    (base fuel : ℕ) (ring : CommandRing)
    → Ready ring
    → consume base fuel ring.commands ring.cmd_ring_enqueue_ptr 1 ≡ []
unfolding consume Ready
consume-Ready base zero ring ready = refl
consume-Ready base (suc fuel) ring (size, cycle, le, free) = rw free refl

-- The link of the command ring leaves the cycle state.
consume_same_cycle :
    (base fuel : ℕ) (trbs : ℕ → Trb) (index ccs : ℕ)
    → trbs index ≡ link_trb base ccs 0
    → consume base (suc fuel) trbs index ccs ≡ consume base fuel trbs 0 ccs
unfolding consume
consume_same_cycle base fuel trbs index ccs at =
    rw at (rw (==_refl ccs, leb_refl base, first_block base) refl)

-- The insertion with its two cases computed: the start of the ring, and any other place.
insert_at_end :
    (ring : CommandRing) (cmd : Trb)
    → Ready ring
    → (ring.cmd_ring_enqueue_ptr == 255) ≡ true
    → (Ready (xhci_cmd_ring_insert ring cmd).0)
      × ((xhci_cmd_ring_insert ring cmd).1 ≡ 0)
      × ((xhci_cmd_ring_insert ring cmd).0.cmd_ring_enqueue_ptr ≡ 1)
      × ((xhci_cmd_ring_insert ring cmd).0.commands 0 ≡ with_cycle cmd 1)
      × ((xhci_cmd_ring_insert ring cmd).0.commands 255 ≡ link_trb (virt_to_phys ring.cmd_ring) 1 0)
unfolding Ready xhci_cmd_ring_insert wrap_command_ring
insert_at_end ring cmd (size, cycle, at_most, free) q = rw (last_index ring size) (
    rw q (
      let last = (==_iff ring.cmd_ring_enqueue_ptr 255).0 q in
      rw (last) (
        (size, cycle, omega arith, refl),
        refl,
        refl,
        ap (with_cycle cmd) cycle,
        ap (λ c. link_trb (virt_to_phys ring.cmd_ring) c 0) cycle,
      )))

insert_before_end :
    (ring : CommandRing) (cmd : Trb)
    → Ready ring
    → (ring.cmd_ring_enqueue_ptr == 255) ≡ false
    → (Ready (xhci_cmd_ring_insert ring cmd).0)
      × ((xhci_cmd_ring_insert ring cmd).1 ≡ ring.cmd_ring_enqueue_ptr)
      × ((xhci_cmd_ring_insert ring cmd).0.cmd_ring_enqueue_ptr ≡ ring.cmd_ring_enqueue_ptr + 1)
      × ((xhci_cmd_ring_insert ring cmd).0.commands ring.cmd_ring_enqueue_ptr ≡ with_cycle cmd 1)
unfolding Ready xhci_cmd_ring_insert wrap_command_ring
insert_before_end ring cmd (size, cycle, at_most, free) q =
    let here = ring.cmd_ring_enqueue_ptr in
    let ne : (here == here + 1) ≡ false = ground arith in
    rw (last_index ring size) (
      rw q (
        (size, cycle, ground arith, rw (==_refl (here + 1)) refl),
        refl,
        refl,
        rw (ne, ==_refl here) (ap (with_cycle cmd) cycle),
      ))

-- After `xhci_cmd_ring_insert` on a ring of 4 KB with cycle state 1 whose block at the enqueue pointer,
-- at most 255, has the cycle bit 0, the ring is such a ring again, and the index that is given is
-- below 255 and holds the command with the cycle bit 1.
pub cmd_ring_insert-Ready :
    (ring : CommandRing) (cmd : Trb)
    → Ready ring
    → Ready (xhci_cmd_ring_insert ring cmd).0
      × ((xhci_cmd_ring_insert ring cmd).1 < 255)
      × ((xhci_cmd_ring_insert ring cmd).0.commands (xhci_cmd_ring_insert ring cmd).1
          ≡ with_cycle cmd 1)
cmd_ring_insert-Ready ring cmd ready = elim (Bool-cases (ring.cmd_ring_enqueue_ptr == 255)) [
  | inl q ↦
      let (next, index, e, at, link) = insert_at_end ring cmd ready q in
      (next, omega (arith, index), ap (xhci_cmd_ring_insert ring cmd).0.commands index ∙ at)
  | inr q ↦
      let (next, index, e, at) = insert_before_end ring cmd ready q in
      (
        next,
        ground (arith, index, at_most ring ready),
        ap (xhci_cmd_ring_insert ring cmd).0.commands index ∙ at,
      )
]

-- On a ring of 4 KB with cycle state 1 whose block at the enqueue pointer, at most 255, has the cycle
-- bit 0, after `xhci_cmd_ring_insert` of a command that is no link, the controller that stood at the
-- enqueue pointer reads this command and nothing else, and needs at most three steps, also where it
-- has to follow the link to the address in it.
pub consume-cmd_ring_insert :
    (ring : CommandRing) (cmd : Trb) (fuel : ℕ)
    → Ready ring
    → IsNoLink cmd
    → consume
        (virt_to_phys ring.cmd_ring)
        (suc (suc (suc fuel)))
        (xhci_cmd_ring_insert ring cmd).0.commands
        ring.cmd_ring_enqueue_ptr
        1
      ≡ with_cycle cmd 0 ∷ []
consume-cmd_ring_insert ring cmd fuel ready no_link =
    let next = (xhci_cmd_ring_insert ring cmd).0 in
    let base = virt_to_phys ring.cmd_ring in
    elim (Bool-cases (ring.cmd_ring_enqueue_ptr == 255)) [
      | inl q ↦
          let (next_ready, index, e, at, link) = insert_at_end ring cmd ready q in
          ap (λ i. consume base (suc (suc (suc fuel))) next.commands i 1)
            ((==_iff ring.cmd_ring_enqueue_ptr 255).0 q)
          ∙ consume_same_cycle base (suc (suc fuel)) next.commands 255 1 link
          ∙ consume_trb base (suc fuel) next.commands 0 1 cmd no_link at
          ∙ ap (λ l. with_cycle cmd 0 ∷ l)
              (sym (rw e refl) ∙ consume-Ready base (suc fuel) next next_ready)
      | inr q ↦
          let (next_ready, index, e, at) = insert_before_end ring cmd ready q in
          consume_trb base (suc (suc fuel)) next.commands ring.cmd_ring_enqueue_ptr 1 cmd no_link at
          ∙ ap (λ l. with_cycle cmd 0 ∷ l)
              (sym (rw e refl) ∙ consume-Ready base (suc (suc fuel)) next next_ready)
    ]
