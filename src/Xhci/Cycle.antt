-- ===== src/Xhci/Cycle.antt =====
-- The rule of the cycle bits of the transfer rings of drivers/usb/xhci.c.
use oscar_kernel.Common.{
  ℕ, ◌+◌, ◌-◌, ◌≤◌, ◌<◌, ◌≡◌, refl, inl, inr, false, ◌==◌, ==_iff, arith, Bool-cases,
}
use oscar_kernel.Xhci.{
  Trb, with_cycle, write_trb, TransferRing, wrap_transfer_ring, insert_transfer_trb,
}

-- The blocks before the enqueue pointer carry the producer's cycle state, those from it on the other.
unfoldable pub Phase : TransferRing → Type 0
Phase ring =
    (ring.enquene_pointer ≤ 255)
    × (ring.dcs < 2)
    × ((i : ℕ) → i < ring.enquene_pointer → (ring.trbs i).c ≡ ring.dcs)
    × ((i : ℕ) → ring.enquene_pointer ≤ i → i ≤ 255 → (ring.trbs i).c ≡ 1 - ring.dcs)

wrapped-Phase :
    (ring : TransferRing)
    → Phase ring
    → ring.enquene_pointer ≡ 255
    → Phase (wrap_transfer_ring ring)
unfolding Phase wrap_transfer_ring
wrapped-Phase ring (e, d, old, new) q =
    rw q
      (omega arith, omega arith, (λ i h. absurd (omega arith)), (λ i h k. ground (arith, old i, q)))

wrap-Phase :
    (ring : TransferRing)
    → Phase ring
    → Phase (wrap_transfer_ring ring) × ((wrap_transfer_ring ring).enquene_pointer < 255)
unfolding Phase wrap_transfer_ring
wrap-Phase ring phase = elim (Bool-cases (ring.enquene_pointer == 255)) [
  | inl q ↦ (wrapped-Phase ring phase ((==_iff _ _).0 q), rw q (omega arith))
  | inr q ↦ rw q (phase, ground (arith, phase.0))
]

-- The write at the enqueue pointer below the link.
put_trb : TransferRing → Trb → TransferRing
put_trb ring trb = record ring {
  trbs = write_trb ring.trbs ring.enquene_pointer (with_cycle trb ring.dcs);
  enquene_pointer = ring.enquene_pointer + 1;
}

put-Phase :
    (ring : TransferRing) (trb : Trb)
    → Phase ring
    → ring.enquene_pointer < 255
    → Phase (put_trb ring trb)
unfolding Phase put_trb
put-Phase ring trb (e, d, old, new) below = (
  omega arith,
  d,
  (λ i h. elim (Bool-cases (i == ring.enquene_pointer)) [
    | inl q ↦ rw q refl
    | inr q ↦ rw q (old i (ground arith))
  ]),
  (λ i h k.
      let q : (i == ring.enquene_pointer) ≡ false = ground arith in rw q (new i (omega arith) k)),
)

-- After `insert_transfer_trb` on a ring whose blocks before the enqueue pointer carry its cycle state
-- and whose blocks from it to the last carry the other, the ring is such a ring again.
pub insert-Phase :
    (ring : TransferRing) (trb : Trb) → Phase ring → Phase (insert_transfer_trb ring trb).0
unfolding insert_transfer_trb put_trb
insert-Phase ring trb phase =
    let w = wrap-Phase ring phase in put-Phase (wrap_transfer_ring ring) trb w.0 w.1
