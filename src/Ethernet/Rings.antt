-- ===== src/Ethernet/Rings.antt =====
-- The transmit queues after `tx_init` of drivers/ethernet/intel/x550.c.
use oscar_kernel.Common.{
  ℕ, zero, suc, ◌+◌, ◌/◌, ◌%◌, ◌^◌, ◌<◌, ◌≡◌, ◌≢◌, ◌==◌, arith, subst, sym, Bool-cases, inl, inr,
  ==_iff,
}
use oscar_kernel.Common.Loops.{for_range}
use oscar_kernel.Bootmem.{virt_to_phys}
use oscar_kernel.Ethernet.{
  Hw, tdt, tdbal, tdbah, tdlen, tdh, txdctl, write_reg, init_tx_queue, tx_init,
}
use oscar_kernel.Ethernet.Transmit.{IsReady}

-- Queue `i` is empty, and the card knows the ring at `ring`, its length, that it is enabled, and that head and
-- tail are equal.
pub record IsSetUp (hw : Hw) (i ring : ℕ) : Type 0 where
  pub size : (hw.tx_queue i).size ≡ 0x1000
  pub tail : (hw.tx_queue i).tail ≡ 0
  pub head : (hw.tx_queue i).head ≡ 0
  pub low : hw.written (tdbal i) ≡ virt_to_phys ring % 2 ^ 32
  pub high : hw.written (tdbah i) ≡ virt_to_phys ring / 2 ^ 32
  pub length : hw.written (tdlen i) ≡ 0x1000
  pub enabled : hw.written (txdctl i) ≡ 0x2000000
  pub told_head : hw.written (tdh i) ≡ 0
  pub told_tail : hw.written (tdt i) ≡ 0

pub virt_to_phys_high :
    (ring : ℕ) → virt_to_phys ring / 2 ^ 32 % 2 ^ 32 ≡ virt_to_phys ring / 2 ^ 32
unfolding virt_to_phys
virt_to_phys_high ring = omega arith

init-IsSetUp : (ring i : ℕ) (hw : Hw) → IsSetUp (init_tx_queue ring i hw) i ring
unfolding init_tx_queue
init-IsSetUp ring i hw = record {
  size = ground arith;
  tail = ground arith;
  head = ground arith;
  low = ground arith;
  high = ground (arith, virt_to_phys_high ring);
  length = ground arith;
  enabled = ground arith;
  told_head = ground arith;
  told_tail = ground arith;
}

init_keeps :
    (ring other_ring i k : ℕ) (hw : Hw)
    → k ≢ i
    → IsSetUp hw k other_ring
    → IsSetUp (init_tx_queue ring i hw) k other_ring
unfolding init_tx_queue
init_keeps ring other_ring i k hw ne s = record {
  size = ground (arith, s.size);
  tail = ground (arith, s.tail);
  head = ground (arith, s.head);
  low = ground (arith, s.low);
  high = ground (arith, s.high);
  length = ground (arith, s.length);
  enabled = ground (arith, s.enabled);
  told_head = ground (arith, s.told_head);
  told_tail = ground (arith, s.told_tail);
}

round-IsSetUp :
    (i q : ℕ) (rings : ℕ → ℕ) (hw : Hw)
    → ((p : ℕ) → p < i → IsSetUp hw p (rings p))
    → q < i + 1
    → IsSetUp (init_tx_queue (rings i) i hw) q (rings q)
round-IsSetUp i q rings hw made lt = elim (Bool-cases (q == i)) [
  | inl same ↦
      subst (λ p. IsSetUp (init_tx_queue (rings i) i hw) p (rings p)) (sym ((==_iff q i).0 same))
        (init-IsSetUp (rings i) i hw)
  | inr other ↦
      let apart = (λ (e : q ≡ i). absurd (ground (arith, other, e))) in
      init_keeps (rings i) (rings q) i q hw apart (made q (omega (arith, lt, apart)))
]

-- The loop: the queues below the index are set up.
loop-IsSetUp :
    (rounds i k : ℕ) (rings : ℕ → ℕ) (hw : Hw)
    → ((q : ℕ) → q < i → IsSetUp hw q (rings q))
    → k < i + rounds
    → IsSetUp (for_range rounds i (λ q h. init_tx_queue (rings q) q h) hw) k (rings k)
unfolding for_range
loop-IsSetUp zero i k rings hw made lt = made k (omega (arith, lt))
loop-IsSetUp (suc rounds) i k rings hw made lt =
    loop-IsSetUp rounds (i + 1) k rings (init_tx_queue (rings i) i hw)
      (λ q below. round-IsSetUp i q rings hw made below) (omega (arith, lt))

-- After `tx_init` each of the 128 queues is empty and enabled, and the card has the address of its ring, the
-- length, and a head and a tail of 0.
pub init-AllSetUp :
    (read rings : ℕ → ℕ) (hw : Hw) (k : ℕ) → k < 128 → IsSetUp (tx_init read rings hw) k (rings k)
unfolding tx_init
init-AllSetUp read rings hw k lt =
    let s =
      loop-IsSetUp 128 0 k rings (write_reg hw 0x04240 (read 0x04240))
        (λ q below. absurd (omega (arith, below))) lt in
    record {
      size = s.size;
      tail = s.tail;
      head = s.head;
      low = ground (arith, s.low);
      high = ground (arith, s.high);
      length = ground (arith, s.length);
      enabled = ground (arith, s.enabled);
      told_head = ground (arith, s.told_head);
      told_tail = ground (arith, s.told_tail);
    }

-- So the queue that `packet_transmit` uses is ready.
init-IsReady : (read rings : ℕ → ℕ) (hw : Hw) → IsReady (tx_init read rings hw)
init-IsReady read rings hw =
    let s = init-AllSetUp read rings hw 63 (omega arith) in
    record {
      size = s.size;
      tail = ground (arith, s.tail);
      told = ground (arith, s.tail, s.told_tail);
    }
