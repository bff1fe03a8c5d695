-- ===== src/Ethernet/Interrupt.antt =====
-- The receive ring, the interrupt handler and the hardware address of drivers/ethernet/intel/x550.c.
use oscar_kernel.Common.{
  ℕ, ◌+◌, ◌-◌, ◌*◌, ◌/◌, ◌%◌, ◌^◌, ◌≡◌, sym, ◌≢◌, ◌≤◌, ◌<◌, refl, bit_and, ◌==◌, Store,
  if◌then◌else◌, ==_refl, ==_ne, arith, ltb, zero, suc, ap, ◌∙◌, inl, inr, Bool-cases, ==_iff,
}
use oscar_kernel.Common.Loops.{for_range}
use oscar_kernel.Ethernet.{Hw, RxDesc}
use oscar_kernel.Ethernet.Receive.{
  fill_buffer, ixgbe_get_mac_addr_generic, ixgbe_intr, rx_init, rdt, rdh,
}
use oscar_kernel.Ethernet.Rings.{virt_to_phys_high}
use oscar_kernel.Ethernet.Transmit.{IsReady}
use oscar_kernel.Bootmem.{virt_to_phys}

-- On a receive interrupt with an empty ring of 256 descriptors, the handler writes the head and 256 to the tail
-- register, which is outside the ring, whose descriptors are 0 to 255, and the queue's own tail is the same.
pub intr-beyond :
    (read : ℕ → ℕ) (hw : Hw)
    → bit_and (read 0x00800) 0xffff ≢ 0
    → (hw.rx_queue 0).size ≡ 0x1000
    → read (rdh 0) ≡ read (rdt 0)
    → read (rdh 0) < 256
    → ((ixgbe_intr read hw).written (rdt 0) ≡ read (rdh 0) + 256)
      × (((ixgbe_intr read hw).rx_queue 0).tail ≡ read (rdh 0) + 256)
unfolding ixgbe_intr
intr-beyond read hw cause size empty lt =
    rw (==_ne (bit_and (read 0x00800) 0xffff) 0 cause, sym empty, ==_refl (read (rdh 0)), size)
      (omega (arith, lt), omega (arith, lt))

-- The handler leaves the queue of `packet_transmit` as it is.
pub intr-IsReady : (read : ℕ → ℕ) (hw : Hw) → IsReady hw → IsReady (ixgbe_intr read hw)
unfolding ixgbe_intr
intr-IsReady read hw r = record {
  size = ground (arith, r.size);
  tail = ground (arith, r.tail);
  told = ground (arith, r.told);
}

-- The six bytes are the two registers, the low one first, and no other byte is written.
pub mac_addr_lem :
    (read : ℕ → ℕ) (mac : Store) (k : ℕ)
    → ixgbe_get_mac_addr_generic read mac k ≡ (
        if ltb k 4
        then read 0x05400 / 2 ^ (8 * k) % 256
        else if ltb k 6
        then read 0x05404 / 2 ^ (8 * (k - 4)) % 256
        else mac k)
unfolding ixgbe_get_mac_addr_generic for_range
mac_addr_lem read mac k = ground arith

fill_keeps :
    (rounds i k : ℕ) (buffers : ℕ → ℕ) (ring : ℕ → RxDesc)
    → k < i
    → for_range rounds i (fill_buffer buffers) ring k ≡ ring k
unfolding for_range
fill_keeps zero i k buffers ring lt = refl
fill_keeps (suc rounds) i k buffers ring lt =
    fill_keeps rounds (i + 1) k buffers (fill_buffer buffers i ring) (omega (arith, lt))
    ∙ rw (==_ne k i (λ e. ground (arith, e, lt))) refl

fill_lem :
    (rounds i k : ℕ) (buffers : ℕ → ℕ) (ring : ℕ → RxDesc)
    → i ≤ k
    → k < i + rounds
    → (for_range rounds i (fill_buffer buffers) ring k).pkt_addr ≡ virt_to_phys (buffers k)
unfolding for_range
fill_lem zero i k buffers ring le lt = absurd (omega (arith, le, lt))
fill_lem (suc rounds) i k buffers ring le lt = elim (Bool-cases (k == i)) [
  | inl here ↦
      ap (λ (d : RxDesc). d.pkt_addr)
        (fill_keeps rounds (i + 1) k buffers (fill_buffer buffers i ring) (ground (arith, here)))
      ∙ rw here (ap (λ n. virt_to_phys (buffers n)) (sym ((==_iff k i).0 here)))
  | inr later ↦
      fill_lem rounds (i + 1) k buffers (fill_buffer buffers i ring) (ground (arith, le, later))
        (omega (arith, lt))
]

-- Receive queue 0 has 256 descriptors with a buffer each, of which the driver gives the first 255 to the
-- card, and the card knows the ring at `ring`, its length, that it is enabled, its head and its tail.
pub record IsFilled (hw : Hw) (ring : ℕ) (buffers : ℕ → ℕ) (k : ℕ) : Type 0 where
  pub buffer : ((hw.rx_queue 0).rx_desc_ring k).pkt_addr ≡ virt_to_phys (buffers k)
  pub size : (hw.rx_queue 0).size ≡ 0x1000
  pub tail : (hw.rx_queue 0).tail ≡ 255
  pub low : hw.written 0x01000 ≡ virt_to_phys ring % 2 ^ 32
  pub high : hw.written 0x01004 ≡ virt_to_phys ring / 2 ^ 32
  pub length : hw.written 0x01008 ≡ 0x1000
  pub enabled : hw.written 0x01028 ≡ 0x2000000
  pub told_head : hw.written (rdh 0) ≡ 0
  pub told_tail : hw.written (rdt 0) ≡ 255

-- After `rx_init` each of the 256 descriptors of the receive queue has the physical address of its buffer,
-- the queue's tail is the last descriptor, and the card has the address of the ring, its length, a
-- head of 0 and this tail, and the queue is enabled.
pub rx_init-IsFilled :
    (read : ℕ → ℕ) (ring : ℕ) (buffers : ℕ → ℕ) (hw : Hw) (k : ℕ)
    → k < 256
    → IsFilled (rx_init read ring buffers hw) ring buffers k
unfolding rx_init
rx_init-IsFilled read ring buffers hw k lt = record {
  buffer = fill_lem 256 0 k buffers (λ q. record { pkt_addr = 0; hdr_addr = 0 }) (omega arith) lt;
  size = refl;
  tail = refl;
  low = refl;
  high = virt_to_phys_high ring;
  length = refl;
  enabled = refl;
  told_head = refl;
  told_tail = refl;
}
