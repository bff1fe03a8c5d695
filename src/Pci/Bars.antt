-- ===== src/Pci/Bars.antt =====
-- The size of a memory region that pci_get_bar_size finds.
use oscar_kernel.Common.{
  ℕ, ◌+◌, ◌-◌, ◌*◌, ◌/◌, ◌^◌, ◌≤◌, ◌<◌, ◌≡◌, refl, ◌∙◌, bit_and, false, arith,
}
use oscar_kernel.Common.Masks.{bit_and-frame}
use oscar_kernel.Pci.{word_bit, bar_span, bar_at, pci_get_bar_size}

frame_32 : (v : ℕ) → v < 2 ^ 32 → bit_and v 0xfffffff0 ≡ v / 16 * 16
frame_32 v h = bit_and-frame 4 28 v (omega arith)

frame_64 : (v : ℕ) → v < 2 ^ 64 → bit_and v 0xfffffffffffffff0 ≡ v / 16 * 16
frame_64 v h = bit_and-frame 4 60 v (omega arith)

module _ {D : Type 0} (rd : D → ℕ → ℕ → ℕ) (wr : D → ℕ → ℕ → ℕ → D) where
  -- What all-ones reads back as, for a region of 16 * n bytes with its four type bits, and the rest.
  bar_span-size :
      (lo n t hi : ℕ)
      → word_bit lo 1 ≡ false
      → 0 < n
      → n ≤ 2 ^ 28
      → t < 16
      → hi ≡ 0xffffffff
      → bar_span rd wr lo (2 ^ 32 - 16 * n + t) hi ≡ 16 * n
  unfolding bar_span
  bar_span-size lo n t hi memory pos small low all =
      let low_part : bit_and (2 ^ 32 - 16 * n + t) 0xfffffff0 ≡ 2 ^ 32 - 16 * n =
        frame_32 (2 ^ 32 - 16 * n + t) (omega arith) ∙ omega arith in
      let whole : bit_and (2 ^ 32 - 16 * n + 0xffffffff * 2 ^ 32) 0xfffffffffffffff0
          ≡ 2 ^ 64 - 16 * n =
        frame_64 (2 ^ 32 - 16 * n + 0xffffffff * 2 ^ 32) (omega arith) ∙ omega arith in
      rw (memory, low_part, all, whole) (omega arith)

  -- For a 32-bit memory region of 16 * n bytes, n at most 2 ^ 28, whose register reads back
  -- the complement of the size and its type bits once ones are written to it with decoding switched
  -- off, `pci_get_bar_size` gives 16 * n.
  pub pci_get_bar_size_lem :
      (d : D) (bar n t : ℕ)
      → 0 < n
      → n ≤ 2 ^ 28
      → t < 16
      → word_bit (rd (wr d 4 (bit_and (rd d 4 2) 0xfffc) 2) (bar_at rd wr bar) 4) 1 ≡ false
      → word_bit (rd (wr d 4 (bit_and (rd d 4 2) 0xfffc) 2) (bar_at rd wr bar) 4) 4 ≡ false
      → rd
          (wr (wr d 4 (bit_and (rd d 4 2) 0xfffc) 2) (bar_at rd wr bar) 0xffffffff 4)
          (bar_at rd wr bar)
          4
        ≡ 2 ^ 32 - 16 * n + t
      → (pci_get_bar_size rd wr d bar).0 ≡ 16 * n
  unfolding pci_get_bar_size
  pci_get_bar_size_lem d bar n t pos small low memory narrow ones =
      rw (narrow, ones) (bar_span-size _ n t 0xffffffff memory pos small low refl)
