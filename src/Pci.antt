-- ===== src/Pci.antt =====
-- drivers/pci/pci.c with the inline functions of include/pci.h, on the configuration space of one
-- device. How a device answers the host bridge is the hardware's: `rd d offset len` is what a read
-- gives and `wr d offset value len` the device after a write.
pub mod Chain
pub mod Bars
pub mod Bridge
pub mod Tests
use oscar_kernel.Common.{
  ℕ, zero, suc, ◌+◌, ◌-◌, ◌*◌, ◌/◌, ◌%◌, ◌^◌, bit_and, bit_or, Bool, true, false, not, Option, none,
  some, ◌==◌, if◌then◌else◌,
}

-- An operation behind `pci_find_capability`: `none` where the search does not end, then `none` for
-- the -ENODEV of a missing capability.
abbrev pub on_capability {ℓ} : {A : Type ℓ} → Option ℕ → (ℕ → A) → Option (Option A)
on_capability none f = none
on_capability (some zero) f = some none
on_capability (some (suc cap)) f = some (some (f (suc cap)))

abbrev pub word_bit : ℕ → ℕ → Bool
word_bit v mask = not (bit_and v mask == 0)

-- The loop `while (nvec)` of `pci_msi_multiple_enable`: how often nvec is halved until it is 0.
unfoldable pub halvings : ℕ → ℕ → ℕ
halvings zero nvec = 0
halvings (suc fuel) nvec = let rest = halvings fuel (nvec / 2) in if nvec == 0 then 0 else rest + 1

-- The first eleven bits of the message control word, and one more.
abbrev pub msix_table_size : ℕ → ℕ
msix_table_size flags = bit_and flags 0x7ff + 1

module _ {D : Type 0} (rd : D → ℕ → ℕ → ℕ) (wr : D → ℕ → ℕ → ℕ → D) where
  unfoldable pub walk_capabilities : ℕ → D → ℕ → ℕ → Option ℕ
  walk_capabilities zero d id next_cap = none
  walk_capabilities (suc fuel) d id next_cap =
      let rest = walk_capabilities fuel d id (rd d (next_cap + 1) 1) in
      if next_cap == 0 then some 0 else if rd d next_cap 1 == id then some next_cap else rest

  unfoldable pub pci_find_capability : ℕ → D → ℕ → Option ℕ
  unfolding walk_capabilities
  pci_find_capability fuel d id = walk_capabilities fuel d id (rd d 0x34 1)

  -- 0x05 is MSI. The device afterwards.
  unfoldable pub msi_entry_setup : ℕ → D → ℕ → ℕ → ℕ → Option (Option D)
  unfolding pci_find_capability
  msi_entry_setup fuel d msg_addr msg_data mask =
      on_capability (pci_find_capability fuel d 0x05) (λ msi_cap.
        let control = rd d (msi_cap + 2) 2 in
        let msi_data = msg_data % 2 ^ 16 in
        let msi_mask = mask % 2 ^ 32 in
        let d1 = wr d (msi_cap + 4) (msg_addr % 2 ^ 32) 4 in
        if word_bit control 0x80
        then (let d2 = wr d1 (msi_cap + 8) (msg_addr / 2 ^ 32) 4 in
            let d3 = wr d2 (msi_cap + 12) msi_data 2 in
            if word_bit control 0x100 then wr d3 (msi_cap + 16) msi_mask 4 else d3)
        else (let d2 = wr d1 (msi_cap + 8) msi_data 2 in
            if word_bit control 0x100 then wr d2 (msi_cap + 12) msi_mask 4 else d2))

  -- The inner `none` of the result is the second -ENODEV. The mask that was computed is overwritten
  -- by the value read, so `msi_irq` and `mask` have no effect.
  unfoldable pub msi_irq_mask : ℕ → D → ℕ → Bool → Option (Option (Option D))
  unfolding pci_find_capability
  msi_irq_mask fuel d msi_irq mask = on_capability (pci_find_capability fuel d 0x05) (λ msi_cap.
      let control = rd d (msi_cap + 2) 2 in
      let at = (if word_bit control 0x80 then msi_cap + 16 else msi_cap + 12) in
      if word_bit control 0x100 then some (wr d at (rd d at 4) 4) else none)

  unfoldable pub msi_irq_pending : ℕ → D → ℕ → Option (Option (Option Bool))
  unfolding pci_find_capability
  msi_irq_pending fuel d msi_irq = on_capability (pci_find_capability fuel d 0x05) (λ msi_cap.
      let control = rd d (msi_cap + 2) 2 in
      let at = (if word_bit control 0x80 then msi_cap + 20 else msi_cap + 16) in
      if word_bit control 0x100 then some (word_bit (rd d at 4) (2 ^ msi_irq)) else none)

  unfoldable pub pci_msi_vec_count : ℕ → D → Option (Option ℕ)
  unfolding pci_find_capability
  pci_msi_vec_count fuel d =
      on_capability (pci_find_capability fuel d 0x05)
        (λ msi_cap. 2 ^ (bit_and (rd d (msi_cap + 2) 2) 0xe / 2))

  -- 0x11 is MSI-X.
  unfoldable pub pci_msix_vec_count : ℕ → D → Option (Option ℕ)
  unfolding pci_find_capability
  pci_msix_vec_count fuel d =
      on_capability (pci_find_capability fuel d 0x11)
        (λ msix_cap. msix_table_size (rd d (msix_cap + 2) 2))

  unfoldable pub pci_enable_device : D → D
  pci_enable_device d = wr d 4 (bit_or (rd d 4 2) 3 % 2 ^ 16) 2

  unfoldable pub pci_set_master : D → D
  pci_set_master d = wr d 4 (bit_or (rd d 4 2) 4 % 2 ^ 16) 2

  unfoldable pub pci_msi_set_enable : ℕ → D → Bool → Option (Option D)
  unfolding pci_find_capability
  pci_msi_set_enable fuel d enable = on_capability (pci_find_capability fuel d 0x05) (λ msi_cap.
      let control = bit_and (rd d (msi_cap + 2) 2) 0xfffe in
      wr d (msi_cap + 2) (if enable then bit_or control 1 else control) 2)

  -- `order` is eight bits wide; 32 halvings end on every `int` that is not negative.
  unfoldable pub pci_msi_multiple_enable : ℕ → D → ℕ → Option (Option D)
  unfolding pci_find_capability halvings
  pci_msi_multiple_enable fuel d nvec = on_capability (pci_find_capability fuel d 0x05) (λ msi_cap.
      let order = (halvings 32 nvec + 2 ^ 8 - 1) % 2 ^ 8 in
      wr d (msi_cap + 2) (bit_or (rd d (msi_cap + 2) 2) (order * 2 ^ 4) % 2 ^ 16) 2)

  unfoldable pub pci_msix_clear_and_set_ctrl : ℕ → D → ℕ → ℕ → Option (Option D)
  unfolding pci_find_capability
  pci_msix_clear_and_set_ctrl fuel d clear set =
      on_capability (pci_find_capability fuel d 0x11) (λ msix_cap.
        wr d (msix_cap + 2) (bit_or (bit_and (rd d (msix_cap + 2) 2) (2 ^ 16 - 1 - clear)) set) 2)

  abbrev pub bar_at : ℕ → ℕ
  bar_at bar = 0x10 + bar * 4

  unfoldable pub pci_get_bar_type : D → ℕ → ℕ
  pci_get_bar_type d bar =
      let bar_val = rd d (bar_at bar) 4 in
      if word_bit bar_val 2 then 0xffff else bit_and bar_val 0xf

  -- The two halves have no bit in common, so their `|` is a sum.
  unfoldable pub pci_get_bar_base : D → ℕ → ℕ
  pci_get_bar_base d bar =
      let lo = rd d (bar_at bar) 4 in
      let hi = (if word_bit lo 4 then rd d (bar_at bar + 4) 4 else 0) in
      if word_bit lo 2
      then 0
      else (if word_bit lo 1 then bit_and lo 0xfffffffc else bit_and lo 0xfffffff0) + hi * 2 ^ 32

  -- The last steps of `pci_get_bar_size`.
  unfoldable pub bar_span : ℕ → ℕ → ℕ → ℕ
  bar_span ori_lo size_lo size_hi =
      let size = bit_and size_lo 0xfffffff0 + size_hi * 2 ^ 32 in
      if word_bit ori_lo 1 then 0 else (2 ^ 64 - 1 - bit_and size 0xfffffffffffffff0 + 1) % 2 ^ 64

  -- The size and the device afterwards.
  unfoldable pub pci_get_bar_size : D → ℕ → ℕ × D
  unfolding bar_span
  pci_get_bar_size d bar =
      let ori_cmd = rd d 4 2 in
      let d1 = wr d 4 (bit_and ori_cmd 0xfffc) 2 in
      let ori_lo = rd d1 (bar_at bar) 4 in
      let d2 = wr d1 (bar_at bar) 0xffffffff 4 in
      let size_lo = rd d2 (bar_at bar) 4 in
      let d3 = wr d2 (bar_at bar) ori_lo 4 in
      if word_bit ori_lo 4
      then (let ori_hi = rd d3 (bar_at (bar + 1)) 4 in
          let d4 = wr d3 (bar_at (bar + 1)) 0xffffffff 4 in
          let size_hi = rd d4 (bar_at (bar + 1)) 4 in
          let d5 = wr d4 (bar_at (bar + 1)) ori_hi 4 in
          (bar_span ori_lo size_lo size_hi, wr d5 4 ori_cmd 2))
      else (bar_span ori_lo size_lo 0xffffffff, wr d3 4 ori_cmd 2)
