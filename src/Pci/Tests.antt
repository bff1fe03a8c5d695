-- ===== src/Pci/Tests.antt =====
-- Runs and witnesses for drivers/pci/pci.c, on devices that are written down in full.
use oscar_kernel.Common.{
  ℕ, ◌+◌, ◌-◌, ◌%◌, ◌^◌, ◌<◌, ◌≡◌, inl, refl, [], ◌∷◌, Store, ◌==◌, if◌then◌else◌, update, bit_and,
  arith,
}
use oscar_kernel.Pci.{halvings}
use oscar_kernel.Pci.Chain.{IsChain, halvings-pow}
use oscar_kernel.Bootmem.{phys_to_virt}
use oscar_kernel.Pci.Bridge.{
  x86_pci_read_config_pio, x86_pci_read_config_mmio, read_config_pio-mmio,
}

-- A device with capabilities 1 at 0x40 and 5 at 0x50, that ignores writes.
abbrev read_plain : Store → ℕ → ℕ → ℕ
read_plain d offset len = d offset

abbrev write_plain : Store → ℕ → ℕ → ℕ → Store
write_plain d offset v len = d

abbrev with_caps : Store
with_caps x =
    if x == 0x34
    then 0x40
    else if x == 0x40
    then 1
    else if x == 0x41
    then 0x50
    else if x == 0x50
    then 5
    else 0

two_caps : IsChain read_plain write_plain with_caps (read_plain with_caps 0x34 1) (0x40 ∷ 0x50 ∷ [])
unfolding IsChain
two_caps = (refl, omega arith, (refl, omega arith, refl))

-- A device whose first region has 64 KB: the low 16 bits of its register read as 0.
abbrev read_region : Store → ℕ → ℕ → ℕ
read_region d offset len = if offset == 0x10 then d 0x10 - bit_and (d 0x10) 0xffff else d offset

abbrev write_region : Store → ℕ → ℕ → ℕ → Store
write_region d offset v len = update d offset v

abbrev with_region : Store
with_region x = if x == 0x10 then 0xfe000000 else 7

halvings-pow_example : halvings 32 (2 ^ 3) ≡ 3 + 1
halvings-pow_example = halvings-pow 32 3 (omega arith)

-- A configuration space whose bytes are the low bytes of their addresses, and its window.
abbrev low_bytes : Store
low_bytes a = a % 256

shows_low_bytes :
    (a : ℕ) → a < 2 ^ 28 → low_bytes ((phys_to_virt 0xb0000000 + a) % 2 ^ 64) ≡ low_bytes a
unfolding phys_to_virt
shows_low_bytes a h = omega arith

read_config_pio-mmio_example :
    x86_pci_read_config_pio low_bytes 1 2 3 0x10 4
    ≡ x86_pci_read_config_mmio low_bytes 0xb0000000 1 2 3 0x10 4
unfolding phys_to_virt
read_config_pio-mmio_example =
    read_config_pio-mmio low_bytes low_bytes 0xb0000000 1 2 3 0x10 4 shows_low_bytes (omega arith)
      (omega arith, omega arith, omega arith, omega arith) (inl (refl, refl))
