-- ===== src/Pci/Bridge.antt =====
-- arch/x86_64/pci.c: the accesses of the host bridge to configuration space, through the ports 0xcf8 and
-- 0xcfc and through memory. The configuration space is a function from byte addresses in the layout
-- of the memory window; how the bridge takes the two ports apart is `latched_address`.
use oscar_kernel.Common.{
  ℕ, ◌+◌, ◌-◌, ◌*◌, ◌/◌, ◌%◌, ◌^◌, ◌≤◌, ◌<◌, ◌≡◌, ◌⊎◌, inl, inr, sym, ap, ◌∙◌, bit_and, bit_or,
  update, Store, ◌==◌, if◌then◌else◌, arith,
}
use oscar_kernel.Common.Masks.{bit_and-frame, bit_or_comm, bit_or-disjoint}
use oscar_kernel.Common.Bits.{bit_and-low, bit_and-pow}
use oscar_kernel.Bootmem.{phys_to_virt}

abbrev pub x86_pci_pio_addr : ℕ → ℕ → ℕ → ℕ → ℕ
x86_pci_pio_addr b d f o =
    bit_or (bit_or (bit_or (bit_or 0x80000000 (b * 2 ^ 16)) (d * 2 ^ 11)) (f * 2 ^ 8))
      (bit_and o 0xfffffffc)

abbrev pub x86_pci_mmio_addr : ℕ → ℕ → ℕ → ℕ → ℕ → ℕ
x86_pci_mmio_addr base b d f o =
    (phys_to_virt base + bit_or (bit_or (bit_or (b * 2 ^ 20) (d * 2 ^ 15)) (f * 2 ^ 12)) o) % 2 ^ 64

-- A little-endian value of 4, 2 or else 1 bytes.
abbrev pub le_value : Store → ℕ → ℕ → ℕ
le_value bytes a len =
    if len == 4
    then bytes a + bytes (a + 1) * 2 ^ 8 + bytes (a + 2) * 2 ^ 16 + bytes (a + 3) * 2 ^ 24
    else if len == 2
    then bytes a + bytes (a + 1) * 2 ^ 8
    else bytes a

-- The bridge's side: the bus, device, function and register in the value at the port 0xcf8, where its
-- enable bit 31 is set. Without it the bridge makes no configuration cycle: what stands at the data port
-- then is in `config` behind the configuration space.
abbrev pub latched_address : ℕ → ℕ
latched_address v =
    (1 - v / 2 ^ 31 % 2) * 2 ^ 28
    + v / 2 ^ 16 % 2 ^ 8 * 2 ^ 20
    + v / 2 ^ 11 % 2 ^ 5 * 2 ^ 15
    + v / 2 ^ 8 % 2 ^ 3 * 2 ^ 12
    + v / 4 % 2 ^ 6 * 4

unfoldable pub x86_pci_read_config_pio : Store → ℕ → ℕ → ℕ → ℕ → ℕ → ℕ
x86_pci_read_config_pio config b d f offset len =
    let latched = latched_address (x86_pci_pio_addr b d f offset) in
    if len == 4
    then le_value config latched 4
    else if len == 2
    then le_value config (latched + bit_and offset 2) 2
    else le_value config (latched + bit_and offset 3) 1

-- The window is memory that starts at `base`.
unfoldable pub x86_pci_read_config_mmio : Store → ℕ → ℕ → ℕ → ℕ → ℕ → ℕ → ℕ
x86_pci_read_config_mmio mem base b d f offset len =
    le_value mem (x86_pci_mmio_addr base b d f offset) len

-- The bytes of a value of 4, 2 or else 1 bytes.
abbrev pub le_store : Store → ℕ → ℕ → ℕ → Store
le_store bytes a value len =
    if len == 4
    then update
        (update (update (update bytes a (value % 2 ^ 8)) (a + 1) (value / 2 ^ 8 % 2 ^ 8)) (a + 2)
          (value / 2 ^ 16 % 2 ^ 8))
        (a + 3) (value / 2 ^ 24 % 2 ^ 8)
    else if len == 2
    then update (update bytes a (value % 2 ^ 8)) (a + 1) (value / 2 ^ 8 % 2 ^ 8)
    else update bytes a (value % 2 ^ 8)

pub x86_pci_write_config_pio : Store → ℕ → ℕ → ℕ → ℕ → ℕ → ℕ → Store
x86_pci_write_config_pio config b d f offset value len =
    let latched = latched_address (x86_pci_pio_addr b d f offset) in
    if len == 4
    then le_store config latched value 4
    else if len == 2
    then le_store config (latched + bit_and offset 2) value 2
    else le_store config (latched + bit_and offset 3) value 1

pub x86_pci_write_config_mmio : Store → ℕ → ℕ → ℕ → ℕ → ℕ → ℕ → ℕ → Store
x86_pci_write_config_mmio mem base b d f offset value len =
    le_store mem (x86_pci_mmio_addr base b d f offset) value len

-- The address and the data of a message; the two modes that are 0 leave it as it is.
unfoldable pub x86_pci_msi_entry_build : ℕ → ℕ → ℕ × ℕ
x86_pci_msi_entry_build irq cpu = (bit_or cpu 0xfee00000, bit_or (irq + 32) 0x4000)

-- For a processor below 4096 the destination in the address of the message, bits 12 to 19, is 0.
msi_destination_zero :
    (irq cpu : ℕ) → cpu < 2 ^ 12 → (x86_pci_msi_entry_build irq cpu).0 / 2 ^ 12 % 2 ^ 8 ≡ 0
unfolding x86_pci_msi_entry_build
msi_destination_zero irq cpu h =
    omega (arith, bit_or_comm cpu 0xfee00000, bit_or-disjoint 20 0xfee cpu (omega arith))

pio_sum :
    (b d f o : ℕ)
    → (b < 256) × (d < 32) × (f < 8) × (o < 256)
    → x86_pci_pio_addr b d f o ≡ 2 ^ 31 + b * 2 ^ 16 + d * 2 ^ 11 + f * 2 ^ 8 + o / 4 * 4
pio_sum b d f o (hb, hd, hf, ho) =
    let e0 : bit_and o 0xfffffffc ≡ o / 4 * 4 = bit_and-frame 2 30 o (omega arith) in
    let e1 : bit_or 0x80000000 (b * 2 ^ 16) ≡ (2 ^ 15 + b) * 2 ^ 16 =
      bit_or-disjoint 31 1 (b * 2 ^ 16) (omega arith) ∙ omega arith in
    let e2 : bit_or ((2 ^ 15 + b) * 2 ^ 16) (d * 2 ^ 11) ≡ ((2 ^ 15 + b) * 2 ^ 5 + d) * 2 ^ 11 =
      bit_or-disjoint 16 (2 ^ 15 + b) (d * 2 ^ 11) (omega arith) ∙ omega arith in
    let e3 : bit_or (((2 ^ 15 + b) * 2 ^ 5 + d) * 2 ^ 11) (f * 2 ^ 8)
        ≡ (((2 ^ 15 + b) * 2 ^ 5 + d) * 2 ^ 3 + f) * 2 ^ 8 =
      bit_or-disjoint 11 ((2 ^ 15 + b) * 2 ^ 5 + d) (f * 2 ^ 8) (omega arith) ∙ omega arith in
    rw (e0, e1, e2, e3)
      (bit_or-disjoint 8 (((2 ^ 15 + b) * 2 ^ 5 + d) * 2 ^ 3 + f) (o / 4 * 4) (omega arith)
        ∙ omega arith)

mmio_sum :
    (b d f o : ℕ)
    → (b < 256) × (d < 32) × (f < 8) × (o < 256)
    → bit_or (bit_or (bit_or (b * 2 ^ 20) (d * 2 ^ 15)) (f * 2 ^ 12)) o
      ≡ b * 2 ^ 20 + d * 2 ^ 15 + f * 2 ^ 12 + o
mmio_sum b d f o (hb, hd, hf, ho) =
    let e1 : bit_or (b * 2 ^ 20) (d * 2 ^ 15) ≡ (b * 2 ^ 5 + d) * 2 ^ 15 =
      bit_or-disjoint 20 b (d * 2 ^ 15) (omega arith) ∙ omega arith in
    let e2 : bit_or ((b * 2 ^ 5 + d) * 2 ^ 15) (f * 2 ^ 12)
        ≡ ((b * 2 ^ 5 + d) * 2 ^ 3 + f) * 2 ^ 12 =
      bit_or-disjoint 15 (b * 2 ^ 5 + d) (f * 2 ^ 12) (omega arith) ∙ omega arith in
    rw (e1, e2) (bit_or-disjoint 12 ((b * 2 ^ 5 + d) * 2 ^ 3 + f) o (omega arith) ∙ omega arith)

-- For a bus below 256, a device below 32, a function below 8, a register below 256 and a length of 4, 2
-- or 1 that divides the register, where the memory window at `base` shows the configuration space,
-- `x86_pci_read_config_pio` and `x86_pci_read_config_mmio` give the same value.
pub read_config_pio-mmio :
    (config mem : Store) (base b d f offset len : ℕ)
    → ((a : ℕ) → a < 2 ^ 28 → mem ((phys_to_virt base + a) % 2 ^ 64) ≡ config a)
    → phys_to_virt base + 2 ^ 28 ≤ 2 ^ 64
    → (b < 256) × (d < 32) × (f < 8) × (offset < 256)
    → ((len ≡ 4) × (offset % 4 ≡ 0)) ⊎ (((len ≡ 2) × (offset % 2 ≡ 0)) ⊎ (len ≡ 1))
    → x86_pci_read_config_pio config b d f offset len
      ≡ x86_pci_read_config_mmio mem base b d f offset len
unfolding x86_pci_read_config_pio x86_pci_read_config_mmio
read_config_pio-mmio config mem base b d f offset len shows room small aligned =
    let (hb, hd, hf, ho) = small in
    let at = b * 2 ^ 20 + d * 2 ^ 15 + f * 2 ^ 12 + offset in
    let latched : latched_address (x86_pci_pio_addr b d f offset)
        ≡ b * 2 ^ 20 + d * 2 ^ 15 + f * 2 ^ 12 + offset / 4 * 4 =
      rw (pio_sum b d f offset small) (omega arith) in
    let address : x86_pci_mmio_addr base b d f offset ≡ phys_to_virt base + at =
      rw (mmio_sum b d f offset small) (omega arith) in
    let byte : (x y : ℕ) → x ≡ phys_to_virt base + y → y < 2 ^ 28 → config y ≡ mem x =
      λ x y e h. sym (ap mem (omega (arith, e)) ∙ shows y h) in
    rw (latched, address)
      (elim aligned [
        | inl (q, a) ↦
            let low : offset / 4 * 4 ≡ offset = omega arith in
            rw q (
              rw low (
                omega (
                  arith,
                  byte (phys_to_virt base + at) at (omega arith) (omega arith),
                  byte (phys_to_virt base + at + 1) (at + 1) (omega arith) (omega arith),
                  byte (phys_to_virt base + at + 2) (at + 2) (omega arith) (omega arith),
                  byte (phys_to_virt base + at + 3) (at + 3) (omega arith) (omega arith),
                )))
        | inr (inl (q, a)) ↦
            let low : b * 2 ^ 20 + d * 2 ^ 15 + f * 2 ^ 12 + offset / 4 * 4 + bit_and offset 2
                ≡ at =
              omega (arith, bit_and-pow 1 offset) in
            rw q (
              rw low (
                omega (
                  arith,
                  byte (phys_to_virt base + at) at (omega arith) (omega arith),
                  byte (phys_to_virt base + at + 1) (at + 1) (omega arith) (omega arith),
                )))
        | inr (inr q) ↦
            let low : b * 2 ^ 20 + d * 2 ^ 15 + f * 2 ^ 12 + offset / 4 * 4 + bit_and offset 3
                ≡ at =
              omega (arith, bit_and-low 2 offset) in
            rw q (rw low (byte (phys_to_virt base + at) at (omega arith) (omega arith)))
      ])
