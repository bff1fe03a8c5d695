-- ===== src/Ethernet/Receive.antt =====
-- The receive ring, the hardware address and the interrupt handler of drivers/ethernet/intel/x550.c. `read` is
-- what the card answers for a register. What is printed is not modelled.
use oscar_kernel.Common.{
  ℕ, ◌+◌, ◌-◌, ◌*◌, ◌/◌, ◌%◌, ◌^◌, bit_or, bit_and, bit_xor, update, ◌==◌, if◌then◌else◌, Store,
  ltb,
}
use oscar_kernel.Common.Loops.{for_range}
use oscar_kernel.Bootmem.{virt_to_phys}
use oscar_kernel.Ethernet.{RxDesc, RxQueue, Statistic, Hw, set_tx, write_reg, tdt, tdh}

abbrev pub rdt : ℕ → ℕ
rdt i = if ltb i 64 then 0x01018 + i * 0x40 else 0x0D018 + (i - 64) * 0x40

abbrev pub rdh : ℕ → ℕ
rdh i = if ltb i 64 then 0x01010 + i * 0x40 else 0x0D010 + (i - 64) * 0x40

-- `(u8)(word >> (i * 8))` for the first bytes of the word, into `mac_addr` from `first` on.
abbrev pub take_bytes : ℕ → ℕ → ℕ → Store → Store
take_bytes count first word mac_addr =
    for_range count 0 (λ i mac. update mac (i + first) (word / 2 ^ (i * 8) % 256)) mac_addr

unfoldable pub ixgbe_get_mac_addr_generic : (ℕ → ℕ) → Store → Store
ixgbe_get_mac_addr_generic read mac_addr =
    take_bytes 2 4 (read 0x05404) (take_bytes 4 0 (read 0x05400) mac_addr)

-- Descriptor `j` gets the buffer at `buffers j`.
abbrev pub fill_buffer : (ℕ → ℕ) → ℕ → (ℕ → RxDesc) → ℕ → RxDesc
fill_buffer buffers j ring k =
    let desc = ring k in
    if k == j then record desc { pkt_addr = virt_to_phys (buffers j) } else desc

-- The receive queue that `rx_init` makes, with its memory zeroed before the buffers are entered.
abbrev pub new_rx_queue : (ℕ → ℕ) → RxQueue
new_rx_queue buffers = record {
  rx_desc_ring = for_range 256 0 (fill_buffer buffers) (λ k. record { pkt_addr = 0; hdr_addr = 0 });
  size = 0x1000;
  tail = 0x1000 / 16 - 1;
  head = 0;
}

-- `ring` is the address of the descriptors.
unfoldable pub rx_init : (ℕ → ℕ) → ℕ → (ℕ → ℕ) → Hw → Hw
rx_init read ring buffers hw =
    let plain = write_reg hw 0x00018 0 in
    let filtered = write_reg plain 0x05080 (bit_or (bit_or (bit_or 0x002 0x100) 0x200) 0x400) in
    let vlans = write_reg filtered 0x05088 (bit_xor (read 0x05088) 0x40000000) in
    let made = record vlans {
      rx_queue = λ k. if k == 0 then new_rx_queue buffers else hw.rx_queue k;
    } in
    let low = write_reg made 0x01000 (virt_to_phys ring) in
    let high = write_reg low 0x01004 (virt_to_phys ring / 2 ^ 32) in
    let sized = write_reg high 0x01008 0x1000 in
    let headed = write_reg sized (rdh 0) 0 in
    let enabled = write_reg headed 0x01028 0x2000000 in
    let tailed = write_reg enabled (rdt 0) (new_rx_queue buffers).tail in write_reg tailed 0x03000 1

-- The counters of the card are added to those of the driver.
unfoldable pub count_packets : (ℕ → ℕ) → Statistic → Statistic
count_packets read s = record {
  tx_packets = (s.tx_packets + read 0x087A0) % 2 ^ 64;
  tx_bytes = (s.tx_bytes + (read 0x087A4 + read 0x087A8 * 2 ^ 32)) % 2 ^ 64;
  rx_packets = (s.rx_packets + read 0x02F50) % 2 ^ 64;
  rx_bytes = (s.rx_bytes + (read 0x02F54 + read 0x02F58 * 2 ^ 32)) % 2 ^ 64;
}

abbrev pub refill_rx : (ℕ → ℕ) → RxQueue → RxQueue
refill_rx read queue =
    let seen = record queue { head = read (rdh 0); tail = read (rdt 0) } in
    if seen.head == read (rdt 0)
    then record seen { tail = (seen.head + seen.size / 16) % 2 ^ 64 }
    else seen

-- The handler, called with the driver's state.
unfoldable pub ixgbe_intr : (ℕ → ℕ) → Hw → Hw
ixgbe_intr read hw =
    let queue = refill_rx read (hw.rx_queue 0) in
    let tx = hw.tx_queue 0 in
    let counted = record hw {
      statistic = count_packets read hw.statistic;
      tx_queue = set_tx hw.tx_queue 0 (record tx { head = read (tdh 0); tail = read (tdt 0) });
      rx_queue = λ k. if k == 0 then queue else hw.rx_queue k;
    } in
    if bit_and (read 0x00800) 0xffff == 0
    then hw
    else if read (rdh 0) == read (rdt 0)
    then write_reg counted (rdt 0) queue.tail
    else counted
