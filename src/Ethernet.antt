-- ===== src/Ethernet.antt =====
-- The transmit rings of drivers/ethernet/intel/x550.c: what `tx_init` makes of a queue, and
-- `packet_transmit`. A value written to a register of the card is kept in `written`.
pub mod Transmit
pub mod Rings
pub mod Receive
pub mod Interrupt
pub mod Tests
use oscar_kernel.Common.{
  ℕ, ◌+◌, ◌*◌, ◌/◌, ◌%◌, ◌^◌, bit_or, List, [], ◌∷◌, Store, update, ◌==◌, if◌then◌else◌,
}
use oscar_kernel.Common.Loops.{for_range}
use oscar_kernel.Bootmem.{virt_to_phys}

-- The part `read` of `union ixgbe_adv_tx_desc`.
pub record TxDesc : Type 0 where
  pub buffer_addr : ℕ
  pub cmd_type_len : ℕ
  pub olinfo_status : ℕ

pub record TxQueue : Type 0 where
  pub tx_desc_ring : ℕ → TxDesc
  pub size : ℕ
  pub tail : ℕ
  pub head : ℕ

-- The part `read` of `union ixgbe_adv_rx_desc`.
pub record RxDesc : Type 0 where
  pub pkt_addr : ℕ
  pub hdr_addr : ℕ

pub record RxQueue : Type 0 where
  pub rx_desc_ring : ℕ → RxDesc
  pub size : ℕ
  pub tail : ℕ
  pub head : ℕ

pub record Statistic : Type 0 where
  pub tx_packets : ℕ
  pub tx_bytes : ℕ
  pub rx_packets : ℕ
  pub rx_bytes : ℕ

pub record Hw : Type 0 where
  pub tx_queue : ℕ → TxQueue
  pub rx_queue : ℕ → RxQueue
  pub statistic : Statistic
  pub mac_addr : Store
  pub written : Store

-- `IXGBE_TDT(i)`.
abbrev pub tdt : ℕ → ℕ
tdt i = 0x06018 + i * 0x40

abbrev pub set_tx : (ℕ → TxQueue) → ℕ → TxQueue → ℕ → TxQueue
set_tx queues i queue k = if k == i then queue else queues k

-- The queue that `tx_init` makes, with its memory zeroed.
abbrev pub new_tx_queue : TxQueue
new_tx_queue = record {
  tx_desc_ring = λ k. record { buffer_addr = 0; cmd_type_len = 0; olinfo_status = 0 };
  size = 0x1000;
  tail = 0;
  head = 0;
}

-- The descriptor of a packet: the buffer, the command bits and the length.
abbrev pub packet_desc : ℕ → ℕ → TxDesc
packet_desc buffer len = record {
  buffer_addr = virt_to_phys buffer;
  cmd_type_len = bit_or (bit_or (0xb * 2 ^ 24) (36 * 2 ^ 16)) len;
  olinfo_status = 0;
}

-- The registers of queue `i`: the address of its ring, its length, its head and its control.
abbrev pub tdbal : ℕ → ℕ
tdbal i = 0x06000 + i * 0x40

abbrev pub tdbah : ℕ → ℕ
tdbah i = 0x06004 + i * 0x40

abbrev pub tdlen : ℕ → ℕ
tdlen i = 0x06008 + i * 0x40

abbrev pub tdh : ℕ → ℕ
tdh i = 0x06010 + i * 0x40

abbrev pub txdctl : ℕ → ℕ
txdctl i = 0x06028 + i * 0x40

abbrev pub write_reg : Hw → ℕ → ℕ → Hw
write_reg hw reg value = record hw { written = update hw.written reg (value % 2 ^ 32) }

-- One round of the loop of `tx_init`, whose ring is at address `ring`.
unfoldable pub init_tx_queue : ℕ → ℕ → Hw → Hw
init_tx_queue ring i hw =
    let made = record hw { tx_queue = set_tx hw.tx_queue i new_tx_queue } in
    let low = write_reg made (tdbal i) (virt_to_phys ring) in
    let high = write_reg low (tdbah i) (virt_to_phys ring / 2 ^ 32) in
    let sized = write_reg high (tdlen i) 0x1000 in
    let headed = write_reg sized (tdh i) 0 in
    let enabled = write_reg headed (txdctl i) 0x2000000 in write_reg enabled (tdt i) 0

-- `rings` are the addresses that `kmalloc` answers, `read` what the card answers for a register.
unfoldable pub tx_init : (ℕ → ℕ) → (ℕ → ℕ) → Hw → Hw
tx_init read rings hw =
    let before = write_reg hw 0x04240 (read 0x04240) in
    let made = for_range 128 0 (λ i h. init_tx_queue (rings i) i h) before in
    write_reg made 0x04A80 (bit_or (read 0x04A80) 1)

unfoldable pub packet_transmit : Hw → ℕ → ℕ → Hw
packet_transmit hw buffer len =
    let queue = hw.tx_queue 63 in
    let tail = (queue.tail + 1) % (queue.size / 16) in
    let sent = record queue {
      tx_desc_ring = λ k. if k == queue.tail then packet_desc buffer len else queue.tx_desc_ring k;
      tail = tail;
    } in
    record hw {
      tx_queue = set_tx hw.tx_queue 63 sent;
      written = update hw.written (tdt 63) (tail % 2 ^ 32);
    }
