-- ===== src/Xhci.antt =====
-- drivers/usb/xhci.c with the structures of drivers/usb/xhci.h: the command ring, the transfer rings,
-- and the transfers put on them. A transfer request block (TRB) is read through `struct
-- trb_template`; the other structures of 16 bytes are views of the same words. A ring is a function
-- from indices to blocks. Writes to doorbells are logged; the messages are left out.
pub mod Cycle
pub mod Ring
pub mod Command
pub mod Transfer
pub mod Stages
pub mod Control
pub mod Wait
pub mod Found
pub mod Event
pub mod Interrupt
pub mod Tests
use oscar_kernel.Common.{
  ℕ, ◌+◌, ◌-◌, ◌*◌, ◌/◌, ◌%◌, ◌^◌, Bool, true, false, List, [], ◌∷◌, ◌==◌, ltb, if◌then◌else◌,
}
use oscar_kernel.Bootmem.{virt_to_phys}

-- `struct trb_template`; `reserved1` are the eight bits between `ent` and `trb_type`, where a transfer
-- block has its flags.
pub record Trb : Type 0 where
  pub parameter : ℕ
  pub status : ℕ
  pub c : ℕ
  pub ent : ℕ
  pub reserved1 : ℕ
  pub trb_type : ℕ
  pub control : ℕ

abbrev pub trb_link : ℕ
trb_link = 6

-- `memset(&trb, 0, 16)`.
abbrev pub zero_trb : Trb
zero_trb = record {
  parameter = 0;
  status = 0;
  c = 0;
  ent = 0;
  reserved1 = 0;
  trb_type = 0;
  control = 0;
}

-- `struct link_trb`: `tc` lies where `ent` does.
abbrev pub link_trb : ℕ → ℕ → ℕ → Trb
link_trb pointer cycle tc = record zero_trb {
  parameter = pointer;
  c = cycle;
  ent = tc;
  trb_type = trb_link;
}

abbrev pub with_cycle : Trb → ℕ → Trb
with_cycle trb cycle = record trb { c = cycle }

abbrev pub write_trb : (ℕ → Trb) → ℕ → Trb → ℕ → Trb
write_trb ring index trb i = if i == index then trb else ring i

-- `struct transfer_ring_status`, with the blocks that its base points to.
pub record TransferRing : Type 0 where
  pub transfer_ring_base : ℕ
  pub trbs : ℕ → Trb
  pub enquene_pointer : ℕ
  pub dcs : ℕ

-- The link at the last of the 256 blocks, and the change of the cycle state with it.
unfoldable pub wrap_transfer_ring : TransferRing → TransferRing
wrap_transfer_ring ring =
    if ring.enquene_pointer == 255
    then record ring {
      trbs = write_trb ring.trbs 255 (link_trb (virt_to_phys ring.transfer_ring_base) ring.dcs 1);
      enquene_pointer = 0;
      dcs = (2 ^ 32 - 1 - ring.dcs) % 2;
    }
    else ring

-- `xhci_insert_transfer_trb` on the ring that it looks up: the ring after it, and the physical address
-- of the block.
unfoldable pub insert_transfer_trb : TransferRing → Trb → TransferRing × ℕ
unfolding wrap_transfer_ring
insert_transfer_trb ring trb_in =
    let start = wrap_transfer_ring ring in
    let index = start.enquene_pointer in
    (
      record start {
        trbs = write_trb start.trbs index (with_cycle trb_in start.dcs);
        enquene_pointer = index + 1;
      },
      virt_to_phys (start.transfer_ring_base + 16 * index),
    )

-- The command ring of `struct xhci`; `cmd_ring_size` is in bytes.
pub record CommandRing : Type 0 where
  pub cmd_ring : ℕ
  pub commands : ℕ → Trb
  pub cmd_ring_size : ℕ
  pub cmd_ring_enqueue_ptr : ℕ
  pub cmd_ring_dcs : ℕ

unfoldable pub wrap_command_ring : CommandRing → CommandRing
wrap_command_ring ring =
    if ring.cmd_ring_enqueue_ptr == (ring.cmd_ring_size / 16 + 2 ^ 64 - 1) % 2 ^ 64
    then record ring {
      commands =
          write_trb ring.commands ring.cmd_ring_enqueue_ptr
            (link_trb (virt_to_phys ring.cmd_ring) ring.cmd_ring_dcs 0);
      cmd_ring_enqueue_ptr = 0;
    }
    else ring

-- The ring after it, and the index of the command.
unfoldable pub xhci_cmd_ring_insert : CommandRing → Trb → CommandRing × ℕ
unfolding wrap_command_ring
xhci_cmd_ring_insert ring cmd =
    let start = wrap_command_ring ring in
    let index = start.cmd_ring_enqueue_ptr in
    (
      record start {
        commands =
            write_trb (write_trb start.commands index (with_cycle cmd start.cmd_ring_dcs))
              (index + 1) zero_trb;
        cmd_ring_enqueue_ptr = index + 1;
      },
      index,
    )

-- The rings as `xhci_probe` and `xhci_address_device` set them up.
abbrev pub new_transfer_ring : ℕ → TransferRing
new_transfer_ring base = record {
  transfer_ring_base = base;
  trbs = λ i. zero_trb;
  enquene_pointer = 0;
  dcs = 1;
}

abbrev pub new_command_ring : ℕ → CommandRing
new_command_ring base = record {
  cmd_ring = base;
  commands = λ i. zero_trb;
  cmd_ring_size = 0x1000;
  cmd_ring_enqueue_ptr = 0;
  cmd_ring_dcs = 1;
}
