-- ===== src/Xhci/Transfer.antt =====
-- The transfers of drivers/usb/xhci.c: `usb_control_transfer`, `usb_bulk_transfer`, the requests built
-- on them, and `handle_transfer_completion`.
use oscar_kernel.Common.{
  ℕ, ◌+◌, ◌-◌, ◌*◌, ◌%◌, ◌^◌, bit_and, bit_or, Bool, true, false, List, [], ◌∷◌, ◌==◌,
  if◌then◌else◌,
}
use oscar_kernel.Bootmem.{virt_to_phys}
use oscar_kernel.Xhci.{Trb, zero_trb, TransferRing, insert_transfer_trb}

-- `struct usb_ctrlrequest`, and what the transfers use of `struct urb` and its device; a urb is also
-- known by its address.
pub record Request : Type 0 where
  pub request_type : ℕ
  pub request : ℕ
  pub w_value : ℕ
  pub w_index : ℕ
  pub w_length : ℕ

pub record Urb : Type 0 where
  pub address : ℕ
  pub port : ℕ
  pub pipe : ℕ
  pub setup_packet : Request
  pub transfer_buffer : ℕ
  pub transfer_buffer_length : ℕ
  pub complete : ℕ

pub record Inflight : Type 0 where
  pub trb_phys : ℕ
  pub urb : Urb

-- `struct port_status` and what the transfers use of `struct xhci`. A doorbell write is its offset and
-- its value.
pub record PortStatus : Type 0 where
  pub slot_id : ℕ
  pub transfer_ring_status : ℕ → TransferRing

pub record Xhci : Type 0 where
  pub port : ℕ → PortStatus
  pub inflight_transfer_list : List Inflight
  pub doorbells : List (ℕ × ℕ)

abbrev pub set_ring : Xhci → ℕ → ℕ → TransferRing → Xhci
set_ring xhci port endpoint ring = record xhci {
  port = λ p.
      if p == port
      then record (xhci.port p) {
        transfer_ring_status =
            λ e. if e == endpoint then ring else (xhci.port p).transfer_ring_status e;
      }
      else xhci.port p;
}

unfoldable pub xhci_insert_transfer_trb : Xhci → ℕ → ℕ → Trb → Xhci × ℕ
xhci_insert_transfer_trb xhci port endpoint trb_in =
    let (ring, phys) =
      insert_transfer_trb ((xhci.port port).transfer_ring_status endpoint) trb_in in
    (set_ring xhci port endpoint ring, phys)

pub ep_addr_to_dci : ℕ → ℕ
ep_addr_to_dci ep_addr =
    let index = bit_and ep_addr 0x7f * 2 in
    if ep_addr == 0 then 0 else if bit_and ep_addr 0x80 == 0 then index else index + 1

-- `ep_addr_to_dci(endpoint) - 1` of an `int`.
abbrev pub ring_index : ℕ → ℕ
ring_index endpoint = (ep_addr_to_dci endpoint + 2 ^ 32 - 1) % 2 ^ 32

-- The three blocks of a control transfer. `ioc` is bit 3 of `reserved1`, `idt` bit 4; `trt` and `dir`
-- are the low bits of `control`.
abbrev pub is_in : Urb → Bool
is_in urb = if bit_and urb.pipe 0x80000000 == 0 then false else true

abbrev pub setup_trb : Urb → Trb
setup_trb urb =
    let req = urb.setup_packet in
    record zero_trb {
      parameter =
          req.request_type
          + req.request * 2 ^ 8
          + req.w_value * 2 ^ 16
          + req.w_index * 2 ^ 32
          + req.w_length * 2 ^ 48;
      status = 8;
      reserved1 = 16;
      trb_type = 2;
      control =
          if is_in urb
          then if req.w_length == 0 then 0 else 3
          else if req.w_length == 0
          then 0
          else 2;
    }

abbrev pub data_trb : Urb → Trb
data_trb urb = record zero_trb {
  parameter = virt_to_phys urb.transfer_buffer;
  status = urb.setup_packet.w_length;
  reserved1 = 8;
  trb_type = 3;
  control = if is_in urb then 1 else 0;
}

abbrev pub status_trb : Urb → Trb
status_trb urb = record zero_trb {
  reserved1 = 8;
  trb_type = 4;
  control = if is_in urb then 0 else 1;
}

abbrev pub ring_doorbell : Xhci → ℕ → ℕ → Xhci
ring_doorbell xhci offset value = record xhci { doorbells = (offset, value) ∷ xhci.doorbells }

-- Up to the wait, with the address that the wait is for.
unfoldable pub usb_control_transfer : Xhci → Urb → Xhci × ℕ
unfolding xhci_insert_transfer_trb
usb_control_transfer xhci urb =
    let endpoint = bit_and urb.pipe 0xffff in
    let (set_up, p) =
      xhci_insert_transfer_trb xhci urb.port (ring_index endpoint) (setup_trb urb) in
    let (filled, q) =
      xhci_insert_transfer_trb set_up urb.port (ring_index endpoint) (data_trb urb) in
    let sent = if urb.transfer_buffer == 0 then set_up else filled in
    let (done, phys) =
      xhci_insert_transfer_trb sent urb.port (ring_index endpoint) (status_trb urb) in
    (ring_doorbell done ((done.port urb.port).slot_id * 4) (ring_index endpoint), phys)

-- `isp` is bit 0 of `reserved1`.
abbrev pub normal_trb : Urb → Trb
normal_trb urb = record zero_trb {
  parameter = virt_to_phys urb.transfer_buffer;
  status = urb.transfer_buffer_length % 2 ^ 17;
  reserved1 = 9;
  trb_type = 1;
}

unfoldable pub usb_bulk_transfer : Xhci → Urb → Xhci × ℕ
unfolding xhci_insert_transfer_trb
usb_bulk_transfer xhci urb =
    let endpoint = bit_and urb.pipe 0xffff in
    let (sent, phys) =
      xhci_insert_transfer_trb xhci urb.port (ring_index endpoint) (normal_trb urb) in
    let kept = record sent {
      inflight_transfer_list = record { trb_phys = phys; urb = urb } ∷ sent.inflight_transfer_list;
    } in
    (ring_doorbell kept ((kept.port urb.port).slot_id * 4) (ep_addr_to_dci endpoint), phys)

unfoldable pub usb_interrupt_transfer : Xhci → Urb → Xhci × ℕ
usb_interrupt_transfer xhci urb = usb_bulk_transfer xhci urb

-- `usb_get_descriptor`, `usb_set_config` and `usb_set_interface` for a device at a port: the urb that
-- they build at the address that `kmalloc` gave.
abbrev pub descriptor_urb : ℕ → ℕ → ℕ → ℕ → ℕ → ℕ → Urb
descriptor_urb address port descriptor_type descriptor_index buffer len = record {
  address = address;
  port = port;
  pipe = 0x80000001;
  setup_packet = record {
    request_type = 0x80;
    request = 6;
    w_value = bit_or (descriptor_type * 2 ^ 8) descriptor_index % 2 ^ 16;
    w_index = 0;
    w_length = len % 2 ^ 16;
  };
  transfer_buffer = buffer;
  transfer_buffer_length = 0;
  complete = 0;
}

abbrev pub setting_urb : ℕ → ℕ → ℕ → ℕ → Urb
setting_urb address port request value = record {
  address = address;
  port = port;
  pipe = 1;
  setup_packet = record {
    request_type = 0;
    request = request;
    w_value = value % 2 ^ 16;
    w_index = 0;
    w_length = 0;
  };
  transfer_buffer = 0;
  transfer_buffer_length = 0;
  complete = 0;
}

unfoldable pub usb_get_descriptor : Xhci → ℕ → ℕ → ℕ → ℕ → ℕ → ℕ → Xhci × ℕ
usb_get_descriptor xhci address port descriptor_type descriptor_index buffer len =
    usb_control_transfer xhci
      (descriptor_urb address port descriptor_type descriptor_index buffer len)

unfoldable pub usb_set_config : Xhci → ℕ → ℕ → ℕ → Xhci × ℕ
usb_set_config xhci address port configuration =
    usb_control_transfer xhci (setting_urb address port 9 configuration)

unfoldable pub usb_set_interface : Xhci → ℕ → ℕ → ℕ → Xhci × ℕ
usb_set_interface xhci address port interface =
    usb_control_transfer xhci (setting_urb address port 11 interface)

-- The transfers left in the list, and the urbs whose callback is called, in the order of the calls.
-- What a callback does is its own.
unfoldable pub handle_transfer_completion : List Inflight → ℕ → List Inflight × List Urb
handle_transfer_completion [] trb_pointer = ([], [])
handle_transfer_completion (transfer ∷ rest) trb_pointer =
    let (left, called) = handle_transfer_completion rest trb_pointer in
    if transfer.trb_phys == trb_pointer
    then (left, if transfer.urb.complete == 0 then called else transfer.urb ∷ called)
    else (transfer ∷ left, called)
