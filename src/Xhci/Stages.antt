-- ===== src/Xhci/Stages.antt =====
-- The stages of a USB control transfer, as the controller of drivers/usb/xhci.c takes them from the blocks, and
-- as a urb asks for them.
use oscar_kernel.Common.{
  ℕ, ◌+◌, ◌*◌, ◌/◌, ◌%◌, ◌^◌, ◌<◌, ◌≡◌, Bool, true, not, ◌&&◌, List, [], ◌∷◌, ◌==◌, if◌then◌else◌,
  arith,
}
use oscar_kernel.Xhci.{Trb}
use oscar_kernel.Common.Bits.{digit}
use oscar_kernel.Bootmem.{virt_to_phys}
use oscar_kernel.Xhci.Transfer.{Request, Urb}

-- The controller's side of a control transfer: the stage that a block asks for, from the fields that its
-- documentation has for it. A setup stage has the eight bytes of the request in the block, and the kind
-- of the data stage behind it: none, out or in; `told` is an interrupt at completion.
pub data Stage : Type 0 where
  setup_stage : (request : Request) (data_kind : ℕ) → Stage
  data_stage : (address len : ℕ) (into : Bool) (told : Bool) → Stage
  status_stage : (into : Bool) (told : Bool) → Stage
  no_stage : Stage

unfoldable pub stage : Trb → Stage
stage trb =
    let p = trb.parameter in
    let into = trb.control % 2 == 1 in
    let told = trb.reserved1 / 2 ^ 3 % 2 == 1 in
    let immediate = (trb.reserved1 / 2 ^ 4 % 2 == 1) && (trb.status % 2 ^ 17 == 8) in
    if (trb.trb_type == 2) && immediate
    then setup_stage
        (record {
          request_type = p % 2 ^ 8;
          request = p / 2 ^ 8 % 2 ^ 8;
          w_value = p / 2 ^ 16 % 2 ^ 16;
          w_index = p / 2 ^ 32 % 2 ^ 16;
          w_length = p / 2 ^ 48 % 2 ^ 16;
        })
        (trb.control % 4)
    else if trb.trb_type == 3
    then data_stage p (trb.status % 2 ^ 17) into told
    else if trb.trb_type == 4
    then status_stage into told
    else no_stage

-- The request of a urb, whose fields have the widths of the wire.
pub record IsRequest (r : Request) : Type 0 where
  pub request_type : r.request_type < 2 ^ 8
  pub request : r.request < 2 ^ 8
  pub w_value : r.w_value < 2 ^ 16
  pub w_index : r.w_index < 2 ^ 16
  pub w_length : r.w_length < 2 ^ 16

-- What a control transfer is, by its documentation: the request, then the data in the direction of the
-- pipe if there are any, then the status in the other direction. Bit 31 of the pipe is its direction.
unfoldable pub stages_of : Urb → List Stage
stages_of urb =
    let into = digit 31 urb.pipe == 1 in
    let status = status_stage (not into) true in
    if urb.setup_packet.w_length == 0
    then setup_stage urb.setup_packet 0 ∷ status ∷ []
    else setup_stage urb.setup_packet (if into then 3 else 2)
      ∷ data_stage (virt_to_phys urb.transfer_buffer) urb.setup_packet.w_length into true
      ∷ status
      ∷ []

-- The bytes of a request in the word of its block.
abbrev pub request_word : Request → ℕ
request_word r =
    r.request_type
    + r.request * 2 ^ 8
    + r.w_value * 2 ^ 16
    + r.w_index * 2 ^ 32
    + r.w_length * 2 ^ 48

pub word_fields :
    (r : Request)
    → IsRequest r
    → (request_word r % 2 ^ 8 ≡ r.request_type)
      × (request_word r / 2 ^ 8 % 2 ^ 8 ≡ r.request)
      × (request_word r / 2 ^ 16 % 2 ^ 16 ≡ r.w_value)
      × (request_word r / 2 ^ 32 % 2 ^ 16 ≡ r.w_index)
      × (request_word r / 2 ^ 48 % 2 ^ 16 ≡ r.w_length)
word_fields r h = (
  omega (arith, h.request_type),
  omega (arith, h.request_type, h.request),
  omega (arith, h.request_type, h.request, h.w_value),
  omega (arith, h.request_type, h.request, h.w_value, h.w_index),
  omega (arith, h.request_type, h.request, h.w_value, h.w_index, h.w_length),
)
