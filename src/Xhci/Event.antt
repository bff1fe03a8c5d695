-- ===== src/Xhci/Event.antt =====
-- `xhci_intr` and `xhci_handle_event` of drivers/usb/xhci.c. The three handlers are parameters on a
-- state of the caller's, since they reach the whole driver. The pointer that the hardware holds is
-- `erdp` of the ring; the loop is on fuel.
use oscar_kernel.Common.{
  ℕ, zero, suc, ◌+◌, ◌-◌, ◌*◌, ◌^◌, bit_or, List, [], ◌∷◌, ◌==◌, if◌then◌else◌,
}
use oscar_kernel.Xhci.{Trb}
use oscar_kernel.Xhci.Wait.{EventRing, below_end, has_cycle}

pub record Handlers {ℓ} (S : Type ℓ) : Type ℓ where
  pub handle_port_status_change : Trb → S → S
  pub handle_cmd_completion : Trb → S → S
  pub handle_transfer_completion : Trb → S → S

module _ {ℓ} {S : Type ℓ} (handlers : Handlers S) where
  unfoldable pub xhci_handle_event : Trb → S → S
  xhci_handle_event event s =
      if event.trb_type == 34
      then handlers.handle_port_status_change event s
      else if event.trb_type == 33
      then handlers.handle_cmd_completion event s
      else if event.trb_type == 32
      then handlers.handle_transfer_completion event s
      else s

  -- The loop from `erdp` and `i` on, `delta` being `16 * i` in it: the last value of `erdp + delta`,
  -- the cycle state and the handlers' state.
  unfoldable pub event_loop : ℕ → EventRing → (ℕ → Trb) → ℕ → ℕ → ℕ → ℕ → S → ℕ × ℕ × S
  unfolding xhci_handle_event
  event_loop zero ring trbs last_erdp erdp i ccs s = (erdp + 16 * i, ccs, s)
  event_loop (suc fuel) ring trbs last_erdp erdp i ccs s =
      let trb = trbs (erdp + 16 * i) in
      let handled = xhci_handle_event trb s in
      let next = event_loop fuel ring trbs last_erdp erdp (i + 1) ccs handled in
      let wrapped =
        event_loop fuel ring trbs last_erdp ring.ring_segment_base_addr 0 (2 ^ 64 - 1 - ccs) s in
      if erdp + 16 == last_erdp
      then (erdp + 16 * i, ccs, s)
      else if below_end ring (erdp + 16 * i)
      then if has_cycle ccs trb then next else (erdp + 16 * i, ccs, s)
      else wrapped

  -- The ring as the loop leaves it, the value that is written to the register of the dequeue pointer,
  -- with the bit for the handler's end, and the handlers' state.
  unfoldable pub xhci_intr : ℕ → EventRing → (ℕ → Trb) → S → EventRing × ℕ × S
  unfolding event_loop
  xhci_intr fuel ring trbs s =
      let (erdp, ccs, after) =
        event_loop fuel ring trbs ring.erdp ring.erdp 0 ring.event_ring_ccs s in
      (record ring { erdp = erdp; event_ring_ccs = ccs }, bit_or erdp 8, after)

  -- The events, in order.
  unfoldable pub handle_all : List Trb → S → S
  unfolding xhci_handle_event
  handle_all [] s = s
  handle_all (event ∷ events) s = handle_all events (xhci_handle_event event s)
