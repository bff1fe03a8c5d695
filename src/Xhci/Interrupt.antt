-- ===== src/Xhci/Interrupt.antt =====
-- What `xhci_intr` of drivers/usb/xhci.c handles, and where it leaves the event ring.
use oscar_kernel.Common.{
  ℕ, zero, suc, ◌+◌, ◌-◌, ◌*◌, ◌^◌, ◌<◌, ◌≡◌, ◌≢◌, refl, ap, subst, ◌∙◌, bit_or, true, false, List,
  [], ◌∷◌, ==_ne, arith, length,
}
use oscar_kernel.Xhci.{Trb}
use oscar_kernel.Xhci.Wait.{EventRing, below_end, has_cycle}
use oscar_kernel.Xhci.Event.{Handlers, xhci_handle_event, event_loop, xhci_intr, handle_all}

-- The events stand one after the other from an address on, with the cycle state, and are followed by a
-- block with another.
abbrev pub IsRun : List Trb → (ℕ → Trb) → ℕ → ℕ → Type 0
IsRun [] trbs address ccs = (has_cycle ccs (trbs address)) ≡ false
IsRun (event ∷ events) trbs address ccs =
    (trbs address ≡ event) × (has_cycle ccs event ≡ true) × IsRun events trbs (address + 16) ccs

abbrev pub IsStretch : List Trb → (ℕ → Trb) → ℕ → ℕ → Type 0
IsStretch [] trbs address ccs = Unit
IsStretch (event ∷ events) trbs address ccs =
    (trbs address ≡ event) × (has_cycle ccs event ≡ true) × IsStretch events trbs (address + 16) ccs

module _ {ℓ} {S : Type ℓ} (handlers : Handlers S) (ring : EventRing) (trbs : ℕ → Trb) where
  loop-run :
      (events : List Trb) (fuel last_erdp erdp i ccs : ℕ) (s : S)
      → IsRun events trbs (erdp + 16 * i) ccs
      → erdp + 16 ≢ last_erdp
      → length events < fuel
      → erdp + 16 * i + 16 * length events < ring.ring_segment_base_addr + ring.event_ring_size
      → event_loop handlers fuel ring trbs last_erdp erdp i ccs s
        ≡ (erdp + 16 * (i + length events), ccs, handle_all handlers events s)
  unfolding event_loop handle_all
  loop-run events zero last_erdp erdp i ccs s run go enough room = absurd (omega arith)
  loop-run [] (suc fuel) last_erdp erdp i ccs s run go enough room =
      let inside : below_end ring (erdp + 16 * i) ≡ true = ground arith in
      rw (==_ne (erdp + 16) last_erdp go)
        (rw inside (rw run (ap (λ (t : ℕ). (t, ccs, s)) (omega arith))))
  loop-run (event ∷ events) (suc fuel) last_erdp erdp i ccs s (at, cycle, run) go enough room =
      let inside : below_end ring (erdp + 16 * i) ≡ true = ground arith in
      let here : has_cycle ccs (trbs (erdp + 16 * i)) ≡ true = ap (has_cycle ccs) at ∙ cycle in
      rw (==_ne (erdp + 16) last_erdp go) (
        rw inside (
          rw here (
            ap
              (λ (t : Trb).
                event_loop handlers fuel ring trbs last_erdp erdp (i + 1) ccs
                  (xhci_handle_event handlers t s))
              at
            ∙ loop-run events fuel last_erdp erdp (i + 1) ccs (xhci_handle_event handlers event s)
                (subst (λ a. IsRun events trbs a ccs) (omega arith) run) go (omega arith)
                (omega arith)
            ∙ ap
                (λ (t : ℕ).
                  (t, ccs, handle_all handlers events (xhci_handle_event handlers event s)))
                (omega arith))))

  -- The loop over events that reach the end of the ring goes on at its base.
  loop-to_end :
      (events : List Trb) (fuel last_erdp erdp i ccs : ℕ) (s : S)
      → IsStretch events trbs (erdp + 16 * i) ccs
      → erdp + 16 ≢ last_erdp
      → length events < fuel
      → erdp + 16 * i + 16 * length events ≡ ring.ring_segment_base_addr + ring.event_ring_size
      → event_loop handlers fuel ring trbs last_erdp erdp i ccs s
        ≡ event_loop handlers
            (fuel - length events - 1)
            ring
            trbs
            last_erdp
            ring.ring_segment_base_addr
            0
            (2 ^ 64 - 1 - ccs)
            (handle_all handlers events s)
  unfolding event_loop handle_all
  loop-to_end events zero last_erdp erdp i ccs s stretch go enough end = absurd (omega arith)
  loop-to_end [] (suc fuel) last_erdp erdp i ccs s stretch go enough end =
      let outside : below_end ring (erdp + 16 * i) ≡ false = ground arith in
      rw (==_ne (erdp + 16) last_erdp go) (
        rw outside (
          ap
            (λ (f : ℕ).
              event_loop handlers f ring trbs last_erdp ring.ring_segment_base_addr 0
                (2 ^ 64 - 1 - ccs) s)
            (omega arith)))
  loop-to_end (event ∷ events) (suc fuel) last_erdp erdp i ccs s (at, cycle, stretch) go enough
        end =
      let inside : below_end ring (erdp + 16 * i) ≡ true = ground arith in
      let here : has_cycle ccs (trbs (erdp + 16 * i)) ≡ true = ap (has_cycle ccs) at ∙ cycle in
      rw (==_ne (erdp + 16) last_erdp go) (
        rw inside (
          rw here (
            ap
              (λ (t : Trb).
                event_loop handlers fuel ring trbs last_erdp erdp (i + 1) ccs
                  (xhci_handle_event handlers t s))
              at
            ∙ loop-to_end events fuel last_erdp erdp (i + 1) ccs
                (xhci_handle_event handlers event s)
                (subst (λ a. IsStretch events trbs a ccs) (omega arith) stretch) go (omega arith)
                (omega arith)
            ∙ ap
                (λ (f : ℕ).
                  event_loop handlers f ring trbs last_erdp ring.ring_segment_base_addr 0
                    (2 ^ 64 - 1 - ccs)
                    (handle_all handlers events (xhci_handle_event handlers event s)))
                (omega arith))))

  -- Where events with the cycle state stand from the dequeue pointer on, a block with another follows
  -- them and the ring goes on behind it, `xhci_intr` handles exactly these events in their order, moves
  -- the dequeue pointer to the block behind them, writes it to the register and keeps the cycle state,
  -- with fuel above their number.
  pub xhci_intr-run :
      (events : List Trb) (fuel : ℕ) (s : S)
      → IsRun events trbs ring.erdp ring.event_ring_ccs
      → length events < fuel
      → ring.erdp + 16 * length events < ring.ring_segment_base_addr + ring.event_ring_size
      → xhci_intr handlers fuel ring trbs s ≡ (
        record ring { erdp = ring.erdp + 16 * length events },
        bit_or (ring.erdp + 16 * length events) 8,
        handle_all handlers events s,
      )
  unfolding xhci_intr
  xhci_intr-run events fuel s run enough room =
      let same : 0 + length events ≡ length events = omega arith in
      rw
        (loop-run events fuel ring.erdp ring.erdp 0 ring.event_ring_ccs s
          (subst (λ a. IsRun events trbs a ring.event_ring_ccs) (omega arith) run) (omega arith)
          enough (omega arith))
        (rw same refl)

  -- Where events with the cycle state stand from the dequeue pointer to the end of the ring, events with
  -- the other cycle state from its base on, followed by a block with another in the ring, and the
  -- dequeue pointer is not the second block, `xhci_intr` handles the first events and then the others,
  -- each once and in their order, moves the dequeue pointer behind the last of them and turns the cycle
  -- state over, with fuel above their number and one.
  pub xhci_intr-wrap :
      (events others : List Trb) (fuel : ℕ) (s : S)
      → IsStretch events trbs ring.erdp ring.event_ring_ccs
      → ring.erdp + 16 * length events ≡ ring.ring_segment_base_addr + ring.event_ring_size
      → ring.ring_segment_base_addr + 16 ≢ ring.erdp
      → IsRun others trbs ring.ring_segment_base_addr (2 ^ 64 - 1 - ring.event_ring_ccs)
      → 16 * length others < ring.event_ring_size
      → length events + length others + 1 < fuel
      → xhci_intr handlers fuel ring trbs s ≡ (
        record ring {
          erdp = ring.ring_segment_base_addr + 16 * length others;
          event_ring_ccs = 2 ^ 64 - 1 - ring.event_ring_ccs;
        },
        bit_or (ring.ring_segment_base_addr + 16 * length others) 8,
        handle_all handlers others (handle_all handlers events s),
      )
  unfolding xhci_intr
  xhci_intr-wrap events others fuel s stretch full other_start run room enough =
      let base = ring.ring_segment_base_addr in
      let flipped = 2 ^ 64 - 1 - ring.event_ring_ccs in
      let whole =
        loop-to_end events fuel ring.erdp ring.erdp 0 ring.event_ring_ccs s
          (subst (λ a. IsStretch events trbs a ring.event_ring_ccs) (omega arith) stretch)
          (omega arith) (omega arith) (omega (arith, full))
        ∙ loop-run others (fuel - length events - 1) ring.erdp base 0 flipped
            (handle_all handlers events s)
            (subst (λ a. IsRun others trbs a flipped) (omega arith) run) other_start (omega arith)
            (omega arith) in
      let same : 0 + length others ≡ length others = omega arith in rw whole (rw same refl)
