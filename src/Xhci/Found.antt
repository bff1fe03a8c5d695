-- ===== src/Xhci/Found.antt =====
-- What the searches of the event ring in drivers/usb/xhci.c find, and that they miss nothing.
use oscar_kernel.Common.{
  ℕ, zero, suc, ◌+◌, ◌-◌, ◌*◌, ◌%◌, ◌^◌, ◌≤◌, ◌<◌, ◌≡◌, refl, sym, ap, subst, ◌∙◌, inl, inr, Bool,
  true, false, Option, none, some, ◌==◌, ==_iff, arith, Bool-cases, Option-cases,
}
use mathlib.Core.Option.{none-ne-some, some-injective}
use oscar_kernel.Xhci.{Trb}
use oscar_kernel.Xhci.Wait.{
  EventRing, flip, find_trb, below_end, below_erdp, completes, ring_steps, transfer_round,
  xhci_wait_transfer_completion, found_or,
}

module _ (inside : ℕ → Bool) (test : Trb → Bool) (trbs : ℕ → Trb) where
  find_trb_sound :
      (steps start a : ℕ)
      → find_trb steps inside test trbs start ≡ some a
      → (i : ℕ) × (a ≡ start + 16 * i) × (inside a ≡ true) × (test (trbs a) ≡ true)
  unfolding find_trb
  find_trb_sound zero start a r = absurd (none-ne-some a r)
  find_trb_sound (suc steps) start a r = elim (Bool-cases (inside start)) [
    | inr n ↦ absurd (none-ne-some a (rw n at r))
    | inl y ↦ elim (Bool-cases (test (trbs start))) [
      | inl t ↦
          let e = some-injective start a (rw (y, t) at r) in
          (
            0,
            sym e ∙ omega arith,
            subst (λ x. inside x ≡ true) e y,
            subst (λ x. test (trbs x) ≡ true) e t,
          )
      | inr f ↦
          let (i, e, y', t) = find_trb_sound steps (start + 16) a (rw (y, f) at r) in
          (suc i, omega (arith, e), y', t)
    ]
  ]

  inside_before :
      (start i : ℕ)
      → ((x : ℕ) → inside (x + 16) ≡ true → inside x ≡ true)
      → inside (start + 16 * i) ≡ true
      → inside start ≡ true
  inside_before start zero down y = ap inside (omega arith) ∙ y
  inside_before start (suc i) down y =
      down start (inside_before (start + 16) i down (ap inside (omega arith) ∙ y))

  find_trb_complete :
      (steps start i : ℕ)
      → find_trb steps inside test trbs start ≡ none
      → ((x : ℕ) → inside (x + 16) ≡ true → inside x ≡ true)
      → i < steps
      → inside (start + 16 * i) ≡ true
      → test (trbs (start + 16 * i)) ≡ false
  unfolding find_trb
  find_trb_complete zero start i r down h y = absurd (omega arith)
  find_trb_complete (suc steps) start zero r down h y =
      let here = inside_before start 0 down y in
      elim (Bool-cases (test (trbs start))) [
        | inl t ↦ absurd (none-ne-some start (sym (rw (here, t) at r)))
        | inr f ↦ ap (λ x. test (trbs x)) (omega arith) ∙ f
      ]
  find_trb_complete (suc steps) start (suc i) r down h y =
      let here = inside_before start (suc i) down y in
      let same : start + 16 * suc i ≡ start + 16 + 16 * i = omega arith in
      elim (Bool-cases (test (trbs start))) [
        | inl t ↦ absurd (none-ne-some start (sym (rw (here, t) at r)))
        | inr f ↦
            ap (λ x. test (trbs x)) same
            ∙ find_trb_complete steps (start + 16) i (rw (here, f) at r) down (omega arith)
                (ap inside (sym same) ∙ y)
      ]

-- A block of the ring that completes the transfer whose block is at `pointer`: from the dequeue
-- pointer on it has the cycle bit of the software's state, before the dequeue pointer the other one.
pub data IsAnswer (ring : EventRing) (pointer : ℕ) (trbs : ℕ → Trb) : ℕ → Type 0 where
  ahead :
      (i : ℕ)
      → ring.erdp + 16 * i < ring.ring_segment_base_addr + ring.event_ring_size
      → (trbs (ring.erdp + 16 * i)).c ≡ ring.event_ring_ccs % 2
      → (trbs (ring.erdp + 16 * i)).trb_type ≡ 32
      → (trbs (ring.erdp + 16 * i)).parameter ≡ pointer
      → IsAnswer ring pointer trbs (ring.erdp + 16 * i)
  behind :
      (i : ℕ)
      → ring.ring_segment_base_addr + 16 * i + 16 ≤ ring.erdp
      → (trbs (ring.ring_segment_base_addr + 16 * i)).c ≡ 1 - ring.event_ring_ccs % 2
      → (trbs (ring.ring_segment_base_addr + 16 * i)).trb_type ≡ 32
      → (trbs (ring.ring_segment_base_addr + 16 * i)).parameter ≡ pointer
      → IsAnswer ring pointer trbs (ring.ring_segment_base_addr + 16 * i)

-- The dequeue pointer is in the ring, which does not lie at the ends of the memory.
abbrev pub IsPlaced : EventRing → Type 0
IsPlaced ring =
    (16 ≤ ring.ring_segment_base_addr)
    × (ring.ring_segment_base_addr ≤ ring.erdp)
    × (ring.erdp ≤ ring.ring_segment_base_addr + ring.event_ring_size)
    × (ring.ring_segment_base_addr + ring.event_ring_size < 2 ^ 64)

event_tests :
    (ccs pointer : ℕ) (trb : Trb)
    → completes ccs pointer trb ≡ true
    → (trb.c ≡ ccs % 2) × (trb.trb_type ≡ 32) × (trb.parameter ≡ pointer)
event_tests ccs pointer trb h = ground arith

round_sound :
    (ring : EventRing) (pointer : ℕ) (trbs : ℕ → Trb) (a : ℕ)
    → IsPlaced ring
    → transfer_round ring pointer trbs ≡ some a
    → IsAnswer ring pointer trbs a
unfolding transfer_round
round_sound ring pointer trbs a (low, from, to, high) r =
    let first =
      find_trb (ring_steps ring) (below_end ring) (completes ring.event_ring_ccs pointer) trbs
        ring.erdp in
    elim (Option-cases first) [
      | inr (b, q) ↦
          let (i, e, y, t) =
            find_trb_sound (below_end ring) (completes ring.event_ring_ccs pointer) trbs
              (ring_steps ring) ring.erdp b q in
          let (c, k, p) = event_tests ring.event_ring_ccs pointer (trbs b) t in
          subst (IsAnswer ring pointer trbs) (some-injective b a (rw q at r)) (
            subst (IsAnswer ring pointer trbs) (sym e) (
              ahead i (ground (arith, e, y)) (ap (λ x. (trbs x).c) (sym e) ∙ c)
                (ap (λ x. (trbs x).trb_type) (sym e) ∙ k)
                (ap (λ x. (trbs x).parameter) (sym e) ∙ p)))
      | inl q ↦
          let (i, e, y, t) =
            find_trb_sound (below_erdp ring) (completes (flip ring.event_ring_ccs) pointer) trbs
              (ring_steps ring) ring.ring_segment_base_addr a (rw q at r) in
          let (c, k, p) = event_tests (flip ring.event_ring_ccs) pointer (trbs a) t in
          subst (IsAnswer ring pointer trbs) (sym e) (
            behind i (ground (arith, e, y)) (ap (λ x. (trbs x).c) (sym e) ∙ c ∙ omega arith)
              (ap (λ x. (trbs x).trb_type) (sym e) ∙ k) (ap (λ x. (trbs x).parameter) (sym e) ∙ p))
    ]

round_complete :
    (ring : EventRing) (pointer : ℕ) (trbs : ℕ → Trb) (a : ℕ)
    → IsPlaced ring
    → transfer_round ring pointer trbs ≡ none
    → ¬ (IsAnswer ring pointer trbs a)
unfolding transfer_round
round_complete ring pointer trbs _ (low, from, to, high) r (ahead i h c k p) =
    let first =
      find_trb (ring_steps ring) (below_end ring) (completes ring.event_ring_ccs pointer) trbs
        ring.erdp in
    elim (Option-cases first) [
      | inr (b, q) ↦ absurd (none-ne-some b (sym (rw q at r)))
      | inl q ↦
          let miss =
            find_trb_complete (below_end ring) (completes ring.event_ring_ccs pointer) trbs
              (ring_steps ring) ring.erdp i q (λ x y. ground arith) (omega arith) (ground arith) in
          ground (arith, miss, c, k, p)
    ]
round_complete ring pointer trbs _ (low, from, to, high) r (behind i h c k p) =
    let first =
      find_trb (ring_steps ring) (below_end ring) (completes ring.event_ring_ccs pointer) trbs
        ring.erdp in
    elim (Option-cases first) [
      | inr (b, q) ↦ absurd (none-ne-some b (sym (rw q at r)))
      | inl q ↦
          let miss =
            find_trb_complete (below_erdp ring) (completes (flip ring.event_ring_ccs) pointer) trbs
              (ring_steps ring) ring.ring_segment_base_addr i (rw q at r) (λ x y. ground arith)
              (omega arith) (ground arith) in
          ground (arith, miss, c, k, p)
    ]

-- What a wait of some rounds may report: a round and an answer in it; or that no round had one.
unfoldable pub IsReport : ℕ → EventRing → ℕ → (ℕ → ℕ → Trb) → Option (ℕ × ℕ) → Type 0
IsReport rounds ring pointer trbs none =
    (round a : ℕ) → round < rounds → ¬ (IsAnswer ring pointer (trbs round) a)
IsReport rounds ring pointer trbs (some (round, a)) =
    (round < rounds) × IsAnswer ring pointer (trbs round) a

later-IsReport :
    (rounds : ℕ) (ring : EventRing) (pointer : ℕ) (trbs : ℕ → ℕ → Trb) (o : Option (ℕ × ℕ))
    → ((a : ℕ) → ¬ (IsAnswer ring pointer (trbs rounds) a))
    → IsReport rounds ring pointer trbs o
    → IsReport (suc rounds) ring pointer trbs o
unfolding IsReport
later-IsReport rounds ring pointer trbs none absent report = λ round a h answer.
    elim (Bool-cases (round == rounds)) [
      | inl q ↦
          absent a
            (subst (λ n. IsAnswer ring pointer (trbs n) a) ((==_iff round rounds).0 q) answer)
      | inr q ↦ report round a (ground arith) answer
    ]
later-IsReport rounds ring pointer trbs (some (round, a)) absent report =
    (omega (arith, report.0), report.1)

round-IsReport :
    (rounds : ℕ) (ring : EventRing) (pointer : ℕ) (trbs : ℕ → ℕ → Trb) (o : Option ℕ)
    (later : Option (ℕ × ℕ))
    → IsPlaced ring
    → transfer_round ring pointer (trbs rounds) ≡ o
    → IsReport rounds ring pointer trbs later
    → IsReport (suc rounds) ring pointer trbs (found_or o rounds later)
unfolding IsReport
round-IsReport rounds ring pointer trbs none later placed q report =
    later-IsReport rounds ring pointer trbs later
      (λ a. round_complete ring pointer (trbs rounds) a placed q) report
round-IsReport rounds ring pointer trbs (some a) later placed q report =
    (omega arith, round_sound ring pointer (trbs rounds) a placed q)

-- With the dequeue pointer in the ring, and the ring not at the ends of the memory,
-- `xhci_wait_transfer_completion` reports a block that completes the transfer, from the dequeue pointer
-- on under the software's cycle state and before it under the other, in one of its rounds; it reports
-- none only if in none of the rounds the ring had such a block.
pub wait_transfer-IsReport :
    (rounds : ℕ) (ring : EventRing) (pointer : ℕ) (trbs : ℕ → ℕ → Trb)
    → IsPlaced ring
    → IsReport rounds ring pointer trbs (xhci_wait_transfer_completion rounds ring pointer trbs)
unfolding IsReport xhci_wait_transfer_completion
wait_transfer-IsReport zero ring pointer trbs placed = λ round a h. absurd (omega arith)
wait_transfer-IsReport (suc rounds) ring pointer trbs placed =
    round-IsReport rounds ring pointer trbs (transfer_round ring pointer (trbs rounds))
      (xhci_wait_transfer_completion rounds ring pointer trbs) placed refl
      (wait_transfer-IsReport rounds ring pointer trbs placed)
