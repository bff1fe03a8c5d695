-- ===== src/Common/Loops.antt =====
-- Counted loops: `for (i = start; i < start + n; i += step) s = body(i, s)`.
use oscar_kernel.Common.{ℕ, zero, suc, ◌+◌, ◌≤◌, ◌<◌, ◌≡◌, refl, ap, ◌∙◌, arith}

-- The number of rounds left, the index, and the state.
unfoldable pub for_range {ℓ} :
    {State : Type ℓ} → (rounds index : ℕ) → (ℕ → State → State) → State → State
for_range zero index step state = state
for_range (suc rounds) index step state =
    let next = step index state in for_range rounds (index + 1) step next

-- `for (i = n - 1; i >= 0; i--) s = body(i, s)`, with n rounds.
unfoldable pub for_down {ℓ} : {State : Type ℓ} → ℕ → (ℕ → State → State) → State → State
for_down zero step state = state
for_down (suc rounds) step state = let next = step rounds state in for_down rounds step next

-- Loops with bodies that agree on the indices of the loop do the same.
module _ {ℓ} {State : Type ℓ} (one two : ℕ → State → State) where
  pub for_range_ext :
      (k i : ℕ) (s : State)
      → ((c : ℕ) (t : State) → i ≤ c → c < i + k → one c t ≡ two c t)
      → for_range k i one s ≡ for_range k i two s
  unfolding for_range
  for_range_ext zero i s h = refl
  for_range_ext (suc k) i s h =
      for_range_ext k (i + 1) (one i s) (λ c t l u. h c t (omega arith) (omega arith))
      ∙ ap (for_range k (i + 1) two) (h i s (omega arith) (omega arith))

  pub for_down_ext :
      (k : ℕ) (s : State)
      → ((c : ℕ) (t : State) → c < k → one c t ≡ two c t)
      → for_down k one s ≡ for_down k two s
  unfolding for_down
  for_down_ext zero s h = refl
  for_down_ext (suc k) s h =
      for_down_ext k (one k s) (λ c t l. h c t (omega arith))
      ∙ ap (for_down k two) (h k s (omega arith))
