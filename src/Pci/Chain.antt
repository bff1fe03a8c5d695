-- ===== src/Pci/Chain.antt =====
-- The list of capabilities that drivers/pci/pci.c walks, and the enable bits behind it.
use oscar_kernel.Common.{
  ℕ, zero, suc, ◌+◌, ◌/◌, ◌^◌, ◌<◌, ◌≡◌, refl, false, some, List, [], ◌∷◌, length, ◌==◌,
  if◌then◌else◌, arith, Bool-cases, inl, inr,
}
use native.Mathlib.Nat.{pow-suc, one-le-pow}
use oscar_kernel.Pci.{walk_capabilities, pci_find_capability, halvings}

module _ {D : Type 0} (rd : D → ℕ → ℕ → ℕ) (wr : D → ℕ → ℕ → ℕ → D) where
  -- The capabilities from `p` on stand at the addresses of the list, and the last one names none.
  unfoldable pub IsChain : D → ℕ → List ℕ → Type 0
  IsChain d p [] = p ≡ 0
  IsChain d p (a ∷ rest) = (p ≡ a) × (0 < a) × IsChain d (rd d (a + 1) 1) rest

  -- The first address of the list whose capability has the id, 0 for none.
  pub first_with : D → ℕ → List ℕ → ℕ
  first_with d id [] = 0
  first_with d id (a ∷ rest) = let next = first_with d id rest in if rd d a 1 == id then a else next

  walk_capabilities-first_with :
      (fuel : ℕ) (d : D) (id p : ℕ) (caps : List ℕ)
      → IsChain d p caps
      → length caps < fuel
      → walk_capabilities rd wr fuel d id p ≡ some (first_with d id caps)
  unfolding walk_capabilities IsChain first_with
  walk_capabilities-first_with zero d id p caps h f = absurd (omega arith)
  walk_capabilities-first_with (suc fuel) d id p [] h f = ground arith
  walk_capabilities-first_with (suc fuel) d id p (a ∷ rest) (e, pos, h) f = rw e (
      rw (walk_capabilities-first_with fuel d id (rd d (a + 1) 1) rest h (omega arith)) (
        let on : (a == 0) ≡ false = ground arith in
        rw on (elim (Bool-cases (rd d a 1 == id)) [ inl m ↦ rw m refl | inr m ↦ rw m refl ])))

  -- On a device whose capability list ends, `pci_find_capability` gives the first capability with the
  -- id, or 0 if there is none, given fuel for one step more than the list is long.
  pub pci_find_capability-first_with :
      (fuel : ℕ) (d : D) (id : ℕ) (caps : List ℕ)
      → IsChain d (rd d 0x34 1) caps
      → length caps < fuel
      → pci_find_capability rd wr fuel d id ≡ some (first_with d id caps)
  unfolding pci_find_capability
  pci_find_capability-first_with fuel d id caps h f =
      walk_capabilities-first_with fuel d id (rd d 0x34 1) caps h f

halvings-zero : (fuel : ℕ) → halvings fuel 0 ≡ 0
unfolding halvings
halvings-zero zero = refl
halvings-zero (suc fuel) = refl

-- The loop of `pci_msi_multiple_enable` halves a power of two once more than its exponent, given fuel
-- for more steps than the exponent.
pub halvings-pow : (fuel k : ℕ) → k < fuel → halvings fuel (2 ^ k) ≡ k + 1
unfolding halvings
halvings-pow zero k h = absurd (omega arith)
halvings-pow (suc fuel) zero h = rw (halvings-zero fuel) refl
halvings-pow (suc fuel) (suc k) h =
    let half : 2 ^ suc k / 2 ≡ 2 ^ k = omega (arith, pow-suc 2 k) in
    let on : (2 ^ suc k == 0) ≡ false = ground (arith, pow-suc 2 k, one-le-pow k 2) in
    rw (half, on, halvings-pow fuel k (omega arith)) (omega arith)
