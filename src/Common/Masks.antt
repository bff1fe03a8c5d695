-- ===== src/Common/Masks.antt =====
-- The masks that split a 64-bit word into a page frame and an offset.
use Prim.Native.Nat.{ℕ, zero, suc, ◌+◌, ◌-◌, ◌*◌, ◌/◌, ◌%◌, ◌^◌, ◌≤◌, ◌<◌, bit_and, bit_or}
use mathlib.Core.Path.{◌≡◌, refl, ap, ◌∙◌}
use native.Mathlib.Omega.{arith}
use native.Mathlib.Nat.{le_refl, mod-eq_of_lt, pow-suc, one-le-pow}
use mathlib.Core.Logic.{inl, inr}
use oscar_kernel.Common.Tests.{◌==◌, Bool-cases}
use oscar_kernel.Common.Bits.{bit_and-low, bit_and_step, bit_or_step, bit_or-zero}

-- A mask of the form `m << k` looks only at the bits from k on.
shifted_of_parts :
    (k hi lo m : ℕ) → lo < 2 ^ k → bit_and (hi * 2 ^ k + lo) (m * 2 ^ k) ≡ bit_and hi m * 2 ^ k
shifted_of_parts zero hi lo m h =
    let e : lo ≡ 0 = omega arith in
    rw e (
      let u : hi * 2 ^ 0 + 0 ≡ hi = omega arith in
      let v : m * 2 ^ 0 ≡ m = omega arith in rw (u, v) (omega arith))
shifted_of_parts (suc k) hi lo m h = ground (
  arith,
  bit_and_step (hi * 2 ^ suc k + lo) (m * 2 ^ suc k),
  pow-suc 2 k,
  ap (λ (t : ℕ). hi * t) (pow-suc 2 k),
  ap (λ (t : ℕ). m * t) (pow-suc 2 k),
  ap (λ (t : ℕ). bit_and hi m * t) (pow-suc 2 k),
  shifted_of_parts k hi (lo / 2) m (omega (arith, pow-suc 2 k)),
)

pub bit_and-shifted : (k a m : ℕ) → bit_and a (m * 2 ^ k) ≡ bit_and (a / 2 ^ k) m * 2 ^ k
bit_and-shifted k a m = ground (arith, one-le-pow k 2, shifted_of_parts k (a / 2 ^ k) (a % 2 ^ k) m)

-- The mask of all bits of a word from k on.
pub bit_and-frame :
    (k j a : ℕ) → a / 2 ^ k < 2 ^ j → bit_and a ((2 ^ j - 1) * 2 ^ k) ≡ a / 2 ^ k * 2 ^ k
bit_and-frame k j a h =
    bit_and-shifted k a (2 ^ j - 1)
    ∙ ap (λ (t : ℕ). t * 2 ^ k) (bit_and-low j (a / 2 ^ k) ∙ mod-eq_of_lt h)

-- A disjunction of a number's high part and a low part is their sum.
pub bit_or-disjoint : (k hi lo : ℕ) → lo < 2 ^ k → bit_or (hi * 2 ^ k) lo ≡ hi * 2 ^ k + lo
bit_or-disjoint zero hi lo h =
    let e : lo ≡ 0 = omega arith in
    let u : hi * 2 ^ 0 ≡ hi = omega arith in rw (e, u) (bit_or-zero hi ∙ omega arith)
bit_or-disjoint (suc k) hi lo h = ground (
  arith,
  bit_or_step (hi * 2 ^ suc k) lo,
  pow-suc 2 k,
  ap (λ (t : ℕ). hi * t) (pow-suc 2 k),
  bit_or-disjoint k hi (lo / 2) (omega (arith, pow-suc 2 k)),
)

comm_within : (bound x y : ℕ) → x + y ≤ bound → bit_or x y ≡ bit_or y x
comm_within zero x y h =
    let e : x ≡ 0 = omega arith in let d : y ≡ 0 = omega arith in rw (e, d) refl
comm_within (suc bound) x y h = elim (Bool-cases (x + y == 0)) [
  | inl q ↦ let e : x ≡ 0 = ground arith in let d : y ≡ 0 = ground arith in rw (e, d) refl
  | inr q ↦
      omega
        (arith, bit_or_step x y, bit_or_step y x, comm_within bound (x / 2) (y / 2) (ground arith))
]

pub bit_or_comm : (x y : ℕ) → bit_or x y ≡ bit_or y x
bit_or_comm x y = comm_within (x + y) x y (le_refl (x + y))
