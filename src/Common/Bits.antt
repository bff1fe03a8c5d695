-- ===== src/Common/Bits.antt =====
-- The bit operations of C at variables: `x & (1 << k)`, `x | (1 << k)`, `x & ~(1 << k)`.
use Prim.Native.Nat.{
  ℕ, zero, suc, ◌+◌, ◌-◌, ◌*◌, ◌/◌, ◌%◌, ◌^◌, ◌≤◌, ◌<◌, min, max, bit_and, bit_or, digits, bitwise,
  bit_and-bitwise, bit_or-bitwise,
}
use mathlib.Core.Path.{◌≡◌, refl, sym, ap, ◌∙◌}
use mathlib.Core.Bool.{Bool, true, false, not}
use mathlib.Core.Logic.{inl, inr}
use native.Mathlib.Omega.{arith}
use native.Mathlib.Nat.{le_refl, pow-suc, one-le-pow}
use oscar_kernel.Common.Tests.{◌==◌, ==_iff, Bool-cases, if◌then◌else◌}

-- The native operations are defined on the digits, with a number of steps that is large enough. Two
-- numbers of steps that are large enough give the same.
module _ (high : ℕ → ℕ) (op : ℕ → ℕ → ℕ) where
  no_digits_left : (steps y : ℕ) → digits high op steps zero y ≡ high y
  no_digits_left zero y = refl
  no_digits_left (suc steps) y = refl

  same_digits :
      (few many x y : ℕ) → (x ≤ few) × (x ≤ many) → digits high op few x y ≡ digits high op many x y
  same_digits few many zero y h = no_digits_left few y ∙ sym (no_digits_left many y)
  same_digits zero many (suc x) y h = absurd (omega (arith, h.0))
  same_digits (suc few) zero (suc x) y h = absurd (omega (arith, h.1))
  same_digits (suc few) (suc many) (suc x) y h =
      ap (λ (t : ℕ). t * 2 + op (suc x % 2) (y % 2))
        (same_digits few many (suc x / 2) (y / 2) (omega (arith, h.0), omega (arith, h.1)))

  lowest_digit :
      (x y : ℕ)
      → bitwise high op (suc x) y ≡ bitwise high op (suc x / 2) (y / 2) * 2 + op (suc x % 2) (y % 2)
  lowest_digit x y =
      ap (λ (t : ℕ). t * 2 + op (suc x % 2) (y % 2))
        (same_digits x (suc x / 2) (suc x / 2) (y / 2) (omega arith, omega arith))

pub bit_and_step : (x y : ℕ) → bit_and x y ≡ bit_and (x / 2) (y / 2) * 2 + min (x % 2) (y % 2)
bit_and_step zero y = rw (bit_and-bitwise 0 y, bit_and-bitwise 0 (y / 2)) (omega arith)
bit_and_step (suc x) y =
    rw (bit_and-bitwise (suc x) y, bit_and-bitwise (suc x / 2) (y / 2))
      (lowest_digit (λ t. 0) min x y)

pub bit_or_step : (x y : ℕ) → bit_or x y ≡ bit_or (x / 2) (y / 2) * 2 + max (x % 2) (y % 2)
bit_or_step zero y = rw (bit_or-bitwise 0 y, bit_or-bitwise 0 (y / 2)) (omega arith)
bit_or_step (suc x) y =
    rw (bit_or-bitwise (suc x) y, bit_or-bitwise (suc x / 2) (y / 2))
      (lowest_digit (λ t. t) max x y)

-- The binary digit of weight 2 ^ k.
abbrev pub digit : ℕ → ℕ → ℕ
digit zero a = a % 2
digit (suc k) a = digit k (a / 2)

pub digit-bit_or : (k a b : ℕ) → digit k (bit_or a b) ≡ max (digit k a) (digit k b)
digit-bit_or zero a b = omega (arith, bit_or_step a b)
digit-bit_or (suc k) a b =
    let half : bit_or a b / 2 ≡ bit_or (a / 2) (b / 2) = omega (arith, bit_or_step a b) in
    rw half (digit-bit_or k (a / 2) (b / 2))

pub digit-bit_and : (k a b : ℕ) → digit k (bit_and a b) ≡ min (digit k a) (digit k b)
digit-bit_and zero a b = omega (arith, bit_and_step a b)
digit-bit_and (suc k) a b =
    let half : bit_and a b / 2 ≡ bit_and (a / 2) (b / 2) = omega (arith, bit_and_step a b) in
    rw half (digit-bit_and k (a / 2) (b / 2))

pub digit-lt : (k a : ℕ) → digit k a < 2
digit-lt zero a = omega arith
digit-lt (suc k) a = digit-lt k (a / 2)

zero_within : (bound x : ℕ) → x ≤ bound → bit_and x 0 ≡ 0
zero_within zero x h = let e : x ≡ 0 = omega arith in rw e refl
zero_within (suc bound) x h = elim (Bool-cases (x == 0)) [
  | inl e ↦ rw ((==_iff x 0).0 e) refl
  | inr e ↦ ground (arith, bit_and_step x 0, zero_within bound (x / 2))
]

pub bit_and-zero : (x : ℕ) → bit_and x 0 ≡ 0
bit_and-zero x = zero_within x x (le_refl x)

or_zero_within : (bound x : ℕ) → x ≤ bound → bit_or x 0 ≡ x
or_zero_within zero x h = let e : x ≡ 0 = omega arith in rw e refl
or_zero_within (suc bound) x h = elim (Bool-cases (x == 0)) [
  | inl e ↦ rw ((==_iff x 0).0 e) refl
  | inr e ↦ ground (arith, bit_or_step x 0, or_zero_within bound (x / 2))
]

pub bit_or-zero : (x : ℕ) → bit_or x 0 ≡ x
bit_or-zero x = or_zero_within x x (le_refl x)

-- `a & (1 << k)`.
pub bit_and-pow : (k a : ℕ) → bit_and a (2 ^ k) ≡ digit k a * 2 ^ k
bit_and-pow zero a = omega (arith, bit_and_step a 1, bit_and-zero (a / 2))
bit_and-pow (suc k) a = ground (
  arith,
  bit_and_step a (2 ^ suc k),
  pow-suc 2 k,
  bit_and-pow k (a / 2),
  ap (λ (t : ℕ). digit k (a / 2) * t) (pow-suc 2 k),
)

-- `(x & (1 << k)) != 0`, and what the writes `x | (1 << j)` and `x & ~(1 << j)` do to it.
abbrev pub has_bit : ℕ → ℕ → Bool
has_bit a k = not (bit_and a (2 ^ k) == 0)

pub has_bit-digit : (a k : ℕ) → has_bit a k ≡ (digit k a == 1)
has_bit-digit a k = ground (arith, bit_and-pow k a, digit-lt k a, one-le-pow k 2)

digit-zero : (k : ℕ) → digit k 0 ≡ 0
digit-zero zero = refl
digit-zero (suc k) = digit-zero k

digit-pow : (k j : ℕ) → digit k (2 ^ j) ≡ (if k == j then 1 else 0)
digit-pow zero zero = refl
digit-pow zero (suc j) = ground (arith, pow-suc 2 j)
digit-pow (suc k) zero = ground (arith, digit-zero k)
digit-pow (suc k) (suc j) =
    let half : 2 ^ suc j / 2 ≡ 2 ^ j = omega (arith, pow-suc 2 j) in
    rw half (ground (arith, digit-pow k j))

pub has_bit-set :
    (a j k : ℕ) → has_bit (bit_or a (2 ^ j)) k ≡ (if k == j then true else has_bit a k)
has_bit-set a j k =
    rw (has_bit-digit (bit_or a (2 ^ j)) k, has_bit-digit a k)
      (ground (arith, digit-bit_or k a (2 ^ j), digit-pow k j, digit-lt k a))

-- A test of the numbers from 0 up to a bound, and what its success says of one of them.
passes : (ℕ → Bool) → ℕ → Bool
passes test zero = true
passes test (suc bound) = if test bound then passes test bound else false

passes_at : (test : ℕ → Bool) (bound k : ℕ) → k < bound → passes test bound ≡ true → test k ≡ true
unfolding passes
passes_at test zero k lt all = absurd (omega arith)
passes_at test (suc bound) k lt all = elim (Bool-cases (k == bound)) [
  | inl e ↦ ground (arith, ap test ((==_iff k bound).0 e))
  | inr e ↦ ground (arith, passes_at test bound k)
]

-- `~(1 << j)` cut to a byte.
abbrev pub not_bit8 : ℕ → ℕ
not_bit8 j = 255 - 2 ^ j

not_bit8_table :
    passes (λ j. passes (λ k. digit k (not_bit8 j) == (if k == j then 0 else 1)) 8) 8 ≡ true
unfolding passes
not_bit8_table = refl

digit-not_bit8 : (k j : ℕ) → k < 8 → j < 8 → digit k (not_bit8 j) ≡ (if k == j then 0 else 1)
digit-not_bit8 k j hk hj = (==_iff _ _).0 (
    passes_at (λ i. digit i (not_bit8 j) == (if i == j then 0 else 1)) 8 k hk
      (passes_at (λ l. passes (λ i. digit i (not_bit8 l) == (if i == l then 0 else 1)) 8) 8 j hj
        not_bit8_table))

pub has_bit-clear :
    (a j k : ℕ)
    → j < 8
    → k < 8
    → has_bit (bit_and a (not_bit8 j)) k ≡ (if k == j then false else has_bit a k)
has_bit-clear a j k hj hk =
    rw (has_bit-digit (bit_and a (not_bit8 j)) k, has_bit-digit a k)
      (ground (arith, digit-bit_and k a (not_bit8 j), digit-not_bit8 k j hk hj, digit-lt k a))

-- `x & (2^k - 1)`, the low bits: first of a number given by its high and its low part.
low_of_parts : (k hi lo : ℕ) → lo < 2 ^ k → bit_and (hi * 2 ^ k + lo) (2 ^ k - 1) ≡ lo
low_of_parts zero hi lo h = rw bit_and-zero (omega arith)
low_of_parts (suc k) hi lo h = ground (
  arith,
  bit_and_step (hi * 2 ^ suc k + lo) (2 ^ suc k - 1),
  ap (λ (t : ℕ). hi * t) (pow-suc 2 k),
  pow-suc 2 k,
  low_of_parts k hi (lo / 2) (omega (arith, pow-suc 2 k)),
)

pub bit_and-low : (k a : ℕ) → bit_and a (2 ^ k - 1) ≡ a % 2 ^ k
bit_and-low k a = ground (arith, one-le-pow k 2, low_of_parts k (a / 2 ^ k) (a % 2 ^ k))

byte_table : passes (λ k. has_bit 255 k) 8 ≡ true
unfolding passes
byte_table = refl

-- Every bit of a byte of ones is set.
pub has_bit-byte : (k : ℕ) → k < 8 → has_bit 255 k ≡ true
has_bit-byte k h = passes_at (λ i. has_bit 255 i) 8 k h byte_table
