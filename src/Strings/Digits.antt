-- ===== src/Strings/Digits.antt =====
-- i2a of lib/string.c and the number that its digits stand for.
use oscar_kernel.Common.{
  ℕ, zero, suc, ◌+◌, ◌-◌, ◌*◌, ◌/◌, ◌%◌, ◌^◌, ◌≤◌, ◌<◌, ◌≡◌, refl, ap, subst, ◌∙◌, true, Option,
  some, List, [], ◌∷◌, ◌++◌, ltb, ◌==◌, ==_iff, if◌then◌else◌, arith, Bool-cases, inl, inr,
}
use native.Mathlib.Nat.{div-eq_of_lt, pow-zero, div-lt_iff_lt-mul, pow-suc}
use mathlib.Core.List.{append_assoc}
use oscar_kernel.Strings.{i2a, digit_char, put_last}

-- The value of a digit as `i2a` writes it, and of digits after the number `acc`.
abbrev pub char_value : ℕ → ℕ
char_value c = if ltb c 58 then c - 48 else c - 87

unfoldable pub value : ℕ → ℕ → List ℕ → ℕ
value base acc [] = acc
value base acc (c ∷ cs) = value base (acc * base + char_value c) cs

pub value-append :
    (base acc : ℕ) (xs ys : List ℕ) → value base acc (xs ++ ys) ≡ value base (value base acc xs) ys
unfolding value
value-append base acc [] ys = refl
value-append base acc (x ∷ xs) ys = value-append base (acc * base + char_value x) xs ys

char_value-digit_char : (d : ℕ) → d < 36 → char_value (digit_char d) ≡ d
char_value-digit_char d h = ground (arith, h)

digit_below : (val base : ℕ) → 2 ≤ base → base ≤ 36 → val % base < 36
digit_below val base big few = ground (arith, big, few)

append_two :
    (fuel val base d : ℕ) (buf out : List ℕ)
    → i2a fuel val base buf ≡ some (buf ++ out)
    → put_last d (i2a fuel val base buf) ≡ some (buf ++ (out ++ digit_char d ∷ []))
append_two fuel val base d buf out run =
    rw run (ap {B = Option (List ℕ)} some (append_assoc buf out (digit_char d ∷ [])))

quotient : (val base : ℕ) → 2 ≤ base → val / base * base + val % base ≡ val
quotient val base h = ground arith

fewer_digits :
    (val base fuel : ℕ) → 2 ≤ base → val < base ^ suc (suc fuel) → val / base < base ^ suc fuel
fewer_digits val base fuel big small =
    (div-lt_iff_lt-mul (omega arith)).1 (subst (λ (t : ℕ). val < t) (pow-suc base (suc fuel)) small)

one_power : (base : ℕ) → base ^ 1 ≡ base
one_power base = let e : base ^ 0 ≡ 1 = pow-zero base in pow-suc base 0 ∙ (rw e (omega arith))

no_quotient : (val base : ℕ) → 2 ≤ base → val < base → (val / base == 0) ≡ true
no_quotient val base big small = rw (div-eq_of_lt small) refl

one_digit :
    (val base : ℕ)
    → 2 ≤ base
    → base ≤ 36
    → (val / base == 0) ≡ true
    → value base 0 (digit_char (val % base) ∷ []) ≡ val
unfolding value
one_digit val base big few q =
    let z : val / base ≡ 0 = (==_iff _ _).0 q in
    let low : 0 * base + val % base ≡ val =
      subst (λ (t : ℕ). t * base + val % base ≡ val) z (quotient val base big) in
    rw (char_value-digit_char (val % base) (digit_below val base big few)) low

last_digit :
    (val base : ℕ) (out : List ℕ)
    → 2 ≤ base
    → base ≤ 36
    → value base 0 out ≡ val / base
    → value base 0 (out ++ digit_char (val % base) ∷ []) ≡ val
unfolding value
last_digit val base out big few is =
    rw
      (
        value-append base 0 out (digit_char (val % base) ∷ []),
        is,
        char_value-digit_char (val % base) (digit_below val base big few),
      )
      (quotient val base big)

-- For a base from 2 to 36, whose digits are 0 to 9 and a to z, and fuel for as many digits as the number has, at least one, `i2a`
-- appends digits that stand for the number.
pub i2a-value :
    (fuel val base : ℕ) (buf : List ℕ)
    → 2 ≤ base
    → base ≤ 36
    → val < base ^ suc fuel
    → (out : List ℕ) × (i2a (suc fuel) val base buf ≡ some (buf ++ out)) × (value base 0 out ≡ val)
unfolding i2a value
i2a-value zero val base buf big few small =
    let q : (val / base == 0) ≡ true =
      no_quotient val base big (subst (λ t. val < t) (one_power base) small) in
    (digit_char (val % base) ∷ [], rw q refl, one_digit val base big few q)
i2a-value (suc fuel) val base buf big few small = elim (Bool-cases (val / base == 0)) [
  | inl q ↦ (digit_char (val % base) ∷ [], rw q refl, one_digit val base big few q)
  | inr q ↦
      let (out, run, is) =
        i2a-value fuel (val / base) base buf big few (fewer_digits val base fuel big small) in
      (
        out ++ digit_char (val % base) ∷ [],
        rw q (append_two (suc fuel) (val / base) base (val % base) buf out run),
        last_digit val base out big few is,
      )
]
