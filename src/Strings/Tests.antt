-- ===== src/Strings/Tests.antt =====
-- Runs and witnesses for lib/string.c: the strings "ab" at 100 and "ac" at 200.
use oscar_kernel.Common.{
  ◌^◌, ℕ, ◌+◌, ◌-◌, ◌≤◌, ◌<◌, ◌≡◌, refl, false, some, List, [], ◌∷◌, ◌++◌, length, Store, ◌==◌,
  if◌then◌else◌, arith,
}
use oscar_kernel.Strings.{memcpy, strcmp, agrees, i2a}
use oscar_kernel.Strings.Copy.{inside, memcpy-moves}
use oscar_kernel.Strings.Scan.{IsString}
use oscar_kernel.Strings.Compare.{compare_lists, strcmp-compare_lists}
use oscar_kernel.Strings.Digits.{value, i2a-value}
use oscar_kernel.Strings.Print.{vsprintf}
use oscar_kernel.Strings.Print.Arg.{number}
use oscar_kernel.Strings.Field.{decimal, vsprintf-hex}

abbrev memory : Store
memory x =
    if x == 100
    then 97
    else if x == 101
    then 98
    else if x == 200
    then 97
    else if x == 201
    then 99
    else 0

ab : IsString memory 100 (97 ∷ 98 ∷ [])
unfolding IsString
ab = (refl, omega arith, (refl, omega arith, refl))

ac : IsString memory 200 (97 ∷ 99 ∷ [])
unfolding IsString
ac = (refl, omega arith, (refl, omega arith, refl))

memory-byte : (x : ℕ) → memory x < 256
memory-byte x = ground arith

memcpy-moves_example :
    memcpy memory 101 100 2 102
    ≡ (if inside 101 2 102 then memory (100 + (102 - 101)) else memory 102)
memcpy-moves_example = memcpy-moves memory 101 100 2 102 (omega arith) (omega arith)

strcmp-compare_lists_example :
    strcmp 3 memory 100 200 ≡ some (compare_lists (97 ∷ 98 ∷ []) (97 ∷ 99 ∷ []))
strcmp-compare_lists_example =
    strcmp-compare_lists 3 memory 100 200 (97 ∷ 98 ∷ []) (97 ∷ 99 ∷ []) ab ac (omega arith)

agrees_at_one : (i : ℕ) → i < 1 → memory (100 + 1 + i) ≡ memory (101 + i)
agrees_at_one i h = ground arith

differs_at_zero : (j : ℕ) → j < 1 → agrees memory (100 + j) 101 1 ≡ false
unfolding agrees
differs_at_zero j h = let e : j ≡ 0 = omega arith in rw e refl

i2a-value_example : (out : List ℕ) × (i2a 4 1234 16 [] ≡ some ([] ++ out)) × (value 16 0 out ≡ 1234)
i2a-value_example = i2a-value 3 1234 16 [] (omega arith) (omega arith) (omega arith)

small_width : decimal 0 (56 ∷ []) < 2 ^ 31
unfolding decimal
small_width = omega arith

vsprintf-hex_example :
    (out : List ℕ) × (vsprintf (37 ∷ 48 ∷ ((56 ∷ []) ++ 120 ∷ [])) (number 1234 ∷ []) ≡ some out)
    × (value 16 0 out ≡ 1234)
    × (decimal 0 (56 ∷ []) ≤ length out)
vsprintf-hex_example = vsprintf-hex (56 ∷ []) 1234 (refl, tt) small_width (omega arith)
