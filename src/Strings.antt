-- ===== src/Strings.antt =====
-- lib/string.c: copying, filling and comparing memory, and the functions on strings that end in NUL.
-- Memory maps an address to a byte; no object reaches the end of the address space. The loops that
-- run to a NUL take fuel and give `none` without enough of it; they need one more than the length
-- of the string. Lengths and counts are not negative.
pub mod Copy
pub mod Scan
pub mod Compare
pub mod Search
pub mod Print
pub mod Field
pub mod Digits
pub mod Tests
use oscar_kernel.Common.{
  ℕ, zero, suc, ◌+◌, ◌-◌, ◌*◌, ◌/◌, ◌%◌, ◌^◌, Bool, true, false, ◌||◌, Option, none, some, List, [],
  ◌∷◌, ◌++◌, Store, update, ltb, leb, ◌==◌, if◌then◌else◌,
}

-- The loop `while (size >= 0)` of `memcpy`, from the last byte to the first.
pub copy_down : Store → ℕ → ℕ → ℕ → Store
copy_down m dst src zero = m
copy_down m dst src (suc size) = copy_down (update m (dst + size) (m (src + size))) dst src size

-- The loop `while (i <= size)`, with `left` bytes to go.
pub copy_up : Store → ℕ → ℕ → ℕ → ℕ → Store
copy_up m dst src i zero = m
copy_up m dst src i (suc left) = copy_up (update m (dst + i) (m (src + i))) dst src (i + 1) left

unfoldable pub memcpy : Store → ℕ → ℕ → ℕ → Store
unfolding copy_up copy_down
memcpy m dst src size =
    if dst == 0 || (src == 0)
    then m
    else if ltb src dst
    then copy_down m dst src size
    else copy_up m dst src 0 size

pub fill : Store → ℕ → ℕ → ℕ → ℕ → Store
fill m dst value i zero = m
fill m dst value i (suc left) = fill (update m (dst + i) value) dst value (i + 1) left

unfoldable pub memset : Store → ℕ → ℕ → ℕ → Store
unfolding fill
memset m dst value size = if dst == 0 then m else fill m dst value 0 size

-- A `char` promoted to `int`, and the difference of two, as 32-bit patterns.
abbrev pub char_int : ℕ → ℕ
char_int c = if ltb c 128 then c else c + 2 ^ 32 - 2 ^ 8

abbrev pub char_diff : ℕ → ℕ → ℕ
char_diff a b = (char_int a + 2 ^ 32 - char_int b) % 2 ^ 32

unfoldable pub memcmp : Store → ℕ → ℕ → ℕ → ℕ
memcmp m s1 s2 zero = 0
memcmp m s1 s2 (suc size) =
    let rest = memcmp m (s1 + 1) (s2 + 1) size in
    if m s1 == m s2 then rest else char_diff (m s1) (m s2)

abbrev counted : Option ℕ → Option ℕ
counted none = none
counted (some n) = some (n + 1)

unfoldable pub strlen : ℕ → Store → ℕ → Option ℕ
strlen zero m s = none
strlen (suc fuel) m s =
    let rest = strlen fuel m (s + 1) in if m s == 0 then some 0 else counted rest

unfoldable pub strnlen : Store → ℕ → ℕ → ℕ
strnlen m s zero = 0
strnlen m s (suc count) = let rest = strnlen m (s + 1) count in if m s == 0 then 0 else rest + 1

-- The memory afterwards; the result of the function is `dest`.
unfoldable pub strcpy : ℕ → Store → ℕ → ℕ → Option Store
strcpy zero m dest src = none
strcpy (suc fuel) m dest src =
    let m' = update m dest (m src) in
    let rest = strcpy fuel m' (dest + 1) (src + 1) in if m src == 0 then some m' else rest

unfoldable pub strncpy : Store → ℕ → ℕ → ℕ → Store
strncpy m dest src zero = m
strncpy m dest src (suc count) =
    strncpy (update m dest (m src)) (dest + 1) (if m src == 0 then src else src + 1) count

-- The end of the first string, then the copy of the second.
copy_at : Option ℕ → ℕ → Store → ℕ → ℕ → Option Store
unfolding strcpy
copy_at none fuel m dest src = none
copy_at (some n) fuel m dest src = strcpy fuel m (dest + n) src

unfoldable pub strcat : ℕ → Store → ℕ → ℕ → Option Store
unfolding copy_at strlen
strcat fuel m dest src = copy_at (strlen fuel m dest) fuel m dest src

-- The three results of `strcmp` and `strncmp`: -1, 0 and 1.
pub data Sign : Type 0 where
  negative : Sign
  same : Sign
  positive : Sign

unfoldable pub strcmp : ℕ → Store → ℕ → ℕ → Option Sign
strcmp zero m cs ct = none
strcmp (suc fuel) m cs ct =
    let rest = strcmp fuel m (cs + 1) (ct + 1) in
    if m cs == m ct
    then if m cs == 0 then some same else rest
    else some (if ltb (m cs) (m ct) then negative else positive)

unfoldable pub strncmp : Store → ℕ → ℕ → ℕ → Sign
strncmp m cs ct zero = same
strncmp m cs ct (suc count) =
    let rest = strncmp m (cs + 1) (ct + 1) count in
    if m cs == m ct
    then if m cs == 0 then same else rest
    else if ltb (m cs) (m ct)
    then negative
    else positive

-- The outer `none` is a lack of fuel, the inner one NULL.
unfoldable pub strchr : ℕ → Store → ℕ → ℕ → Option (Option ℕ)
strchr zero m s c = none
strchr (suc fuel) m s c =
    let rest = strchr fuel m (s + 1) c in
    if m s == c then some (some s) else if m s == 0 then some none else rest

last_of : ℕ → Store → ℕ → ℕ → Option ℕ → Option (Option ℕ)
last_of zero m s c last = none
last_of (suc fuel) m s c last =
    let last' = (if m s == c then some s else last) in
    let rest = last_of fuel m (s + 1) c last' in if m s == 0 then some last' else rest

unfoldable pub strrchr : ℕ → Store → ℕ → ℕ → Option (Option ℕ)
unfolding last_of
strrchr fuel m s c = last_of fuel m s c none

-- The inner loop of `findstr`: whether it ends with `j == len`.
unfoldable pub agrees : Store → ℕ → ℕ → ℕ → Bool
agrees m a b zero = true
agrees m a b (suc len) =
    let rest = agrees m (a + 1) (b + 1) len in if m a == m b then rest else false

unfoldable pub findstr_from : Store → ℕ → ℕ → ℕ → ℕ → ℕ → ℕ
unfolding agrees
findstr_from m data_ str len i zero = 0
findstr_from m data_ str len i (suc left) =
    let rest = findstr_from m data_ str len (i + 1) left in
    if agrees m (data_ + i) str len then i else rest

unfoldable pub findstr : Store → ℕ → ℕ → ℕ → ℕ → ℕ
unfolding findstr_from
findstr m data_ size str len =
    if ltb size len then 0 else findstr_from m data_ str len 0 (size - len + 1)

-- The characters from the start of the buffer to `*ps`, before and after `i2a`.
-- The digit is stored in a `char`, here as a byte.
abbrev pub digit_char : ℕ → ℕ
digit_char d = (if ltb d 10 then d + 48 else d - 10 + 97) % 2 ^ 8

abbrev pub put_last : ℕ → Option (List ℕ) → Option (List ℕ)
put_last d none = none
put_last d (some buf) = some (buf ++ digit_char d ∷ [])

-- Fuel bounds the number of digits.
unfoldable pub i2a : ℕ → ℕ → ℕ → List ℕ → Option (List ℕ)
i2a zero val base buf = none
i2a (suc fuel) val base buf =
    let high = i2a fuel (val / base) base buf in
    put_last (val % base) (if val / base == 0 then some buf else high)
