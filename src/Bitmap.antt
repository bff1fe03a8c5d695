-- ===== src/Bitmap.antt =====
-- include/bitmap.h and the rounding macros of include/math.h: bitmaps and the search for a run of
-- free bits. A bitmap's bytes are flat memory. The `int` indices do not wrap (sizes are below
-- 2 ^ 31), and the alignments that the kernel passes are positive.
pub mod Get
pub mod Region
pub mod Allocate
pub mod Tests
use oscar_kernel.Common.{
  ℕ, zero, suc, ◌+◌, ◌-◌, ◌*◌, ◌/◌, ◌%◌, ◌^◌, bit_and, bit_or, Bool, true, false, not, Option, none,
  some, Store, update, ltb, leb, ◌==◌, if◌then◌else◌,
}
use oscar_kernel.Common.Bits.{has_bit, not_bit8}
use oscar_kernel.Common.Loops.{for_range}

pub record Bitmap : Type 0 where
  pub bitmap_data : Store
  pub size : ℕ

unfoldable pub round_up : ℕ → ℕ → ℕ
round_up x y = (x + (y - 1)) / y * y

unfoldable pub div_round_up : ℕ → ℕ → ℕ
div_round_up n d = (n + d - 1) / d

pub bitmap_init : Bitmap → ℕ → Bitmap
bitmap_init bm size =
    for_range (size / 8) 0 (λ i b. record b { bitmap_data = update b.bitmap_data i 0 })
      (record bm { size = size })

-- `bit >> 3` is the byte and `bit & 7` the bit in it.
unfoldable pub bitmap_get : Bitmap → ℕ → Bool
bitmap_get bm bit = has_bit (bm.bitmap_data (bit / 8)) (bit % 8)

unfoldable pub bitmap_set : Bitmap → ℕ → Bitmap
bitmap_set bm bit = record bm {
  bitmap_data = update bm.bitmap_data (bit / 8) (bit_or (bm.bitmap_data (bit / 8)) (2 ^ (bit % 8)));
}

unfoldable pub bitmap_clear : Bitmap → ℕ → Bitmap
bitmap_clear bm bit = record bm {
  bitmap_data =
      update bm.bitmap_data (bit / 8) (bit_and (bm.bitmap_data (bit / 8)) (not_bit8 (bit % 8)));
}

-- The inner loop of `bitmap_find_free`: `==` binds tighter than `&` in its test, which reads
-- `data & ((1 << j) == 0)`. The rounds left, and `j`.
find_free_bit : ℕ → ℕ → ℕ → Option ℕ
find_free_bit byte zero j = none
find_free_bit byte (suc left) j =
    let rest = find_free_bit byte left (j + 1) in
    if bit_and byte (if 2 ^ j == 0 then 1 else 0) == 0 then rest else some j

find_free_byte : Bitmap → ℕ → ℕ → Option ℕ
unfolding find_free_bit
find_free_byte bm zero i = none
find_free_byte bm (suc left) i =
    let rest = find_free_byte bm left (i + 1) in
    if bm.bitmap_data i == 0
    then rest
    else elim (find_free_bit (bm.bitmap_data i) 8 0) [ none ↦ rest | some j ↦ some (i * 8 + j) ]

-- `none` is the -1.
pub bitmap_find_free : Bitmap → Option ℕ
unfolding find_free_byte
bitmap_find_free bm = find_free_byte bm (bm.size / 8) 0

-- The inner loop of `bitmap_find_free_region`, over `j` from `i` while `j < i + bits`: whether it
-- returns `i`.
unfoldable pub region_free : Bitmap → ℕ → ℕ → ℕ → ℕ → Bool
region_free bm i bits zero j = false
region_free bm i bits (suc left) j =
    let rest = region_free bm i bits left (j + 1) in
    if bitmap_get bm j then false else if leb (bits - 1) (j - i) then true else rest

unfoldable pub find_region : Bitmap → ℕ → ℕ → ℕ → Option ℕ
unfolding region_free
find_region bm bits zero i = none
find_region bm bits (suc left) i =
    let rest = find_region bm bits left (i + 1) in
    if bitmap_get bm i
    then rest
    else if ltb bm.size (i + bits)
    then none
    else if region_free bm i bits bits i
    then some i
    else rest

unfoldable pub bitmap_find_free_region : Bitmap → ℕ → Option ℕ
unfolding find_region
bitmap_find_free_region bm bits = find_region bm bits bm.size 0

pub set_range : ℕ → ℕ → Bitmap → Bitmap
set_range n i bm = for_range n i (λ k b. bitmap_set b k) bm

pub clear_range : ℕ → ℕ → Bitmap → Bitmap
clear_range n i bm = for_range n i (λ k b. bitmap_clear b k) bm

-- What the two allocations do with the result of the search.
unfoldable pub mark_run : Bitmap → ℕ → Option ℕ → Bitmap × Option ℕ
mark_run bm bits none = (bm, none)
mark_run bm bits (some bit_f) = (set_range bits bit_f bm, some bit_f)

unfoldable pub bitmap_allocate_bits : Bitmap → ℕ → Bitmap × Option ℕ
unfolding mark_run
bitmap_allocate_bits bm bits = mark_run bm bits (bitmap_find_free_region bm bits)

-- A loop whose start is past its end makes no round.
mark_aligned : Bitmap → ℕ → ℕ → Option ℕ → Bitmap × Option ℕ
mark_aligned bm bits align none = (bm, none)
mark_aligned bm bits align (some bit_f) =
    let aligned = round_up bit_f align in
    let start = div_round_up bit_f align in
    (
      set_range (aligned + bits - start) start (clear_range (aligned - bit_f) bit_f bm),
      some aligned,
    )

unfoldable pub bitmap_allocate_bits_aligned : Bitmap → ℕ → ℕ → Bitmap × Option ℕ
unfolding mark_aligned
bitmap_allocate_bits_aligned bm bits align =
    mark_aligned bm bits align (bitmap_find_free_region bm (round_up bits align))
