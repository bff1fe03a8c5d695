-- ===== src/Bitmap/Allocate.antt =====
-- The allocations of include/bitmap.h: what they return and the bits that they change.
use oscar_kernel.Common.{
  ℕ, zero, suc, ◌+◌, ◌-◌, ◌/◌, ◌%◌, ◌^◌, ◌≤◌, ◌<◌, ◌≡◌, ◌≢◌, refl, true, false, ◌||◌, Option, none,
  some, arith, ◌==◌,
}
use native.Mathlib.Nat.{one-le-pow}
use oscar_kernel.Common.Bits.{bit_and-zero}
use oscar_kernel.Common.Loops.{for_range}
use oscar_kernel.Bitmap.{
  Bitmap, round_up, div_round_up, bitmap_get, bitmap_find_free, find_free_bit, find_free_byte,
  set_range, clear_range, bitmap_find_free_region, bitmap_allocate_bits,
  bitmap_allocate_bits_aligned, mark_run, mark_aligned,
}
use oscar_kernel.Bitmap.Get.{within, bitmap_get-set_range, bitmap_get-clear_range, size-set_range}
use oscar_kernel.Bitmap.Region.{
  IsFree, FirstFree, found, full, bitmap_find_free_region-FirstFree, bitmap_find_free_region-IsFree,
}

-- A run of free bits is taken, those bits and no others are set; or no run is free and nothing is
-- changed.
pub data Allocates (bm : Bitmap) (bits : ℕ) : Bitmap × Option ℕ → Type 0 where
  taken :
      (i : ℕ) (after : Bitmap)
      → IsFree bm bits i
      → ((k : ℕ) → k < i → ¬ IsFree bm bits k)
      → ((b : ℕ) → bitmap_get after b ≡ (within i (i + bits) b || bitmap_get bm b))
      → after.size ≡ bm.size
      → Allocates bm bits (after, some i)
  refused : ((k : ℕ) → ¬ IsFree bm bits k) → Allocates bm bits (bm, none)

-- For at least one bit, `bitmap_allocate_bits` takes the first free run and marks exactly its bits;
-- it returns -1, with the bitmap as it was, exactly when no run is free.
pub bitmap_allocate_bits-Allocates :
    (bm : Bitmap) (bits : ℕ) → 0 < bits → Allocates bm bits (bitmap_allocate_bits bm bits)
unfolding bitmap_allocate_bits
bitmap_allocate_bits-Allocates bm bits pos =
    go (bitmap_find_free_region bm bits) (bitmap_find_free_region-FirstFree bm bits pos)
  where
    go : (r : Option ℕ) → FirstFree bm bits 0 r → Allocates bm bits (mark_run bm bits r)
    go r (found i le ok first) =
        taken i (set_range bits i bm) ok (λ k lt. first k (omega arith) lt)
          (bitmap_get-set_range bits i bm) (size-set_range bits i bm)
    go r (full none_free) = refused (λ k. none_free k (omega arith))

round_up_bounds : (x y : ℕ) → 0 < y → (x ≤ round_up x y) × (round_up x y < x + y)
unfolding round_up
round_up_bounds x y pos = grind arith

round_up-ne : (x y : ℕ) → 0 < y → x % y ≢ 0 → x < round_up x y
unfolding round_up
round_up-ne x y pos off = grind arith

div_round_up-le : (x y : ℕ) → 0 < y → div_round_up x y ≤ x
unfolding div_round_up
div_round_up-le x y pos = grind arith

round_up-one : (x : ℕ) → round_up x 1 ≡ x
unfolding round_up
round_up-one x = omega arith

div_round_up-one : (x : ℕ) → div_round_up x 1 ≡ x
unfolding div_round_up
div_round_up-one x = omega arith

clear_range-zero : (i : ℕ) (bm : Bitmap) → clear_range 0 i bm ≡ bm
unfolding clear_range for_range
clear_range-zero i bm = refl

mark_aligned-one :
    (bm : Bitmap) (bits : ℕ) (r : Option ℕ) → mark_aligned bm bits 1 r ≡ mark_run bm bits r
unfolding mark_aligned mark_run
mark_aligned-one bm bits none = refl
mark_aligned-one bm bits (some f) =
    let none_left : f - f ≡ 0 = omega arith in
    let all_bits : f + bits - f ≡ bits = omega arith in
    rw (round_up-one f, div_round_up-one f, none_left, all_bits, clear_range-zero f bm)

-- With alignment 1, as for MSI-X vectors, the aligned allocation is the plain one.
pub bitmap_allocate_bits_aligned-one :
    (bm : Bitmap) (bits : ℕ) → bitmap_allocate_bits_aligned bm bits 1 ≡ bitmap_allocate_bits bm bits
unfolding bitmap_allocate_bits_aligned bitmap_allocate_bits
bitmap_allocate_bits_aligned-one bm bits =
    rw (round_up-one bits) (mark_aligned-one bm bits (bitmap_find_free_region bm bits))

-- The bits that an aligned allocation clears are free already, and lie in what it sets.
get-aligned :
    (bm : Bitmap) (bits align f b : ℕ)
    → 0 < align
    → 0 < bits
    → IsFree bm (round_up bits align) f
    → bitmap_get (mark_aligned bm bits align (some f)).0 b
      ≡ (within (div_round_up f align) (round_up f align + bits) b || bitmap_get bm b)
unfolding mark_aligned
get-aligned bm bits align f b pos some_bits h =
    let start = div_round_up f align in
    let end = round_up f align + bits in
    let cleared = clear_range (round_up f align - f) f bm in
    ground (
      arith,
      bitmap_get-set_range (end - start) start cleared b,
      bitmap_get-clear_range (round_up f align - f) f bm b,
      round_up_bounds f align pos,
      round_up_bounds bits align pos,
      div_round_up-le f align pos,
      h.free b,
    )

-- When the search for an aligned request of at least one bit, with a positive alignment, finds a
-- run at `f`, the call returns the first multiple of the alignment from `f` on, and sets every bit
-- from `f / align` (rounded up) to the end of the returned run, and no others.
pub bitmap_allocate_bits_aligned-sets :
    (bm : Bitmap) (bits align f : ℕ)
    → 0 < align
    → 0 < bits
    → bitmap_find_free_region bm (round_up bits align) ≡ some f
    → ((bitmap_allocate_bits_aligned bm bits align).1 ≡ some (round_up f align))
      × ((b : ℕ)
          → bitmap_get (bitmap_allocate_bits_aligned bm bits align).0 b
            ≡ (within (div_round_up f align) (round_up f align + bits) b || bitmap_get bm b))
unfolding bitmap_allocate_bits_aligned
bitmap_allocate_bits_aligned-sets bm bits align f pos some_bits e = rw e (
  refl,
  λ b. get-aligned bm bits align f b pos some_bits (
      bitmap_find_free_region-IsFree bm (round_up bits align) f
        (omega (arith, round_up_bounds bits align pos)) e),
)

-- When the run found for an aligned request of `align` bits does not start at a multiple of the
-- positive alignment and is followed by a bit in use, the run that the call returns contains that
-- bit.
pub bitmap_allocate_bits_aligned_overlap :
    (bm : Bitmap) (align f : ℕ)
    → 0 < align
    → bitmap_find_free_region bm (round_up align align) ≡ some f
    → f % align ≢ 0
    → bitmap_get bm (f + align) ≡ true
    → (start : ℕ) × ((bitmap_allocate_bits_aligned bm align align).1 ≡ some start)
      × (start ≤ f + align)
      × (f + align < start + align)
unfolding bitmap_allocate_bits_aligned
bitmap_allocate_bits_aligned_overlap bm align f pos e off busy = (
  round_up f align,
  rw e,
  omega (arith, round_up_bounds f align pos),
  omega (arith, round_up-ne f align pos off),
)

find_free_bit-none : (byte left j : ℕ) → find_free_bit byte left j ≡ none
unfolding find_free_bit
find_free_bit-none byte zero j = refl
find_free_bit-none byte (suc left) j =
    let nonzero : (2 ^ j == 0) ≡ false = ground (arith, one-le-pow j 2) in
    rw (nonzero, bit_and-zero byte) (find_free_bit-none byte left (j + 1))

find_free_byte-none : (bm : Bitmap) (left i : ℕ) → find_free_byte bm left i ≡ none
unfolding find_free_byte
find_free_byte-none bm zero i = refl
find_free_byte-none bm (suc left) i =
    ground (arith, find_free_byte-none bm left (i + 1), find_free_bit-none (bm.bitmap_data i) 8 0)

-- `bitmap_find_free` finds no bit, whatever the bitmap holds.
pub bitmap_find_free-none : (bm : Bitmap) → bitmap_find_free bm ≡ none
unfolding bitmap_find_free find_free_byte
bitmap_find_free-none bm = find_free_byte-none bm (bm.size / 8) 0
