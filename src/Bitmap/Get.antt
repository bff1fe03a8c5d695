-- ===== src/Bitmap/Get.antt =====
-- What each write of include/bitmap.h does to `bitmap_get` at every bit.
use oscar_kernel.Common.{
  ℕ, zero, suc, ◌+◌, ◌/◌, ◌%◌, ◌≡◌, refl, Bool, true, false, ◌&&◌, ◌||◌, not, ltb, leb, ◌==◌,
  if◌then◌else◌, arith,
}
use oscar_kernel.Common.Bits.{has_bit-set, has_bit-clear}
use oscar_kernel.Common.Loops.{for_range}
use oscar_kernel.Bitmap.{Bitmap, bitmap_get, bitmap_set, bitmap_clear, set_range, clear_range}

-- Setting a bit sets that bit and leaves every other bit alone.
pub bitmap_get-set :
    (bm : Bitmap) (a b : ℕ)
    → bitmap_get (bitmap_set bm a) b ≡ (if b == a then true else bitmap_get bm b)
unfolding bitmap_get bitmap_set
bitmap_get-set bm a b = ground (arith, has_bit-set (bm.bitmap_data (b / 8)) (a % 8) (b % 8))

-- Clearing a bit clears that bit and leaves every other bit alone.
pub bitmap_get-clear :
    (bm : Bitmap) (a b : ℕ)
    → bitmap_get (bitmap_clear bm a) b ≡ (if b == a then false else bitmap_get bm b)
unfolding bitmap_get bitmap_clear
bitmap_get-clear bm a b = ground (arith, has_bit-clear (bm.bitmap_data (b / 8)) (a % 8) (b % 8))

abbrev pub within : ℕ → ℕ → ℕ → Bool
within lo hi x = leb lo x && ltb x hi

pub bitmap_get-set_range :
    (n i : ℕ) (bm : Bitmap) (b : ℕ)
    → bitmap_get (set_range n i bm) b ≡ (within i (i + n) b || bitmap_get bm b)
unfolding set_range for_range
bitmap_get-set_range zero i bm b = ground arith
bitmap_get-set_range (suc n) i bm b =
    ground (arith, bitmap_get-set_range n (i + 1) (bitmap_set bm i) b, bitmap_get-set bm i b)

pub bitmap_get-clear_range :
    (n i : ℕ) (bm : Bitmap) (b : ℕ)
    → bitmap_get (clear_range n i bm) b ≡ (not (within i (i + n) b) && bitmap_get bm b)
unfolding clear_range for_range
bitmap_get-clear_range zero i bm b = ground arith
bitmap_get-clear_range (suc n) i bm b =
    ground (arith, bitmap_get-clear_range n (i + 1) (bitmap_clear bm i) b, bitmap_get-clear bm i b)

pub size-set_range : (n i : ℕ) (bm : Bitmap) → (set_range n i bm).size ≡ bm.size
unfolding set_range for_range bitmap_set
size-set_range zero i bm = refl
size-set_range (suc n) i bm = size-set_range n (i + 1) (bitmap_set bm i)
