-- ===== src/Bitmap/Tests.antt =====
-- Runs and witnesses for include/bitmap.h: 32 bits of which 0, 1, 6 and 7 are in use.
use oscar_kernel.Common.{◌+◌, ◌≡◌, refl, true, some, ◌==◌, if◌then◌else◌, arith}
use oscar_kernel.Bitmap.{
  Bitmap, bitmap_get, round_up, bitmap_find_free_region, find_region, region_free,
  bitmap_allocate_bits,
}
use oscar_kernel.Bitmap.Allocate.{Allocates, bitmap_allocate_bits-Allocates}

abbrev some_bits : Bitmap
some_bits = record { bitmap_data = λ i. if i == 0 then 0xc3 else 0; size = 32 }

finds : bitmap_find_free_region some_bits 3 ≡ some 2
unfolding bitmap_find_free_region find_region region_free bitmap_get
finds = refl

finds_four : bitmap_find_free_region some_bits (round_up 4 4) ≡ some 2
unfolding bitmap_find_free_region find_region region_free bitmap_get round_up
finds_four = refl

busy_six : bitmap_get some_bits (2 + 4) ≡ true
unfolding bitmap_get
busy_six = refl

bitmap_allocate_bits-Allocates_example : Allocates some_bits 3 (bitmap_allocate_bits some_bits 3)
bitmap_allocate_bits-Allocates_example = bitmap_allocate_bits-Allocates some_bits 3 (omega arith)
