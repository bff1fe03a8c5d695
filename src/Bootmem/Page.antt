-- ===== src/Bootmem/Page.antt =====
-- The bitmap of mm/bootmem.c read back: a bit for each 4 KB page.
use oscar_kernel.Common.{
  ℕ, zero, suc, ◌+◌, ◌-◌, ◌*◌, ◌/◌, ◌%◌, ◌≤◌, ◌≡◌, Bool, true, false, ◌&&◌, ◌||◌, not, ltb, leb,
  ◌==◌, if◌then◌else◌, arith,
}
use oscar_kernel.Common.Bits.{has_bit-set, has_bit-clear}
use oscar_kernel.Bootmem.{
  Bootmem, set_bootmem_bitmap, clear_bootmem_bitmap, get_bootmem_bitmap, set_area_from,
  clear_area_from, set_bootmem_bitmap_area, clear_bootmem_bitmap_area,
}

-- The bit depends on the page of the address only.
pub get-page :
    (b : Bootmem) (x y : ℕ)
    → x / 0x1000 ≡ y / 0x1000
    → get_bootmem_bitmap b x ≡ get_bootmem_bitmap b y
unfolding get_bootmem_bitmap
get-page b x y e = ground arith

pub get-set :
    (b : Bootmem) (a x : ℕ)
    → get_bootmem_bitmap (set_bootmem_bitmap b a) x
      ≡ (if x / 0x1000 == a / 0x1000 then true else get_bootmem_bitmap b x)
unfolding get_bootmem_bitmap set_bootmem_bitmap
get-set b a x = ground (arith, has_bit-set (b.bitmap (x / 32768)) (a / 4096 % 8) (x / 4096 % 8))

pub get-clear :
    (b : Bootmem) (a x : ℕ)
    → get_bootmem_bitmap (clear_bootmem_bitmap b a) x
      ≡ (if x / 0x1000 == a / 0x1000 then false else get_bootmem_bitmap b x)
unfolding get_bootmem_bitmap clear_bootmem_bitmap
get-clear b a x = ground (arith, has_bit-clear (b.bitmap (x / 32768)) (a / 4096 % 8) (x / 4096 % 8))

-- The page of `x` is one that a walk by whole pages from `addr` below `end` visits.
abbrev pub visits : ℕ → ℕ → ℕ → Bool
visits addr end x =
    leb (addr / 0x1000) (x / 0x1000) && ltb (addr + (x / 0x1000 - addr / 0x1000) * 0x1000) end

get-set_area_from :
    (left addr end : ℕ) (b : Bootmem) (x : ℕ)
    → end ≤ addr + left * 0x1000
    → get_bootmem_bitmap (set_area_from left addr end b) x
      ≡ (visits addr end x || get_bootmem_bitmap b x)
unfolding set_area_from
get-set_area_from zero addr end b x h = ground arith
get-set_area_from (suc left) addr end b x h = ground (
  arith,
  get-set_area_from left (addr + 0x1000) end (set_bootmem_bitmap b addr) x,
  get-set b addr x,
)

get-clear_area_from :
    (left addr end : ℕ) (b : Bootmem) (x : ℕ)
    → end ≤ addr + left * 0x1000
    → get_bootmem_bitmap (clear_area_from left addr end b) x
      ≡ (not (visits addr end x) && get_bootmem_bitmap b x)
unfolding clear_area_from
get-clear_area_from zero addr end b x h = ground arith
get-clear_area_from (suc left) addr end b x h = ground (
  arith,
  get-clear_area_from left (addr + 0x1000) end (clear_bootmem_bitmap b addr) x,
  get-clear b addr x,
)

-- Marking an area sets the bits of the pages that the walk visits and of no others.
pub get-set_area :
    (b : Bootmem) (paddr size x : ℕ)
    → get_bootmem_bitmap (set_bootmem_bitmap_area b paddr size) x
      ≡ (visits paddr (paddr + size) x || get_bootmem_bitmap b x)
unfolding set_bootmem_bitmap_area
get-set_area b paddr size x =
    get-set_area_from (size / 0x1000 + 1) paddr (paddr + size) b x (omega arith)

pub get-clear_area :
    (b : Bootmem) (paddr size x : ℕ)
    → get_bootmem_bitmap (clear_bootmem_bitmap_area b paddr size) x
      ≡ (not (visits paddr (paddr + size) x) && get_bootmem_bitmap b x)
unfolding clear_bootmem_bitmap_area
get-clear_area b paddr size x =
    get-clear_area_from (size / 0x1000 + 1) paddr (paddr + size) b x (omega arith)
