-- ===== src/Bootmem/Run.antt =====
-- The allocator of mm/bootmem.c from start-up on: the map that `bootmem_init` leaves, and any
-- sequence of `bootmem_alloc` calls after it.
use oscar_kernel.Common.{
  ℕ, zero, suc, ◌+◌, ◌/◌, ◌%◌, ◌^◌, ◌≡◌, refl, Bool, true, false, Option, none, some, ltb, leb,
  ◌==◌, if◌then◌else◌, arith, List, [], ◌∷◌, All, not, ◌&&◌, ◌||◌,
}
use oscar_kernel.Common.Bits.{has_bit-byte}
use oscar_kernel.Bootmem.{
  Bootmem, Ards, get_bootmem_bitmap, clear_bootmem_bitmap_area, alloc_paddr, bootmem_init,
  clear_usable, clear_all_usable, is_empty, all_busy, clear_bootmem_bitmap, clear_area_from,
}
use oscar_kernel.Bootmem.Page.{visits, get-set_area, get-clear_area}
use oscar_kernel.Bootmem.Invariant.{Area, Disjoint, Inv, Serves, served, no_room, offset-set_area}
use oscar_kernel.Bootmem.Serve.{alloc_paddr-Serves}

-- The page is one of a usable entry of the memory map that ends below 64 GB.
abbrev usable_in : List Ards → ℕ → Bool
usable_in [] x = false
usable_in (a ∷ as') x =
    a.type == 1 && leb (a.base + a.length) 0x1000000000 && visits a.base (a.base + a.length) x
    || usable_in as' x

-- With an empty map the first 4 GB count as usable.
pub usable : List Ards → ℕ → Bool
usable [] x = visits 0 0x100000000 x
usable (a ∷ as') x = usable_in (a ∷ as') x

get-all_busy : (x : ℕ) → get_bootmem_bitmap all_busy x ≡ true
unfolding all_busy get_bootmem_bitmap
get-all_busy x = has_bit-byte (x / 2 ^ 12 % 8) (omega arith)

get-clear_usable :
    (a : Ards) (b : Bootmem) (x : ℕ)
    → get_bootmem_bitmap (clear_usable a b) x ≡ (
        not (
          a.type == 1
          && leb (a.base + a.length) 0x1000000000
          && visits a.base (a.base + a.length) x)
        && get_bootmem_bitmap b x)
unfolding clear_usable
get-clear_usable a b x = ground (arith, get-clear_area b a.base a.length x)

get-clear_all_usable :
    (map_entries : List Ards) (b : Bootmem) (x : ℕ)
    → get_bootmem_bitmap (clear_all_usable map_entries b) x
      ≡ (not (usable_in map_entries x) && get_bootmem_bitmap b x)
unfolding clear_all_usable
get-clear_all_usable [] b x = refl
get-clear_all_usable (a ∷ as') b x =
    ground (arith, get-clear_all_usable as' (clear_usable a b) x, get-clear_usable a b x)

-- After start-up a page is free exactly when it is usable and above the kernel's 16 MB.
pub get-bootmem_init :
    (map_entries : List Ards) (x : ℕ)
    → get_bootmem_bitmap (bootmem_init map_entries) x
      ≡ (ltb x 0x1000000 || not (usable map_entries x))
unfolding bootmem_init is_empty usable
get-bootmem_init [] x = ground (
  arith,
  get-set_area (clear_bootmem_bitmap_area (clear_all_usable [] all_busy) 0 0x100000000) 0 0x1000000
      x,
  get-clear_area (clear_all_usable [] all_busy) 0 0x100000000 x,
  get-clear_all_usable [] all_busy x,
  get-all_busy x,
)
get-bootmem_init (a ∷ as') x = ground (
  arith,
  get-set_area (clear_all_usable (a ∷ as') all_busy) 0 0x1000000 x,
  get-clear_all_usable (a ∷ as') all_busy x,
  get-all_busy x,
)

offset-clear_area_from :
    (left addr end : ℕ) (b : Bootmem)
    → (clear_area_from left addr end b).last_alloc_offset ≡ b.last_alloc_offset
unfolding clear_area_from clear_bootmem_bitmap
offset-clear_area_from zero addr end b = refl
offset-clear_area_from (suc left) addr end b =
    ground (arith, offset-clear_area_from left (addr + 0x1000) end (clear_bootmem_bitmap b addr))

offset-clear_area :
    (b : Bootmem) (paddr size : ℕ)
    → (clear_bootmem_bitmap_area b paddr size).last_alloc_offset ≡ b.last_alloc_offset
unfolding clear_bootmem_bitmap_area
offset-clear_area b paddr size = offset-clear_area_from (size / 0x1000 + 1) paddr (paddr + size) b

offset-clear_all_usable :
    (map_entries : List Ards) (b : Bootmem)
    → (clear_all_usable map_entries b).last_alloc_offset ≡ b.last_alloc_offset
unfolding clear_all_usable clear_usable
offset-clear_all_usable [] b = refl
offset-clear_all_usable (a ∷ as') b =
    ground
      (arith, offset-clear_all_usable as' (clear_usable a b), offset-clear_area b a.base a.length)

offset-bootmem_init : (map_entries : List Ards) → (bootmem_init map_entries).last_alloc_offset ≡ 0
unfolding bootmem_init all_busy
offset-bootmem_init map_entries =
    let b = clear_all_usable map_entries all_busy in
    let b' = if is_empty map_entries then clear_bootmem_bitmap_area b 0 0x100000000 else b in
    ground (
      arith,
      (offset-set_area b' 0 0x1000000).0,
      offset-clear_area b 0 0x100000000,
      offset-clear_all_usable map_entries all_busy,
    )

pub bootmem_init-Inv : (map_entries : List Ards) → Inv (bootmem_init map_entries) []
bootmem_init-Inv map_entries = record {
  taken = tt;
  aligned = omega (arith, offset-bootmem_init map_entries);
  tail = λ ne. absurd (ne (offset-bootmem_init map_entries));
}

-- A run of requests with the areas handed out, newest first.
add_area : Option ℕ → ℕ → List Area → List Area
add_area none size live = live
add_area (some p) size live = record { paddr = p; size = size } ∷ live

pub alloc_all : Bootmem → List ℕ → List Area → List Area
unfolding add_area
alloc_all b [] live = live
alloc_all b (size ∷ sizes) live =
    let (b', p) = alloc_paddr b size in alloc_all b' sizes (add_area p size live)

abbrev pub IsApart : List Area → Type 0
IsApart [] = Unit {0}
IsApart (r ∷ rs) = All (Disjoint r) rs × IsApart rs

Serves-IsApart :
    {b : Bootmem} {live : List Area} {size : ℕ} {r : Bootmem × Option ℕ}
    → Serves b live size r
    → IsApart live
    → Inv r.0 (add_area r.1 size live) × IsApart (add_area r.1 size live)
unfolding add_area
Serves-IsApart (served b' p inv apart_new aligned managed) apart = (inv, (apart_new, apart))
Serves-IsApart (no_room b' inv none_fits) apart = (inv, apart)

alloc_all-IsApart :
    (sizes : List ℕ) (b : Bootmem) (live : List Area)
    → Inv b live
    → IsApart live
    → IsApart (alloc_all b sizes live)
unfolding alloc_all
alloc_all-IsApart [] b live inv apart = apart
alloc_all-IsApart (size ∷ sizes) b live inv apart =
    let kept = Serves-IsApart (alloc_paddr-Serves b live size inv) apart in
    alloc_all-IsApart sizes (alloc_paddr b size).0 (add_area (alloc_paddr b size).1 size live)
      kept.0 kept.1

-- Whatever the memory map and the sequence of requests after start-up, no two areas that the
-- allocator hands out share a byte.
pub bootmem_alloc-IsApart :
    (map_entries : List Ards) (sizes : List ℕ)
    → IsApart (alloc_all (bootmem_init map_entries) sizes [])
bootmem_alloc-IsApart map_entries sizes =
    alloc_all-IsApart sizes (bootmem_init map_entries) [] (bootmem_init-Inv map_entries) tt
