-- ===== src/Bootmem/Invariant.antt =====
-- What holds between calls of `bootmem_alloc` of mm/bootmem.c, with the areas handed out so far.
use oscar_kernel.Common.{
  ℕ, zero, suc, ◌+◌, ◌*◌, ◌/◌, ◌%◌, ◌^◌, ◌≤◌, ◌<◌, ◌≡◌, ◌≢◌, refl, true, Option, none, some, ltb,
  leb, if◌then◌else◌, arith, Bool-cases, inl, inr, List, ◌∷◌, All,
}
use oscar_kernel.Bootmem.{
  Bootmem, get_bootmem_bitmap, set_bootmem_bitmap, set_area_from, set_bootmem_bitmap_area, roundup,
}
use oscar_kernel.Bootmem.Search.{IsFit}

pub record Area : Type 0 where
  pub paddr : ℕ
  pub size : ℕ

abbrev pub Disjoint : Area → Area → Type 0
Disjoint r s = (x : ℕ) → r.paddr ≤ x → x < r.paddr + r.size → s.paddr ≤ x → x < s.paddr + s.size → ⊥

abbrev pub IsTaken : Bootmem → Area → Type 0
IsTaken b r = (x : ℕ) → r.paddr ≤ x → x < r.paddr + r.size → get_bootmem_bitmap b x ≡ true

-- No byte of the area is in the page `pfn` at or past the offset.
abbrev pub Avoids : ℕ → ℕ → Area → Type 0
Avoids pfn offset r =
    (x : ℕ)
    → r.paddr ≤ x
    → x < r.paddr + r.size
    → pfn * 0x1000 + offset ≤ x
    → pfn * 0x1000 + 0x1000 ≤ x

-- The rest of the page that small requests are served from.
pub record HasTail (b : Bootmem) (live : List Area) : Type 0 where
  pub managed : b.last_alloc_pfn * 0x1000 + 0x1000 ≤ 2 ^ 36
  pub marked : get_bootmem_bitmap b (b.last_alloc_pfn * 0x1000) ≡ true
  pub unused : All (Avoids b.last_alloc_pfn b.last_alloc_offset) live

-- What holds between calls, with the areas handed out so far.
pub record Inv (b : Bootmem) (live : List Area) : Type 0 where
  pub taken : All (IsTaken b) live
  pub aligned : b.last_alloc_offset % 64 ≡ 0
  pub tail : b.last_alloc_offset ≢ 0 → HasTail b live

abbrev pub search_size : ℕ → ℕ
search_size size = if leb 0x1000 size then size else 0x1000

-- What one call promises.
pub data Serves (b : Bootmem) (live : List Area) (size : ℕ) : Bootmem × Option ℕ → Type 0 where
  served :
      (b' : Bootmem) (p : ℕ)
      → Inv b' (record { paddr = p; size = size } ∷ live)
      → All (Disjoint (record { paddr = p; size = size })) live
      → p % 64 ≡ 0
      → p + size ≤ 2 ^ 36
      → Serves b live size (b', some p)
  no_room :
      (b' : Bootmem)
      → Inv b' live
      → ((x : ℕ) → ¬ IsFit b (search_size size) x)
      → Serves b live size (b', none)

offset-set_area_from :
    (left addr end : ℕ) (b : Bootmem)
    → ((set_area_from left addr end b).last_alloc_offset ≡ b.last_alloc_offset)
      × ((set_area_from left addr end b).last_alloc_pfn ≡ b.last_alloc_pfn)
unfolding set_area_from set_bootmem_bitmap
offset-set_area_from zero addr end b = (refl, refl)
offset-set_area_from (suc left) addr end b =
    let rest = offset-set_area_from left (addr + 0x1000) end (set_bootmem_bitmap b addr) in
    ground (arith, rest.0, rest.1)

pub offset-set_area :
    (b : Bootmem) (paddr size : ℕ)
    → ((set_bootmem_bitmap_area b paddr size).last_alloc_offset ≡ b.last_alloc_offset)
      × ((set_bootmem_bitmap_area b paddr size).last_alloc_pfn ≡ b.last_alloc_pfn)
unfolding set_bootmem_bitmap_area
offset-set_area b paddr size = offset-set_area_from (size / 0x1000 + 1) paddr (paddr + size) b

pub get-cursor :
    (b : Bootmem) (offset pfn x : ℕ)
    → get_bootmem_bitmap (record b { last_alloc_offset = offset; last_alloc_pfn = pfn }) x
      ≡ get_bootmem_bitmap b x
unfolding get_bootmem_bitmap
get-cursor b offset pfn x = refl

pub roundup_bounds :
    (x : ℕ) → (x ≤ roundup x 64) × (roundup x 64 < x + 64) × (roundup x 64 % 64 ≡ 0)
unfolding roundup
roundup_bounds x = omega arith

-- Taking `size` bytes at a fitting address.
module _ (b : Bootmem) (live : List Area) (inv : All (IsTaken b) live) (space a : ℕ)
    (fit : IsFit b space a) (size : ℕ) (le : size ≤ space) where
  pub fresh-Disjoint : (r : Area) → IsTaken b r → Disjoint (record { paddr = a; size = size }) r
  fresh-Disjoint r h x lo hi lo' hi' = cc (h x lo' hi', fit.free x lo (omega arith))

  pub fresh_page : (r : Area) → IsTaken b r → Avoids (a / 0x1000) 0 r
  fresh_page r h x lo hi above = elim (Bool-cases (ltb x (a + 0x1000))) [
    | inl inside ↦ cc (h x lo hi, fit.free x (omega (arith, fit.aligned)) (ground arith))
    | inr past ↦ ground (arith, fit.aligned)
  ]
