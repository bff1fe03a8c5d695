-- ===== src/Bootmem/Serve.antt =====
-- `bootmem_alloc` of mm/bootmem.c on every branch, and any number of calls in a row.
use oscar_kernel.Common.{
  ℕ, ◌+◌, ◌*◌, ◌%◌, ◌≤◌, ◌<◌, ◌≡◌, ◌≢◌, ◌∙◌, refl, true, ltb, leb, ◌==◌, if◌then◌else◌, arith,
  Bool-cases, ==_iff, inl, inr, List, ◌∷◌, All-map,
}
use oscar_kernel.Bootmem.{
  Bootmem, get_bootmem_bitmap, find_free_bitmap, roundup, alloc_across, alloc_page, alloc_in_page,
  alloc_paddr,
}
use oscar_kernel.Bootmem.Page.{get-page}
use oscar_kernel.Bootmem.Search.{find_free_bitmap-FirstFit}
use oscar_kernel.Bootmem.Invariant.{
  Area, Disjoint, IsTaken, Avoids, HasTail, Inv, Serves, served, get-cursor,
}
use oscar_kernel.Bootmem.Alloc.{with_cursor, alloc_pages-Serves, alloc_page-Serves}

-- The offset after a request that fits its page, 0 when the page is used up.
next_offset :
    (offset size : ℕ)
    → offset + size ≤ 0x1000
    → let next = roundup ((offset + size) % 0x1000) 64 in
      (next % 64 ≡ 0) × (next ≢ 0 → (offset + size ≤ next) × (0 < offset + size))
unfolding roundup
next_offset offset size fits = (omega arith, λ ne. omega arith)

-- A small request served from the rest of the page.
module _ (b : Bootmem) (live : List Area) (size : ℕ) (inv : Inv b live)
    (used : b.last_alloc_offset ≢ 0) (fits : b.last_alloc_offset + size ≤ 0x1000) where
  abbrev next : ℕ
  next = roundup ((b.last_alloc_offset + size) % 0x1000) 64

  abbrev start : ℕ
  start = b.last_alloc_pfn * 0x1000 + b.last_alloc_offset

  abbrev piece : Area
  piece = record { paddr = start; size = size }

  in_page-Disjoint : (r : Area) → Avoids b.last_alloc_pfn b.last_alloc_offset r → Disjoint piece r
  in_page-Disjoint r h x lo hi lo' hi' = absurd (omega (arith, h x lo' hi' lo))

  in_page-IsTaken : IsTaken (with_cursor b next b.last_alloc_pfn) piece
  in_page-IsTaken x lo hi =
      get-cursor b next b.last_alloc_pfn x
      ∙ get-page b x (b.last_alloc_pfn * 0x1000) (omega arith)
      ∙ (inv.tail used).marked

  in_page-HasTail : next ≢ 0 → HasTail (with_cursor b next b.last_alloc_pfn) (piece ∷ live)
  in_page-HasTail ne =
      let grown = (next_offset b.last_alloc_offset size fits).1 ne in
      record {
        managed = (inv.tail used).managed;
        marked =
            get-cursor b next b.last_alloc_pfn (b.last_alloc_pfn * 0x1000) ∙ (inv.tail used).marked;
        unused = (
          λ x lo hi above. absurd (omega arith),
          All-map (λ r h x lo hi above. h x lo hi (omega arith)) live (inv.tail used).unused,
        );
      }

  alloc_in_page-Serves : Serves b live size (alloc_in_page b size)
  unfolding alloc_in_page
  alloc_in_page-Serves =
      served (with_cursor b next b.last_alloc_pfn) start
        (record {
          taken = (
            in_page-IsTaken,
            All-map (λ r h x lo hi. get-cursor b next b.last_alloc_pfn x ∙ h x lo hi) live
                inv.taken,
          );
          aligned = (next_offset b.last_alloc_offset size fits).0;
          tail = in_page-HasTail;
        })
        (All-map in_page-Disjoint live (inv.tail used).unused) (omega (arith, inv.aligned))
        (omega (arith, (inv.tail used).managed))

-- The page of `last_alloc_pfn` is marked whenever some of it has been handed out, so the branch that
-- would carry an allocation over into the next page is never taken.
pub no_alloc_across :
    (b : Bootmem) (live : List Area) (size : ℕ)
    → Inv b live
    → size < 0x1000
    → 0x1000 < b.last_alloc_offset + size
    → get_bootmem_bitmap b (b.last_alloc_pfn * 0x1000 + size) ≡ true
no_alloc_across b live size inv small over =
    get-page b (b.last_alloc_pfn * 0x1000 + size) (b.last_alloc_pfn * 0x1000) (omega arith)
    ∙ (inv.tail (omega arith)).marked

alloc_small-Serves :
    (b : Bootmem) (live : List Area) (size : ℕ)
    → Inv b live
    → size < 0x1000
    → Serves b live size (
        if ltb 0x1000 (b.last_alloc_offset + size)
        then (if get_bootmem_bitmap b (b.last_alloc_pfn * 0x1000 + size)
            then alloc_page b size 0 (find_free_bitmap b 0x1000)
            else alloc_across b size)
        else if b.last_alloc_offset == 0
        then alloc_page b size
            (roundup ((b.last_alloc_offset + size) % 0x1000) 64)
            (find_free_bitmap b 0x1000)
        else alloc_in_page b size)
alloc_small-Serves b live size inv small =
    elim (Bool-cases (ltb 0x1000 (b.last_alloc_offset + size))) [
      | inl over ↦
          rw (over, no_alloc_across b live size inv small (ground arith))
            (alloc_page-Serves b live size 0 (find_free_bitmap b 0x1000) inv small refl
              (λ ne. absurd (ne refl)) (find_free_bitmap-FirstFit b 0x1000))
      | inr fits ↦ rw fits (elim (Bool-cases (b.last_alloc_offset == 0)) [
        | inl unused ↦
            let zero_offset : b.last_alloc_offset ≡ 0 = (==_iff _ _).0 unused in
            let next = next_offset b.last_alloc_offset size (ground arith) in
            rw unused (
              alloc_page-Serves b live size (roundup ((b.last_alloc_offset + size) % 0x1000) 64)
                (find_free_bitmap b 0x1000) inv small next.0
                (λ ne. omega (arith, zero_offset, next.1 ne)) (find_free_bitmap-FirstFit b 0x1000))
        | inr used ↦ rw used (alloc_in_page-Serves b live size inv (ground arith) (ground arith))
      ])
    ]

-- On a state that satisfies the invariant with the areas handed out so far, every call serves an
-- area of managed memory that is 64-byte aligned and shares no byte with those areas, and keeps the
-- invariant, or finds that no place fits.
pub alloc_paddr-Serves :
    (b : Bootmem) (live : List Area) (size : ℕ)
    → Inv b live
    → Serves b live size (alloc_paddr b size)
unfolding alloc_paddr
alloc_paddr-Serves b live size inv = elim (Bool-cases (leb 0x1000 size)) [
  | inl big ↦ rw big (
      alloc_pages-Serves b live size _ inv (ground arith)
        (find_free_bitmap-FirstFit (with_cursor b 0 b.last_alloc_pfn) size))
  | inr small ↦ rw small (alloc_small-Serves b live size inv (ground arith))
]
