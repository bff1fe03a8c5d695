-- ===== src/Bootmem/Alloc.antt =====
-- `bootmem_alloc` of mm/bootmem.c: no two allocations share a byte.
use oscar_kernel.Common.{
  ℕ, ◌+◌, ◌*◌, ◌/◌, ◌%◌, ◌≤◌, ◌<◌, ◌≡◌, ◌≢◌, ◌∙◌, sym, refl, Option, arith, List, ◌∷◌, All, All-map,
}
use oscar_kernel.Bootmem.{Bootmem, set_bootmem_bitmap_area, alloc_pages, alloc_page}
use oscar_kernel.Bootmem.Page.{get-set_area}
use oscar_kernel.Bootmem.Search.{IsFit, FirstFit, found, full}
use oscar_kernel.Bootmem.Invariant.{
  Area, IsTaken, HasTail, Inv, Serves, served, no_room, search_size, offset-set_area, get-cursor,
  fresh-Disjoint, fresh_page,
}

abbrev pub with_cursor : Bootmem → ℕ → ℕ → Bootmem
with_cursor b offset pfn = record b { last_alloc_offset = offset; last_alloc_pfn = pfn }

module _ (b : Bootmem) (a size offset pfn : ℕ) where
  abbrev after : Bootmem
  after = set_bootmem_bitmap_area (with_cursor b offset pfn) a size

  IsTaken-after : (r : Area) → IsTaken b r → IsTaken after r
  IsTaken-after r h x lo hi =
      ground
        (arith, get-set_area (with_cursor b offset pfn) a size x, get-cursor b offset pfn x, h x)

  IsTaken-new : a % 0x1000 ≡ 0 → IsTaken after (record { paddr = a; size = size })
  IsTaken-new al x lo hi = ground (arith, get-set_area (with_cursor b offset pfn) a size x)

  after_fields : (after.last_alloc_offset ≡ offset) × (after.last_alloc_pfn ≡ pfn)
  after_fields = offset-set_area (with_cursor b offset pfn) a size

take-HasTail :
    (b : Bootmem) (live : List Area) (space a size offset : ℕ)
    → All (IsTaken b) live
    → IsFit b space a
    → size ≤ space
    → 0 < size
    → size ≤ offset
    → HasTail (after b a size offset (a / 0x1000)) (record { paddr = a; size = size } ∷ live)
take-HasTail b live space a size offset inv fit le pos kept =
    let (o, p) = after_fields b a size offset (a / 0x1000) in
    record {
      managed = omega (arith, p, fit.managed);
      marked = simp p (
          IsTaken-new b a size offset (a / 0x1000) fit.aligned (a / 0x1000 * 0x1000)
            (omega (arith, fit.aligned)) (omega (arith, fit.aligned)));
      unused = (
        λ x lo hi above. absurd (omega (arith, p, o, fit.aligned)),
        All-map
            (λ r h x lo hi above.
              let past : a / 0x1000 * 0x1000 + 0x1000 ≤ x =
                fresh_page b live inv space a fit size le r h x lo hi (omega (arith, p, o)) in
              omega (arith, p, past))
            live inv,
      );
    }

-- A fitting address is taken, and the rest of its first page is kept for small requests if
-- `offset` is not 0.
take-Inv :
    (b : Bootmem) (live : List Area) (space a size offset pfn : ℕ)
    → All (IsTaken b) live
    → IsFit b space a
    → size ≤ space
    → offset % 64 ≡ 0
    → (offset ≢ 0 → (a / 0x1000 ≡ pfn) × (0 < size) × (size ≤ offset))
    → Inv (after b a size offset pfn) (record { paddr = a; size = size } ∷ live)
take-Inv b live space a size offset pfn inv fit le al kept = record {
  taken = (
    IsTaken-new b a size offset pfn fit.aligned,
    All-map (IsTaken-after b a size offset pfn) live inv,
  );
  aligned = rw (after_fields b a size offset pfn).0 al;
  tail = λ ne.
      let (same, pos, fits) = kept (λ z. ne ((after_fields b a size offset pfn).0 ∙ z)) in
      rw (← same) (take-HasTail b live space a size offset inv fit le pos fits);
}

-- The same cursor moved off a page: nothing is kept.
Inv-no_tail :
    (b : Bootmem) (live : List Area) (pfn : ℕ)
    → All (IsTaken b) live
    → Inv (with_cursor b 0 pfn) live
Inv-no_tail b live pfn taken = record {
  taken = All-map (λ r h x lo hi. get-cursor b 0 pfn x ∙ h x lo hi) live taken;
  aligned = refl;
  tail = λ ne. absurd (ne refl);
}

IsFit-cursor :
    (b : Bootmem) (offset pfn size x : ℕ) → IsFit b size x → IsFit (with_cursor b offset pfn) size x
IsFit-cursor b offset pfn size x h = record {
  aligned = h.aligned;
  managed = h.managed;
  free = λ y lo hi. get-cursor b offset pfn y ∙ h.free y lo hi;
}

IsFit-cursor_back :
    (b : Bootmem) (offset pfn size x : ℕ) → IsFit (with_cursor b offset pfn) size x → IsFit b size x
IsFit-cursor_back b offset pfn size x h = record {
  aligned = h.aligned;
  managed = h.managed;
  free = λ y lo hi. sym (get-cursor b offset pfn y) ∙ h.free y lo hi;
}

-- A request of a page or more.
pub alloc_pages-Serves :
    (b : Bootmem) (live : List Area) (size : ℕ) (r : Option ℕ)
    → Inv b live
    → 0x1000 ≤ size
    → FirstFit (with_cursor b 0 b.last_alloc_pfn) size 0 r
    → Serves b live size (alloc_pages (with_cursor b 0 b.last_alloc_pfn) size r)
unfolding alloc_pages
alloc_pages-Serves b live size r inv big (found a lo fit first) =
    let fit' = IsFit-cursor_back b 0 b.last_alloc_pfn size a fit in
    served (after b a size 0 b.last_alloc_pfn) a
      (take-Inv b live size a size 0 b.last_alloc_pfn inv.taken fit' (omega arith) refl
        (λ ne. absurd (ne refl)))
      (All-map (λ q h. fresh-Disjoint b live inv.taken size a fit' size (omega arith) q h) live
        inv.taken)
      (omega (arith, fit.aligned)) (omega (arith, fit.managed))
alloc_pages-Serves b live size r inv big (full none_fits) =
    let whole : search_size size ≡ size = ground arith in
    no_room (with_cursor b 0 b.last_alloc_pfn) (Inv-no_tail b live b.last_alloc_pfn inv.taken)
      (rw whole (λ x h. none_fits x (omega arith) (IsFit-cursor b 0 b.last_alloc_pfn size x h)))

-- A small request that starts a new page.
pub alloc_page-Serves :
    (b : Bootmem) (live : List Area) (size offset : ℕ) (r : Option ℕ)
    → Inv b live
    → size < 0x1000
    → offset % 64 ≡ 0
    → (offset ≢ 0 → (0 < size) × (size ≤ offset))
    → FirstFit b 0x1000 0 r
    → Serves b live size (alloc_page b size offset r)
unfolding alloc_page
alloc_page-Serves b live size offset r inv small al kept (found a lo fit first) =
    served (after b a size offset (a / 0x1000)) a
      (take-Inv b live 0x1000 a size offset (a / 0x1000) inv.taken fit (omega arith) al
        (λ ne. (refl, (kept ne).0, (kept ne).1)))
      (All-map (λ q h. fresh-Disjoint b live inv.taken 0x1000 a fit size (omega arith) q h) live
        inv.taken)
      (omega (arith, fit.aligned)) (omega (arith, fit.managed))
alloc_page-Serves b live size offset r inv small al kept (full none_fits) =
    let page : search_size size ≡ 0x1000 = ground arith in
    no_room b inv (rw page (λ x h. none_fits x (omega arith) h))
