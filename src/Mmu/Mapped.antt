-- ===== src/Mmu/Mapped.antt =====
-- The page tables that arch/x86_64/kvm/vmx/vmx.c and arch/x86_64/mm/fault.c fill, as a walk reads them.
use oscar_kernel.Common.{
  ℕ, ◌+◌, ◌-◌, ◌*◌, ◌/◌, ◌%◌, ◌^◌, ◌≤◌, ◌<◌, ◌≡◌, ◌≢◌, ◌⊎◌, refl, sym, ap, ◌∙◌, inl, inr, bit_or,
  Bool, true, false, not, ◌&&◌, some, Store, ◌==◌, leb, ltb, ==_refl, ==_ne, arith, Bool-cases,
}
use oscar_kernel.Common.Bits.{bit_and-low, has_bit-digit}
use oscar_kernel.Common.Masks.{bit_and-frame, bit_or-disjoint}
use oscar_kernel.Bootmem.{virt_to_phys}
use oscar_kernel.Mmu.{
  pml4t_index, pdpt_index, pd_index, pt_index, pt_entry_addr, large_page, ept_present, pg_present,
  pfn_4kb, offset_4kb, pml4_level, pdpt_level, pd_level, pt_level,
}
use oscar_kernel.Mmu.Map.{
  Pages, slot, table_of, link_table, slot4, linked1, slot3, linked2, slot2, linked3, slot1,
}

-- An entry that leads to a table.
abbrev pub Leads : (ℕ → Bool) → ℕ → Type 0
Leads present e = (present e ≡ true) × (large_page e ≡ false)

-- A walk through entries that lead to tables, down to a page of 4 KB.
walk_to_page :
    (mem : Store) (present : ℕ → Bool) (addr top a4 a3 a2 a1 : ℕ)
    → a4 ≡ slot top (pml4t_index addr)
    → a3 ≡ slot (table_of (mem a4)) (pdpt_index addr)
    → a2 ≡ slot (table_of (mem a3)) (pd_index addr)
    → a1 ≡ slot (table_of (mem a2)) (pt_index addr)
    → present (mem a4) ≡ true
    → Leads present (mem a3)
    → Leads present (mem a2)
    → present (mem a1) ≡ true
    → pml4_level mem present some addr top ≡ some (pfn_4kb (mem a1) + offset_4kb addr)
unfolding pml4_level pdpt_level pd_level pt_level
walk_to_page mem present addr top a4 a3 a2 a1 e4 e3 e2 e1 p4 (p3, l3) (p2, l2) p1 =
    rw (sym e4)
      (rw p4 (rw (sym e3) (rw (p3, l3) (rw (sym e2) (rw (p2, l2) (rw (sym e1) (rw p1 refl)))))))

-- An entry of a frame and flags below it.
pub frame_of_entry :
    (frame flags : ℕ)
    → frame < 2 ^ 52
    → flags < 2 ^ 12
    → pt_entry_addr (bit_or (frame * 2 ^ 12) flags) ≡ frame * 2 ^ 12
frame_of_entry frame flags f l =
    let e = bit_or-disjoint 12 frame flags l in
    let q : (frame * 2 ^ 12 + flags) / 2 ^ 12 ≡ frame = omega arith in
    rw e (bit_and-frame 12 52 (frame * 2 ^ 12 + flags) (omega arith) ∙ rw q refl)

pub entry_flags :
    (frame flags : ℕ) → flags < 2 ^ 12 → bit_or (frame * 2 ^ 12) flags % 2 ^ 12 ≡ flags
entry_flags frame flags l = omega (arith, bit_or-disjoint 12 frame flags l)

pub ept_present_mod : (e : ℕ) → ept_present e ≡ not (e % 8 == 0)
ept_present_mod e = ap (λ (t : ℕ). not (t == 0)) (bit_and-low 3 e)

pub pg_present_mod : (e : ℕ) → pg_present e ≡ not (e % 2 == 0)
pg_present_mod e = ap (λ (t : ℕ). not (t == 0)) (bit_and-low 1 e)

pub large_page_mod : (e : ℕ) → large_page e ≡ (e / 2 ^ 7 % 2 == 1)
large_page_mod e = has_bit-digit e 7 ∙ ground arith

-- A page of the kernel's direct map, and an address outside of a page.
abbrev pub IsPage : ℕ → Type 0
IsPage p = (p % 0x1000 ≡ 0) × (0xFFFF800000000000 ≤ p) × (p + 0x1000 < 2 ^ 64)

abbrev pub Outside : ℕ → ℕ → Type 0
Outside page a = (a < page) ⊎ (page + 0x1000 ≤ a)

pub page_frame : (p : ℕ) → IsPage p → (f : ℕ) × (virt_to_phys p ≡ f * 2 ^ 12) × (f < 2 ^ 35)
unfolding virt_to_phys
page_frame p (aligned, low, high) = ((p - 0xFFFF800000000000) / 2 ^ 12, omega arith, omega arith)

module _ (empty present : ℕ → Bool) (flags : ℕ) where
  -- The slots on the way to an address differ, and the new pages do not hold those above them.
  abbrev pub Apart : Store → ℕ → ℕ → Pages → Type 0
  Apart mem top addr pages =
      let s4 = slot4 empty flags mem top addr pages in
      let s3 = slot3 empty flags mem top addr pages in
      let s2 = slot2 empty flags mem top addr pages in
      let s1 = slot1 empty flags mem top addr pages in
      (s4 ≢ s3)
      × (s4 ≢ s2)
      × (s4 ≢ s1)
      × (s3 ≢ s2)
      × (s3 ≢ s1)
      × (s2 ≢ s1)
      × Outside pages.second s4
      × Outside pages.third s4
      × Outside pages.third s3

  -- What is in the slots above the last leads to tables, where it is not empty.
  abbrev pub Usable : Store → ℕ → ℕ → Pages → Type 0
  Usable mem top addr pages =
      let s4 = slot4 empty flags mem top addr pages in
      let s3 = slot3 empty flags mem top addr pages in
      let s2 = slot2 empty flags mem top addr pages in
      let one = linked1 empty flags mem top addr pages in
      let two = linked2 empty flags mem top addr pages in
      (empty (mem s4) ≡ false → Leads present (mem s4))
      × (empty (one s3) ≡ false → Leads present (one s3))
      × (empty (two s2) ≡ false → Leads present (two s2))

  link-other :
      (mem : Store) (at page a : ℕ)
      → a ≢ at
      → Outside page a
      → link_table empty flags mem at page a ≡ mem a
  unfolding link_table
  link-other mem at page a ne (out) = elim (Bool-cases (empty (mem at))) [
    | inl q ↦
        let outside : (leb page a && ltb a (page + 0x1000)) ≡ false = ground arith in
        rw q (rw (==_ne a at ne) (rw outside refl))
    | inr q ↦ rw q refl
  ]

  module _
      (good : (page : ℕ) → IsPage page → Leads present (bit_or (virt_to_phys page) flags)) where
    link-Leads :
        (mem : Store) (at page : ℕ)
        → IsPage page
        → (empty (mem at) ≡ false → Leads present (mem at))
        → Leads present (link_table empty flags mem at page at)
    unfolding link_table
    link-Leads mem at page is_page old = elim (Bool-cases (empty (mem at))) [
      | inl q ↦ rw q (rw (==_refl at) (good page is_page))
      | inr q ↦ rw q (old q)
    ]

    -- The walk in a memory that agrees with the linked tables in the slots above the last.
    pub walk_linked :
        (mem fin : Store) (top addr : ℕ) (pages : Pages)
        → IsPage pages.first × IsPage pages.second × IsPage pages.third
        → Apart mem top addr pages
        → Usable mem top addr pages
        → ((a : ℕ)
            → a ≢ slot1 empty flags mem top addr pages
            → (a ≡ slot4 empty flags mem top addr pages)
              ⊎ ((a ≡ slot3 empty flags mem top addr pages)
                  ⊎ (a ≡ slot2 empty flags mem top addr pages))
            → fin a ≡ linked3 empty flags mem top addr pages a)
        → present (fin (slot1 empty flags mem top addr pages)) ≡ true
        → pml4_level fin present some addr top
          ≡ some (pfn_4kb (fin (slot1 empty flags mem top addr pages)) + offset_4kb addr)
    walk_linked mem fin top addr pages (p1, p2, p3) (n43, n42, n41, n32, n31, n21, o42, o43, o33)
          (u4, u3, u2) same here =
        let s4 = slot4 empty flags mem top addr pages in
        let s3 = slot3 empty flags mem top addr pages in
        let s2 = slot2 empty flags mem top addr pages in
        let s1 = slot1 empty flags mem top addr pages in
        let one = linked1 empty flags mem top addr pages in
        let two = linked2 empty flags mem top addr pages in
        let three = linked3 empty flags mem top addr pages in
        let l4 = link-Leads mem s4 pages.first p1 u4 in
        let l3 = link-Leads one s3 pages.second p2 u3 in
        let l2 = link-Leads two s2 pages.third p3 u2 in
        let f4 : fin s4 ≡ one s4 =
          same s4 n41 (inl refl)
          ∙ link-other two s2 pages.third s4 n42 o43
          ∙ link-other one s3 pages.second s4 n43 o42 in
        let f3 : fin s3 ≡ two s3 =
          same s3 n31 (inr (inl refl)) ∙ link-other two s2 pages.third s3 n32 o33 in
        let f2 : fin s2 ≡ three s2 = same s2 n21 (inr (inr refl)) in
        walk_to_page fin present addr top s4 s3 s2 s1 refl
          (ap (λ (e : ℕ). slot (table_of e) (pdpt_index addr)) (sym f4))
          (ap (λ (e : ℕ). slot (table_of e) (pd_index addr)) (sym f3))
          (ap (λ (e : ℕ). slot (table_of e) (pt_index addr)) (sym f2)) (ap present f4 ∙ l4.0)
          (ap present f3 ∙ l3.0, ap large_page f3 ∙ l3.1)
          (ap present f2 ∙ l2.0, ap large_page f2 ∙ l2.1) here
