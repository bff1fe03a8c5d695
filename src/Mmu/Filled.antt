-- ===== src/Mmu/Filled.antt =====
-- What `ept_map_page` of arch/x86_64/kvm/vmx/vmx.c and `alloc_new_page` of arch/x86_64/mm/fault.c
-- achieve: the walks find the page.
use oscar_kernel.Common.{
  ℕ, ◌+◌, ◌*◌, ◌/◌, ◌%◌, ◌^◌, ◌<◌, ◌≡◌, ◌≢◌, refl, sym, ap, ◌∙◌, bit_or, Bool, true, false, some,
  Store, update, ==_refl, ==_ne, arith,
}
use oscar_kernel.Common.Bits.{bit_and-low}
use oscar_kernel.Bootmem.{virt_to_phys}
use oscar_kernel.Mmu.{ept_present, pt_entry_addr, pfn_4kb, offset_4kb, ept_gpa_to_hpa_any}
use oscar_kernel.Mmu.Map.{Pages, linked3, slot1, is_zero, ept_map_page, page_attr}
use oscar_kernel.Mmu.Mapped.{
  Leads, IsPage, Apart, Usable, page_frame, frame_of_entry, entry_flags, ept_present_mod,
  large_page_mod, walk_linked,
}

-- A new table's entry leads to the table.
ept_table-Leads : (page : ℕ) → IsPage page → Leads ept_present (bit_or (virt_to_phys page) 0x107)
ept_table-Leads page is_page =
    let (f, e, small) = page_frame page is_page in
    let low = entry_flags f 0x107 (omega arith) in
    rw e (ept_present_mod _ ∙ ground (arith, low), large_page_mod _ ∙ ground (arith, low))

-- With pages from the kernel's direct map for the new tables, different slots on the way down that the
-- new pages do not hold, and entries there that are zero or lead to tables, after `ept_map_page` of a
-- page of 4 KB at a page-aligned address of 64 bits, with an attribute below 4096 that allows some
-- access, the walk of the extended tables takes every address to this page and its offset.
pub ept_map_page-maps :
    (mem : Store) (eptp_base gpa hpa attribute : ℕ) (pages : Pages)
    → IsPage pages.first × IsPage pages.second × IsPage pages.third
    → Apart is_zero ept_present 0x107 mem eptp_base gpa pages
    → Usable is_zero ept_present 0x107 mem eptp_base gpa pages
    → (hpa % 0x1000 ≡ 0) × (hpa < 2 ^ 64)
    → (attribute < 0x1000) × (attribute % 8 ≢ 0)
    → ept_gpa_to_hpa_any (ept_map_page mem eptp_base gpa hpa 0x1000 attribute pages) eptp_base gpa
      ≡ some (hpa + gpa % 2 ^ 12)
unfolding ept_gpa_to_hpa_any ept_map_page
ept_map_page-maps mem top gpa hpa attribute pages are_pages apart usable (aligned, small)
      (attr, access) =
    let at = slot1 is_zero 0x107 mem top gpa pages in
    let linked = linked3 is_zero 0x107 mem top gpa pages in
    let entry = bit_or hpa attribute in
    let fin = update linked at entry in
    let here : fin at ≡ entry = rw (==_refl at) refl in
    let frame : hpa ≡ hpa / 2 ^ 12 * 2 ^ 12 = omega arith in
    let low : entry % 2 ^ 12 ≡ attribute =
      ap (λ (t : ℕ). bit_or t attribute % 2 ^ 12) frame
      ∙ entry_flags (hpa / 2 ^ 12) attribute attr in
    let address : pt_entry_addr entry ≡ hpa =
      ap (λ (t : ℕ). pt_entry_addr (bit_or t attribute)) frame
      ∙ frame_of_entry (hpa / 2 ^ 12) attribute (omega arith) attr
      ∙ sym frame in
    let present : ept_present entry ≡ true = ept_present_mod entry ∙ ground (arith, low) in
    walk_linked is_zero ept_present 0x107 ept_table-Leads mem fin top gpa pages are_pages apart
      usable (λ a ne s. rw (==_ne a at ne) refl) (ap ept_present here ∙ present)
    ∙ ap (λ (e : ℕ). some (pfn_4kb e + offset_4kb gpa)) here
    ∙ ap some
        (ap (λ (t : ℕ). t + offset_4kb gpa) address ∙ ap (λ (t : ℕ). hpa + t) (bit_and-low 12 gpa))

-- The flags of a page that may be executed.
flags_of : ℕ → Bool → ℕ
flags_of cpl rd_only = bit_or 1 (page_attr cpl rd_only false)
