-- ===== src/Mmu/FillTests.antt =====
-- Witnesses for the functions that fill page tables, on a memory of zeros with the top table at
-- 0xFFFF800000001000 and the new pages after it.
use oscar_kernel.Common.{
  ℕ, ◌<◌, ◌==◌, if◌then◌else◌, ◌+◌, ◌%◌, ◌^◌, ◌≡◌, refl, inl, some, Store, arith,
}
use oscar_kernel.Bootmem.{phys_to_virt, virt_to_phys}
use oscar_kernel.Mmu.{
  Vcpu, Vmcs12, ept_present, pml4_level, pdpt_level, pd_level, pt_level, ept_gpa_to_hpa,
  ept_gpa_to_hpa_any, nested_ept_l2gpa_to_l1gpa,
}
use oscar_kernel.Mmu.Shadow.{nested_vmx_handle_ept_volation, handle_ept_volation-maps}
use oscar_kernel.Mmu.Map.{Pages, table_of, link_table, is_zero, ept_map_page}
use oscar_kernel.Mmu.Mapped.{IsPage, Apart, Usable}
use oscar_kernel.Mmu.Filled.{ept_map_page-maps}

abbrev zeros : Store
zeros a = 0

abbrev pages : Pages
pages = record {
  first = 0xFFFF800000002000;
  second = 0xFFFF800000003000;
  third = 0xFFFF800000004000;
  fourth = 0xFFFF800000005000;
}

pages-IsPage : IsPage pages.first × IsPage pages.second × IsPage pages.third
pages-IsPage = (
  (refl, omega arith, omega arith),
  (refl, omega arith, omega arith),
  (refl, omega arith, omega arith),
)

ept-Apart : Apart is_zero ept_present 0x107 zeros 0xFFFF800000001000 0x123 pages
unfolding link_table phys_to_virt virt_to_phys
ept-Apart = (
  omega arith,
  omega arith,
  omega arith,
  omega arith,
  omega arith,
  omega arith,
  inl (omega arith),
  inl (omega arith),
  inl (omega arith),
)

ept-Usable : Usable is_zero ept_present 0x107 zeros 0xFFFF800000001000 0x123 pages
unfolding link_table phys_to_virt virt_to_phys
ept-Usable = (
  (λ e. absurd (ground (arith, e))),
  (λ e. absurd (ground (arith, e))),
  (λ e. absurd (ground (arith, e))),
)

ept_map_page-maps_example :
    ept_gpa_to_hpa_any
      (ept_map_page zeros 0xFFFF800000001000 0x123 0x9000 0x1000 0x37 pages)
      0xFFFF800000001000
      0x123
    ≡ some (0x9000 + 0x123 % 2 ^ 12)
ept_map_page-maps_example =
    ept_map_page-maps zeros 0xFFFF800000001000 0x123 0x9000 0x37 pages pages-IsPage ept-Apart
      ept-Usable (refl, omega arith) (omega arith, omega arith)

-- A nested hypervisor whose tables, one page that refers to itself, take its first page to itself, on
-- extended tables that take this page to 0x5000; the nested guest's own top table is empty.
abbrev nested_memory : Store
nested_memory a =
    if a == 0xFFFF800000001000
    then 0x2007
    else if a == 0xFFFF800000002000
    then 0x3007
    else if a == 0xFFFF800000003000
    then 0x4007
    else if a == 0xFFFF800000004000
    then 0x5007
    else if a == 0xFFFF800000005000
    then 7
    else 0

abbrev level1 : Vcpu
level1 = record { eptp_base = 0xFFFF800000001000; cr3 = 0 }

abbrev level2 : Vmcs12
level2 = record { ept_pointer = 0x1e }

abbrev shadow_pages : Pages
shadow_pages = record {
  first = 0xFFFF800000007000;
  second = 0xFFFF800000008000;
  third = 0xFFFF800000009000;
  fourth = 0xFFFF80000000A000;
}

shadow_pages-IsPage :
    IsPage shadow_pages.first × IsPage shadow_pages.second × IsPage shadow_pages.third
shadow_pages-IsPage = (
  (refl, omega arith, omega arith),
  (refl, omega arith, omega arith),
  (refl, omega arith, omega arith),
)

nested-word : (a : ℕ) → nested_memory a < 2 ^ 64
nested-word a = ground arith

nested_walk : nested_ept_l2gpa_to_l1gpa nested_memory level1 level2 0x123 ≡ some 0x123
unfolding nested_ept_l2gpa_to_l1gpa ept_gpa_to_hpa pml4_level pdpt_level pd_level pt_level
    phys_to_virt
nested_walk = refl

outer_walk : ept_gpa_to_hpa nested_memory level1 0x123 ≡ some 0x5123
unfolding ept_gpa_to_hpa pml4_level pdpt_level pd_level pt_level phys_to_virt
outer_walk = refl

shadow-Apart : Apart is_zero ept_present 0x107 nested_memory (table_of 0x601e) 0x123 shadow_pages
unfolding link_table phys_to_virt virt_to_phys
shadow-Apart = (
  omega arith,
  omega arith,
  omega arith,
  omega arith,
  omega arith,
  omega arith,
  inl (omega arith),
  inl (omega arith),
  inl (omega arith),
)

shadow-Usable : Usable is_zero ept_present 0x107 nested_memory (table_of 0x601e) 0x123 shadow_pages
unfolding link_table phys_to_virt virt_to_phys
shadow-Usable = (
  (λ e. absurd (ground (arith, e))),
  (λ e. absurd (ground (arith, e))),
  (λ e. absurd (ground (arith, e))),
)

handle_ept_volation-maps_example :
    ((nested_vmx_handle_ept_volation nested_memory level1 level2 0x601e 0x123 shadow_pages).0 ≡ 0)
    × (ept_gpa_to_hpa_any
          (nested_vmx_handle_ept_volation nested_memory level1 level2 0x601e 0x123 shadow_pages).1
          (table_of 0x601e)
          0x123
        ≡ some 0x5123)
handle_ept_volation-maps_example =
    handle_ept_volation-maps nested_memory level1 level2 0x601e 0x123 0x123 0x5123 shadow_pages
      nested-word (omega arith) nested_walk outer_walk (omega arith) shadow_pages-IsPage
      shadow-Apart shadow-Usable
