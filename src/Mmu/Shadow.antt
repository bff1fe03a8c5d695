-- ===== src/Mmu/Shadow.antt =====
-- `nested_vmx_handle_ept_volation` of arch/x86_64/kvm/vmx/nested.c: the tables on which the nested guest
-- runs are filled from what the two walks give. 1 is returned where a walk fails.
use oscar_kernel.Common.{
  ℕ, ◌*◌, ◌/◌, ◌^◌, ◌<◌, ◌≡◌, refl, ap, ◌∙◌, Option, none, some, Store, arith,
}
use oscar_kernel.Mmu.{
  Vcpu, Vmcs12, ept_present, pt_entry_addr, ept_gpa_to_hpa, ept_gpa_to_hpa_any,
  nested_ept_l2gpa_to_l1gpa,
}
use oscar_kernel.Mmu.Map.{Pages, table_of, is_zero, ept_map_page}
use oscar_kernel.Mmu.Mapped.{IsPage, Apart, Usable}
use oscar_kernel.Mmu.Filled.{ept_map_page-maps}
use oscar_kernel.Mmu.Walk.{page_base, ept_gpa_to_hpa_offset, nested_ept_offset}

-- From the address that a walk gave, if any.
abbrev or_failed : Store → Option ℕ → (ℕ → ℕ × Store) → ℕ × Store
or_failed mem none f = (1, mem)
or_failed mem (some a) f = f a

-- `ept_pointer` is what the current VMCS has, `l2gpa` its guest-physical address.
unfoldable pub nested_vmx_handle_ept_volation : Store → Vcpu → Vmcs12 → ℕ → ℕ → Pages → ℕ × Store
nested_vmx_handle_ept_volation mem vcpu vmcs12 ept_pointer l2gpa pages =
    or_failed mem (nested_ept_l2gpa_to_l1gpa mem vcpu vmcs12 l2gpa) (λ l1gpa.
      or_failed mem (ept_gpa_to_hpa mem vcpu l1gpa) (λ hpa.
        (0, ept_map_page mem (table_of ept_pointer) l2gpa (pt_entry_addr hpa) 0x1000 0x37 pages)))

-- On memory of 64-bit words, with a 64-bit EPT pointer of the nested hypervisor, where its tables take
-- the address to one that the extended tables take to a 64-bit host address, and with pages and slots as
-- for `ept_map_page`, `nested_vmx_handle_ept_volation` returns 0, and the tables on which the nested
-- guest runs take its address to this very host address.
pub handle_ept_volation-maps :
    (mem : Store) (vcpu : Vcpu) (vmcs12 : Vmcs12) (ept_pointer l2gpa l1gpa hpa : ℕ) (pages : Pages)
    → ((a : ℕ) → mem a < 2 ^ 64)
    → vmcs12.ept_pointer < 2 ^ 64
    → nested_ept_l2gpa_to_l1gpa mem vcpu vmcs12 l2gpa ≡ some l1gpa
    → ept_gpa_to_hpa mem vcpu l1gpa ≡ some hpa
    → hpa < 2 ^ 64
    → IsPage pages.first × IsPage pages.second × IsPage pages.third
    → Apart is_zero ept_present 0x107 mem (table_of ept_pointer) l2gpa pages
    → Usable is_zero ept_present 0x107 mem (table_of ept_pointer) l2gpa pages
    → ((nested_vmx_handle_ept_volation mem vcpu vmcs12 ept_pointer l2gpa pages).0 ≡ 0)
      × (ept_gpa_to_hpa_any
            (nested_vmx_handle_ept_volation mem vcpu vmcs12 ept_pointer l2gpa pages).1
            (table_of ept_pointer)
            l2gpa
          ≡ some hpa)
unfolding nested_vmx_handle_ept_volation
handle_ept_volation-maps mem vcpu vmcs12 ept_pointer l2gpa l1gpa hpa pages words small nested outer
      fits are_pages apart usable =
    rw (nested, outer, page_base hpa fits)
      (
        refl,
        ept_map_page-maps mem (table_of ept_pointer) l2gpa (hpa / 2 ^ 12 * 2 ^ 12) 0x37 pages
              are_pages apart usable (omega arith, omega arith) (omega arith, omega arith)
            ∙ ap some (
                omega (
                  arith,
                  ept_gpa_to_hpa_offset mem words vcpu l1gpa hpa outer,
                  nested_ept_offset mem words vcpu vmcs12 l2gpa l1gpa small nested,
                )),
      )
