-- ===== src/Mmu.antt =====
-- arch/x86_64/kvm/vmx/mmu.c with the macros of arch/x86_64/include/paging.h: the software walks of
-- the guest's page tables, of the extended page tables, and of those a nested hypervisor keeps.
-- Memory is read a 64-bit word at a time; -EINVAL is `none`. The four walks have one body up to the
-- test for presence and the way from an entry to the table it names, which are the parameters
-- `present` and `locate` of the four level functions; the messages are left out.
pub mod Leaf
pub mod Walk
pub mod Map
pub mod Mapped
pub mod Filled
pub mod Shadow
pub mod Guest
pub mod FillTests
pub mod Tests
use oscar_kernel.Common.{
  ℕ, zero, suc, ◌+◌, ◌*◌, ◌/◌, ◌%◌, ◌^◌, bit_and, Bool, true, false, not, Option, none, some, Store,
  ◌==◌, if◌then◌else◌,
}
use oscar_kernel.Bootmem.{phys_to_virt}

-- What the walks use of `struct vmx_vcpu` and `struct vmcs12`.
pub record Vcpu : Type 0 where
  pub eptp_base : ℕ
  pub cr3 : ℕ

pub record Vmcs12 : Type 0 where
  pub ept_pointer : ℕ

abbrev pub pml4t_index : ℕ → ℕ
pml4t_index x = bit_and (x / 2 ^ 39) 0x1ff

abbrev pub pdpt_index : ℕ → ℕ
pdpt_index x = bit_and (x / 2 ^ 30) 0x1ff

abbrev pub pd_index : ℕ → ℕ
pd_index x = bit_and (x / 2 ^ 21) 0x1ff

abbrev pub pt_index : ℕ → ℕ
pt_index x = bit_and (x / 2 ^ 12) 0x1ff

abbrev pub pt_entry_addr : ℕ → ℕ
pt_entry_addr x = bit_and x 0xfffffffffffff000

abbrev pub pfn_1gb : ℕ → ℕ
pfn_1gb x = bit_and x 0xffffffffc0000000

abbrev pub offset_1gb : ℕ → ℕ
offset_1gb x = bit_and x 0x3fffffff

abbrev pub pfn_2mb : ℕ → ℕ
pfn_2mb x = bit_and x 0xffffffffffe00000

abbrev pub offset_2mb : ℕ → ℕ
offset_2mb x = bit_and x 0x1fffff

abbrev pub pfn_4kb : ℕ → ℕ
pfn_4kb x = bit_and x 0xfffffffffffff000

abbrev pub offset_4kb : ℕ → ℕ
offset_4kb x = bit_and x 0xfff

-- `PG_PDPTE_1GB_PAGE`, `PG_PDE_2MB_PAGE` and the two of the extended tables.
abbrev pub large_page : ℕ → Bool
large_page e = not (bit_and e 0x80 == 0)

-- `PG_PML4E_PRESENT` and its like.
abbrev pub pg_present : ℕ → Bool
pg_present e = not (bit_and e 1 == 0)

-- `EPT_PML4E_READ | EPT_PML4E_WRITE | EPT_PML4E_EXECUTE` and its like.
abbrev pub ept_present : ℕ → Bool
ept_present e = not (bit_and e 7 == 0)

-- `table[index]` for a table of 64-bit entries.
abbrev pub table_entry : Store → ℕ → ℕ → ℕ
table_entry mem table index = mem ((table + 8 * index) % 2 ^ 64)

abbrev and_then : Option ℕ → (ℕ → Option ℕ) → Option ℕ
and_then none f = none
and_then (some a) f = f a

module _ (mem : Store) (present : ℕ → Bool) (locate : ℕ → Option ℕ) (addr : ℕ) where
  unfoldable pub pt_level : ℕ → Option ℕ
  pt_level hpa =
      let pte = table_entry mem (phys_to_virt hpa) (pt_index addr) in
      if present pte then some (pfn_4kb pte + offset_4kb addr) else none

  -- At a large page the frame is read out of `pdpte`, not of `pde`.
  unfoldable pub pd_level : ℕ → ℕ → Option ℕ
  unfolding pt_level
  pd_level pdpte hpa =
      let pde = table_entry mem (phys_to_virt hpa) (pd_index addr) in
      if present pde
      then if large_page pde
        then some (pfn_2mb pdpte + offset_2mb addr)
        else and_then (locate (pt_entry_addr pde)) pt_level
      else none

  unfoldable pub pdpt_level : ℕ → Option ℕ
  unfolding pd_level
  pdpt_level hpa =
      let pdpte = table_entry mem (phys_to_virt hpa) (pdpt_index addr) in
      if present pdpte
      then if large_page pdpte
        then some (pfn_1gb pdpte + offset_1gb addr)
        else and_then (locate (pt_entry_addr pdpte)) (pd_level pdpte)
      else none

  -- From the address of the top table, which is already an address of the kernel.
  unfoldable pub pml4_level : ℕ → Option ℕ
  unfolding pdpt_level
  pml4_level table =
      let pml4e = table_entry mem table (pml4t_index addr) in
      if present pml4e then and_then (locate (pt_entry_addr pml4e)) pdpt_level else none

unfoldable pub ept_gpa_to_hpa_any : Store → ℕ → ℕ → Option ℕ
unfolding pml4_level
ept_gpa_to_hpa_any mem eptp_base gpa = pml4_level mem ept_present some gpa eptp_base

unfoldable pub ept_gpa_to_hpa : Store → Vcpu → ℕ → Option ℕ
unfolding pml4_level
ept_gpa_to_hpa mem vcpu gpa = pml4_level mem ept_present some gpa vcpu.eptp_base

-- The guest's own tables, each found through the extended tables.
unfoldable pub paging64_gva_to_gpa : Store → Vcpu → ℕ → Option ℕ
unfolding pml4_level
paging64_gva_to_gpa mem vcpu gva =
    and_then (ept_gpa_to_hpa mem vcpu (pt_entry_addr vcpu.cr3))
      (λ hpa. pml4_level mem pg_present (ept_gpa_to_hpa mem vcpu) gva (phys_to_virt hpa))

unfoldable pub nested_ept_l2gpa_to_l1gpa : Store → Vcpu → Vmcs12 → ℕ → Option ℕ
unfolding pml4_level
nested_ept_l2gpa_to_l1gpa mem vcpu vmcs12 l2gpa =
    and_then (ept_gpa_to_hpa mem vcpu (pt_entry_addr vmcs12.ept_pointer))
      (λ hpa. pml4_level mem ept_present (ept_gpa_to_hpa mem vcpu) l2gpa (phys_to_virt hpa))
