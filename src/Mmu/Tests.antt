-- ===== src/Mmu/Tests.antt =====
-- Runs and witnesses for arch/x86_64/kvm/vmx/mmu.c: an extended table that maps the first 4 KB page of
-- the guest to the frame 0x5000. The tables stand at 0x1000, 0x2000, 0x3000 and 0x4000.
use oscar_kernel.Common.{
  ℕ, ◌*◌, ◌/◌, ◌+◌, ◌^◌, ◌<◌, ◌≡◌, ◌≢◌, refl, sym, subst, ◌∙◌, some, false, Store, ◌%◌, ◌==◌,
  if◌then◌else◌, arith,
}
use mathlib.Core.Option.{map, some-injective}
use oscar_kernel.Bootmem.{phys_to_virt}
use oscar_kernel.Mmu.{
  Vcpu, Vmcs12, ept_present, ept_gpa_to_hpa, pml4_level, pdpt_level, pd_level, pt_level,
  nested_ept_l2gpa_to_l1gpa,
}
use oscar_kernel.Mmu.Leaf.{Leaf, find_leaf, follow, leaf_address, code_address}
use oscar_kernel.Strings.Copy.{inside}
use oscar_kernel.Mmu.Guest.{
  read_guest_memory_gpa, write_guest_memory_gpa, guest_byte, read-guest_byte, write-guest_byte,
}
use oscar_kernel.Mmu.Walk.{ept_gpa_to_hpa_correct, nested_ept-find_leaf}

abbrev memory : Store
memory a =
    if a == 0xFFFF800000001000
    then 0x2007
    else if a == 0xFFFF800000002000
    then 0x3007
    else if a == 0xFFFF800000003000
    then 0x4007
    else if a == 0xFFFF800000004000
    then 0x5007
    else 0

memory-word : (a : ℕ) → memory a < 2 ^ 64
memory-word a = ground arith

memory-low : (a : ℕ) → memory a < 2 ^ 52
memory-low a = ground arith

abbrev vcpu : Vcpu
vcpu = record { eptp_base = 0xFFFF800000001000; cr3 = 0 }

abbrev vmcs12 : Vmcs12
vmcs12 = record { ept_pointer = 0x1e }

abbrev leaf : Leaf
leaf = record { size = 12; parent = 0x4007; entry = 0x5007 }

maps : ept_gpa_to_hpa memory vcpu 0x123 ≡ some 0x5123
unfolding ept_gpa_to_hpa pml4_level pdpt_level pd_level pt_level phys_to_virt
maps = refl

finds : find_leaf memory ept_present some 0x123 3 0 vcpu.eptp_base ≡ some leaf
unfolding find_leaf follow phys_to_virt
finds = refl

no_large_page :
    (l : Leaf) → find_leaf memory ept_present some 0x123 3 0 vcpu.eptp_base ≡ some l → l.size ≢ 21
no_large_page l e =
    subst (λ (x : Leaf). x.size ≢ 21) (some-injective leaf l (sym finds ∙ e)) (omega arith)

ept_gpa_to_hpa_correct_example :
    ept_gpa_to_hpa memory vcpu 0x123
    ≡ map (leaf_address 0x123) (find_leaf memory ept_present some 0x123 3 0 vcpu.eptp_base)
ept_gpa_to_hpa_correct_example = ept_gpa_to_hpa_correct memory memory-low vcpu 0x123 no_large_page

nested_ept-find_leaf_example :
    nested_ept_l2gpa_to_l1gpa memory vcpu vmcs12 0x123
    ≡ map (code_address 0x123) (
        follow (ept_gpa_to_hpa memory vcpu (vmcs12.ept_pointer / 2 ^ 12 * 2 ^ 12)) (λ hpa.
          find_leaf memory ept_present (ept_gpa_to_hpa memory vcpu) 0x123 3 0 (phys_to_virt hpa)))
nested_ept-find_leaf_example =
    nested_ept-find_leaf memory memory-word vcpu vmcs12 0x123 (omega arith)

-- The byte at 0x77 is not in the guest's page.
before : inside (phys_to_virt 0x5123) 16 0x77 ≡ false
unfolding phys_to_virt
before = refl

mapped : (hpa : ℕ) → ept_gpa_to_hpa memory vcpu 0x123 ≡ some hpa → hpa < 2 ^ 46
mapped hpa e =
    subst (λ (h : ℕ). h < 2 ^ 46) (some-injective 0x5123 hpa (sym maps ∙ e)) (omega arith)

read-guest_byte_example :
    map
      (λ (after : Store). after (0x9000 + 5))
      (read_guest_memory_gpa memory vcpu (λ a. a % 256) 0x123 16 0x9000)
    ≡ guest_byte memory vcpu (λ a. a % 256) (0x123 + 5)
read-guest_byte_example =
    read-guest_byte memory vcpu (λ a. a % 256) 0x123 16 0x9000 5 (omega arith) mapped (omega arith)
      (omega arith)

write-guest_byte_example :
    (after : Store) × (write_guest_memory_gpa memory vcpu (λ a. a % 256) 0x123 16 0x9000
      ≡ some after)
    × (guest_byte memory vcpu after (0x123 + 5) ≡ some ((0x9000 + 5) % 256))
    × (after 0x77 ≡ 0x77 % 256)
write-guest_byte_example =
    write-guest_byte memory vcpu (λ a. a % 256) 0x123 0x5123 16 0x9000 5 0x77 (omega arith) maps
      (omega arith) (omega arith) (omega arith) before
