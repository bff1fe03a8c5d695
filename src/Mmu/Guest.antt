-- ===== src/Mmu/Guest.antt =====
-- Accesses to the memory of a guest: `read_guest_memory_gpa` and `write_guest_memory_gpa` of
-- arch/x86_64/kvm/vmx/vmx.c. The extended tables are words in `mem`, and the memory that is copied is bytes in
-- `bytes`: no copy changes a table.
use oscar_kernel.Common.{
  ℕ, ◌+◌, ◌/◌, ◌%◌, ◌^◌, ◌≤◌, ◌<◌, ◌≡◌, refl, ap, ◌∙◌, Bool, Option, some, Store, false, arith, inl,
  inr, Bool-cases, Option-cases,
}
use mathlib.Core.Option.{map}
use oscar_kernel.Common.Bits.{bit_and-low}
use oscar_kernel.Bootmem.{phys_to_virt}
use oscar_kernel.Strings.{memcpy}
use oscar_kernel.Strings.Copy.{memcpy-moves, inside}
use oscar_kernel.Mmu.{
  Vcpu, pml4t_index, pdpt_index, pd_index, pt_index, offset_1gb, offset_2mb, offset_4kb,
  table_entry, large_page, pt_entry_addr, pt_level, pd_level, pdpt_level, pml4_level, ept_present,
  ept_gpa_to_hpa,
}

-- `none` is the error of the walk. Where the copy is made the code returns no value of its own; what is given
-- then is the memory after it.
unfoldable pub read_guest_memory_gpa : Store → Vcpu → Store → ℕ → ℕ → ℕ → Option Store
read_guest_memory_gpa mem vcpu bytes gpa size buffer =
    map (λ hpa. memcpy bytes buffer (phys_to_virt hpa) size) (ept_gpa_to_hpa mem vcpu gpa)

unfoldable pub write_guest_memory_gpa : Store → Vcpu → Store → ℕ → ℕ → ℕ → Option Store
write_guest_memory_gpa mem vcpu bytes gpa size buffer =
    map (λ hpa. memcpy bytes (phys_to_virt hpa) buffer size) (ept_gpa_to_hpa mem vcpu gpa)

index_near :
    (gpa i : ℕ)
    → gpa % 0x1000 + i < 0x1000
    → ((gpa + i) / 2 ^ 39 ≡ gpa / 2 ^ 39)
      × ((gpa + i) / 2 ^ 30 ≡ gpa / 2 ^ 30)
      × ((gpa + i) / 2 ^ 21 ≡ gpa / 2 ^ 21)
      × ((gpa + i) / 2 ^ 12 ≡ gpa / 2 ^ 12)
index_near gpa i h = (omega (arith, h), omega (arith, h), omega (arith, h), omega (arith, h))

offset_near :
    (gpa i : ℕ)
    → gpa % 0x1000 + i < 0x1000
    → (offset_1gb (gpa + i) ≡ offset_1gb gpa + i)
      × (offset_2mb (gpa + i) ≡ offset_2mb gpa + i)
      × (offset_4kb (gpa + i) ≡ offset_4kb gpa + i)
offset_near gpa i h = (
  rw (bit_and-low 30 (gpa + i), bit_and-low 30 gpa) (omega (arith, h)),
  rw (bit_and-low 21 (gpa + i), bit_and-low 21 gpa) (omega (arith, h)),
  rw (bit_and-low 12 (gpa + i), bit_and-low 12 gpa) (omega (arith, h)),
)

module _ (mem : Store) (present : ℕ → Bool) (gpa i : ℕ) (h : gpa % 0x1000 + i < 0x1000) where
  pt_near :
      (hpa : ℕ)
      → pt_level mem present some (gpa + i) hpa
        ≡ map (λ a. a + i) (pt_level mem present some gpa hpa)
  unfolding pt_level
  pt_near hpa =
      rw ((index_near gpa i h).3, (offset_near gpa i h).2)
        (elim (Bool-cases (present (table_entry mem (phys_to_virt hpa) (pt_index gpa)))) [
          | inl p ↦ rw p (ap some (omega arith))
          | inr p ↦ rw p refl
        ])

  pd_near :
      (pdpte hpa : ℕ)
      → pd_level mem present some (gpa + i) pdpte hpa
        ≡ map (λ a. a + i) (pd_level mem present some gpa pdpte hpa)
  unfolding pd_level
  pd_near pdpte hpa =
      let pde = table_entry mem (phys_to_virt hpa) (pd_index gpa) in
      rw ((index_near gpa i h).2, (offset_near gpa i h).1)
        (elim (Bool-cases (present pde)) [
          | inl p ↦ rw p (elim (Bool-cases (large_page pde)) [
            | inl l ↦ rw l (ap some (omega arith))
            | inr l ↦ rw l (pt_near (pt_entry_addr pde))
          ])
          | inr p ↦ rw p refl
        ])

  pdpt_near :
      (hpa : ℕ)
      → pdpt_level mem present some (gpa + i) hpa
        ≡ map (λ a. a + i) (pdpt_level mem present some gpa hpa)
  unfolding pdpt_level
  pdpt_near hpa =
      let pdpte = table_entry mem (phys_to_virt hpa) (pdpt_index gpa) in
      rw ((index_near gpa i h).1, (offset_near gpa i h).0)
        (elim (Bool-cases (present pdpte)) [
          | inl p ↦ rw p (elim (Bool-cases (large_page pdpte)) [
            | inl l ↦ rw l (ap some (omega arith))
            | inr l ↦ rw l (pd_near pdpte (pt_entry_addr pdpte))
          ])
          | inr p ↦ rw p refl
        ])

  pml4_near :
      (table : ℕ)
      → pml4_level mem present some (gpa + i) table
        ≡ map (λ a. a + i) (pml4_level mem present some gpa table)
  unfolding pml4_level
  pml4_near table =
      let pml4e = table_entry mem table (pml4t_index gpa) in
      rw ((index_near gpa i h).0) (elim (Bool-cases (present pml4e)) [
        | inl p ↦ rw p (pdpt_near (pt_entry_addr pml4e))
        | inr p ↦ rw p refl
      ])

-- Within a page the walk goes on with the address.
pub ept_gpa_to_hpa_near :
    (mem : Store) (vcpu : Vcpu) (gpa i : ℕ)
    → gpa % 0x1000 + i < 0x1000
    → ept_gpa_to_hpa mem vcpu (gpa + i) ≡ map (λ hpa. hpa + i) (ept_gpa_to_hpa mem vcpu gpa)
unfolding ept_gpa_to_hpa
ept_gpa_to_hpa_near mem vcpu gpa i h = pml4_near mem ept_present gpa i h vcpu.eptp_base

-- The byte of the guest's memory at an address, by a walk of its own.
unfoldable pub guest_byte : Store → Vcpu → Store → ℕ → Option ℕ
guest_byte mem vcpu bytes gpa = map (λ hpa. bytes (phys_to_virt hpa)) (ept_gpa_to_hpa mem vcpu gpa)

-- The page of a frame is in the kernel's direct map.
abbrev pub IsDirect : Store → Vcpu → ℕ → Type 0
IsDirect mem vcpu gpa = (hpa : ℕ) → ept_gpa_to_hpa mem vcpu gpa ≡ some hpa → hpa < 2 ^ 46

phys_to_virt_near :
    (hpa i : ℕ)
    → hpa < 2 ^ 46
    → i < 0x1000
    → (phys_to_virt (hpa + i) ≡ phys_to_virt hpa + i) × (0 < phys_to_virt hpa)
unfolding phys_to_virt
phys_to_virt_near hpa i h l = (omega (arith, h, l), omega (arith, h, l))

-- Where the bytes asked for lie in one page whose frame is in the kernel's direct map, and the buffer is not at
-- NULL, `read_guest_memory_gpa` puts at each place of the buffer the byte that a walk for its own address finds,
-- and it fails where this walk fails.
pub read-guest_byte :
    (mem : Store) (vcpu : Vcpu) (bytes : Store) (gpa size buffer i : ℕ)
    → gpa % 0x1000 + size ≤ 0x1000
    → IsDirect mem vcpu gpa
    → 0 < buffer
    → i < size
    → map
        (λ (after : Store). after (buffer + i))
        (read_guest_memory_gpa mem vcpu bytes gpa size buffer)
      ≡ guest_byte mem vcpu bytes (gpa + i)
unfolding read_guest_memory_gpa guest_byte
read-guest_byte mem vcpu bytes gpa size buffer i fits direct there lt =
    rw (ept_gpa_to_hpa_near mem vcpu gpa i (omega (arith, fits, lt)))
      (elim (Option-cases (ept_gpa_to_hpa mem vcpu gpa)) [
        | inl q ↦ rw q refl
        | inr (hpa, q) ↦
            let near = phys_to_virt_near hpa i (direct hpa q) (omega (arith, fits, lt)) in
            rw q (
              ap some (
                memcpy-moves bytes buffer (phys_to_virt hpa) size (buffer + i) there near.1
                ∙ ground (arith, near.0, lt)))
      ])

-- Where the walk finds the page of the address in the kernel's direct map, the bytes lie in this page and the buffer
-- is not at NULL, `write_guest_memory_gpa` makes each byte of the guest's memory, by a walk for its own address, the
-- one that the buffer had, and changes no other byte.
pub write-guest_byte :
    (mem : Store) (vcpu : Vcpu) (bytes : Store) (gpa hpa size buffer i x : ℕ)
    → gpa % 0x1000 + size ≤ 0x1000
    → ept_gpa_to_hpa mem vcpu gpa ≡ some hpa
    → hpa < 2 ^ 46
    → 0 < buffer
    → i < size
    → inside (phys_to_virt hpa) size x ≡ false
    → (after : Store) × (write_guest_memory_gpa mem vcpu bytes gpa size buffer ≡ some after)
      × (guest_byte mem vcpu after (gpa + i) ≡ some (bytes (buffer + i)))
      × (after x ≡ bytes x)
unfolding write_guest_memory_gpa guest_byte
write-guest_byte mem vcpu bytes gpa hpa size buffer i x fits found small there lt outside =
    let near = phys_to_virt_near hpa i small (omega (arith, fits, lt)) in
    let dst = phys_to_virt hpa in
    (
      memcpy bytes dst buffer size,
      rw found refl,
      rw (ept_gpa_to_hpa_near mem vcpu gpa i (omega (arith, fits, lt)), found)
          (ap some (
            ap (memcpy bytes dst buffer size) near.0
            ∙ memcpy-moves bytes dst buffer size (dst + i) near.1 there
            ∙ ground (arith, lt))),
      memcpy-moves bytes dst buffer size x near.1 there ∙ rw outside refl,
    )
