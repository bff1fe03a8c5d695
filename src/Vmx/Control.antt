-- ===== src/Vmx/Control.antt =====
-- What `vmx_handle_cr_access` of arch/x86_64/kvm/vmx/vmx.c leaves in the fields of 64-bit mode.
use oscar_kernel.Common.{
  ℕ, ◌+◌, ◌/◌, ◌%◌, ◌^◌, ◌≡◌, ◌⊎◌, refl, ◌∙◌, inl, inr, true, false, Store, bit_or, update, ◌==◌,
  Bool-cases, arith,
}
use oscar_kernel.Common.Bits.{has_bit, has_bit-set, has_bit-digit, digit-bit_or, digit-lt}
use oscar_kernel.Nested.Registers.{kvm_reg_read}
use oscar_kernel.Vmx.Handlers.{
  Guest, guest_cr0, guest_cr4, guest_ia32_efer, guest_tr_ar_bytes, vm_entry_controls,
  cr0_read_shadow, cr4_read_shadow, exit_qualification, vmx_enter_longmode, write_cr0, guest_cr3,
  vmx_handle_cr_access,
}

-- The fields that put a guest into 64-bit mode: protection and paging in CR0, PAE in CR4, the enable and
-- active bits of EFER, the mode bit among the entry controls, and a task register that is present
-- with a busy 64-bit TSS.
pub record IsLongMode (fields : Store) : Type 0 where
  pub protection : has_bit (fields guest_cr0) 0 ≡ true
  pub paging : has_bit (fields guest_cr0) 31 ≡ true
  pub pae : has_bit (fields guest_cr4) 5 ≡ true
  pub enabled : has_bit (fields guest_ia32_efer) 8 ≡ true
  pub active : has_bit (fields guest_ia32_efer) 10 ≡ true
  pub mode : has_bit (fields vm_entry_controls) 9 ≡ true
  pub task : fields guest_tr_ar_bytes ≡ 0x8b

module _ (x : ℕ) where
  efer_bits : (has_bit (bit_or x 0x500) 8 ≡ true) × (has_bit (bit_or x 0x500) 10 ≡ true)
  efer_bits = (
    has_bit-digit (bit_or x 0x500) 8 ∙ ground (arith, digit-bit_or 8 x 0x500, digit-lt 8 x),
    has_bit-digit (bit_or x 0x500) 10 ∙ ground (arith, digit-bit_or 10 x 0x500, digit-lt 10 x),
  )

  cr0_bits :
      (has_bit (bit_or (bit_or x (2 ^ 0)) (2 ^ 31)) 0 ≡ true)
      × (has_bit (bit_or (bit_or x (2 ^ 0)) (2 ^ 31)) 31 ≡ true)
  cr0_bits = (
    has_bit-set (bit_or x (2 ^ 0)) 31 0 ∙ has_bit-set x 0 0,
    has_bit-set (bit_or x (2 ^ 0)) 31 31,
  )

enter-IsLongMode : (g : Guest) → IsLongMode (vmx_enter_longmode g).vmcs
unfolding vmx_enter_longmode
enter-IsLongMode g = record {
  protection = (cr0_bits (g.vmcs guest_cr0)).0;
  paging = (cr0_bits (g.vmcs guest_cr0)).1;
  pae = has_bit-set (g.vmcs guest_cr4) 5 5;
  enabled = (efer_bits (g.vmcs guest_ia32_efer)).0;
  active = (efer_bits (g.vmcs guest_ia32_efer)).1;
  mode = has_bit-set (g.vmcs vm_entry_controls) 9 9;
  task = refl;
}

-- The guest with the value in the shadow of CR0.
abbrev shadowed : Guest → ℕ → Guest
shadowed g val = record g { cr0_shadow = val; vmcs = update g.vmcs cr0_read_shadow val }

-- A guest that has turned on paging, by the shadow of CR0, and has 64-bit mode enabled in EFER, has the
-- fields of 64-bit mode.
abbrev pub IsModeSafe : Store → Type 0
IsModeSafe fields =
    (has_bit (fields cr0_read_shadow) 31 ≡ false)
    ⊎ ((has_bit (fields guest_ia32_efer) 8 ≡ false) ⊎ IsLongMode fields)

-- Other fields do not matter.
same_mode :
    (a b : Store)
    → b cr0_read_shadow ≡ a cr0_read_shadow
    → b guest_ia32_efer ≡ a guest_ia32_efer
    → b guest_cr0 ≡ a guest_cr0
    → b guest_cr4 ≡ a guest_cr4
    → b vm_entry_controls ≡ a vm_entry_controls
    → b guest_tr_ar_bytes ≡ a guest_tr_ar_bytes
    → IsModeSafe a
    → IsModeSafe b
same_mode a b shadow efer cr0 cr4 controls tr (inl off) = inl (rw shadow off)
same_mode a b shadow efer cr0 cr4 controls tr (inr (inl off)) = inr (inl (rw efer off))
same_mode a b shadow efer cr0 cr4 controls tr (inr (inr m)) = inr (
    inr (record {
      protection = rw cr0 m.protection;
      paging = rw cr0 m.paging;
      pae = rw cr4 m.pae;
      enabled = rw efer m.enabled;
      active = rw efer m.active;
      mode = rw controls m.mode;
      task = rw tr m.task;
    }))

write_cr0-IsModeSafe : (val : ℕ) (g : Guest) → IsModeSafe (write_cr0 val g).vmcs
write_cr0-IsModeSafe val g = elim (Bool-cases (has_bit val 31)) [
  | inr off ↦ rw off (inl off)
  | inl paging ↦ elim (Bool-cases (has_bit (g.vmcs guest_ia32_efer) 8)) [
    | inr off ↦ rw (paging, off) (inr (inl off))
    | inl enabled ↦ rw (paging, enabled) (inr (inr (enter-IsLongMode (shadowed g val))))
  ]
]

write_cr0_rest :
    (val : ℕ) (g : Guest)
    → ((write_cr0 val g).rip ≡ g.rip) × ((write_cr0 val g).vmcs 0x440c ≡ g.vmcs 0x440c)
unfolding vmx_enter_longmode
write_cr0_rest val g = elim (Bool-cases (has_bit val 31)) [
  | inr off ↦ rw off (refl, refl)
  | inl paging ↦ elim (Bool-cases (has_bit (g.vmcs guest_ia32_efer) 8)) [
    | inr off ↦ rw (paging, off) (refl, refl)
    | inl enabled ↦ rw (paging, enabled) (refl, refl)
  ]
]

rip_after : {r s l k : ℕ} → (r ≡ s) × (l ≡ k) → (r + l) % 2 ^ 64 ≡ (s + k) % 2 ^ 64
rip_after (e, d) = rw (e, d) refl

-- Whatever control register the guest accesses, with whatever operand, `vmx_handle_cr_access` keeps that
-- a guest with paging in the shadow of CR0 and 64-bit mode enabled in EFER has the fields of 64-bit mode
-- in its VMCS, and the guest goes on behind the instruction.
pub cr_access-IsModeSafe :
    (g : Guest)
    → IsModeSafe g.vmcs
    → IsModeSafe (vmx_handle_cr_access g).vmcs
      × ((vmx_handle_cr_access g).rip ≡ (g.rip + g.vmcs 0x440c) % 2 ^ 64)
unfolding vmx_handle_cr_access vmx_enter_longmode
cr_access-IsModeSafe g safe =
    let cr = g.vmcs exit_qualification % 16 in
    let val = kvm_reg_read 0 g.regs (g.vmcs exit_qualification / 2 ^ 8 % 16) in
    elim (Bool-cases (cr == 0)) [
      | inl q ↦ rw q (write_cr0-IsModeSafe val g, rip_after (write_cr0_rest val g))
      | inr q ↦ rw q (elim (Bool-cases (cr == 3)) [
        | inl r ↦ rw r (
          same_mode g.vmcs (update g.vmcs guest_cr3 val) refl refl refl refl refl refl safe,
          refl,
        )
        | inr r ↦ rw r (elim (Bool-cases (cr == 4)) [
          | inl s ↦ rw s (
            same_mode g.vmcs (update g.vmcs cr4_read_shadow g.cr0_shadow) refl refl refl refl refl
                refl safe,
            refl,
          )
          | inr s ↦ rw s (safe, refl)
        ])
      ])
    ]
