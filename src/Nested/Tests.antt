-- ===== src/Nested/Tests.antt =====
-- Witnesses for arch/x86_64/kvm/vmx/nested.c: a machine as `vmx_init` leaves it, after an entry and a
-- VMLAUNCH of the guest's hypervisor, and with the nested guest running.
use oscar_kernel.Common.{
  sym, subst, inl, inr, All, List, ◌∷◌, ltb, ◌^◌, ℕ, ◌<◌, ◌≡◌, refl, Bool, true, false, [], some,
  Store, arith, if◌then◌else◌,
}
use oscar_kernel.Nested.{
  Vcpu, field_values, copy_shadow_to_vmcs12, copy_vmcs12_to_shadow, nested_vmx_vmexit,
}
use oscar_kernel.Nested.Hardware.{vmcs01, vmcs02, same, Processor}
use oscar_kernel.Nested.Copies.{
  IsIn, member, copied_fields, member→IsIn, copy_shadow_to_vmcs12-copy_vmcs12_to_shadow,
}
use oscar_kernel.Nested.Registers.{
  GeneralRegs, kvm_reg_read, kvm_reg_write, decode_mem_address, sign_extend64,
}
use oscar_kernel.Nested.Exit.{Returned, nested_vmx_vmexit-Returned}

abbrev has_all : ℕ → Bool
has_all field = true

abbrev prepare : Store → Store → Store
prepare vmcs12 fields = fields

abbrev cleared : Processor
cleared = record { current = some vmcs01; launched = λ p. false; fields = λ p field. field }

abbrev fresh : Vcpu
fresh = record {
  state = 0;
  guest_mode = 0;
  shadow_vmcs_enabled = true;
  rip = 0x7c00;
  rsp = 0x1000;
  vmcs12 = λ field. 7;
  processor = cleared;
}

abbrev running : Vcpu
running = record fresh {
  state = 1;
  processor = record cleared { launched = λ p. if same vmcs01 p then true else false };
}

-- The processor's checks, as far as they are of these fields: an instruction pointer.
abbrev entry_point : Store → Bool
entry_point fields = ltb (fields 0x681e) (2 ^ 48)

fits : (field : ℕ) → fresh.vmcs12 field < field_values field
fits field = ground arith

-- The first five fields of `vmcs_64bit_guest_state_fields`, the next list of nested.c.
abbrev behind : List ℕ
behind = 0x2800 ∷ 0x2802 ∷ 0x2804 ∷ 0x2806 ∷ 0x2808 ∷ []

All-copied :
    (fs : List ℕ)
    → All (λ f. member f copied_fields ≡ true) fs
    → (field : ℕ) → IsIn field fs
    → IsIn field copied_fields
All-copied [] h field i = elim i [ ]
All-copied (f ∷ fs) (h, hs) field (inl e) =
    subst (λ x. IsIn x copied_fields) (sym e) (member→IsIn f copied_fields h)
All-copied (f ∷ fs) (h, hs) field (inr i) = All-copied fs hs field i

behind_members : All (λ f. member f copied_fields ≡ true) behind
unfolding member
behind_members = (refl, (refl, (refl, (refl, (refl, tt)))))

behind-copied : (field : ℕ) → IsIn field behind → has_all field ≡ true → IsIn field copied_fields
behind-copied field i has = All-copied behind behind_members field i

copy_shadow_to_vmcs12-copy_vmcs12_to_shadow_example :
    (copy_shadow_to_vmcs12 has_all behind (copy_vmcs12_to_shadow has_all 0 fresh)).vmcs12 0x681e
    ≡ fresh.vmcs12 0x681e
copy_shadow_to_vmcs12-copy_vmcs12_to_shadow_example =
    copy_shadow_to_vmcs12-copy_vmcs12_to_shadow has_all 0 behind fresh vmcs01 refl fits
      behind-copied 0x681e

abbrev nested : Vcpu
nested = record fresh { guest_mode = 1; processor = record cleared { current = some vmcs02 } }

nested_vmx_vmexit-Returned_example :
    Returned has_all 10 0 5 nested (nested_vmx_vmexit has_all prepare 0 [] 10 0 5 nested)
nested_vmx_vmexit-Returned_example =
    nested_vmx_vmexit-Returned has_all prepare 0 [] nested 10 0 5 refl

abbrev no_regs : GeneralRegs
no_regs = record {
  rax = 0;
  rcx = 0;
  rdx = 0;
  rbx = 0;
  rsp = 0;
  rbp = 0;
  rsi = 0;
  rdi = 0;
  r8 = 0;
  r9 = 0;
  r10 = 0;
  r11 = 0;
  r12 = 0;
  r13 = 0;
  r14 = 0;
  r15 = 0;
}

-- The displacement -8 of a 32-bit address on rsp, without an index.
decodes : decode_mem_address 0 (kvm_reg_write no_regs 4 0x1008) 0xfffffff8 0x2400080 ≡ 0x1000
unfolding decode_mem_address kvm_reg_read kvm_reg_write sign_extend64
decodes = refl
