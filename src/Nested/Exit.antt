-- ===== src/Nested/Exit.antt =====
-- What `nested_vmx_vmexit` of arch/x86_64/kvm/vmx/nested.c leaves in the fields.
use oscar_kernel.Common.{
  ℕ, ◌%◌, ◌^◌, ◌≡◌, ◌≢◌, refl, subst, Bool, true, false, some, Store, List, if◌then◌else◌, ==_ne,
}
use oscar_kernel.Nested.{
  Vcpu, field_values, copy_vmcs12_to_shadow, copy_shadow_to_vmcs12_host, sync_vmcs12, assign,
  nested_vmx_vmexit, guest_rip, guest_rsp, host_rip, host_rsp,
}
use oscar_kernel.Nested.Hardware.{
  vmcs01, vmcs02, shadow_vmcs, vmclear, vmptr_load, vmclear_stored, vmptr_load_stored,
}
use oscar_kernel.Nested.Copies.{IsIn, copied_fields, copy_out-copies}
use oscar_kernel.Nested.Entry.{with_current, same_current}

-- Where L1's entry is, from the shadow VMCS if there is one.
abbrev pub host_entry : Vcpu → ℕ → ℕ
host_entry v field =
    if v.shadow_vmcs_enabled then v.processor.fields shadow_vmcs field % 2 ^ 64 else v.vmcs12 field

-- What L1 finds after the exit of its guest.
unfoldable pub Returned : (ℕ → Bool) → ℕ → ℕ → ℕ → Vcpu → Vcpu → Type 0
Returned supported reason intr qualification v after =
    (after.rip ≡ host_entry v host_rip)
    × (after.rsp ≡ host_entry v host_rsp)
    × (after.processor.fields vmcs01 guest_rip ≡ host_entry v host_rip)
    × (after.processor.fields vmcs01 guest_rsp ≡ host_entry v host_rsp)
    × ((field : ℕ)
        → field ≢ guest_rip
        → field ≢ guest_rsp
        → after.processor.fields vmcs01 field ≡ v.processor.fields vmcs01 field)
    × (after.vmcs12 0x4402 ≡ reason)
    × (after.vmcs12 0x4404 ≡ intr)
    × (after.vmcs12 0x6400 ≡ qualification)
    × (after.vmcs12 guest_rip ≡ v.processor.fields vmcs02 guest_rip % 2 ^ 64)
    × ((field : ℕ)
        → supported field ≡ true
        → IsIn field copied_fields
        → after.processor.fields shadow_vmcs field ≡ (
            if v.shadow_vmcs_enabled
            then after.vmcs12 field % field_values field
            else v.processor.fields shadow_vmcs field))

module _ (supported : ℕ → Bool) (prepared : Store → Store → Store) (junk : ℕ)
    (beyond : List ℕ) where
  Returned-at :
      (v : Vcpu) (shadow : Bool) (reason intr qualification : ℕ)
      → Returned supported reason intr qualification (with_current v shadow (some vmcs02)) (
          nested_vmx_vmexit supported prepared junk beyond reason intr qualification
            (with_current v shadow (some vmcs02)))
  unfolding Returned with_current nested_vmx_vmexit copy_shadow_to_vmcs12_host sync_vmcs12
      copy_vmcs12_to_shadow vmclear vmptr_load vmclear_stored vmptr_load_stored assign
  Returned-at v true reason intr qualification = (
    refl,
    refl,
    refl,
    refl,
    (λ f i s. rw (==_ne f guest_rsp s, ==_ne f guest_rip i) refl),
    refl,
    refl,
    refl,
    refl,
    (λ f has i.
        copy_out-copies supported copied_fields _ junk (v.processor.fields shadow_vmcs) f has i),
  )
  Returned-at v false reason intr qualification = (
    refl,
    refl,
    refl,
    refl,
    (λ f i s. rw (==_ne f guest_rsp s, ==_ne f guest_rip i) refl),
    refl,
    refl,
    refl,
    refl,
    (λ f has i. refl),
  )

  -- With vmcs02 current, after `nested_vmx_vmexit` L1 goes on at its host entry, read from the shadow
  -- VMCS if there is one and from `vmcs12` otherwise, in the registers and in vmcs01, whose other
  -- fields are as they were, and finds in `vmcs12` the reason, the interruption information and the
  -- qualification that were given, and the instruction pointer at which its guest stopped; and every
  -- supported field that `copy_vmcs12_to_shadow` copies, these among them, has the value of `vmcs12` in
  -- the shadow VMCS if there is one, so that L1's VMREAD finds it, and is as it was there otherwise.
  pub nested_vmx_vmexit-Returned :
      (v : Vcpu) (reason intr qualification : ℕ)
      → v.processor.current ≡ some vmcs02
      → Returned supported reason intr qualification v
          (nested_vmx_vmexit supported prepared junk beyond reason intr qualification v)
  nested_vmx_vmexit-Returned v reason intr qualification current =
      subst
        (λ x.
          Returned supported reason intr qualification x
            (nested_vmx_vmexit supported prepared junk beyond reason intr qualification x))
        (same_current v vmcs02 current)
        (Returned-at v v.shadow_vmcs_enabled reason intr qualification)
