-- ===== src/Nested/Copies.antt =====
-- The copies between `vmcs12` and the shadow VMCS in arch/x86_64/kvm/vmx/nested.c.
use oscar_kernel.Common.{
  ℕ, ◌%◌, ◌<◌, ◌≡◌, ◌⊎◌, refl, sym, ap, subst, ◌∙◌, inl, inr, Bool, true, false, some, Store,
  update, List, [], ◌∷◌, ◌++◌, ◌==◌, if◌then◌else◌, ==_iff, arith, Bool-cases,
}
use native.Mathlib.Nat.{mod-eq_of_lt}
use oscar_kernel.Nested.{
  field_values, copy_out, copy_in, vmcs12_read_any, vmcs12_write_any, Vcpu, shared_fields,
  copy_vmcs12_to_shadow, copy_shadow_to_vmcs12,
}
use oscar_kernel.Nested.Hardware.{
  Vmcs, vmcs01, vmcs02, shadow_vmcs, vmclear, vmptr_load, vmclear_stored, vmptr_load_stored,
}
use oscar_kernel.Nested.Fields.{vmcs_64bit_readonly_fields, vmcs_natural_width_readonly_fields}
use oscar_kernel.Nested.Entry.{with_current, same_current}

abbrev pub IsIn : ℕ → List ℕ → Type 0
IsIn field [] = ⊥
IsIn field (f ∷ fs) = (field ≡ f) ⊎ IsIn field fs

pub IsIn-append : (field : ℕ) (xs ys : List ℕ) → IsIn field xs → IsIn field (xs ++ ys)
IsIn-append field [] ys i = elim i [ ]
IsIn-append field (x ∷ xs) ys (inl e) = inl e
IsIn-append field (x ∷ xs) ys (inr i) = inr (IsIn-append field xs ys i)

IsIn-either : (field : ℕ) (xs ys : List ℕ) → IsIn field (xs ++ ys) → IsIn field xs ⊎ IsIn field ys
IsIn-either field [] ys i = inr i
IsIn-either field (x ∷ xs) ys (inl e) = inl (inl e)
IsIn-either field (x ∷ xs) ys (inr i) = elim (IsIn-either field xs ys i) [
  | inl j ↦ inl (inr j)
  | inr j ↦ inr j
]

-- The fields that `copy_vmcs12_to_shadow` passes through.
abbrev pub copied_fields : List ℕ
copied_fields = shared_fields ++ vmcs_natural_width_readonly_fields

unfoldable pub member : ℕ → List ℕ → Bool
member field [] = false
member field (f ∷ fs) = if field == f then true else member field fs

pub member→IsIn : (field : ℕ) (fs : List ℕ) → member field fs ≡ true → IsIn field fs
unfolding member
member→IsIn field [] m = absurd (ground (arith, m))
member→IsIn field (f ∷ fs) m = elim (Bool-cases (field == f)) [
  | inl q ↦ inl ((==_iff field f).0 q)
  | inr q ↦ inr (member→IsIn field fs (rw q at m))
]

physical_address : IsIn 0x2400 shared_fields
unfolding member
physical_address = member→IsIn 0x2400 shared_fields refl

module _ (supported : ℕ → Bool) where
  copy_out-keeps :
      (fs : List ℕ) (vmcs12 : Store) (value : ℕ) (fields : Store) (field : ℕ)
      → supported field ≡ true
      → fields field ≡ vmcs12 field % field_values field
      → copy_out supported fs vmcs12 value fields field ≡ vmcs12 field % field_values field
  unfolding copy_out
  copy_out-keeps [] vmcs12 value fields field has done = done
  copy_out-keeps (f ∷ fs) vmcs12 value fields field has done =
      let read = vmcs12_read_any supported vmcs12 f value in
      copy_out-keeps fs vmcs12 read (update fields f read) field has
        (elim (Bool-cases (field == f)) [
          | inl q ↦
              let e = (==_iff field f).0 q in
              rw q (ap (λ (x : ℕ). vmcs12_read_any supported vmcs12 x value) (sym e) ∙ rw has refl)
          | inr q ↦ rw q done
        ])

  pub copy_out-copies :
      (fs : List ℕ) (vmcs12 : Store) (value : ℕ) (fields : Store) (field : ℕ)
      → supported field ≡ true
      → IsIn field fs
      → copy_out supported fs vmcs12 value fields field ≡ vmcs12 field % field_values field
  unfolding copy_out
  copy_out-copies [] vmcs12 value fields field has i = elim i [ ]
  copy_out-copies (f ∷ fs) vmcs12 value fields field has (inr later) =
      let read = vmcs12_read_any supported vmcs12 f value in
      copy_out-copies fs vmcs12 read (update fields f read) field has later
  copy_out-copies (f ∷ fs) vmcs12 value fields field has (inl e) =
      let read = vmcs12_read_any supported vmcs12 f value in
      copy_out-keeps fs vmcs12 read (update fields f read) field has (
        rw ((==_iff field f).1 e)
          (ap (λ (x : ℕ). vmcs12_read_any supported vmcs12 x value) (sym e) ∙ rw has refl))

  -- A copy back of fields that agree changes nothing.
  copy_in-keeps :
      (fs : List ℕ) (fields vmcs12 now : Store) (field : ℕ)
      → ((f : ℕ) → IsIn f fs → supported f ≡ true → fields f % field_values f ≡ vmcs12 f)
      → now field ≡ vmcs12 field
      → copy_in supported fs fields now field ≡ vmcs12 field
  unfolding copy_in
  copy_in-keeps [] fields vmcs12 now field agree e = e
  copy_in-keeps (f ∷ fs) fields vmcs12 now field agree e =
      copy_in-keeps fs fields vmcs12 (vmcs12_write_any supported now f (fields f)) field
        (λ g i. agree g (inr i))
        (elim (Bool-cases (supported f)) [
          | inr n ↦ rw n e
          | inl y ↦ rw y (elim (Bool-cases (field == f)) [
            | inl q ↦ rw q (agree f (inl refl) y ∙ ap vmcs12 (sym ((==_iff field f).0 q)))
            | inr q ↦ rw q e
          ])
        ])

  -- What the shadow VMCS holds after the copy out.
  shadow_after : ℕ → Vcpu → Store
  shadow_after junk v =
      copy_out supported copied_fields v.vmcs12 junk (v.processor.fields shadow_vmcs)

  shadow_after-copies :
      (junk : ℕ) (v : Vcpu) (field : ℕ)
      → supported field ≡ true
      → IsIn field copied_fields
      → shadow_after junk v field ≡ v.vmcs12 field % field_values field
  unfolding shadow_after
  shadow_after-copies junk v field has i =
      copy_out-copies copied_fields v.vmcs12 junk (v.processor.fields shadow_vmcs) field has i

  copies_at :
      (junk : ℕ) (beyond : List ℕ) (v : Vcpu) (p : Vmcs)
      → (copy_shadow_to_vmcs12 supported beyond (
          copy_vmcs12_to_shadow supported junk
            (with_current v v.shadow_vmcs_enabled (some p)))).vmcs12
        ≡ copy_in supported
            (shared_fields ++ (vmcs_64bit_readonly_fields ++ beyond))
            (shadow_after junk v)
            v.vmcs12
  unfolding shadow_after with_current copy_shadow_to_vmcs12 copy_vmcs12_to_shadow vmclear vmptr_load
      vmclear_stored vmptr_load_stored
  copies_at junk beyond v vmcs01 = refl
  copies_at junk beyond v vmcs02 = refl
  copies_at junk beyond v shadow_vmcs = refl

  both_copies :
      (junk : ℕ) (beyond : List ℕ) (v : Vcpu) (p : Vmcs)
      → v.processor.current ≡ some p
      → (copy_shadow_to_vmcs12 supported beyond (copy_vmcs12_to_shadow supported junk v)).vmcs12
        ≡ copy_in supported
            (shared_fields ++ (vmcs_64bit_readonly_fields ++ beyond))
            (shadow_after junk v)
            v.vmcs12
  both_copies junk beyond v p current =
      ap
        (λ x.
          (copy_shadow_to_vmcs12 supported beyond (copy_vmcs12_to_shadow supported junk x)).vmcs12)
        (sym (same_current v p current))
      ∙ copies_at junk beyond v p

  -- With a current VMCS, values in `vmcs12` that fit their fields, and no supported field but those that
  -- `copy_vmcs12_to_shadow` writes among what `copy_shadow_to_vmcs12` reads behind the end of its last
  -- list, `copy_shadow_to_vmcs12` after `copy_vmcs12_to_shadow` leaves every field of `vmcs12` as it
  -- was.
  pub copy_shadow_to_vmcs12-copy_vmcs12_to_shadow :
      (junk : ℕ) (beyond : List ℕ) (v : Vcpu) (p : Vmcs)
      → v.processor.current ≡ some p
      → ((field : ℕ) → v.vmcs12 field < field_values field)
      → ((field : ℕ) → IsIn field beyond → supported field ≡ true → IsIn field copied_fields)
      → (field : ℕ)
      → (copy_shadow_to_vmcs12 supported beyond (copy_vmcs12_to_shadow supported junk v)).vmcs12
          field
        ≡ v.vmcs12 field
  copy_shadow_to_vmcs12-copy_vmcs12_to_shadow junk beyond v p current fits known field =
      ap (λ (m : Store). m field) (both_copies junk beyond v p current)
      ∙ copy_in-keeps (shared_fields ++ (vmcs_64bit_readonly_fields ++ beyond))
          (shadow_after junk v) v.vmcs12 v.vmcs12 field agree refl
    where
      back :
          (f : ℕ)
          → IsIn f copied_fields
          → supported f ≡ true
          → shadow_after junk v f % field_values f ≡ v.vmcs12 f
      back f i has =
          ap (λ (x : ℕ). x % field_values f)
            (shadow_after-copies junk v f has i ∙ mod-eq_of_lt (fits f))
          ∙ mod-eq_of_lt (fits f)

      shared : (f : ℕ) → IsIn f shared_fields → IsIn f copied_fields
      shared f i = IsIn-append f shared_fields vmcs_natural_width_readonly_fields i

      agree :
          (f : ℕ)
          → IsIn f (shared_fields ++ (vmcs_64bit_readonly_fields ++ beyond))
          → supported f ≡ true
          → shadow_after junk v f % field_values f ≡ v.vmcs12 f
      agree f i has = elim (IsIn-either f shared_fields (vmcs_64bit_readonly_fields ++ beyond) i) [
        | inl j ↦ back f (shared f j) has
        | inr (inl e) ↦
            back f (shared f (subst (λ x. IsIn x shared_fields) (sym e) physical_address)) has
        | inr (inr j) ↦ back f (known f j has) has
      ]
