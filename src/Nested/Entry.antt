-- ===== src/Nested/Entry.antt =====
-- One entry of `vmx_run` (arch/x86_64/kvm/vmx/vmx.c) from a state whose launch states are what `state` says.
use oscar_kernel.Common.{
  ℕ, ◌≡◌, ◌⊎◌, refl, sym, ap, ◌∙◌, inl, inr, Bool, true, false, not, Option, some, none, Store,
  ◌==◌, if◌then◌else◌, Bool-cases,
}
use oscar_kernel.Nested.{Vcpu, entered_with, enter}
use oscar_kernel.Nested.Hardware.{
  Vmcs, vmcs01, vmcs02, shadow_vmcs, same, Processor, vm_launch_at, vm_resume_at,
}

-- The VMCS of the level that runs is current, its launch state is what `state` says, and the VMCS of the
-- other level is clear.
unfoldable pub Consistent : Vcpu → Type 0
Consistent v =
    ((v.guest_mode ≡ 0)
      × (v.processor.current ≡ some vmcs01)
      × (v.processor.launched vmcs01 ≡ not (v.state == 0))
      × (v.processor.launched vmcs02 ≡ false))
    ⊎ ((v.guest_mode ≡ 1)
        × (v.processor.current ≡ some vmcs02)
        × (v.processor.launched vmcs02 ≡ not (v.state == 0))
        × (v.processor.launched vmcs01 ≡ false))

-- The state with a VMCS written out as the current one.
unfoldable pub with_current : Vcpu → Bool → Option Vmcs → Vcpu
with_current v shadow current = record v {
  shadow_vmcs_enabled = shadow;
  processor = record v.processor { current = current };
}

pub same_current :
    (v : Vcpu) (p : Vmcs)
    → v.processor.current ≡ some p
    → with_current v v.shadow_vmcs_enabled (some p) ≡ v
unfolding with_current
same_current v p q = ap (with_current v v.shadow_vmcs_enabled) (sym q)

same_refl : (p : Vmcs) → same p p ≡ true
same_refl vmcs01 = refl
same_refl vmcs02 = refl
same_refl shadow_vmcs = refl

entered_if :
    (v : Vcpu) (state : ℕ) (b : Bool) (cpu : Processor)
    → entered_with v state (if b then some cpu else none)
      ≡ (if b then some (record v { state = state; processor = cpu }) else none)
entered_if v state true cpu = refl
entered_if v state false cpu = refl

-- An entry at a current VMCS whose launch state is what `state` says.
enter_at :
    (passes : Store → Bool) (v : Vcpu) (p : Vmcs)
    → v.processor.current ≡ some p
    → v.processor.launched p ≡ not (v.state == 0)
    → (after : Vcpu) × (enter passes v
        ≡ (if passes (v.processor.fields p) then some after else none))
      × (after.guest_mode ≡ v.guest_mode)
      × (after.processor.current ≡ some p)
      × ((after.state == 0) ≡ false)
      × (after.processor.launched p ≡ true)
      × ((q : Vmcs) → same p q ≡ false → after.processor.launched q ≡ v.processor.launched q)
unfolding enter vm_launch_at vm_resume_at
enter_at passes v p current launched = elim (Bool-cases (v.state == 0)) [
  | inl z ↦
      let cpu : Processor = record v.processor {
        launched = λ q. if same p q then true else v.processor.launched q;
      } in
      let off : v.processor.launched p ≡ false = launched ∙ ap not z in
      let now : vm_launch_at passes v.processor.current v.processor
          ≡ (if passes (v.processor.fields p) then some cpu else none) =
        ap (λ c. vm_launch_at passes c v.processor) current ∙ rw off refl in
      let result : Vcpu = record v { state = 1; processor = cpu } in
      (
        result,
        rw z (ap (entered_with v 1) now ∙ entered_if v 1 (passes (v.processor.fields p)) cpu),
        refl,
        current,
        refl,
        rw (same_refl p) refl,
        λ q d. rw d refl,
      )
  | inr z ↦
      let on : v.processor.launched p ≡ true = launched ∙ ap not z in
      let now : vm_resume_at passes v.processor.current v.processor
          ≡ (if passes (v.processor.fields p) then some v.processor else none) =
        ap (λ c. vm_resume_at passes c v.processor) current ∙ rw on refl in
      (
        v,
        rw z (
            ap (entered_with v v.state) now
            ∙ entered_if v v.state (passes (v.processor.fields p)) v.processor),
        refl,
        current,
        z,
        on,
        λ q d. refl,
      )
]

pub enter-Consistent :
    (passes : Store → Bool) (v : Vcpu)
    → Consistent v
    → (p : Vmcs) × (after : Vcpu) × (v.processor.current ≡ some p)
      × (enter passes v ≡ (if passes (v.processor.fields p) then some after else none))
      × Consistent after
unfolding Consistent
enter-Consistent passes v (inl (mode, current, launched, clear)) =
    let (after, e, m, c, running, on, others) = enter_at passes v vmcs01 current launched in
    (
      vmcs01,
      after,
      current,
      e,
      inl (m ∙ mode, c, on ∙ sym (ap not running), others vmcs02 refl ∙ clear),
    )
enter-Consistent passes v (inr (mode, current, launched, clear)) =
    let (after, e, m, c, running, on, others) = enter_at passes v vmcs02 current launched in
    (
      vmcs02,
      after,
      current,
      e,
      inr (m ∙ mode, c, on ∙ sym (ap not running), others vmcs01 refl ∙ clear),
    )
