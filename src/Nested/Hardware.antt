-- ===== src/Nested/Hardware.antt =====
-- The processor's side of arch/x86_64/kvm/vmx/nested.c: the current VMCS, its launch state and its fields,
-- and the instructions that change them.
use oscar_kernel.Common.{ℕ, Bool, true, false, Option, none, some, Store, if◌then◌else◌}

-- The three structures of `struct vmx_vcpu` that a processor can work on.
pub data Vmcs : Type 0 where
  vmcs01 vmcs02 shadow_vmcs : Vmcs

abbrev pub same : Vmcs → Vmcs → Bool
same vmcs01 vmcs01 = true
same vmcs02 vmcs02 = true
same shadow_vmcs shadow_vmcs = true
same p q = false

-- The processor: the current VMCS, if any, the launch states and the contents.
pub record Processor : Type 0 where
  pub current : Option Vmcs
  pub launched : Vmcs → Bool
  pub fields : Vmcs → Store

abbrev pub drop : Vmcs → Option Vmcs → Option Vmcs
drop p none = none
drop p (some q) = if same p q then none else some q

-- VMCLEAR, VMPTRLD, and both at a pointer that VMPTRST stored.
unfoldable pub vmclear : Vmcs → Processor → Processor
vmclear p cpu = record cpu {
  current = drop p cpu.current;
  launched = λ q. if same p q then false else cpu.launched q;
}

unfoldable pub vmptr_load : Vmcs → Processor → Processor
vmptr_load p cpu = record cpu { current = some p }

unfoldable pub vmclear_stored : Option Vmcs → Processor → Processor
unfolding vmclear
vmclear_stored none cpu = cpu
vmclear_stored (some p) cpu = vmclear p cpu

unfoldable pub vmptr_load_stored : Option Vmcs → Processor → Processor
unfolding vmptr_load
vmptr_load_stored none cpu = cpu
vmptr_load_stored (some p) cpu = vmptr_load p cpu

-- VMREAD and VMWRITE; without a current VMCS a write is lost.
abbrev pub vmcs_read : Processor → ℕ → ℕ
vmcs_read cpu field = elim cpu.current [ none ↦ 0 | some p ↦ cpu.fields p field ]

abbrev pub write_all : (Store → Store) → Processor → Processor
write_all f cpu = record cpu {
  fields = λ q. elim cpu.current [
    | none ↦ cpu.fields q
    | some p ↦ if same p q then f (cpu.fields q) else cpu.fields q
  ];
}

-- VMLAUNCH fails at a VMCS that is launched, VMRESUME at one that is not, both without a current VMCS and
-- where the processor's checks of the control, host and guest fields, `passes`, fail.
module _ (passes : Store → Bool) where
  unfoldable pub vm_launch_at : Option Vmcs → Processor → Option Processor
  vm_launch_at none cpu = none
  vm_launch_at (some p) cpu =
      if cpu.launched p
      then none
      else if passes (cpu.fields p)
      then some (record cpu { launched = λ q. if same p q then true else cpu.launched q })
      else none

  unfoldable pub vm_resume_at : Option Vmcs → Processor → Option Processor
  vm_resume_at none cpu = none
  vm_resume_at (some p) cpu =
      if cpu.launched p then if passes (cpu.fields p) then some cpu else none else none
