-- ===== src/Nested/Launch.antt =====
-- The launch states of arch/x86_64/kvm/vmx/nested.c: no entry of `vmx_run` fails for the current VMCS or its
-- launch state.
use oscar_kernel.Common.{ℕ, ◌≡◌, ◌≢◌, Bool, true, some, Store, List}
use oscar_kernel.Nested.{
  Vcpu, vmx_handle_vmlaunch, vmx_handle_vmresume, nested_vmx_vmexit, nested_vm_exit_reflected,
  enter,
}
use oscar_kernel.Nested.Hardware.{Vmcs}

module _ (passes : Store → Bool) (supported : ℕ → Bool) (prepared : Store → Store → Store)
    (junk : ℕ) (beyond : List ℕ) where
  -- One step of the machine: an entry that succeeds; what a guest and the other handlers do,
  -- which is anything to the registers and the fields; VMLAUNCH and VMRESUME of the guest's hypervisor;
  -- and a reflected exit.
  pub data Step : Vcpu → Vcpu → Type 0 where
    entered : (v after : Vcpu) → enter passes v ≡ some after → Step v after
    ran :
        (v : Vcpu) (rip rsp : ℕ) (vmcs12 : Store) (fields : Vmcs → Store)
        → Step v (record v {
          rip = rip;
          rsp = rsp;
          vmcs12 = vmcs12;
          processor = record v.processor { fields = fields };
        })
    launch :
        (v : Vcpu) (len : ℕ)
        → v.guest_mode ≡ 0
        → Step v (vmx_handle_vmlaunch supported prepared junk beyond len v)
    resume :
        (v : Vcpu) (len : ℕ)
        → v.guest_mode ≡ 0
        → Step v (vmx_handle_vmresume supported prepared junk beyond len v)
    reflected :
        (v : Vcpu) (reason intr qualification : ℕ)
        → v.guest_mode ≢ 0
        → nested_vm_exit_reflected v.guest_mode reason ≡ true
        → Step v (nested_vmx_vmexit supported prepared junk beyond reason intr qualification v)

  pub data Reach (start : Vcpu) : Vcpu → Type 0 where
    here : Reach start start
    next : (v after : Vcpu) → Reach start v → Step v after → Reach start after
