-- ===== src/Vmx.antt =====
-- The exits of a virtual machine: `vm_exit_handler` of arch/x86_64/kvm/vmx/vmx.c and the handlers in
-- that file. The fields of the current VMCS are a function from encodings. Where a handler loops for
-- ever the result is `none`. What the processor answers to CPUID, the kernel's interrupt handlers, and
-- the handlers that the modules Mmu and Nested model on the state of theirs are the fields of
-- `Elsewhere`; values that are only printed are left out, but for the characters of the guest's serial port.
pub mod Handlers
pub mod Io
pub mod Control
pub mod Xsetbv
pub mod Progress
pub mod Tests
use oscar_kernel.Common.{
  ℕ, ◌+◌, ◌/◌, ◌%◌, ◌^◌, Bool, not, ◌&&◌, ◌||◌, Option, none, some, ◌==◌, if◌then◌else◌, update,
}
use oscar_kernel.Nested.{guest_rip, guest_rsp}
use oscar_kernel.Vmx.Handlers.{
  Guest, Elsewhere, skip_instruction, vm_exit_reason, vmx_handle_cpuid, vmx_handle_cr_access,
  vmx_handle_io, vmx_handle_xsetbv, vmx_handle_preemption_timer,
}

-- The switch over the exit reason. A case that only prints leaves the guest as it is.
unfoldable pub dispatch : Elsewhere → ℕ → Guest → Option Guest
dispatch e reason g =
    if (reason == 0) || (reason == 2)
    then none
    else if reason == 1
    then some (e.soft_irq_call g)
    else if reason == 10
    then some (vmx_handle_cpuid e g)
    else if (reason == 18) || ((reason == 26) || (reason == 50))
    then some (skip_instruction g)
    else if (reason == 19)
        || ((reason == 20)
            || ((reason == 21)
                || ((reason == 22)
                    || ((reason == 23) || ((reason == 24) || ((reason == 25) || (reason == 27)))))))
    then some (e.vmx_instruction reason g)
    else if reason == 28
    then some (vmx_handle_cr_access g)
    else if reason == 30
    then some (vmx_handle_io g)
    else if reason == 32
    then some (skip_instruction g)
    else if reason == 48
    then some (e.ept_volation g)
    else if reason == 52
    then some (vmx_handle_preemption_timer g)
    else if reason == 55
    then some (vmx_handle_xsetbv e g)
    else if (reason == 63) || (reason == 64)
    then some (skip_instruction g)
    else some g

-- `vmcs_write(GUEST_RIP, rip)` at the end.
abbrev pub with_rip : Option Guest → Option Guest
with_rip none = none
with_rip (some g) = some (record g { vmcs = update g.vmcs guest_rip g.rip })

-- The guest as it stopped.
abbrev pub stopped : Guest → Guest
stopped g = record g { rip = g.vmcs guest_rip; regs = record g.regs { rsp = g.vmcs guest_rsp } }

-- An exit that is reflected to the guest's hypervisor, and a failed entry, which is only printed.
unfoldable pub vm_exit_handler : Elsewhere → Guest → Option Guest
vm_exit_handler e g =
    let reason = g.vmcs vm_exit_reason % 2 ^ 32 in
    if e.reflected reason (stopped g)
    then some (e.reflect reason (stopped g))
    else with_rip
        (if reason / 2 ^ 31 == 1 then some (stopped g) else dispatch e (reason % 2 ^ 8) (stopped g))
