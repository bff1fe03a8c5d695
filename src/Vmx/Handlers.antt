-- ===== src/Vmx/Handlers.antt =====
-- The handlers of arch/x86_64/kvm/vmx/vmx.c that change the state of a guest.
use oscar_kernel.Common.{
  ℕ, ◌+◌, ◌-◌, ◌*◌, ◌/◌, ◌%◌, ◌^◌, Bool, not, ◌&&◌, List, [], ◌∷◌, ◌++◌, Store, update, bit_and,
  bit_or, ◌==◌, if◌then◌else◌,
}
use oscar_kernel.Nested.Registers.{GeneralRegs, kvm_reg_read}

abbrev pub cr0_guest_host_mask : ℕ
cr0_guest_host_mask = 0x6000

abbrev pub cr4_guest_host_mask : ℕ
cr4_guest_host_mask = 0x6002

abbrev pub cr0_read_shadow : ℕ
cr0_read_shadow = 0x6004

abbrev pub cr4_read_shadow : ℕ
cr4_read_shadow = 0x6006

abbrev pub guest_cr0 : ℕ
guest_cr0 = 0x6800

abbrev pub guest_cr3 : ℕ
guest_cr3 = 0x6802

abbrev pub guest_cr4 : ℕ
guest_cr4 = 0x6804

abbrev pub guest_ia32_efer : ℕ
guest_ia32_efer = 0x2806

abbrev pub guest_tr_ar_bytes : ℕ
guest_tr_ar_bytes = 0x4822

abbrev pub vm_entry_controls : ℕ
vm_entry_controls = 0x4012

abbrev pub vm_exit_reason : ℕ
vm_exit_reason = 0x4402

abbrev pub vm_exit_instruction_len : ℕ
vm_exit_instruction_len = 0x440c

abbrev pub exit_qualification : ℕ
exit_qualification = 0x6400

abbrev pub vmx_preemption_timer_value : ℕ
vmx_preemption_timer_value = 0x482e

-- What the handlers use of `struct vmx_vcpu`, the current VMCS, the processor's XCR0, and what the guest
-- has sent to its serial port.
pub record Guest : Type 0 where
  pub regs : GeneralRegs
  pub rip : ℕ
  pub xcr0 : ℕ
  pub cr0_shadow : ℕ
  pub cr4_shadow : ℕ
  pub vmcs : Store
  pub cpu_xcr0 : ℕ
  pub serial : List ℕ

-- `cpuid leaf subleaf` is a function of the place in its buffer.
pub record Elsewhere : Type 0 where
  pub cpuid : ℕ → ℕ → ℕ → ℕ
  pub soft_irq_call : Guest → Guest
  pub ept_volation : Guest → Guest
  pub vmx_instruction : ℕ → Guest → Guest
  pub reflected : ℕ → Guest → Bool
  pub reflect : ℕ → Guest → Guest

-- `vcpu->guest_state.rip += vmcs_read(VM_EXIT_INSTRUCTION_LEN)`.
abbrev pub skip_instruction : Guest → Guest
skip_instruction g = record g { rip = (g.rip + g.vmcs vm_exit_instruction_len) % 2 ^ 64 }

unfoldable pub vmx_handle_cpuid : Elsewhere → Guest → Guest
vmx_handle_cpuid e g =
    let buffer = e.cpuid (g.regs.rax % 2 ^ 32) (g.regs.rcx % 2 ^ 32) in
    skip_instruction (record g {
      regs = record g.regs { rax = buffer 0; rbx = buffer 1; rcx = buffer 2; rdx = buffer 3 };
    })

-- A test of one bit, `x & BIT<k>`.
abbrev pub bit : ℕ → ℕ → Bool
bit x k = not (bit_and x (2 ^ k) == 0)

unfoldable pub vmx_enter_longmode : Guest → Guest
vmx_enter_longmode g =
    let efer = g.vmcs guest_ia32_efer in
    let cr0 = g.vmcs guest_cr0 in
    let cr4 = g.vmcs guest_cr4 in
    let one = update g.vmcs guest_cr0 (bit_or (bit_or cr0 (2 ^ 0)) (2 ^ 31)) in
    let two = update one guest_cr4 (bit_or cr4 (2 ^ 5)) in
    let three = update two guest_tr_ar_bytes 0x8b in
    let four = update three vm_entry_controls (bit_or (three vm_entry_controls) 0x200) in
    record g { vmcs = update four guest_ia32_efer (bit_or efer 0x500) }

abbrev pub write_cr0 : ℕ → Guest → Guest
write_cr0 val g =
    let shadowed = record g { cr0_shadow = val; vmcs = update g.vmcs cr0_read_shadow val } in
    if bit val 31 && bit (shadowed.vmcs guest_ia32_efer) 8
    then vmx_enter_longmode shadowed
    else shadowed

-- The field for cr4 gets the shadow of cr0, as in the code.
abbrev pub write_cr4 : ℕ → Guest → Guest
write_cr4 val g = record g { cr4_shadow = val; vmcs = update g.vmcs cr4_read_shadow g.cr0_shadow }

-- The type of the access is only printed. The switch over the register is that of `kvm_reg_read`.
unfoldable pub vmx_handle_cr_access : Guest → Guest
unfolding vmx_enter_longmode
vmx_handle_cr_access g =
    let qualification = g.vmcs exit_qualification in
    let cr = qualification % 16 in
    let val = kvm_reg_read 0 g.regs (qualification / 2 ^ 8 % 16) in
    skip_instruction (
      if cr == 0
      then write_cr0 val g
      else if cr == 3
      then record g { vmcs = update g.vmcs guest_cr3 val }
      else if cr == 4
      then write_cr4 val g
      else g)

-- The instruction pointer and the counter of a repeated instruction.
abbrev pub count_down : Guest → Guest
count_down g = record g { regs = record g.regs { rcx = (g.regs.rcx + 2 ^ 64 - 1) % 2 ^ 64 } }

unfoldable pub step_io : Guest → Guest
step_io g =
    if bit (g.vmcs exit_qualification) 5
    then if (count_down g).regs.rcx == 0 then skip_instruction (count_down g) else count_down g
    else skip_instruction g

unfoldable pub vmx_handle_io : Guest → Guest
unfolding step_io
vmx_handle_io g =
    let port = g.vmcs exit_qualification / 2 ^ 16 % 2 ^ 16 in
    let stepped = step_io g in
    let sent =
      if port == 0x3f8
      then record stepped { serial = stepped.serial ++ (stepped.regs.rax % 2 ^ 8) ∷ [] }
      else stepped in
    if port == 0xcfc then record sent { regs = record sent.regs { rax = 0xffffffff } } else sent

-- `cr & ~mask | (shadow & shadow)`.
abbrev pub seen : ℕ → ℕ → ℕ → ℕ
seen cr mask shadow = bit_or (bit_and cr (2 ^ 64 - 1 - mask)) (bit_and shadow shadow)

abbrev pub xcr0_valid : ℕ → ℕ → ℕ → ℕ → ℕ → Bool
xcr0_valid index xcr0 xcr0_mask cr0 cr4 =
    (index == 0)
    && ((bit_or xcr0 xcr0_mask == xcr0_mask)
        && (bit xcr0 0
            && (not (bit_and xcr0 6 == 4)
                && (bit cr0 1 && (bit cr0 5 && (not (bit cr0 2) && bit cr4 18))))))

unfoldable pub vmx_handle_xsetbv : Elsewhere → Guest → Guest
vmx_handle_xsetbv e g =
    let cr0 = seen (g.vmcs guest_cr0) (g.vmcs cr0_guest_host_mask) (g.vmcs cr0_read_shadow) in
    let cr4 = seen (g.vmcs guest_cr4) (g.vmcs cr4_guest_host_mask) (g.vmcs cr4_read_shadow) in
    let xcr0 = bit_or g.regs.rax (g.regs.rdx * 2 ^ 32 % 2 ^ 64) in
    let set =
      if xcr0_valid g.regs.rcx xcr0 (e.cpuid 0xd 0 0 % 2 ^ 32) cr0 cr4
      then record g { cpu_xcr0 = xcr0; xcr0 = xcr0 }
      else g in
    skip_instruction set

unfoldable pub vmx_handle_preemption_timer : Guest → Guest
vmx_handle_preemption_timer g = record g {
  vmcs = update g.vmcs vmx_preemption_timer_value (2100000000 / 128);
}
