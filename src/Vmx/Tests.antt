-- ===== src/Vmx/Tests.antt =====
-- Tests of the exit handler, and the theorems at guests that meet their hypotheses.
use oscar_kernel.Common.{
  suc, ◌+◌, ◌-◌, ◌*◌, ◌%◌, ◌^◌, ◌≡◌, ◌⊎◌, refl, inl, false, [], some, Store, bit_or, ◌==◌,
  if◌then◌else◌, arith,
}
use oscar_kernel.Nested.Registers.{GeneralRegs}
use oscar_kernel.Nested.{guest_rip}
use oscar_kernel.Vmx.Handlers.{
  Guest, Elsewhere, vmx_handle_cpuid, vmx_handle_cr_access, vmx_handle_xsetbv,
}
use oscar_kernel.Vmx.Io.{exits, IsRepeated, rep_io-counts}
use oscar_kernel.Vmx.Control.{IsModeSafe, cr_access-IsModeSafe}
use oscar_kernel.Vmx.Xsetbv.{IsAccepted, xsetbv-IsAccepted}
use oscar_kernel.Vmx.Progress.{IsAsBefore, unhandled-repeats}

-- A processor with x87, SSE and AVX states, and handlers that do nothing.
abbrev elsewhere : Elsewhere
elsewhere = record {
  cpuid = λ leaf subleaf place. if leaf == 0xd then 7 else leaf + place;
  soft_irq_call = λ g. g;
  ept_volation = λ g. g;
  vmx_instruction = λ reason g. g;
  reflected = λ reason g. false;
  reflect = λ reason g. g;
}

abbrev regs : GeneralRegs
regs = record {
  rax = 7;
  rcx = 3;
  rdx = 0;
  rbx = 0;
  rsp = 0;
  rbp = 0;
  rsi = 0;
  rdi = 0;
  r8 = 0;
  r9 = 0;
  r10 = 0;
  r11 = 0;
  r12 = 0;
  r13 = 0;
  r14 = 0;
  r15 = 0x80000001;
}

abbrev guest : Store → Guest
guest vmcs = record {
  regs = regs;
  rip = 0x100;
  xcr0 = 1;
  cr0_shadow = 0;
  cr4_shadow = 0;
  vmcs = vmcs;
  cpu_xcr0 = 1;
  serial = [];
}

-- REP OUTS to port 0x80, of two bytes, at 0x100.
abbrev string_output : Store
string_output f =
    if f == 0x4402
    then 30
    else if f == 0x6400
    then 0x800030
    else if f == 0x440c
    then 2
    else if f == 0x681e
    then 0x100
    else 0

-- RDMSR at 0x100.
abbrev read_msr : Store
read_msr f = if f == 0x4402 then 31 else if f == 0x440c then 2 else if f == 0x681e then 0x100 else 0

-- MOV to CR0 from r15, with EFER.LME.
abbrev move_to_cr0 : Store
move_to_cr0 f = if f == 0x6400 then 0xf00 else if f == 0x2806 then 0x100 else 0

cpuid_runs : (vmx_handle_cpuid elsewhere (guest read_msr)).rip ≡ 0x102
unfolding vmx_handle_cpuid
cpuid_runs = refl

string_output-IsRepeated : IsRepeated (guest string_output)
string_output-IsRepeated = record {
  reason = refl;
  repeated = refl;
  not_serial = omega arith;
  not_pci = omega arith;
}

rep_io-counts_example :
    (after : Guest) × (exits elsewhere 3 (guest string_output) ≡ some after)
    × (after.regs.rcx ≡ suc 2 - 3)
    × (after.vmcs guest_rip ≡ (if 3 == suc 2 then (0x100 + 2) % 2 ^ 64 else 0x100))
rep_io-counts_example =
    rep_io-counts elsewhere (λ reason g. refl) 3 2 (guest string_output) string_output-IsRepeated
      refl (omega arith) (omega arith)

unhandled-repeats_example :
    (after : Guest) × (exits elsewhere 5 (guest read_msr) ≡ some after)
    × IsAsBefore (guest read_msr) after
unhandled-repeats_example = unhandled-repeats elsewhere 5 (guest read_msr) (λ reason g. refl) refl

cr_access-IsModeSafe_example :
    IsModeSafe (vmx_handle_cr_access (guest move_to_cr0)).vmcs
    × ((vmx_handle_cr_access (guest move_to_cr0)).rip ≡ (0x100 + 0) % 2 ^ 64)
cr_access-IsModeSafe_example = cr_access-IsModeSafe (guest move_to_cr0) (inl refl)

xsetbv-IsAccepted_example :
    (((vmx_handle_xsetbv elsewhere (guest read_msr)).cpu_xcr0 ≡ 1)
      ⊎ (((vmx_handle_xsetbv elsewhere (guest read_msr)).cpu_xcr0 ≡ bit_or 7 (0 * 2 ^ 32 % 2 ^ 64))
          × IsAccepted (7 % 2 ^ 32) (vmx_handle_xsetbv elsewhere (guest read_msr)).cpu_xcr0))
    × ((vmx_handle_xsetbv elsewhere (guest read_msr)).rip ≡ (0x100 + 2) % 2 ^ 64)
xsetbv-IsAccepted_example = xsetbv-IsAccepted elsewhere (guest read_msr) (omega arith)
