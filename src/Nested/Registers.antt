-- ===== src/Nested/Registers.antt =====
-- The general registers of a guest in arch/x86_64/kvm/vmx/vmx.c, `kvm_reg_read` and `kvm_reg_write`, and
-- `decode_mem_address` of arch/x86_64/kvm/vmx/nested.c, which finds the operand of a VMX instruction.
use oscar_kernel.Common.{ℕ, ◌+◌, ◌-◌, ◌*◌, ◌/◌, ◌%◌, ◌^◌, ◌<◌, ◌≡◌, ◌==◌, ltb, if◌then◌else◌, arith}

pub record GeneralRegs : Type 0 where
  pub rax : ℕ
  pub rcx : ℕ
  pub rdx : ℕ
  pub rbx : ℕ
  pub rsp : ℕ
  pub rbp : ℕ
  pub rsi : ℕ
  pub rdi : ℕ
  pub r8 : ℕ
  pub r9 : ℕ
  pub r10 : ℕ
  pub r11 : ℕ
  pub r12 : ℕ
  pub r13 : ℕ
  pub r14 : ℕ
  pub r15 : ℕ

-- Any other index reads what the function happens to return, `junk`.
unfoldable pub kvm_reg_read : ℕ → GeneralRegs → ℕ → ℕ
kvm_reg_read junk regs index =
    if index == 0
    then regs.rax
    else if index == 1
    then regs.rcx
    else if index == 2
    then regs.rdx
    else if index == 3
    then regs.rbx
    else if index == 4
    then regs.rsp
    else if index == 5
    then regs.rbp
    else if index == 6
    then regs.rsi
    else if index == 7
    then regs.rdi
    else if index == 8
    then regs.r8
    else if index == 9
    then regs.r9
    else if index == 10
    then regs.r10
    else if index == 11
    then regs.r11
    else if index == 12
    then regs.r12
    else if index == 13
    then regs.r13
    else if index == 14
    then regs.r14
    else if index == 15
    then regs.r15
    else junk

unfoldable pub kvm_reg_write : GeneralRegs → ℕ → ℕ → GeneralRegs
kvm_reg_write regs index value =
    if index == 0
    then record regs { rax = value }
    else if index == 1
    then record regs { rcx = value }
    else if index == 2
    then record regs { rdx = value }
    else if index == 3
    then record regs { rbx = value }
    else if index == 4
    then record regs { rsp = value }
    else if index == 5
    then record regs { rbp = value }
    else if index == 6
    then record regs { rsi = value }
    else if index == 7
    then record regs { rdi = value }
    else if index == 8
    then record regs { r8 = value }
    else if index == 9
    then record regs { r9 = value }
    else if index == 10
    then record regs { r10 = value }
    else if index == 11
    then record regs { r11 = value }
    else if index == 12
    then record regs { r12 = value }
    else if index == 13
    then record regs { r13 = value }
    else if index == 14
    then record regs { r14 = value }
    else if index == 15
    then record regs { r15 = value }
    else regs

-- The shift to the right keeps the sign.
unfoldable pub sign_extend64 : ℕ → ℕ → ℕ
sign_extend64 value index =
    let shift = 63 - index in
    let shifted = value * 2 ^ shift % 2 ^ 64 in
    if ltb shifted (2 ^ 63)
    then shifted / 2 ^ shift
    else shifted / 2 ^ shift + (2 ^ 64 - 2 ^ (64 - shift))

abbrev pub field_at : ℕ → ℕ → ℕ → ℕ
field_at info shift values = info / 2 ^ shift % values

unfoldable pub decode_mem_address : ℕ → GeneralRegs → ℕ → ℕ → ℕ
decode_mem_address junk regs exit_qualification vmx_instruction_info =
    let addr_size = field_at vmx_instruction_info 7 8 in
    let displacement =
      if addr_size == 1
      then sign_extend64 exit_qualification 31
      else if addr_size == 0
      then sign_extend64 exit_qualification 15
      else exit_qualification in
    let base = kvm_reg_read junk regs (field_at vmx_instruction_info 23 16) in
    let index = kvm_reg_read junk regs (field_at vmx_instruction_info 18 16) in
    let scaled = index * 2 ^ (vmx_instruction_info % 4) in
    let based =
      if field_at vmx_instruction_info 27 2 == 0 then displacement + base else displacement in
    (if field_at vmx_instruction_info 22 2 == 0 then based + scaled else based) % 2 ^ 64

-- After `kvm_reg_write` at one of the 16 registers, `kvm_reg_read` gives the written value there and at
-- every other index what it gave before.
pub kvm_reg_read-kvm_reg_write :
    (junk : ℕ) (regs : GeneralRegs) (index other value : ℕ)
    → index < 16
    → kvm_reg_read junk (kvm_reg_write regs index value) other
      ≡ (if other == index then value else kvm_reg_read junk regs other)
unfolding kvm_reg_read kvm_reg_write
kvm_reg_read-kvm_reg_write junk regs index other value h = ground arith
