-- ===== src/Vmx/Xsetbv.antt =====
-- What `vmx_handle_xsetbv` of arch/x86_64/kvm/vmx/vmx.c puts into the processor's XCR0.
use oscar_kernel.Common.{
  ℕ, ◌+◌, ◌*◌, ◌/◌, ◌%◌, ◌^◌, ◌<◌, ◌≤◌, ◌≡◌, ◌⊎◌, refl, ap, inl, inr, true, false, bit_and, bit_or,
  ◌==◌, Bool-cases, arith,
}
use oscar_kernel.Common.Bits.{
  has_bit, has_bit-digit, digit, digit-bit_or, bit_or_step, bit_or-zero, bit_and_step, bit_and-zero,
}
use oscar_kernel.Vmx.Handlers.{
  Guest, Elsewhere, guest_cr0, guest_cr4, cr0_read_shadow, cr4_read_shadow, cr0_guest_host_mask,
  cr4_guest_host_mask, vmx_handle_xsetbv, xcr0_valid, seen,
}

-- A value of XCR0 that a processor without MPX, AVX-512 and later states takes: no feature that CPUID does
-- not report, and the x87 state alone, with the SSE state, or with the SSE and AVX states.
pub record IsAccepted (reported xcr0 : ℕ) : Type 0 where
  pub supported : (k : ℕ) → digit k xcr0 ≤ digit k reported
  pub states : (xcr0 ≡ 1) ⊎ ((xcr0 ≡ 3) ⊎ (xcr0 ≡ 7))

-- What bits 0 to 2 leave of a value within them.
states_of_bits :
    (x : ℕ) → x < 8 → digit 0 x ≡ 1 → digit 2 x ≤ digit 1 x → (x ≡ 1) ⊎ ((x ≡ 3) ⊎ (x ≡ 7))
states_of_bits x small x87 avx = ground (arith, small, x87, avx)

within_bits : (x reported : ℕ) → reported < 8 → bit_or x reported ≡ reported → x < 8
within_bits x reported small e =
    let none_left : reported / 2 / 2 / 2 ≡ 0 = omega (arith, small) in
    let above : bit_or (x / 2 / 2 / 2) (reported / 2 / 2 / 2) ≡ x / 2 / 2 / 2 =
      rw none_left (bit_or-zero (x / 2 / 2 / 2)) in
    omega (
      arith,
      small,
      e,
      above,
      bit_or_step x reported,
      bit_or_step (x / 2) (reported / 2),
      bit_or_step (x / 2 / 2) (reported / 2 / 2),
    )

avx_of_mask : (x : ℕ) → (bit_and x 6 == 4) ≡ false → digit 2 x ≤ digit 1 x
avx_of_mask x h = ground (
  arith,
  bit_and_step x 6,
  bit_and_step (x / 2) 3,
  bit_and_step (x / 2 / 2) 1,
  bit_and-zero (x / 2 / 2 / 2),
)

valid-IsAccepted :
    (index xcr0 reported cr0 cr4 : ℕ)
    → reported < 8
    → xcr0_valid index xcr0 reported cr0 cr4 ≡ true
    → IsAccepted reported xcr0
valid-IsAccepted index xcr0 reported cr0 cr4 small h =
    let within : bit_or xcr0 reported ≡ reported = ground arith in
    let x87 : has_bit xcr0 0 ≡ true = ground arith in
    let sse : (bit_and xcr0 6 == 4) ≡ false = ground arith in
    record {
      supported = λ k. omega (arith, digit-bit_or k xcr0 reported, ap (digit k) within);
      states =
          states_of_bits xcr0 (within_bits xcr0 reported small within)
            (ground (arith, has_bit-digit xcr0 0)) (avx_of_mask xcr0 sse);
    }

-- On a processor whose CPUID reports no state but x87, SSE and AVX for XCR0, `vmx_handle_xsetbv` leaves the
-- processor's XCR0 as it was, or puts the guest's rdx:rax there, which is then within what CPUID reports
-- and is x87 alone, x87 and SSE, or x87, SSE and AVX; in both cases the guest goes on behind the instruction.
pub xsetbv-IsAccepted :
    (e : Elsewhere) (g : Guest)
    → e.cpuid 0xd 0 0 % 2 ^ 32 < 8
    → (((vmx_handle_xsetbv e g).cpu_xcr0 ≡ g.cpu_xcr0)
        ⊎ (((vmx_handle_xsetbv e g).cpu_xcr0 ≡ bit_or g.regs.rax (g.regs.rdx * 2 ^ 32 % 2 ^ 64))
            × IsAccepted (e.cpuid 0xd 0 0 % 2 ^ 32) (vmx_handle_xsetbv e g).cpu_xcr0))
      × ((vmx_handle_xsetbv e g).rip ≡ (g.rip + g.vmcs 0x440c) % 2 ^ 64)
unfolding vmx_handle_xsetbv
xsetbv-IsAccepted e g small = elim (Bool-cases (xcr0_valid g.regs.rcx xcr0 reported cr0 cr4)) [
  | inl valid ↦
      rw valid (inr (refl, valid-IsAccepted g.regs.rcx xcr0 reported cr0 cr4 small valid), refl)
  | inr not_valid ↦ rw not_valid (inl refl, refl)
]
  where
    cr0 : ℕ
    cr0 = seen (g.vmcs guest_cr0) (g.vmcs cr0_guest_host_mask) (g.vmcs cr0_read_shadow)

    cr4 : ℕ
    cr4 = seen (g.vmcs guest_cr4) (g.vmcs cr4_guest_host_mask) (g.vmcs cr4_read_shadow)

    xcr0 : ℕ
    xcr0 = bit_or g.regs.rax (g.regs.rdx * 2 ^ 32 % 2 ^ 64)

    reported : ℕ
    reported = e.cpuid 0xd 0 0 % 2 ^ 32
