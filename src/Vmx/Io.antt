-- ===== src/Vmx/Io.antt =====
-- The repeated I/O instruction in `vmx_handle_io` of arch/x86_64/kvm/vmx/vmx.c: one exit for each round.
use oscar_kernel.Common.{
  ℕ, zero, suc, ◌+◌, ◌-◌, ◌/◌, ◌%◌, ◌^◌, ◌<◌, ◌≤◌, ◌≡◌, ◌≢◌, refl, ap, ◌∙◌, ==_ne, inl, inr,
  Bool-cases, false, true, Option, none, some, update, ◌==◌, if◌then◌else◌, arith,
}
use oscar_kernel.Vmx.{dispatch, vm_exit_handler, with_rip, stopped}
use oscar_kernel.Nested.{guest_rip}
use oscar_kernel.Vmx.Handlers.{
  Guest, Elsewhere, bit, vm_exit_reason, vm_exit_instruction_len, exit_qualification, vmx_handle_io,
  step_io, skip_instruction,
}

-- The exits of a guest that does nothing else in between.
abbrev or_fault : Option Guest → (Guest → Option Guest) → Option Guest
or_fault none f = none
or_fault (some g) f = f g

unfoldable pub exits : Elsewhere → ℕ → Guest → Option Guest
exits e zero g = some g
exits e (suc n) g =
    let rest : Guest → Option Guest = exits e n in or_fault (vm_exit_handler e g) rest

pub exits-next :
    (e : Elsewhere) (n : ℕ) (g after : Guest)
    → vm_exit_handler e g ≡ some after
    → exits e (suc n) g ≡ exits e n after
unfolding exits
exits-next e n g after h = ap (λ (o : Option Guest). or_fault o (exits e n)) h

-- The exit is for a repeated instruction, not at the ports that change other state.
pub record IsRepeated (g : Guest) : Type 0 where
  pub reason : g.vmcs vm_exit_reason ≡ 30
  pub repeated : bit (g.vmcs exit_qualification) 5 ≡ true
  pub not_serial : g.vmcs exit_qualification / 2 ^ 16 % 2 ^ 16 ≢ 0x3f8
  pub not_pci : g.vmcs exit_qualification / 2 ^ 16 % 2 ^ 16 ≢ 0xcfc

module _ (e : Elsewhere) (own : (reason : ℕ) (g : Guest) → e.reflected reason g ≡ false) where
  pub vm_exit_handler-dispatch :
      (g : Guest) (r : ℕ)
      → g.vmcs vm_exit_reason ≡ r
      → r < 2 ^ 8
      → vm_exit_handler e g ≡ with_rip (dispatch e r (stopped g))
  unfolding vm_exit_handler
  vm_exit_handler-dispatch g r h small =
      let low : g.vmcs vm_exit_reason % 2 ^ 32 % 2 ^ 8 ≡ r = omega (arith, h) in
      let entered : (g.vmcs vm_exit_reason % 2 ^ 32 / 2 ^ 31 == 1) ≡ false = ground (arith, h) in
      rw (own (g.vmcs vm_exit_reason % 2 ^ 32) (stopped g), entered, low) refl

  dispatch_io : (g : Guest) → dispatch e 30 g ≡ some (vmx_handle_io g)
  unfolding dispatch
  dispatch_io g = refl

  -- The state after one exit.
  round : (g : Guest) (n : ℕ) → Guest
  round g n =
      let rip =
        if n == 0
        then (g.vmcs guest_rip + g.vmcs vm_exit_instruction_len) % 2 ^ 64
        else g.vmcs guest_rip in
      record g {
        rip = rip;
        regs = record g.regs { rcx = n; rsp = g.vmcs 0x681c };
        vmcs = update g.vmcs guest_rip rip;
      }

  -- What is stepped over, as the processor left it.
  io_stopped : (g : Guest) → IsRepeated g → IsRepeated (stopped g)
  io_stopped g io = record {
    reason = io.reason;
    repeated = io.repeated;
    not_serial = io.not_serial;
    not_pci = io.not_pci;
  }

  at_io : (g : Guest) → IsRepeated g → vmx_handle_io g ≡ step_io g
  unfolding vmx_handle_io
  at_io g io = rw (==_ne _ _ io.not_serial, ==_ne _ _ io.not_pci) refl

  stepped :
      (g : Guest) (n : ℕ)
      → IsRepeated g
      → g.regs.rcx ≡ suc n
      → n < 2 ^ 63
      → step_io g ≡ (
          if n == 0
          then skip_instruction (record g { regs = record g.regs { rcx = n } })
          else record g { regs = record g.regs { rcx = n } })
  unfolding step_io
  stepped g n io count small =
      let down : (g.regs.rcx + 2 ^ 64 - 1) % 2 ^ 64 ≡ n = omega (arith, count) in
      rw (io.repeated, down) refl

  one_round :
      (g : Guest) (n : ℕ)
      → IsRepeated g
      → g.regs.rcx ≡ suc n
      → n < 2 ^ 63
      → vm_exit_handler e g ≡ some (round g n)
  unfolding round
  one_round g n io count small =
      vm_exit_handler-dispatch g 30 io.reason (omega arith)
      ∙ ap with_rip (
          dispatch_io (stopped g)
          ∙ ap some (
              at_io (stopped g) (io_stopped g io)
              ∙ stepped (stopped g) n (io_stopped g io) count small))
      ∙ elim (Bool-cases (n == 0)) [ inl last ↦ rw last refl | inr more ↦ rw more refl ]

  round-IsRepeated : (g : Guest) (n : ℕ) → IsRepeated g → IsRepeated (round g n)
  unfolding round
  round-IsRepeated g n io = record {
    reason = io.reason;
    repeated = io.repeated;
    not_serial = io.not_serial;
    not_pci = io.not_pci;
  }

  -- Where no exit is reflected, after k exits of a repeated I/O instruction at a port that is neither the serial port
  -- nor that of PCI, with a count from k on, at least 1 and at most 2 ^ 63, the count is less by k, and
  -- the guest goes on behind the instruction if the count is used up, and at it otherwise.
  pub rep_io-counts :
      (k n : ℕ) (g : Guest)
      → IsRepeated g
      → g.regs.rcx ≡ suc n
      → n < 2 ^ 63
      → k ≤ suc n
      → (after : Guest) × (exits e k g ≡ some after)
        × (after.regs.rcx ≡ suc n - k)
        × (after.vmcs guest_rip ≡ (
            if k == suc n
            then (g.vmcs guest_rip + g.vmcs vm_exit_instruction_len) % 2 ^ 64
            else g.vmcs guest_rip))
  unfolding exits round
  rep_io-counts zero n g io count small h = (g, refl, omega (arith, count), ground arith)
  rep_io-counts (suc zero) zero g io count small h =
      (round g 0, exits-next e 0 g (round g 0) (one_round g 0 io count small), refl, refl)
  rep_io-counts (suc (suc k)) zero g io count small h = absurd (omega arith)
  rep_io-counts (suc k) (suc n) g io count small h =
      let (after, run, left, place) =
        rep_io-counts k n (round g (suc n)) (round-IsRepeated g (suc n) io) refl (omega arith)
          (omega arith) in
      (
        after,
        exits-next e k g (round g (suc n)) (one_round g (suc n) io count small) ∙ run,
        omega (arith, left),
        place ∙ ground arith,
      )
