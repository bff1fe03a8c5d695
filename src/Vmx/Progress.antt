-- ===== src/Vmx/Progress.antt =====
-- The exits for instructions that `vm_exit_handler` of arch/x86_64/kvm/vmx/vmx.c has no work for.
use oscar_kernel.Common.{
  ℕ, zero, suc, ◌<◌, ◌^◌, ◌≡◌, refl, sym, ap, ◌∙◌, inl, inr, Bool, false, true, ◌||◌, List, [], ◌∷◌,
  All, some, update, subst, ◌==◌, ==_iff, Bool-cases, arith,
}
use oscar_kernel.Vmx.{dispatch, vm_exit_handler, with_rip, stopped}
use oscar_kernel.Nested.{guest_rip}
use oscar_kernel.Vmx.Handlers.{Guest, Elsewhere, vm_exit_reason}
use oscar_kernel.Vmx.Io.{exits, exits-next, vm_exit_handler-dispatch}

abbrev pub is_among : ℕ → List ℕ → Bool
is_among r [] = false
is_among r (x ∷ xs) = r == x || is_among r xs

-- HLT, INVD, INVLPG, RDPMC, RDTSC, accesses of debug registers, RDMSR, MWAIT, MONITOR, PAUSE, accesses of
-- the descriptor table registers, RDTSCP, INVVPID, WBINVD, RDRAND, INVPCID, VMFUNC, ENCLS and RDSEED.
abbrev pub unhandled : List ℕ
unhandled =
    12 ∷ 13 ∷ 14 ∷ 15 ∷ 16 ∷ 29 ∷ 31 ∷ 36 ∷ 39 ∷ 40 ∷ 46 ∷ 47 ∷ 51 ∷ 53 ∷ 54 ∷ 57 ∷ 58 ∷ 59 ∷ 60
    ∷ 61 ∷ []

among_holds : (P : ℕ → Type 0) (r : ℕ) (xs : List ℕ) → All P xs → is_among r xs ≡ true → P r
among_holds P r [] all h = absurd (ground (arith, h))
among_holds P r (x ∷ xs) all h = elim (Bool-cases (r == x)) [
  | inl here ↦ subst P (sym ((==_iff r x).0 here)) all.0
  | inr later ↦ among_holds P r xs all.1 (ground arith)
]

unhandled_small : (r : ℕ) → is_among r unhandled ≡ true → r < 2 ^ 8
unhandled_small r = among_holds (λ x. x < 2 ^ 8) r unhandled (omega arith)

dispatch-unhandled :
    (e : Elsewhere) (g : Guest) (r : ℕ) → is_among r unhandled ≡ true → dispatch e r g ≡ some g
unfolding dispatch
dispatch-unhandled e g r = among_holds (λ x. dispatch e x g ≡ some g) r unhandled (ground arith)

-- The second guest has the fields of the first and, but for the stack pointer, its registers.
pub record IsAsBefore (g after : Guest) : Type 0 where
  pub fields : (f : ℕ) → after.vmcs f ≡ g.vmcs f
  pub registers : record after.regs { rsp = 0 } ≡ record g.regs { rsp = 0 }

settled : Guest → Guest
settled g = record (stopped g) { vmcs = update g.vmcs guest_rip (g.vmcs guest_rip) }

settled-IsAsBefore : (g after : Guest) → IsAsBefore (settled g) after → IsAsBefore g after
unfolding settled
settled-IsAsBefore g after same = record {
  fields = λ f. same.fields f ∙ ground (arith, ap g.vmcs);
  registers = same.registers;
}

-- Where no exit is reflected, after an exit for one of these instructions the guest has all its fields,
-- so also the place of the instruction, and its registers as before, however often it is
-- entered again: it never gets beyond the instruction.
pub unhandled-repeats :
    (e : Elsewhere) (n : ℕ) (g : Guest)
    → ((reason : ℕ) (h : Guest) → e.reflected reason h ≡ false)
    → is_among (g.vmcs vm_exit_reason) unhandled ≡ true
    → (after : Guest) × (exits e n g ≡ some after) × IsAsBefore g after
unfolding exits settled
unhandled-repeats e zero g own h = (g, refl, record { fields = λ f. refl; registers = refl })
unhandled-repeats e (suc n) g own h =
    let r = g.vmcs vm_exit_reason in
    let one : vm_exit_handler e g ≡ some (settled g) =
      vm_exit_handler-dispatch e own g r refl (unhandled_small r h)
      ∙ ap with_rip (dispatch-unhandled e (stopped g) r h) in
    let (after, run, same) = unhandled-repeats e n (settled g) own h in
    (after, exits-next e n g (settled g) one ∙ run, settled-IsAsBefore g after same)
