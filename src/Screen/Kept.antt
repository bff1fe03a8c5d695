-- ===== src/Screen/Kept.antt =====
-- Framebuffers that differ only within the screen, one by one in the list of framebuffers.
use oscar_kernel.Common.{
  ℕ, ◌+◌, ◌*◌, ◌^◌, ◌≤◌, ◌<◌, ◌≡◌, ◌⊎◌, inl, inr, refl, sym, subst, ◌∙◌, List, [], ◌∷◌, All,
  Bool-cases, ◌==◌, arith,
}
use oscar_kernel.Screen.{FbInfo, on_active}
use oscar_kernel.Screen.Scroll.{Shows}

-- The second framebuffer differs from the first only within the screen.
pub record IsKept (width height : ℕ) (one two : FbInfo) : Type 0 where
  pub same_pitch : two.xres_virtual ≡ one.xres_virtual
  pub same_active : two.active ≡ one.active
  pub outside :
      (r c : ℕ)
      → c < one.xres_virtual
      → (height ≤ r) ⊎ (width ≤ c)
      → two.memory (r * one.xres_virtual + c) ≡ one.memory (r * one.xres_virtual + c)

-- The framebuffers of two lists, in pairs.
abbrev pub AreKept : ℕ → ℕ → List FbInfo → List FbInfo → Type 0
AreKept width height [] [] = Unit
AreKept width height (one ∷ ones) (two ∷ twos) =
    IsKept width height one two × AreKept width height ones twos
AreKept width height ones twos = ⊥

module _ (width height : ℕ) where
  IsKept-trans :
      (one two three : FbInfo)
      → IsKept width height one two
      → IsKept width height two three
      → IsKept width height one three
  IsKept-trans one two three p q = record {
    same_pitch = q.same_pitch ∙ p.same_pitch;
    same_active = q.same_active ∙ p.same_active;
    outside = λ r c hc out.
        subst (λ (t : ℕ). three.memory (r * t + c) ≡ two.memory (r * t + c)) p.same_pitch
          (q.outside r c (omega (arith, p.same_pitch)) out)
        ∙ p.outside r c hc out;
  }

  pub AreKept-trans :
      (ones twos threes : List FbInfo)
      → AreKept width height ones twos
      → AreKept width height twos threes
      → AreKept width height ones threes
  AreKept-trans [] [] threes p q = q
  AreKept-trans [] (two ∷ twos) threes p q = elim p [ ]
  AreKept-trans (one ∷ ones) [] threes p q = elim p [ ]
  AreKept-trans (one ∷ ones) (two ∷ twos) [] p q = elim q [ ]
  AreKept-trans (one ∷ ones) (two ∷ twos) (three ∷ threes) p q =
      (IsKept-trans one two three p.0 q.0, AreKept-trans ones twos threes p.1 q.1)

  pub AreKept-refl : (fbs : List FbInfo) → AreKept width height fbs fbs
  AreKept-refl [] = tt
  AreKept-refl (fb ∷ fbs) = (
    record { same_pitch = refl; same_active = refl; outside = λ r c hc out. refl },
    AreKept-refl fbs,
  )

  Shows-IsKept :
      {one two : FbInfo}
      → IsKept width height one two
      → Shows width height one
      → Shows width height two
  Shows-IsKept {one} {two} k s = record {
    columns = omega (arith, k.same_pitch, s.columns);
    small_pitch = omega (arith, k.same_pitch, s.small_pitch);
    room = subst (λ (t : ℕ). height * t ≤ 2 ^ 32) (sym k.same_pitch) s.room;
  }

  pub Shows-AreKept :
      (ones twos : List FbInfo)
      → AreKept width height ones twos
      → All (Shows width height) ones
      → All (Shows width height) twos
  Shows-AreKept [] [] k s = tt
  Shows-AreKept [] (two ∷ twos) k s = elim k [ ]
  Shows-AreKept (one ∷ ones) [] k s = elim k [ ]
  Shows-AreKept (one ∷ ones) (two ∷ twos) k s =
      (Shows-IsKept k.0 s.0, Shows-AreKept ones twos k.1 s.1)

  pub on_active-AreKept :
      (change : FbInfo → FbInfo)
      → ((fb : FbInfo) → Shows width height fb → IsKept width height fb (change fb))
      → (fbs : List FbInfo) → All (Shows width height) fbs
      → AreKept width height fbs (on_active change fbs)
  unfolding on_active
  on_active-AreKept change keep [] s = tt
  on_active-AreKept change keep (fb ∷ fbs) s = elim (Bool-cases (fb.active == 1)) [
    | inl drawn ↦ rw drawn (keep fb s.0, on_active-AreKept change keep fbs s.1)
    | inr idle ↦ rw idle ((AreKept-refl (fb ∷ [])).0, on_active-AreKept change keep fbs s.1)
  ]
