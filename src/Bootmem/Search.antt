-- ===== src/Bootmem/Search.antt =====
-- `find_free_bitmap` of mm/bootmem.c: first fit over the 4 KB pages below 64 GB.
use mathlib.Core.Option.{some-injective}
use oscar_kernel.Common.{
  ℕ, zero, suc, ◌+◌, ◌*◌, ◌%◌, ◌^◌, ◌≤◌, ◌<◌, ◌≡◌, ◌≢◌, refl, subst, Bool, true, false, Option,
  none, some, ◌==◌, if◌then◌else◌, arith, Bool-cases, ==_iff, inl, inr,
}
use oscar_kernel.Bootmem.{Bootmem, get_bootmem_bitmap, free_run, find_free_from, find_free_bitmap}
use oscar_kernel.Bootmem.Page.{get-page}

-- The search takes a page-aligned address at which all pages are free and managed up to the page
-- that holds the first page boundary at or past the end of the area. That page is itself no part
-- of the area.
pub record IsFit (b : Bootmem) (size a : ℕ) : Type 0 where
  pub aligned : a % 0x1000 ≡ 0
  pub managed : a + size + 0x1000 ≤ 2 ^ 36
  pub free : (x : ℕ) → a ≤ x → x < a + size + 0x1000 → get_bootmem_bitmap b x ≡ false

free_run_sound :
    (b : Bootmem) (size a left c x : ℕ)
    → c % 0x1000 ≡ 0
    → a % 0x1000 ≡ 0
    → a ≤ c
    → free_run b size a left c ≡ true
    → c ≤ x
    → x < a + size + 0x1000
    → get_bootmem_bitmap b x ≡ false
unfolding free_run
free_run_sound b size a zero c x al al' le h lo hi = cc
free_run_sound b size a (suc left) c x al al' le h lo hi =
    ground (arith, get-page b c x, free_run_sound b size a left (c + 0x1000) x)

free_run-managed :
    (b : Bootmem) (size a left c : ℕ)
    → a ≤ c
    → free_run b size a left c ≡ true
    → a + size + 0x1000 ≤ c + left * 0x1000
unfolding free_run
free_run-managed b size a zero c le h = cc
free_run-managed b size a (suc left) c le h =
    ground (arith, free_run-managed b size a left (c + 0x1000))

free_run_complete :
    (b : Bootmem) (size a left c : ℕ)
    → a ≤ c
    → c < a + size + 0x1000
    → a + size + 0x1000 ≤ c + left * 0x1000
    → ((x : ℕ) → a ≤ x → x < a + size + 0x1000 → get_bootmem_bitmap b x ≡ false)
    → free_run b size a left c ≡ true
unfolding free_run
free_run_complete b size a zero c le near room all = absurd (omega arith)
free_run_complete b size a (suc left) c le near room all = ground (
  arith,
  all c,
  λ (near' : c + 0x1000 < a + size + 0x1000).
      free_run_complete b size a left (c + 0x1000) (omega arith) near' (omega arith) all,
)

pub data FirstFit (b : Bootmem) (size start : ℕ) : Option ℕ → Type 0 where
  found :
      (a : ℕ)
      → start ≤ a
      → IsFit b size a
      → ((x : ℕ) → start ≤ x → x < a → ¬ IsFit b size x)
      → FirstFit b size start (some a)
  full : ((x : ℕ) → start ≤ x → ¬ IsFit b size x) → FirstFit b size start none

-- An address between two page boundaries is not aligned, so a page that does not fit is passed.
next_page :
    {start x : ℕ} → start % 0x1000 ≡ 0 → x % 0x1000 ≡ 0 → start ≤ x → start ≢ x → start + 0x1000 ≤ x
next_page al al' le ne = ground arith

not_before :
    {b : Bootmem} {size start : ℕ} (P : ℕ → Type 0)
    → start % 0x1000 ≡ 0
    → ¬ IsFit b size start
    → ((x : ℕ) → start + 0x1000 ≤ x → P x → ¬ IsFit b size x)
    → (x : ℕ) → start ≤ x
    → P x
    → ¬ IsFit b size x
not_before {b} {size} {start} P al no_fit later x lo p h = elim (Bool-cases (start == x)) [
  | inl same ↦ no_fit (subst (IsFit b size) (omega (arith, (==_iff start x).0 same)) h)
  | inr other ↦ later x (ground (arith, h.aligned)) p h
]

FirstFit-next :
    {b : Bootmem} {size start : ℕ} {r : Option ℕ}
    → start % 0x1000 ≡ 0
    → ¬ IsFit b size start
    → FirstFit b size (start + 0x1000) r
    → FirstFit b size start r
FirstFit-next al no_fit (found a le fit first) =
    found a (omega arith) fit (λ x lo hi. not_before (λ y. y < a) al no_fit first x lo hi)
FirstFit-next al no_fit (full first) =
    full (λ x lo. not_before (λ _. Unit) al no_fit (λ y q _. first y q) x lo tt)

-- The two tests of a round, as values.
FirstFit-round :
    {b : Bootmem} {size c : ℕ} {r : Option ℕ} (busy run : Bool)
    → c % 0x1000 ≡ 0
    → (busy ≡ true → ¬ IsFit b size c)
    → (run ≡ true → IsFit b size c)
    → (run ≡ false → ¬ IsFit b size c)
    → FirstFit b size (c + 0x1000) r
    → FirstFit b size c (if busy then r else if run then some c else r)
FirstFit-round true run al no_fit fit broken rest = FirstFit-next al (no_fit refl) rest
FirstFit-round {c = c} false true al no_fit fit broken rest =
    found c (omega arith) (fit refl) (λ x lo hi h. absurd (omega arith))
FirstFit-round false false al no_fit fit broken rest = FirstFit-next al (broken refl) rest

find_free_from-FirstFit :
    (b : Bootmem) (size left c : ℕ)
    → c % 0x1000 ≡ 0
    → c + left * 0x1000 ≡ 2 ^ 36
    → FirstFit b size c (find_free_from b size left c)
unfolding find_free_from
find_free_from-FirstFit b size zero c al e = full (λ x lo h. absurd (omega (arith, h.managed)))
find_free_from-FirstFit b size (suc left) c al e =
    let rest : FirstFit b size (c + 0x1000) (find_free_from b size left (c + 0x1000)) =
      find_free_from-FirstFit b size left (c + 0x1000) (omega arith) (omega arith) in
    FirstFit-round (get_bootmem_bitmap b c) (free_run b size c (suc left) c) al
      (λ t h. cc (t, h.free c (omega arith) (omega arith)))
      (λ t. record {
        aligned = al;
        managed = omega (arith, free_run-managed b size c (suc left) c (omega arith) t);
        free = λ x lo hi. free_run_sound b size c (suc left) c x al al (omega arith) t lo hi;
      })
      (λ t h. cc (
        t,
        free_run_complete b size c (suc left) c (omega arith) (omega arith)
            (omega (arith, h.managed)) h.free,
      ))
      rest

-- `find_free_bitmap` returns the lowest fitting address, and -1 exactly when there is none.
pub find_free_bitmap-FirstFit :
    (b : Bootmem) (size : ℕ) → FirstFit b size 0 (find_free_bitmap b size)
unfolding find_free_bitmap
find_free_bitmap-FirstFit b size =
    find_free_from-FirstFit b size 0x1000000 0 (omega arith) (omega arith)

FirstFit-some :
    {b : Bootmem} {size start a : ℕ} {r : Option ℕ}
    → FirstFit b size start r
    → r ≡ some a
    → IsFit b size a
FirstFit-some {b} {size} {a = a} (found x le fit first) e =
    subst (IsFit b size) (some-injective x a e) fit
FirstFit-some (full h) e = cc

pub find_free_bitmap-IsFit :
    (b : Bootmem) (size a : ℕ) → find_free_bitmap b size ≡ some a → IsFit b size a
find_free_bitmap-IsFit b size a e = FirstFit-some (find_free_bitmap-FirstFit b size) e
