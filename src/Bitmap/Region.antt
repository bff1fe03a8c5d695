-- ===== src/Bitmap/Region.antt =====
-- The search of include/bitmap.h for the first run of free bits.
use oscar_kernel.Common.{
  ℕ, zero, suc, ◌+◌, ◌≤◌, ◌<◌, ◌≡◌, refl, true, false, Option, none, some, arith, ltb,
  if◌then◌else◌, Bool-cases, inl, inr, ◌==◌, ==_iff, subst,
}
use mathlib.Core.Option.{some-injective}
use oscar_kernel.Bitmap.{Bitmap, bitmap_get, bitmap_find_free_region, find_region, region_free}

-- All bits from `i` to `i + bits` are free and lie inside the bitmap.
pub record IsFree (bm : Bitmap) (bits i : ℕ) : Type 0 where
  pub fits : i + bits ≤ bm.size
  pub free : (j : ℕ) → i ≤ j → j < i + bits → bitmap_get bm j ≡ false

region_free_sound :
    (bm : Bitmap) (i bits left j k : ℕ)
    → j + left ≡ i + bits
    → i ≤ j
    → region_free bm i bits left j ≡ true
    → j ≤ k
    → k < i + bits
    → bitmap_get bm k ≡ false
unfolding region_free
region_free_sound bm i bits zero j k e p h lo hi = cc
region_free_sound bm i bits (suc left) j k e p h lo hi =
    ground (arith, region_free_sound bm i bits left (j + 1) k)

region_free_complete :
    (bm : Bitmap) (i bits left j : ℕ)
    → j + left ≡ i + bits
    → i ≤ j
    → 0 < left
    → ((k : ℕ) → j ≤ k → k < i + bits → bitmap_get bm k ≡ false)
    → region_free bm i bits left j ≡ true
unfolding region_free
region_free_complete bm i bits zero j e p pos all = absurd (omega arith)
region_free_complete bm i bits (suc left) j e p pos all = ground (
  arith,
  all j,
  λ (q : 0 < left).
      region_free_complete bm i bits left (j + 1) (omega arith) (omega arith) q
        (λ k lo hi. all k (omega arith) hi),
)

-- What the search promises from index `i` on: the first place where the bits are free.
pub data FirstFree (bm : Bitmap) (bits start : ℕ) : Option ℕ → Type 0 where
  found :
      (i : ℕ)
      → start ≤ i
      → IsFree bm bits i
      → ((k : ℕ) → start ≤ k → k < i → ¬ IsFree bm bits k)
      → FirstFree bm bits start (some i)
  full : ((k : ℕ) → start ≤ k → ¬ IsFree bm bits k) → FirstFree bm bits start none

FirstFree-suc :
    {bm : Bitmap} {bits start : ℕ} {r : Option ℕ}
    → ¬ IsFree bm bits start
    → FirstFree bm bits (start + 1) r
    → FirstFree bm bits start r
FirstFree-suc {bm} {bits} {start} taken (found i le ok first) =
    found i (omega arith) ok (λ k lo hi h. below k lo hi h)
  where
    below : (k : ℕ) → start ≤ k → k < i → ¬ IsFree bm bits k
    below k lo hi h = elim (Bool-cases (start == k)) [
      | inl same ↦ taken (subst (IsFree bm bits) (omega (arith, (==_iff start k).0 same)) h)
      | inr other ↦ first k (ground arith) hi h
    ]
FirstFree-suc {bm} {bits} {start} taken (full first) = full below
  where
    below : (k : ℕ) → start ≤ k → ¬ IsFree bm bits k
    below k lo h = elim (Bool-cases (start == k)) [
      | inl same ↦ taken (subst (IsFree bm bits) (omega (arith, (==_iff start k).0 same)) h)
      | inr other ↦ first k (ground arith) h
    ]

find_region_vacant :
    (bm : Bitmap) (bits i : ℕ) {r : Option ℕ}
    → 0 < bits
    → FirstFree bm bits (i + 1) r
    → FirstFree bm bits i (
        if ltb bm.size (i + bits) then none else if region_free bm i bits bits i then some i else r)
find_region_vacant bm bits i pos rest = elim (Bool-cases (ltb bm.size (i + bits))) [
  | inl past ↦ rw past (full (λ k lo h. absurd (ground (arith, h.fits))))
  | inr fits ↦ rw fits (elim (Bool-cases (region_free bm i bits bits i)) [
    | inl free ↦ rw free (
        found i (omega arith)
          (record {
            fits = ground arith;
            free = λ j lo hi. region_free_sound bm i bits bits i j refl (omega arith) free lo hi;
          })
          (λ k lo hi h. absurd (omega arith)))
    | inr broken ↦ rw broken (
        FirstFree-suc
          (λ h. cc (broken, region_free_complete bm i bits bits i refl (omega arith) pos h.free))
          rest)
  ])
]

find_region-FirstFree :
    (bm : Bitmap) (bits left i : ℕ)
    → 0 < bits
    → i + left ≡ bm.size
    → FirstFree bm bits i (find_region bm bits left i)
unfolding find_region
find_region-FirstFree bm bits zero i pos e = full (λ k lo h. absurd (omega (arith, h.fits)))
find_region-FirstFree bm bits (suc left) i pos e =
    let rest : FirstFree bm bits (i + 1) (find_region bm bits left (i + 1)) =
      find_region-FirstFree bm bits left (i + 1) pos (omega arith) in
    elim (Bool-cases (bitmap_get bm i)) [
      | inl busy ↦
          rw busy (FirstFree-suc (λ h. cc (busy, h.free i (omega arith) (omega arith))) rest)
      | inr vacant ↦ rw vacant (find_region_vacant bm bits i pos rest)
    ]

-- For at least one bit, `bitmap_find_free_region` returns the lowest index at which `bits` bits are
-- free and inside the bitmap, and -1 exactly when there is none.
pub bitmap_find_free_region-FirstFree :
    (bm : Bitmap) (bits : ℕ) → 0 < bits → FirstFree bm bits 0 (bitmap_find_free_region bm bits)
unfolding bitmap_find_free_region
bitmap_find_free_region-FirstFree bm bits pos =
    find_region-FirstFree bm bits bm.size 0 pos (omega arith)

FirstFree-some :
    {bm : Bitmap} {bits start i : ℕ} {r : Option ℕ}
    → FirstFree bm bits start r
    → r ≡ some i
    → IsFree bm bits i
FirstFree-some {bm} {bits} {i = i} (found k le ok first) e =
    subst (IsFree bm bits) (some-injective k i e) ok
FirstFree-some (full h) e = cc

-- What the search returns is free.
pub bitmap_find_free_region-IsFree :
    (bm : Bitmap) (bits i : ℕ)
    → 0 < bits
    → bitmap_find_free_region bm bits ≡ some i
    → IsFree bm bits i
bitmap_find_free_region-IsFree bm bits i pos e =
    FirstFree-some (bitmap_find_free_region-FirstFree bm bits pos) e
