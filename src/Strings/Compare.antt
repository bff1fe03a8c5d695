-- ===== src/Strings/Compare.antt =====
-- memcmp, strcmp and strncmp of lib/string.c.
use oscar_kernel.Common.{
  ℕ, zero, suc, ◌+◌, ◌-◌, ◌<◌, ◌≡◌, ◌↔◌, refl, some, List, [], ◌∷◌, length, Store, ltb, ◌==◌,
  if◌then◌else◌, arith, Bool-cases, inl, inr,
}
use oscar_kernel.Strings.{memcmp, char_diff, Sign, strcmp, strncmp}
use oscar_kernel.Strings.Sign.{negative, same, positive}
use oscar_kernel.Strings.Scan.{IsString}

char_diff-zero : (a b : ℕ) → a < 256 → b < 256 → char_diff a b ≡ 0 → a ≡ b
char_diff-zero a b ha hb h = ground arith

-- On bytes `memcmp` returns 0 exactly if the two blocks agree at every place.
pub memcmp_iff :
    (m : Store) (s1 s2 size : ℕ)
    → ((x : ℕ) → m x < 256)
    → (memcmp m s1 s2 size ≡ 0) ↔ ((i : ℕ) → i < size → m (s1 + i) ≡ m (s2 + i))
unfolding memcmp
memcmp_iff m s1 s2 zero bytes = (λ e i h. absurd (omega arith), λ e. refl)
memcmp_iff m s1 s2 (suc size) bytes =
    let (to, from) = memcmp_iff m (s1 + 1) (s2 + 1) size bytes in
    elim (Bool-cases (m s1 == m s2)) [
      | inl eq ↦
          rw eq
            (λ e i h. ground (arith, to e (i - 1)), λ e. from (λ i h. ground (arith, e (i + 1))))
      | inr ne ↦ rw ne (
        λ e. absurd (ground (arith, char_diff-zero (m s1) (m s2) (bytes s1) (bytes s2) e)),
        λ e. absurd (ground (arith, e 0)),
      )
    ]

-- The lexicographic order of lists of characters, a proper prefix first.
pub compare_lists : List ℕ → List ℕ → Sign
compare_lists [] [] = same
compare_lists [] (y ∷ ys) = negative
compare_lists (x ∷ xs) [] = positive
compare_lists (x ∷ xs) (y ∷ ys) =
    let rest = compare_lists xs ys in
    if x == y then rest else if ltb x y then negative else positive

pub first_chars : ℕ → List ℕ → List ℕ
first_chars zero cs = []
first_chars (suc n) [] = []
first_chars (suc n) (c ∷ cs) = c ∷ first_chars n cs

-- `strcmp` of two strings compares their lists of characters lexicographically, given fuel for one
-- step more than the first has characters.
pub strcmp-compare_lists :
    (fuel : ℕ) (m : Store) (cs ct : ℕ) (xs ys : List ℕ)
    → IsString m cs xs
    → IsString m ct ys
    → length xs < fuel
    → strcmp fuel m cs ct ≡ some (compare_lists xs ys)
unfolding strcmp IsString compare_lists
strcmp-compare_lists zero m cs ct xs ys hx hy f = absurd (omega arith)
strcmp-compare_lists (suc fuel) m cs ct [] [] hx hy f = ground arith
strcmp-compare_lists (suc fuel) m cs ct [] (y ∷ ys) hx (a, b, hy) f = ground arith
strcmp-compare_lists (suc fuel) m cs ct (x ∷ xs) [] (a, b, hx) hy f = ground arith
strcmp-compare_lists (suc fuel) m cs ct (x ∷ xs) (y ∷ ys) (a, b, hx) (c, d, hy) f =
    rw (strcmp-compare_lists fuel m (cs + 1) (ct + 1) xs ys hx hy (omega arith)) (ground arith)

-- `strncmp` of two strings compares the lists of their first `count` characters lexicographically.
pub strncmp-compare_lists :
    (m : Store) (cs ct count : ℕ) (xs ys : List ℕ)
    → IsString m cs xs
    → IsString m ct ys
    → strncmp m cs ct count ≡ compare_lists (first_chars count xs) (first_chars count ys)
unfolding strncmp IsString compare_lists first_chars
strncmp-compare_lists m cs ct zero xs ys hx hy = refl
strncmp-compare_lists m cs ct (suc count) [] [] hx hy = ground arith
strncmp-compare_lists m cs ct (suc count) [] (y ∷ ys) hx (a, b, hy) = ground arith
strncmp-compare_lists m cs ct (suc count) (x ∷ xs) [] (a, b, hx) hy = ground arith
strncmp-compare_lists m cs ct (suc count) (x ∷ xs) (y ∷ ys) (a, b, hx) (c, d, hy) =
    rw (strncmp-compare_lists m (cs + 1) (ct + 1) count xs ys hx hy) (ground arith)
