-- ===== src/Strings/Scan.antt =====
-- Strings of lib/string.c as lists of their characters: strlen, strnlen, strcpy.
use oscar_kernel.Common.{
  ℕ, zero, suc, ◌+◌, ◌≤◌, ◌<◌, ◌≡◌, ◌⊎◌, refl, false, some, List, [], ◌∷◌, length, Store, update,
  ltb, ◌==◌, if◌then◌else◌, arith,
}
use oscar_kernel.Strings.{strlen, strnlen, strcpy}

-- The characters at `s` up to a NUL are `cs`.
unfoldable pub IsString : Store → ℕ → List ℕ → Type 0
IsString m s [] = m s ≡ 0
IsString m s (c ∷ cs) = (m s ≡ c) × (0 < c) × IsString m (s + 1) cs

-- A string depends only on its own bytes.
pub IsString-unchanged :
    (m n : Store) (s : ℕ) (cs : List ℕ)
    → ((x : ℕ) → s ≤ x → x ≤ s + length cs → n x ≡ m x)
    → IsString m s cs
    → IsString n s cs
unfolding IsString
IsString-unchanged m n s [] e h = ground (arith, e s)
IsString-unchanged m n s (c ∷ cs) e (a, b, h) = (
  ground (arith, e s),
  b,
  IsString-unchanged m n (s + 1) cs (λ x p q. e x (omega arith) (omega arith)) h,
)

-- `strlen` of a string is the number of its characters, given fuel for one step more.
pub strlen-length :
    (fuel : ℕ) (m : Store) (s : ℕ) (cs : List ℕ)
    → IsString m s cs
    → length cs < fuel
    → strlen fuel m s ≡ some (length cs)
unfolding strlen IsString
strlen-length zero m s cs h f = absurd (omega arith)
strlen-length (suc fuel) m s [] h f = ground arith
strlen-length (suc fuel) m s (c ∷ cs) (a, b, h) f =
    rw (strlen-length fuel m (s + 1) cs h (omega arith)) (ground arith)

-- `strnlen` of a string is the number of its characters, at most `count`.
pub strnlen-length :
    (m : Store) (s count : ℕ) (cs : List ℕ)
    → IsString m s cs
    → strnlen m s count ≡ (if ltb count (length cs) then count else length cs)
unfolding strnlen IsString
strnlen-length m s zero cs h = ground arith
strnlen-length m s (suc count) [] h = ground arith
strnlen-length m s (suc count) (c ∷ cs) (a, b, h) =
    ground (arith, strnlen-length m (s + 1) count cs h)

-- What a copy of a string leaves behind.
pub record IsCopied (m : Store) (dest : ℕ) (cs : List ℕ) (m' : Store) : Type 0 where
  pub copied : IsString m' dest cs
  pub kept : (x : ℕ) → (x < dest) ⊎ (dest + length cs < x) → m' x ≡ m x

-- Given fuel for one step more than its characters, `strcpy` of a string that does not overlap the
-- destination returns: it leaves the string at the destination and changes nothing else.
pub strcpy-Copied :
    (fuel : ℕ) (m : Store) (dest src : ℕ) (cs : List ℕ)
    → IsString m src cs
    → length cs < fuel
    → (dest + length cs < src) ⊎ (src + length cs < dest)
    → (m' : Store) × (strcpy fuel m dest src ≡ some m') × IsCopied m dest cs m'
unfolding strcpy IsString
strcpy-Copied zero m dest src cs h f apart = absurd (omega arith)
strcpy-Copied (suc fuel) m dest src [] h f apart =
    (update m dest (m src), rw h refl, record { copied = ground arith; kept = λ x p. ground arith })
strcpy-Copied (suc fuel) m dest src (c ∷ cs) (a, b, h) f apart =
    let n : Store = update m dest (m src) in
    let same : IsString n (src + 1) cs =
      IsString-unchanged m n (src + 1) cs (λ x p q. ground arith) h in
    let (m', run, rest) =
      strcpy-Copied fuel n (dest + 1) (src + 1) cs same (omega arith) (ground arith) in
    (
      m',
      let more : (m src == 0) ≡ false = ground arith in rw more run,
      record {
        copied = (ground (arith, rest.kept dest), b, rest.copied);
        kept = λ x p. ground (arith, rest.kept x);
      },
    )
