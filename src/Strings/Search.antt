-- ===== src/Strings/Search.antt =====
-- strchr and findstr of lib/string.c.
use oscar_kernel.Common.{
  ℕ, zero, suc, ◌+◌, ◌-◌, ◌≤◌, ◌<◌, ◌≡◌, refl, sym, subst, ◌∙◌, true, false, Option, none, some,
  List, [], ◌∷◌, length, Store, ltb, ◌==◌, if◌then◌else◌, arith, Bool-cases, inl, inr, ◌↔◌,
}
use mathlib.Core.Option.{map}
use oscar_kernel.Strings.{strchr, agrees, findstr_from, findstr}
use oscar_kernel.Strings.Scan.{IsString}

-- The place of the first `c` in a list.
pub index_of : ℕ → List ℕ → Option ℕ
index_of c [] = none
index_of c (x ∷ xs) = let rest = index_of c xs in if x == c then some 0 else map suc rest

shifted : (s : ℕ) (o : Option ℕ) → map (λ i. s + 1 + i) o ≡ map (λ i. s + i) (map suc o)
shifted s none = refl
shifted s (some i) = let e : s + 1 + i ≡ s + suc i = omega arith in rw e refl

-- For a character other than NUL `strchr` gives the address of its first occurrence in the string,
-- or NULL where there is none, given fuel for one step more than the string has characters.
pub strchr-index_of :
    (fuel : ℕ) (m : Store) (s c : ℕ) (cs : List ℕ)
    → IsString m s cs
    → 0 < c
    → length cs < fuel
    → strchr fuel m s c ≡ some (map (λ i. s + i) (index_of c cs))
unfolding strchr IsString index_of
strchr-index_of zero m s c cs h pos f = absurd (omega arith)
strchr-index_of (suc fuel) m s c [] h pos f = ground arith
strchr-index_of (suc fuel) m s c (x ∷ xs) (a, b, h) pos f =
    rw (strchr-index_of fuel m (s + 1) c xs h pos (omega arith), a)
      (elim (Bool-cases (x == c)) [
        | inl e ↦ rw e (ground arith)
        | inr e ↦
            let more : (x == 0) ≡ false = ground arith in
            rw (e, more, shifted s (index_of c xs)) refl
      ])

pub agrees_iff :
    (m : Store) (a b len : ℕ)
    → (agrees m a b len ≡ true) ↔ ((k : ℕ) → k < len → m (a + k) ≡ m (b + k))
unfolding agrees
agrees_iff m a b zero = (λ e k h. absurd (omega arith), λ e. refl)
agrees_iff m a b (suc len) =
    let (to, from) = agrees_iff m (a + 1) (b + 1) len in
    elim (Bool-cases (m a == m b)) [
      | inl eq ↦
          rw eq
            (λ e k h. ground (arith, to e (k - 1)), λ e. from (λ k h. ground (arith, e (k + 1))))
      | inr ne ↦ rw ne (λ e. absurd (ground (arith, e)), λ e. absurd (ground (arith, e 0)))
    ]

findstr_from-first :
    (m : Store) (d str len i left k : ℕ)
    → k < left
    → agrees m (d + (i + k)) str len ≡ true
    → ((j : ℕ) → j < k → agrees m (d + (i + j)) str len ≡ false)
    → findstr_from m d str len i left ≡ i + k
unfolding findstr_from
findstr_from-first m d str len i zero k h at before = absurd (omega arith)
findstr_from-first m d str len i (suc left) zero h at before =
    let e : d + (i + 0) ≡ d + i = omega arith in
    let hit : agrees m (d + i) str len ≡ true = subst (λ a. agrees m a str len ≡ true) e at in
    rw hit (omega arith)
findstr_from-first m d str len i (suc left) (suc k) h at before =
    let e : d + (i + 0) ≡ d + i = omega arith in
    let miss : agrees m (d + i) str len ≡ false =
      subst (λ a. agrees m a str len ≡ false) e (before 0 (omega arith)) in
    let move : (j : ℕ) → i + suc j ≡ i + 1 + j = λ j. omega arith in
    let rest : findstr_from m d str len (i + 1) left ≡ i + 1 + k =
      findstr_from-first m d str len (i + 1) left k (omega arith)
        (subst (λ a. agrees m (d + a) str len ≡ true) (move k) at)
        (λ j p.
          subst (λ a. agrees m (d + a) str len ≡ false) (move j) (before (suc j) (omega arith))) in
    rw miss (rest ∙ sym (move k))

offset_from :
    (m : Store) (d str len left k : ℕ)
    → k < left
    → agrees m (d + k) str len ≡ true
    → ((j : ℕ) → j < k → agrees m (d + j) str len ≡ false)
    → findstr_from m d str len 0 left ≡ k
offset_from m d str len left k h at before =
    let none_added : (j : ℕ) → 0 + j ≡ j = λ j. omega arith in
    findstr_from-first m d str len 0 left k h
      (subst (λ a. agrees m (d + a) str len ≡ true) (sym (none_added k)) at)
      (λ j p. subst (λ a. agrees m (d + a) str len ≡ false) (sym (none_added j)) (before j p))
    ∙ none_added k

-- Where the text stands at offset `k` and ends inside the data, and stands at no lower offset,
-- `findstr` returns `k`.
pub findstr-first :
    (m : Store) (d size str len k : ℕ)
    → k + len ≤ size
    → ((i : ℕ) → i < len → m (d + k + i) ≡ m (str + i))
    → ((j : ℕ) → j < k → agrees m (d + j) str len ≡ false)
    → findstr m d size str len ≡ k
unfolding findstr
findstr-first m d size str len k fits at before =
    let big : ltb size len ≡ false = ground arith in
    let hit : agrees m (d + k) str len ≡ true = (agrees_iff m (d + k) str len).1 at in
    rw big (offset_from m d str len (size - len + 1) k (omega arith) hit before)
