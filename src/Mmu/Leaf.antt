-- ===== src/Mmu/Leaf.antt =====
-- The leaf that a four-level walk reaches, described by division and remainder instead of masks.
use oscar_kernel.Common.{
  ℕ, zero, suc, ◌+◌, ◌*◌, ◌/◌, ◌%◌, ◌^◌, ◌<◌, ◌≡◌, refl, bit_and, Bool, ◌&&◌, Option, none, some,
  Store, ◌==◌, ltb, if◌then◌else◌, arith, inl, inr, Bool-cases, Option-cases,
}
use mathlib.Core.Option.{map}
use oscar_kernel.Common.Bits.{digit, bit_and-low, has_bit-digit}
use oscar_kernel.Common.Masks.{bit_and-frame}
use oscar_kernel.Bootmem.{phys_to_virt}
use oscar_kernel.Mmu.{large_page, pt_level, pd_level, pdpt_level, pml4_level}

-- The entry that ends a walk, the entry of the table above it, and the binary logarithm of the page's
-- size.
pub record Leaf : Type 0 where
  pub size : ℕ
  pub parent : ℕ
  pub entry : ℕ

unfoldable pub follow : Option ℕ → (ℕ → Option Leaf) → Option Leaf
follow none f = none
follow (some a) f = f a

-- The address that the processor would form: the frame in the bits of the entry below bit 52, and the offset
-- of the address.
unfoldable pub leaf_address : ℕ → Leaf → ℕ
leaf_address addr leaf = leaf.entry % 2 ^ 52 / 2 ^ leaf.size * 2 ^ leaf.size + addr % 2 ^ leaf.size

-- The address that mmu.c forms, with the frame of a 2 MB page out of the entry above.
unfoldable pub code_address : ℕ → Leaf → ℕ
code_address addr leaf =
    (if leaf.size == 21 then leaf.parent else leaf.entry) / 2 ^ leaf.size * 2 ^ leaf.size
    + addr % 2 ^ leaf.size

module _ (mem : Store) (present : ℕ → Bool) (locate : ℕ → Option ℕ) (addr : ℕ) where
  -- The walk from the table at `table` whose entries stand for 2 ^ (12 + 9 * level) bytes each. The
  -- entries of the two middle levels may be large pages.
  unfoldable pub find_leaf : ℕ → ℕ → ℕ → Option Leaf
  unfolding follow
  find_leaf zero parent table =
      let e = mem ((table + 8 * (addr / 2 ^ 12 % 512)) % 2 ^ 64) in
      if present e then some (record { size = 12; parent = parent; entry = e }) else none
  find_leaf (suc level) parent table =
      let e = mem ((table + 8 * (addr / 2 ^ (21 + 9 * level) % 512)) % 2 ^ 64) in
      if present e
      then if ltb level 2 && (digit 7 e == 1)
        then some (record { size = 21 + 9 * level; parent = parent; entry = e })
        else follow (locate (e / 2 ^ 12 * 2 ^ 12)) (λ hpa. find_leaf level e (phys_to_virt hpa))
      else none

  module _ (words : (a : ℕ) → mem a < 2 ^ 64) where
    index-low : (x : ℕ) → bit_and x 0x1ff ≡ x % 512
    index-low x = bit_and-low 9 x

    low_1gb : (x : ℕ) → bit_and x 0x3fffffff ≡ x % 2 ^ 30
    low_1gb x = bit_and-low 30 x

    low_2mb : (x : ℕ) → bit_and x 0x1fffff ≡ x % 2 ^ 21
    low_2mb x = bit_and-low 21 x

    low_4kb : (x : ℕ) → bit_and x 0xfff ≡ x % 2 ^ 12
    low_4kb x = bit_and-low 12 x

    frame_4kb : (e : ℕ) → e < 2 ^ 64 → bit_and e 0xfffffffffffff000 ≡ e / 2 ^ 12 * 2 ^ 12
    frame_4kb e h = bit_and-frame 12 52 e (omega arith)

    frame_2mb : (e : ℕ) → e < 2 ^ 64 → bit_and e 0xffffffffffe00000 ≡ e / 2 ^ 21 * 2 ^ 21
    frame_2mb e h = bit_and-frame 21 43 e (omega arith)

    frame_1gb : (e : ℕ) → e < 2 ^ 64 → bit_and e 0xffffffffc0000000 ≡ e / 2 ^ 30 * 2 ^ 30
    frame_1gb e h = bit_and-frame 30 34 e (omega arith)

    large_page-digit : (e : ℕ) → large_page e ≡ (digit 7 e == 1)
    large_page-digit e = has_bit-digit e 7

    pt_level-find_leaf :
        (parent hpa : ℕ)
        → pt_level mem present locate addr hpa
          ≡ map (code_address addr) (find_leaf 0 parent (phys_to_virt hpa))
    unfolding pt_level find_leaf code_address
    pt_level-find_leaf parent hpa =
        let e = mem ((phys_to_virt hpa + 8 * (addr / 2 ^ 12 % 512)) % 2 ^ 64) in
        rw (index-low (addr / 2 ^ 12)) (elim (Bool-cases (present e)) [
          | inl p ↦ rw p (rw (frame_4kb e (words _), low_4kb addr) refl)
          | inr p ↦ rw p refl
        ])

    pd_level-find_leaf :
        (parent hpa : ℕ)
        → parent < 2 ^ 64
        → pd_level mem present locate addr parent hpa
          ≡ map (code_address addr) (find_leaf 1 parent (phys_to_virt hpa))
    unfolding pd_level find_leaf code_address follow
    pd_level-find_leaf parent hpa small =
        let e = mem ((phys_to_virt hpa + 8 * (addr / 2 ^ 21 % 512)) % 2 ^ 64) in
        rw (index-low (addr / 2 ^ 21)) (elim (Bool-cases (present e)) [
          | inl p ↦
              rw (p, large_page-digit e, frame_4kb e (words _))
                (elim (Bool-cases (digit 7 e == 1)) [
                  | inl l ↦ rw l (rw (frame_2mb parent small, low_2mb addr) refl)
                  | inr l ↦ rw l (elim (Option-cases (locate (e / 2 ^ 12 * 2 ^ 12))) [
                    | inl q ↦ rw q refl
                    | inr (a, q) ↦ rw q (pt_level-find_leaf e a)
                  ])
                ])
          | inr p ↦ rw p refl
        ])

    pdpt_level-find_leaf :
        (parent hpa : ℕ)
        → pdpt_level mem present locate addr hpa
          ≡ map (code_address addr) (find_leaf 2 parent (phys_to_virt hpa))
    unfolding pdpt_level find_leaf code_address follow
    pdpt_level-find_leaf parent hpa =
        let e = mem ((phys_to_virt hpa + 8 * (addr / 2 ^ 30 % 512)) % 2 ^ 64) in
        rw (index-low (addr / 2 ^ 30)) (elim (Bool-cases (present e)) [
          | inl p ↦
              rw (p, large_page-digit e, frame_4kb e (words _))
                (elim (Bool-cases (digit 7 e == 1)) [
                  | inl l ↦ rw l (rw (frame_1gb e (words _), low_1gb addr) refl)
                  | inr l ↦ rw l (elim (Option-cases (locate (e / 2 ^ 12 * 2 ^ 12))) [
                    | inl q ↦ rw q refl
                    | inr (a, q) ↦ rw q (pd_level-find_leaf e a (words _))
                  ])
                ])
          | inr p ↦ rw p refl
        ])

    pub pml4_level-find_leaf :
        (table : ℕ)
        → pml4_level mem present locate addr table ≡ map (code_address addr) (find_leaf 3 0 table)
    unfolding pml4_level find_leaf code_address follow
    pml4_level-find_leaf table =
        let e = mem ((table + 8 * (addr / 2 ^ 39 % 512)) % 2 ^ 64) in
        rw (index-low (addr / 2 ^ 39)) (elim (Bool-cases (present e)) [
          | inl p ↦
              rw (p, frame_4kb e (words _))
                (elim (Option-cases (locate (e / 2 ^ 12 * 2 ^ 12))) [
                  | inl q ↦ rw q refl
                  | inr (a, q) ↦ rw q (pdpt_level-find_leaf e a)
                ])
          | inr p ↦ rw p refl
        ])
