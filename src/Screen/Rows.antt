-- ===== src/Screen/Rows.antt =====
-- What the loops over one row of drivers/video/fbdev/boot_fb.c do to memory, at plain indices.
use oscar_kernel.Common.{
  ℕ, zero, suc, ◌+◌, ◌-◌, ◌≤◌, ◌≡◌, ◌⊎◌, ◌&&◌, Store, update, ltb, leb, arith, if◌then◌else◌,
}
use oscar_kernel.Common.Loops.{for_range, for_down}

-- From index `d` on, `n` words hold `value` of their place.
abbrev pub written : ℕ → ℕ → (ℕ → ℕ) → Store → Store
written d n value mem x = if leb d x && ltb x (d + n) then value (x - d) else mem x

-- The words from `s` on are copied to `d` from the first on, where the target lies before the
-- source or behind all of it.
copy_up_from :
    (d s w k i : ℕ) (mem : Store) (x : ℕ)
    → (d ≤ s) ⊎ (s + w ≤ d)
    → i + k ≡ w
    → for_range k i (λ c m. update m (d + c) (m (s + c))) mem x
      ≡ written (d + i) k (λ c. mem (s + i + c)) mem x
unfolding for_range
copy_up_from d s w zero i mem x apart e = ground arith
copy_up_from d s w (suc k) i mem x apart e =
    ground (arith, copy_up_from d s w k (i + 1) (update mem (d + i) (mem (s + i))) x apart)

pub copy_up :
    (d s w : ℕ) (mem : Store) (x : ℕ)
    → (d ≤ s) ⊎ (s + w ≤ d)
    → for_range w 0 (λ c m. update m (d + c) (m (s + c))) mem x
      ≡ written d w (λ c. mem (s + c)) mem x
copy_up d s w mem x apart = ground (arith, copy_up_from d s w w 0 mem x apart)

pub copy_down :
    (d s w k : ℕ) (mem : Store) (x : ℕ)
    → (s ≤ d) ⊎ (d + w ≤ s)
    → k ≤ w
    → for_down k (λ c m. update m (d + c) (m (s + c))) mem x ≡ written d k (λ c. mem (s + c)) mem x
unfolding for_down
copy_down d s w zero mem x apart e = ground arith
copy_down d s w (suc k) mem x apart e =
    ground (arith, copy_down d s w k (update mem (d + k) (mem (s + k))) x apart)

write_from :
    (d k i : ℕ) (value : ℕ → ℕ) (mem : Store) (x : ℕ)
    → for_range k i (λ c m. update m (d + c) (value c)) mem x
      ≡ written (d + i) k (λ c. value (i + c)) mem x
unfolding for_range
write_from d zero i value mem x = ground arith
write_from d (suc k) i value mem x =
    ground (arith, write_from d k (i + 1) value (update mem (d + i) (value i)) x)

pub write_row :
    (d w : ℕ) (value : ℕ → ℕ) (mem : Store) (x : ℕ)
    → for_range w 0 (λ c m. update m (d + c) (value c)) mem x ≡ written d w value mem x
write_row d w value mem x = ground (arith, write_from d w 0 value mem x)
