-- ===== src/Screen/Planes.antt =====
-- The memory of a framebuffer seen as rows of `pitch` pixels: where the areas of
-- drivers/video/fbdev/boot_fb.c lie in it.
use oscar_kernel.Common.{
  ℕ, suc, ◌+◌, ◌-◌, ◌*◌, ◌^◌, ◌≤◌, ◌<◌, ◌≡◌, ap, inl, inr, Bool, ◌&&◌, Store, ltb, leb, ltb→lt,
  ltb→le, Bool-cases, arith, if◌then◌else◌,
}
use native.Mathlib.Nat.{mul-le-mul_right}
use oscar_kernel.Screen.{offset}
use oscar_kernel.Screen.Rows.{written}

-- An area of `height` rows from (y, x) on within rows of `pitch` pixels, of sizes that fit ints.
pub record Fits (pitch y x width height : ℕ) : Type 0 where
  pub columns : x + width ≤ pitch
  pub small_pitch : pitch ≤ 2 ^ 31
  pub small_rows : y + height ≤ 2 ^ 31
  pub rows : (y + height) * pitch ≤ 2 ^ 32

abbrev pub in_area : ℕ → ℕ → ℕ → ℕ → ℕ → ℕ → Bool
in_area y x width height r c = (leb y r && ltb r (y + height)) && (leb x c && ltb c (x + width))

module _ (pitch : ℕ) where
  pub row_mono : (a b : ℕ) → a ≤ b → a * pitch ≤ b * pitch
  row_mono a b h = mul-le-mul_right pitch h

  pub row_next : (a b : ℕ) → a < b → a * pitch + pitch ≤ b * pitch
  row_next a b h = omega (arith, mul-le-mul_right {m = suc a} {n = b} pitch h)

  written_same :
      (d x w c : ℕ) (value : ℕ → ℕ) (mem : Store)
      → written (d * pitch + x) w value mem (d * pitch + c)
        ≡ (if in_area d x w 1 d c then value (c - x) else mem (d * pitch + c))
  written_same d x w c value mem =
      let place : d * pitch + c - (d * pitch + x) ≡ c - x = omega arith in
      ground (arith, ap value place)

  -- The words of one row of an area, found in the rows of the screen.
  pub written-pixel :
      (d x w r c : ℕ) (value : ℕ → ℕ) (mem : Store)
      → x + w ≤ pitch
      → c < pitch
      → written (d * pitch + x) w value mem (r * pitch + c)
        ≡ (if in_area d x w 1 r c then value (c - x) else mem (r * pitch + c))
  written-pixel d x w r c value mem room h = elim (Bool-cases (ltb r d)) [
    | inl above ↦ ground (arith, row_next r d (ltb→lt r d above))
    | inr not_above ↦ elim (Bool-cases (ltb d r)) [
      | inl under ↦ ground (arith, row_next d r (ltb→lt d r under))
      | inr not_under ↦
          let same : r ≡ d = omega (arith, ltb→le r d not_above, ltb→le d r not_under) in
          rw same (written_same d x w c value mem)
    ]
  ]

  -- The index that the code computes does not wrap around.
  pub offset_lem :
      {y x width height : ℕ} (j i : ℕ)
      → Fits pitch y x width height
      → j < height
      → i < width
      → offset pitch y x j i ≡ (j + y) * pitch + x + i
  offset_lem {y} {x} {width} {height} j i fits hj hi =
      omega (arith, fits.columns, fits.rows, row_next (j + y) (y + height) (omega arith))
