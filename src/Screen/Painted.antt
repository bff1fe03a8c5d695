-- ===== src/Screen/Painted.antt =====
-- What the loops of `boot_fb_fillrect` and `boot_fb_imageblit` of drivers/video/fbdev/boot_fb.c
-- write, in rows and columns of the screen.
use oscar_kernel.Common.{
  ℕ, zero, suc, ◌+◌, ◌-◌, ◌*◌, ◌%◌, ◌^◌, ◌<◌, ◌≤◌, ◌≡◌, refl, ap, ◌∙◌, false, inl, inr, Store,
  update, Bool-cases, arith, if◌then◌else◌,
}
use oscar_kernel.Common.Loops.{for_range, for_range_ext}
use oscar_kernel.Screen.{FbFillrect, FbImage, offset, paint, boot_fb_fillrect, boot_fb_imageblit}
use oscar_kernel.Screen.Rows.{write_row}
use oscar_kernel.Screen.Planes.{Fits, in_area, written-pixel, offset_lem}
use oscar_kernel.Screen.Area.{peel}

module _ (pitch y x width height : ℕ) (at value : ℕ → ℕ → ℕ) (columns : x + width ≤ pitch)
    (place : (j i : ℕ) → j < height → i < width → at j i ≡ (j + y) * pitch + x + i) where
  abbrev paint_row : ℕ → Store → Store
  paint_row j mem = for_range width 0 (λ i n. update n (at j i) (value j i)) mem

  paint_row-pixel :
      (j : ℕ) (mem : Store) (r c : ℕ)
      → j < height
      → c < pitch
      → paint_row j mem (r * pitch + c)
        ≡ (if in_area (j + y) x width 1 r c then value (r - y) (c - x) else mem (r * pitch + c))
  paint_row-pixel j mem r c hj hc =
      ap (λ (m : Store). m (r * pitch + c))
        (for_range_ext (λ i n. update n (at j i) (value j i))
          (λ i n. update n ((j + y) * pitch + x + i) (value j i)) width 0 mem
          (λ i n l u. ap (λ (a : ℕ). update n a (value j i)) (place j i hj (omega arith))))
      ∙ write_row ((j + y) * pitch + x) width (value j) mem (r * pitch + c)
      ∙ written-pixel pitch (j + y) x width r c (value j) mem columns hc
      ∙ own
    where
      own :
          (if in_area (j + y) x width 1 r c then value j (c - x) else mem (r * pitch + c))
          ≡ (if in_area (j + y) x width 1 r c then value (r - y) (c - x) else mem (r * pitch + c))
      own = elim (Bool-cases (in_area (j + y) x width 1 r c)) [
        | inr out ↦ rw out refl
        | inl inside ↦ let row : r - y ≡ j = ground arith in rw (inside, row) refl
      ]

  paint_from :
      (k j : ℕ) (mem : Store) (r c : ℕ)
      → j + k ≡ height
      → c < pitch
      → for_range k j paint_row mem (r * pitch + c)
        ≡ (if in_area (j + y) x width k r c then value (r - y) (c - x) else mem (r * pitch + c))
  unfolding for_range
  paint_from zero j mem r c e hc =
      let out : in_area (j + y) x width 0 r c ≡ false = ground arith in rw out refl
  paint_from (suc k) j mem r c e hc =
      paint_from k (j + 1) (paint_row j mem) r c (omega arith) hc
      ∙ peel (in_area (j + 1 + y) x width k r c) (in_area (j + y) x width 1 r c)
          (value (r - y) (c - x)) (mem (r * pitch + c)) (ground arith) (λ inside. refl)
          (paint_row-pixel j mem r c (omega arith) hc)

  pub paint-pixel :
      (mem : Store) (r c : ℕ)
      → c < pitch
      → paint at width height value mem (r * pitch + c)
        ≡ (if in_area y x width height r c then value (r - y) (c - x) else mem (r * pitch + c))
  unfolding paint
  paint-pixel mem r c hc =
      let start : 0 + y ≡ y = omega arith in
      paint_from height 0 mem r c (omega arith) hc
      ∙ ap
          (λ (t : ℕ).
            if in_area t x width height r c then value (r - y) (c - x) else mem (r * pitch + c))
          start

-- The rectangle has its colour, and nothing else changes.
pub fillrect-fills :
    (pitch : ℕ) (rect : FbFillrect) (mem : Store) (r c : ℕ)
    → Fits pitch rect.dy rect.dx rect.width rect.height
    → c < pitch
    → boot_fb_fillrect pitch rect mem (r * pitch + c) ≡ (
        if in_area rect.dy rect.dx rect.width rect.height r c
        then rect.color
        else mem (r * pitch + c))
unfolding boot_fb_fillrect
fillrect-fills pitch rect mem r c fits hc =
    paint-pixel pitch rect.dy rect.dx rect.width rect.height (offset pitch rect.dy rect.dx)
      (λ j i. rect.color) fits.columns (λ j i hj hi. offset_lem pitch j i fits hj hi) mem r c hc

-- The area shows the image, and nothing else changes.
pub imageblit-shows :
    (pitch : ℕ) (image : FbImage) (mem : Store) (r c : ℕ)
    → Fits pitch image.dy image.dx image.width image.height
    → c < pitch
    → boot_fb_imageblit pitch image mem (r * pitch + c) ≡ (
        if in_area image.dy image.dx image.width image.height r c
        then image.pixels (((r - image.dy) * image.width % 2 ^ 32 + (c - image.dx)) % 2 ^ 32)
        else mem (r * pitch + c))
unfolding boot_fb_imageblit
imageblit-shows pitch image mem r c fits hc =
    paint-pixel pitch image.dy image.dx image.width image.height (offset pitch image.dy image.dx)
      (λ j i. image.pixels ((j * image.width % 2 ^ 32 + i) % 2 ^ 32)) fits.columns
      (λ j i hj hi. offset_lem pitch j i fits hj hi) mem r c hc
