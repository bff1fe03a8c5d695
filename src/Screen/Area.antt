-- ===== src/Screen/Area.antt =====
-- What `boot_fb_copyarea`, `boot_fb_fillrect` and `boot_fb_imageblit` of
-- drivers/video/fbdev/boot_fb.c leave on the screen.
use oscar_kernel.Common.{
  ℕ, zero, suc, ◌+◌, ◌-◌, ◌*◌, ◌^◌, ◌≤◌, ◌<◌, ◌≡◌, ◌≢◌, refl, ap, ◌⊎◌, ◌∙◌, inl, inr, Bool, true,
  false, Store, update, ltb, leb, ltb→lt, ltb→le, Bool-cases, arith, if◌then◌else◌,
}
use oscar_kernel.Common.Loops.{for_range, for_down, for_range_ext, for_down_ext}
use oscar_kernel.Screen.{FbCopyarea, copy_pixel, copy_row, boot_fb_copyarea}
use oscar_kernel.Screen.Rows.{written, copy_up, copy_down}
use oscar_kernel.Screen.Planes.{Fits, in_area, row_mono, row_next, written-pixel, offset_lem}

-- A conditional taken apart by the rounds of a loop.
pub peel :
    (rest first : Bool) {all : Bool} (x y : ℕ) {x' y' : ℕ}
    → all ≡ (if rest then true else first)
    → (rest ≡ true → x' ≡ x)
    → y' ≡ (if first then x else y)
    → (if rest then x' else y') ≡ (if all then x else y)
peel true first x y e later now = later refl ∙ rw e refl
peel false first x y e later now = now ∙ rw e refl

module _ (pitch : ℕ) (region : FbCopyarea)
    (into : Fits pitch region.dy region.dx region.width region.height)
    (out_of : Fits pitch region.sy region.sx region.width region.height) where
  open region use {dx, dy, width, height, sx, sy}

  copy_pixel_lem :
      (j i : ℕ) (mem : Store)
      → j < height
      → i < width
      → copy_pixel pitch region j i mem
        ≡ update mem ((j + dy) * pitch + dx + i) (mem ((j + sy) * pitch + sx + i))
  copy_pixel_lem j i mem hj hi =
      rw (offset_lem pitch j i into hj hi, offset_lem pitch j i out_of hj hi) refl

  -- Where the columns go up, a row lies before its source or behind it.
  row_before :
      (j : ℕ)
      → dx < sx
      → ((j + dy) * pitch + dx ≤ (j + sy) * pitch + sx)
        ⊎ ((j + sy) * pitch + sx + width ≤ (j + dy) * pitch + dx)
  row_before j h = elim (Bool-cases (ltb sy dy)) [
    | inl low ↦ inr (
        omega (
          arith,
          out_of.columns,
          row_next pitch (j + sy) (j + dy) (omega (arith, ltb→lt sy dy low)),
        ))
    | inr high ↦
        inl (omega (arith, row_mono pitch (j + dy) (j + sy) (omega (arith, ltb→le sy dy high))))
  ]

  row_behind :
      (j : ℕ)
      → sx ≤ dx
      → ((j + sy) * pitch + sx ≤ (j + dy) * pitch + dx)
        ⊎ ((j + dy) * pitch + dx + width ≤ (j + sy) * pitch + sx)
  row_behind j h = elim (Bool-cases (ltb dy sy)) [
    | inl low ↦ inr (
        omega
          (arith, into.columns, row_next pitch (j + dy) (j + sy) (omega (arith, ltb→lt dy sy low))))
    | inr high ↦
        inl (omega (arith, row_mono pitch (j + sy) (j + dy) (omega (arith, ltb→le dy sy high))))
  ]

  -- A row is copied whole, in whichever direction.
  copy_row_lem :
      (j : ℕ) (mem : Store) (x : ℕ)
      → j < height
      → copy_row pitch region j mem x
        ≡ written ((j + dy) * pitch + dx) width (λ c. mem ((j + sy) * pitch + sx + c)) mem x
  unfolding copy_row
  copy_row_lem j mem x hj = elim (Bool-cases (ltb dx sx)) [
    | inl left ↦ rw left (
        ap (λ (m : Store). m x)
          (for_range_ext (copy_pixel pitch region j)
            (λ c m. update m ((j + dy) * pitch + dx + c) (m ((j + sy) * pitch + sx + c))) width 0
            mem (λ c m l u. copy_pixel_lem j c m hj (omega arith)))
        ∙ copy_up ((j + dy) * pitch + dx) ((j + sy) * pitch + sx) width mem x
            (row_before j (ltb→lt dx sx left)))
    | inr right ↦
        rw (right, leb_width)
          (ap (λ (m : Store). m x)
              (for_down_ext (copy_pixel pitch region j)
                (λ c m. update m ((j + dy) * pitch + dx + c) (m ((j + sy) * pitch + sx + c))) width
                mem (λ c m u. copy_pixel_lem j c m hj u))
            ∙ copy_down ((j + dy) * pitch + dx) ((j + sy) * pitch + sx) width width mem x
                (row_behind j (ltb→le dx sx right)) (omega arith))
  ]
    where
      leb_width : leb width (2 ^ 31) ≡ true
      leb_width = ground (arith, into.columns, into.small_pitch)

  -- One row, in rows and columns of the screen.
  copy_row-pixel :
      (j : ℕ) (mem : Store) (r c : ℕ)
      → j < height
      → c < pitch
      → copy_row pitch region j mem (r * pitch + c) ≡ (
          if in_area (j + dy) dx width 1 r c
          then mem ((r + sy - dy) * pitch + (c + sx - dx))
          else mem (r * pitch + c))
  copy_row-pixel j mem r c hj hc =
      copy_row_lem j mem (r * pitch + c) hj
      ∙ written-pixel pitch (j + dy) dx width r c (λ i. mem ((j + sy) * pitch + sx + i)) mem
          into.columns hc
      ∙ source
    where
      source :
          (if in_area (j + dy) dx width 1 r c
            then mem ((j + sy) * pitch + sx + (c - dx))
            else mem (r * pitch + c))
          ≡ (if in_area (j + dy) dx width 1 r c
              then mem ((r + sy - dy) * pitch + (c + sx - dx))
              else mem (r * pitch + c))
      source = elim (Bool-cases (in_area (j + dy) dx width 1 r c)) [
        | inr out ↦ rw out refl
        | inl inside ↦
            let row : r + sy - dy ≡ j + sy = ground arith in
            let column : (j + sy) * pitch + sx + (c - dx) ≡ (j + sy) * pitch + (c + sx - dx) =
              ground arith in
            rw (inside, row, column) refl
      ]

  -- What the first row does not write, and the row that follows reads.
  copy_row-else :
      (j : ℕ) (mem : Store) (r c : ℕ)
      → j < height
      → c < pitch
      → r ≢ j + dy
      → copy_row pitch region j mem (r * pitch + c) ≡ mem (r * pitch + c)
  copy_row-else j mem r c hj hc ne =
      let out : in_area (j + dy) dx width 1 r c ≡ false = ground arith in
      copy_row-pixel j mem r c hj hc
      ∙ ap
          (λ (b : Bool).
            if b then mem ((r + sy - dy) * pitch + (c + sx - dx)) else mem (r * pitch + c))
          out

  rows_up :
      (k j : ℕ) (mem : Store) (r c : ℕ)
      → dy < sy
      → j + k ≡ height
      → c < pitch
      → for_range k j (copy_row pitch region) mem (r * pitch + c) ≡ (
          if in_area (j + dy) dx width k r c
          then mem ((r + sy - dy) * pitch + (c + sx - dx))
          else mem (r * pitch + c))
  unfolding for_range
  rows_up zero j mem r c up e hc =
      let out : in_area (j + dy) dx width 0 r c ≡ false = ground arith in rw out refl
  rows_up (suc k) j mem r c up e hc =
      rows_up k (j + 1) (copy_row pitch region j mem) r c up (omega arith) hc
      ∙ peel (in_area (j + 1 + dy) dx width k r c) (in_area (j + dy) dx width 1 r c)
          (mem ((r + sy - dy) * pitch + (c + sx - dx))) (mem (r * pitch + c)) (ground arith)
          (λ inside.
            copy_row-else j mem (r + sy - dy) (c + sx - dx) (omega arith)
              (ground (arith, out_of.columns)) (ground arith))
          (copy_row-pixel j mem r c (omega arith) hc)

  rows_down :
      (k : ℕ) (mem : Store) (r c : ℕ)
      → sy ≤ dy
      → k ≤ height
      → c < pitch
      → for_down k (copy_row pitch region) mem (r * pitch + c) ≡ (
          if in_area dy dx width k r c
          then mem ((r + sy - dy) * pitch + (c + sx - dx))
          else mem (r * pitch + c))
  unfolding for_down
  rows_down zero mem r c down e hc =
      let out : in_area dy dx width 0 r c ≡ false = ground arith in rw out refl
  rows_down (suc k) mem r c down e hc =
      rows_down k (copy_row pitch region k mem) r c down (omega arith) hc
      ∙ peel (in_area dy dx width k r c) (in_area (k + dy) dx width 1 r c)
          (mem ((r + sy - dy) * pitch + (c + sx - dx))) (mem (r * pitch + c)) (ground arith)
          (λ inside.
            copy_row-else k mem (r + sy - dy) (c + sx - dx) (omega arith)
              (ground (arith, out_of.columns)) (ground arith))
          (copy_row-pixel k mem r c (omega arith) hc)

  -- `boot_fb_copyarea` moves the area that was at the source, however the two overlap, and changes
  -- nothing else.
  pub copyarea-moves :
      (mem : Store) (r c : ℕ)
      → c < pitch
      → boot_fb_copyarea pitch region mem (r * pitch + c) ≡ (
          if in_area dy dx width height r c
          then mem ((r + sy - dy) * pitch + (c + sx - dx))
          else mem (r * pitch + c))
  unfolding boot_fb_copyarea
  copyarea-moves mem r c hc = elim (Bool-cases (ltb dy sy)) [
    | inl up ↦ rw up (ground (arith, rows_up height 0 mem r c))
    | inr down ↦
        rw (down, leb_height) (rows_down height mem r c (ltb→le dy sy down) (omega arith) hc)
  ]
    where
      leb_height : leb height (2 ^ 31) ≡ true
      leb_height = ground (arith, into.small_rows)
