-- ===== src/Screen/Scroll.antt =====
-- What `fbcon_scroll` of drivers/console/graphic_console.c leaves on a framebuffer.
use oscar_kernel.Common.{
  ℕ, ◌+◌, ◌-◌, ◌*◌, ◌/◌, ◌^◌, ◌≤◌, ◌<◌, ◌≡◌, ◌⊎◌, false, refl, ap, ◌∙◌, arith, if◌then◌else◌,
}
use native.Mathlib.Nat.{le_trans}
use oscar_kernel.Screen.{FbInfo, FbCopyarea, FbFillrect, boot_fb_copyarea, boot_fb_fillrect}
use oscar_kernel.Screen.Planes.{Fits, in_area, row_mono}
use oscar_kernel.Screen.Area.{copyarea-moves}
use oscar_kernel.Screen.Painted.{fillrect-fills}
use oscar_kernel.Screen.Console.{Console, scroll_area, scroll_fill}

-- Sizes with which the arithmetic of the console does not wrap around, and 16 rows to move.
pub record IsLaid (con : Console) : Type 0 where
  pub some_width : 0 < con.font_width
  pub some_height : 0 < con.font_height
  pub rows : con.font_height + 16 ≤ con.height
  pub small_height : con.height ≤ 2 ^ 31
  pub small_width : con.width ≤ 2 ^ 31

-- A screen of this size lies on the framebuffer.
pub record Shows (width height : ℕ) (fb : FbInfo) : Type 0 where
  pub columns : width ≤ fb.xres_virtual
  pub small_pitch : fb.xres_virtual ≤ 2 ^ 31
  pub room : height * fb.xres_virtual ≤ 2 ^ 32

-- The rows that are moved up.
abbrev pub moved_rows : Console → ℕ
moved_rows con = (con.height - con.font_height) / 16 * 16

-- An area within the screen.
pub within :
    {width height : ℕ} {fb : FbInfo} (y x w h : ℕ)
    → Shows width height fb
    → height ≤ 2 ^ 31
    → x + w ≤ width
    → y + h ≤ height
    → Fits fb.xres_virtual y x w h
within {width} {height} {fb} y x w h shows small right bottom = record {
  columns = omega (arith, shows.columns);
  small_pitch = shows.small_pitch;
  small_rows = omega arith;
  rows = le_trans (row_mono fb.xres_virtual (y + h) height bottom) shows.room;
}

module _ (con : Console) (fb : FbInfo) (laid : IsLaid con)
    (shows : Shows con.width con.height fb) where
  abbrev area : FbCopyarea
  area = record {
    dx = 0;
    dy = 0;
    width = con.width;
    height = moved_rows con;
    sx = 0;
    sy = con.font_height;
  }

  abbrev rect : FbFillrect
  rect = record {
    dx = 0;
    dy = moved_rows con - 1;
    width = con.width;
    height = con.font_height;
    color = 0;
  }

  scroll_area_lem : scroll_area con ≡ area
  scroll_area_lem = ground (arith, laid.rows, laid.small_height, laid.small_width)

  scroll_fill_lem : scroll_fill con ≡ rect
  scroll_fill_lem = ground (arith, laid.rows, laid.small_height, laid.small_width)

  into_black : Fits fb.xres_virtual rect.dy rect.dx rect.width rect.height
  into_black =
      within (moved_rows con - 1) 0 con.width con.font_height shows laid.small_height (omega arith)
        (omega (arith, laid.rows))

  moved_to : Fits fb.xres_virtual area.dy area.dx area.width area.height
  moved_to =
      within 0 0 con.width (moved_rows con) shows laid.small_height (omega arith)
        (omega (arith, laid.rows))

  moved_from : Fits fb.xres_virtual area.sy area.sx area.width area.height
  moved_from =
      within con.font_height 0 con.width (moved_rows con) shows laid.small_height (omega arith)
        (omega (arith, laid.rows))

  -- Both leave what is not on the screen as it is.
  pub copy_outside :
      (r c : ℕ)
      → c < fb.xres_virtual
      → (con.height ≤ r) ⊎ (con.width ≤ c)
      → boot_fb_copyarea fb.xres_virtual (scroll_area con) fb.memory (r * fb.xres_virtual + c)
        ≡ fb.memory (r * fb.xres_virtual + c)
  copy_outside r c hc out =
      let not_in : in_area 0 0 con.width (moved_rows con) r c ≡ false = ground (arith, laid.rows) in
      rw scroll_area_lem
        (copyarea-moves fb.xres_virtual area moved_to moved_from fb.memory r c hc ∙ rw not_in refl)

  pub fill_outside :
      (r c : ℕ)
      → c < fb.xres_virtual
      → (con.height ≤ r) ⊎ (con.width ≤ c)
      → boot_fb_fillrect fb.xres_virtual (scroll_fill con) fb.memory (r * fb.xres_virtual + c)
        ≡ fb.memory (r * fb.xres_virtual + c)
  fill_outside r c hc out =
      let not_in : in_area (moved_rows con - 1) 0 con.width con.font_height r c ≡ false =
        ground (arith, laid.rows) in
      rw scroll_fill_lem
        (fillrect-fills fb.xres_virtual rect fb.memory r c into_black hc ∙ rw not_in refl)

  -- On one framebuffer: the rows below the first line move up, then the rows from the one before
  -- the last that was moved on become black.
  pub scroll-pixel :
      (r c : ℕ)
      → c < fb.xres_virtual
      → boot_fb_fillrect fb.xres_virtual
          (scroll_fill con)
          (boot_fb_copyarea fb.xres_virtual (scroll_area con) fb.memory)
          (r * fb.xres_virtual + c)
        ≡ (if in_area (moved_rows con - 1) 0 con.width con.font_height r c
            then 0
            else if in_area 0 0 con.width (moved_rows con) r c
            then fb.memory ((r + con.font_height) * fb.xres_virtual + c)
            else fb.memory (r * fb.xres_virtual + c))
  scroll-pixel r c hc =
      rw (scroll_area_lem, scroll_fill_lem)
        (fillrect-fills fb.xres_virtual rect (boot_fb_copyarea fb.xres_virtual area fb.memory) r c
            into_black hc
          ∙ ap (λ (t : ℕ). black t)
              (copyarea-moves fb.xres_virtual area moved_to moved_from fb.memory r c hc)
          ∙ ap
              (λ (a : ℕ). black (
                if in_area 0 0 con.width (moved_rows con) r c
                then fb.memory a
                else fb.memory (r * fb.xres_virtual + c)))
              below)
    where
      black : ℕ → ℕ
      black t = if in_area (moved_rows con - 1) 0 con.width con.font_height r c then 0 else t

      below :
          (r + con.font_height - 0) * fb.xres_virtual + (c + 0 - 0)
          ≡ (r + con.font_height) * fb.xres_virtual + c
      below =
          let row : r + con.font_height - 0 ≡ r + con.font_height = omega arith in
          rw row (omega arith)
