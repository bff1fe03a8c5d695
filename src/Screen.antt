-- ===== src/Screen.antt =====
-- The framebuffers: drivers/video/fbdev/boot_fb.c and drivers/video/fbdev/fb.c, with the records of
-- include/fb.h. A framebuffer is the 32-bit words from `screen_base` on, by their index, which is a
-- u32. The operations of the boot framebuffer are the only ones that the kernel has, so
-- `fbops` is left out. A loop that counts an int down from `n - 1` makes no round where `n - 1` is no
-- int that is not negative; one that counts up is taken not to pass the largest int.
pub mod Rows
pub mod Planes
pub mod Area
pub mod Painted
pub mod Console
pub mod Scroll
pub mod Glyph
pub mod Kept
pub mod Text
pub mod Shown
pub mod Tests
use oscar_kernel.Common.{
  ℕ, ◌+◌, ◌*◌, ◌%◌, ◌^◌, Option, none, some, List, [], ◌∷◌, Store, update, ltb, leb, ◌==◌,
  if◌then◌else◌,
}
use oscar_kernel.Common.Loops.{for_range, for_down}

-- What is used of `struct fb_info` and `struct fb_var_screeninfo`, with the memory behind it.
pub record FbInfo : Type 0 where
  pub active : ℕ
  pub xres : ℕ
  pub yres : ℕ
  pub xres_virtual : ℕ
  pub memory : Store

pub record FbCopyarea : Type 0 where
  pub dx : ℕ
  pub dy : ℕ
  pub width : ℕ
  pub height : ℕ
  pub sx : ℕ
  pub sy : ℕ

pub record FbFillrect : Type 0 where
  pub dx : ℕ
  pub dy : ℕ
  pub width : ℕ
  pub height : ℕ
  pub color : ℕ

-- `data` holds pixels of 32 bits.
pub record FbImage : Type 0 where
  pub dx : ℕ
  pub dy : ℕ
  pub width : ℕ
  pub height : ℕ
  pub pixels : Store

-- `dst_offset_y + i + dx`, where `dst_offset_y = (j + dy) * xres_virtual`.
abbrev pub offset : ℕ → ℕ → ℕ → ℕ → ℕ → ℕ
offset pitch y x j i = ((j + y) * pitch % 2 ^ 32 + i + x) % 2 ^ 32

-- Values written in rows and columns, each row from its first column on.
unfoldable pub paint : (ℕ → ℕ → ℕ) → ℕ → ℕ → (ℕ → ℕ → ℕ) → Store → Store
paint at width height value mem =
    for_range height 0 (λ j m. for_range width 0 (λ i n. update n (at j i) (value j i)) m) mem

unfoldable pub boot_fb_fillrect : ℕ → FbFillrect → Store → Store
boot_fb_fillrect pitch rect mem =
    paint (offset pitch rect.dy rect.dx) rect.width rect.height (λ j i. rect.color) mem

unfoldable pub boot_fb_imageblit : ℕ → FbImage → Store → Store
boot_fb_imageblit pitch image mem =
    paint (offset pitch image.dy image.dx) image.width image.height
      (λ j i. image.pixels ((j * image.width % 2 ^ 32 + i) % 2 ^ 32)) mem

-- The rounds of `for (i = n - 1; i >= 0; i--)` for an int `i` and a u32 `n`.
abbrev pub rounds_down : ℕ → ℕ
rounds_down n = if leb n (2 ^ 31) then n else 0

abbrev pub copy_pixel : ℕ → FbCopyarea → ℕ → ℕ → Store → Store
copy_pixel pitch region j i mem =
    update mem (offset pitch region.dy region.dx j i) (mem (offset pitch region.sy region.sx j i))

-- A row of an area, from its first column on or from its last.
unfoldable pub copy_row : ℕ → FbCopyarea → ℕ → Store → Store
copy_row pitch region j mem =
    if ltb region.dx region.sx
    then for_range region.width 0 (copy_pixel pitch region j) mem
    else for_down (rounds_down region.width) (copy_pixel pitch region j) mem

-- The four loops of the code differ in the direction of the rows and in that of the columns.
unfoldable pub boot_fb_copyarea : ℕ → FbCopyarea → Store → Store
boot_fb_copyarea pitch region mem =
    if ltb region.dy region.sy
    then for_range region.height 0 (copy_row pitch region) mem
    else for_down (rounds_down region.height) (copy_row pitch region) mem

-- `list_for_each_entry` with the test for an active framebuffer.
unfoldable pub on_active : (FbInfo → FbInfo) → List FbInfo → List FbInfo
on_active change [] = []
on_active change (fb ∷ fbs) = (if fb.active == 1 then change fb else fb) ∷ on_active change fbs

unfoldable pub fillrect_active_fb : FbFillrect → List FbInfo → List FbInfo
unfolding on_active
fillrect_active_fb rect =
    on_active (λ fb. record fb { memory = boot_fb_fillrect fb.xres_virtual rect fb.memory })

unfoldable pub copyarea_active_fb : FbCopyarea → List FbInfo → List FbInfo
unfolding on_active
copyarea_active_fb area =
    on_active (λ fb. record fb { memory = boot_fb_copyarea fb.xres_virtual area fb.memory })

unfoldable pub imageblit_active_fb : FbImage → List FbInfo → List FbInfo
unfolding on_active
imageblit_active_fb image =
    on_active (λ fb. record fb { memory = boot_fb_imageblit fb.xres_virtual image fb.memory })

-- The first that is active; the code returns nothing where there is none.
pub get_current_fb : List FbInfo → Option FbInfo
get_current_fb [] = none
get_current_fb (fb ∷ fbs) = if fb.active == 1 then some fb else get_current_fb fbs
