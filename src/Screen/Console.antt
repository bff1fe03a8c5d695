-- ===== src/Screen/Console.antt =====
-- The text console on the framebuffers: drivers/console/graphic_console.c and `write_console` of
-- drivers/console/console.c. The list of consoles holds the one that the kernel registers. Its sizes
-- are u64 and are taken not to wrap around when they are added or multiplied; what is given to the
-- framebuffers is cut to u32 as the code does. The font is an argument: the bytes of the
-- table, 16 to a character.
use oscar_kernel.Common.{
  ℕ, ◌+◌, ◌-◌, ◌*◌, ◌/◌, ◌%◌, ◌^◌, Bool, not, bit_and, List, [], ◌∷◌, Store, ltb, leb, ◌==◌,
  if◌then◌else◌,
}
use oscar_kernel.Screen.{
  FbInfo, FbCopyarea, FbFillrect, FbImage, paint, copyarea_active_fb, fillrect_active_fb,
  imageblit_active_fb,
}

pub record Console : Type 0 where
  pub active : ℕ
  pub width : ℕ
  pub height : ℕ
  pub font_color : ℕ
  pub back_color : ℕ
  pub font_width : ℕ
  pub font_height : ℕ
  pub cursor_x : ℕ
  pub cursor_y : ℕ
  pub font_data : Store

-- `graphics_con`, `fb_list` and `blit_buffer`.
pub record Terminal : Type 0 where
  pub con : Console
  pub fbs : List FbInfo
  pub blit_buffer : Store

-- `rounddown(con->height - con->font_height, 16)`.
abbrev pub scroll_rows : Console → ℕ
scroll_rows con = (con.height + 2 ^ 64 - con.font_height) % 2 ^ 64 / 16 * 16

abbrev pub scroll_area : Console → FbCopyarea
scroll_area con = record {
  dx = 0;
  dy = 0;
  width = con.width % 2 ^ 32;
  height = scroll_rows con % 2 ^ 32;
  sx = 0;
  sy = con.font_height % 2 ^ 32;
}

abbrev pub scroll_fill : Console → FbFillrect
scroll_fill con = record {
  dx = 0;
  dy = (scroll_rows con + 2 ^ 64 - 1) % 2 ^ 32;
  width = con.width % 2 ^ 32;
  height = con.font_height % 2 ^ 32;
  color = 0;
}

-- The only direction that is used, 1.
unfoldable pub fbcon_scroll : Console → List FbInfo → List FbInfo
fbcon_scroll con fbs =
    fillrect_active_fb (scroll_fill con) (copyarea_active_fb (scroll_area con) fbs)

-- `font & (0x80 >> j)` in row `i` of a character.
abbrev pub font_bit : Console → ℕ → ℕ → ℕ → Bool
font_bit con chr i j = not (bit_and (con.font_data (chr * con.font_height + i)) (0x80 / 2 ^ j) == 0)

abbrev pub glyph : Console → ℕ → ℕ → ℕ → ℕ
glyph con chr i j = (if font_bit con chr i j then con.font_color else con.back_color) % 2 ^ 32

-- The buffer of 0x100000 words holds a character of the 8 by 16 font.
unfoldable pub render_char : Console → ℕ → Store → Store
render_char con chr blit_buffer =
    paint (λ i j. i * con.font_width + j) con.font_width con.font_height (glyph con chr) blit_buffer

abbrev pub char_image : Console → Store → FbImage
char_image con pixels = record {
  dx = con.cursor_x % 2 ^ 32;
  dy = con.cursor_y % 2 ^ 32;
  width = con.font_width % 2 ^ 32;
  height = con.font_height % 2 ^ 32;
  pixels = pixels;
}

-- `'\n'`.
unfoldable pub new_line : Terminal → Terminal
new_line t =
    let c = t.con in
    if ltb c.height (c.cursor_y + c.font_height * 2)
    then record t { con = record c { cursor_x = 0 }; fbs = fbcon_scroll c t.fbs }
    else record t { con = record c { cursor_x = 0; cursor_y = c.cursor_y + c.font_height } }

-- The character is put on the screen.
unfoldable pub show_char : ℕ → Terminal → Terminal
show_char chr t =
    let blit = render_char t.con chr t.blit_buffer in
    record t { fbs = imageblit_active_fb (char_image t.con blit) t.fbs; blit_buffer = blit }

-- The cursor goes on; at the right end the next line starts.
unfoldable pub advance_cursor : Terminal → Terminal
advance_cursor t =
    let c = t.con in
    if ltb c.width (c.cursor_x + c.font_width * 2)
    then if leb c.height (c.cursor_y + c.font_height * 2)
      then record t { con = record c { cursor_x = 0 }; fbs = fbcon_scroll c t.fbs }
      else record t { con = record c { cursor_x = 0; cursor_y = c.cursor_y + c.font_height } }
    else record t { con = record c { cursor_x = c.cursor_x + c.font_width } }

unfoldable pub graphic_con_write_char : ℕ → Terminal → Terminal
unfolding new_line show_char advance_cursor
graphic_con_write_char chr t = if chr == b'\n' then new_line t else advance_cursor (show_char chr t)

unfoldable pub write_console : ℕ → Terminal → Terminal
unfolding graphic_con_write_char
write_console chr t = if t.con.active == 1 then graphic_con_write_char chr t else t

-- What printk does with its text, character by character.
unfoldable pub write_text : List ℕ → Terminal → Terminal
write_text [] t = t
write_text (chr ∷ text) t = write_text text (write_console chr t)

-- `graphic_con_init` with the framebuffer that `get_current_fb` gives; the cursor is zero from the start.
unfoldable pub graphic_con_init : Store → FbInfo → Console
graphic_con_init fontdata fb = record {
  active = 1;
  width = fb.xres;
  height = fb.yres;
  font_color = 0x00ffffff;
  back_color = 0;
  font_width = 8;
  font_height = 16;
  cursor_x = 0;
  cursor_y = 0;
  font_data = fontdata;
}
