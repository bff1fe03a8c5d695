-- ===== src/Screen/Shown.antt =====
-- What one character and one scroll of drivers/console/graphic_console.c show on a framebuffer of
-- the list.
use oscar_kernel.Common.{
  ℕ, zero, suc, ◌+◌, ◌-◌, ◌*◌, ◌≤◌, ◌<◌, ◌≡◌, ◌≢◌, ◌⊎◌, true, refl, subst, Store, ap, ◌∙◌, List, [],
  ◌∷◌, All, some, get_elem?, ltb, ◌==◌, ==_ne, arith, if◌then◌else◌,
}
use oscar_kernel.Screen.{
  FbInfo, on_active, boot_fb_fillrect, boot_fb_copyarea, boot_fb_imageblit, fillrect_active_fb,
  copyarea_active_fb, imageblit_active_fb,
}
use oscar_kernel.Screen.Planes.{in_area}
use oscar_kernel.Screen.Scroll.{IsLaid, Shows, moved_rows, scroll-pixel}
use oscar_kernel.Screen.Glyph.{char-pixel}
use oscar_kernel.Screen.Text.{OnScreen}
use oscar_kernel.Screen.Console.{
  Console, Terminal, scroll_area, scroll_fill, char_image, glyph, fbcon_scroll, render_char,
  show_char, advance_cursor, graphic_con_write_char, write_console,
}

advance_room :
    (t : Terminal)
    → (t.con.cursor_x + t.con.font_width * 2 ≤ t.con.width)
      ⊎ (t.con.cursor_y + t.con.font_height * 2 < t.con.height)
    → ((advance_cursor t).fbs ≡ t.fbs)
      × ((advance_cursor t).con ≡ (
          if ltb t.con.width (t.con.cursor_x + t.con.font_width * 2)
          then record t.con { cursor_x = 0; cursor_y = t.con.cursor_y + t.con.font_height }
          else record t.con { cursor_x = t.con.cursor_x + t.con.font_width }))
unfolding advance_cursor
advance_room t room = (ground arith, ground arith)

get_elem?-on_active :
    (change : FbInfo → FbInfo) (fbs : List FbInfo) (k : ℕ) {fb : FbInfo}
    → get_elem? fbs k ≡ some fb
    → fb.active ≡ 1
    → get_elem? (on_active change fbs) k ≡ some (change fb)
unfolding on_active
get_elem?-on_active change [] k at active = absurd (ground arith)
get_elem?-on_active change (one ∷ fbs) zero at active = ground arith
get_elem?-on_active change (one ∷ fbs) (suc k) at active =
    get_elem?-on_active change fbs k at active

Shows-get_elem? :
    (width height : ℕ) (fbs : List FbInfo) (k : ℕ) {fb : FbInfo}
    → All (Shows width height) fbs
    → get_elem? fbs k ≡ some fb
    → Shows width height fb
Shows-get_elem? width height [] k all at = absurd (ground arith)
Shows-get_elem? width height (one ∷ fbs) zero {fb} all at =
    let same : one ≡ fb = cc in subst (Shows width height) same all.0
Shows-get_elem? width height (one ∷ fbs) (suc k) all at =
    Shows-get_elem? width height fbs k all.1 at

-- A line of black rows from the last of the rows that were moved up on, above it these rows, and all
-- else as it was.
abbrev pub IsScrolled : Console → FbInfo → Store → Type 0
IsScrolled con fb memory =
    (r c : ℕ)
    → c < fb.xres_virtual
    → memory (r * fb.xres_virtual + c) ≡ (
        if in_area (moved_rows con - 1) 0 con.width con.font_height r c
        then 0
        else if in_area 0 0 con.width (moved_rows con) r c
        then fb.memory ((r + con.font_height) * fb.xres_virtual + c)
        else fb.memory (r * fb.xres_virtual + c))

-- The character in the cell at the cursor, and all else as it was.
abbrev pub HasChar : Console → ℕ → FbInfo → Store → Type 0
HasChar con chr fb memory =
    (r c : ℕ)
    → c < fb.xres_virtual
    → memory (r * fb.xres_virtual + c) ≡ (
        if in_area con.cursor_y con.cursor_x con.font_width con.font_height r c
        then glyph con chr (r - con.cursor_y) (c - con.cursor_x)
        else fb.memory (r * fb.xres_virtual + c))

-- The memory after a scroll of the console.
abbrev scrolled_memory : Console → FbInfo → Store
scrolled_memory con fb =
    boot_fb_fillrect fb.xres_virtual (scroll_fill con)
      (boot_fb_copyarea fb.xres_virtual (scroll_area con) fb.memory)

-- After `fbcon_scroll` an active framebuffer shows the rows below the first line of text moved up
-- by a line, as many as fill whole lines of 16 rows. But a line of black rows starts in the last row that was moved,
-- which is lost, and what is below these black rows stays as it was.
pub fbcon_scroll_lem :
    (con : Console) (fbs : List FbInfo) (k : ℕ) (fb : FbInfo)
    → IsLaid con
    → All (Shows con.width con.height) fbs
    → get_elem? fbs k ≡ some fb
    → fb.active ≡ 1
    → (memory : Store) × (get_elem? (fbcon_scroll con fbs) k ≡ some (record fb { memory = memory }))
      × IsScrolled con fb memory
unfolding fbcon_scroll fillrect_active_fb copyarea_active_fb
fbcon_scroll_lem con fbs k fb laid shows at active = (
  scrolled_memory con fb,
  get_elem?-on_active
      (λ f. record f { memory = boot_fb_fillrect f.xres_virtual (scroll_fill con) f.memory })
      (copyarea_active_fb (scroll_area con) fbs) k
      (get_elem?-on_active
        (λ f. record f { memory = boot_fb_copyarea f.xres_virtual (scroll_area con) f.memory }) fbs
        k at active)
      active,
  scroll-pixel con fb laid (Shows-get_elem? con.width con.height fbs k shows at),
)

write_console_other :
    (chr : ℕ) (t : Terminal)
    → t.con.active ≡ 1
    → chr ≢ b'\n'
    → write_console chr t ≡ advance_cursor (show_char chr t)
unfolding write_console graphic_con_write_char
write_console_other chr t active other =
    let on : (t.con.active == 1) ≡ true = ground arith in rw (on, ==_ne _ _ other) refl

-- Where the console is on the screen and there is room for a further character in the line or for a
-- further line above the last, `write_console` of a character that is no line feed shows it at the cursor on an
-- active framebuffer and changes no other pixel, and the cursor goes on by one character or to the
-- start of the next line.
pub write_console-shows :
    (chr : ℕ) (t : Terminal) (k : ℕ) (fb : FbInfo)
    → OnScreen t
    → t.con.active ≡ 1
    → chr ≢ b'\n'
    → get_elem? t.fbs k ≡ some fb
    → fb.active ≡ 1
    → (t.con.cursor_x + t.con.font_width * 2 ≤ t.con.width)
      ⊎ (t.con.cursor_y + t.con.font_height * 2 < t.con.height)
    → (memory : Store) × (get_elem? (write_console chr t).fbs k
        ≡ some (record fb { memory = memory }))
      × HasChar t.con chr fb memory
      × ((write_console chr t).con ≡ (
          if ltb t.con.width (t.con.cursor_x + t.con.font_width * 2)
          then record t.con { cursor_x = 0; cursor_y = t.con.cursor_y + t.con.font_height }
          else record t.con { cursor_x = t.con.cursor_x + t.con.font_width }))
unfolding show_char imageblit_active_fb
write_console-shows chr t k fb on active other at drawn room = (
  boot_fb_imageblit fb.xres_virtual (char_image t.con blit) fb.memory,
  ap (λ (u : Terminal). get_elem? u.fbs k) written
      ∙ ap (λ (fbs : List FbInfo). get_elem? fbs k) advanced.0
      ∙ get_elem?-on_active
          (λ f. record f {
            memory = boot_fb_imageblit f.xres_virtual (char_image t.con blit) f.memory;
          })
          t.fbs k at drawn,
  char-pixel t.con fb on.laid on.right on.bottom
      (Shows-get_elem? t.con.width t.con.height t.fbs k on.shown at) chr t.blit_buffer,
  ap (λ (u : Terminal). u.con) written ∙ advanced.1,
)
  where
    blit : Store
    blit = render_char t.con chr t.blit_buffer

    written : write_console chr t ≡ advance_cursor (show_char chr t)
    written = write_console_other chr t active other

    advanced :
        ((advance_cursor (show_char chr t)).fbs ≡ (show_char chr t).fbs)
        × ((advance_cursor (show_char chr t)).con ≡ (
            if ltb t.con.width (t.con.cursor_x + t.con.font_width * 2)
            then record t.con { cursor_x = 0; cursor_y = t.con.cursor_y + t.con.font_height }
            else record t.con { cursor_x = t.con.cursor_x + t.con.font_width }))
    advanced = advance_room (show_char chr t) room
