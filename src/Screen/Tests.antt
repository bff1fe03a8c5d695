-- ===== src/Screen/Tests.antt =====
-- Tests of the framebuffer and of the console, and the theorems at inputs that meet their hypotheses.
use oscar_kernel.Common.{
  ◌+◌, ◌*◌, ◌≡◌, refl, inl, [], ◌∷◌, some, get_elem?, All, Store, arith, ltb, if◌then◌else◌, ◌-◌,
}
use oscar_kernel.Common.Loops.{for_down}
use oscar_kernel.Screen.{FbInfo, FbCopyarea, copy_row, boot_fb_copyarea}
use oscar_kernel.Screen.Planes.{in_area}
use oscar_kernel.Screen.Area.{copyarea-moves}
use oscar_kernel.Screen.Scroll.{IsLaid, Shows}
use oscar_kernel.Screen.Console.{
  Console, Terminal, graphic_con_init, fbcon_scroll, write_console, write_text,
}
use oscar_kernel.Screen.Text.{OnScreen, Stays, write_text-Stays}
use oscar_kernel.Screen.Shown.{IsScrolled, HasChar, fbcon_scroll_lem, write_console-shows}

abbrev small_fb : FbInfo
small_fb = record { active = 1; xres = 32; yres = 48; xres_virtual = 40; memory = λ a. a }

abbrev font : Store
font a = a * 7

abbrev small_con : Console
small_con = graphic_con_init font small_fb

abbrev blank : Terminal
blank = record { con = small_con; fbs = small_fb ∷ []; blit_buffer = λ a. 0 }

small_con-IsLaid : IsLaid small_con
unfolding graphic_con_init
small_con-IsLaid = omega arith

small_fb-Shows : All (Shows small_con.width small_con.height) (small_fb ∷ [])
unfolding graphic_con_init
small_fb-Shows = omega arith

blank-OnScreen : OnScreen blank
unfolding graphic_con_init
blank-OnScreen = record {
  laid = small_con-IsLaid;
  right = omega arith;
  bottom = omega arith;
  shown = small_fb-Shows;
}

-- An area that overlaps its source.
abbrev overlap : FbCopyarea
overlap = record { dx = 1; dy = 1; width = 3; height = 2; sx = 0; sy = 0 }

overlap_moved : boot_fb_copyarea 8 overlap (λ a. a) 18 ≡ 9
unfolding boot_fb_copyarea copy_row for_down
overlap_moved = refl

copyarea-moves_example :
    boot_fb_copyarea 8 overlap (λ a. a) (2 * 8 + 2)
    ≡ (if in_area 1 1 3 2 2 2 then (2 + 0 - 1) * 8 + (2 + 0 - 1) else 2 * 8 + 2)
copyarea-moves_example =
    copyarea-moves 8 overlap (omega arith) (omega arith) (λ a. a) 2 2 (omega arith)

write_text-Stays_example : Stays blank (write_text (b'H' ∷ b'i' ∷ b'\n' ∷ b'!' ∷ []) blank)
write_text-Stays_example = write_text-Stays (b'H' ∷ b'i' ∷ b'\n' ∷ b'!' ∷ []) blank blank-OnScreen

fbcon_scroll_lem_example :
    (memory : Store) × (get_elem? (fbcon_scroll small_con (small_fb ∷ [])) 0
      ≡ some (record small_fb { memory = memory }))
    × IsScrolled small_con small_fb memory
fbcon_scroll_lem_example =
    fbcon_scroll_lem small_con (small_fb ∷ []) 0 small_fb small_con-IsLaid small_fb-Shows refl refl

write_console-shows_example :
    (memory : Store) × (get_elem? (write_console b'A' blank).fbs 0
      ≡ some (record small_fb { memory = memory }))
    × HasChar small_con b'A' small_fb memory
    × ((write_console b'A' blank).con ≡ (
        if ltb small_con.width (small_con.cursor_x + small_con.font_width * 2)
        then record small_con {
          cursor_x = 0;
          cursor_y = small_con.cursor_y + small_con.font_height;
        }
        else record small_con { cursor_x = small_con.cursor_x + small_con.font_width }))
unfolding graphic_con_init
write_console-shows_example =
    write_console-shows b'A' blank 0 small_fb blank-OnScreen refl (omega arith) refl refl
      (inl (omega arith))
