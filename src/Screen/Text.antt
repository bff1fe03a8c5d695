-- ===== src/Screen/Text.antt =====
-- What a text written by `write_console` of drivers/console/console.c leaves on the framebuffers.
use oscar_kernel.Common.{
  ℕ, ◌+◌, ◌*◌, ◌≤◌, ◌≡◌, inl, inr, refl, subst, ◌∙◌, List, [], ◌∷◌, All, Store, Bool-cases, ltb,
  leb, ltb→le, ◌==◌, arith,
}
use oscar_kernel.Screen.{FbInfo, fillrect_active_fb, copyarea_active_fb, imageblit_active_fb}
use oscar_kernel.Screen.Scroll.{IsLaid, Shows, copy_outside, fill_outside}
use oscar_kernel.Screen.Glyph.{char_outside}
use oscar_kernel.Screen.Kept.{
  AreKept, AreKept-trans, AreKept-refl, Shows-AreKept, on_active-AreKept,
}
use oscar_kernel.Screen.Console.{
  Console, Terminal, scroll_area, char_image, fbcon_scroll, render_char, new_line, show_char,
  advance_cursor, graphic_con_write_char, write_console, write_text,
}

scroll-AreKept :
    (con : Console) (fbs : List FbInfo)
    → IsLaid con
    → All (Shows con.width con.height) fbs
    → AreKept con.width con.height fbs (fbcon_scroll con fbs)
unfolding fbcon_scroll copyarea_active_fb fillrect_active_fb
scroll-AreKept con fbs laid shows =
    let moved = copyarea_active_fb (scroll_area con) fbs in
    let first : AreKept con.width con.height fbs moved =
      on_active-AreKept con.width con.height _
        (λ fb s. record {
          same_pitch = refl;
          same_active = refl;
          outside = copy_outside con fb laid s;
        })
        fbs shows in
    AreKept-trans con.width con.height fbs moved _ first (
      on_active-AreKept con.width con.height _
        (λ fb s. record {
          same_pitch = refl;
          same_active = refl;
          outside = fill_outside con fb laid s;
        })
        moved (Shows-AreKept con.width con.height fbs moved first shows))

-- The console's screen lies on every framebuffer and has room for a character at the cursor.
pub record OnScreen (t : Terminal) : Type 0 where
  pub laid : IsLaid t.con
  pub right : t.con.cursor_x + t.con.font_width ≤ t.con.width
  pub bottom : t.con.cursor_y + t.con.font_height ≤ t.con.height
  pub shown : All (Shows t.con.width t.con.height) t.fbs

-- The screen keeps its size, the console stays on it, and all beside the screen is kept.
pub record Stays (one two : Terminal) : Type 0 where
  pub same_width : two.con.width ≡ one.con.width
  pub same_height : two.con.height ≡ one.con.height
  pub on : OnScreen two
  pub kept : AreKept one.con.width one.con.height one.fbs two.fbs

Stays-trans : (one two three : Terminal) → Stays one two → Stays two three → Stays one three
Stays-trans one two three p q = record {
  same_width = q.same_width ∙ p.same_width;
  same_height = q.same_height ∙ p.same_height;
  on = q.on;
  kept = AreKept-trans one.con.width one.con.height one.fbs two.fbs three.fbs p.kept again;
}
  where
    again : AreKept one.con.width one.con.height two.fbs three.fbs
    again =
        subst (λ (w : ℕ). AreKept w one.con.height two.fbs three.fbs) p.same_width
          (subst (λ (h : ℕ). AreKept two.con.width h two.fbs three.fbs) p.same_height q.kept)

-- New framebuffers that keep all beside the screen, and a new place of the cursor.
moved : (t : Terminal) (fbs : List FbInfo) (blit : Store) (x y : ℕ) → Terminal
moved t fbs blit x y = record {
  con = record t.con { cursor_x = x; cursor_y = y };
  fbs = fbs;
  blit_buffer = blit;
}

moved-Stays :
    (t : Terminal) (fbs : List FbInfo) (blit : Store) (x y : ℕ)
    → OnScreen t
    → AreKept t.con.width t.con.height t.fbs fbs
    → x + t.con.font_width ≤ t.con.width
    → y + t.con.font_height ≤ t.con.height
    → Stays t (moved t fbs blit x y)
unfolding moved
moved-Stays t fbs blit x y on kept right bottom = record {
  same_width = refl;
  same_height = refl;
  kept = kept;
  on = record {
    laid = record {
      some_width = on.laid.some_width;
      some_height = on.laid.some_height;
      rows = on.laid.rows;
      small_height = on.laid.small_height;
      small_width = on.laid.small_width;
    };
    right = right;
    bottom = bottom;
    shown = Shows-AreKept t.con.width t.con.height t.fbs fbs kept on.shown;
  };
}

module _ (t : Terminal) (on : OnScreen t) where
  same : AreKept t.con.width t.con.height t.fbs t.fbs
  same = AreKept-refl t.con.width t.con.height t.fbs

  scrolled : AreKept t.con.width t.con.height t.fbs (fbcon_scroll t.con t.fbs)
  scrolled = scroll-AreKept t.con t.fbs on.laid on.shown

  new_line-Stays : Stays t (new_line t)
  unfolding new_line moved
  new_line-Stays = elim (Bool-cases (ltb t.con.height (t.con.cursor_y + t.con.font_height * 2))) [
    | inl low ↦ rw low (
        moved-Stays t (fbcon_scroll t.con t.fbs) t.blit_buffer 0 t.con.cursor_y on scrolled
          (omega (arith, on.right)) on.bottom)
    | inr high ↦ rw high (
        moved-Stays t t.fbs t.blit_buffer 0 (t.con.cursor_y + t.con.font_height) on same
          (omega (arith, on.right)) (omega (arith, ltb→le _ _ high)))
  ]

  show_char-Stays : (chr : ℕ) → Stays t (show_char chr t)
  unfolding show_char moved imageblit_active_fb
  show_char-Stays chr =
      let blit = render_char t.con chr t.blit_buffer in
      moved-Stays t (imageblit_active_fb (char_image t.con blit) t.fbs) blit t.con.cursor_x
        t.con.cursor_y on
        (on_active-AreKept t.con.width t.con.height _
          (λ fb s. record {
            same_pitch = refl;
            same_active = refl;
            outside = char_outside t.con fb on.laid on.right on.bottom s blit;
          })
          t.fbs on.shown)
        on.right on.bottom

  advance_cursor-Stays : Stays t (advance_cursor t)
  unfolding advance_cursor moved
  advance_cursor-Stays =
      elim (Bool-cases (ltb t.con.width (t.con.cursor_x + t.con.font_width * 2))) [
        | inr room ↦ rw room (
            moved-Stays t t.fbs t.blit_buffer (t.con.cursor_x + t.con.font_width) t.con.cursor_y on
              same (omega (arith, ltb→le _ _ room)) on.bottom)
        | inl full ↦ elim (Bool-cases (leb t.con.height (t.con.cursor_y + t.con.font_height * 2))) [
          | inl low ↦
              rw (full, low)
                (moved-Stays t (fbcon_scroll t.con t.fbs) t.blit_buffer 0 t.con.cursor_y on scrolled
                  (omega (arith, on.right)) on.bottom)
          | inr high ↦
              rw (full, high)
                (moved-Stays t t.fbs t.blit_buffer 0 (t.con.cursor_y + t.con.font_height) on same
                  (omega (arith, on.right)) (ground arith))
        ]
      ]

write_console-Stays : (chr : ℕ) (t : Terminal) → OnScreen t → Stays t (write_console chr t)
unfolding write_console graphic_con_write_char
write_console-Stays chr t on = elim (Bool-cases (t.con.active == 1)) [
  | inr idle ↦ rw idle (record { same_width = refl; same_height = refl; on = on; kept = same t on })
  | inl active ↦ elim (Bool-cases (chr == b'\n')) [
    | inl line ↦ rw (active, line) (new_line-Stays t on)
    | inr other ↦
        let shown = show_char-Stays t on chr in
        rw (active, other)
          (Stays-trans t (show_char chr t) _ shown
            (advance_cursor-Stays (show_char chr t) shown.on))
  ]
]

-- A console on the screen stays on the screen, with room for a character at the cursor, whatever
-- text is written, and no word of any framebuffer changes but those of the screen.
pub write_text-Stays : (text : List ℕ) (t : Terminal) → OnScreen t → Stays t (write_text text t)
unfolding write_text
write_text-Stays [] t on = record {
  same_width = refl;
  same_height = refl;
  on = on;
  kept = same t on;
}
write_text-Stays (chr ∷ text) t on =
    let one = write_console-Stays chr t on in
    Stays-trans t (write_console chr t) _ one (write_text-Stays text (write_console chr t) one.on)
