-- ===== src/Screen/Glyph.antt =====
-- The character that `graphic_con_write_char` of drivers/console/graphic_console.c puts on a
-- framebuffer.
use oscar_kernel.Common.{
  ℕ, ◌+◌, ◌-◌, ◌*◌, ◌%◌, ◌^◌, ◌≤◌, ◌<◌, ◌≡◌, ◌⊎◌, inl, inr, false, true, refl, ap, ◌∙◌, Store,
  Bool-cases, arith, if◌then◌else◌,
}
use native.Mathlib.Nat.{mul-le-mul}
use oscar_kernel.Screen.{FbInfo, FbImage, boot_fb_imageblit}
use oscar_kernel.Screen.Planes.{Fits, in_area, row_next}
use oscar_kernel.Screen.Painted.{imageblit-shows, paint-pixel}
use oscar_kernel.Screen.Scroll.{IsLaid, Shows, within}
use oscar_kernel.Screen.Console.{Console, char_image, glyph, render_char}

module _ (con : Console) (fb : FbInfo) (laid : IsLaid con)
    (right : con.cursor_x + con.font_width ≤ con.width)
    (bottom : con.cursor_y + con.font_height ≤ con.height)
    (shows : Shows con.width con.height fb) where
  abbrev image : Store → FbImage
  image pixels = record {
    dx = con.cursor_x;
    dy = con.cursor_y;
    width = con.font_width;
    height = con.font_height;
    pixels = pixels;
  }

  char_image_lem : (pixels : Store) → char_image con pixels ≡ image pixels
  char_image_lem pixels = ground (arith, laid.small_height, laid.small_width)

  cell : Fits fb.xres_virtual con.cursor_y con.cursor_x con.font_width con.font_height
  cell =
      within con.cursor_y con.cursor_x con.font_width con.font_height shows laid.small_height right
        bottom

  image-pixel :
      (pixels : Store) (r c : ℕ)
      → c < fb.xres_virtual
      → boot_fb_imageblit fb.xres_virtual
          (char_image con pixels)
          fb.memory
          (r * fb.xres_virtual + c)
        ≡ (if in_area con.cursor_y con.cursor_x con.font_width con.font_height r c
            then pixels
                (((r - con.cursor_y) * con.font_width % 2 ^ 32 + (c - con.cursor_x)) % 2 ^ 32)
            else fb.memory (r * fb.xres_virtual + c))
  image-pixel pixels r c hc =
      rw (char_image_lem pixels)
        (imageblit-shows fb.xres_virtual (image pixels) fb.memory r c cell hc)

  pub char_outside :
      (pixels : Store) (r c : ℕ)
      → c < fb.xres_virtual
      → (con.height ≤ r) ⊎ (con.width ≤ c)
      → boot_fb_imageblit fb.xres_virtual
          (char_image con pixels)
          fb.memory
          (r * fb.xres_virtual + c)
        ≡ fb.memory (r * fb.xres_virtual + c)
  char_outside pixels r c hc out =
      let not_in : in_area con.cursor_y con.cursor_x con.font_width con.font_height r c ≡ false =
        ground arith in
      image-pixel pixels r c hc ∙ rw not_in refl

  -- The index in the buffer does not wrap around.
  buffer_place :
      (i j : ℕ)
      → i < con.font_height
      → j < con.font_width
      → (i * con.font_width % 2 ^ 32 + j) % 2 ^ 32 ≡ i * con.font_width + j
  buffer_place i j hi hj = omega (
    arith,
    row_next con.font_width i con.font_height hi,
    mul-le-mul {n₁ = con.font_height} {m₁ = con.font_width} {n₂ = con.height} {m₂ = fb.xres_virtual}
        (omega arith) (omega (arith, shows.columns)),
    shows.room,
  )

  rendered :
      (chr : ℕ) (buffer : Store) (i j : ℕ)
      → i < con.font_height
      → j < con.font_width
      → render_char con chr buffer (i * con.font_width + j) ≡ glyph con chr i j
  unfolding render_char
  rendered chr buffer i j hi hj =
      paint-pixel con.font_width 0 0 con.font_width con.font_height (λ a b. a * con.font_width + b)
        (glyph con chr) (omega arith) (λ a b ha hb. at_zero a b) buffer i j hj
      ∙ rw inside (ap (λ (a : ℕ). glyph con chr a (j - 0)) row ∙ ap (glyph con chr i) column)
    where
      at_zero : (a b : ℕ) → a * con.font_width + b ≡ (a + 0) * con.font_width + 0 + b
      at_zero a b = let e : a + 0 ≡ a = omega arith in rw e (omega arith)

      inside : in_area 0 0 con.font_width con.font_height i j ≡ true
      inside = ground arith

      row : i - 0 ≡ i
      row = omega arith

      column : j - 0 ≡ j
      column = omega arith

  -- The cell at the cursor shows the character, and nothing else changes.
  pub char-pixel :
      (chr : ℕ) (buffer : Store) (r c : ℕ)
      → c < fb.xres_virtual
      → boot_fb_imageblit fb.xres_virtual
          (char_image con (render_char con chr buffer))
          fb.memory
          (r * fb.xres_virtual + c)
        ≡ (if in_area con.cursor_y con.cursor_x con.font_width con.font_height r c
            then glyph con chr (r - con.cursor_y) (c - con.cursor_x)
            else fb.memory (r * fb.xres_virtual + c))
  char-pixel chr buffer r c hc = image-pixel (render_char con chr buffer) r c hc ∙ shown
    where
      shown :
          (if in_area con.cursor_y con.cursor_x con.font_width con.font_height r c
            then render_char con chr buffer
                (((r - con.cursor_y) * con.font_width % 2 ^ 32 + (c - con.cursor_x)) % 2 ^ 32)
            else fb.memory (r * fb.xres_virtual + c))
          ≡ (if in_area con.cursor_y con.cursor_x con.font_width con.font_height r c
              then glyph con chr (r - con.cursor_y) (c - con.cursor_x)
              else fb.memory (r * fb.xres_virtual + c))
      shown =
          elim (Bool-cases (in_area con.cursor_y con.cursor_x con.font_width con.font_height r c)) [
            | inr out ↦ rw out refl
            | inl inside ↦
                let row : r - con.cursor_y < con.font_height = ground arith in
                let column : c - con.cursor_x < con.font_width = ground arith in
                rw (inside, buffer_place (r - con.cursor_y) (c - con.cursor_x) row column)
                  (rendered chr buffer (r - con.cursor_y) (c - con.cursor_x) row column)
          ]
