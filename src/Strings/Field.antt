-- ===== src/Strings/Field.antt =====
-- A hexadecimal field of vsprintf, such as "%016x", read back.
use oscar_kernel.Common.{
  ℕ, zero, suc, ◌+◌, ◌-◌, ◌*◌, ◌^◌, ◌≤◌, ◌<◌, ◌≡◌, refl, sym, ap, subst, ◌∙◌, true, some, List, [],
  ◌∷◌, ◌++◌, length, ltb, arith, All, length-append,
}
use oscar_kernel.Strings.{i2a}
use oscar_kernel.Strings.Print.{
  Arg, Format, fill_list, put_field, convert, is_digit, format_char, format_run, vsprintf,
  format_end,
}
use oscar_kernel.Strings.Print.Arg.{number}
use oscar_kernel.Strings.Print.Mode.{plain, width}
use oscar_kernel.Strings.Digits.{value, char_value, value-append, i2a-value}

-- The number that decimal digits add to `n`.
unfoldable pub decimal : ℕ → List ℕ → ℕ
decimal n [] = n
decimal n (c ∷ cs) = decimal (n * 10 + (c - 48)) cs

length-fill_list : (c n : ℕ) → length (fill_list c n) ≡ n
unfolding fill_list
length-fill_list c zero = refl
length-fill_list c (suc n) = rw (length-fill_list c n) (omega arith)

value-fill_list : (base n : ℕ) → value base 0 (fill_list 48 n) ≡ 0
unfolding fill_list value
value-fill_list base zero = refl
value-fill_list base (suc n) =
    let e : 0 * base + char_value 48 ≡ 0 = omega arith in
    subst (λ a. value base a (fill_list 48 n) ≡ 0) (sym e) (value-fill_list base n)

decimal_least : (n : ℕ) (ws : List ℕ) → n ≤ decimal n ws
unfolding decimal
decimal_least n [] = omega arith
decimal_least n (c ∷ ws) = omega (arith, decimal_least (n * 10 + (c - 48)) ws)

-- The digits of a width only change the width.
format_run-digits :
    (ws fmt : List ℕ) (cs n : ℕ) (args : List Arg) (out : List ℕ)
    → All (λ c. is_digit c ≡ true) ws
    → decimal n ws < 2 ^ 31
    → format_run (ws ++ fmt) (some (record { mode = width cs n; args = args; out = out }))
      ≡ format_run fmt (some (record { mode = width cs (decimal n ws); args = args; out = out }))
unfolding format_run format_char decimal
format_run-digits [] fmt cs n args out h small = refl
format_run-digits (c ∷ ws) fmt cs n args out (h, hs) small =
    let fits : ltb (n * 10 + (c - 48)) (2 ^ 31) ≡ true =
      ground (arith, small, decimal_least (n * 10 + (c - 48)) ws) in
    let next : Format = record { mode = width cs (n * 10 + (c - 48)); args = args; out = out } in
    let step : format_char (width cs n) args out c ≡ some next = rw h (rw fits refl) in
    ap (format_run (ws ++ fmt)) step
    ∙ format_run-digits ws fmt cs (n * 10 + (c - 48)) args out hs small

convert-hex :
    (n m : ℕ) (inner : List ℕ)
    → i2a 64 m 16 [] ≡ some inner
    → format_char (width 48 n) (number m ∷ []) [] 120
      ≡ some (record { mode = plain; args = []; out = fill_list 48 (n - length inner) ++ inner })
unfolding format_char convert put_field
convert-hex n m inner run = rw run refl

-- The directive %0<width>x, with a width of any decimal digits that is below 2 ^ 31, on a 64-bit number
-- prints at least `width` characters, and these stand for the number in base 16.
pub vsprintf-hex :
    (ws : List ℕ) (m : ℕ)
    → All (λ c. is_digit c ≡ true) ws
    → decimal 0 ws < 2 ^ 31
    → m < 2 ^ 64
    → (out : List ℕ) × (vsprintf (37 ∷ 48 ∷ (ws ++ 120 ∷ [])) (number m ∷ []) ≡ some out)
      × (value 16 0 out ≡ m)
      × (decimal 0 ws ≤ length out)
unfolding vsprintf format_run format_char convert put_field format_end
vsprintf-hex ws m digits width_fits small =
    let (inner, run, is) = i2a-value 63 m 16 [] (omega arith) (omega arith) (omega arith) in
    (
      fill_list 48 (decimal 0 ws - length inner) ++ inner,
      format_run-digits ws (120 ∷ []) 48 0 (number m ∷ []) [] digits width_fits
          ∙ ap (format_run []) (convert-hex (decimal 0 ws) m inner run),
      rw
          (
            value-append 16 0 (fill_list 48 (decimal 0 ws - length inner)) inner,
            value-fill_list 16 (decimal 0 ws - length inner),
          )
          is,
      ground (
        arith,
        length-append (fill_list 48 (decimal 0 ws - length inner)) inner,
        length-fill_list 48 (decimal 0 ws - length inner),
      ),
    )
