-- ===== src/Strings/Print.antt =====
-- vsprintf of lib/string.c. The format and the texts are lists of characters without the NUL; the
-- buffer is the list of what has been written. A field has at most 255 characters, which the code
-- does not check.
use oscar_kernel.Common.{
  ℕ, zero, suc, ◌+◌, ◌-◌, ◌*◌, ◌%◌, ◌^◌, Bool, ◌&&◌, ◌||◌, Option, none, some, List, [], ◌∷◌, ◌++◌,
  length, ltb, leb, ◌==◌, if◌then◌else◌,
}
use oscar_kernel.Strings.{i2a}

-- An argument of `vsprintf`: a 64-bit pattern, or the string that a pointer leads to.
pub data Arg : Type 0 where
  number : ℕ → Arg
  text : List ℕ → Arg

-- Where the scan of the format stands: outside a directive, just after the per cent sign, or behind
-- the fill character, with `cs` and `align_nr`.
pub data Mode : Type 0 where
  plain : Mode
  percent : Mode
  width : ℕ → ℕ → Mode

-- The state of the loop: the mode, the arguments that are left, and the output so far.
pub record Format : Type 0 where
  pub mode : Mode
  pub args : List Arg
  pub out : List ℕ

-- The output with a field: the fill up to `align_nr`, then `inner_buf`.
unfoldable pub fill_list : ℕ → ℕ → List ℕ
fill_list cs zero = []
fill_list cs (suc n) = cs ∷ fill_list cs n

unfoldable pub put_field : ℕ → ℕ → List Arg → List ℕ → Option (List ℕ) → Option Format
unfolding fill_list
put_field cs align_nr args out none = none
put_field cs align_nr args out (some inner_buf) = some (record {
  mode = plain;
  args = args;
  out = (out ++ fill_list cs (align_nr - length inner_buf)) ++ inner_buf;
})

-- 64 digits are enough for a 64-bit number. `%d` shows a negative number by its sign and the
-- opposite.
unfoldable pub convert : ℕ → ℕ → ℕ → List Arg → List ℕ → Option Format
unfolding put_field i2a
convert c cs align_nr [] out =
    if c == 99 || (c == 120 || (c == 100 || (c == 115)))
    then none
    else put_field cs align_nr [] out (some [])
convert c cs align_nr (number m ∷ args) out =
    if c == 99
    then put_field cs align_nr args out (some (if m % 256 == 0 then [] else m % 256 ∷ []))
    else if c == 120
    then put_field cs align_nr args out (i2a 64 m 16 [])
    else if c == 100
    then put_field cs align_nr args out
        (if ltb m (2 ^ 63) then i2a 64 m 10 [] else i2a 64 (2 ^ 64 - m) 10 (45 ∷ []))
    else if c == 115
    then none
    else put_field cs align_nr (number m ∷ args) out (some [])
convert c cs align_nr (text t ∷ args) out =
    if c == 115
    then put_field cs align_nr args out (some t)
    else if c == 99 || (c == 120 || (c == 100))
    then none
    else put_field cs align_nr (text t ∷ args) out (some [])

abbrev pub is_digit : ℕ → Bool
is_digit c = leb 48 c && leb c 57

-- One character of the format. A width that overflows the `int` is undefined, and `none` here.
unfoldable pub format_char : Mode → List Arg → List ℕ → ℕ → Option Format
unfolding convert
format_char plain args out c =
    if c == 37
    then some (record { mode = percent; args = args; out = out })
    else some (record { mode = plain; args = args; out = out ++ c ∷ [] })
format_char percent args out c =
    if c == 37
    then some (record { mode = plain; args = args; out = out ++ c ∷ [] })
    else if c == 48
    then some (record { mode = width 48 0; args = args; out = out })
    else if is_digit c
    then some (record { mode = width 32 (c - 48); args = args; out = out })
    else convert c 32 0 args out
format_char (width cs align_nr) args out c =
    if is_digit c
    then if ltb (align_nr * 10 + (c - 48)) (2 ^ 31)
      then some (record { mode = width cs (align_nr * 10 + (c - 48)); args = args; out = out })
      else none
    else convert c cs align_nr args out

-- The end of the format; in a directive the code reads on past the NUL.
unfoldable pub format_end : Mode → List ℕ → Option (List ℕ)
format_end plain out = some out
format_end percent out = none
format_end (width cs align_nr) out = none

unfoldable pub format_run : List ℕ → Option Format → Option (List ℕ)
unfolding format_char format_end
format_run fmt none = none
format_run [] (some f) = format_end f.mode f.out
format_run (c ∷ fmt) (some f) = format_run fmt (format_char f.mode f.args f.out c)

-- The text in the buffer; the result is its length. `none` where the code reads an argument that is
-- not there or of another kind, overflows its width, or reads past the end of the format.
unfoldable pub vsprintf : List ℕ → List Arg → Option (List ℕ)
unfolding format_run
vsprintf fmt args = format_run fmt (some (record { mode = plain; args = args; out = [] }))
