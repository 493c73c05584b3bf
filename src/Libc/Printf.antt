-- ===== src/Libc/Printf.antt =====
-- `printf` of userspace/libc/src/printf.c up to its call of `write`: the characters that it
-- writes from the start of its buffer of 256 bytes on, and how many of them lie behind it. A
-- format and a text are the bytes before the final zero. `writeFloat`, which works on doubles, is
-- a parameter. `none`: an argument of another type, a count that would fall below 0, or a format
-- that is read behind its end.
pub mod Pieces
pub mod Steps
pub mod Output
pub mod Truncate
mod Tests
use k_panic.Base.{
  ℕ, zero, suc, ◌+◌, ◌-◌, ◌%◌, ◌==◌, Bool, true, false, not, ◌&&◌, ◌||◌, Option, none, some, List,
  [], ◌∷◌, ◌++◌, ltb, leb, if◌then◌else◌, length, take, drop,
}
use k_panic.Libc.Text.{parse}
use k_panic.Libc.Number.{Flags, plain, write_fill_chars, write_number}

pub data Arg {ℓ} (Float : Type ℓ) : Type ℓ where
  number : ℕ → Arg Float
  text : List ℕ → Arg Float
  real : Float → Arg Float

-- `output` is what was written from the start of the buffer on, `count` the variable character_count.
pub record Printing {ℓ} (Float : Type ℓ) : Type ℓ where
  pub output : List ℕ
  pub count : ℕ
  pub args : List (Arg Float)

-- What the conversion has in front of it.
pub record Prefix : Type 0 where
  pub flag : Flags
  pub width : ℕ
  pub rest : List ℕ

-- `for(; *format >= (c ? '0' : '1') && *format <= '9'; ++format, ++c)`
pub scan_digits : ℕ → List ℕ → List ℕ × List ℕ
scan_digits low [] = ([], [])
scan_digits low (d ∷ f) =
    let (digits, rest) = scan_digits b'0' f in
    if leb low d && leb d b'9' then (d ∷ digits, rest) else ([], d ∷ f)

-- `atoi(num)`, where num has room for three digits and a zero.
pub small_number : List ℕ → Option ℕ
small_number digits = parse 32 (take 3 digits ++ 0 ∷ [])

-- The loop over the prefix specifiers, in rounds; `count` bounds the width.
pub scan_prefix : ℕ → ℕ → Flags → ℕ → List ℕ → Option Prefix
unfolding scan_digits small_number
scan_prefix zero count flag width f = none
scan_prefix (suc n) count flag width [] = some (record { flag = flag; width = width; rest = [] })
scan_prefix (suc n) count flag width (c ∷ f) =
    let left = scan_prefix n count (record flag { left = true }) width f in
    let plus = scan_prefix n count (record flag { plus = true }) width f in
    let zeropad = scan_prefix n count (record flag { zeropad = true }) width f in
    let long = scan_prefix n count (record flag { long = true }) width f in
    let here = some (record { flag = flag; width = width; rest = c ∷ f }) in
    let digits = (scan_digits b'1' (c ∷ f)).0 in
    let wider = λ (w : ℕ).
      scan_prefix n count flag (if ltb count w then count else w) (scan_digits b'1' (c ∷ f)).1 in
    if c == b'-'
    then left
    else if c == b'+'
    then plus
    else if c == b'0'
    then zeropad
    else if c == b'z' || c == b'l'
    then long
    else if not (width == 0)
    then here
    else if length digits == 0
    then here
    else elim (small_number digits) [ none ↦ none | some w ↦ wider w ]

-- `.` and the precision, 14 where there is none.
pub scan_precision : List ℕ → Option (ℕ × List ℕ)
unfolding scan_digits small_number
scan_precision [] = some (14, [])
scan_precision (c ∷ f) =
    let (digits, rest) = scan_digits b'1' f in
    if not (c == b'.')
    then some (14, c ∷ f)
    else if length digits == 0
    then some (14, rest)
    else elim (small_number digits) [ none ↦ none | some p ↦ some (p, rest) ]

-- `while(string_arg && *string_arg)`: what is written of a text, until the count is 0.
pub put_text : ℕ → List ℕ → List ℕ
put_text count [] = []
put_text zero (c ∷ t) = []
put_text (suc count) (c ∷ t) = c ∷ put_text count t

module _ {ℓ} {Float : Type ℓ} where
  -- Fill characters are written if the count stays at 0 or above.
  pub print_fill : ℕ → Printing Float → Option (Printing Float)
  unfolding write_fill_chars
  print_fill size s =
      if ltb s.count size
      then none
      else some
          (record s { output = s.output ++ write_fill_chars size b' '; count = s.count - size })

  pub print_text : Flags → ℕ → List ℕ → Printing Float → Option (Printing Float)
  unfolding print_fill put_text
  print_text flag width t s =
      let pad = ltb (length t) width in
      let put = λ (s : Printing Float).
        let written = put_text s.count t in
        record s { output = s.output ++ written; count = s.count - length written } in
      if not flag.left && pad
      then elim (print_fill (width - length t) s) [ none ↦ none | some s' ↦ some (put s') ]
      else if flag.left && pad
      then print_fill (width - length t) (put s)
      else some (put s)

  -- `writeNumber` of the next argument; the count stays as it is.
  pub print_number : ℕ → ℕ → Flags → List (Arg Float) → Printing Float → Option (Printing Float)
  unfolding write_number
  print_number base width flag (number n ∷ args) s =
      some (record s { output = s.output ++ write_number n base width 0 flag; args = args })
  print_number base width flag (text t ∷ args) s = none
  print_number base width flag (real x ∷ args) s = none
  print_number base width flag [] s = none

  pub print_next_text : Flags → ℕ → List (Arg Float) → Printing Float → Option (Printing Float)
  unfolding print_text
  print_next_text flag width (text t ∷ args) s = print_text flag width t (record s { args = args })
  print_next_text flag width (number n ∷ args) s = none
  print_next_text flag width (real x ∷ args) s = none
  print_next_text flag width [] s = none

  pub print_char : List (Arg Float) → Printing Float → Option (Printing Float)
  print_char (number n ∷ args) s =
      some (record s { output = s.output ++ n % 256 ∷ []; args = args })
  print_char (text t ∷ args) s = none
  print_char (real x ∷ args) s = none
  print_char [] s = none

  module _ (write_float : Float → ℕ → ℕ → Flags → List ℕ) where
    pub print_float : ℕ → ℕ → Flags → List (Arg Float) → Printing Float → Option (Printing Float)
    print_float width precision flag (real x ∷ args) s =
        some (record s { output = s.output ++ write_float x width precision flag; args = args })
    print_float width precision flag (text t ∷ args) s = none
    print_float width precision flag (number n ∷ args) s = none
    print_float width precision flag [] s = none

    -- The switch over the conversion.
    pub convert : ℕ → Flags → ℕ → ℕ → Printing Float → Option (Printing Float)
    unfolding print_next_text print_number print_char print_float
    convert c flag width precision s =
        if c == b'%'
        then some (record s { output = s.output ++ b'%' ∷ []; count = s.count - 1 })
        else if c == b's'
        then print_next_text flag width s.args s
        else if c == b'd'
        then print_number 10 width (record flag { sign = true }) s.args s
        else if c == b'o'
        then print_number 8 width (record flag { special = true }) s.args s
        else if c == b'u'
        then print_number 10 width flag s.args s
        else if c == b'p' || c == b'x'
        then print_number 16 width (record flag { special = true }) s.args s
        else if c == b'X'
        then print_number 16 width (record flag { special = true; large = true }) s.args s
        else if c == b'f'
        then print_float width precision flag s.args s
        else if c == b'F'
        then print_float width precision (record flag { large = true }) s.args s
        else if c == b'c'
        then print_char s.args s
        else some (record s { output = s.output ++ b'%' ∷ [] })

    -- One conversion behind its `%`, and what is left of the format. At the end of the format the
    -- code writes a `%` and steps over the final zero.
    pub conversion : List ℕ → Printing Float → Option (List ℕ × Printing Float)
    unfolding scan_prefix scan_precision convert
    conversion f s = elim (scan_prefix (suc (length f)) s.count plain 0 f) [
      | none ↦ none
      | some p ↦ elim (scan_precision p.rest) [
        | none ↦ none
        | some (precision, []) ↦ none
        | some (precision, c ∷ rest) ↦ elim (convert c p.flag p.width precision s) [
          | none ↦ none
          | some s' ↦ some (rest, s')
        ]
      ]
    ]

    -- The loop over the format, in rounds.
    pub format_loop : ℕ → List ℕ → Printing Float → Option (Printing Float)
    unfolding conversion
    format_loop zero f s = none
    format_loop (suc n) [] s = some s
    format_loop (suc n) (c ∷ f) s =
        let next =
          format_loop n f (record s { output = s.output ++ c ∷ []; count = s.count - 1 }) in
        if s.count == 0
        then some s
        else if c == b'%'
        then elim (conversion f s) [ none ↦ none | some (rest, s') ↦ format_loop n rest s' ]
        else next

    -- The bytes that `printf` writes into its buffer, and those it writes behind the buffer, over
    -- whatever lies there on the stack. Where there are none of these, `write` gets the first.
    pub printf : List ℕ → List (Arg Float) → Option (List ℕ × List ℕ)
    unfolding format_loop
    printf f args =
        let start : Printing Float = record { output = []; count = 256; args = args } in
        elim (format_loop (suc (length f)) f start) [
          | none ↦ none
          | some s ↦ some (take 256 s.output, drop 256 s.output)
        ]
