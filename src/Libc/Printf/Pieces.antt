-- ===== src/Libc/Printf/Pieces.antt =====
-- Formats as lists of pieces, without flags and widths, and what each piece stands for.
use k_panic.Base.{ℕ, ◌+◌, ◌%◌, ◌≢◌, true, List, [], ◌∷◌, ◌++◌, length}
use k_panic.Libc.Number.{plain, write_number}
use k_panic.Libc.Printf.{Arg, number, text}

pub data Piece : Type 0 where
  literal : ℕ → Piece
  percent : Piece
  string : List ℕ → Piece
  decimal : ℕ → Piece
  unsigned : ℕ → Piece
  octal : ℕ → Piece
  hexadecimal : ℕ → Piece
  character : ℕ → Piece

-- The literal characters are no `%`.
abbrev pub IsFormat : List Piece → Type 0
IsFormat [] = Unit
IsFormat (literal c ∷ ps) = (c ≢ b'%') × IsFormat ps
IsFormat (_ ∷ ps) = IsFormat ps

-- No conversions but `%%` and `%s`.
abbrev pub IsText : List Piece → Type 0
IsText [] = Unit
IsText (literal c ∷ ps) = (c ≢ b'%') × IsText ps
IsText (percent ∷ ps) = IsText ps
IsText (string t ∷ ps) = IsText ps
IsText (_ ∷ ps) = ⊥

abbrev pub format_of : List Piece → List ℕ
format_of [] = []
format_of (literal c ∷ ps) = c ∷ format_of ps
format_of (percent ∷ ps) = b'%' ∷ b'%' ∷ format_of ps
format_of (string t ∷ ps) = b'%' ∷ b's' ∷ format_of ps
format_of (decimal n ∷ ps) = b'%' ∷ b'd' ∷ format_of ps
format_of (unsigned n ∷ ps) = b'%' ∷ b'u' ∷ format_of ps
format_of (octal n ∷ ps) = b'%' ∷ b'o' ∷ format_of ps
format_of (hexadecimal n ∷ ps) = b'%' ∷ b'x' ∷ format_of ps
format_of (character n ∷ ps) = b'%' ∷ b'c' ∷ format_of ps

abbrev pub args_of {ℓ} : {Float : Type ℓ} → List Piece → List (Arg Float)
args_of [] = []
args_of (literal c ∷ ps) = args_of ps
args_of (percent ∷ ps) = args_of ps
args_of (string t ∷ ps) = text t ∷ args_of ps
args_of (decimal n ∷ ps) = number n ∷ args_of ps
args_of (unsigned n ∷ ps) = number n ∷ args_of ps
args_of (octal n ∷ ps) = number n ∷ args_of ps
args_of (hexadecimal n ∷ ps) = number n ∷ args_of ps
args_of (character n ∷ ps) = number n ∷ args_of ps

-- What the piece stands for.
abbrev pub meaning : Piece → List ℕ
meaning (literal c) = c ∷ []
meaning percent = b'%' ∷ []
meaning (string t) = t
meaning (decimal n) = write_number n 10 0 0 (record plain { sign = true })
meaning (unsigned n) = write_number n 10 0 0 plain
meaning (octal n) = write_number n 8 0 0 (record plain { special = true })
meaning (hexadecimal n) = write_number n 16 0 0 (record plain { special = true })
meaning (character n) = n % 256 ∷ []

abbrev pub meanings : List Piece → List ℕ
meanings [] = []
meanings (p ∷ ps) = meaning p ++ meanings ps

-- The characters that `printf` counts.
abbrev pub cost : Piece → ℕ
cost (literal c) = 1
cost percent = 1
cost (string t) = length t
cost _ = 0

abbrev pub costs : List Piece → ℕ
costs [] = 0
costs (p ∷ ps) = cost p + costs ps
