-- ===== src/Libc/Printf/Tests.antt =====
-- Runs of `printf`.
use k_panic.Base.{ℕ, ◌≡◌, refl, some, List, [], ◌∷◌, arith, take, replicate}
use k_panic.Libc.Number.{Flags, write_number}
use k_panic.Libc.Text.{parse, digits_from}
use k_panic.Libc.Printf.{number, text, printf}
use k_panic.Libc.Printf.Pieces.{
  Piece, literal, percent, string, decimal, format_of, args_of, meanings,
}
use k_panic.Libc.Printf.Output.{printf_pieces}
use k_panic.Libc.Printf.Truncate.{printf_truncates}

-- More than the buffer holds.
abbrev exes : List ℕ
exes = replicate 300 b'x'

-- No floats.
abbrev no_float : ⊥ → ℕ → ℕ → Flags → List ℕ
no_float x width precision flag = []

-- "a=%d %s%%"
abbrev line : List Piece
line =
    literal b'a'
    ∷ literal b'='
    ∷ decimal 42
    ∷ literal b' '
    ∷ string (b'o' ∷ b'k' ∷ [])
    ∷ percent
    ∷ []

prints_line :
    printf no_float (format_of line) (args_of line)
    ≡ some (b'a' ∷ b'=' ∷ b'4' ∷ b'2' ∷ b' ' ∷ b'o' ∷ b'k' ∷ b'%' ∷ [], [])
unfolding printf
prints_line = refl

-- "%4d|%-3s|"
prints_width :
    printf no_float
      (b'%' ∷ b'4' ∷ b'd' ∷ b'|' ∷ b'%' ∷ b'-' ∷ b'3' ∷ b's' ∷ b'|' ∷ [])
      (number 7 ∷ text (b'x' ∷ []) ∷ [])
    ≡ some (b' ' ∷ b' ' ∷ b' ' ∷ b'7' ∷ b'|' ∷ b'x' ∷ b' ' ∷ b' ' ∷ b'|' ∷ [], [])
unfolding printf parse digits_from
prints_width = refl

printf_pieces_example : printf no_float (format_of line) (args_of line) ≡ some (meanings line, [])
unfolding write_number
printf_pieces_example =
    printf_pieces no_float line (omega arith, (omega arith, (omega arith, tt))) (omega arith)
      (omega arith)

printf_truncates_example :
    printf no_float
      (format_of (string exes ∷ literal b'!' ∷ []))
      (args_of (string exes ∷ literal b'!' ∷ []))
    ≡ some (take 256 (meanings (string exes ∷ literal b'!' ∷ [])), [])
printf_truncates_example =
    printf_truncates no_float (string exes ∷ literal b'!' ∷ []) (omega arith, tt)
