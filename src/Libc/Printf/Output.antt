-- ===== src/Libc/Printf/Output.antt =====
-- What `printf` prints where its count does not run out.
use k_panic.Base.{
  ℕ, zero, suc, ◌-◌, ◌≤◌, ◌<◌, ◌≡◌, refl, sym, ap, ◌∙◌, Option, some, List, [], ◌∷◌, ◌++◌, arith,
  length, append_assoc, take, drop, append-nil,
}
use k_panic.Libc.Number.{Flags}
use k_panic.Libc.Printf.{Arg, Printing, number, text, conversion, format_loop, printf}
use k_panic.Libc.Printf.Pieces.{
  Piece, literal, percent, string, decimal, unsigned, octal, hexadecimal, character, IsFormat,
  format_of, args_of, meaning, meanings, cost, costs,
}
use k_panic.Libc.Printf.Steps.{
  take-all, drop-all, state, string_step, loop_conversion, loop_literal, conversion_percent,
}

module _ {ℓ} {Float : Type ℓ} (write_float : Float → ℕ → ℕ → Flags → List ℕ) where
  -- The conversions that take a number.
  abbrev TakesNumber : Piece → ℕ → ℕ → Type ℓ
  TakesNumber p c m =
      (o : List ℕ) (k : ℕ) (args : List (Arg Float)) (f : List ℕ)
      → conversion write_float (c ∷ f) (state o k (number m ∷ args))
        ≡ some (f, state (o ++ meaning p) k args)

  numeric_conversions :
      (m : ℕ)
      → TakesNumber (decimal m) b'd' m
        × TakesNumber (unsigned m) b'u' m
        × TakesNumber (octal m) b'o' m
        × TakesNumber (hexadecimal m) b'x' m
        × TakesNumber (character m) b'c' m
  unfolding conversion
  numeric_conversions m = (
    λ o k args f. refl,
    λ o k args f. refl,
    λ o k args f. refl,
    λ o k args f. refl,
    λ o k args f. refl,
  )

  -- One round and the rounds behind it.
  glue :
      (n k k' : ℕ) (o : List ℕ) (p : Piece) (ps : List Piece) {start : Option (Printing Float)}
      → start ≡ format_loop write_float n (format_of ps) (state (o ++ meaning p) k' (args_of ps))
      → k' ≡ k - cost p
      → format_loop write_float n (format_of ps) (state (o ++ meaning p) k' (args_of ps))
        ≡ some (state ((o ++ meaning p) ++ meanings ps) (k' - costs ps) [])
      → start ≡ some (state (o ++ meanings (p ∷ ps)) (k - costs (p ∷ ps)) [])
  glue n k k' o p ps step e rounds =
      step
      ∙ rounds
      ∙ ap (λ l. some (state l (k' - costs ps) [])) (append_assoc o (meaning p) (meanings ps))
      ∙ ap (λ j. some (state (o ++ meanings (p ∷ ps)) j [])) (omega arith)

  -- A piece that takes a number does not change the count.
  glue_numeric :
      (n k c m : ℕ) (o : List ℕ) (p : Piece) (ps : List Piece)
      → TakesNumber p c m
      → cost p ≡ 0
      → 0 < k
      → format_loop write_float n (format_of ps) (state (o ++ meaning p) k (args_of ps))
        ≡ some (state ((o ++ meaning p) ++ meanings ps) (k - costs ps) [])
      → format_loop write_float
          (suc n)
          (b'%' ∷ c ∷ format_of ps)
          (state o k (number m ∷ args_of ps))
        ≡ some (state (o ++ meanings (p ∷ ps)) (k - costs (p ∷ ps)) [])
  glue_numeric n k c m o p ps numeric free pos rounds =
      glue n k k o p ps
        (loop_conversion write_float n k o (number m ∷ args_of ps) (c ∷ format_of ps) (format_of ps)
          (state (o ++ meaning p) k (args_of ps)) pos (numeric o k (args_of ps) (format_of ps)))
        (omega arith) rounds

  loop_pieces :
      (n k : ℕ) (o : List ℕ) (ps : List Piece)
      → IsFormat ps
      → costs ps < k
      → length (format_of ps) < n
      → format_loop write_float n (format_of ps) (state o k (args_of ps))
        ≡ some (state (o ++ meanings ps) (k - costs ps) [])
  unfolding format_loop
  loop_pieces zero k o ps h fits fuel = absurd (omega arith)
  loop_pieces (suc n) k o [] h fits fuel =
      ap (λ l. some (state l k [])) (sym (append-nil o))
      ∙ ap (λ j. some (state (o ++ []) j [])) (omega arith)
  loop_pieces (suc n) k o (literal c ∷ ps) (ne, h) fits fuel =
      glue n k (k - 1) o (literal c) ps
        (loop_literal write_float n k c o (args_of ps) (format_of ps) (omega arith) ne) refl
        (loop_pieces n (k - 1) (o ++ c ∷ []) ps h (omega arith) (omega arith))
  loop_pieces (suc n) k o (percent ∷ ps) h fits fuel =
      glue n k (k - 1) o percent ps
        (loop_conversion write_float n k o (args_of ps) (b'%' ∷ format_of ps) (format_of ps)
          (state (o ++ b'%' ∷ []) (k - 1) (args_of ps)) (omega arith)
          (conversion_percent write_float o k (args_of ps) (format_of ps)))
        refl (loop_pieces n (k - 1) (o ++ b'%' ∷ []) ps h (omega arith) (omega arith))
  loop_pieces (suc n) k o (string t ∷ ps) h fits fuel =
      glue n k (k - length t) o (string t) ps
        (loop_conversion write_float n k o (text t ∷ args_of ps) (b's' ∷ format_of ps)
          (format_of ps) (state (o ++ t) (k - length t) (args_of ps)) (omega arith)
          (string_step write_float o k (args_of ps) t (format_of ps)
            ∙ ap (λ l. some (format_of ps, state (o ++ l) (k - length l) (args_of ps)))
                (take-all k t (omega arith))))
        refl (loop_pieces n (k - length t) (o ++ t) ps h (omega arith) (omega arith))
  loop_pieces (suc n) k o (decimal m ∷ ps) h fits fuel =
      glue_numeric n k b'd' m o (decimal m) ps (numeric_conversions m).0 refl (omega arith)
        (loop_pieces n k (o ++ meaning (decimal m)) ps h (omega arith) (omega arith))
  loop_pieces (suc n) k o (unsigned m ∷ ps) h fits fuel =
      glue_numeric n k b'u' m o (unsigned m) ps (numeric_conversions m).1 refl (omega arith)
        (loop_pieces n k (o ++ meaning (unsigned m)) ps h (omega arith) (omega arith))
  loop_pieces (suc n) k o (octal m ∷ ps) h fits fuel =
      glue_numeric n k b'o' m o (octal m) ps (numeric_conversions m).2 refl (omega arith)
        (loop_pieces n k (o ++ meaning (octal m)) ps h (omega arith) (omega arith))
  loop_pieces (suc n) k o (hexadecimal m ∷ ps) h fits fuel =
      glue_numeric n k b'x' m o (hexadecimal m) ps (numeric_conversions m).3 refl (omega arith)
        (loop_pieces n k (o ++ meaning (hexadecimal m)) ps h (omega arith) (omega arith))
  loop_pieces (suc n) k o (character m ∷ ps) h fits fuel =
      glue_numeric n k b'c' m o (character m) ps (numeric_conversions m).4 refl (omega arith)
        (loop_pieces n k (o ++ meaning (character m)) ps h (omega arith) (omega arith))

  printf_places :
      (ps : List Piece)
      → IsFormat ps
      → costs ps < 256
      → printf write_float (format_of ps) (args_of ps)
        ≡ some (take 256 (meanings ps), drop 256 (meanings ps))
  unfolding printf
  printf_places ps h fits =
      ground (arith, loop_pieces (suc (length (format_of ps))) 256 [] ps h fits)

  -- `printf` prints what the format stands for: for a format of plain characters, `%%`, `%s`, `%d`,
  -- `%u`, `%o`, `%x` and `%c`, without flags and widths, and the arguments it asks for, the bytes in
  -- the buffer are the meanings of the pieces one behind the other and nothing is written behind the
  -- buffer, as long as the meanings have at most 256 bytes in all and there are fewer than 256 plain
  -- characters, percent signs and characters of texts.
  pub printf_pieces :
      (ps : List Piece)
      → IsFormat ps
      → costs ps < 256
      → length (meanings ps) ≤ 256
      → printf write_float (format_of ps) (args_of ps) ≡ some (meanings ps, [])
  printf_pieces ps h fits room =
      printf_places ps h fits
      ∙ ap (λ l. some (l, drop 256 (meanings ps))) (take-all 256 (meanings ps) room)
      ∙ ap (λ l. some (meanings ps, l)) (drop-all 256 (meanings ps) room)
