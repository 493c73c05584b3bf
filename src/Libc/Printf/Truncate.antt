-- ===== src/Libc/Printf/Truncate.antt =====
-- Where `printf` stops: at the end of its buffer, and behind the end of its format.
use k_panic.Base.{
  ℕ, zero, suc, ◌-◌, ◌<◌, ◌≡◌, refl, sym, ap, ◌∙◌, Option, none, some, List, [], ◌∷◌, ◌++◌, arith,
  length, take, drop, append_assoc, append-nil, map, length-append,
}
use k_panic.Libc.Number.{Flags}
use k_panic.Libc.Printf.{Arg, Printing, text, conversion, format_loop, printf}
use k_panic.Libc.Printf.Pieces.{
  Piece, literal, percent, string, decimal, unsigned, octal, hexadecimal, character, IsText,
  format_of, args_of, meanings,
}
use k_panic.Libc.Printf.Steps.{
  take-take, take-zero, take-none, take-append, state, string_step, loop_conversion, loop_literal,
  conversion_percent,
}

module _ {ℓ} {Float : Type ℓ} (write_float : Float → ℕ → ℕ → Flags → List ℕ) where
  loop_full :
      (n : ℕ) (o : List ℕ) (args : List (Arg Float)) (f : List ℕ)
      → format_loop write_float (suc n) f (state o 0 args) ≡ some (state o 0 args)
  unfolding format_loop
  loop_full n o args [] = refl
  loop_full n o args (c ∷ f) = refl

  loop_end :
      (n k : ℕ) (o : List ℕ) (args : List (Arg Float))
      → format_loop write_float (suc n) [] (state o k args) ≡ some (state o k args)
  unfolding format_loop
  loop_end n k o args = refl

  -- One round that prints as much of `t` as the count allows, and the rounds behind it.
  glue_text :
      (n k k' : ℕ) (o t u : List ℕ) (ps : List Piece) {start : Option (Printing Float)}
      → u ≡ take k t
      → start ≡ format_loop write_float n (format_of ps) (state (o ++ u) k' (args_of ps))
      → k' ≡ k - length u
      → ((s : Printing Float) × (format_loop write_float n
              (format_of ps)
              (state (o ++ u) k' (args_of ps))
            ≡ some s)
          × (s.output ≡ (o ++ u) ++ take k' (meanings ps)))
      → (s : Printing Float) × (start ≡ some s) × (s.output ≡ o ++ take k (t ++ meanings ps))
  glue_text n k k' o t u ps all step e (s, ran, put) =
      let behind : take k (t ++ meanings ps) ≡ u ++ take k' (meanings ps) =
        take-append k t (meanings ps)
        ∙ ap (λ l. l ++ take (k - length l) (meanings ps)) (sym all)
        ∙ ap (λ j. u ++ take j (meanings ps)) (sym e) in
      (
        s,
        step ∙ ran,
        put ∙ append_assoc o u (take k' (meanings ps)) ∙ ap (λ l. o ++ l) (sym behind),
      )

  loop_text :
      (n k : ℕ) (o : List ℕ) (ps : List Piece)
      → IsText ps
      → length (format_of ps) < n
      → (s : Printing Float) × (format_loop write_float n (format_of ps) (state o k (args_of ps))
          ≡ some s)
        × (s.output ≡ o ++ take k (meanings ps))
  loop_text zero k o ps h fuel = absurd (omega arith)
  loop_text (suc n) zero o ps h fuel = (
    state o 0 (args_of ps),
    loop_full n o (args_of ps) (format_of ps),
    sym (append-nil o) ∙ ap (λ l. o ++ l) (sym (take-zero (meanings ps))),
  )
  loop_text (suc n) (suc k) o [] h fuel =
      (state o (suc k) [], loop_end n (suc k) o [], sym (append-nil o))
  loop_text (suc n) (suc k) o (literal c ∷ ps) (ne, h) fuel =
      glue_text n (suc k) (suc k - 1) o (c ∷ []) (c ∷ []) ps (ap (λ l. c ∷ l) (sym (take-none k)))
        (loop_literal write_float n (suc k) c o (args_of ps) (format_of ps) (omega arith) ne)
        (omega arith) (loop_text n (suc k - 1) (o ++ c ∷ []) ps h (omega arith))
  loop_text (suc n) (suc k) o (percent ∷ ps) h fuel =
      glue_text n (suc k) (suc k - 1) o (b'%' ∷ []) (b'%' ∷ []) ps
        (ap (λ l. b'%' ∷ l) (sym (take-none k)))
        (loop_conversion write_float n (suc k) o (args_of ps) (b'%' ∷ format_of ps) (format_of ps)
          (state (o ++ b'%' ∷ []) (suc k - 1) (args_of ps)) (omega arith)
          (conversion_percent write_float o (suc k) (args_of ps) (format_of ps)))
        (omega arith) (loop_text n (suc k - 1) (o ++ b'%' ∷ []) ps h (omega arith))
  loop_text (suc n) (suc k) o (string t ∷ ps) h fuel =
      let left = suc k - length (take (suc k) t) in
      glue_text n (suc k) left o t (take (suc k) t) ps refl
        (loop_conversion write_float n (suc k) o (text t ∷ args_of ps) (b's' ∷ format_of ps)
          (format_of ps) (state (o ++ take (suc k) t) left (args_of ps)) (omega arith)
          (string_step write_float o (suc k) (args_of ps) t (format_of ps)))
        refl (loop_text n left (o ++ take (suc k) t) ps h (omega arith))
  loop_text (suc n) (suc k) o (decimal m ∷ ps) h fuel = elim h [ ]
  loop_text (suc n) (suc k) o (unsigned m ∷ ps) h fuel = elim h [ ]
  loop_text (suc n) (suc k) o (octal m ∷ ps) h fuel = elim h [ ]
  loop_text (suc n) (suc k) o (hexadecimal m ∷ ps) h fuel = elim h [ ]
  loop_text (suc n) (suc k) o (character m ∷ ps) h fuel = elim h [ ]

  -- Text is cut off at the end of the buffer: for a format of plain characters, `%%` and `%s`
  -- without flags and widths, the bytes in the buffer are the first 256 of what the format stands
  -- for, however long the texts are, and nothing is written behind the buffer.
  pub printf_truncates :
      (ps : List Piece)
      → IsText ps
      → printf write_float (format_of ps) (args_of ps) ≡ some (take 256 (meanings ps), [])
  unfolding printf
  printf_truncates ps h =
      let (s, ran, put) = loop_text (suc (length (format_of ps))) 256 [] ps h (omega arith) in
      let (taken, dropped) = take-take 256 (meanings ps) in
      let same : (take 256 s.output ≡ take 256 (meanings ps)) × (drop 256 s.output ≡ []) =
        (ap (take 256) put ∙ taken, ap (drop 256) put ∙ dropped) in
      ground (arith, ran, same)

  loop_past_end :
      (n k : ℕ) (o f : List ℕ) (args : List (Arg Float))
      → IsText (map literal f)
      → length f < k
      → length f < n
      → format_loop write_float n (f ++ b'%' ∷ []) (state o k args) ≡ none
  unfolding format_loop conversion
  loop_past_end zero k o f args h room fuel = absurd (omega arith)
  loop_past_end (suc n) k o [] args h room fuel = ground arith
  loop_past_end (suc n) k o (c ∷ f) args (ne, h) room fuel =
      ground (arith, loop_past_end n (k - 1) (o ++ c ∷ []) f args)

  -- A single percent sign at the end of the format is not caught: behind fewer than 256 plain
  -- characters, `printf` steps over the final zero of the format and reads on behind it.
  pub printf_past_end :
      (f : List ℕ) (args : List (Arg Float))
      → IsText (map literal f)
      → length f < 256
      → printf write_float (f ++ b'%' ∷ []) args ≡ none
  unfolding printf
  printf_past_end f args h room = ground (
    arith,
    length-append f (b'%' ∷ []),
    loop_past_end (suc (length (f ++ b'%' ∷ []))) 256 [] f args h room,
  )
