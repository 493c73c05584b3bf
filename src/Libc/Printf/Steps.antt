-- ===== src/Libc/Printf/Steps.antt =====
-- One round of the loop of `printf`.
use k_panic.Base.{
  ℕ, zero, suc, ◌-◌, ◌≤◌, ◌<◌, ◌≡◌, ◌≢◌, refl, sym, ap, ◌∙◌, some, List, [], ◌∷◌, ◌++◌, arith,
  length, take, drop,
}
use k_panic.Libc.Number.{Flags}
use k_panic.Libc.Printf.{Arg, Printing, text, put_text, print_text, conversion, format_loop}

pub put_text-take : (k : ℕ) (t : List ℕ) → put_text k t ≡ take k t
unfolding put_text
put_text-take zero [] = refl
put_text-take (suc k) [] = refl
put_text-take zero (c ∷ t) = refl
put_text-take (suc k) (c ∷ t) = ap (λ l. c ∷ l) (put_text-take k t)

pub take-all : (k : ℕ) (t : List ℕ) → length t ≤ k → take k t ≡ t
take-all zero [] h = refl
take-all (suc k) [] h = refl
take-all zero (c ∷ t) h = absurd (omega arith)
take-all (suc k) (c ∷ t) h = ap (λ l. c ∷ l) (take-all k t (omega arith))

pub drop-all : (k : ℕ) (t : List ℕ) → length t ≤ k → drop k t ≡ []
drop-all zero [] h = refl
drop-all (suc k) [] h = refl
drop-all zero (c ∷ t) h = absurd (omega arith)
drop-all (suc k) (c ∷ t) h = drop-all k t (omega arith)

-- What was cut off at `k` is not longer.
pub take-take : (k : ℕ) (t : List ℕ) → (take k (take k t) ≡ take k t) × (drop k (take k t) ≡ [])
take-take zero [] = (refl, refl)
take-take zero (c ∷ t) = (refl, refl)
take-take (suc k) [] = (refl, refl)
take-take (suc k) (c ∷ t) = let (taken, dropped) = take-take k t in (ap (λ l. c ∷ l) taken, dropped)

pub take-zero : (l : List ℕ) → take 0 l ≡ []
take-zero [] = refl
take-zero (c ∷ l) = refl

pub take-none : (k : ℕ) → take {A = ℕ} k [] ≡ []
take-none zero = refl
take-none (suc k) = refl

pub take-append :
    (k : ℕ) (t r : List ℕ) → take k (t ++ r) ≡ take k t ++ take (k - length (take k t)) r
take-append zero [] r = ap (λ j. take j r) (let e : 0 ≡ 0 - 0 = omega arith in e)
take-append (suc k) [] r = ap (λ j. take j r) (let e : suc k ≡ suc k - 0 = omega arith in e)
take-append zero (c ∷ t) r =
    sym (take-zero r) ∙ ap (λ j. take j r) (let e : 0 ≡ 0 - 0 = omega arith in e)
take-append (suc k) (c ∷ t) r =
    let n = length (take k t) in
    let e : k - n ≡ suc k - suc n = omega arith in
    ap (λ l. c ∷ l) (take-append k t r ∙ ap (λ j. take k t ++ take j r) e)

module _ {ℓ} {Float : Type ℓ} where
  abbrev pub state : List ℕ → ℕ → List (Arg Float) → Printing Float
  state o k args = record { output = o; count = k; args = args }

module _ {ℓ} {Float : Type ℓ} (write_float : Float → ℕ → ℕ → Flags → List ℕ) where
  pub string_step :
      (o : List ℕ) (k : ℕ) (args : List (Arg Float)) (t f : List ℕ)
      → conversion write_float (b's' ∷ f) (state o k (text t ∷ args))
        ≡ some (f, state (o ++ take k t) (k - length (take k t)) args)
  unfolding conversion print_text
  string_step o k args t f = rw (← put_text-take k t) (ground arith)

  pub loop_conversion :
      (n k : ℕ) (o : List ℕ) (args : List (Arg Float)) (f rest : List ℕ) (s : Printing Float)
      → 0 < k
      → conversion write_float f (state o k args) ≡ some (rest, s)
      → format_loop write_float (suc n) (b'%' ∷ f) (state o k args)
        ≡ format_loop write_float n rest s
  unfolding format_loop
  loop_conversion n k o args f rest s h e = ground (arith, e)

  pub loop_literal :
      (n k c : ℕ) (o : List ℕ) (args : List (Arg Float)) (f : List ℕ)
      → 0 < k
      → c ≢ b'%'
      → format_loop write_float (suc n) (c ∷ f) (state o k args)
        ≡ format_loop write_float n f (state (o ++ c ∷ []) (k - 1) args)
  unfolding format_loop
  loop_literal n k c o args f h ne = ground arith

  pub conversion_percent :
      (o : List ℕ) (k : ℕ) (args : List (Arg Float)) (f : List ℕ)
      → conversion write_float (b'%' ∷ f) (state o k args)
        ≡ some (f, state (o ++ b'%' ∷ []) (k - 1) args)
  unfolding conversion
  conversion_percent o k args f = refl
