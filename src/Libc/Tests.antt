-- ===== src/Libc/Tests.antt =====
-- Runs of the library's functions on small texts, numbers and memories.
use k_panic.Base.{
  ℕ, zero, suc, ◌-◌, ◌^◌, ◌<◌, ◌≡◌, refl, true, some, List, [], ◌∷◌, ◌++◌, arith, get_or,
}
use k_panic.Libc.Strtoul.{simple_strtoul, simple_strtol}
use k_panic.Libc.Memory.{Bytes}
use k_panic.Libc.Text.{atoi}
use k_panic.Libc.Number.{plain, write_number}
use k_panic.Libc.RoundTrip.{atoi-write_number, extended, decimal_flags}

abbrev six_bytes : Bytes
six_bytes = 1 ∷ 2 ∷ 3 ∷ 4 ∷ 1 ∷ 2 ∷ []

small_bytes : (i : ℕ) → get_or six_bytes i 0 < 256
small_bytes zero = omega arith
small_bytes (suc zero) = omega arith
small_bytes (suc (suc zero)) = omega arith
small_bytes (suc (suc (suc zero))) = omega arith
small_bytes (suc (suc (suc (suc zero)))) = omega arith
small_bytes (suc (suc (suc (suc (suc zero))))) = omega arith
small_bytes (suc (suc (suc (suc (suc (suc i)))))) = omega arith

abbrev forty_two : List ℕ
forty_two = b'4' ∷ b'2' ∷ []

atoi-write_number_example :
    atoi (write_number (extended (2 ^ 32 - 5)) 10 0 0 decimal_flags ++ (0 ∷ [])) ≡ some (2 ^ 32 - 5)
atoi-write_number_example = atoi-write_number (2 ^ 32 - 5) [] (omega arith) (omega arith)

hex_255 :
    write_number 255 16 6 0 (record plain { special = true })
    ≡ b' ' ∷ b' ' ∷ b'0' ∷ b'x' ∷ b'f' ∷ b'f' ∷ []
unfolding write_number
hex_255 = refl

-- Behind a 0 that no x follows, the base is 8; the text goes on with the 9.
reads_octal :
    simple_strtol (b'-' ∷ b'0' ∷ b'1' ∷ b'7' ∷ b'9' ∷ []) 0 ≡ some (2 ^ 64 - 15, b'9' ∷ [])
unfolding simple_strtol
reads_octal = refl

reads_hexadecimal :
    simple_strtoul (b'0' ∷ b'x' ∷ b'f' ∷ b'F' ∷ b'g' ∷ []) 16 ≡ some (255, b'g' ∷ [])
unfolding simple_strtoul
reads_hexadecimal = refl
