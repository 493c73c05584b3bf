-- ===== src/KString/Tests.antt =====
-- Moves within five bytes, and a text of two bytes copied into four.
use k_panic.Base.{◌+◌, ◌-◌, ◌≡◌, refl, ◌&&◌, leb, ltb, if◌then◌else◌, [], ◌∷◌, arith, get_or}
use k_panic.Libc.Memory.{Bytes}
use k_panic.KString.{memmove, bcopy, strncpy}
use k_panic.KString.Move.{memmove_lem}

abbrev five : Bytes
five = 1 ∷ 2 ∷ 3 ∷ 4 ∷ 5 ∷ []

abbrev with_text : Bytes
with_text = b'o' ∷ b'k' ∷ 0 ∷ 7 ∷ 9 ∷ 9 ∷ 9 ∷ 9 ∷ 8 ∷ []

moves_up : memmove five 1 0 4 ≡ 1 ∷ 1 ∷ 2 ∷ 3 ∷ 4 ∷ []
unfolding memmove
moves_up = refl

-- Two bytes from 2 to 0: the code copies the bytes 3 and 4 to 1 and 2.
copies_wrong : bcopy (1 ∷ 2 ∷ 3 ∷ 4 ∷ 5 ∷ []) 2 0 2 ≡ 1 ∷ 4 ∷ 5 ∷ 4 ∷ 5 ∷ []
unfolding bcopy
copies_wrong = refl

pads : strncpy with_text 4 0 4 ≡ b'o' ∷ b'k' ∷ 0 ∷ 7 ∷ b'o' ∷ b'k' ∷ 0 ∷ 0 ∷ 8 ∷ []
unfolding strncpy
pads = refl

memmove_lem_example :
    get_or (memmove five 1 0 4) 2 0
    ≡ (if leb 1 2 && ltb 2 (1 + 4) then get_or five (0 + (2 - 1)) 0 else get_or five 2 0)
memmove_lem_example = memmove_lem five 1 0 4 2 (omega arith) (omega arith)
