-- ===== src/Prelude/Utf8.antt =====
-- `std::str::from_utf8` of Rust's library, as a test, and `String::from_utf8_lossy`.
use tunely.Prelude.Tests.{◌==◌, leb, if◌then◌else◌}
use Prim.Native.Nat.{ℕ, zero, suc}
use mathlib.Core.Bool.{Bool, true, false, ◌&&◌, ◌||◌}
use mathlib.Core.Path.{◌≡◌, refl, ap}
use mathlib.Core.List.{[], ◌∷◌}
use tunely.Prelude.Bytes.{Bytes, Text}

abbrev between : ℕ → ℕ → ℕ → Bool
between lo hi b = leb lo b && leb b hi

abbrev is_tail_byte : ℕ → Bool
is_tail_byte b = leb 0x80 b && leb b 0xBF

-- The second byte that may follow a first byte of a character of three bytes, or of four.
second_of_three : ℕ → ℕ → Bool
second_of_three b c =
    (b == 0xE0 && between 0xA0 0xBF c)
    || (between 0xE1 0xEC b && is_tail_byte c)
    || (b == 0xED && between 0x80 0x9F c)
    || (between 0xEE 0xEF b && is_tail_byte c)

second_of_four : ℕ → ℕ → Bool
second_of_four b c =
    (b == 0xF0 && between 0x90 0xBF c)
    || (between 0xF1 0xF3 b && is_tail_byte c)
    || (b == 0xF4 && between 0x80 0x8F c)

-- The number of bytes of the character that some bytes start with, or 0 if they start with none.
unfoldable pub char_len : Bytes → ℕ
unfolding second_of_three second_of_four
char_len [] = 0
char_len (b ∷ []) = if leb b 0x7F then 1 else 0
char_len (b ∷ c ∷ []) =
    if leb b 0x7F then 1 else if between 0xC2 0xDF b && is_tail_byte c then 2 else 0
char_len (b ∷ c ∷ d ∷ []) =
    if leb b 0x7F
    then 1
    else if between 0xC2 0xDF b && is_tail_byte c
    then 2
    else if second_of_three b c && is_tail_byte d
    then 3
    else 0
char_len (b ∷ c ∷ d ∷ e ∷ rest) =
    if leb b 0x7F
    then 1
    else if between 0xC2 0xDF b && is_tail_byte c
    then 2
    else if second_of_three b c && is_tail_byte d
    then 3
    else if second_of_four b c && is_tail_byte d && is_tail_byte e
    then 4
    else 0

-- After as many bytes as the number says, only whole characters follow.
unfoldable pub utf8_from : ℕ → Bytes → Bool
unfolding char_len
utf8_from n [] = true
utf8_from (suc n) (b ∷ rest) = utf8_from n rest
utf8_from zero (b ∷ rest) = elim (char_len (b ∷ rest)) [ zero ↦ false | suc n ↦ utf8_from n rest ]

unfoldable pub is_utf8 : Bytes → Bool
unfolding utf8_from
is_utf8 bytes = utf8_from 0 bytes

-- Of the bytes that stand for one replacement character, how many follow the first: those that
-- could go on a character which then is not finished.
unfoldable pub rest_of_bad : Bytes → ℕ
unfolding second_of_three second_of_four
rest_of_bad [] = 0
rest_of_bad (b ∷ []) = 0
rest_of_bad (b ∷ c ∷ []) = if second_of_three b c || second_of_four b c then 1 else 0
rest_of_bad (b ∷ c ∷ d ∷ rest) =
    if second_of_three b c
    then 1
    else if second_of_four b c
    then (if is_tail_byte d then 2 else 1)
    else 0

-- After as many bytes as the number says, which are kept or dropped.
unfoldable pub lossy_from : ℕ → Bool → Bytes → Text
unfolding char_len rest_of_bad
lossy_from n keep [] = []
lossy_from (suc n) true (b ∷ rest) = b ∷ lossy_from n true rest
lossy_from (suc n) false (b ∷ rest) = lossy_from n false rest
lossy_from zero keep (b ∷ rest) = elim (char_len (b ∷ rest)) [
  | zero ↦ 0xEF ∷ 0xBF ∷ 0xBD ∷ lossy_from (rest_of_bad (b ∷ rest)) false rest
  | suc n ↦ b ∷ lossy_from n true rest
]

unfoldable pub from_utf8_lossy : Bytes → Text
unfolding lossy_from
from_utf8_lossy bytes = lossy_from 0 true bytes

lossy_from-utf8 :
    (n : ℕ) (bytes : Bytes) → utf8_from n bytes ≡ true → lossy_from n true bytes ≡ bytes
unfolding utf8_from lossy_from
lossy_from-utf8 n [] h = refl
lossy_from-utf8 (suc n) (b ∷ rest) h = ap (◌∷◌ b) (lossy_from-utf8 n rest h)
lossy_from-utf8 zero (b ∷ rest) h = go (char_len (b ∷ rest)) refl (λ k. lossy_from-utf8 k rest)
  where
    go :
        (k : ℕ)
        → char_len (b ∷ rest) ≡ k
        → ((n : ℕ) → utf8_from n rest ≡ true → lossy_from n true rest ≡ rest)
        → lossy_from 0 true (b ∷ rest) ≡ b ∷ rest
    go zero e ih = let bad : false ≡ true = rw (e, utf8_from) at h in cc bad
    go (suc k) e ih = rw (e, lossy_from) (ap (◌∷◌ b) (ih k (rw (e, utf8_from) at h)))

-- Bytes that are UTF-8 stay as they are.
pub from_utf8_lossy-utf8 : (bytes : Bytes) → is_utf8 bytes ≡ true → from_utf8_lossy bytes ≡ bytes
unfolding is_utf8 from_utf8_lossy
from_utf8_lossy-utf8 bytes h = lossy_from-utf8 0 bytes h
