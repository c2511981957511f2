-- ===== src/Prelude/Split.antt =====
-- `str::trim` and `str::split` of Rust's library.
use tunely.Prelude.Tests.{◌==◌, leb, if◌then◌else◌}
use Prim.Native.Nat.{ℕ, zero, suc}
use mathlib.Core.Bool.{◌&&◌, ◌||◌}
use mathlib.Core.List.{List, [], ◌∷◌}
use tunely.Prelude.Bytes.{Text}
use tunely.Prelude.Lists.{is_empty}

-- `char::is_whitespace`: the number of bytes of a white space that a text starts with, or 0.
unfoldable pub space_len : Text → ℕ
space_len [] = 0
space_len (c ∷ []) = if (leb 9 c && leb c 13) || c == 32 then 1 else 0
space_len (c ∷ d ∷ []) =
    if (leb 9 c && leb c 13) || c == 32
    then 1
    else if c == 0xC2 && (d == 0x85 || d == 0xA0)
    then 2
    else 0
space_len (c ∷ d ∷ e ∷ s) =
    if (leb 9 c && leb c 13) || c == 32
    then 1
    else if c == 0xC2 && (d == 0x85 || d == 0xA0)
    then 2
    else if (c == 0xE1 && d == 0x9A && e == 0x80)
        || (c == 0xE2
            && d == 0x80
            && ((leb 0x80 e && leb e 0x8A) || e == 0xA8 || e == 0xA9 || e == 0xAF))
        || (c == 0xE2 && d == 0x81 && e == 0x9F)
        || (c == 0xE3 && d == 0x80 && e == 0x80)
    then 3
    else 0

-- Without its first bytes, as many as the number says, and the white space after them.
unfoldable pub trim_start : ℕ → Text → Text
unfolding space_len
trim_start n [] = []
trim_start (suc n) (c ∷ s) = trim_start n s
trim_start zero (c ∷ s) = elim (space_len (c ∷ s)) [ zero ↦ c ∷ s | suc n ↦ trim_start n s ]

unfoldable pub trim_end : Text → Text
unfolding trim_start
trim_end [] = []
trim_end (c ∷ s) = let rest = trim_end s in if is_empty (trim_start 0 (c ∷ s)) then [] else c ∷ rest

-- `str::trim`
unfoldable pub trim : Text → Text
unfolding trim_start trim_end
trim s = trim_end (trim_start 0 s)

-- `str::split(',')`
unfoldable pub split_commas : Text → List Text
split_commas [] = [] ∷ []
split_commas (c ∷ s) =
    let rest = split_commas s in
    if c == b','
    then [] ∷ rest
    else elim rest [ [] ↦ (c ∷ []) ∷ [] | piece ∷ pieces ↦ (c ∷ piece) ∷ pieces ]
