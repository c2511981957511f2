-- ===== src/Prelude/Search.antt =====
-- `str::contains` of Rust's library.
use tunely.Prelude.Tests.{is_some}
use mathlib.Core.Path.{◌≡◌, refl}
use mathlib.Core.Bool.{Bool, true, ◌||◌}
use mathlib.Core.List.{[], ◌∷◌, ◌++◌}
use native.Mathlib.Omega.{arith}
use tunely.Prelude.Bytes.{Text, strip_prefix}

-- `text_contains needle text` is `text.contains(needle)`.
unfoldable pub text_contains : Text → Text → Bool
unfolding strip_prefix
text_contains needle [] = is_some (strip_prefix needle [])
text_contains needle (c ∷ text) =
    is_some (strip_prefix needle (c ∷ text)) || text_contains needle text

strip_prefix-more :
    (needle text after : Text)
    → is_some (strip_prefix needle text) ≡ true
    → is_some (strip_prefix needle (text ++ after)) ≡ true
unfolding strip_prefix
strip_prefix-more [] text after h = refl
strip_prefix-more (n ∷ needle) [] after h = cc
strip_prefix-more (n ∷ needle) (c ∷ text) after h =
    ground (arith, strip_prefix-more needle text after)

text_contains-empty : (text : Text) → text_contains [] text ≡ true
unfolding text_contains strip_prefix
text_contains-empty [] = refl
text_contains-empty (c ∷ text) = refl

pub text_contains-more_after :
    (needle text after : Text)
    → text_contains needle text ≡ true
    → text_contains needle (text ++ after) ≡ true
unfolding text_contains strip_prefix
text_contains-more_after [] [] after h = text_contains-empty after
text_contains-more_after (n ∷ needle) [] after h = cc
text_contains-more_after needle (c ∷ text) after h =
    let rest = text_contains-more_after needle text after in
    let here = strip_prefix-more needle (c ∷ text) after in ground (arith, rest, here)

pub text_contains-more_before :
    (needle before text : Text)
    → text_contains needle text ≡ true
    → text_contains needle (before ++ text) ≡ true
unfolding text_contains
text_contains-more_before needle [] text h = h
text_contains-more_before needle (c ∷ before) text h =
    ground (arith, text_contains-more_before needle before text h)

strip_prefix_self : (needle : Text) → is_some (strip_prefix needle needle) ≡ true
unfolding strip_prefix
strip_prefix_self [] = refl
strip_prefix_self (n ∷ needle) = ground (arith, strip_prefix_self needle)

pub text_contains_self : (text : Text) → text_contains text text ≡ true
unfolding text_contains
text_contains_self [] = strip_prefix_self []
text_contains_self (c ∷ text) = ground (arith, strip_prefix_self (c ∷ text))
