-- ===== src/Prelude/Map.antt =====
-- Association lists for the `HashMap`s and `DashMap`s, whose keys are texts or 16-byte identifiers.
use tunely.Prelude.Tests.{if◌then◌else◌, is_some}
use tunely.Prelude.Bytes.{Text, text_eq, text_eq_iff, text_eq_refl}
use mathlib.Core.Path.{◌≡◌, refl}
use mathlib.Core.Bool.{Bool, false}
use mathlib.Core.List.{List, [], ◌∷◌}
use mathlib.Core.Option.{Option, none, some}
use native.Mathlib.Omega.{arith}

abbrev pub Map {ℓ} : Type ℓ → Type ℓ
Map V = List (Text × V)

module _ {ℓ} {V : Type ℓ} where
  unfoldable pub lookup : Text → Map V → Option V
  lookup k [] = none
  lookup k ((j, v) ∷ m) = if text_eq j k then some v else lookup k m

  abbrev pub contains_key : Text → Map V → Bool
  contains_key k m = is_some (lookup k m)

  unfoldable pub insert : Text → V → Map V → Map V
  insert key new [] = (key, new) ∷ []
  insert key new ((k, old) ∷ rest) =
      if text_eq k key then (key, new) ∷ rest else (k, old) ∷ insert key new rest

  unfoldable pub remove : Text → Map V → Map V
  remove k [] = []
  remove k ((j, w) ∷ m) = if text_eq j k then remove k m else (j, w) ∷ remove k m

  pub lookup-insert :
      (key asked : Text) (new : V) (m : Map V)
      → lookup asked (insert key new m) ≡ (if text_eq key asked then some new else lookup asked m)
  unfolding insert lookup
  lookup-insert key asked new [] = refl
  lookup-insert key asked new ((k, old) ∷ rest) =
      let tail = lookup-insert key asked new rest in
      ground (arith, tail, text_eq_iff k key, text_eq_iff key asked, text_eq_iff k asked)

  pub lookup-remove :
      (k j : Text) (m : Map V) → lookup j (remove k m) ≡ (if text_eq k j then none else lookup j m)
  unfolding lookup remove
  lookup-remove k j [] = ground arith
  lookup-remove k j ((i, w) ∷ m) =
      ground (arith, text_eq_iff k j, text_eq_iff i k, text_eq_iff i j, lookup-remove k j m)

  pub lookup-insert_self : (k : Text) (v : V) (m : Map V) → lookup k (insert k v m) ≡ some v
  lookup-insert_self k v m = ground (arith, lookup-insert k k v m, text_eq_refl k)

  pub lookup-remove_self : (k : Text) (m : Map V) → lookup k (remove k m) ≡ none
  lookup-remove_self k m = ground (arith, lookup-remove k k m, text_eq_refl k)

  -- No key occurs twice.
  abbrev pub IsMap : Map V → Type 0
  IsMap [] = Unit {0}
  IsMap ((k, v) ∷ m) = (contains_key k m ≡ false) × IsMap m

  pub remove-IsMap : (k : Text) (m : Map V) → IsMap m → IsMap (remove k m)
  unfolding remove
  remove-IsMap k [] h = tt
  remove-IsMap k ((j, v) ∷ m) h = ground (arith, remove-IsMap k m h.1, lookup-remove k j m)

  pub insert-IsMap : (k : Text) (v : V) (m : Map V) → IsMap m → IsMap (insert k v m)
  unfolding insert lookup
  insert-IsMap k v [] h = (refl, tt)
  insert-IsMap k v ((j, w) ∷ m) h =
      ground
        (arith, insert-IsMap k v m h.1, lookup-insert k j v m, text_eq_iff j k, text_eq_iff k j)

  pub remove_absent : (k : Text) (m : Map V) → lookup k m ≡ none → remove k m ≡ m
  unfolding remove lookup
  remove_absent k [] h = refl
  remove_absent k ((j, v) ∷ m) h = ground (arith, remove_absent k m)
