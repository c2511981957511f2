-- ===== src/Prelude/Lists.antt =====
-- Lists measured and indexed by native numbers, under the library's names.
use Prim.Native.Nat.{ℕ, zero, suc, ◌+◌, ◌≤◌}
use mathlib.Core.Path.{◌≡◌, refl, ap}
use mathlib.Core.Bool.{Bool, true, false, ◌&&◌, ◌||◌}
use mathlib.Core.List.{List, [], ◌∷◌, ◌++◌}
use native.Mathlib.Omega.{arith}
use tunely.Prelude.Tests.{if◌then◌else◌}

module _ {ℓ} {A : Type ℓ} where
  abbrev pub length : List A → ℕ
  length [] = 0
  length (x ∷ xs) = suc (length xs)

  pub length-append : (xs ys : List A) → length (xs ++ ys) ≡ length xs + length ys
  length-append [] ys = omega arith
  length-append (x ∷ xs) ys = omega (arith, length-append xs ys)

  abbrev pub get_or : List A → ℕ → A → A
  get_or [] i d = d
  get_or (x ∷ xs) zero d = x
  get_or (x ∷ xs) (suc i) d = get_or xs i d

  abbrev pub take : ℕ → List A → List A
  take zero xs = []
  take (suc n) [] = []
  take (suc n) (x ∷ xs) = x ∷ take n xs

  abbrev pub drop : ℕ → List A → List A
  drop zero xs = xs
  drop (suc n) [] = []
  drop (suc n) (x ∷ xs) = drop n xs

  -- A write out of bounds changes nothing.
  abbrev pub set : List A → ℕ → A → List A
  set [] i v = []
  set (x ∷ xs) zero v = v ∷ xs
  set (x ∷ xs) (suc i) v = x ∷ set xs i v

  pub take-append : (xs ys : List A) (n : ℕ) → length xs ≡ n → take n (xs ++ ys) ≡ xs
  take-append [] ys zero h = refl
  take-append [] ys (suc n) h = absurd (omega arith)
  take-append (x ∷ xs) ys zero h = absurd (omega arith)
  take-append (x ∷ xs) ys (suc n) h = ap (◌∷◌ x) (take-append xs ys n (omega arith))

  pub drop-append : (xs ys : List A) (n : ℕ) → length xs ≡ n → drop n (xs ++ ys) ≡ ys
  drop-append [] ys zero h = refl
  drop-append [] ys (suc n) h = absurd (omega arith)
  drop-append (x ∷ xs) ys zero h = absurd (omega arith)
  drop-append (x ∷ xs) ys (suc n) h = drop-append xs ys n (omega arith)

  -- A predicate on every element.
  abbrev pub All {κ} : (A → Type κ) → List A → Type κ
  All P [] = Unit {κ}
  All P (x ∷ xs) = P x × All P xs

  pub All-append {κ} : (P : A → Type κ) (xs ys : List A) → All P xs → All P ys → All P (xs ++ ys)
  All-append P [] ys h k = k
  All-append P (x ∷ xs) ys (h, hs) k = (h, All-append P xs ys hs k)

  -- `Iterator::any`, `Iterator::all` and `Iterator::filter`.
  abbrev pub any : (A → Bool) → List A → Bool
  any p [] = false
  any p (x ∷ xs) = p x || any p xs

  abbrev pub all : (A → Bool) → List A → Bool
  all p [] = true
  all p (x ∷ xs) = p x && all p xs

  abbrev pub filter : (A → Bool) → List A → List A
  filter p [] = []
  filter p (x ∷ xs) = if p x then x ∷ filter p xs else filter p xs

  -- `is_empty`
  abbrev pub is_empty : List A → Bool
  is_empty [] = true
  is_empty (x ∷ xs) = false

-- Access behind a prefix of known length.
module _ {ℓ} {A : Type ℓ} where
  pub get_or-append :
      (xs ys : List A) (n j : ℕ) (d : A)
      → length xs ≡ n
      → get_or (xs ++ ys) (n + j) d ≡ get_or ys j d
  get_or-append [] ys zero j d h = ap (λ i. get_or ys i d) (omega arith)
  get_or-append [] ys (suc n) j d h = absurd (omega arith)
  get_or-append (x ∷ xs) ys zero j d h = absurd (omega arith)
  get_or-append (x ∷ xs) ys (suc n) j d h =
      let e : suc n + j ≡ suc (n + j) = omega arith in
      rw e (get_or-append xs ys n j d (omega arith))

  pub drop-append_add :
      (xs ys : List A) (n j : ℕ) → length xs ≡ n → drop (n + j) (xs ++ ys) ≡ drop j ys
  drop-append_add [] ys zero j h = ap (λ i. drop i ys) (omega arith)
  drop-append_add [] ys (suc n) j h = absurd (omega arith)
  drop-append_add (x ∷ xs) ys zero j h = absurd (omega arith)
  drop-append_add (x ∷ xs) ys (suc n) j h =
      let e : suc n + j ≡ suc (n + j) = omega arith in
      rw e (drop-append_add xs ys n j (omega arith))

  pub set-append :
      (xs ys : List A) (n j : ℕ) (v : A)
      → length xs ≡ n
      → set (xs ++ ys) (n + j) v ≡ xs ++ set ys j v
  set-append [] ys zero j v h = ap (λ i. set ys i v) (omega arith)
  set-append [] ys (suc n) j v h = absurd (omega arith)
  set-append (x ∷ xs) ys zero j v h = absurd (omega arith)
  set-append (x ∷ xs) ys (suc n) j v h =
      let e : suc n + j ≡ suc (n + j) = omega arith in
      rw e (ap (◌∷◌ x) (set-append xs ys n j v (omega arith)))

  pub split_at :
      (n : ℕ) (xs : List A)
      → n ≤ length xs
      → (ys : List A) × (zs : List A) × (xs ≡ ys ++ zs) × (length ys ≡ n)
  split_at zero xs h = ([], xs, refl, refl)
  split_at (suc n) [] h = absurd (omega arith)
  split_at (suc n) (x ∷ xs) h =
      let (ys, zs, e, l) = split_at n xs (omega arith) in (x ∷ ys, zs, ap (◌∷◌ x) e, ap suc l)
