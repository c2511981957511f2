-- ===== src/Prelude/Bytes.antt =====
-- Byte strings. A Rust `String`, `&[u8]` and `Uuid` is the list of its bytes.
use Prim.Native.Char.{code}
use Prim.Native.String.{String}
use tunely.Prelude.Tests.{◌==◌, leb, if◌then◌else◌}
use tunely.Prelude.Lists.{any}
use Prim.Native.Nat.{ℕ, zero, suc, ◌+◌, ◌<◌}
use mathlib.Core.Path.{◌≡◌, refl}
use mathlib.Core.Logic.{◌↔◌}
use mathlib.Core.Bool.{Bool, true, false, ◌&&◌}
use mathlib.Core.List.{List, [], ◌∷◌, ◌++◌, map}
use mathlib.Core.Option.{Option, none, some}
use mathlib.Core.List.{Mem, not-mem-nil, mem-cons_self, mem-cons_of_mem, eq-or-mem_of_mem-cons}
use mathlib.Core.Logic.{∥∥₁_prop, inl, inr}
use mathlib.Core.Logic.Or
use tunely.Prelude.Tests.{Bool-cases}
use native.Mathlib.Omega.{arith}

abbrev pub Bytes : Type 0
Bytes = List ℕ

abbrev pub Text : Type 0
Text = List ℕ

abbrev pub IsByte : ℕ → Type 0
IsByte b = b < 256

-- The bytes of an ASCII literal.
abbrev pub codes : String → Text
codes String.[] = []
codes (String.◌∷◌ c s) = code c ∷ codes s

unfoldable pub text_eq : Text → Text → Bool
text_eq [] [] = true
text_eq [] (y ∷ ys) = false
text_eq (x ∷ xs) [] = false
text_eq (x ∷ xs) (y ∷ ys) = x == y && text_eq xs ys

pub text_eq→eq : (s t : Text) → text_eq s t ≡ true → s ≡ t
unfolding text_eq
text_eq→eq [] [] h = refl
text_eq→eq [] (y ∷ ys) h = cc
text_eq→eq (x ∷ xs) [] h = cc
text_eq→eq (x ∷ xs) (y ∷ ys) h = ground (arith, text_eq→eq xs ys)

pub text_eq_refl : (s : Text) → text_eq s s ≡ true
unfolding text_eq
text_eq_refl [] = refl
text_eq_refl (x ∷ xs) = ground (arith, text_eq_refl xs)

pub text_eq_iff : (s t : Text) → (text_eq s t ≡ true) ↔ (s ≡ t)
text_eq_iff s t = (text_eq→eq s t, λ e. rw e (text_eq_refl t))

-- `u8::to_ascii_lowercase`
unfoldable pub lower : ℕ → ℕ
lower c = if leb b'A' c && leb c b'Z' then c + 32 else c

-- `str::to_ascii_lowercase`
abbrev pub to_ascii_lowercase : Text → Text
to_ascii_lowercase = map lower

-- `str::eq_ignore_ascii_case`
abbrev pub eq_ignore_ascii_case : Text → Text → Bool
eq_ignore_ascii_case s t = text_eq (to_ascii_lowercase s) (to_ascii_lowercase t)

pub lower_idem : (c : ℕ) → lower (lower c) ≡ lower c
unfolding lower
lower_idem c = ground arith

pub to_ascii_lowercase_idem :
    (s : Text) → to_ascii_lowercase (to_ascii_lowercase s) ≡ to_ascii_lowercase s
to_ascii_lowercase_idem [] = refl
to_ascii_lowercase_idem (c ∷ s) = cc (lower_idem c, to_ascii_lowercase_idem s)

-- `HashSet::contains`
abbrev pub contains : List Text → Text → Bool
contains xs t = any (text_eq t) xs

-- `str::strip_prefix`
unfoldable pub strip_prefix : Text → Text → Option Text
strip_prefix [] s = some s
strip_prefix (p ∷ ps) [] = none
strip_prefix (p ∷ ps) (c ∷ s) = if p == c then strip_prefix ps s else none

pub strip_prefix-append : (p s : Text) → strip_prefix p (p ++ s) ≡ some s
unfolding strip_prefix
strip_prefix-append [] s = refl
strip_prefix-append (c ∷ p) s = ground (arith, strip_prefix-append p s)

pub strip_prefix-eq_some : (p s r : Text) → strip_prefix p s ≡ some r → s ≡ p ++ r
unfolding strip_prefix
strip_prefix-eq_some [] s r h = ground arith
strip_prefix-eq_some (c ∷ p) [] r h = cc
strip_prefix-eq_some (c ∷ p) (d ∷ s) r h = ground (arith, strip_prefix-eq_some p s r)

-- A test that every number under a bound passes is settled by running it.
unfoldable pub passes_under : (ℕ → Bool) → ℕ → Bool
passes_under test zero = true
passes_under test (suc bound) = passes_under test bound && test bound

pub passes_under→passes :
    (test : ℕ → Bool) (bound : ℕ)
    → passes_under test bound ≡ true
    → (b : ℕ) → b < bound
    → test b ≡ true
unfolding passes_under
passes_under→passes test zero all_pass b small = elim small [ ]
passes_under→passes test (suc bound) all_pass b small =
    ground (arith, passes_under→passes test bound (ground arith) b)

pub contains_iff : (xs : List Text) (t : Text) → (contains xs t ≡ true) ↔ Mem t xs
contains_iff [] t = (λ h. cc, λ m. absurd (not-mem-nil m))
contains_iff (x ∷ xs) t = elim (Bool-cases (text_eq t x)) [
  | inl same ↦ (λ _. rw (text_eq→eq t x same) mem-cons_self, λ _. rw same)
  | inr other ↦ (
    λ h. mem-cons_of_mem x ((contains_iff xs t).0 (rw other at h)),
    λ m. rw other (
        (contains_iff xs t).1 (
          Or.elim (∥∥₁_prop) (eq-or-mem_of_mem-cons m) (λ e. cc (other, (text_eq_iff t x).1 e))
            (λ r. r))),
  )
]

-- An identifier of 16 bytes, for tests.
abbrev pub uuid : ℕ → Bytes
uuid n = n ∷ 0 ∷ 0 ∷ 0 ∷ 0 ∷ 0 ∷ 0 ∷ 0 ∷ 0 ∷ 0 ∷ 0 ∷ 0 ∷ 0 ∷ 0 ∷ 0 ∷ 0 ∷ []
