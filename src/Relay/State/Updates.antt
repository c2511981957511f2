-- ===== src/Relay/State/Updates.antt =====
-- crates/relay-server/src/state.rs: the tables' operations on one key, or on one tunnel, as changes of
-- functions.
use tunely.Prelude.{◌≡◌, refl, ◌∙◌, none, some, [], ◌∷◌, arith, Bool-cases, inl, inr}
use mathlib.Core.Path.{fun_ext}
use tunely.Prelude.Bytes.{Text, text_eq, text_eq_iff}
use tunely.Prelude.Map.{Map, IsMap, lookup, insert, remove, lookup-insert, lookup-remove}
use tunely.Relay.State.{new}
use tunely.Relay.State.Disconnect.{of_others, none_of_absent}
use tunely.Relay.State.View.{update, without}

module _ {ℓ} {V : Type ℓ} where
  pub insert-update :
      (key : Text) (new : V) (m : Map V)
      → (λ (t : Text). lookup t (insert key new m)) ≡ update (λ t. lookup t m) key (some new)
  insert-update key new m = fun_ext λ t. lookup-insert key t new m

  pub remove-update :
      (key : Text) (m : Map V)
      → (λ (t : Text). lookup t (remove key m)) ≡ update (λ t. lookup t m) key none
  remove-update key m = fun_ext λ t. lookup-remove key t m

  -- Where there is nothing, taking it out changes nothing.
  pub absent-update :
      (key : Text) (m : Map V)
      → lookup key m ≡ none
      → update (λ t. lookup t m) key none ≡ (λ (t : Text). lookup t m)
  absent-update key m h = fun_ext λ t. ground (arith, h, text_eq_iff key t)

  pub lookup-of_others :
      (tunnel_of : V → Text) (t k : Text) (m : Map V)
      → IsMap m
      → lookup k (of_others tunnel_of t m) ≡ without tunnel_of t (λ j. lookup j m) k
  unfolding lookup
  lookup-of_others tunnel_of t k [] h = refl
  lookup-of_others tunnel_of t k ((j, v) ∷ m) h =
      let rest = lookup-of_others tunnel_of t k m h.1 in
      elim (Bool-cases (text_eq (tunnel_of v) t)) [
        | inl hit ↦ elim (Bool-cases (text_eq j k)) [
          | inl same ↦
              let key : j ≡ k = (text_eq_iff j k).0 same in
              let absent : lookup k m ≡ none = rw key at (none_of_absent j m h.0) in
              rw hit (rw (same, without) (rw hit (rest ∙ rw (absent, without) refl)))
          | inr other ↦ rw hit (rw (other, without) rest)
        ]
        | inr miss ↦ elim (Bool-cases (text_eq j k)) [
          | inl same ↦ rw miss (rw (same, without) (rw miss refl))
          | inr other ↦ rw miss (rw (other, without) rest)
        ]
      ]
