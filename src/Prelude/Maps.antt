-- ===== src/Prelude/Maps.antt =====
-- A Go map as an association list keyed by text.
use mathlib.Core.Path.{◌≡◌, refl, sym, ◌∙◌}
use mathlib.Core.List.{List, [], ◌∷◌}
use mathlib.Core.Option.{Option, none, some}
use native.Mathlib.Omega.{arith}
use Prim.Native.Nat.{ℕ, ◌+◌}
use mathlib.Core.Bool.{Bool}
use onlyboxes.Prelude.Tests.{if◌then◌else◌, if_cases}
use onlyboxes.Prelude.Texts.{Text, text_eq, text_eq_iff, text_eq_refl, text_eq_ne, text_dec}
use mathlib.Core.Logic.{◌≢◌, ◌⊎◌, inl, inr}

abbrev pub Map {ℓ} : Type ℓ → Type ℓ
Map V = List (Text × V)

module _ {ℓ} {V : Type ℓ} where
  -- `v, ok := m[k]`
  unfoldable pub lookup : Text → Map V → Option V
  lookup k [] = none
  lookup k ((j, v) ∷ m) = if text_eq j k then some v else lookup k m

  -- `m[k] = v`
  unfoldable pub insert : Text → V → Map V → Map V
  insert k v [] = (k, v) ∷ []
  insert k v ((j, w) ∷ m) = if text_eq j k then (k, v) ∷ m else (j, w) ∷ insert k v m

  -- `delete(m, k)`
  unfoldable pub remove : Text → Map V → Map V
  remove k [] = []
  remove k ((j, w) ∷ m) = if text_eq j k then remove k m else (j, w) ∷ remove k m

  pub lookup-insert :
      (k j : Text) (v : V) (m : Map V)
      → lookup j (insert k v m) ≡ (if text_eq k j then some v else lookup j m)
  unfolding lookup insert
  lookup-insert k j v [] = refl
  lookup-insert k j v ((i, w) ∷ m) =
      ground (arith, text_eq_iff k j, text_eq_iff i k, text_eq_iff i j, lookup-insert k j v m)

  pub lookup-remove :
      (k j : Text) (m : Map V) → lookup j (remove k m) ≡ (if text_eq k j then none else lookup j m)
  unfolding lookup remove
  lookup-remove k j [] = ground arith
  lookup-remove k j ((i, w) ∷ m) =
      ground (arith, text_eq_iff k j, text_eq_iff i k, text_eq_iff i j, lookup-remove k j m)

  pub lookup-insert_self : (k : Text) (v : V) (m : Map V) → lookup k (insert k v m) ≡ some v
  lookup-insert_self k v m = rw (lookup-insert k k v m, text_eq_refl k) refl

  pub lookup-insert_ne :
      (k j : Text) (v : V) (m : Map V) → k ≢ j → lookup j (insert k v m) ≡ lookup j m
  lookup-insert_ne k j v m h = rw (lookup-insert k j v m, text_eq_ne k j h) refl

  pub lookup-remove_self : (k : Text) (m : Map V) → lookup k (remove k m) ≡ none
  lookup-remove_self k m = rw (lookup-remove k k m, text_eq_refl k) refl

  pub lookup-remove_ne : (k j : Text) (m : Map V) → k ≢ j → lookup j (remove k m) ≡ lookup j m
  lookup-remove_ne k j m h = rw (lookup-remove k j m, text_eq_ne k j h) refl

  pub lookup-insert_cases :
      (k j : Text) (v : V) (m : Map V) {w : V}
      → lookup j (insert k v m) ≡ some w
      → ((k ≡ j) × (w ≡ v)) ⊎ ((k ≢ j) × (lookup j m ≡ some w))
  lookup-insert_cases k j v m h = elim (text_dec k j) [
    | yes e ↦
        inl (e, ground (arith, lookup-insert_self j v m, lookup-insert k j v m, text_eq_iff k j))
    | no n ↦ inr (n, sym (lookup-insert_ne k j v m n) ∙ h)
  ]

  pub lookup-remove-some :
      (k j : Text) (m : Map V) {w : V}
      → lookup j (remove k m) ≡ some w
      → (k ≢ j) × (lookup j m ≡ some w)
  lookup-remove-some k j m h = elim (text_dec k j) [
    | yes e ↦ absurd (ground (arith, lookup-remove k j m, text_eq_iff k j))
    | no n ↦ (n, sym (lookup-remove_ne k j m n) ∙ h)
  ]

  -- No key stands twice: what a Go map guarantees.
  abbrev pub Distinct : Map V → Type ℓ
  Distinct [] = Unit
  Distinct ((k, v) ∷ m) = (lookup k m ≡ none) × Distinct m

  -- How many values pass a test.
  abbrev pub tally : (V → Bool) → Map V → ℕ
  tally p [] = 0
  tally p ((k, v) ∷ m) = (if p v then 1 else 0) + tally p m

  pub lookup-remove-none :
      (k j : Text) (m : Map V) → lookup j m ≡ none → lookup j (remove k m) ≡ none
  lookup-remove-none k j m h = ground (arith, lookup-remove k j m)

  pub remove_absent : (k : Text) (m : Map V) → lookup k m ≡ none → remove k m ≡ m
  unfolding lookup remove
  remove_absent k [] h = refl
  remove_absent k ((j, v) ∷ m) h = ground (arith, remove_absent k m)

  pub insert-Distinct : (k : Text) (v : V) (m : Map V) → Distinct m → Distinct (insert k v m)
  unfolding insert
  insert-Distinct k v [] d = (unfold lookup in refl, tt)
  insert-Distinct k v ((j, w) ∷ m) d =
      if_cases Distinct (text_eq j k) _ _ (λ e. (ground (arith, d.0, text_eq_iff j k), d.1))
        (λ e. (
          ground (arith, d.0, text_eq_iff j k, text_eq_iff k j, lookup-insert k j v m),
          insert-Distinct k v m d.1,
        ))

  pub remove-Distinct : (k : Text) (m : Map V) → Distinct m → Distinct (remove k m)
  unfolding remove
  remove-Distinct k [] d = tt
  remove-Distinct k ((j, w) ∷ m) d =
      if_cases Distinct (text_eq j k) _ _ (λ _. remove-Distinct k m d.1)
        (λ _. (lookup-remove-none k j m d.0, remove-Distinct k m d.1))

  pub tally-insert :
      (p : V → Bool) (k : Text) (v : V) (m : Map V)
      → lookup k m ≡ none
      → tally p (insert k v m) ≡ tally p m + (if p v then 1 else 0)
  unfolding lookup insert
  tally-insert p k v [] h = ground arith
  tally-insert p k v ((j, w) ∷ m) h = ground (arith, tally-insert p k v m)

  pub tally-remove :
      (p : V → Bool) (k : Text) (v : V) (m : Map V)
      → Distinct m
      → lookup k m ≡ some v
      → tally p (remove k m) + (if p v then 1 else 0) ≡ tally p m
  unfolding lookup remove
  tally-remove p k v [] d h = absurd (cc)
  tally-remove p k v ((j, w) ∷ m) d h =
      ground (arith, tally-remove p k v m d.1, remove_absent k m, text_eq_iff j k)
