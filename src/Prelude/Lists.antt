-- ===== src/Prelude/Lists.antt =====
-- Lists measured and indexed by native numbers, under the library's names.
use Prim.Native.Nat.{ℕ, zero, suc, ◌+◌, ◌<◌, min}
use mathlib.Core.Path.{◌≡◌, refl, ap}
use mathlib.Core.Logic.{◌≢◌, ◌⊎◌, inl, inr}
use mathlib.Core.Bool.{Bool, true}
use mathlib.Core.List.{List, [], ◌∷◌, ◌++◌}
use mathlib.Core.Option.{Option, none, some}
use native.Mathlib.Omega.{arith}
use onlyboxes.Prelude.Tests.{if◌then◌else◌}

module _ {ℓ} {A : Type ℓ} where
  abbrev pub length : List A → ℕ
  length [] = 0
  length (x ∷ xs) = suc (length xs)

  abbrev pub get_elem? : List A → ℕ → Option A
  get_elem? [] i = none
  get_elem? (x ∷ xs) zero = some x
  get_elem? (x ∷ xs) (suc i) = get_elem? xs i

  -- A write out of bounds changes nothing.
  abbrev pub set : List A → ℕ → A → List A
  set [] i v = []
  set (x ∷ xs) zero v = v ∷ xs
  set (x ∷ xs) (suc i) v = x ∷ set xs i v

  abbrev pub take : ℕ → List A → List A
  take zero xs = []
  take (suc n) [] = []
  take (suc n) (x ∷ xs) = x ∷ take n xs

  -- How many entries pass a test.
  abbrev pub count : (A → Bool) → List A → ℕ
  count p [] = 0
  count p (x ∷ xs) = (if p x then 1 else 0) + count p xs

module _ {ℓ} {A : Type ℓ} where
  pub length-append : (xs ys : List A) → length (xs ++ ys) ≡ length xs + length ys
  length-append [] ys = omega arith
  length-append (x ∷ xs) ys = omega (arith, length-append xs ys)

  pub count-append : (p : A → Bool) (xs ys : List A) → count p (xs ++ ys) ≡ count p xs + count p ys
  count-append p [] ys = omega arith
  count-append p (x ∷ xs) ys = omega (arith, count-append p xs ys)

  pub length-set : (xs : List A) (i : ℕ) (v : A) → length (set xs i v) ≡ length xs
  length-set [] i v = refl
  length-set (x ∷ xs) zero v = refl
  length-set (x ∷ xs) (suc i) v = ap suc (length-set xs i v)

  pub get_elem?-lt : (xs : List A) (i : ℕ) {v : A} → get_elem? xs i ≡ some v → i < length xs
  get_elem?-lt [] i h = absurd (cc)
  get_elem?-lt (x ∷ xs) zero h = omega arith
  get_elem?-lt (x ∷ xs) (suc i) h = omega (arith, get_elem?-lt xs i h)

  pub get_elem?-set_self :
      (xs : List A) (i : ℕ) (v : A) {w : A}
      → get_elem? xs i ≡ some w
      → get_elem? (set xs i v) i ≡ some v
  get_elem?-set_self [] i v h = cc
  get_elem?-set_self (x ∷ xs) zero v h = refl
  get_elem?-set_self (x ∷ xs) (suc i) v h = get_elem?-set_self xs i v h

  pub get_elem?-set_ne :
      (xs : List A) (i j : ℕ) (v : A) → i ≢ j → get_elem? (set xs i v) j ≡ get_elem? xs j
  get_elem?-set_ne [] i j v h = refl
  get_elem?-set_ne (x ∷ xs) zero zero v h = absurd (h refl)
  get_elem?-set_ne (x ∷ xs) zero (suc j) v h = refl
  get_elem?-set_ne (x ∷ xs) (suc i) zero v h = refl
  get_elem?-set_ne (x ∷ xs) (suc i) (suc j) v h = get_elem?-set_ne xs i j v (λ e. h (ap suc e))

  pub get_elem?-append_left :
      (xs ys : List A) (i : ℕ) {v : A} → get_elem? xs i ≡ some v → get_elem? (xs ++ ys) i ≡ some v
  get_elem?-append_left [] ys i h = cc
  get_elem?-append_left (x ∷ xs) ys zero h = h
  get_elem?-append_left (x ∷ xs) ys (suc i) h = get_elem?-append_left xs ys i h

  pub get_elem?-append_length :
      (xs : List A) (v : A) → get_elem? (xs ++ v ∷ []) (length xs) ≡ some v
  get_elem?-append_length [] v = refl
  get_elem?-append_length (x ∷ xs) v = get_elem?-append_length xs v

  -- Writing one entry changes a count by that entry alone.
  pub count-set :
      (p : A → Bool) (xs : List A) (i : ℕ) (v : A) {w : A}
      → get_elem? xs i ≡ some w
      → count p (set xs i v) + (if p w then 1 else 0) ≡ count p xs + (if p v then 1 else 0)
  count-set p [] i v h = absurd (cc)
  count-set p (x ∷ xs) zero v h = ground arith
  count-set p (x ∷ xs) (suc i) v h = omega (arith, count-set p xs i v h)

  pub count-pos :
      (p : A → Bool) (xs : List A) (i : ℕ) {w : A}
      → get_elem? xs i ≡ some w
      → p w ≡ true
      → 0 < count p xs
  count-pos p [] i h e = absurd (cc)
  count-pos p (x ∷ xs) zero h e = ground arith
  count-pos p (x ∷ xs) (suc i) h e = omega (arith, count-pos p xs i h e)

  -- What a read after a write finds.
  pub get_elem?-set_cases :
      (xs : List A) (i j : ℕ) {v w x : A}
      → get_elem? xs i ≡ some w
      → get_elem? (set xs i v) j ≡ some x
      → ((i ≡ j) × (x ≡ v)) ⊎ ((i ≢ j) × (get_elem? xs j ≡ some x))
  get_elem?-set_cases [] i j h k = absurd (cc)
  get_elem?-set_cases (y ∷ ys) zero zero h k = inl (refl, cc)
  get_elem?-set_cases (y ∷ ys) zero (suc j) h k = inr (omega arith, k)
  get_elem?-set_cases (y ∷ ys) (suc i) zero h k = inr (omega arith, k)
  get_elem?-set_cases (y ∷ ys) (suc i) (suc j) h k = elim (get_elem?-set_cases ys i j h k) [
    | inl (e, f) ↦ inl (ap suc e, f)
    | inr (e, f) ↦ inr (omega arith, f)
  ]

  pub get_elem?-append_cases :
      (xs : List A) (v : A) (j : ℕ) {x : A}
      → get_elem? (xs ++ v ∷ []) j ≡ some x
      → (get_elem? xs j ≡ some x) ⊎ ((j ≡ length xs) × (x ≡ v))
  get_elem?-append_cases [] v zero h = inr (refl, cc)
  get_elem?-append_cases [] v (suc j) h = absurd (cc)
  get_elem?-append_cases (y ∷ ys) v zero h = inl h
  get_elem?-append_cases (y ∷ ys) v (suc j) h = elim (get_elem?-append_cases ys v j h) [
    | inl e ↦ inl e
    | inr (e, f) ↦ inr (ap suc e, f)
  ]

  pub length-take : (n : ℕ) (xs : List A) → length (take n xs) ≡ min n (length xs)
  length-take zero xs = omega arith
  length-take (suc n) [] = omega arith
  length-take (suc n) (x ∷ xs) = omega (arith, length-take n xs)
