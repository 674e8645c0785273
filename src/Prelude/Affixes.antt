-- ===== src/Prelude/Affixes.antt =====
-- Prefixes, and splitting a text at a separator.
use Prim.Native.Nat.{ℕ}
use mathlib.Core.Path.{◌≡◌, refl, ap, sym, ◌∙◌}
use mathlib.Core.Bool.{Bool, true, false, ◌&&◌}
use mathlib.Core.List.{[], ◌∷◌, ◌++◌}
use mathlib.Core.Option.{Option, none, some}
use native.Mathlib.Omega.{arith}
use onlyboxes.Prelude.Tests.{◌==◌, if◌then◌else◌}
use onlyboxes.Prelude.Texts.{
  Text, is_space, is_empty, trim_left, trim_right, trim_space, keep, trim_right_idem,
}

-- `strings.HasPrefix`
unfoldable pub has_prefix : Text → Text → Bool
has_prefix [] s = true
has_prefix (c ∷ p) [] = false
has_prefix (c ∷ p) (d ∷ s) = c == d && has_prefix p s

abbrev strip : Text → Text → Text
strip [] s = s
strip (c ∷ p) [] = []
strip (c ∷ p) (d ∷ s) = strip p s

-- `strings.TrimPrefix`
unfoldable pub trim_prefix : Text → Text → Text
trim_prefix p s = if has_prefix p s then strip p s else s

-- The two sides of the first separator.
unfoldable pub cut : ℕ → Text → Option (Text × Text)
cut sep [] = none
cut sep (c ∷ s) =
    if c == sep
    then some ([], s)
    else elim (cut sep s) [ none ↦ none | some (a, b) ↦ some (c ∷ a, b) ]

abbrev pub contains : ℕ → Text → Bool
contains sep [] = false
contains sep (c ∷ s) = if c == sep then true else contains sep s

pub cut-append :
    (sep : ℕ) (a b : Text) → contains sep a ≡ false → cut sep (a ++ sep ∷ b) ≡ some (a, b)
unfolding cut
cut-append sep [] b h = ground arith
cut-append sep (c ∷ a) b h = ground (arith, cut-append sep a b)

pub has_prefix-append : (p s : Text) → has_prefix p (p ++ s) ≡ true
unfolding has_prefix
has_prefix-append [] s = refl
has_prefix-append (c ∷ p) s = ground (arith, has_prefix-append p s)

strip-append : (p s : Text) → strip p (p ++ s) ≡ s
strip-append [] s = refl
strip-append (c ∷ p) s = strip-append p s

pub trim_prefix-append : (p s : Text) → trim_prefix p (p ++ s) ≡ s
unfolding trim_prefix
trim_prefix-append p s = ground (arith, has_prefix-append p s, strip-append p s)

pub has_prefix-append_left : (q p s : Text) → has_prefix (q ++ p) (q ++ s) ≡ has_prefix p s
unfolding has_prefix
has_prefix-append_left [] p s = refl
has_prefix-append_left (c ∷ q) p s = ground (arith, has_prefix-append_left q p s)

-- A field that ends with a separator is a prefix of another only if the two are the same.
pub field_prefix :
    (sep : ℕ) (a b s : Text)
    → contains sep a ≡ false
    → contains sep b ≡ false
    → has_prefix (a ++ sep ∷ []) (b ++ sep ∷ s) ≡ true
    → a ≡ b
unfolding has_prefix
field_prefix sep [] [] s h k p = refl
field_prefix sep [] (d ∷ b) s h k p = absurd (ground arith)
field_prefix sep (c ∷ a) [] s h k p = absurd (ground arith)
field_prefix sep (c ∷ a) (d ∷ b) s h k p = ground (arith, field_prefix sep a b s)

-- A text that has no space at either end.
abbrev pub IsTrimmed : Text → Type 0
IsTrimmed s = trim_space s ≡ s

keep-append : (c : ℕ) (r : Text) → is_empty r ≡ false → keep c r ≡ c ∷ r
keep-append c [] h = absurd (cc)
keep-append c (x ∷ r) h = refl

append-is_empty : (a b : Text) → is_empty b ≡ false → is_empty (a ++ b) ≡ false
append-is_empty [] b h = h
append-is_empty (c ∷ a) b h = refl

pub trim_right-append :
    (a b : Text) → trim_right b ≡ b → is_empty b ≡ false → trim_right (a ++ b) ≡ a ++ b
unfolding trim_right
trim_right-append [] b h e = h
trim_right-append (c ∷ a) b h e =
    ap (keep c) (trim_right-append a b h e) ∙ keep-append c (a ++ b) (append-is_empty a b e)

IsTrimmed-trim_right : (s : Text) → IsTrimmed s → trim_right s ≡ s
unfolding trim_space
IsTrimmed-trim_right s h = sym (ap trim_right h) ∙ trim_right_idem (trim_left s) ∙ h

-- What starts with no space and ends with a trimmed part is trimmed.
pub IsTrimmed-append :
    (c : ℕ) (a b : Text)
    → is_space c ≡ false
    → IsTrimmed b
    → is_empty b ≡ false
    → IsTrimmed (c ∷ a ++ b)
unfolding trim_space trim_left
IsTrimmed-append c a b h t e = rw h (trim_right-append (c ∷ a) b (IsTrimmed-trim_right b t) e)
