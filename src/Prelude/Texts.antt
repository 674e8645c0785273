-- ===== src/Prelude/Texts.antt =====
-- Text as a list of code points, with the functions of Go's `strings` that the code uses.
use Prim.Native.Nat.{ℕ, ◌+◌}
use Prim.Native.Char.{code}
use Prim.Native.String.{String}
use mathlib.Core.Path.{◌≡◌, refl, ap, sym, ◌∙◌}
use mathlib.Core.Logic.{◌↔◌, inl, inr, ◌≢◌}
use mathlib.Core.Bool.{Bool, true, false, ◌&&◌, ◌||◌}
use mathlib.Core.List.{List, [], ◌∷◌, map}
use native.Mathlib.Omega.{arith}
use onlyboxes.Prelude.Tests.{leb, ◌==◌, if◌then◌else◌, Bool-cases}

abbrev pub Text : Type 0
Text = List ℕ

-- The code points of a literal.
abbrev pub codes : String → Text
codes String.[] = []
codes (String.◌∷◌ c s) = code c ∷ codes s

unfoldable pub text_eq : Text → Text → Bool
text_eq [] [] = true
text_eq (x ∷ xs) (y ∷ ys) = x == y && text_eq xs ys
text_eq _ _ = false

pub text_eq→eq : (a b : Text) → text_eq a b ≡ true → a ≡ b
unfolding text_eq
text_eq→eq [] [] h = refl
text_eq→eq [] (y ∷ ys) h = absurd (cc)
text_eq→eq (x ∷ xs) [] h = absurd (cc)
text_eq→eq (x ∷ xs) (y ∷ ys) h = ground (arith, text_eq→eq xs ys)

pub text_eq_refl : (a : Text) → text_eq a a ≡ true
unfolding text_eq
text_eq_refl [] = refl
text_eq_refl (x ∷ xs) = ground (arith, text_eq_refl xs)

pub text_eq_iff : (a b : Text) → (text_eq a b ≡ true) ↔ (a ≡ b)
text_eq_iff a b = (text_eq→eq a b, λ e. rw e (text_eq_refl b))

pub text_eq_ne : (a b : Text) → a ≢ b → text_eq a b ≡ false
text_eq_ne a b h = elim (Bool-cases (text_eq a b)) [
  | inl e ↦ absurd (h (text_eq→eq a b e))
  | inr e ↦ e
]

pub text_dec : (a b : Text) → Dec (a ≡ b)
text_dec a b = elim (Bool-cases (text_eq a b)) [
  | inl e ↦ yes (text_eq→eq a b e)
  | inr e ↦ no (λ h. ground (arith, text_eq_iff a b))
]

abbrev pub is_empty : Text → Bool
is_empty [] = true
is_empty (x ∷ xs) = false

-- `unicode.IsSpace`.
unfoldable pub is_space : ℕ → Bool
is_space c =
    (leb 9 c && leb c 13)
    || c == 32
    || c == 0x85
    || c == 0xa0
    || c == 0x1680
    || (leb 0x2000 c && leb c 0x200a)
    || c == 0x2028
    || c == 0x2029
    || c == 0x202f
    || c == 0x205f
    || c == 0x3000

unfoldable pub trim_left : Text → Text
trim_left [] = []
trim_left (x ∷ xs) = if is_space x then trim_left xs else x ∷ xs

-- One step of `trim_right`, after the rest of the text.
abbrev pub keep : ℕ → Text → Text
keep x [] = if is_space x then [] else x ∷ []
keep x (y ∷ ys) = x ∷ y ∷ ys

unfoldable pub trim_right : Text → Text
trim_right [] = []
trim_right (x ∷ xs) = keep x (trim_right xs)

-- `strings.TrimSpace`.
unfoldable pub trim_space : Text → Text
trim_space s = trim_right (trim_left s)

keep_idem : (x : ℕ) (r : Text) → trim_right r ≡ r → trim_right (keep x r) ≡ keep x r
unfolding trim_right
keep_idem x [] h = ground arith
keep_idem x (y ∷ ys) h = rw h refl

pub trim_right_idem : (s : Text) → trim_right (trim_right s) ≡ trim_right s
unfolding trim_right
trim_right_idem [] = refl
trim_right_idem (x ∷ xs) = keep_idem x (trim_right xs) (trim_right_idem xs)

trim_left-keep : (x : ℕ) (r : Text) → is_space x ≡ false → trim_left (keep x r) ≡ keep x r
unfolding trim_left
trim_left-keep x [] h = ground arith
trim_left-keep x (y ∷ ys) h = ground arith

-- Taking the spaces off the end exposes none at the front.
trim_left-trim_right : (s : Text) → trim_left (trim_right (trim_left s)) ≡ trim_right (trim_left s)
unfolding trim_left
trim_left-trim_right [] = unfold trim_right in refl
trim_left-trim_right (x ∷ xs) = elim (Bool-cases (is_space x)) [
  | inl e ↦ rw e (trim_left-trim_right xs)
  | inr e ↦ rw e (unfold trim_right in trim_left-keep x (trim_right xs) e)
]

pub trim_space_idem : (s : Text) → trim_space (trim_space s) ≡ trim_space s
unfolding trim_space
trim_space_idem s = rw (trim_left-trim_right s) (trim_right_idem (trim_left s))

-- `strings.ToLower` on the ASCII letters; other code points stay.
unfoldable pub lower_code : ℕ → ℕ
lower_code c = if leb b'A' c && leb c b'Z' then c + 32 else c

unfoldable pub to_lower : Text → Text
to_lower = map lower_code

lower_code_idem : (c : ℕ) → lower_code (lower_code c) ≡ lower_code c
unfolding lower_code
lower_code_idem c = ground arith

is_space-lower_code : (c : ℕ) → is_space (lower_code c) ≡ is_space c
unfolding lower_code is_space
is_space-lower_code c = ground arith

to_lower_idem : (s : Text) → to_lower (to_lower s) ≡ to_lower s
unfolding to_lower
to_lower_idem [] = refl
to_lower_idem (c ∷ s) = cc (lower_code_idem c, to_lower_idem s)

trim_left-to_lower : (s : Text) → trim_left (to_lower s) ≡ to_lower (trim_left s)
unfolding trim_left to_lower
trim_left-to_lower [] = refl
trim_left-to_lower (c ∷ s) = elim (Bool-cases (is_space c)) [
  | inl e ↦ rw (is_space-lower_code c, e) (trim_left-to_lower s)
  | inr e ↦ rw (is_space-lower_code c, e) refl
]

keep-to_lower : (c : ℕ) (r : Text) → keep (lower_code c) (to_lower r) ≡ to_lower (keep c r)
unfolding to_lower
keep-to_lower c [] = ground (arith, is_space-lower_code c)
keep-to_lower c (y ∷ ys) = refl

trim_right-to_lower : (s : Text) → trim_right (to_lower s) ≡ to_lower (trim_right s)
unfolding trim_right to_lower
trim_right-to_lower [] = refl
trim_right-to_lower (c ∷ s) =
    ap (keep (lower_code c)) (trim_right-to_lower s) ∙ keep-to_lower c (trim_right s)

pub trim_space-to_lower : (s : Text) → trim_space (to_lower s) ≡ to_lower (trim_space s)
unfolding trim_space
trim_space-to_lower s = ap trim_right (trim_left-to_lower s) ∙ trim_right-to_lower (trim_left s)

-- `strings.TrimSpace(strings.ToLower(s))` twice is once.
pub normalize_idem :
    (s : Text) → trim_space (to_lower (trim_space (to_lower s))) ≡ trim_space (to_lower s)
normalize_idem s =
    ap (λ (t : Text). trim_space (to_lower t)) (trim_space-to_lower s)
    ∙ ap trim_space (to_lower_idem (trim_space s))
    ∙ trim_space-to_lower (trim_space s)
    ∙ ap to_lower (trim_space_idem s)
    ∙ sym (trim_space-to_lower s)
