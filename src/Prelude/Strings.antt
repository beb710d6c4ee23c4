-- ===== src/Prelude/Strings.antt =====
-- Text: a JavaScript string as the list of its UTF-16 code units, with `===` and `toLowerCase`.
-- Lower-casing is that of the letters A to Z: what the program lower-cases is hexadecimal, and
-- SQLite's LOWER folds these letters only.
use Prim.Native.Char.{code}
use Prim.Native.Nat.{ℕ, ◌+◌}
use Prim.Native.String.{String}
use mathlib.Core.Path.{ap₂, refl, ◌≡◌}
use mathlib.Core.Logic.{◌↔◌}
use mathlib.Core.Bool.{Bool, false, true, ◌&&◌}
use mathlib.Core.List.{List, [], map, ◌∷◌}
use native.Mathlib.Omega.{arith}
use cbdc_tokenization_sandbo.Prelude.Tests.{◌==◌, if◌then◌else◌, leb, &&-true, ==_iff}

abbrev pub Text : Type 0
Text = List ℕ

-- A literal, all of whose characters are in the basic plane.
abbrev pub codes : String → Text
codes String.[] = []
codes (String.◌∷◌ c s) = code c ∷ codes s

-- `a === b`
unfoldable pub text_eq : Text → Text → Bool
text_eq [] [] = true
text_eq (x ∷ xs) (y ∷ ys) = (x == y) && text_eq xs ys
text_eq _ _ = false

text_eq→≡ : (s t : Text) → text_eq s t ≡ true → s ≡ t
unfolding text_eq
text_eq→≡ [] [] h = refl
text_eq→≡ [] (y ∷ ys) h = ground arith
text_eq→≡ (x ∷ xs) [] h = ground arith
text_eq→≡ (x ∷ xs) (y ∷ ys) h =
    let both = &&-true (x == y) (text_eq xs ys) h in
    ap₂ ◌∷◌ ((==_iff x y).0 both.0) (text_eq→≡ xs ys both.1)

pub text_eq_refl : (s : Text) → text_eq s s ≡ true
unfolding text_eq
text_eq_refl [] = refl
text_eq_refl (x ∷ xs) = ground (arith, text_eq_refl xs)

pub text_eq_iff : (s t : Text) → (text_eq s t ≡ true) ↔ (s ≡ t)
text_eq_iff s t = (text_eq→≡ s t, λ e. ground (arith, text_eq_refl s))

lower_unit : ℕ → ℕ
lower_unit c = if leb b'A' c && leb c b'Z' then c + 32 else c

-- `s.toLowerCase()` and SQLite's `LOWER(s)`
unfoldable pub to_lower_case : Text → Text
unfolding lower_unit
to_lower_case = map lower_unit

lower_unit_idem : (c : ℕ) → lower_unit (lower_unit c) ≡ lower_unit c
unfolding lower_unit
lower_unit_idem c = ground arith

pub to_lower_case_idem : (s : Text) → to_lower_case (to_lower_case s) ≡ to_lower_case s
unfolding to_lower_case
to_lower_case_idem [] = refl
to_lower_case_idem (c ∷ s) = ap₂ ◌∷◌ (lower_unit_idem c) (to_lower_case_idem s)
