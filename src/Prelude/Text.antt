-- ===== src/Prelude/Text.antt =====
-- Text as the list of its code points, and the functions of Go's `strings` that the program calls.
use Prim.Native.Nat.{ℕ, zero, suc, ◌/◌, ◌%◌}
use Prim.Native.Char.{code}
use Prim.Native.String
use Prim.Native.String.{String}
use mathlib.Core.Bool.{Bool, true, false, ◌||◌, ◌&&◌, true≢false}
use mathlib.Core.List.{List, [], ◌∷◌}
use mathlib.Core.Path.{◌≡◌, refl, sym, ◌∙◌}
use mathlib.Core.Logic.{inl, inr}
use text.Mathlib.Text.{◌==◌}
use text.Mathlib.TextEquality.{eq_iff}
use vedro.Prelude.Tests.{eqb, ltb, if◌then◌else◌, Bool-cases}

infixr 65 ◌⧺◌
abbrev pub ◌⧺◌ : String → String → String
s ⧺ t = String.◌++◌ s t

-- The code points of a text: its bytes, if it is ASCII.
abbrev pub codes : String → List ℕ
codes String.[] = []
codes (String.◌∷◌ c s) = code c ∷ codes s

-- `strings.HasPrefix(text, prefix)`.
unfoldable pub has_prefix : List ℕ → List ℕ → Bool
has_prefix text [] = true
has_prefix [] (p ∷ prefix) = false
has_prefix (c ∷ text) (p ∷ prefix) = eqb c p && has_prefix text prefix

-- `strings.Contains(text, part)`.
unfoldable pub has_part : List ℕ → List ℕ → Bool
unfolding has_prefix
has_part [] part = has_prefix [] part
has_part (c ∷ text) part = has_prefix (c ∷ text) part || has_part text part

-- Equality of texts is decidable.
unfoldable pub String-discrete : Discrete String
String-discrete s t = elim (Bool-cases (s == t)) [
  | inl same ↦ yes ((eq_iff s t).0 same)
  | inr other ↦ no (λ p. true≢false (sym ((eq_iff s t).1 p) ∙ other))
]

abbrev digit_text : ℕ → String
digit_text n =
    if eqb n 0
    then "0"
    else if eqb n 1
    then "1"
    else if eqb n 2
    then "2"
    else if eqb n 3
    then "3"
    else if eqb n 4
    then "4"
    else if eqb n 5
    then "5"
    else if eqb n 6
    then "6"
    else if eqb n 7
    then "7"
    else if eqb n 8
    then "8"
    else "9"

decimal_from : ℕ → ℕ → String
decimal_from zero n = ""
decimal_from (suc fuel) n =
    let before = decimal_from fuel (n / 10) in
    if ltb n 10 then digit_text n else before ⧺ digit_text (n % 10)

-- A number in decimal digits; the fuel suffices, since n / 10 < n for n ≥ 10.
unfoldable pub decimal : ℕ → String
unfolding decimal_from
decimal n = decimal_from (suc n) n

-- `fmt.Sprintf(template, n)` for a template with one `%d`.
unfoldable pub sprintf_d : String → ℕ → String
unfolding decimal
sprintf_d String.[] n = ""
sprintf_d (String.◌∷◌ c String.[]) n = String.◌∷◌ c ""
sprintf_d (String.◌∷◌ c (String.◌∷◌ d s)) n =
    if eqb (code c) b'%' && eqb (code d) b'd'
    then decimal n ⧺ s
    else String.◌∷◌ c (sprintf_d (String.◌∷◌ d s) n)

sprintf_d_test : sprintf_d "spec.lifecycle.rules[%d].Name" 120 ≡ "spec.lifecycle.rules[120].Name"
unfolding sprintf_d
sprintf_d_test = refl
