-- ===== src/Helpers/Member.antt =====
-- `ParseIAMMemberString` of internal/helpers/helpers.go.
use Prim.Native.Char.{Char, code}
use text.Mathlib.TextLemmas.{nil-append, cons-append}
use vedro.Prelude.{
  String, ◌⧺◌, eqb, Option, none, some, ◌≡◌, refl, Bool, false, ◌||◌, arith, if◌then◌else◌, ap,
}

abbrev cons_to : Char → Option (String × String) → Option (String × String)
cons_to c none = none
cons_to c (some (before, after)) = some (String.◌∷◌ c before, after)

-- `strings.SplitN(input, ":", 2)`: `none` when there is one part.
unfoldable pub split_colon : String → Option (String × String)
split_colon String.[] = none
split_colon (String.◌∷◌ c s) = if eqb (code c) b':' then some ("", s) else cons_to c (split_colon s)

abbrev member_of : String → Option (String × String) → String × String
member_of input none = ("", input)
member_of input (some parts) = parts

-- `ParseIAMMemberString`: the principal's type and its name.
unfoldable pub parse_iam_member_string : String → String × String
unfolding split_colon
parse_iam_member_string input = member_of input (split_colon input)

-- The text has a colon.
abbrev pub has_colon : String → Bool
has_colon String.[] = false
has_colon (String.◌∷◌ c s) = eqb (code c) b':' || has_colon s

split_colon-append :
    (kind name : String)
    → has_colon kind ≡ false
    → split_colon (kind ⧺ ":" ⧺ name) ≡ some (kind, name)
unfolding split_colon
split_colon-append String.[] name h = rw nil-append (rw cons-append (rw nil-append))
split_colon-append (String.◌∷◌ c s) name h =
    simp cons-append (ground (arith, split_colon-append s name))

split_colon-none : (s : String) → has_colon s ≡ false → split_colon s ≡ none
unfolding split_colon
split_colon-none String.[] h = refl
split_colon-none (String.◌∷◌ c s) h = ground (arith, split_colon-none s)

-- A member `kind:name`, with no colon in the kind, is parsed into the kind and the name; a text
-- without a colon is parsed into the empty kind and the whole text.
pub parse_iam_member_string-print :
    (kind name : String)
    → has_colon kind ≡ false
    → (parse_iam_member_string (kind ⧺ ":" ⧺ name) ≡ (kind, name))
      × (parse_iam_member_string kind ≡ ("", kind))
unfolding parse_iam_member_string
parse_iam_member_string-print kind name h =
    (ap (member_of _) (split_colon-append kind name h), ap (member_of _) (split_colon-none kind h))
