-- ===== src/Validation/Patterns.antt =====
-- The fixed patterns of internal/validation/bucket.go and internal/cloud/gcp/bucket.go, as
-- functions on code points. All are anchored at both ends.
use vedro.Prelude.{
  ℕ, Bool, true, false, ◌&&◌, ◌||◌, leb, eqb, List, [], ◌∷◌, length, Option, none, some,
  if◌then◌else◌,
}

-- [a-z0-9]
unfoldable pub lower_or_digit : ℕ → Bool
lower_or_digit c = leb b'a' c && leb c b'z' || leb b'0' c && leb c b'9'

-- [a-z0-9.-]
unfoldable pub name_inner : ℕ → Bool
unfolding lower_or_digit
name_inner c = lower_or_digit c || eqb c b'.' || eqb c b'-'

-- [a-z0-9._-]
unfoldable pub gcs_inner : ℕ → Bool
unfolding name_inner
gcs_inner c = name_inner c || eqb c b'_'

-- What follows the first character: inner characters, and [a-z0-9] at the end.
unfoldable pub matches_rest : (ℕ → Bool) → List ℕ → Bool
unfolding lower_or_digit
matches_rest inner [] = false
matches_rest inner (c ∷ []) = lower_or_digit c
matches_rest inner (c ∷ d ∷ cs) = inner c && matches_rest inner (d ∷ cs)

-- ^[a-z0-9]I{1,61}[a-z0-9]$ for a class I.
unfoldable pub matches_name : (ℕ → Bool) → List ℕ → Bool
unfolding matches_rest
matches_name inner [] = false
matches_name inner (c ∷ cs) =
    lower_or_digit c && (leb 2 (length cs) && leb (length cs) 62) && matches_rest inner cs

-- `bucketNamePattern` is ^[a-z0-9][a-z0-9.-]{1,61}[a-z0-9]$
unfoldable pub matches_bucket_name : List ℕ → Bool
unfolding matches_name name_inner
matches_bucket_name = matches_name name_inner

-- `gcsNamePattern` is ^[a-z0-9][a-z0-9._-]{1,61}[a-z0-9]$
unfoldable pub matches_gcs_name : List ℕ → Bool
unfolding matches_name gcs_inner
matches_gcs_name = matches_name gcs_inner

-- Where a match of ^[a-z0-9]+(?:-[a-z0-9]+)+$ stands: at the start, in the first word, after a
-- dash, in a later word.
pub data RegionalPlace : Type 0 where
  start first_word after_dash later_word : RegionalPlace

abbrev regional_step : RegionalPlace → Bool → Bool → Option RegionalPlace
regional_step start word dash = if word then some first_word else none
regional_step first_word word dash =
    if word then some first_word else if dash then some after_dash else none
regional_step after_dash word dash = if word then some later_word else none
regional_step later_word word dash =
    if word then some later_word else if dash then some after_dash else none

abbrev regional_end : RegionalPlace → Bool
regional_end later_word = true
regional_end _ = false

unfoldable pub matches_regional_from : RegionalPlace → List ℕ → Bool
unfolding lower_or_digit
matches_regional_from place [] = regional_end place
matches_regional_from place (c ∷ cs) = elim (regional_step place (lower_or_digit c) (eqb c b'-')) [
  | none ↦ false
  | some next ↦ matches_regional_from next cs
]

-- `regionalPattern` is ^[a-z0-9]+(?:-[a-z0-9]+)+$
unfoldable pub matches_regional : List ℕ → Bool
unfolding matches_regional_from
matches_regional = matches_regional_from start

-- Where a match of ^[A-Z]+[0-9]+$ stands: at the start, among the letters, among the digits.
pub data DualPlace : Type 0 where
  origin letters digits : DualPlace

abbrev dual_step : DualPlace → Bool → Bool → Option DualPlace
dual_step origin upper digit = if upper then some letters else none
dual_step letters upper digit = if upper then some letters else if digit then some digits else none
dual_step digits upper digit = if digit then some digits else none

abbrev dual_end : DualPlace → Bool
dual_end digits = true
dual_end _ = false

unfoldable pub matches_dual_from : DualPlace → List ℕ → Bool
matches_dual_from place [] = dual_end place
matches_dual_from place (c ∷ cs) =
    elim (dual_step place (leb b'A' c && leb c b'Z') (leb b'0' c && leb c b'9')) [
      | none ↦ false
      | some next ↦ matches_dual_from next cs
    ]

-- `dualRegionPattern` is ^[A-Z]+[0-9]+$
unfoldable pub matches_dual_region : List ℕ → Bool
unfolding matches_dual_from
matches_dual_region = matches_dual_from origin

-- Where a match of ^[^@\s]+@[^@\s]+\.[^@\s]+$ stands: at the start, before the @, after it, in the
-- domain, after a dot of it that is not its first character, after what follows that dot.
pub data EmailPlace : Type 0 where
  email_start local_part after_at in_domain after_dot complete : EmailPlace

-- The step on a character that is neither an @ nor a space; whether it is a dot.
abbrev email_step : EmailPlace → Bool → EmailPlace
email_step email_start dot = local_part
email_step local_part dot = local_part
email_step after_at dot = in_domain
email_step in_domain dot = if dot then after_dot else in_domain
email_step after_dot dot = complete
email_step complete dot = complete

abbrev email_at : EmailPlace → Option EmailPlace
email_at local_part = some after_at
email_at _ = none

abbrev email_end : EmailPlace → Bool
email_end complete = true
email_end _ = false

-- [\t\n\f\r ]
unfoldable pub is_space : ℕ → Bool
is_space c = eqb c 9 || eqb c 10 || eqb c 12 || eqb c 13 || eqb c 32

unfoldable pub matches_email_from : EmailPlace → List ℕ → Bool
unfolding is_space
matches_email_from place [] = email_end place
matches_email_from place (c ∷ cs) =
    if is_space c
    then false
    else if eqb c b'@'
    then elim (email_at place) [ none ↦ false | some next ↦ matches_email_from next cs ]
    else matches_email_from (email_step place (eqb c b'.')) cs

-- `EmailPattern` of internal/validation/principal.go.
unfoldable pub matches_email : List ℕ → Bool
unfolding matches_email_from
matches_email = matches_email_from email_start
