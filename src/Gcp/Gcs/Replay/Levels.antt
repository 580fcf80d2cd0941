-- ===== src/Gcp/Gcs/Replay/Levels.antt =====
-- The roles of the levels of internal/cloud/gcp/bucket_access.go, each the role of one level only.
use vedro.Prelude.{
  String, true, false, ◌==◌, ◌≡◌, refl, sym, ap, ◌∙◌, some, Bool-cases, inl, inr, arith, eq_iff,
  if◌then◌else◌,
}
use vedro.Api.Access.{object_reader, object_writer, object_admin, bucket_admin}
use vedro.Cloud.{BucketAccessAttrs}
use vedro.Gcp.Accesses.Held.{same_grant}
use vedro.Gcp.Bindings.Pairs.{is_pair}
use vedro.Gcp.Gcs.Policies.{role_of_level}

-- The level that has a role.
abbrev level_of : String → String
level_of role =
    if role == "roles/storage.objectViewer"
    then object_reader
    else if role == "roles/storage.objectCreator"
    then object_writer
    else if role == "roles/storage.objectAdmin"
    then object_admin
    else bucket_admin

level_case :
    (l r role level : String)
    → (l == level) ≡ true
    → some role ≡ some r
    → level_of role ≡ level
    → level_of r ≡ l
level_case l r role level same e back =
    let is_level : l ≡ level = (eq_iff l level).0 same in
    let is_role : role ≡ r = cc e in sym (ap level_of is_role) ∙ back ∙ sym is_level

level_of-role_of_level : (l r : String) → role_of_level l ≡ some r → level_of r ≡ l
unfolding role_of_level
level_of-role_of_level l r e = elim (Bool-cases (l == object_reader)) [
  | inl a ↦ level_case l r "roles/storage.objectViewer" object_reader a (rw a at e) refl
  | inr a ↦ elim (Bool-cases (l == object_writer)) [
    | inl b ↦ level_case l r "roles/storage.objectCreator" object_writer b (rw (a, b) at e) refl
    | inr b ↦ elim (Bool-cases (l == object_admin)) [
      | inl c ↦ level_case l r "roles/storage.objectAdmin" object_admin c (rw (a, b, c) at e) refl
      | inr c ↦ elim (Bool-cases (l == bucket_admin)) [
        | inl d ↦ level_case l r "roles/storage.admin" bucket_admin d (rw (a, b, c, d) at e) refl
        | inr d ↦ absurd (cc (rw (a, b, c, d) at e))
      ]
    ]
  ]
]

-- Two levels do not have the same role.
role_of_level-injective :
    (l k r : String) → role_of_level l ≡ some r → role_of_level k ≡ some r → (l == k) ≡ true
role_of_level-injective l k r el ek =
    (eq_iff l k).1 (sym (level_of-role_of_level l r el) ∙ level_of-role_of_level k r ek)

-- Another grant is in another bucket, or of another role or member.
pub other-pair :
    (a x : BucketAccessAttrs) (role other : String)
    → role_of_level a.granted_access ≡ some role
    → role_of_level x.granted_access ≡ some other
    → same_grant a x ≡ false
    → (a.bucket_name == x.bucket_name) ≡ true
    → is_pair other x.principal_id role a.principal_id ≡ false
other-pair a x role other ra rx distinct near =
    elim (Bool-cases (is_pair other x.principal_id role a.principal_id)) [
      | inr apart ↦ apart
      | inl pair ↦
          let same_role : (other == role) ≡ true = ground (arith, pair) in
          let same_member : (x.principal_id == a.principal_id) ≡ true = ground (arith, pair) in
          let level =
            role_of_level-injective a.granted_access x.granted_access role ra
              (rx ∙ ap some ((eq_iff other role).0 same_role)) in
          let member =
            (eq_iff a.principal_id x.principal_id).1
              (sym ((eq_iff x.principal_id a.principal_id).0 same_member)) in
          absurd (ground (arith, near, level, member, distinct))
    ]
