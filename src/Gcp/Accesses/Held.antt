-- ===== src/Gcp/Accesses/Held.antt =====
-- Which accesses hold when `EnsureBucketAccess` and `DeleteBucketAccess` return without an error.
use vedro.Prelude.{
  ◌&&◌, ◌==◌, eq_refl, Bool-cases, ◌⊎◌, inl, inr, Bool, true, false, ◌≡◌, ◌≢◌, refl, ◌∙◌, Option,
  none, some, List, ◌∷◌, arith,
}
use vedro.Errors.{Error, ok, is_error, bucket_not_found}
use vedro.Api.Bucket.{Bucket}
use vedro.Api.Access.{BucketAccess, BucketAccessProperties-discrete}
use vedro.Api.Principal.{CloudPrincipal}
use vedro.Cloud.{BucketAccessAttrs}
use vedro.Gcp.Client.{Client, Call, access_has, access_grant, access_revoke, has_access}
use vedro.Gcp.Accesses.{
  wanted, granted, revoked, revoke_if, after_old_has, revoke_changed, revoke_old, after_has,
  grant_wanted, ensure_bucket_access, after_applied_has, delete_bucket_access,
}

-- The same principal at the same level on a bucket of the same name; the id of the bucket is not
-- compared.
abbrev pub same_grant : BucketAccessAttrs → BucketAccessAttrs → Bool
same_grant a x =
    a.bucket_name == x.bucket_name
    && (a.principal_id == x.principal_id && a.granted_access == x.granted_access)

pub same_grant_refl : (a : BucketAccessAttrs) → same_grant a a ≡ true
same_grant_refl a =
    ground (arith, eq_refl a.bucket_name, eq_refl a.principal_id, eq_refl a.granted_access)

-- The client keeps accesses: `HasAccess` tells whether one holds and changes nothing, `GrantAccess`
-- makes the one that it is given hold and no other grant, `RevokeAccess` ends it; in a bucket that is
-- not found no access holds.
pub record KeepsAccesses (client : Client) (holds : List Call → BucketAccessAttrs → Bool)
    : Type 0 where
  pub tells :
      (h : List Call) (a : BucketAccessAttrs) (v : Bool)
      → client.has_access h a ≡ (v, none)
      → holds h a ≡ v
  pub tells_missing :
      (h : List Call) (a : BucketAccessAttrs) (v : Bool) (e : Error)
      → client.has_access h a ≡ (v, some e)
      → is_error e bucket_not_found ≡ true
      → holds h a ≡ false
  pub asks :
      (h : List Call) (a x : BucketAccessAttrs) (answer : Bool × Option Error)
      → holds (access_has x answer ∷ h) a ≡ holds h a
  pub grants :
      (h : List Call) (a : BucketAccessAttrs)
      → client.grant_access h a ≡ none
      → holds (access_grant a none ∷ h) a ≡ true
  pub grants_one :
      (h : List Call) (a x : BucketAccessAttrs)
      → client.grant_access h x ≡ none
      → same_grant a x ≡ false
      → holds (access_grant x none ∷ h) a ≡ holds h a
  pub revokes :
      (h : List Call) (a : BucketAccessAttrs)
      → client.revoke_access h a ≡ none
      → holds (access_revoke a none ∷ h) a ≡ false
  pub revokes_missing :
      (h : List Call) (a : BucketAccessAttrs) (e : Error)
      → client.revoke_access h a ≡ some e
      → is_error e bucket_not_found ≡ true
      → holds (access_revoke a (some e) ∷ h) a ≡ false

module _ (client : Client) (holds : List Call → BucketAccessAttrs → Bool)
    (keeps : KeepsAccesses client holds) where
  revoke_if-ended :
      (got : BucketAccessAttrs) (has : Bool) (h : List Call)
      → (has ≡ false → holds h got ≡ false)
      → (revoke_if client got has h).0 ≡ none
      → holds (revoke_if client got has h).1 got ≡ false
  unfolding revoke_if
  revoke_if-ended got true h q e = ground (arith, keeps.revokes h got)
  revoke_if-ended got false h q e = q refl

  after_old_has-ended :
      (got : BucketAccessAttrs) (answer : Bool × Option Error) (h : List Call)
      → client.has_access h got ≡ answer
      → (after_old_has client got answer (access_has got answer ∷ h)).0 ≡ none
      → holds (after_old_has client got answer (access_has got answer ∷ h)).1 got ≡ false
  unfolding after_old_has
  after_old_has-ended got (has, none) h called e =
      revoke_if-ended got has _
        (λ f. keeps.asks h got got (has, none) ∙ (keeps.tells h got has called ∙ f)) e
  after_old_has-ended got (has, some x) h called e = ground (
    arith,
    keeps.tells_missing h got has x called,
    keeps.asks h got got (has, some x),
    revoke_if-ended got has (access_has got (has, some x) ∷ h),
  )

  revoke_changed-ended :
      (got want : BucketAccessAttrs) (d : Dec (got ≡ want)) (h : List Call)
      → got ≢ want
      → (revoke_changed client got want d h).0 ≡ none
      → holds (revoke_changed client got want d h).1 got ≡ false
  unfolding has_access
  revoke_changed-ended got want (yes same) h other e = absurd (other same)
  revoke_changed-ended got want (no n) h other e = after_old_has-ended got _ h refl e

  granted-held :
      (want attrs : BucketAccessAttrs) (answer : Option Error) (h : List Call)
      → client.grant_access h want ≡ answer
      → granted want answer ≡ ok attrs
      → (attrs ≡ want) × (holds (access_grant want answer ∷ h) want ≡ true)
  granted-held want attrs none h called r = (cc, keeps.grants h want called)
  granted-held want attrs (some e) h called r = cc

  after_has-held :
      (want attrs : BucketAccessAttrs) (answer : Bool × Option Error) (h : List Call)
      → client.has_access h want ≡ answer
      → (after_has client want answer (access_has want answer ∷ h)).0 ≡ ok attrs
      → (attrs ≡ want)
        × (holds (after_has client want answer (access_has want answer ∷ h)).1 want ≡ true)
  unfolding after_has
  after_has-held want attrs (has, some e) h called r = cc
  after_has-held want attrs (true, none) h called r =
      (cc, keeps.asks h want want (true, none) ∙ keeps.tells h want true called)
  after_has-held want attrs (false, none) h called r = granted-held want attrs _ _ refl r

  granted-other :
      (want got attrs : BucketAccessAttrs) (answer : Option Error) (h : List Call)
      → same_grant got want ≡ false
      → client.grant_access h want ≡ answer
      → granted want answer ≡ ok attrs
      → holds (access_grant want answer ∷ h) got ≡ holds h got
  granted-other want got attrs none h other called r = keeps.grants_one h got want called other
  granted-other want got attrs (some e) h other called r = cc r

  after_has-other :
      (want got attrs : BucketAccessAttrs) (answer : Bool × Option Error) (h : List Call)
      → same_grant got want ≡ false
      → (after_has client want answer h).0 ≡ ok attrs
      → holds (after_has client want answer h).1 got ≡ holds h got
  unfolding after_has
  after_has-other want got attrs (has, some e) h other r = refl
  after_has-other want got attrs (true, none) h other r = refl
  after_has-other want got attrs (false, none) h other r =
      granted-other want got attrs _ h other refl r

  grant_wanted-held :
      (want attrs : BucketAccessAttrs) (failed : Option Error) (h : List Call)
      → (grant_wanted client want failed h).0 ≡ ok attrs
      → (failed ≡ none) × (attrs ≡ want) × (holds (grant_wanted client want failed h).1 want ≡ true)
  unfolding grant_wanted has_access
  grant_wanted-held want attrs none h r =
      let (same, held) = after_has-held want attrs _ h refl r in (refl, same, held)
  grant_wanted-held want attrs (some e) h r = cc

  grant_wanted-other :
      (want got attrs : BucketAccessAttrs) (failed : Option Error) (h : List Call)
      → same_grant got want ≡ false
      → (grant_wanted client want failed h).0 ≡ ok attrs
      → holds (grant_wanted client want failed h).1 got ≡ holds h got
  unfolding grant_wanted has_access
  grant_wanted-other want got attrs none h other r =
      after_has-other want got attrs _ _ other r ∙ keeps.asks h got want _
  grant_wanted-other want got attrs (some e) h other r = refl

  -- The access that was applied before is the same grant as the wanted one, or does not hold.
  abbrev pub OldEnded : Option BucketAccessAttrs → BucketAccessAttrs → List Call → Type 0
  OldEnded none want h = Unit
  OldEnded (some old) want h = (same_grant old want ≡ true) ⊎ (holds h old ≡ false)

  OldEnded-if :
      (old want attrs : BucketAccessAttrs) (h : List Call) (d : Dec (old ≡ want))
      → (grant_wanted client want
          (revoke_old client (some old) want h).0
          (revoke_old client (some old) want h).1).0
        ≡ ok attrs
      → OldEnded
          (some old)
          want
          (grant_wanted client want
            (revoke_old client (some old) want h).0
            (revoke_old client (some old) want h).1).1
  unfolding revoke_old
  OldEnded-if old want attrs h (yes same) r = inl (rw same (same_grant_refl want))
  OldEnded-if old want attrs h (no other) r =
      let d = BucketAccessProperties-discrete old want in
      let (failed, h') = revoke_changed client old want d h in
      elim (Bool-cases (same_grant old want)) [
        | inl same ↦ inl same
        | inr distinct ↦ inr (
            grant_wanted-other want old attrs failed h' distinct r
            ∙ revoke_changed-ended old want d h other (grant_wanted-held want attrs failed h' r).0)
      ]

  old_ended :
      (applied : Option BucketAccessAttrs) (want attrs : BucketAccessAttrs) (h : List Call)
      → (grant_wanted client want
          (revoke_old client applied want h).0
          (revoke_old client applied want h).1).0
        ≡ ok attrs
      → OldEnded applied want
          (grant_wanted client want
            (revoke_old client applied want h).0
            (revoke_old client applied want h).1).1
  old_ended none want attrs h r = tt
  old_ended (some old) want attrs h r =
      OldEnded-if old want attrs h (BucketAccessProperties-discrete old want) r

  -- With a client that keeps accesses: when `EnsureBucketAccess` returns without an error, it returns
  -- the access of the principal to the bucket at the level of the spec, that access holds, and the
  -- one applied before does not hold if it names another bucket, principal or level.
  pub ensure_bucket_access-held :
      (b : Bucket) (p : CloudPrincipal) (a : BucketAccess) (attrs : BucketAccessAttrs)
      (h : List Call)
      → (ensure_bucket_access client b p a h).0 ≡ ok attrs
      → (attrs ≡ wanted b p a)
        × (holds (ensure_bucket_access client b p a h).1 (wanted b p a) ≡ true)
        × OldEnded a.status.applied (wanted b p a) (ensure_bucket_access client b p a h).1
  unfolding ensure_bucket_access
  ensure_bucket_access-held b p a attrs h r =
      let (failed, h') = revoke_old client a.status.applied (wanted b p a) h in
      let (none_failed, same, held) = grant_wanted-held (wanted b p a) attrs failed h' r in
      (same, held, old_ended a.status.applied (wanted b p a) attrs h r)

  revoked-ended :
      (applied : BucketAccessAttrs) (answer : Option Error) (h : List Call)
      → client.revoke_access h applied ≡ answer
      → revoked answer ≡ none
      → holds (access_revoke applied answer ∷ h) applied ≡ false
  revoked-ended applied none h called r = keeps.revokes h applied called
  revoked-ended applied (some e) h called r =
      ground (arith, keeps.revokes_missing h applied e called)

  after_applied_has-ended :
      (applied : BucketAccessAttrs) (answer : Bool × Option Error) (h : List Call)
      → client.has_access h applied ≡ answer
      → (after_applied_has client applied answer (access_has applied answer ∷ h)).0 ≡ none
      → holds (after_applied_has client applied answer (access_has applied answer ∷ h)).1 applied
        ≡ false
  unfolding after_applied_has
  after_applied_has-ended applied (has, some e) h called r = ground (
    arith,
    keeps.tells_missing h applied has e called,
    keeps.asks h applied applied (has, some e),
  )
  after_applied_has-ended applied (true, none) h called r = revoked-ended applied _ _ refl r
  after_applied_has-ended applied (false, none) h called r =
      keeps.asks h applied applied (false, none) ∙ keeps.tells h applied false called

  -- With a client that keeps accesses: when `DeleteBucketAccess` returns without an error, the access
  -- that was applied does not hold.
  pub delete_bucket_access-ended :
      (a : BucketAccess) (applied : BucketAccessAttrs) (h : List Call)
      → a.status.applied ≡ some applied
      → (delete_bucket_access client a h).0 ≡ none
      → holds (delete_bucket_access client a h).1 applied ≡ false
  unfolding delete_bucket_access has_access
  delete_bucket_access-ended a applied h e r =
      rw e (after_applied_has-ended applied _ h refl (rw e at r))
