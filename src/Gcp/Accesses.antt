-- ===== src/Gcp/Accesses.antt =====
-- `BucketAccess.EnsureBucketAccess` and `DeleteBucketAccess` of internal/cloud/gcp/bucket_access.go.
pub mod Held
use vedro.Prelude.{String, Bool, not, ◌≡◌, Option, none, some, if◌then◌else◌}
use vedro.Errors.{Error, Result, ok, err, wrap, is_error, bucket_not_found}
use vedro.Api.Bucket.{Bucket}
use vedro.Api.Access.{BucketAccess, BucketAccessProperties, BucketAccessProperties-discrete}
use vedro.Api.Principal.{CloudPrincipal}
use vedro.Cloud.{BucketAccessAttrs}
use vedro.Gcp.Client.{Client, Calls, ◌>>=◌, pure, has_access, grant_access, revoke_access}

-- The access that is wanted.
unfoldable pub wanted : Bucket → CloudPrincipal → BucketAccess → BucketAccessAttrs
wanted b p a = record {
  bucket_name = b.status.external_name;
  bucket_id = b.status.external_id;
  principal_id = p.status.external_id;
  granted_access = a.spec.access.level;
}

-- `if err != nil { return fmt.Errorf("m: %w", err) }; return nil`.
abbrev pub wrapped_error : String → Option Error → Option Error
wrapped_error m none = none
wrapped_error m (some e) = some (wrap m e)

abbrev pub granted : BucketAccessAttrs → Option Error → Result BucketAccessAttrs
granted want none = ok want
granted want (some e) = err (wrap "granting access to principal failed" e)

-- A revocation that finds no bucket has nothing left to do.
abbrev pub revoked : Option Error → Option Error
revoked none = none
revoked (some e) =
    if is_error e bucket_not_found
    then none
    else some (wrap "revoke access from principal failed" e)

module _ (client : Client) where
  -- The revocation of the access that was applied before.
  unfoldable pub revoke_if : BucketAccessAttrs → Bool → Calls (Option Error)
  unfolding revoke_access
  revoke_if got has =
      if has
      then (do
        answer ← revoke_access client got
        pure (wrapped_error "revoke access from principal failed" answer))
      else pure none

  -- What follows the first `HasAccess`.
  unfoldable pub after_old_has : BucketAccessAttrs → Bool × Option Error → Calls (Option Error)
  unfolding revoke_if
  after_old_has got (has, none) = revoke_if got has
  after_old_has got (has, some e) =
      if not (is_error e bucket_not_found)
      then pure (some (wrap "has access check failed" e))
      else revoke_if got has

  abbrev revoke_changed : (got want : BucketAccessAttrs) → Dec (got ≡ want) → Calls (Option Error)
  revoke_changed got want (yes same) = pure none
  revoke_changed got want (no other) = do answer ← has_access client got; after_old_has got answer

  -- The first part of `EnsureBucketAccess`: what was applied is revoked if it is not what is wanted.
  unfoldable pub revoke_old :
      Option BucketAccessProperties → BucketAccessAttrs → Calls (Option Error)
  unfolding has_access after_old_has
  revoke_old none want = pure none
  revoke_old (some got) want = revoke_changed got want (BucketAccessProperties-discrete got want)

  -- What follows the second `HasAccess`.
  unfoldable pub after_has :
      BucketAccessAttrs → Bool × Option Error → Calls (Result BucketAccessAttrs)
  unfolding grant_access
  after_has want (has, some e) = pure (err (wrap "has access check failed" e))
  after_has want (has, none) =
      if not has
      then (do answer ← grant_access client want; pure (granted want answer))
      else pure (ok want)

  -- The second part of `EnsureBucketAccess`.
  unfoldable pub grant_wanted : BucketAccessAttrs → Option Error → Calls (Result BucketAccessAttrs)
  unfolding has_access after_has
  grant_wanted want (some e) = pure (err e)
  grant_wanted want none = do answer ← has_access client want; after_has want answer

  -- `EnsureBucketAccess`.
  unfoldable pub ensure_bucket_access :
      Bucket → CloudPrincipal → BucketAccess → Calls (Result BucketAccessAttrs)
  unfolding revoke_old grant_wanted wanted
  ensure_bucket_access b p a = do
    failed ← revoke_old a.status.applied (wanted b p a)
    grant_wanted (wanted b p a) failed

  -- What follows `HasAccess` in `DeleteBucketAccess`.
  unfoldable pub after_applied_has : BucketAccessAttrs → Bool × Option Error → Calls (Option Error)
  unfolding revoke_access
  after_applied_has applied (has, some e) =
      if is_error e bucket_not_found
      then pure none
      else pure (some (wrap "has access check failed" e))
  after_applied_has applied (has, none) =
      if has then (do answer ← revoke_access client applied; pure (revoked answer)) else pure none

  abbrev delete_applied : Option BucketAccessProperties → Calls (Option Error)
  unfolding has_access after_applied_has
  delete_applied none = pure none
  delete_applied (some applied) = do
    answer ← has_access client applied
    after_applied_has applied answer

  -- `DeleteBucketAccess`.
  unfoldable pub delete_bucket_access : BucketAccess → Calls (Option Error)
  unfolding delete_applied
  delete_bucket_access a = delete_applied a.status.applied
