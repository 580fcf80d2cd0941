-- ===== src/Gcp/Gcs/Policies.antt =====
-- The accesses of internal/cloud/gcp/bucket_api.go: the members of roles in the policy of a bucket.
pub mod Granted
use vedro.Prelude.{
  String, Bool, true, false, ◌==◌, Option, none, some, List, contains, if◌then◌else◌,
}
use vedro.Errors.{Error, Result, ok, err, plain, sentinel, wrap, bucket_not_found}
use vedro.Api.Access.{object_reader, object_writer, object_admin, bucket_admin}
use vedro.Cloud.{BucketAccessAttrs}
use vedro.Gcp.Gcs.{GcsService, GcsCalls, ◌>>=◌, pure, read_policy, write_policy}

-- `accessLevelMapping`.
unfoldable pub role_of_level : String → Option String
role_of_level level =
    if level == object_reader
    then some "roles/storage.objectViewer"
    else if level == object_writer
    then some "roles/storage.objectCreator"
    else if level == object_admin
    then some "roles/storage.objectAdmin"
    else if level == bucket_admin
    then some "roles/storage.admin"
    else none

abbrev unmapped_level : Error
unmapped_level = plain "Access level does not map to any gcp role"

module _ {Policy : Type 0} (service : GcsService Policy) where
  abbrev pub policy_error : Error → Error
  policy_error e =
      if service.google_not_found e then sentinel bucket_not_found else wrap "get IAM policy" e

  abbrev pub access_in : BucketAccessAttrs → Policy → Option String → Result Bool
  access_in access p none = err unmapped_level
  access_in access p (some role) = ok (contains (service.members p role) access.principal_id)

  abbrev pub access_got : BucketAccessAttrs → Result Policy → Result Bool
  access_got access (err e) = err (policy_error e)
  access_got access (ok p) = access_in access p (role_of_level access.granted_access)

  -- `gcsAPI.HasAccess`.
  unfoldable pub has_access : BucketAccessAttrs → GcsCalls Policy (Result Bool)
  unfolding read_policy role_of_level contains
  has_access access = do
    answer ← read_policy service access.bucket_name
    pure (access_got access answer)

  abbrev pub policy_saved : Option Error → Option Error
  policy_saved none = none
  policy_saved (some e) =
      if service.google_not_found e
      then some (sentinel bucket_not_found)
      else some (wrap "set IAM policy" e)

  -- What `GrantAccess` and `RevokeAccess` do at the role of the level, with the change of the policy.
  abbrev pub change_at :
      (Policy → String → String → Policy)
      → BucketAccessAttrs
      → Policy
      → Option String
      → GcsCalls Policy (Option Error)
  change_at change access p none = pure (some unmapped_level)
  change_at change access p (some role) = do
    answer ← write_policy service access.bucket_name (change p access.principal_id role)
    pure (policy_saved answer)

  abbrev pub change_in :
      (Policy → String → String → Policy)
      → BucketAccessAttrs
      → Result Policy
      → GcsCalls Policy (Option Error)
  change_in change access (err e) = pure (some (policy_error e))
  change_in change access (ok p) = change_at change access p (role_of_level access.granted_access)

  unfoldable pub change_access :
      (Policy → String → String → Policy) → BucketAccessAttrs → GcsCalls Policy (Option Error)
  unfolding read_policy write_policy role_of_level
  change_access change access = do
    answer ← read_policy service access.bucket_name
    change_in change access answer

  -- `gcsAPI.GrantAccess`.
  unfoldable pub grant_access : BucketAccessAttrs → GcsCalls Policy (Option Error)
  unfolding change_access
  grant_access access = change_access service.add access

  -- `gcsAPI.RevokeAccess`.
  unfoldable pub revoke_access : BucketAccessAttrs → GcsCalls Policy (Option Error)
  unfolding change_access
  revoke_access access = change_access service.remove access
