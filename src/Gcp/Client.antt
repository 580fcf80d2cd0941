-- ===== src/Gcp/Client.antt =====
-- The calls of internal/cloud/gcp/bucket.go and bucket_access.go: of a `cloud.BucketAPI`, each with
-- its answer. An answer may depend on all the calls made before.
use vedro.Prelude.{String, Bool, Option, List, ◌∷◌}
use vedro.Prelude.Trace.{Trace}
unfoldable pub use vedro.Prelude.Trace.{◌>>=◌, ◌>>◌, pure}
use vedro.Errors.{Error, Result}
use vedro.Cloud.{BucketAttrs, BucketAccessAttrs, BucketPatch, ObjectVersion}

pub data Call : Type 0 where
  bucket_get : String → Result BucketAttrs → Call
  bucket_create : String → BucketAttrs → Result BucketAttrs → Call
  bucket_update : String → BucketPatch → Result BucketAttrs → Call
  objects_process : String → List ObjectVersion × Option Error → Call
  object_delete : String → ObjectVersion → Option Error → Call
  bucket_delete : String → Option Error → Call
  access_has : BucketAccessAttrs → Bool × Option Error → Call
  access_grant : BucketAccessAttrs → Option Error → Call
  access_revoke : BucketAccessAttrs → Option Error → Call

-- `ProcessObjects` answers with the objects that it passed to its argument, in the order in which
-- the worker pool finished with them, and with its error; the argument itself never fails.
pub record Client : Type 0 where
  pub get_bucket : List Call → String → Result BucketAttrs
  pub create_bucket : List Call → String → BucketAttrs → Result BucketAttrs
  pub update_bucket : List Call → String → BucketPatch → Result BucketAttrs
  pub process_objects : List Call → String → List ObjectVersion × Option Error
  pub delete_object : List Call → String → ObjectVersion → Option Error
  pub delete_bucket : List Call → String → Option Error
  pub has_access : List Call → BucketAccessAttrs → Bool × Option Error
  pub grant_access : List Call → BucketAccessAttrs → Option Error
  pub revoke_access : List Call → BucketAccessAttrs → Option Error

-- Go's `strings.ToUpper` and the verb %q, whose tables of Unicode are not in the repository.
pub record GoText : Type 0 where
  pub to_upper : String → String
  pub quote : String → String

-- A computation that makes calls of the client.
abbrev pub Calls : Type 0 → Type 0
Calls = Trace Call

module _ (client : Client) where
  unfoldable pub get_bucket : String → Calls (Result BucketAttrs)
  get_bucket name h = let answer = client.get_bucket h name in (answer, bucket_get name answer ∷ h)

  unfoldable pub create_bucket : String → BucketAttrs → Calls (Result BucketAttrs)
  create_bucket name attrs h =
      let answer = client.create_bucket h name attrs in
      (answer, bucket_create name attrs answer ∷ h)

  unfoldable pub update_bucket : String → BucketPatch → Calls (Result BucketAttrs)
  update_bucket name patch h =
      let answer = client.update_bucket h name patch in
      (answer, bucket_update name patch answer ∷ h)

  unfoldable pub process_objects : String → Calls (List ObjectVersion × Option Error)
  process_objects name h =
      let answer = client.process_objects h name in (answer, objects_process name answer ∷ h)

  unfoldable pub delete_object : String → ObjectVersion → Calls (Option Error)
  delete_object name object h =
      let answer = client.delete_object h name object in
      (answer, object_delete name object answer ∷ h)

  unfoldable pub delete_bucket : String → Calls (Option Error)
  delete_bucket name h =
      let answer = client.delete_bucket h name in (answer, bucket_delete name answer ∷ h)

  unfoldable pub has_access : BucketAccessAttrs → Calls (Bool × Option Error)
  has_access access h =
      let answer = client.has_access h access in (answer, access_has access answer ∷ h)

  unfoldable pub grant_access : BucketAccessAttrs → Calls (Option Error)
  grant_access access h =
      let answer = client.grant_access h access in (answer, access_grant access answer ∷ h)

  unfoldable pub revoke_access : BucketAccessAttrs → Calls (Option Error)
  revoke_access access h =
      let answer = client.revoke_access h access in (answer, access_revoke access answer ∷ h)
