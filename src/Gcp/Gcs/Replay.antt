-- ===== src/Gcp/Gcs/Replay.antt =====
-- internal/cloud/gcp/bucket_api.go as the client of bucket.go and bucket_access.go: what it answers
-- after a history of its own calls, which is carried out again over the service.
pub mod Levels
pub mod Held
pub mod Changes
pub mod Kept
use vedro.Prelude.{String, Bool, false, Option, none, some, List, [], ◌∷◌, map}
use vedro.Errors.{Error, Result, ok, err}
use vedro.Cloud.{BucketAccessAttrs}
use vedro.Gcp.Client.{
  Client, GoText, Call, bucket_get, bucket_create, bucket_update, objects_process, object_delete,
  bucket_delete, access_has, access_grant, access_revoke,
}
use vedro.Gcp.Storage.{PublicAccessPrevention}
use vedro.Gcp.Gcs.{GcsCall, GcsService, GoInt, list_objects}
use vedro.Gcp.Gcs.Api.{
  get_bucket, update_bucket, create_bucket, delete_bucket, delete_object, version_of, listing_ended,
}
use vedro.Gcp.Gcs.Policies.{has_access, grant_access, revoke_access}

-- The pair that `HasAccess` returns.
abbrev pub has_pair : Result Bool → Bool × Option Error
has_pair (ok has) = (has, none)
has_pair (err e) = (false, some e)

module _ {Policy : Type 0} (service : GcsService Policy) (delete_action project : String)
    (print : PublicAccessPrevention → String) (text : GoText) (ints : GoInt) where
  -- The calls of the service behind the calls of the client.
  unfoldable pub replay : List Call → List (GcsCall Policy)
  unfolding get_bucket create_bucket update_bucket list_objects delete_object delete_bucket
      has_access grant_access revoke_access
  replay [] = []
  replay (bucket_get n answer ∷ h) = (get_bucket service delete_action print n (replay h)).1
  replay (bucket_create n attrs answer ∷ h) =
      (create_bucket service delete_action project n attrs (replay h)).1
  replay (bucket_update n patch answer ∷ h) =
      (update_bucket service delete_action print text n patch (replay h)).1
  replay (objects_process n answer ∷ h) = (list_objects service n (replay h)).1
  replay (object_delete n o answer ∷ h) = (delete_object service text ints n o (replay h)).1
  replay (bucket_delete n answer ∷ h) = (delete_bucket service n (replay h)).1
  replay (access_has a answer ∷ h) = (has_access service a (replay h)).1
  replay (access_grant a answer ∷ h) = (grant_access service a (replay h)).1
  replay (access_revoke a answer ∷ h) = (revoke_access service a (replay h)).1

  -- The pool's argument of `ProcessObjects` never fails, so every object of the listing reaches it.
  abbrev pub gcs_client : Client
  gcs_client = record {
    get_bucket = λ h n. (get_bucket service delete_action print n (replay h)).0;
    create_bucket = λ h n attrs. (create_bucket service delete_action project n attrs (replay h)).0;
    update_bucket =
        λ h n patch. (update_bucket service delete_action print text n patch (replay h)).0;
    process_objects = λ h n.
        let (objects, end) = (list_objects service n (replay h)).0 in
        (map (version_of service ints) objects, listing_ended service end);
    delete_object = λ h n o. (delete_object service text ints n o (replay h)).0;
    delete_bucket = λ h n. (delete_bucket service n (replay h)).0;
    has_access = λ h a. has_pair (has_access service a (replay h)).0;
    grant_access = λ h a. (grant_access service a (replay h)).0;
    revoke_access = λ h a. (revoke_access service a (replay h)).0;
  }
