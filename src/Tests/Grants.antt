-- ===== src/Tests/Grants.antt =====
-- The accesses of Google Cloud with the client of internal/cloud/gcp/bucket_api.go, over a service
-- that keeps the policies of buckets in the history.
use vedro.Prelude.{
  ◌≡◌, refl, String, Bool, true, false, some, none, List, [], ◌∷◌, String-discrete, Bool-cases,
}
use vedro.Prelude
use vedro.Errors.{err, sentinel, bucket_not_found}
use vedro.Api.Access.{BucketAccess, zero_bucket_access, BucketAccessProperties-discrete}
use vedro.Api.Principal.{CloudPrincipal, zero_cloud_principal}
use vedro.Cloud.{BucketAccessAttrs}
use vedro.Gcp.Client.{Client, GoText, Call, access_grant}
use vedro.Gcp.Gcs.{GoInt}
use vedro.Gcp.Gcs.Policies.{has_access, grant_access, revoke_access}
use vedro.Gcp.Gcs.Replay.{replay, gcs_client}
use vedro.Gcp.Gcs.Replay.Kept.{gcs_holds, gcs_client-KeepsAccesses}
use vedro.Gcp.Accesses.{wanted, ensure_bucket_access, delete_bucket_access}
use vedro.Gcp.Accesses.Held.{
  KeepsAccesses, OldEnded, ensure_bucket_access-held, delete_bucket_access-ended,
}
use vedro.Tests.Fixtures.{deleted_bucket}
use vedro.Tests.Gcs.{
  service, held_in, service-KeepsBucketPolicies, service-MissesBuckets, pairs_in, members_of,
  without,
}

abbrev plain : GoText
plain = record { to_upper = λ s. s; quote = λ s. s }

abbrev zeros : GoInt
zeros = record { format_int = λ n. "0"; parse_int = λ s. err (sentinel bucket_not_found) }

abbrev gcs : Client
gcs = gcs_client service "Delete" "project" (λ p. "inherited") plain zeros

abbrev holds : List Call → BucketAccessAttrs → Bool
holds =
    gcs_holds service held_in service-KeepsBucketPolicies service-MissesBuckets "Delete" "project"
      (λ p. "inherited") plain zeros

gcs-KeepsAccesses : KeepsAccesses gcs holds
gcs-KeepsAccesses =
    gcs_client-KeepsAccesses service held_in service-KeepsBucketPolicies service-MissesBuckets
      "Delete" "project" (λ p. "inherited") plain zeros

abbrev old_access : BucketAccessAttrs
old_access = record {
  bucket_name = "data";
  bucket_id = "data";
  principal_id = "robot";
  granted_access = "ObjectReader";
}

abbrev robot : CloudPrincipal
robot = record zero_cloud_principal {
  status = record zero_cloud_principal.status { external_id = "robot" };
}

abbrev raised_access : BucketAccess
raised_access = record zero_bucket_access {
  spec = record zero_bucket_access.spec { access = record { level = "ObjectAdmin" } };
  status = record zero_bucket_access.status { applied = some old_access };
}

ensure_bucket_access-held_example :
    (record old_access { granted_access = "ObjectAdmin" }
      ≡ wanted deleted_bucket robot raised_access)
    × (holds
          (ensure_bucket_access gcs deleted_bucket robot raised_access
            (access_grant old_access none ∷ [])).1
          (wanted deleted_bucket robot raised_access)
        ≡ true)
    × OldEnded gcs holds gcs-KeepsAccesses
        (some old_access)
        (wanted deleted_bucket robot raised_access)
        (ensure_bucket_access gcs deleted_bucket robot raised_access
          (access_grant old_access none ∷ [])).1
unfolding ensure_bucket_access replay has_access grant_access revoke_access pairs_in members_of
    without Prelude.contains BucketAccessProperties-discrete String-discrete Bool-cases
ensure_bucket_access-held_example =
    ensure_bucket_access-held gcs holds gcs-KeepsAccesses deleted_bucket robot raised_access
      (record old_access { granted_access = "ObjectAdmin" }) (access_grant old_access none ∷ [])
      refl

delete_bucket_access-ended_example :
    holds (delete_bucket_access gcs raised_access (access_grant old_access none ∷ [])).1 old_access
    ≡ false
unfolding delete_bucket_access replay has_access grant_access revoke_access pairs_in members_of
    without Prelude.contains BucketAccessProperties-discrete String-discrete Bool-cases
delete_bucket_access-ended_example =
    delete_bucket_access-ended gcs holds gcs-KeepsAccesses raised_access old_access
      (access_grant old_access none ∷ []) refl refl
