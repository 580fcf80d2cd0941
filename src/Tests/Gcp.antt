-- ===== src/Tests/Gcp.antt =====
-- The provider of Google Cloud with a client that keeps its buckets in the history.
use vedro.Prelude.{
  ◌≡◌, ◌↔◌, ◌&&◌, ◌==◌, eq_refl, refl, String, true, false, Option, none, some, List, [], ◌∷◌,
  if◌then◌else◌, arith, ◌*◌,
}
use vedro.Prelude.Int.{pos}
use vedro.Errors
use vedro.Helpers
use vedro.Errors.{Error, Result, ok, err, sentinel, bucket_not_found, bucket_object_not_found}
use vedro.Api.Bucket.{BucketProperties, BucketLifecycle, BucketCloudSpecificConfig}
use vedro.Cloud.{BucketAttrs, BucketPatch, has_changes}
use vedro.Kube.{any}
use vedro.Gcp.Client.{Client, GoText, Call, bucket_create, bucket_update}
use vedro.Gcp.Normalization.{desired_properties}
use vedro.Gcp.Patch.{bucket_patch, apply_patch, SameProperties, bucket_patch-converges}
use vedro.Gcp.Specs.{validate_gcs_cloud_specific, soft_delete_of}
use vedro.Gcp.Specs.Retention.{KeepsDeleted, validate_gcs_cloud_specific_iff}
use vedro.Gcp.Buckets.{ensure_bucket, delete_with_objects}
use vedro.Gcp.Buckets.Ensured.{KeepsBuckets, IsEnsured, ensure_bucket-IsEnsured}
use vedro.Gcp.Buckets.Deleted.{
  deletions, in_bucket, all, settled, deletes_bucket, delete_with_objects-settled,
}
use vedro.Tests.Fixtures.{active_bucket, deleted_bucket, no_properties}

abbrev ascii : GoText
ascii = record { to_upper = λ s. if s == "eu" then "EU" else s; quote = λ s. s }

abbrev patched_properties : BucketPatch → Option BucketProperties → Option BucketProperties
patched_properties p none = none
patched_properties p (some q) = some (apply_patch p q)

abbrev patched : BucketPatch → Option BucketAttrs → Option BucketAttrs
patched p none = none
patched p (some a) = some (record a { properties = patched_properties p a.properties })

-- The buckets that a history of calls leaves.
unfoldable stored_in : List Call → String → Option BucketAttrs
stored_in [] name = none
stored_in (bucket_create n attrs (ok a) ∷ h) name =
    let rest = stored_in h name in if n == name then some attrs else rest
stored_in (bucket_update n p (ok a) ∷ h) name =
    let rest = stored_in h name in if n == name then patched p rest else rest
stored_in (c ∷ h) name = stored_in h name

abbrev found_or_missing : Option BucketAttrs → Result BucketAttrs
found_or_missing none = err (sentinel bucket_not_found)
found_or_missing (some a) = ok a

abbrev patched_or_missing : Option BucketAttrs → Result BucketAttrs
patched_or_missing none = err (sentinel bucket_not_found)
patched_or_missing (some a) = ok a

-- Three objects, one of which is gone when it is to be deleted.
abbrev store : Client
store = record {
  get_bucket = λ h n. found_or_missing (stored_in h n);
  create_bucket = λ h n attrs. ok attrs;
  update_bucket = λ h n p. patched_or_missing (patched p (stored_in h n));
  process_objects = λ h n. (
    record { name = "a"; version = none }
        ∷ record { name = "b"; version = none }
        ∷ record { name = "c"; version = none }
        ∷ [],
    none,
  );
  delete_object = λ h n o. if o.name == "b" then some (sentinel bucket_object_not_found) else none;
  delete_bucket = λ h n. none;
  has_access = λ h a. (false, none);
  grant_access = λ h a. none;
  revoke_access = λ h a. none;
}

found_or_missing-ok :
    (o : Option BucketAttrs) (a : BucketAttrs) → found_or_missing o ≡ ok a → o ≡ some a
found_or_missing-ok none a e = cc
found_or_missing-ok (some b) a e = cc

same_properties : (p : BucketProperties) → SameProperties p p
same_properties p = record {
  prevention = refl;
  versioning = refl;
  lifecycle = refl;
  storage_class = refl;
  labels = refl;
  cloud_specific_config = refl;
}

store-KeepsBuckets : KeepsBuckets store stored_in
unfolding stored_in
store-KeepsBuckets = record {
  tells = λ h n a e. found_or_missing-ok (stored_in h n) a e;
  asks = λ h n k answer. refl;
  creates =
      λ h n attrs a p e has storable. (attrs, p, ground (arith, eq_refl n), has, same_properties p);
  updates = λ h n p old a q s has e storable. (
    record old { properties = patched_properties p old.properties },
    apply_patch p q,
    ground (arith, eq_refl n, s),
    rw has refl,
    same_properties (apply_patch p q),
  );
}

abbrev warm_properties : BucketProperties
warm_properties = record no_properties { storage_class = "Warm" }

bucket_patch-converges_example :
    SameProperties
      (apply_patch (bucket_patch warm_properties active_bucket.spec) warm_properties)
      (desired_properties active_bucket.spec)
    × ((has_changes (bucket_patch warm_properties active_bucket.spec) ≡ false)
        ↔ SameProperties warm_properties (desired_properties active_bucket.spec))
bucket_patch-converges_example = bucket_patch-converges warm_properties active_bucket.spec

abbrev two_rules : Option BucketLifecycle
two_rules = some (record {
  rules = some (
      record { name = some "old"; enabled = true; age_days = some (pos 30); action = "Delete" }
      ∷ record { name = none; enabled = false; age_days = some (pos 7); action = "Delete" }
      ∷ []);
})

abbrev ten_days : Option BucketCloudSpecificConfig
ten_days = some (record {
  gcp = some (record {
    soft_delete_policy = some (record { retention_duration = pos (10 * 86400000000000) });
  });
  yc = none;
})

validate_gcs_cloud_specific_iff_example :
    (validate_gcs_cloud_specific ten_days ≡ none) ↔ KeepsDeleted (soft_delete_of ten_days)
validate_gcs_cloud_specific_iff_example = validate_gcs_cloud_specific_iff ten_days

abbrev created : BucketAttrs
created = record {
  name = "data";
  location = "";
  id = "";
  properties = some (desired_properties active_bucket.spec);
}

ensure_bucket-IsEnsured_example :
    IsEnsured store ascii stored_in store-KeepsBuckets active_bucket tt tt
      (ensure_bucket store ascii active_bucket []).1
unfolding ensure_bucket stored_in vedro.Errors.is_error vedro.Helpers.bucket_name_from_cr
ensure_bucket-IsEnsured_example =
    ensure_bucket-IsEnsured store ascii stored_in store-KeepsBuckets active_bucket tt tt created []
      refl

delete_with_objects-settled_example :
    (deletions (delete_with_objects store deleted_bucket []).1
      ≡ ("data", record { name = "a"; version = none })
        ∷ ("data", record { name = "b"; version = none })
        ∷ ("data", record { name = "c"; version = none })
        ∷ [])
    × (any deletes_bucket (delete_with_objects store deleted_bucket []).1
        ≡ (true && all settled (delete_with_objects store deleted_bucket []).1))
unfolding in_bucket vedro.Helpers.bucket_name_for_delete
delete_with_objects-settled_example = delete_with_objects-settled store deleted_bucket
