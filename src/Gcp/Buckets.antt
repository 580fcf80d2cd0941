-- ===== src/Gcp/Buckets.antt =====
-- `Bucket.EnsureBucket` and `Bucket.DeleteBucket` of internal/cloud/gcp/bucket.go.
pub mod Ensured
pub mod Deleted
use vedro.Prelude.{String, ◌⧺◌, Bool, not, ◌==◌, Option, none, some, List, [], ◌∷◌, if◌then◌else◌}
use vedro.Errors.{
  Error, Result, ok, err, plain, wrap, is_error, bucket_not_found, bucket_object_not_found,
}
use vedro.Api.Meta.{deletion_policy_delete}
use vedro.Api.Bucket.{Bucket, BucketProperties}
use vedro.UsagePolicy.{Outcome, returns, panics}
use vedro.Helpers.{bucket_name_from_cr, bucket_name_for_delete}
use vedro.Cloud.{BucketAttrs, BucketPatch, ObjectVersion, has_changes}
use vedro.Gcp.Normalization.{desired_properties, applied_state}
use vedro.Gcp.Patch.{bucket_patch}
use vedro.Gcp.Client.{
  Client, GoText, Calls, ◌>>=◌, pure, get_bucket, create_bucket, update_bucket, process_objects,
  delete_object, delete_bucket,
}

-- `if err != nil { return nil, fmt.Errorf("m: %w", err) }; return attrs, nil`.
abbrev pub wrapped : String → Result BucketAttrs → Result BucketAttrs
wrapped m (ok a) = ok a
wrapped m (err e) = err (wrap m e)

-- The attributes for `CreateBucket`.
unfoldable pub create_attrs : Bucket → BucketAttrs
unfolding desired_properties
create_attrs b = record {
  name = bucket_name_from_cr b;
  location = b.spec.location;
  id = "";
  properties = some (desired_properties b.spec);
}

module _ (client : Client) (text : GoText) where
  -- The end of `EnsureBucket`.
  unfoldable pub apply_changes :
      Bucket → BucketAttrs → BucketPatch → Calls (Outcome (Result BucketAttrs))
  unfolding update_bucket
  apply_changes b attrs patch =
      if has_changes patch
      then (do
        answer ← update_bucket client (bucket_name_from_cr b) patch
        pure (returns (wrapped ("update bucket " ⧺ text.quote (bucket_name_from_cr b)) answer)))
      else pure (returns (ok (applied_state attrs.id attrs.location b)))

  -- The properties of the bucket are read without a test.
  unfoldable pub apply_found :
      Bucket → BucketAttrs → Option BucketProperties → Calls (Outcome (Result BucketAttrs))
  unfolding apply_changes
  apply_found b attrs none = pure panics
  apply_found b attrs (some got) = apply_changes b attrs (bucket_patch got b.spec)

  -- The bucket does not exist.
  unfoldable pub create_missing : Bucket → Calls (Outcome (Result BucketAttrs))
  unfolding create_bucket create_attrs
  create_missing b = do
    answer ← create_bucket client (bucket_name_from_cr b) (create_attrs b)
    pure (returns (wrapped ("create bucket " ⧺ text.quote (bucket_name_from_cr b)) answer))

  -- What follows `GetBucket`.
  unfoldable pub after_get : Bucket → Result BucketAttrs → Calls (Outcome (Result BucketAttrs))
  unfolding apply_found create_missing
  after_get b (err e) =
      if is_error e bucket_not_found
      then create_missing b
      else pure (returns (err (wrap ("get bucket attrs " ⧺ text.quote (bucket_name_from_cr b)) e)))
  after_get b (ok attrs) =
      if not (attrs.location == text.to_upper b.spec.location)
      then pure (
          returns (
            err (
              plain (
                "bucket "
                ⧺ text.quote (bucket_name_from_cr b)
                ⧺ " already exists in location "
                ⧺ text.quote attrs.location
                ⧺ ", desired location is "
                ⧺ text.quote (text.to_upper b.spec.location)))))
      else apply_found b attrs attrs.properties

  -- `EnsureBucket`.
  unfoldable pub ensure_bucket : Bucket → Calls (Outcome (Result BucketAttrs))
  unfolding get_bucket after_get
  ensure_bucket b = do answer ← get_bucket client (bucket_name_from_cr b); after_get b answer

-- The first error of a deletion of an object that was there.
abbrev pub first_error : Option Error → Option Error → Option Error
first_error first none = first
first_error first (some e) =
    if is_error e bucket_object_not_found
    then first
    else elim first [ none ↦ some e | some f ↦ some f ]

-- The return after the deletion of the bucket itself.
abbrev pub bucket_deleted : Option Error → Option Error
bucket_deleted none = none
bucket_deleted (some e) =
    if is_error e bucket_not_found
    then none
    else some (wrap "could not delete bucket because of error" e)

module _ (client : Client) where
  -- The tasks of the worker pool.
  unfoldable pub delete_objects : String → List ObjectVersion → Option Error → Calls (Option Error)
  unfolding delete_object
  delete_objects name [] first = pure first
  delete_objects name (o ∷ os) first = do
    answer ← delete_object client name o
    delete_objects name os (first_error first answer)

  -- What follows `StopWait`.
  unfoldable pub finish_delete : String → Option Error → Option Error → Calls (Option Error)
  unfolding delete_bucket
  finish_delete name (some e) first = pure (some e)
  finish_delete name none (some e) =
      pure (some (wrap "could not delete bucket because object deletion failed" e))
  finish_delete name none none = do answer ← delete_bucket client name; pure (bucket_deleted answer)

  -- The two steps once the objects are listed.
  unfoldable pub delete_listed : String → List ObjectVersion × Option Error → Calls (Option Error)
  unfolding delete_objects finish_delete
  delete_listed name listed = do
    first ← delete_objects name listed.0 none
    finish_delete name listed.1 first

  -- `DeleteBucket`.
  unfoldable pub delete_with_objects : Bucket → Calls (Option Error)
  unfolding process_objects delete_listed
  delete_with_objects b =
      let name = bucket_name_for_delete b in
      if not (b.spec.deletion_policy == deletion_policy_delete)
      then pure none
      else do listed ← process_objects client name; delete_listed name listed
