-- ===== src/Gcp/Gcs/Api.antt =====
-- The buckets and the objects of internal/cloud/gcp/bucket_api.go, a `cloud.BucketAPI`.
use vedro.Prelude.{String, ◌⧺◌, Option, none, some, List, [], ◌∷◌, if◌then◌else◌}
use vedro.Prelude.Int.{ℤ}
use vedro.Errors.{Error, Result, ok, err, sentinel, wrap, bucket_not_found, bucket_object_not_found}
use vedro.Api.Bucket.{BucketProperties, Labels}
use vedro.Cloud.{BucketAttrs, BucketPatch, ObjectVersion}
use vedro.Gcp.Client.{GoText}
use vedro.Gcp.Storage.{PublicAccessPrevention, GcsAttrs, GcsUpdate, from_gcs_attrs, to_gcs_attrs}
use vedro.Gcp.Storage.Update.{patch_gcs_attrs}
use vedro.Gcp.Gcs.{
  GcsObject, GcsService, GcsCalls, GoInt, ◌>>=◌, pure, read_attrs, create, update, list_objects,
  remove_object, remove_bucket,
}

-- The action of Google's client, and how its preventions are printed.
module _ {Policy : Type 0} (service : GcsService Policy) (delete_action : String)
    (print : PublicAccessPrevention → String) where
  abbrev pub attrs_got : Result GcsAttrs → Result BucketAttrs
  attrs_got (ok attrs) = from_gcs_attrs delete_action print attrs
  attrs_got (err e) = if service.google_not_found e then err (sentinel bucket_not_found) else err e

  -- `gcsAPI.GetBucket`.
  unfoldable pub get_bucket : String → GcsCalls Policy (Result BucketAttrs)
  unfolding read_attrs from_gcs_attrs
  get_bucket name = do answer ← read_attrs service name; pure (attrs_got answer)

  abbrev pub attrs_updated : Result GcsAttrs → Result BucketAttrs
  attrs_updated (ok attrs) = from_gcs_attrs delete_action print attrs
  attrs_updated (err e) = err e

  abbrev pub update_with : String → Result GcsUpdate → GcsCalls Policy (Result BucketAttrs)
  update_with name (err e) = pure (err e)
  update_with name (ok changes) = do
    answer ← update service name changes
    pure (attrs_updated answer)

  -- `GetBucket` always answers with properties.
  abbrev labels_of : Option BucketProperties → Labels
  labels_of none = none
  labels_of (some p) = p.labels

  abbrev pub update_current :
      GoText → String → BucketPatch → Result BucketAttrs → GcsCalls Policy (Result BucketAttrs)
  update_current text name patch (err e) = pure (err (wrap "get bucket before patch" e))
  update_current text name patch (ok current) =
      update_with name (patch_gcs_attrs delete_action text patch (labels_of current.properties))

  -- `gcsAPI.UpdateBucket`.
  unfoldable pub update_bucket :
      GoText → String → BucketPatch → GcsCalls Policy (Result BucketAttrs)
  unfolding get_bucket update patch_gcs_attrs
  update_bucket text name patch = do
    current ← get_bucket name
    update_current text name patch current

module _ {Policy : Type 0} (service : GcsService Policy) where
  abbrev pub bucket_made : BucketAttrs → Option Error → Result BucketAttrs
  bucket_made attrs none = ok attrs
  bucket_made attrs (some e) = err e

  abbrev pub create_with :
      String → String → BucketAttrs → Result GcsAttrs → GcsCalls Policy (Result BucketAttrs)
  create_with project name attrs (err e) = pure (err e)
  create_with project name attrs (ok mapped) = do
    answer ← create service project name mapped
    pure (bucket_made attrs answer)

  -- `gcsAPI.CreateBucket`.
  unfoldable pub create_bucket :
      String → String → String → BucketAttrs → GcsCalls Policy (Result BucketAttrs)
  unfolding create to_gcs_attrs
  create_bucket delete_action project name attrs =
      let named = record attrs { id = attrs.name } in
      create_with project name named (to_gcs_attrs delete_action named)

  abbrev pub or_missing : Error → Option Error → Option Error
  or_missing missing none = none
  or_missing missing (some e) = if service.google_not_found e then some missing else some e

  -- `gcsAPI.DeleteBucket`.
  unfoldable pub delete_bucket : String → GcsCalls Policy (Option Error)
  unfolding remove_bucket
  delete_bucket name = do
    answer ← remove_bucket service name
    pure (or_missing (sentinel bucket_not_found) answer)

  abbrev pub delete_version : String → String → Option ℤ → GcsCalls Policy (Option Error)
  delete_version bucket name generation = do
    answer ← remove_object service bucket name generation
    pure (or_missing (sentinel bucket_object_not_found) answer)

  abbrev pub delete_parsed :
      GoText → String → ObjectVersion → String → Result ℤ → GcsCalls Policy (Option Error)
  delete_parsed text bucket o version (ok generation) =
      delete_version bucket o.name (some generation)
  delete_parsed text bucket o version (err e) = pure (
      some
        (wrap ("invalid generation " ⧺ text.quote version ⧺ " for object " ⧺ text.quote o.name) e))

  abbrev pub delete_at :
      GoText → GoInt → String → ObjectVersion → Option String → GcsCalls Policy (Option Error)
  delete_at text ints bucket o none = delete_version bucket o.name none
  delete_at text ints bucket o (some version) =
      delete_parsed text bucket o version (ints.parse_int version)

  -- `gcsAPI.DeleteObject`.
  unfoldable pub delete_object :
      GoText → GoInt → String → ObjectVersion → GcsCalls Policy (Option Error)
  unfolding remove_object
  delete_object text ints bucket o = delete_at text ints bucket o o.version

  abbrev pub version_of : GoInt → GcsObject → ObjectVersion
  version_of ints o = record { name = o.name; version = some (ints.format_int o.generation) }

  abbrev pub listing_ended : Option Error → Option Error
  listing_ended none = none
  listing_ended (some e) = some (wrap "list objects" e)

  abbrev pub stop_or :
      Option Error → GcsCalls Policy (Option Error) → GcsCalls Policy (Option Error)
  stop_or none rest = rest
  stop_or (some e) rest = pure (some e)

  -- The loop of `gcsAPI.ProcessObjects`, at the objects that are left.
  unfoldable pub process_rest :
      GoInt
      → (ObjectVersion → GcsCalls Policy (Option Error))
      → Option Error
      → List GcsObject
      → GcsCalls Policy (Option Error)
  process_rest ints process end [] = pure (listing_ended end)
  process_rest ints process end (o ∷ os) = do
    answer ← process (version_of ints o)
    stop_or answer (process_rest ints process end os)

  -- `gcsAPI.ProcessObjects`.
  unfoldable pub process_objects :
      GoInt
      → String
      → (ObjectVersion → GcsCalls Policy (Option Error))
      → GcsCalls Policy (Option Error)
  unfolding list_objects process_rest
  process_objects ints bucket process = do
    listed ← list_objects service bucket
    process_rest ints process listed.1 listed.0
