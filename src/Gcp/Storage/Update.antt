-- ===== src/Gcp/Storage/Update.antt =====
-- internal/cloud/gcp/bucket_api.go: the update that a patch of a bucket becomes.
use vedro.Prelude.{
  String, Bool, true, false, ◌==◌, Option, none, some, List, [], ◌∷◌, ◌++◌, ◌⧺◌, if◌then◌else◌, map,
}
use vedro.Errors.{Result, ok, err, plain}
use vedro.Api.Bucket.{BucketLifecycle, Labels, Labels-discrete}
use vedro.Capabilities.{elems}
use vedro.Cloud.{BucketPatch, Change, unset, set}
use vedro.Gcp.Client.{GoText}
use vedro.Gcp.Storage.{
  GcsRule, LabelChange, set_label, delete_label, GcsUpdate, storage_class_of, prevention_of,
  versioning_of, to_gcs_lifecycle, from_cloud_specific,
}

-- The value at a key of a map.
unfoldable pub lookup : String → List (String × String) → Option String
lookup k [] = none
lookup k ((j, v) ∷ m) = if j == k then some v else lookup k m

unfoldable pub has_key : String → List (String × String) → Bool
has_key k [] = false
has_key k ((j, v) ∷ m) = if j == k then true else has_key k m

abbrev pub set_entry : String × String → LabelChange
set_entry (k, v) = set_label k v

-- The loop of `setGCSLabels` over the actual labels.
unfoldable pub deleted_labels : List (String × String) → List (String × String) → List LabelChange
unfolding has_key
deleted_labels desired [] = []
deleted_labels desired ((k, v) ∷ actual) =
    let rest = deleted_labels desired actual in
    if has_key k desired then rest else delete_label k ∷ rest

-- `maps.Equal`, and the two loops of `setGCSLabels`.
abbrev pub label_changes :
    {P : Type 0} → Dec P → List (String × String) → List (String × String) → List LabelChange
label_changes (yes same) desired actual = []
label_changes (no other) desired actual = map set_entry desired ++ deleted_labels desired actual

-- `setGCSLabels`; the update that it is given is never nil.
unfoldable pub set_gcs_labels : Labels → Labels → List LabelChange
unfolding deleted_labels
set_gcs_labels desired actual =
    label_changes (Labels-discrete (elems desired) (elems actual)) (elems desired) (elems actual)

module _ (delete_action : String) (text : GoText) where
  abbrev class_of_value : String → Option String → Result (Option String)
  class_of_value value none =
      err (plain ("bucket storage class " ⧺ text.quote value ⧺ " does not map to GCS"))
  class_of_value value (some class) = ok (some class)

  abbrev changed_class : Change String → Result (Option String)
  changed_class unset = ok none
  changed_class (set value) = class_of_value value (storage_class_of value)

  abbrev rules_or_error : Result (List GcsRule) → Result (Option (List GcsRule))
  rules_or_error (err e) = err e
  rules_or_error (ok rules) = ok (some rules)

  abbrev changed_lifecycle : Change (Option BucketLifecycle) → Result (Option (List GcsRule))
  changed_lifecycle unset = ok none
  changed_lifecycle (set value) = rules_or_error (to_gcs_lifecycle delete_action value)

  abbrev if_set : {A B : Type 0} → (A → B) → Change A → Option B
  if_set f unset = none
  if_set f (set a) = some (f a)

  abbrev changed_labels : Change Labels → Labels → List LabelChange
  changed_labels unset current = []
  changed_labels (set desired) current = set_gcs_labels desired current

  abbrev update_from :
      BucketPatch
      → Labels
      → Result (Option String)
      → Result (Option (List GcsRule))
      → Result GcsUpdate
  update_from patch current (err e) lifecycle = err e
  update_from patch current (ok class) (err e) = err e
  update_from patch current (ok class) (ok rules) = ok (record {
    storage_class = class;
    versioning_enabled = if_set versioning_of patch.versioning;
    public_access_prevention = if_set prevention_of patch.public_access_prevention;
    lifecycle = rules;
    labels = changed_labels patch.labels current;
    soft_delete_policy = if_set from_cloud_specific patch.cloud_specific_config;
  })

  -- `patchGCSBucketAttrs`, of the labels that the bucket has now.
  unfoldable pub patch_gcs_attrs : BucketPatch → Labels → Result GcsUpdate
  unfolding storage_class_of to_gcs_lifecycle set_gcs_labels
  patch_gcs_attrs patch current =
      update_from patch current (changed_class patch.storage_class)
        (changed_lifecycle patch.lifecycle)
