-- ===== src/Gcp/Storage/LabelChanges.antt =====
-- What the label changes of internal/cloud/gcp/bucket_api.go do to the labels of a bucket.
use vedro.Prelude.{
  String, false, ◌==◌, ◌≡◌, refl, Option, none, some, List, [], ◌∷◌, ◌++◌, if◌then◌else◌, arith,
  map, eq_iff, ap, sym, Bool-cases, inl, inr,
}
use vedro.Api.Bucket.{Labels, Labels-discrete}
use vedro.Capabilities.{elems}
use vedro.Gcp.Storage.{LabelChange, set_label, delete_label}
use vedro.Gcp.Storage.Update.{
  lookup, has_key, set_entry, deleted_labels, label_changes, set_gcs_labels,
}

-- The value of the label `k` after an update, from its value before; no label is changed twice,
-- since the keys of a map are distinct.
unfoldable pub changed_label : String → List LabelChange → Option String → Option String
changed_label k [] old = old
changed_label k (set_label j v ∷ cs) old = if j == k then some v else changed_label k cs old
changed_label k (delete_label j ∷ cs) old = if j == k then none else changed_label k cs old

module _ (k : String) where
  deleted_labels-changed :
      (desired actual : List (String × String)) (old : Option String)
      → has_key k desired ≡ false
      → changed_label k (deleted_labels desired actual) old
        ≡ (if has_key k actual then none else old)
  unfolding changed_label deleted_labels has_key
  deleted_labels-changed desired [] old absent = refl
  deleted_labels-changed desired ((j, v) ∷ actual) old absent =
      let ih = deleted_labels-changed desired actual old absent in
      elim (Bool-cases (j == k)) [
        | inl same ↦
            let missing : has_key j desired ≡ false = rw ((eq_iff j k).0 same) absent in
            ground (arith, missing, same)
        | inr other ↦ ground (arith, ih, other)
      ]

  set_labels-changed :
      (desired : List (String × String)) (cs : List LabelChange) (old : Option String)
      → changed_label k (map set_entry desired ++ cs) old
        ≡ (if has_key k desired then lookup k desired else changed_label k cs old)
  unfolding changed_label has_key lookup
  set_labels-changed [] cs old = refl
  set_labels-changed ((j, v) ∷ desired) cs old = ground (arith, set_labels-changed desired cs old)

  lookup-missing : (m : List (String × String)) → has_key k m ≡ false → lookup k m ≡ none
  unfolding has_key lookup
  lookup-missing [] absent = refl
  lookup-missing ((j, v) ∷ m) absent = ground (arith, lookup-missing m)

  changes-lookup :
      {P : Type 0} (d : Dec P) (desired actual : List (String × String))
      → (P → desired ≡ actual)
      → changed_label k (label_changes d desired actual) (lookup k actual) ≡ lookup k desired
  unfolding changed_label
  changes-lookup (yes same) desired actual equal = ap (lookup k) (sym (equal same))
  changes-lookup (no other) desired actual equal = elim (Bool-cases (has_key k desired)) [
    | inl b ↦
        ground (arith, set_labels-changed desired (deleted_labels desired actual) (lookup k actual))
    | inr b ↦ ground (
      arith,
      set_labels-changed desired (deleted_labels desired actual) (lookup k actual),
      deleted_labels-changed desired actual (lookup k actual),
      lookup-missing desired,
      lookup-missing actual,
    )
  ]

  -- After the update with the changes that `setGCSLabels` makes, each label of the bucket has the
  -- value that is desired, and there is no other label.
  pub set_gcs_labels-lookup :
      (desired actual : Labels)
      → changed_label k (set_gcs_labels desired actual) (lookup k (elems actual))
        ≡ lookup k (elems desired)
  unfolding set_gcs_labels
  set_gcs_labels-lookup desired actual =
      changes-lookup (Labels-discrete (elems desired) (elems actual)) (elems desired) (elems actual)
        (λ e. e)
