-- ===== src/Tests/Storage.antt =====
-- The mappings to the attributes of Cloud Storage on one bucket.
use vedro.Prelude.{◌≡◌, refl, String, true, false, none, some, [], ◌∷◌, inl, inr}
use vedro.Prelude.Int.{pos}
use vedro.Errors.{ok}
use vedro.Api.Bucket.{BucketSpec, BucketProperties, zero_bucket, Labels}
use vedro.Capabilities.{elems}
use vedro.Cloud.{BucketAttrs, has_changes}
use vedro.Gcp.Normalization.{desired_properties}
use vedro.Gcp.Patch.{bucket_patch}
use vedro.Gcp.Storage.{
  PublicAccessPrevention, unknown, inherited, enforced, other_prevention, GcsAttrs, to_gcs_attrs,
  from_gcs_attrs,
}
use vedro.Gcp.Storage.Update.{lookup, set_gcs_labels}
use vedro.Gcp.Storage.LabelChanges.{changed_label, set_gcs_labels-lookup}
use vedro.Gcp.Storage.RoundTrip.{kept_properties, to_gcs_attrs-round}
use vedro.Gcp.Storage.Settled.{created-IsSettled}

-- One rule is enabled, and one is not.
abbrev aged_spec : BucketSpec
aged_spec = record zero_bucket.spec {
  storage_class = "Cold";
  public_access_prevention = some true;
  labels = some (("team", "data") ∷ []);
  lifecycle = some (record {
    rules = some (
        record { name = some "old"; enabled = true; age_days = some (pos 30); action = "Delete" }
        ∷ record { name = none; enabled = false; age_days = none; action = "Delete" }
        ∷ []);
  });
}

abbrev aged_attrs : BucketAttrs
aged_attrs = record {
  name = "data";
  location = "eu";
  id = "data";
  properties = some (desired_properties aged_spec);
}

abbrev stored_attrs : GcsAttrs
stored_attrs = record {
  name = "data";
  location = "eu";
  storage_class = "COLDLINE";
  labels = some (("team", "data") ∷ []);
  public_access_prevention = enforced;
  versioning_enabled = false;
  lifecycle = record { type = "Delete"; age_in_days = pos 30 } ∷ [];
  soft_delete_policy = some (pos 604800000000000);
}

abbrev print : PublicAccessPrevention → String
print unknown = "unknown"
print inherited = "inherited"
print enforced = "enforced"
print other_prevention = "other"

aged_attrs-stored : to_gcs_attrs "Delete" aged_attrs ≡ ok stored_attrs
unfolding to_gcs_attrs desired_properties
aged_attrs-stored = refl

to_gcs_attrs-round_example :
    from_gcs_attrs "Delete" print stored_attrs
    ≡ ok (record aged_attrs {
      id = "data";
      properties = some (kept_properties (desired_properties aged_spec));
    })
to_gcs_attrs-round_example =
    to_gcs_attrs-round "Delete" print aged_attrs stored_attrs aged_attrs-stored

created-IsSettled_example :
    (p : BucketProperties) × (from_gcs_attrs "Delete" print stored_attrs
      ≡ ok (record aged_attrs { id = "data"; properties = some p }))
    × (has_changes (bucket_patch p aged_spec) ≡ false)
created-IsSettled_example =
    created-IsSettled "Delete" print aged_spec aged_attrs stored_attrs refl aged_attrs-stored
      (inr (pos 30, refl, refl), (inl refl, tt)) tt

abbrev old_labels : Labels
old_labels = some (("owner", "me") ∷ ("team", "ops") ∷ [])

set_gcs_labels-lookup_example :
    changed_label "team"
      (set_gcs_labels aged_spec.labels old_labels)
      (lookup "team" (elems old_labels))
    ≡ lookup "team" (elems aged_spec.labels)
set_gcs_labels-lookup_example = set_gcs_labels-lookup "team" aged_spec.labels old_labels
