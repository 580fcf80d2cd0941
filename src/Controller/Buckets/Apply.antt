-- ===== src/Controller/Buckets/Apply.antt =====
-- The part of `Reconcile` of internal/controller/bucket_controller.go that ensures the bucket.
use vedro.Prelude.{not, Option, none, some, ◌∷◌, is_empty, if◌then◌else◌}
use vedro.Errors.{Result, ok, err, message}
use vedro.Conditions.{
  Condition, condition_true, condition_false, reason_bucket_spec_restricted,
  reason_bucket_unsupported_features, reason_bucket_invalid_spec, reason_bucket_ensure_error,
  reason_bucket_reconciled,
}
use vedro.Api.Meta.{NamespacedName}
use vedro.Api.Provider.{ProviderConfig}
use vedro.Api.Bucket.{Bucket, BucketStatus}
use vedro.Cloud.{BucketAttrs}
use vedro.UsagePolicy.{Decision, Outcome, returns, panics, check_bucket}
use vedro.Capabilities.{validate_bucket_capabilities}
use vedro.Kube.{Resolver}
use vedro.Kube.Events.{M, ◌>>=◌, pure, Provider, external_bucket_ensure}
use vedro.Kube.Environment.{Env}
use vedro.Controller.Finish.{
  Finish, panicked, reconciled, reconcile_error, reconcile_ignore_not_found, copy_condition_state,
  set_state, patch_then, with_cleanup,
}
use vedro.Controller.Setup.{
  ProviderSetup, ProviderSetupIssue, provider_resolve_failed, provider_setting_failed,
  provider_config_invalid, prepare_provider,
}
use vedro.Controller.Patch.{set_bucket_condition, patch_bucket_status}

-- The `switch` on the issue's kind.
abbrev pub finish_issue : ProviderSetupIssue → Finish
finish_issue issue = elim issue.kind [
  | provider_resolve_failed ↦ reconcile_ignore_not_found issue.error
  | provider_setting_failed ↦ reconcile_error issue.error
  | provider_config_invalid ↦ reconciled
]

-- The condition of the ProviderConfig is stamped with the bucket's generation.
abbrev pub stamp : Resolver Bucket → Resolver ProviderConfig → Resolver ProviderConfig
stamp r config = record config {
  condition = record config.condition { observed_generation = r.object.metadata.generation };
}

module _ (env : Env) (name : NamespacedName) where
  -- The final patch of `Reconcile`, with the two conditions and what was applied.
  abbrev pub record_applied :
      Resolver Bucket → Condition → Condition → BucketAttrs → BucketStatus → BucketStatus
  record_applied r config_condition c attrs s = set_bucket_condition env c (
      set_bucket_condition env config_condition (record s {
        external_name = attrs.name;
        external_id = attrs.id;
        location = attrs.location;
        applied = attrs.properties;
        observed_provider = r.object.spec.provider_ref.name;
        unsupported_features = r.object.status.unsupported_features;
      }))

  -- `r.patchStatus` with the unsupported features and one condition, and the return.
  abbrev pub report_features : Resolver Bucket → Condition → Finish → M Finish
  report_features r c finish =
      patch_then
        (patch_bucket_status env name r.object.metadata.generation (λ s.
          set_bucket_condition env c
            (record s { unsupported_features = r.object.status.unsupported_features })))
        finish

  -- `provider.Bucket().EnsureBucket(ctx, bucket.Bucket)`.
  unfoldable pub call_ensure_bucket : Bucket → M (Result BucketAttrs)
  call_ensure_bucket b h =
      let answer = env.ensure_bucket h b in (answer, external_bucket_ensure b answer ∷ h)

  -- What follows the call of `EnsureBucket`.
  unfoldable pub after_ensure :
      Resolver Bucket → Resolver ProviderConfig → Result BucketAttrs → M Finish
  after_ensure r config (err e) =
      report_features r
        (set_state r.condition condition_false reason_bucket_ensure_error (message e))
        (reconcile_error (some e))
  after_ensure r config (ok attrs) =
      patch_then
        (patch_bucket_status env name r.object.metadata.generation (
          record_applied r config.condition
            (set_state r.condition condition_true reason_bucket_reconciled "Bucket Reconciled")
            attrs))
        reconciled

  -- The call of `EnsureBucket` and what follows it.
  unfoldable pub ensure_bucket : Resolver Bucket → Resolver ProviderConfig → M Finish
  unfolding call_ensure_bucket after_ensure
  ensure_bucket r config = do answer ← call_ensure_bucket r.object; after_ensure r config answer

  -- `ValidateBucketSpec` and what follows it.
  unfoldable pub validate_bucket : Resolver Bucket → Resolver ProviderConfig → Provider → M Finish
  unfolding ensure_bucket
  validate_bucket r config provider =
      let result = provider.validate_bucket_spec r.object config.object.spec.type in
      if not result.valid
      then report_features r
          (set_state r.condition condition_false reason_bucket_invalid_spec result.message)
          reconciled
      else ensure_bucket r config

  -- `ValidateBucketCapabilities` and what follows it; the features found are kept in the status.
  unfoldable pub check_features : Resolver Bucket → Resolver ProviderConfig → Provider → M Finish
  unfolding validate_bucket
  check_features r config provider =
      let unsupported = validate_bucket_capabilities provider.capabilities.bucket r.object.spec in
      let r' = record r {
        object = record r.object {
          status = record r.object.status { unsupported_features = unsupported };
        };
      } in
      if not (is_empty unsupported)
      then report_features r'
          (set_state r.condition condition_false reason_bucket_unsupported_features
            "unsupported features found")
          reconciled
      else validate_bucket r' config provider

  -- The decision of the usage policy in `Reconcile`.
  unfoldable pub ensure_decided :
      Resolver Bucket → Resolver ProviderConfig → Provider → Outcome Decision → M Finish
  unfolding check_features
  ensure_decided r config provider panics = pure panicked
  ensure_decided r config provider (returns d) =
      if not d.allowed
      then report_features r
          (set_state r.condition condition_false reason_bucket_spec_restricted d.message) reconciled
      else check_features r config provider

  -- Without an issue there is a provider; the call of a method of a nil one would panic.
  unfoldable pub with_provider :
      Resolver Bucket → Resolver ProviderConfig → Option Provider → M Finish
  unfolding ensure_decided
  with_provider r config none = pure panicked
  with_provider r config (some provider) =
      ensure_decided r config provider
        (check_bucket env.regexp config.object.spec.usage_policy r.object)

  -- The branch of `Reconcile` for an issue with the provider.
  unfoldable pub report_issue :
      Resolver Bucket → Resolver ProviderConfig → ProviderSetupIssue → M Finish
  report_issue r config issue =
      patch_then
        (patch_bucket_status env name r.object.metadata.generation (λ s.
          set_bucket_condition env config.condition
            (set_bucket_condition env (copy_condition_state r.condition config.condition) s)))
        (finish_issue issue)

  -- `Reconcile` once the provider was prepared.
  unfoldable pub reconcile_prepared :
      Resolver Bucket → ProviderSetup × Option ProviderSetupIssue → M Finish
  unfolding with_cleanup with_provider report_issue
  reconcile_prepared r (setup, some issue) =
      with_cleanup env setup.provider (report_issue r (stamp r setup.config) issue)
  reconcile_prepared r (setup, none) =
      with_cleanup env setup.provider (with_provider r (stamp r setup.config) setup.provider)

  -- `Reconcile` once the finalizer is on the bucket.
  unfoldable pub reconcile_active : Resolver Bucket → M Finish
  unfolding prepare_provider reconcile_prepared
  reconcile_active r = do
    prepared ← prepare_provider env r.object.spec.provider_ref
    reconcile_prepared r prepared
