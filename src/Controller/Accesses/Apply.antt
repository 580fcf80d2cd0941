-- ===== src/Controller/Accesses/Apply.antt =====
-- `reconcileBucketAccess` of internal/controller/bucket_access_controller.go.
use vedro.Prelude.{not, is_empty, Option, none, some, ◌∷◌, if◌then◌else◌}
use vedro.Errors.{Result, ok, err, message}
use vedro.Conditions.{
  Condition, condition_true, condition_false, reason_bucket_access_spec_restricted,
  reason_bucket_access_unsupported_features, reason_bucket_access_ensure_error,
  reason_bucket_access_reconciled,
}
use vedro.Api.Meta.{NamespacedName}
use vedro.Api.Provider.{ProviderConfig}
use vedro.Api.Bucket.{Bucket}
use vedro.Api.Access.{BucketAccess, BucketAccessStatus}
use vedro.Api.Principal.{CloudPrincipal}
use vedro.Cloud.{BucketAccessAttrs}
use vedro.UsagePolicy.{Decision, check_bucket_access}
use vedro.Capabilities.{validate_bucket_access_capabilities}
use vedro.Kube.{Resolver}
use vedro.Kube.Events.{M, ◌>>=◌, pure, Provider, external_access_ensure}
use vedro.Kube.Environment.{Env}
use vedro.Controller.Finish.{
  Finish, panicked, reconciled, reconcile_error, copy_condition_state, set_state, patch_then,
  with_cleanup,
}
use vedro.Controller.Setup.{ProviderSetup, ProviderSetupIssue, prepare_provider}
use vedro.Controller.Patch.{set_access_condition, patch_access_status}
use vedro.Controller.Buckets.Apply.{finish_issue}

-- The four resolvers of `reconcileBucketAccess`: of the access, its bucket, its principal and the
-- ProviderConfig.
pub record Resolved : Type 0 where
  pub access : Resolver BucketAccess
  pub bucket : Resolver Bucket
  pub principal : Resolver CloudPrincipal
  pub config : Resolver ProviderConfig

-- The condition of the ProviderConfig is stamped with the access's generation.
abbrev pub stamp_config : Resolver BucketAccess → Resolver ProviderConfig → Resolver ProviderConfig
stamp_config r config = record config {
  condition = record config.condition { observed_generation = r.object.metadata.generation };
}

abbrev pub with_access_condition : Resolved → Condition → Resolved
with_access_condition x c = record x { access = record x.access { condition = c } }

module _ (env : Env) (name : NamespacedName) where
  -- The four calls of `SetStatusCondition` that most patches make.
  abbrev pub four_conditions : Resolved → BucketAccessStatus → BucketAccessStatus
  four_conditions x s = set_access_condition env x.principal.condition (
      set_access_condition env x.access.condition (
        set_access_condition env x.config.condition
          (set_access_condition env x.bucket.condition s)))

  -- `r.patchStatus` with the unsupported features and the four conditions, and the return.
  abbrev pub report_resolved : Resolved → Finish → M Finish
  report_resolved x finish =
      patch_then
        (patch_access_status env name x.access.object.metadata.generation (λ s.
          four_conditions x
            (record s { unsupported_features = x.access.object.status.unsupported_features })))
        finish

  -- The final patch: what was applied, and the conditions in another order.
  abbrev pub record_access : Resolved → BucketAccessAttrs → BucketAccessStatus → BucketAccessStatus
  record_access x attrs s = set_access_condition env x.config.condition (
      set_access_condition env x.bucket.condition (
        set_access_condition env x.principal.condition (
          set_access_condition env x.access.condition (record s {
            unsupported_features = x.access.object.status.unsupported_features;
            observed_provider = x.bucket.object.spec.provider_ref.name;
            applied = some attrs;
          }))))

  -- `provider.Access().EnsureBucketAccess(...)`.
  unfoldable pub call_ensure_access :
      Bucket → CloudPrincipal → BucketAccess → M (Result BucketAccessAttrs)
  call_ensure_access b p a h =
      let answer = env.ensure_access h b p a in (answer, external_access_ensure b p a answer ∷ h)

  -- What follows the call of `EnsureBucketAccess`.
  unfoldable pub after_access_ensure : Resolved → Result BucketAccessAttrs → M Finish
  after_access_ensure x (err e) =
      report_resolved
        (with_access_condition x (
          set_state x.access.condition condition_false reason_bucket_access_ensure_error
            (message e)))
        (reconcile_error (some e))
  after_access_ensure x (ok attrs) =
      let done = with_access_condition x (
        set_state x.access.condition condition_true reason_bucket_access_reconciled
          "BucketAccess Reconciled") in
      patch_then
        (patch_access_status env name x.access.object.metadata.generation
          (record_access done attrs))
        reconciled

  -- The call of `EnsureBucketAccess` and what follows it.
  unfoldable pub ensure_access : Resolved → M Finish
  unfolding call_ensure_access after_access_ensure
  ensure_access x = do
    answer ← call_ensure_access x.bucket.object x.principal.object x.access.object
    after_access_ensure x answer

  -- `ValidateBucketAccessCapabilities` and what follows it.
  unfoldable pub check_access_features : Resolved → Provider → M Finish
  unfolding ensure_access
  check_access_features x provider =
      let r = x.access in
      let unsupported =
        validate_bucket_access_capabilities provider.capabilities.bucket_access r.object.spec in
      let x' = record x {
        access = record r {
          object = record r.object {
            status = record r.object.status { unsupported_features = unsupported };
          };
        };
      } in
      if not (is_empty unsupported)
      then report_resolved
          (with_access_condition x' (
            set_state r.condition condition_false reason_bucket_access_unsupported_features
              "unsupported features found"))
          reconciled
      else ensure_access x'

  -- The decision of the usage policy, and what follows it. Without an issue there is a provider; the
  -- call of a method of a nil one would panic.
  unfoldable pub access_decided : Resolved → Option Provider → Decision → M Finish
  unfolding check_access_features
  access_decided x provider d =
      if not d.allowed
      then report_resolved
          (with_access_condition x (
            set_state x.access.condition condition_false reason_bucket_access_spec_restricted
              d.message))
          reconciled
      else elim provider [ none ↦ pure panicked | some p ↦ check_access_features x p ]

  -- The branch for an issue with the provider; the unsupported features are not written.
  unfoldable pub report_access_issue : Resolved → ProviderSetupIssue → M Finish
  report_access_issue x issue =
      let c = copy_condition_state x.access.condition x.config.condition in
      patch_then
        (patch_access_status env name x.access.object.metadata.generation
          (four_conditions (with_access_condition x c)))
        (finish_issue issue)

  -- `reconcileBucketAccess` once the provider was prepared.
  unfoldable pub reconcile_access_prepared :
      Resolver BucketAccess
      → Resolver Bucket
      → Resolver CloudPrincipal
      → ProviderSetup × Option ProviderSetupIssue
      → M Finish
  unfolding with_cleanup access_decided report_access_issue
  reconcile_access_prepared r b p (setup, some issue) =
      let config = stamp_config r setup.config in
      with_cleanup env setup.provider (
        report_access_issue (record { access = r; bucket = b; principal = p; config = config })
          issue)
  reconcile_access_prepared r b p (setup, none) =
      let config = stamp_config r setup.config in
      with_cleanup env setup.provider (
        access_decided (record { access = r; bucket = b; principal = p; config = config })
          setup.provider (check_bucket_access config.object.spec.usage_policy r.object))

  -- `reconcileBucketAccess`.
  unfoldable pub reconcile_bucket_access :
      Resolver BucketAccess → Resolver Bucket → Resolver CloudPrincipal → M Finish
  unfolding prepare_provider reconcile_access_prepared
  reconcile_bucket_access r b p = do
    prepared ← prepare_provider env b.object.spec.provider_ref
    reconcile_access_prepared r b p prepared
