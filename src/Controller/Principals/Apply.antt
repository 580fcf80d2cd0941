-- ===== src/Controller/Principals/Apply.antt =====
-- The part of `Reconcile` of internal/controller/cloudprincipal_controller.go that ensures the
-- principal.
use vedro.Prelude.{not, Option, none, some, ◌∷◌, is_empty, if◌then◌else◌}
use vedro.Errors.{Result, ok, err, message}
use vedro.Conditions.{
  Condition, condition_true, condition_false, reason_cloud_principal_spec_restricted,
  reason_cloud_principal_unsupported_features, reason_cloud_principal_invalid_spec,
  reason_cloud_principal_ensure_error, reason_cloud_principal_reconciled,
}
use vedro.Api.Meta.{NamespacedName}
use vedro.Api.Provider.{ProviderConfig}
use vedro.Api.Principal.{CloudPrincipal, CloudPrincipalStatus}
use vedro.Cloud.{PrincipalAttrs}
use vedro.UsagePolicy.{Decision, Outcome, returns, panics, check_principal}
use vedro.Capabilities.{validate_principal_capabilities}
use vedro.Kube.{Resolver}
use vedro.Kube.Events.{M, ◌>>=◌, pure, Provider, external_principal_ensure}
use vedro.Kube.Environment.{Env}
use vedro.Controller.Finish.{
  Finish, panicked, reconciled, reconcile_error, copy_condition_state, set_state, patch_then,
  with_cleanup,
}
use vedro.Controller.Setup.{ProviderSetup, ProviderSetupIssue, prepare_provider}
use vedro.Controller.Buckets.Apply.{finish_issue}
use vedro.Controller.Principals.Patches.{set_principal_condition, patch_principal_status}

-- The condition of the ProviderConfig is stamped with the principal's generation.
abbrev pub stamp_principal :
    Resolver CloudPrincipal → Resolver ProviderConfig → Resolver ProviderConfig
stamp_principal r config = record config {
  condition = record config.condition { observed_generation = r.object.metadata.generation };
}

module _ (env : Env) (name : NamespacedName) where
  -- The final patch of `Reconcile`, with the two conditions and what was applied.
  abbrev pub record_principal :
      Resolver CloudPrincipal
      → Condition
      → Condition
      → PrincipalAttrs
      → CloudPrincipalStatus
      → CloudPrincipalStatus
  record_principal r config_condition c attrs s = set_principal_condition env c (
      set_principal_condition env config_condition (record s {
        external_name = attrs.name;
        external_id = attrs.id;
        kind = attrs.kind;
        management_policy = attrs.policy;
        observed_provider = r.object.spec.provider_ref.name;
        unsupported_features = r.object.status.unsupported_features;
      }))

  -- `r.patchStatus` with the unsupported features and one condition, and the return.
  abbrev pub report_principal_features : Resolver CloudPrincipal → Condition → Finish → M Finish
  report_principal_features r c finish =
      patch_then
        (patch_principal_status env name r.object.metadata.generation (λ s.
          set_principal_condition env c
            (record s { unsupported_features = r.object.status.unsupported_features })))
        finish

  -- `provider.Principal().EnsurePrincipal(ctx, principal.CloudPrincipal)`.
  unfoldable pub call_ensure_principal : CloudPrincipal → M (Result PrincipalAttrs)
  call_ensure_principal b h =
      let answer = env.ensure_principal h b in (answer, external_principal_ensure b answer ∷ h)

  -- What follows the call of `EnsurePrincipal`.
  unfoldable pub after_principal_ensure :
      Resolver CloudPrincipal → Resolver ProviderConfig → Result PrincipalAttrs → M Finish
  after_principal_ensure r config (err e) =
      report_principal_features r
        (set_state r.condition condition_false reason_cloud_principal_ensure_error (message e))
        (reconcile_error (some e))
  after_principal_ensure r config (ok attrs) =
      patch_then
        (patch_principal_status env name r.object.metadata.generation (
          record_principal r config.condition
            (set_state r.condition condition_true reason_cloud_principal_reconciled
              "CloudPrincipal Reconciled")
            attrs))
        reconciled

  -- The call of `EnsurePrincipal` and what follows it.
  unfoldable pub ensure_principal : Resolver CloudPrincipal → Resolver ProviderConfig → M Finish
  unfolding call_ensure_principal after_principal_ensure
  ensure_principal r config = do
    answer ← call_ensure_principal r.object
    after_principal_ensure r config answer

  -- `ValidatePrincipalSpec` and what follows it.
  unfoldable pub validate_principal :
      Resolver CloudPrincipal → Resolver ProviderConfig → Provider → M Finish
  unfolding ensure_principal
  validate_principal r config provider =
      let result = provider.validate_principal_spec r.object in
      if not result.valid
      then report_principal_features r
          (set_state r.condition condition_false reason_cloud_principal_invalid_spec result.message)
          reconciled
      else ensure_principal r config

  -- `ValidatePrincipalCapabilities` and what follows it; the features found are kept in the status.
  unfoldable pub check_principal_features :
      Resolver CloudPrincipal → Resolver ProviderConfig → Provider → M Finish
  unfolding validate_principal
  check_principal_features r config provider =
      let unsupported =
        validate_principal_capabilities provider.capabilities.principal r.object.spec in
      let r' = record r {
        object = record r.object {
          status = record r.object.status { unsupported_features = unsupported };
        };
      } in
      if not (is_empty unsupported)
      then report_principal_features r'
          (set_state r.condition condition_false reason_cloud_principal_unsupported_features
            "unsupported features found")
          reconciled
      else validate_principal r' config provider

  -- The decision of the usage policy in `Reconcile`.
  unfoldable pub ensure_principal_decided :
      Resolver CloudPrincipal → Resolver ProviderConfig → Provider → Outcome Decision → M Finish
  unfolding check_principal_features
  ensure_principal_decided r config provider panics = pure panicked
  ensure_principal_decided r config provider (returns d) =
      if not d.allowed
      then report_principal_features r
          (set_state r.condition condition_false reason_cloud_principal_spec_restricted d.message)
          reconciled
      else check_principal_features r config provider

  -- Without an issue there is a provider; the call of a method of a nil one would panic.
  unfoldable pub with_principal_provider :
      Resolver CloudPrincipal → Resolver ProviderConfig → Option Provider → M Finish
  unfolding ensure_principal_decided
  with_principal_provider r config none = pure panicked
  with_principal_provider r config (some provider) =
      ensure_principal_decided r config provider
        (check_principal env.regexp config.object.spec.usage_policy r.object)

  -- The branch of `Reconcile` for an issue with the provider.
  unfoldable pub report_principal_issue :
      Resolver CloudPrincipal → Resolver ProviderConfig → ProviderSetupIssue → M Finish
  report_principal_issue r config issue =
      patch_then
        (patch_principal_status env name r.object.metadata.generation (λ s.
          set_principal_condition env config.condition
            (set_principal_condition env (copy_condition_state r.condition config.condition) s)))
        (finish_issue issue)

  -- `Reconcile` once the provider was prepared.
  unfoldable pub reconcile_principal_prepared :
      Resolver CloudPrincipal → ProviderSetup × Option ProviderSetupIssue → M Finish
  unfolding with_cleanup with_principal_provider report_principal_issue
  reconcile_principal_prepared r (setup, some issue) =
      with_cleanup env setup.provider
        (report_principal_issue r (stamp_principal r setup.config) issue)
  reconcile_principal_prepared r (setup, none) =
      with_cleanup env setup.provider
        (with_principal_provider r (stamp_principal r setup.config) setup.provider)

  -- `Reconcile` once the finalizer is on the principal.
  unfoldable pub reconcile_active_principal : Resolver CloudPrincipal → M Finish
  unfolding prepare_provider reconcile_principal_prepared
  reconcile_active_principal r = do
    prepared ← prepare_provider env r.object.spec.provider_ref
    reconcile_principal_prepared r prepared
