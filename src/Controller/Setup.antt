-- ===== src/Controller/Setup.antt =====
-- internal/controller/provider_setup.go, bucket_setup.go and cloudprincipal_setup.go: the
-- dependencies of a resource are fetched and found usable, or not.
pub mod Calls
use vedro.Prelude.{
  String, Bool, true, false, not, ◌&&◌, Option, none, some, List, [], ◌∷◌, if◌then◌else◌,
}
use vedro.Errors.{Error, Result, ok, err, plain, message}
use vedro.Conditions.{
  Condition, condition_true, condition_false, type_bucket_ready, type_cloud_principal_ready,
  reason_bucket_ready, reason_cloud_principal_ready, reason_provider_config_not_ready,
  reason_provider_config_error, reason_provider_config_reconciled,
}
use vedro.Api.Meta.{ProviderConfigReference, BucketReference, PrincipalReference}
use vedro.Api.Provider.{ProviderConfig}
use vedro.Api.Bucket.{Bucket}
use vedro.Api.Principal.{CloudPrincipal}
use vedro.Resolvers.{is_ready, is_being_deleted}
use vedro.Kube.{Resolver, resolve_config, resolve_bucket, resolve_principal}
use vedro.Kube.Events.{M, ◌>>=◌, pure, Provider, provider_new}
use vedro.Kube.Environment.{Env}
use vedro.Controller.Finish.{copy_condition_state, set_state}

pub record ProviderSetup : Type 0 where
  pub provider : Option Provider
  pub config : Resolver ProviderConfig

pub data IssueKind : Type 0 where
  provider_resolve_failed provider_setting_failed provider_config_invalid : IssueKind

pub record ProviderSetupIssue : Type 0 where
  pub kind : IssueKind
  pub error : Option Error

abbrev with_state : Resolver ProviderConfig → String → String → String → Resolver ProviderConfig
with_state r status reason text = record r { condition = set_state r.condition status reason text }

-- What follows the call of the factory.
abbrev pub provider_made :
    Resolver ProviderConfig → Result Provider → ProviderSetup × Option ProviderSetupIssue
provider_made config (err e) = (
  record {
    provider = none;
    config = with_state config condition_false reason_provider_config_error (message e);
  },
  some (record { kind = provider_setting_failed; error = some e }),
)
provider_made config (ok p) = (
  record {
    provider = some p;
    config =
        with_state config condition_true reason_provider_config_reconciled
          "ProviderConfig Reconciled";
  },
  none,
)

module _ (env : Env) where
  -- The call of the factory.
  unfoldable pub make_provider :
      Resolver ProviderConfig → M (ProviderSetup × Option ProviderSetupIssue)
  make_provider config h =
      let answer = env.new_provider h config.object in
      (provider_made config answer, provider_new config.object answer ∷ h)

  -- The rest of `prepareProvider` once the ProviderConfig was fetched.
  unfoldable pub prepare_resolved :
      Resolver ProviderConfig → M (ProviderSetup × Option ProviderSetupIssue)
  unfolding make_provider
  prepare_resolved config = elim config.error [
    | some e ↦ pure (
      record { provider = none; config = config },
      some (record { kind = provider_resolve_failed; error = some e }),
    )
    | none ↦
        (if not (is_ready config.object.metadata.generation config.object.status.conditions).1
            && not (is_being_deleted config.object.metadata)
          then pure (
            record {
              provider = none;
              config =
                  with_state config condition_false reason_provider_config_not_ready
                    "ProviderConfig is not Ready";
            },
            some (record {
              kind = provider_config_invalid;
              error = some (plain "ProviderConfig is not Ready");
            }),
          )
          else make_provider config)
  ]

  -- `prepareProvider`.
  unfoldable pub prepare_provider :
      ProviderConfigReference → M (ProviderSetup × Option ProviderSetupIssue)
  unfolding prepare_resolved resolve_config
  prepare_provider ref = do
    config ← resolve_config env (record { name = ref.name; namespace = "" })
    prepare_resolved config

-- `BucketSetupStatus` and `CloudPrincipalSetupStatus`.
pub data SetupStatus : Type 0 where
  dependency_ok dependency_being_deleted dependency_not_ok dependency_not_ready : SetupStatus

abbrev copied : Condition → Option Condition → Condition
copied c none = c
copied c (some found) = copy_condition_state c found

-- What follows `bucket.Resolve` in `prepareBucket`; without an error and not ready there is a
-- condition to copy.
unfoldable pub judge_bucket : Resolver Bucket → Resolver Bucket × SetupStatus
judge_bucket r =
    let c = record r.condition { type = type_bucket_ready } in
    let found = is_ready r.object.metadata.generation r.object.status.conditions in
    if is_being_deleted r.object.metadata
    then (record r { condition = c }, dependency_being_deleted)
    else elim r.error [
      | some e ↦ (record r { condition = c }, dependency_not_ok)
      | none ↦
          (if not found.1
            then (record r { condition = copied c found.0 }, dependency_not_ready)
            else (
              record r {
                condition = set_state c condition_true reason_bucket_ready "Bucket Ready";
              },
              dependency_ok,
            ))
    ]

-- What follows `principal.Resolve` in `prepareCloudPrincipal`.
unfoldable pub judge_principal : Resolver CloudPrincipal → Resolver CloudPrincipal × SetupStatus
judge_principal r =
    let c = record r.condition { type = type_cloud_principal_ready } in
    let found = is_ready r.object.metadata.generation r.object.status.conditions in
    if is_being_deleted r.object.metadata
    then (record r { condition = c }, dependency_being_deleted)
    else elim r.error [
      | some e ↦ (record r { condition = c }, dependency_not_ok)
      | none ↦
          (if not found.1
            then (record r { condition = copied c found.0 }, dependency_not_ready)
            else (
              record r {
                condition =
                    set_state c condition_true reason_cloud_principal_ready "CloudPrincipal Ready";
              },
              dependency_ok,
            ))
    ]

module _ (env : Env) where
  -- `prepareBucket`.
  unfoldable pub prepare_bucket : BucketReference → M (Resolver Bucket × SetupStatus)
  unfolding resolve_bucket judge_bucket
  prepare_bucket ref = do
    r ← resolve_bucket env (record { name = ref.name; namespace = ref.namespace })
    pure (judge_bucket r)

  -- `prepareCloudPrincipal`.
  unfoldable pub prepare_cloud_principal :
      PrincipalReference → M (Resolver CloudPrincipal × SetupStatus)
  unfolding resolve_principal judge_principal
  prepare_cloud_principal ref = do
    r ← resolve_principal env (record { name = ref.name; namespace = ref.namespace })
    pure (judge_principal r)
