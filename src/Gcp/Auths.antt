-- ===== src/Gcp/Auths.antt =====
-- The authentications of principals in internal/cloud/gcp/principal_api.go, and the keys of helpers.go
-- beneath them.
pub mod Ensure
pub mod Bound
pub mod Held
use vedro.Prelude.{
  ℕ, String, Bool, true, false, ◌&&◌, ◌==◌, ◌⧺◌, ◌+◌, ltb, Option, none, some, List, [], ◌∷◌,
  if◌then◌else◌,
}
use vedro.Errors.{Error, Result, ok, err, plain, sentinel, wrap, is_error, auth_not_found}
use vedro.Helpers.Member.{parse_iam_member_string}
use vedro.UsagePolicy.{Outcome, returns, panics}
use vedro.Api.Meta.{NamespacedName, auth_method_static_credentials, auth_method_workload_identity}
use vedro.Api.Principal.{
  CloudPrincipal, CloudPrincipalAuth, CloudPrincipalAuthProperties, WorkloadIdentitySpec,
}
use vedro.Cloud.{PrincipalAuthSetup, PrincipalAuthResult, ServiceAccountPatch}
use vedro.Gcp.Iam.{
  ServiceAccountKey, IamCall, IamClient, IamCalls, ◌>>=◌, pure, get_key, create_key, delete_key,
}
use vedro.Gcp.Bindings.{has_binding, grant_binding, revoke_binding}

abbrev pub workload_identity_role : String
workload_identity_role = "roles/iam.workloadIdentityUser"

abbrev k8s_annotation_key : String
k8s_annotation_key = "iam.gke.io/gcp-service-account"

-- The patch of a Kubernetes service account that names the one of Google Cloud.
abbrev pub patch_of : NamespacedName → String → ServiceAccountPatch
patch_of k8s email = record {
  api_version = "v1";
  kind = "ServiceAccount";
  name = k8s.name;
  namespace = k8s.namespace;
  annotations = (k8s_annotation_key, email) ∷ [];
}

-- The result for workload identity.
abbrev pub bound : PrincipalAuthSetup → NamespacedName → String → String → PrincipalAuthResult
bound setup k8s email id = record {
  credentials_id = id;
  service_account_patch = some (patch_of k8s email);
  secret_data = none;
  method = setup.method;
}

-- A result with nothing but the identifier of the credentials.
abbrev pub identified : PrincipalAuthSetup → String → PrincipalAuthResult
identified setup id = record {
  credentials_id = id;
  service_account_patch = none;
  secret_data = none;
  method = setup.method;
}

abbrev pub email_of : PrincipalAuthSetup → String
email_of setup = (parse_iam_member_string setup.service_account_id).1

abbrev unset_account : Error
unset_account = plain "serviceAccountRef is mandatory set with method=WorkloadIdentity"

abbrev unsupported : PrincipalAuthSetup → Error
unsupported setup = plain ("method " ⧺ setup.method ⧺ " is not supported")

module _ (client : IamClient) where
  -- `saGetKey`, once the key was asked for.
  abbrev key_read : Result ServiceAccountKey → Result ServiceAccountKey
  key_read (ok key) = ok key
  key_read (err e) =
      if client.google_not_found e
      then err (sentinel auth_not_found)
      else err (wrap "get service account key" e)

  abbrev key_got : PrincipalAuthSetup → Result ServiceAccountKey → Result PrincipalAuthResult
  key_got setup (ok key) = ok (identified setup key.name)
  key_got setup (err e) = err e

  abbrev pub binding_got :
      PrincipalAuthSetup → NamespacedName → Result Bool → Result PrincipalAuthResult
  binding_got setup k8s (ok true) = ok (bound setup k8s (email_of setup) setup.credentials_id)
  binding_got setup k8s (ok false) = err (sentinel auth_not_found)
  binding_got setup k8s (err e) = err e

  -- The branch of `GetPrincipalAuth` for workload identity.
  unfoldable pub get_bound :
      PrincipalAuthSetup → Option NamespacedName → IamCalls (Result PrincipalAuthResult)
  unfolding has_binding
  get_bound setup none = pure (err unset_account)
  get_bound setup (some k8s) = do
    answer ← has_binding client (email_of setup) workload_identity_role setup.credentials_id
    pure (binding_got setup k8s answer)

  -- `gcpPrincipalAPI.GetPrincipalAuth`.
  unfoldable pub get_principal_auth : PrincipalAuthSetup → IamCalls (Result PrincipalAuthResult)
  unfolding get_key get_bound
  get_principal_auth setup =
      if setup.method == auth_method_static_credentials
      then (do answer ← get_key client setup.credentials_id; pure (key_got setup (key_read answer)))
      else if setup.method == auth_method_workload_identity
      then get_bound setup setup.k8s_service_account
      else pure (err (unsupported setup))

  abbrev key_decoded :
      PrincipalAuthSetup → ServiceAccountKey → Result String → Result PrincipalAuthResult
  key_decoded setup key (err e) = err (wrap "decode private key" e)
  key_decoded setup key (ok bytes) = ok (record {
    credentials_id = key.name;
    service_account_patch = none;
    secret_data = some (("credentials.json", bytes) ∷ []);
    method = setup.method;
  })

  -- `saCreateKey`, once the key was asked for.
  abbrev key_made : Result ServiceAccountKey → Result ServiceAccountKey
  key_made (ok key) = ok key
  key_made (err e) = err (wrap "create service account key" e)

  abbrev key_created : PrincipalAuthSetup → Result ServiceAccountKey → Result PrincipalAuthResult
  key_created setup (err e) = err e
  key_created setup (ok key) = key_decoded setup key (client.decode key.private_key_data)

  abbrev pub binding_granted :
      PrincipalAuthSetup → NamespacedName → String → Option Error → Result PrincipalAuthResult
  binding_granted setup k8s member none = ok (bound setup k8s (email_of setup) member)
  binding_granted setup k8s member (some e) = err e

  -- `saDeleteKey`, once the key was to be deleted.
  abbrev pub key_deleted : Option Error → Option Error
  key_deleted none = none
  key_deleted (some e) =
      if client.google_not_found e then none else some (wrap "delete service account key" e)

  -- `gcpPrincipalAPI.DeletePrincipalAuth`.
  unfoldable pub delete_principal_auth : PrincipalAuthSetup → IamCalls (Option Error)
  unfolding delete_key revoke_binding
  delete_principal_auth setup =
      if setup.method == auth_method_static_credentials
      then (do answer ← delete_key client setup.credentials_id; pure (key_deleted answer))
      else if setup.method == auth_method_workload_identity
      then revoke_binding client (email_of setup) workload_identity_role setup.credentials_id
      else pure (some (unsupported setup))

module _ (client : IamClient) (project : String) where
  -- The member that stands for a Kubernetes service account.
  abbrev pub member_of : NamespacedName → String
  member_of k8s =
      "serviceAccount:" ⧺ project ⧺ ".svc.id.goog[" ⧺ k8s.namespace ⧺ "/" ⧺ k8s.name ⧺ "]"

  -- The branch of `CreatePrincipalAuth` for workload identity.
  unfoldable pub create_bound :
      PrincipalAuthSetup → Option NamespacedName → IamCalls (Result PrincipalAuthResult)
  unfolding grant_binding
  create_bound setup none = pure (err unset_account)
  create_bound setup (some k8s) = do
    answer ← grant_binding client (email_of setup) workload_identity_role (member_of k8s)
    pure (binding_granted client setup k8s (member_of k8s) answer)

  -- `gcpPrincipalAPI.CreatePrincipalAuth`.
  unfoldable pub create_principal_auth : PrincipalAuthSetup → IamCalls (Result PrincipalAuthResult)
  unfolding create_key create_bound
  create_principal_auth setup =
      if setup.method == auth_method_static_credentials
      then (do
        answer ← create_key client ("projects/" ⧺ project ⧺ "/serviceAccounts/" ⧺ email_of setup)
        pure (key_created client setup (key_made client answer)))
      else if setup.method == auth_method_workload_identity
      then create_bound setup setup.k8s_service_account
      else pure (err (unsupported setup))
