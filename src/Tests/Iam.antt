-- ===== src/Tests/Iam.antt =====
-- The service accounts of Google Cloud with clients that keep them, and their policies, in the
-- history.
use vedro.Prelude.{
  ◌≡◌, refl, ap, String, Bool, true, false, not, ◌&&◌, ◌||◌, ◌==◌, ◌⧺◌, eq_refl, arith, Option,
  none, some, List, [], ◌∷◌, if◌then◌else◌,
}
use vedro.Prelude
use vedro.Helpers
use vedro.Errors.{Result, ok, err, sentinel, is_error, principal_not_found}
use vedro.Api.Principal.{
  CloudPrincipal, CloudPrincipalAuth, zero_cloud_principal, kind_service_account, policy_managed,
}
use vedro.Cloud.{PrincipalAttrs, PrincipalAuthResult}
use vedro.Api.Meta.{auth_method_workload_identity, zero_meta}
use vedro.Gcp.Iam.{Binding, IamCall, IamClient, policy_set, account_create}
use vedro.Gcp.Bindings.{has_member, grant_binding, revoke_binding}
use vedro.Gcp.Auths.{bound}
use vedro.Gcp.Auths.Ensure.{auth_setup, ensure_authentication}
use vedro.Gcp.Auths.Bound.{IsBound}
use vedro.Gcp.Auths.Held.{ensure_authentication-IsBound}
use vedro.Gcp.Bindings.Held.{KeepsPolicies, holds, grant_binding-holds, revoke_binding-holds}
use vedro.Gcp.Principals.{account_email, account_full_name, setup_of, ensure_principal}
use vedro.Gcp.Principals.Ensured.{KeepsAccounts, IsEnsuredAs, ensure_principal-IsEnsuredAs}

abbrev user_role : String
user_role = "roles/iam.workloadIdentityUser"

abbrev first_bindings : List Binding
first_bindings =
    record { role = "roles/viewer"; members = "user:a" ∷ []; condition = none }
    ∷ record { role = user_role; members = "user:a" ∷ "user:b" ∷ []; condition = none }
    ∷ []

-- The bindings that a history of calls leaves.
unfoldable stored_in : List IamCall → String → List Binding
stored_in [] name = first_bindings
stored_in (policy_set n p none ∷ h) name =
    let rest = stored_in h name in if n == name then p.bindings else rest
stored_in (c ∷ h) name = stored_in h name

-- The accounts that a history of calls leaves.
unfoldable accounts_in : List IamCall → String → Option String
accounts_in [] name = none
accounts_in (account_create project id (ok email) ∷ h) name =
    let rest = accounts_in h name in
    if account_full_name id "demo" == name then some email else rest
accounts_in (c ∷ h) name = accounts_in h name

abbrev account_or_missing : Option String → Result String
account_or_missing none = err (sentinel principal_not_found)
account_or_missing (some email) = ok email

abbrev server : IamClient
server = record {
  get_policy = λ h n. ok (record { bindings = stored_in h n; etag = "" });
  set_policy = λ h n p. none;
  get_account = λ h n. account_or_missing (accounts_in h n);
  create_account = λ h project id. ok (account_email id "demo");
  delete_account = λ h n. none;
  get_key = λ h n. err (sentinel principal_not_found);
  create_key = λ h n. err (sentinel principal_not_found);
  delete_key = λ h n. none;
  google_not_found = λ e. is_error e principal_not_found;
  status_not_found = λ e. is_error e principal_not_found;
  quote = λ s. s;
  decode = λ s. ok s;
}

account_or_missing-ok : (o : Option String) (e : String) → account_or_missing o ≡ ok e → o ≡ some e
account_or_missing-ok none e same = cc
account_or_missing-ok (some f) e same = cc

server-KeepsPolicies : KeepsPolicies server stored_in
unfolding stored_in
server-KeepsPolicies = record {
  tells = λ h n p same. cc;
  tells_missing = λ h n e same gone. cc;
  asks = λ h n k answer. refl;
  sets = λ h n p same. ground (arith, eq_refl n);
}

server-KeepsAccounts : KeepsAccounts server "demo" accounts_in
unfolding accounts_in
server-KeepsAccounts = record {
  tells = λ h n e same. account_or_missing-ok (accounts_in h n) e same;
  asks = λ h n k answer. refl;
  creates = λ h id e same. ground (arith, eq_refl (account_full_name id "demo"));
}

grant_binding-holds_example :
    holds server stored_in server-KeepsPolicies "robot@demo" user_role "user:c"
      (grant_binding server "robot@demo" user_role "user:c" []).1
      user_role
      "user:b"
    ≡ true
unfolding grant_binding stored_in Prelude.contains has_member
grant_binding-holds_example =
    grant_binding-holds server stored_in server-KeepsPolicies "robot@demo" user_role "user:c" []
      refl user_role "user:b"

revoke_binding-holds_example :
    holds server stored_in server-KeepsPolicies "robot@demo" user_role "user:a"
      (revoke_binding server "robot@demo" user_role "user:a" []).1
      "roles/viewer"
      "user:a"
    ≡ true
unfolding revoke_binding stored_in Prelude.contains
revoke_binding-holds_example =
    revoke_binding-holds server stored_in server-KeepsPolicies "robot@demo" user_role "user:a" []
      refl "roles/viewer" "user:a"

abbrev robot : CloudPrincipal
robot = record zero_cloud_principal {
  spec = record zero_cloud_principal.spec {
    kind = kind_service_account;
    management_policy = policy_managed;
    managed = some (record { name = "robot"; deletion_policy = "Delete" });
  };
}

abbrev robot_attrs : PrincipalAttrs
robot_attrs = record {
  name = "robot";
  kind = kind_service_account;
  policy = policy_managed;
  id = "serviceAccount:robot@demo.iam.gserviceaccount.com";
}

ensure_principal-IsEnsuredAs_example :
    IsEnsuredAs server "demo" accounts_in server-KeepsAccounts
      (setup_of robot)
      robot_attrs
      (ensure_principal server "demo" robot []).1
unfolding ensure_principal accounts_in is_error Helpers.principal_name_from_cr
ensure_principal-IsEnsuredAs_example =
    ensure_principal-IsEnsuredAs server "demo" accounts_in server-KeepsAccounts robot robot_attrs []
      refl refl

abbrev robot_auth : CloudPrincipalAuth
robot_auth = record {
  metadata = record zero_meta { name = "robot-auth"; namespace = "team" };
  spec = record {
    principal_ref = record { name = "robot"; namespace = "team" };
    method = auth_method_workload_identity;
    static_credentials = none;
    workload_identity =
        some (record { service_account_ref = record { name = "web" }; deletion_policy = "Delete" });
  };
  status = record {
    applied = none;
    conditions = [];
    observed_generation = 0;
    observed_provider = "";
    unsupported_features = [];
  };
}

abbrev known_robot : CloudPrincipal
known_robot = record robot {
  status = record robot.status {
    external_id = "serviceAccount:robot@demo.iam.gserviceaccount.com";
  };
}

abbrev web_result : PrincipalAuthResult
web_result =
    bound (auth_setup robot_auth known_robot none) (record { name = "web"; namespace = "team" })
      "robot@demo.iam.gserviceaccount.com" "serviceAccount:demo.svc.id.goog[team/web]"

ensure_authentication-IsBound_example :
    IsBound stored_in
      (auth_setup robot_auth known_robot none)
      web_result
      []
      (ensure_authentication server "demo" (λ h. 7) robot_auth known_robot []).1
unfolding ensure_authentication stored_in Prelude.contains
    vedro.Helpers.Member.parse_iam_member_string
ensure_authentication-IsBound_example =
    ensure_authentication-IsBound server "demo" (λ h. 7) stored_in server-KeepsPolicies robot_auth
      known_robot web_result [] refl refl
