-- ===== src/Gcp/Iam.antt =====
-- The calls of internal/cloud/gcp/principal_api.go, principal_auth.go and helpers.go: of the Google
-- clients for IAM, each with its answer. An answer may depend on all the calls made before.
use vedro.Prelude.{String, Bool, Option, List, ◌∷◌}
use vedro.Prelude.Trace.{Trace}
unfoldable pub use vedro.Prelude.Trace.{◌>>=◌, ◌>>◌, pure}
use vedro.Errors.{Error, Result}

-- `iam.Binding`; its condition is kept as it is.
pub record Binding : Type 0 where
  pub role : String
  pub members : List String
  pub condition : Option String

-- `iam.Policy`; what the code does not read is kept as it is.
pub record IamPolicy : Type 0 where
  pub bindings : List Binding
  pub etag : String

-- `iam.ServiceAccountKey`.
pub record ServiceAccountKey : Type 0 where
  pub name : String
  pub private_key_data : String

pub data IamCall : Type 0 where
  policy_get : String → Result IamPolicy → IamCall
  policy_set : String → IamPolicy → Option Error → IamCall
  account_get : String → Result String → IamCall
  account_create : String → String → Result String → IamCall
  account_delete : String → Option Error → IamCall
  key_get : String → Result ServiceAccountKey → IamCall
  key_create : String → Result ServiceAccountKey → IamCall
  key_delete : String → Option Error → IamCall

-- The clients; an account is its email. The two tests on errors look into those of the SDK; the
-- verb %q and base64 are Go's.
pub record IamClient : Type 0 where
  pub get_policy : List IamCall → String → Result IamPolicy
  pub set_policy : List IamCall → String → IamPolicy → Option Error
  pub get_account : List IamCall → String → Result String
  pub create_account : List IamCall → String → String → Result String
  pub delete_account : List IamCall → String → Option Error
  pub get_key : List IamCall → String → Result ServiceAccountKey
  pub create_key : List IamCall → String → Result ServiceAccountKey
  pub delete_key : List IamCall → String → Option Error
  pub google_not_found : Error → Bool
  pub status_not_found : Error → Bool
  pub quote : String → String
  pub decode : String → Result String

-- A computation that makes calls of the clients.
abbrev pub IamCalls : Type 0 → Type 0
IamCalls = Trace IamCall

module _ (client : IamClient) where
  unfoldable pub get_policy : String → IamCalls (Result IamPolicy)
  get_policy resource h =
      let answer = client.get_policy h resource in (answer, policy_get resource answer ∷ h)

  unfoldable pub set_policy : String → IamPolicy → IamCalls (Option Error)
  set_policy resource p h =
      let answer = client.set_policy h resource p in (answer, policy_set resource p answer ∷ h)

  unfoldable pub get_account : String → IamCalls (Result String)
  get_account name h =
      let answer = client.get_account h name in (answer, account_get name answer ∷ h)

  unfoldable pub create_account : String → String → IamCalls (Result String)
  create_account project id h =
      let answer = client.create_account h project id in
      (answer, account_create project id answer ∷ h)

  unfoldable pub delete_account : String → IamCalls (Option Error)
  delete_account name h =
      let answer = client.delete_account h name in (answer, account_delete name answer ∷ h)

  unfoldable pub get_key : String → IamCalls (Result ServiceAccountKey)
  get_key id h = let answer = client.get_key h id in (answer, key_get id answer ∷ h)

  unfoldable pub create_key : String → IamCalls (Result ServiceAccountKey)
  create_key account h =
      let answer = client.create_key h account in (answer, key_create account answer ∷ h)

  unfoldable pub delete_key : String → IamCalls (Option Error)
  delete_key id h = let answer = client.delete_key h id in (answer, key_delete id answer ∷ h)
