-- ===== src/Kube/Environment.antt =====
-- The code that the reconcilers call and that is not theirs, as one record of parameters.
-- An answer may depend on all the calls made before, so every server, every cloud and every change
-- made by others meanwhile is such a record. An object whose `Get` fails stays the zero value; a
-- successful `Update` replaces the object by the server's answer.
use vedro.Prelude.{
  String, Bool, true, ◌≡◌, Option, some, List, ◌==◌, if◌then◌else◌, ℕ, none, [], ◌∷◌,
}
use vedro.Errors.{Error, Result, ApiReason, conflict, prefixed, sentinel, api, plain}
use vedro.Conditions.{Condition}
use vedro.Api.Meta.{NamespacedName}
use vedro.Api.Provider.{ProviderConfig}
use vedro.Api.Bucket.{Bucket}
use vedro.Api.Access.{BucketAccess}
use vedro.Api.Principal.{CloudPrincipal, CloudPrincipalAuth}
use vedro.Cloud.{BucketAttrs, BucketAccessAttrs, PrincipalAttrs}
use vedro.UsagePolicy.{Regexp}
use vedro.Kube.Events.{Provider, History, M}

pub record Env : Type 0 where
  -- sigs.k8s.io/controller-runtime's client
  pub get_bucket : History → NamespacedName → Result Bucket
  pub list_buckets : History → Result (List Bucket)
  pub update_bucket : History → Bucket → Result Bucket
  pub patch_bucket : History → Bucket → Option Error
  pub get_access : History → NamespacedName → Result BucketAccess
  pub list_accesses : History → Result (List BucketAccess)
  pub update_access : History → BucketAccess → Result BucketAccess
  pub patch_access : History → BucketAccess → Option Error
  pub delete_access : History → BucketAccess → Option Error
  pub get_principal : History → NamespacedName → Result CloudPrincipal
  pub list_principals : History → Result (List CloudPrincipal)
  pub update_principal : History → CloudPrincipal → Result CloudPrincipal
  pub patch_principal : History → CloudPrincipal → Option Error
  pub list_auths : History → Result (List CloudPrincipalAuth)
  pub get_config : History → NamespacedName → Result ProviderConfig
  pub update_config : History → ProviderConfig → Result ProviderConfig
  pub patch_config : History → ProviderConfig → Option Error
  -- lists of the items whose index has a key, of which the second is within a namespace
  pub list_configs_with : History → String → Result (List ProviderConfig)
  pub list_auths_with : History → String → String → Result (List CloudPrincipalAuth)
  -- `types.NamespacedName.String`
  pub print_name : NamespacedName → String
  -- the `ProviderFactory` and the calls of `cloud.Provider` that reach a cloud
  pub new_provider : History → ProviderConfig → Result Provider
  pub cleanup : History → Option Error
  pub ensure_bucket : History → Bucket → Result BucketAttrs
  pub delete_bucket : History → Bucket → Option Error
  pub ensure_access : History → Bucket → CloudPrincipal → BucketAccess → Result BucketAccessAttrs
  pub delete_external_access : History → BucketAccess → Option Error
  pub ensure_principal : History → CloudPrincipal → Result PrincipalAttrs
  pub delete_principal : History → CloudPrincipal → Option Error
  -- k8s.io/apimachinery's `meta.SetStatusCondition`, k8s.io/client-go's `retry.RetryOnConflict` at
  -- `retry.DefaultRetry`, and Go's `regexp`
  pub set_status_condition : List Condition → Condition → List Condition
  pub retry_on_conflict : M (Option Error) → M (Option Error)
  pub regexp : Regexp
  -- controller-runtime's `controllerutil.ContainsFinalizer`, `AddFinalizer`, `RemoveFinalizer`
  pub contains_finalizer : List String → String → Bool
  pub add_finalizer : List String → String → List String
  pub remove_finalizer : List String → String → List String

-- `apierrors.IsConflict(err)`.
unfoldable pub is_conflict : Error → Bool
is_conflict (sentinel s) = Bool.false
is_conflict (api conflict m) = true
is_conflict (api ApiReason.not_found m) = Bool.false
is_conflict (api ApiReason.other_reason m) = Bool.false
is_conflict (plain m) = Bool.false
is_conflict (prefixed m e) = is_conflict e

-- `r` is what some number of runs of `m` from `h` leave, of which only the last need not have
-- failed with a conflict.
pub data Attempts (m : M (Option Error)) (r : Option Error × History) : History → Type 0 where
  last : {h : History} → r ≡ m h → Attempts m r h
  again :
      {h : History} (e : Error)
      → (m h).0 ≡ some e
      → is_conflict e ≡ true
      → Attempts m r (m h).1
      → Attempts m r h

-- `retry.RetryOnConflict` runs its argument at least once, and again only after a conflict; it
-- returns what the last run returned.
abbrev pub RetriesConflicts : Env → Type 0
RetriesConflicts env =
    (m : M (Option Error)) (h : History) → Attempts m (env.retry_on_conflict m h) h

-- The first condition of a type.
unfoldable pub find_condition : String → List Condition → Option Condition
find_condition t [] = none
find_condition t (c ∷ cs) = if c.type == t then some c else find_condition t cs

-- `meta.SetStatusCondition` leaves the conditions of other types, and at its own type leaves the
-- new condition up to the time of the last transition.
pub record SetsCondition (env : Env) : Type 0 where
  pub other :
      (cs : List Condition) (c : Condition) (t : String)
      → (c.type == t) ≡ Bool.false
      → find_condition t (env.set_status_condition cs c) ≡ find_condition t cs
  pub own :
      (cs : List Condition) (c : Condition)
      → (time : ℕ) × (find_condition c.type (env.set_status_condition cs c)
          ≡ some (record c { last_transition_time = time }))

-- `AddFinalizer` and `RemoveFinalizer` do to the list what `ContainsFinalizer` then tells.
pub record HandlesFinalizers (env : Env) : Type 0 where
  pub contains-add :
      (fs : List String) (f : String) → env.contains_finalizer (env.add_finalizer fs f) f ≡ true
  pub contains-remove :
      (fs : List String) (f : String)
      → env.contains_finalizer (env.remove_finalizer fs f) f ≡ Bool.false
