-- ===== src/Controller/Principals/Patches.antt =====
-- `CloudPrincipalReconciler.patchStatus` of internal/controller/cloudprincipal_controller.go, and
-- which calls it makes. Its argument writes the status only, so it is a function of the status.
use vedro.Prelude.{ℕ, Bool, false, ◌≡◌, Option, none, some, ◌∷◌}
use vedro.Errors.{Error, Result, ok, err}
use vedro.Conditions.{Condition}
use vedro.Api.Meta.{NamespacedName}
use vedro.Api.Principal.{CloudPrincipal, CloudPrincipalStatus, CloudPrincipalStatus-discrete}
use vedro.Kube.Events.{Event, M, ◌>>=◌, pure, principal_get, principal_patch}
use vedro.Kube.Environment.{Env, RetriesConflicts}
use vedro.Kube.Quiet.{count-cons, Quiet, Quiet-bind, Quiet-pure, Quiet-retry}

module _ (env : Env) where
  -- `meta.SetStatusCondition(&p.Status.Conditions, c)`.
  abbrev pub set_principal_condition : Condition → CloudPrincipalStatus → CloudPrincipalStatus
  set_principal_condition c s = record s { conditions = env.set_status_condition s.conditions c }

  -- `r.Status().Patch`.
  unfoldable pub patch_principal : CloudPrincipal → M (Option Error)
  patch_principal p h =
      let answer = env.patch_principal h p in (answer, principal_patch p answer ∷ h)

  -- The principal with the status that is wanted.
  abbrev pub wanted_principal :
      ℕ → (CloudPrincipalStatus → CloudPrincipalStatus) → CloudPrincipal → CloudPrincipal
  wanted_principal gen mutate p = record p {
    status = mutate (record p.status { observed_generation = gen });
  }

  -- The patch is made unless the status is what it was.
  unfoldable pub patch_unless_principal : {A : Type 0} → Dec A → CloudPrincipal → M (Option Error)
  unfolding patch_principal
  patch_unless_principal (yes same) wanted = pure none
  patch_unless_principal (no changed) wanted = patch_principal wanted

  -- What follows the `Get` in a run of `patchStatus`.
  unfoldable pub patch_found_principal :
      ℕ → (CloudPrincipalStatus → CloudPrincipalStatus) → Result CloudPrincipal → M (Option Error)
  unfolding patch_unless_principal
  patch_found_principal gen mutate (err e) = pure (some e)
  patch_found_principal gen mutate (ok p) =
      let wanted = wanted_principal gen mutate p in
      patch_unless_principal (CloudPrincipalStatus-discrete p.status wanted.status) wanted

  unfoldable pub fetch_principal : NamespacedName → M (Result CloudPrincipal)
  fetch_principal name h =
      let answer = env.get_principal h name in (answer, principal_get name answer ∷ h)

  -- One run of the function that `patchStatus` retries.
  unfoldable pub patch_principal_once :
      NamespacedName → ℕ → (CloudPrincipalStatus → CloudPrincipalStatus) → M (Option Error)
  unfolding fetch_principal patch_found_principal
  patch_principal_once name gen mutate = do
    answer ← fetch_principal name
    patch_found_principal gen mutate answer

  -- `CloudPrincipalReconciler.patchStatus`.
  unfoldable pub patch_principal_status :
      NamespacedName → ℕ → (CloudPrincipalStatus → CloudPrincipalStatus) → M (Option Error)
  patch_principal_status name gen mutate =
      env.retry_on_conflict (patch_principal_once name gen mutate)

-- Events of the sort `p` are none of those of a patch of a principal's status.
pub record IgnoresPrincipalPatch (p : Event → Bool) : Type 0 where
  pub principal_gets :
      (n : NamespacedName) (a : Result CloudPrincipal) → p (principal_get n a) ≡ false
  pub principal_patches : (x : CloudPrincipal) (a : Option Error) → p (principal_patch x a) ≡ false

module _ (env : Env) {p : Event → Bool} (ignores : IgnoresPrincipalPatch p) where
  patch_unless_principal-Quiet :
      {A : Type 0} (d : Dec A) (x : CloudPrincipal) → Quiet p (patch_unless_principal env d x)
  unfolding patch_unless_principal
  patch_unless_principal-Quiet (yes same) x = Quiet-pure none
  patch_unless_principal-Quiet (no changed) x = record {
    at = λ h. count-cons p _ h (ignores.principal_patches _ _);
  }

  patch_found_principal-Quiet :
      (gen : ℕ) (mutate : CloudPrincipalStatus → CloudPrincipalStatus)
      (answer : Result CloudPrincipal)
      → Quiet p (patch_found_principal env gen mutate answer)
  unfolding patch_found_principal
  patch_found_principal-Quiet gen mutate (err e) = Quiet-pure (some e)
  patch_found_principal-Quiet gen mutate (ok x) = patch_unless_principal-Quiet _ _

  fetch_principal-Quiet : (name : NamespacedName) → Quiet p (fetch_principal env name)
  unfolding fetch_principal
  fetch_principal-Quiet name = record { at = λ h. count-cons p _ h (ignores.principal_gets _ _) }

  patch_principal_once-Quiet :
      (name : NamespacedName) (gen : ℕ) (mutate : CloudPrincipalStatus → CloudPrincipalStatus)
      → Quiet p (patch_principal_once env name gen mutate)
  unfolding patch_principal_once
  patch_principal_once-Quiet name gen mutate =
      Quiet-bind (fetch_principal env name) (patch_found_principal env gen mutate)
        (fetch_principal-Quiet name) (patch_found_principal-Quiet gen mutate)

  pub patch_principal_status-Quiet :
      RetriesConflicts env
      → (name : NamespacedName) (gen : ℕ) (mutate : CloudPrincipalStatus → CloudPrincipalStatus)
      → Quiet p (patch_principal_status env name gen mutate)
  unfolding patch_principal_status
  patch_principal_status-Quiet retries name gen mutate =
      Quiet-retry (patch_principal_once env name gen mutate)
        (patch_principal_once-Quiet name gen mutate) env retries
