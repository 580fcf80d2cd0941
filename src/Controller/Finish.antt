-- ===== src/Controller/Finish.antt =====
-- internal/controller/helpers.go: how a reconciler returns.
use vedro.Prelude.{ℕ, String, ◌∷◌, Option, none, some, if◌then◌else◌}
use vedro.Errors.{Error, is_not_found}
use vedro.Conditions.{Condition}
use vedro.Kube.Events.{M, ◌>>=◌, pure, provider_cleanup, Provider}
use vedro.Kube.Environment.{Env}

-- `(ctrl.Result, error)`, of the result the seconds to requeue after; or a panic.
pub data Finish : Type 0 where
  returned : ℕ → Option Error → Finish
  panicked : Finish

-- `Reconciled()`.
abbrev pub reconciled : Finish
reconciled = returned 0 none

-- `ReconcileError(ctx, err, ...)`.
abbrev pub reconcile_error : Option Error → Finish
reconcile_error none = reconciled
reconcile_error (some e) = returned 0 (some e)

-- `ReconcileAfter(ctx, duration, ...)`.
abbrev pub reconcile_after : ℕ → Finish
reconcile_after seconds = returned seconds none

-- `ReconcileIgnoreNotFound(ctx, err, ...)`.
abbrev pub reconcile_ignore_not_found : Option Error → Finish
reconcile_ignore_not_found none = reconciled
reconcile_ignore_not_found (some e) =
    if is_not_found e then reconciled else reconcile_error (some e)

-- `copyConditionState`.
abbrev pub copy_condition_state : Condition → Condition → Condition
copy_condition_state dst src = record dst {
  message = src.message;
  reason = src.reason;
  status = src.status;
}

-- `Status`, `Reason` and `Message` of a condition are assigned.
abbrev pub set_state : Condition → String → String → String → Condition
set_state c status reason message = record c { status = status; reason = reason; message = message }

-- `if patchErr != nil { return ReconcileError(ctx, patchErr, "patch error") }` and the return.
abbrev pub patch_then : M (Option Error) → Finish → M Finish
patch_then patch finish = do
  answer ← patch
  pure (elim answer [ none ↦ finish | some e ↦ reconcile_error (some e) ])

-- `if provider != nil { defer func() { ... provider.Cleanup(ctx) ... }() }` around the rest, which
-- also runs when the rest panics.
unfoldable pub with_cleanup : Env → Option Provider → M Finish → M Finish
with_cleanup env none rest h = rest h
with_cleanup env (some p) rest h =
    let (finish, h') = rest h in (finish, provider_cleanup (env.cleanup h') ∷ h')
