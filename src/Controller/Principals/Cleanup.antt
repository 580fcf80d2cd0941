-- ===== src/Controller/Principals/Cleanup.antt =====
-- The calls of `Cleanup` in `CloudPrincipalReconciler.Reconcile`.
use vedro.Prelude.{◌≡◌, refl, Bool, true, false, not, arith, Option, none, some, []}
use vedro.Errors.{Result, ok, err}
use vedro.Api.Meta.{NamespacedName, ObjectMeta, ProviderConfigReference}
use vedro.Api.Principal.{CloudPrincipal}
use vedro.Resolvers.{principal_should_be_deleted}
use vedro.Kube.{Resolver, principal_is_referenced, resolve_principal}
use vedro.Kube.Events.{History, ◌>>=◌, pure}
use vedro.Kube.Environment.{Env, RetriesConflicts}
use vedro.Kube.Quiet.{count, Quiet-pure}
use vedro.Controller.Finish.{reconciled}
use vedro.Controller.Setup.{ProviderSetup, ProviderSetupIssue, prepare_provider}
use vedro.Controller.Setup.Calls.{patch_then-Quiet}
use vedro.Controller.Principals.Patches.{patch_principal_status-Quiet}
use vedro.Controller.Principals.Delete.{
  principal_finalizer, update_principal, remove_principal_finalizer, delete_principal_prepared,
  delete_principal_unreferenced, delete_principal, principal_provider_for_delete,
}
use vedro.Controller.Principals.Apply.{
  stamp_principal, reconcile_principal_prepared, reconcile_active_principal,
}
use vedro.Controller.Principals.Reconcile.{
  principal_finalizer_added, reconcile_principal_found, reconcile_principal_resolved,
  reconcile_principal,
}
use vedro.Controller.Principals.Ensure.{with_principal_provider-Quiet}
use vedro.Controller.Balance.{
  made, cleans, IsBalanced, Balances, Balances-Quiet, Balances-bind, Balances-if, Balances-pure,
  Owes, with_cleanup-IsBalanced, Balances-prepare,
}
use vedro.Controller.Principals.Referenced.{principal_is_referenced-Quiet}
use vedro.Controller.Principals.Balance.{
  principal_made-patch, principal_cleans-patch, principal_made-delete, principal_cleans-delete,
  remove_principal_finalizer-Quiet, delete_principal_decided-Quiet,
}

module _ (env : Env) (name : NamespacedName) (retries : RetriesConflicts env) where
  delete_principal_prepared-IsBalanced :
      (r : Resolver CloudPrincipal) (x : ProviderSetup × Option ProviderSetupIssue) (h : History)
      → Owes x.0.provider h
      → IsBalanced (delete_principal_prepared env name r x h).1
  unfolding delete_principal_prepared
  delete_principal_prepared-IsBalanced r (setup, some issue) h o =
      with_cleanup-IsBalanced env setup.provider _ h (Quiet-pure _) (Quiet-pure _) o
  delete_principal_prepared-IsBalanced r (setup, none) h o =
      with_cleanup-IsBalanced env setup.provider _ h
        (delete_principal_decided-Quiet env name retries principal_made-patch principal_made-delete
          r _)
        (delete_principal_decided-Quiet env name retries principal_cleans-patch
          principal_cleans-delete r _)
        o

  reconcile_principal_prepared-IsBalanced :
      (r : Resolver CloudPrincipal) (x : ProviderSetup × Option ProviderSetupIssue) (h : History)
      → Owes x.0.provider h
      → IsBalanced (reconcile_principal_prepared env name r x h).1
  unfolding reconcile_principal_prepared
  reconcile_principal_prepared-IsBalanced r (setup, some issue) h o =
      with_cleanup-IsBalanced env setup.provider _ h
        (patch_then-Quiet _ _
          (patch_principal_status-Quiet env principal_made-patch retries name _ _))
        (patch_then-Quiet _ _
          (patch_principal_status-Quiet env principal_cleans-patch retries name _ _))
        o
  reconcile_principal_prepared-IsBalanced r (setup, none) h o =
      let config = stamp_principal r setup.config in
      with_cleanup-IsBalanced env setup.provider _ h
        (with_principal_provider-Quiet env name retries principal_made-patch (λ b a. refl) r config
          setup.provider)
        (with_principal_provider-Quiet env name retries principal_cleans-patch (λ b a. refl) r
          config setup.provider)
        o

  remove_principal_finalizer-Balances :
      (r : Resolver CloudPrincipal) → Balances (remove_principal_finalizer env name r)
  remove_principal_finalizer-Balances r =
      Balances-Quiet _
        (remove_principal_finalizer-Quiet env name retries principal_made-patch
          principal_made-delete r)
        (remove_principal_finalizer-Quiet env name retries principal_cleans-patch
          principal_cleans-delete r)

  prepare_delete-Balances :
      (r : Resolver CloudPrincipal) (ref : ProviderConfigReference)
      → Balances (prepare_provider env ref >>= delete_principal_prepared env name r)
  prepare_delete-Balances r ref =
      Balances-prepare env ref (delete_principal_prepared env name r)
        (delete_principal_prepared-IsBalanced r)

  delete_principal_unreferenced-Balances :
      (r : Resolver CloudPrincipal) (answer : Result Bool)
      → Balances (delete_principal_unreferenced env name r answer)
  unfolding delete_principal_unreferenced
  delete_principal_unreferenced-Balances r (err e) = record { at = λ h b. b }
  delete_principal_unreferenced-Balances r (ok true) = record { at = λ h b. b }
  delete_principal_unreferenced-Balances r (ok false) =
      let ref : ProviderConfigReference = record {
        name = principal_provider_for_delete r.object;
      } in
      Balances-if (principal_should_be_deleted r.object)
        (prepare_provider env ref >>= delete_principal_prepared env name r)
        (remove_principal_finalizer env name r) (prepare_delete-Balances r ref)
        (remove_principal_finalizer-Balances r)

  principal_is_referenced-Balances : (m : ObjectMeta) → Balances (principal_is_referenced env m)
  principal_is_referenced-Balances m =
      Balances-Quiet _ (principal_is_referenced-Quiet env m (λ a. refl) (λ a. refl))
        (principal_is_referenced-Quiet env m (λ a. refl) (λ a. refl))

  listed-Balances :
      (r : Resolver CloudPrincipal)
      → Balances (
          principal_is_referenced env r.object.metadata
          >>= delete_principal_unreferenced env name r)
  listed-Balances r =
      Balances-bind _ (delete_principal_unreferenced env name r)
        (principal_is_referenced-Balances _) (delete_principal_unreferenced-Balances r)

  delete_principal-Balances : (r : Resolver CloudPrincipal) → Balances (delete_principal env name r)
  unfolding delete_principal
  delete_principal-Balances r =
      Balances-if (not (env.contains_finalizer r.object.metadata.finalizers principal_finalizer))
        (pure reconciled)
        (principal_is_referenced env r.object.metadata >>= delete_principal_unreferenced env name r)
        (Balances-pure reconciled) (listed-Balances r)

  reconcile_active_principal-Balances :
      (r : Resolver CloudPrincipal) → Balances (reconcile_active_principal env name r)
  unfolding reconcile_active_principal
  reconcile_active_principal-Balances r =
      Balances-prepare env r.object.spec.provider_ref (reconcile_principal_prepared env name r)
        (reconcile_principal_prepared-IsBalanced r)

  principal_finalizer_added-Balances :
      (r : Resolver CloudPrincipal) (answer : Result CloudPrincipal)
      → Balances (principal_finalizer_added env name r answer)
  principal_finalizer_added-Balances r (err e) = Balances-pure _
  principal_finalizer_added-Balances r (ok b) =
      reconcile_active_principal-Balances (record r { object = b })

  update_principal-Balances : (b : CloudPrincipal) → Balances (update_principal env name b)
  unfolding update_principal count
  update_principal-Balances b = record { at = λ h e. e }

  add_finalizer-Balances :
      (r : Resolver CloudPrincipal) (b : CloudPrincipal)
      → Balances (update_principal env name b >>= principal_finalizer_added env name r)
  add_finalizer-Balances r b =
      Balances-bind _ (principal_finalizer_added env name r) (update_principal-Balances b)
        (principal_finalizer_added-Balances r)

  abbrev stamped : Resolver CloudPrincipal → Resolver CloudPrincipal
  stamped r = record r {
    condition = record r.condition { observed_generation = r.object.metadata.generation };
  }

  reconcile_principal_found-Balances :
      (r : Resolver CloudPrincipal) → Balances (reconcile_principal_found env name r)
  unfolding reconcile_principal_found
  reconcile_principal_found-Balances r = search (
    Balances-if,
    delete_principal-Balances,
    add_finalizer-Balances r,
    reconcile_active_principal-Balances,
  )

  reconcile_principal_resolved-Balances :
      (r : Resolver CloudPrincipal) → Balances (reconcile_principal_resolved env name r)
  unfolding reconcile_principal_resolved
  reconcile_principal_resolved-Balances r = record {
    at = λ h b. ground (arith, (reconcile_principal_found-Balances (stamped r)).at h b);
  }

  -- However `Reconcile` returns, or panics, `Cleanup` was called as often as a provider was made.
  pub reconcile_principal-cleanup :
      count made (reconcile_principal env name []).1
      ≡ count cleans (reconcile_principal env name []).1
  unfolding reconcile_principal count
  reconcile_principal-cleanup =
      let (r, h) = resolve_principal env name [] in
      (reconcile_principal_resolved-Balances r).at h refl
