-- ===== src/Controller/Buckets/Cleanup.antt =====
-- The calls of `Cleanup` in `BucketReconciler.Reconcile`.
use vedro.Prelude.{◌≡◌, refl, Bool, true, false, not, arith, Option, none, some, []}
use vedro.Errors.{Result, ok, err}
use vedro.Api.Meta.{NamespacedName, ObjectMeta, ProviderConfigReference}
use vedro.Api.Bucket.{Bucket}
use vedro.Resolvers.{bucket_should_be_deleted}
use vedro.Kube.{Resolver, bucket_is_referenced, resolve_bucket}
use vedro.Kube.Events.{History, ◌>>=◌, pure}
use vedro.Kube.Environment.{Env, RetriesConflicts}
use vedro.Kube.Quiet.{count, Quiet-pure}
use vedro.Controller.Finish.{reconciled}
use vedro.Controller.Setup.{ProviderSetup, ProviderSetupIssue, prepare_provider}
use vedro.Controller.Setup.Calls.{patch_then-Quiet, patch_bucket_status-Quiet}
use vedro.Controller.Buckets.Delete.{
  bucket_finalizer, update_bucket, remove_finalizer, delete_prepared, delete_unreferenced,
  delete_bucket, provider_for_delete,
}
use vedro.Controller.Buckets.Apply.{stamp, reconcile_prepared, reconcile_active}
use vedro.Controller.Buckets.Reconcile.{
  finalizer_added, reconcile_found, reconcile_resolved, reconcile_bucket,
}
use vedro.Controller.Buckets.Ensure.{with_provider-Quiet}
use vedro.Controller.Balance.{
  made, cleans, IsBalanced, Balances, Balances-Quiet, Balances-bind, Balances-if, Balances-pure,
  Owes, with_cleanup-IsBalanced, Balances-prepare,
}
use vedro.Controller.Buckets.Balance.{
  made-patch, cleans-patch, made-delete, cleans-delete, remove_finalizer-Quiet,
  delete_decided-Quiet,
}

module _ (env : Env) (name : NamespacedName) (retries : RetriesConflicts env) where
  delete_prepared-IsBalanced :
      (r : Resolver Bucket) (x : ProviderSetup × Option ProviderSetupIssue) (h : History)
      → Owes x.0.provider h
      → IsBalanced (delete_prepared env name r x h).1
  unfolding delete_prepared
  delete_prepared-IsBalanced r (setup, some issue) h o =
      with_cleanup-IsBalanced env setup.provider _ h (Quiet-pure _) (Quiet-pure _) o
  delete_prepared-IsBalanced r (setup, none) h o =
      with_cleanup-IsBalanced env setup.provider _ h
        (delete_decided-Quiet env name retries made-patch made-delete r _)
        (delete_decided-Quiet env name retries cleans-patch cleans-delete r _) o

  reconcile_prepared-IsBalanced :
      (r : Resolver Bucket) (x : ProviderSetup × Option ProviderSetupIssue) (h : History)
      → Owes x.0.provider h
      → IsBalanced (reconcile_prepared env name r x h).1
  unfolding reconcile_prepared
  reconcile_prepared-IsBalanced r (setup, some issue) h o =
      with_cleanup-IsBalanced env setup.provider _ h
        (patch_then-Quiet _ _ (patch_bucket_status-Quiet env retries made-patch name _ _))
        (patch_then-Quiet _ _ (patch_bucket_status-Quiet env retries cleans-patch name _ _)) o
  reconcile_prepared-IsBalanced r (setup, none) h o =
      let config = stamp r setup.config in
      with_cleanup-IsBalanced env setup.provider _ h
        (with_provider-Quiet env name retries made-patch (λ b a. refl) r config setup.provider)
        (with_provider-Quiet env name retries cleans-patch (λ b a. refl) r config setup.provider) o

  remove_finalizer-Balances : (r : Resolver Bucket) → Balances (remove_finalizer env name r)
  remove_finalizer-Balances r =
      Balances-Quiet _ (remove_finalizer-Quiet env name retries made-patch made-delete r)
        (remove_finalizer-Quiet env name retries cleans-patch cleans-delete r)

  prepare_delete-Balances :
      (r : Resolver Bucket) (ref : ProviderConfigReference)
      → Balances (prepare_provider env ref >>= delete_prepared env name r)
  prepare_delete-Balances r ref =
      Balances-prepare env ref (delete_prepared env name r) (delete_prepared-IsBalanced r)

  delete_unreferenced-Balances :
      (r : Resolver Bucket) (answer : Result Bool)
      → Balances (delete_unreferenced env name r answer)
  unfolding delete_unreferenced
  delete_unreferenced-Balances r (err e) = record { at = λ h b. b }
  delete_unreferenced-Balances r (ok true) = record { at = λ h b. b }
  delete_unreferenced-Balances r (ok false) =
      let ref : ProviderConfigReference = record { name = provider_for_delete r.object } in
      Balances-if (bucket_should_be_deleted r.object)
        (prepare_provider env ref >>= delete_prepared env name r) (remove_finalizer env name r)
        (prepare_delete-Balances r ref) (remove_finalizer-Balances r)

  bucket_is_referenced-Balances : (m : ObjectMeta) → Balances (bucket_is_referenced env m)
  unfolding bucket_is_referenced count
  bucket_is_referenced-Balances m = record { at = λ h b. b }

  listed-Balances :
      (r : Resolver Bucket)
      → Balances (bucket_is_referenced env r.object.metadata >>= delete_unreferenced env name r)
  listed-Balances r =
      Balances-bind _ (delete_unreferenced env name r) (bucket_is_referenced-Balances _)
        (delete_unreferenced-Balances r)

  delete_bucket-Balances : (r : Resolver Bucket) → Balances (delete_bucket env name r)
  unfolding delete_bucket
  delete_bucket-Balances r =
      Balances-if (not (env.contains_finalizer r.object.metadata.finalizers bucket_finalizer))
        (pure reconciled)
        (bucket_is_referenced env r.object.metadata >>= delete_unreferenced env name r)
        (Balances-pure reconciled) (listed-Balances r)

  reconcile_active-Balances : (r : Resolver Bucket) → Balances (reconcile_active env name r)
  unfolding reconcile_active
  reconcile_active-Balances r =
      Balances-prepare env r.object.spec.provider_ref (reconcile_prepared env name r)
        (reconcile_prepared-IsBalanced r)

  finalizer_added-Balances :
      (r : Resolver Bucket) (answer : Result Bucket) → Balances (finalizer_added env name r answer)
  finalizer_added-Balances r (err e) = Balances-pure _
  finalizer_added-Balances r (ok b) = reconcile_active-Balances (record r { object = b })

  update_bucket-Balances : (b : Bucket) → Balances (update_bucket env name b)
  unfolding update_bucket count
  update_bucket-Balances b = record { at = λ h e. e }

  add_finalizer-Balances :
      (r : Resolver Bucket) (b : Bucket)
      → Balances (update_bucket env name b >>= finalizer_added env name r)
  add_finalizer-Balances r b =
      Balances-bind _ (finalizer_added env name r) (update_bucket-Balances b)
        (finalizer_added-Balances r)

  abbrev stamped : Resolver Bucket → Resolver Bucket
  stamped r = record r {
    condition = record r.condition { observed_generation = r.object.metadata.generation };
  }

  reconcile_found-Balances : (r : Resolver Bucket) → Balances (reconcile_found env name r)
  unfolding reconcile_found
  reconcile_found-Balances r =
      search
        (Balances-if, delete_bucket-Balances, add_finalizer-Balances r, reconcile_active-Balances)

  reconcile_resolved-Balances : (r : Resolver Bucket) → Balances (reconcile_resolved env name r)
  unfolding reconcile_resolved
  reconcile_resolved-Balances r = record {
    at = λ h b. ground (arith, (reconcile_found-Balances (stamped r)).at h b);
  }

  -- However `Reconcile` returns, or panics, `Cleanup` was called as often as a provider was made.
  pub reconcile_bucket-cleanup :
      count made (reconcile_bucket env name []).1 ≡ count cleans (reconcile_bucket env name []).1
  unfolding reconcile_bucket count
  reconcile_bucket-cleanup =
      let (r, h) = resolve_bucket env name [] in (reconcile_resolved-Balances r).at h refl
