-- ===== src/Controller/Buckets/Progress.antt =====
-- The deletion of a bucket runs to its end: `BucketReconciler.Reconcile` when nothing stands in its way.
use vedro.Prelude.{◌<◌, ◌≡◌, refl, ap, true, false, Option, none, some, List, [], ◌∷◌, arith}
use vedro.Errors.{ok}
use vedro.Conditions.{type_ready, condition_false}
use vedro.Api.Meta.{NamespacedName, ProviderConfigReference}
use vedro.Api.Provider.{ProviderConfig}
use vedro.Api.Bucket.{Bucket}
use vedro.Api.Access.{BucketAccess}
use vedro.Resolvers.{is_being_deleted, is_ready, bucket_should_be_deleted}
use vedro.UsagePolicy.{Decision, Outcome, returns, panics, check_bucket}
use vedro.Kube.{Resolver, any, access_refers_to_bucket, new_condition, resolve_config}
use vedro.Kube.Events.{History, Provider, bucket_get, config_get}
use vedro.Kube.Environment.{Env, HandlesFinalizers}
use vedro.Kube.Quiet.{count}
use vedro.Controller.Finish.{Finish, reconciled, with_cleanup}
use vedro.Controller.Setup.{
  ProviderSetup, ProviderSetupIssue, prepare_provider, prepare_resolved, make_provider,
}
use vedro.Controller.Buckets.Delete.{
  bucket_finalizer, remove_finalizer, update_bucket, after_delete, delete_external, delete_decided,
  updated, with_finalizers, delete_prepared, delete_unreferenced, delete_bucket,
  provider_for_delete,
}
use vedro.Controller.Buckets.Reconcile.{reconcile_found, reconcile_bucket}
use vedro.Controller.Buckets.Removal.{removes}

module _ (env : Env) (name : NamespacedName) (finalizers : HandlesFinalizers env)
    (updates : (h : History) (b : Bucket) → env.update_bucket h b ≡ ok b) where
  -- The run ends without an error, and the finalizer was removed.
  abbrev pub IsDone : Finish × History → Type 0
  IsDone x = (x.0 ≡ reconciled) × (0 < count (removes env) x.1)

  remove_finalizer-IsDone :
      (r : Resolver Bucket) (h : History) → IsDone (remove_finalizer env name r h)
  unfolding remove_finalizer update_bucket count
  remove_finalizer-IsDone r h =
      let fs = r.object.metadata.finalizers in
      (
        ap updated
            (updates h (with_finalizers r.object (env.remove_finalizer fs bucket_finalizer))),
        ground (arith, finalizers.contains-remove fs bucket_finalizer),
      )

  delete_external-IsDone :
      (r : Resolver Bucket) (h : History)
      → env.delete_bucket h r.object ≡ none
      → IsDone (delete_external env name r h)
  unfolding delete_external after_delete
  delete_external-IsDone r h deleted = rw deleted (remove_finalizer-IsDone r _)

  delete_decided-IsDone :
      (r : Resolver Bucket) (d : Outcome Decision) (h : History) (decision : Decision)
      → d ≡ returns decision
      → decision.allowed ≡ true
      → env.delete_bucket h r.object ≡ none
      → IsDone (delete_decided env name r d h)
  unfolding delete_decided
  delete_decided-IsDone r panics h decision same allowed deleted = cc same
  delete_decided-IsDone r (returns d) h decision same allowed deleted =
      let on : d.allowed ≡ true = cc (same, allowed) in rw on (delete_external-IsDone r h deleted)

  with_cleanup-IsDone :
      (provider : Option Provider) (m : History → Finish × History) (h : History)
      → IsDone (m h)
      → IsDone (with_cleanup env provider m h)
  unfolding with_cleanup count
  with_cleanup-IsDone none m h done = done
  with_cleanup-IsDone (some p) m h done = done

  -- A ProviderConfig that is ready, and from which the factory makes a provider.
  module _ (config : ProviderConfig) (provider : Provider)
      (got : (h : History) (n : NamespacedName) → env.get_config h n ≡ ok config)
      (ready : (is_ready config.metadata.generation config.status.conditions).1 ≡ true)
      (new : (h : History) → env.new_provider h config ≡ ok provider) where
    prepare_provider-issue :
        (ref : ProviderConfigReference) (h : History) → (prepare_provider env ref h).0.1 ≡ none
    unfolding prepare_provider prepare_resolved resolve_config make_provider
    prepare_provider-issue ref h =
        let n : NamespacedName = record { name = ref.name; namespace = "" } in
        rw (got h n, ready, new (config_get n (ok config) ∷ h)) refl

    prepare_provider-config :
        (ref : ProviderConfigReference) (h : History)
        → (prepare_provider env ref h).0.0.config.object ≡ config
    unfolding prepare_provider prepare_resolved resolve_config make_provider
    prepare_provider-config ref h =
        let n : NamespacedName = record { name = ref.name; namespace = "" } in
        rw (got h n, ready, new (config_get n (ok config) ∷ h)) refl

    module _ (r : Resolver Bucket) (decision : Decision)
        (checked : check_bucket env.regexp config.spec.usage_policy r.object ≡ returns decision)
        (allowed : decision.allowed ≡ true)
        (deletes : (h : History) → env.delete_bucket h r.object ≡ none) where
      delete_prepared-IsDone :
          (x : ProviderSetup × Option ProviderSetupIssue) (h : History)
          → x.1 ≡ none
          → x.0.config.object ≡ config
          → IsDone (delete_prepared env name r x h)
      unfolding delete_prepared
      delete_prepared-IsDone (setup, some issue) h clean same = cc clean
      delete_prepared-IsDone (setup, none) h clean same =
          let d = check_bucket env.regexp setup.config.object.spec.usage_policy r.object in
          let returned_decision : d ≡ returns decision = rw same checked in
          with_cleanup-IsDone setup.provider (delete_decided env name r d) h
            (delete_decided-IsDone r d h decision returned_decision allowed (deletes h))

      delete_unreferenced-IsDone :
          (h : History)
          → bucket_should_be_deleted r.object ≡ true
          → IsDone (delete_unreferenced env name r (ok false) h)
      unfolding delete_unreferenced
      delete_unreferenced-IsDone h policy =
          let ref : ProviderConfigReference = record { name = provider_for_delete r.object } in
          let prepared = prepare_provider env ref h in
          rw policy (
            delete_prepared-IsDone prepared.0 prepared.1 (prepare_provider-issue ref h)
              (prepare_provider-config ref h))

      delete_bucket-IsDone :
          (accesses : List BucketAccess) (h : History)
          → env.contains_finalizer r.object.metadata.finalizers bucket_finalizer ≡ true
          → env.list_accesses h ≡ ok accesses
          → any (access_refers_to_bucket r.object.metadata) accesses ≡ false
          → bucket_should_be_deleted r.object ≡ true
          → IsDone (delete_bucket env name r h)
      unfolding delete_bucket
      delete_bucket-IsDone accesses h has listed unreferenced policy =
          rw (has, listed, unreferenced) (delete_unreferenced-IsDone _ policy)

      reconcile_found-IsDone :
          (accesses : List BucketAccess) (h : History)
          → is_being_deleted r.object.metadata ≡ true
          → env.contains_finalizer r.object.metadata.finalizers bucket_finalizer ≡ true
          → env.list_accesses h ≡ ok accesses
          → any (access_refers_to_bucket r.object.metadata) accesses ≡ false
          → bucket_should_be_deleted r.object ≡ true
          → IsDone (reconcile_found env name r h)
      unfolding reconcile_found
      reconcile_found-IsDone accesses h deleted has listed unreferenced policy =
          rw deleted (delete_bucket-IsDone accesses h has listed unreferenced policy)

    -- The deletion of a bucket under the policy Delete, to which no access refers, runs to its end in
    -- one `Reconcile`, which returns no error and removes the finalizer: if its ProviderConfig is
    -- ready and gives a provider, if the usage policy allows the bucket, and if the external deletion
    -- and the updates succeed.
    pub reconcile_bucket-IsDone :
        (b : Bucket) (accesses : List BucketAccess) (decision : Decision)
        → env.get_bucket [] name ≡ ok b
        → is_being_deleted b.metadata ≡ true
        → env.contains_finalizer b.metadata.finalizers bucket_finalizer ≡ true
        → ((h : History) → env.list_accesses h ≡ ok accesses)
        → any (access_refers_to_bucket b.metadata) accesses ≡ false
        → bucket_should_be_deleted b ≡ true
        → check_bucket env.regexp config.spec.usage_policy b ≡ returns decision
        → decision.allowed ≡ true
        → ((h : History) → env.delete_bucket h b ≡ none)
        → IsDone (reconcile_bucket env name [])
    unfolding reconcile_bucket
    reconcile_bucket-IsDone b accesses decision found deleted has listed unreferenced policy checked
          allowed deletes =
        let c = record (new_condition type_ready condition_false) {
          observed_generation = b.metadata.generation;
        } in
        let r : Resolver Bucket = record { object = b; condition = c; error = none } in
        let h = bucket_get name (ok b) ∷ [] in
        rw found (
          reconcile_found-IsDone r decision checked allowed deletes accesses h deleted has
            (listed h) unreferenced policy)
