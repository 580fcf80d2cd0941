-- ===== src/Controller/Buckets/Deletion.antt =====
-- What `BucketReconciler.Reconcile` does to the finalizer, from the first call to the last.
use vedro.Prelude.{
  ◌<◌, ◌≡◌, refl, ◌⊎◌, inl, inr, true, false, arith, none, List, [], ◌∷◌, Bool-cases,
}
use vedro.Errors.{Result, ok, err}
use vedro.Api.Meta.{NamespacedName}
use vedro.Api.Bucket.{Bucket}
use vedro.Api.Access.{BucketAccess}
use vedro.Conditions.{condition_false, type_ready}
use vedro.Resolvers.{is_being_deleted, bucket_should_be_deleted, bucket_is_provisioned}
use vedro.Kube.{Resolver, any, access_refers_to_bucket, new_condition}
use vedro.Kube.Events.{History, bucket_get, bucket_update}
use vedro.Kube.Environment.{Env, RetriesConflicts, HandlesFinalizers}
use vedro.Kube.Quiet.{count, Quiet}
use vedro.Controller.Buckets.Delete.{bucket_finalizer, with_finalizers, delete_bucket}
use vedro.Controller.Buckets.Apply.{reconcile_active}
use vedro.Controller.Buckets.Reconcile.{finalizer_added, reconcile_found, reconcile_bucket}
use vedro.Controller.Buckets.Removal.{
  removes, deletes, removes-setup, removes-patch, delete_bucket-removed,
}
use vedro.Controller.Buckets.Ensure.{reconcile_active-Quiet}

module _ (env : Env) (name : NamespacedName) (retries : RetriesConflicts env)
    (finalizers : HandlesFinalizers env) where
  reconcile_active-removes :
      (r : Resolver Bucket) → Quiet (removes env) (reconcile_active env name r)
  reconcile_active-removes =
      reconcile_active-Quiet env name retries (removes-patch env name retries) (λ b a. refl)
        (removes-setup env name retries) (λ a. refl)

  finalizer_added-removes :
      (r : Resolver Bucket) (answer : Result Bucket)
      → Quiet (removes env) (finalizer_added env name r answer)
  finalizer_added-removes r (err e) = record { at = λ h. refl }
  finalizer_added-removes r (ok b) = reconcile_active-removes (record r { object = b })

  -- What is known when the finalizer of a bucket was removed: the bucket was being deleted, no
  -- access referred to it and, if it should be deleted, the external bucket was deleted or none was
  -- provisioned.
  abbrev pub MayRemove : Bucket → History → History → Type 0
  MayRemove b start end =
      (is_being_deleted b.metadata ≡ true)
      × ((accesses : List BucketAccess) × (env.list_accesses start ≡ ok accesses)
          × (any (access_refers_to_bucket b.metadata) accesses ≡ false)
          × ((bucket_should_be_deleted b ≡ false)
              ⊎ ((0 < count deletes end) ⊎ (bucket_is_provisioned b ≡ false))))

  -- The same from what `deleteBucket` guarantees under the policy Delete.
  delete_bucket-MayRemove :
      (r : Resolver Bucket) (h : History)
      → count (removes env) h ≡ 0
      → is_being_deleted r.object.metadata ≡ true
      → 0 < count (removes env) (delete_bucket env name r h).1
      → MayRemove r.object h (delete_bucket env name r h).1
  delete_bucket-MayRemove r h z deleted pos =
      let (accesses, listed, unreferenced, gone) =
        delete_bucket-removed env name retries r h z pos in
      (
        deleted,
        (
          accesses,
          listed,
          unreferenced,
          elim (Bool-cases (bucket_should_be_deleted r.object)) [
            | inl b ↦ inr (gone b)
            | inr b ↦ inl b
          ],
        ),
      )

  active-removes :
      (r : Resolver Bucket) (h : History)
      → count (removes env) h ≡ 0
      → is_being_deleted r.object.metadata ≡ false
      → ¬ (0 < count (removes env) (reconcile_found env name r h).1)
  unfolding reconcile_found count
  active-removes r h z active pos =
      let fs = env.add_finalizer r.object.metadata.finalizers bucket_finalizer in
      let b = with_finalizers r.object fs in
      let answer = env.update_bucket h b in
      ground (
        arith,
        finalizers.contains-add r.object.metadata.finalizers bucket_finalizer,
        (reconcile_active-removes r).at h,
        (finalizer_added-removes r answer).at (bucket_update b answer ∷ h),
      )

  -- The resolver of a bucket that was found.
  abbrev found : Bucket → Resolver Bucket
  found b = record {
    object = b;
    condition = record (new_condition type_ready condition_false) {
      observed_generation = b.metadata.generation;
    };
    error = none;
  }

  reconcile_found-removed :
      (r : Resolver Bucket) (h : History)
      → count (removes env) h ≡ 0
      → 0 < count (removes env) (reconcile_found env name r h).1
      → MayRemove r.object h (reconcile_found env name r h).1
  unfolding reconcile_found count
  reconcile_found-removed r h z pos = elim (Bool-cases (is_being_deleted r.object.metadata)) [
    | inl deleted ↦ rw deleted (refl, (delete_bucket-MayRemove r h z deleted (rw deleted at pos)).1)
    | inr active ↦ absurd (active-removes r h z active pos)
  ]

  reconcile_bucket-found :
      (b : Bucket)
      → env.get_bucket [] name ≡ ok b
      → reconcile_bucket env name []
        ≡ reconcile_found env name (found b) (bucket_get name (ok b) ∷ [])
  unfolding reconcile_bucket
  reconcile_bucket-found b e = ground arith

  -- `Reconcile` removes the finalizer of the bucket that it was asked for only when that bucket is
  -- being deleted, when the list of accesses was read and none refers to it and, under the deletion
  -- policy Delete, after an external deletion that succeeded or when nothing is recorded as applied.
  pub reconcile_bucket-removal :
      (b : Bucket)
      → env.get_bucket [] name ≡ ok b
      → 0 < count (removes env) (reconcile_bucket env name []).1
      → MayRemove b (bucket_get name (ok b) ∷ []) (reconcile_bucket env name []).1
  unfolding reconcile_bucket count
  reconcile_bucket-removal b e pos =
      rw (reconcile_bucket-found b e)
        (reconcile_found-removed (found b) _ refl (rw (reconcile_bucket-found b e) at pos))
