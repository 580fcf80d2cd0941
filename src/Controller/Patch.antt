-- ===== src/Controller/Patch.antt =====
-- The `patchStatus` methods of the reconcilers of internal/controller. The functions that they are
-- given write the status only, so they are functions of the status.
use vedro.Prelude.{ℕ, Option, none, some, ◌∷◌}
use vedro.Errors.{Error, Result, ok, err}
use vedro.Conditions.{Condition}
use vedro.Api.Meta.{NamespacedName}
use vedro.Api.Bucket.{Bucket, BucketStatus, BucketStatus-discrete}
use vedro.Api.Access.{BucketAccess, BucketAccessStatus, BucketAccessStatus-discrete}
use vedro.Kube.Events.{M, ◌>>=◌, pure, bucket_get, bucket_patch, access_get, access_patch}
use vedro.Kube.Environment.{Env}

module _ (env : Env) where
  -- `meta.SetStatusCondition(&b.Status.Conditions, c)`.
  abbrev pub set_bucket_condition : Condition → BucketStatus → BucketStatus
  set_bucket_condition c s = record s { conditions = env.set_status_condition s.conditions c }

  -- The patch of a bucket whose status has changed.
  unfoldable pub patch_bucket : Bucket → M (Option Error)
  patch_bucket b h = let answer = env.patch_bucket h b in (answer, bucket_patch b answer ∷ h)

  -- The bucket with the status that is wanted.
  abbrev pub wanted_bucket : ℕ → (BucketStatus → BucketStatus) → Bucket → Bucket
  wanted_bucket gen mutate b = record b {
    status = mutate (record b.status { observed_generation = gen });
  }

  -- The patch is made unless the status is what it was.
  unfoldable pub patch_unless_bucket : {A : Type 0} → Dec A → Bucket → M (Option Error)
  unfolding patch_bucket
  patch_unless_bucket (yes same) wanted = pure none
  patch_unless_bucket (no changed) wanted = patch_bucket wanted

  -- What follows the `Get` in a run of `patchStatus`.
  unfoldable pub patch_found_bucket :
      ℕ → (BucketStatus → BucketStatus) → Result Bucket → M (Option Error)
  unfolding patch_unless_bucket
  patch_found_bucket gen mutate (err e) = pure (some e)
  patch_found_bucket gen mutate (ok b) =
      let wanted = wanted_bucket gen mutate b in
      patch_unless_bucket (BucketStatus-discrete b.status wanted.status) wanted

  unfoldable pub fetch_bucket : NamespacedName → M (Result Bucket)
  fetch_bucket name h = let answer = env.get_bucket h name in (answer, bucket_get name answer ∷ h)

  -- One run of the function that `BucketReconciler.patchStatus` retries.
  unfoldable pub patch_bucket_once :
      NamespacedName → ℕ → (BucketStatus → BucketStatus) → M (Option Error)
  unfolding fetch_bucket patch_found_bucket
  patch_bucket_once name gen mutate = do
    answer ← fetch_bucket name
    patch_found_bucket gen mutate answer

  -- `BucketReconciler.patchStatus`.
  unfoldable pub patch_bucket_status :
      NamespacedName → ℕ → (BucketStatus → BucketStatus) → M (Option Error)
  patch_bucket_status name gen mutate = env.retry_on_conflict (patch_bucket_once name gen mutate)

  -- `meta.SetStatusCondition(&p.Status.Conditions, c)` for an access.
  abbrev pub set_access_condition : Condition → BucketAccessStatus → BucketAccessStatus
  set_access_condition c s = record s { conditions = env.set_status_condition s.conditions c }

  unfoldable pub patch_access : BucketAccess → M (Option Error)
  patch_access a h = let answer = env.patch_access h a in (answer, access_patch a answer ∷ h)

  abbrev pub wanted_access :
      ℕ → (BucketAccessStatus → BucketAccessStatus) → BucketAccess → BucketAccess
  wanted_access gen mutate a = record a {
    status = mutate (record a.status { observed_generation = gen });
  }

  -- The patch is made unless the status is what it was.
  unfoldable pub patch_unless_access : {A : Type 0} → Dec A → BucketAccess → M (Option Error)
  unfolding patch_access
  patch_unless_access (yes same) wanted = pure none
  patch_unless_access (no changed) wanted = patch_access wanted

  -- What follows the `Get` in a run of `patchStatus`.
  unfoldable pub patch_found_access :
      ℕ → (BucketAccessStatus → BucketAccessStatus) → Result BucketAccess → M (Option Error)
  unfolding patch_unless_access
  patch_found_access gen mutate (err e) = pure (some e)
  patch_found_access gen mutate (ok a) =
      let wanted = wanted_access gen mutate a in
      patch_unless_access (BucketAccessStatus-discrete a.status wanted.status) wanted

  unfoldable pub fetch_access : NamespacedName → M (Result BucketAccess)
  fetch_access name h = let answer = env.get_access h name in (answer, access_get name answer ∷ h)

  -- One run of the function that `BucketAccessReconciler.patchStatus` retries.
  unfoldable pub patch_access_once :
      NamespacedName → ℕ → (BucketAccessStatus → BucketAccessStatus) → M (Option Error)
  unfolding fetch_access patch_found_access
  patch_access_once name gen mutate = do
    answer ← fetch_access name
    patch_found_access gen mutate answer

  -- `BucketAccessReconciler.patchStatus`.
  unfoldable pub patch_access_status :
      NamespacedName → ℕ → (BucketAccessStatus → BucketAccessStatus) → M (Option Error)
  patch_access_status name gen mutate = env.retry_on_conflict (patch_access_once name gen mutate)
