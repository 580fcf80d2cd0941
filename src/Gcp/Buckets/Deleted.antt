-- ===== src/Gcp/Buckets/Deleted.antt =====
-- When `DeleteBucket` deletes the bucket.
use vedro.Prelude.{
  ◌++◌, ◌∙◌, sym, if◌then◌else◌, String, Bool, true, false, not, ◌==◌, ◌&&◌, ◌≡◌, refl, Option,
  none, some, is_some, List, [], ◌∷◌, arith, Bool-cases, inl, inr,
}
use mathlib.Core.List.{append-nil, append_assoc}
use vedro.Errors.{Error, is_error, bucket_object_not_found}
use vedro.Api.Meta.{deletion_policy_delete}
use vedro.Api.Bucket.{Bucket}
use vedro.Cloud.{ObjectVersion}
use vedro.Helpers.{bucket_name_for_delete}
use vedro.Kube.{any}
use vedro.Gcp.Client.{Client, Call, objects_process, object_delete, bucket_delete}
use vedro.Gcp.Buckets.{
  first_error, delete_objects, finish_delete, delete_listed, delete_with_objects,
}

-- Every element of the list passes the test.
unfoldable pub all : {A : Type 0} → (A → Bool) → List A → Bool
all p [] = true
all p (x ∷ xs) = p x && all p xs

-- An object was deleted or is gone, or the objects were listed without an error.
abbrev pub settled : Call → Bool
settled (object_delete name o none) = true
settled (object_delete name o (some e)) = is_error e bucket_object_not_found
settled (objects_process name listed) = not (is_some listed.1)
settled _ = true

-- The bucket itself is deleted.
abbrev pub deletes_bucket : Call → Bool
deletes_bucket (bucket_delete name answer) = true
deletes_bucket _ = false

-- The objects that a history of calls was to delete, with their buckets, in the order of the calls.
unfoldable pub deletions : List Call → List (String × ObjectVersion)
deletions [] = []
deletions (object_delete name o answer ∷ h) = deletions h ++ ((name, o) ∷ [])
deletions (c ∷ h) = deletions h

-- All the objects of a listing, in one bucket.
unfoldable pub in_bucket : String → List ObjectVersion → List (String × ObjectVersion)
in_bucket name [] = []
in_bucket name (o ∷ os) = (name, o) ∷ in_bucket name os

module _ (client : Client) (name : String) where
  delete_objects-deletions :
      (os : List ObjectVersion) (first : Option Error) (h : List Call)
      → deletions (delete_objects client name os first h).1 ≡ deletions h ++ in_bucket name os
  unfolding delete_objects deletions in_bucket
  delete_objects-deletions [] first h = sym (append-nil (deletions h))
  delete_objects-deletions (o ∷ os) first h =
      delete_objects-deletions os _ _
      ∙ append_assoc (deletions h) ((name, o) ∷ []) (in_bucket name os)

  finish_delete-deletions :
      (failed first : Option Error) (h : List Call)
      → deletions (finish_delete client name failed first h).1 ≡ deletions h
  unfolding finish_delete deletions
  finish_delete-deletions (some e) first h = refl
  finish_delete-deletions none (some e) h = refl
  finish_delete-deletions none none h = refl

  delete_listed-deletions :
      (os : List ObjectVersion) (failed : Option Error)
      → deletions
          (delete_listed client name (os, failed) (objects_process name (os, failed) ∷ [])).1
        ≡ in_bucket name os
  unfolding delete_listed deletions
  delete_listed-deletions os failed =
      finish_delete-deletions failed _ _
      ∙ delete_objects-deletions os none (objects_process name (os, failed) ∷ [])

  first_error-settled :
      (first answer : Option Error) (o : ObjectVersion) (h : List Call)
      → is_some first ≡ not (all settled h)
      → is_some (first_error first answer) ≡ not (all settled (object_delete name o answer ∷ h))
  unfolding all
  first_error-settled first none o h e = e
  first_error-settled none (some f) o h e = ground arith
  first_error-settled (some g) (some f) o h e = ground arith

  delete_objects-settled :
      (os : List ObjectVersion) (first : Option Error) (h : List Call)
      → is_some first ≡ not (all settled h)
      → is_some (delete_objects client name os first h).0
        ≡ not (all settled (delete_objects client name os first h).1)
  unfolding delete_objects
  delete_objects-settled [] first h e = e
  delete_objects-settled (o ∷ os) first h e =
      delete_objects-settled os _ _ (first_error-settled first _ o h e)

  delete_objects-unsettled :
      (os : List ObjectVersion) (first : Option Error) (h : List Call)
      → all settled h ≡ false
      → all settled (delete_objects client name os first h).1 ≡ false
  unfolding delete_objects all
  delete_objects-unsettled [] first h e = e
  delete_objects-unsettled (o ∷ os) first h e = delete_objects-unsettled os _ _ (ground arith)

  delete_objects-keeps :
      (os : List ObjectVersion) (first : Option Error) (h : List Call)
      → any deletes_bucket (delete_objects client name os first h).1 ≡ any deletes_bucket h
  unfolding delete_objects any
  delete_objects-keeps [] first h = refl
  delete_objects-keeps (o ∷ os) first h = delete_objects-keeps os _ _

  finish_delete-settled :
      (first : Option Error) (h : List Call)
      → is_some first ≡ not (all settled h)
      → any deletes_bucket h ≡ false
      → any deletes_bucket (finish_delete client name none first h).1
        ≡ all settled (finish_delete client name none first h).1
  unfolding finish_delete all any
  finish_delete-settled none h e k = ground arith
  finish_delete-settled (some f) h e k = ground arith

  delete_listed-settled :
      (os : List ObjectVersion) (failed : Option Error)
      → any deletes_bucket
          (delete_listed client name (os, failed) (objects_process name (os, failed) ∷ [])).1
        ≡ all settled
            (delete_listed client name (os, failed) (objects_process name (os, failed) ∷ [])).1
  unfolding delete_listed finish_delete all any
  delete_listed-settled os none =
      let h = objects_process name (os, none) ∷ [] in
      finish_delete-settled _ _ (delete_objects-settled os none h refl)
        (delete_objects-keeps os none h)
  delete_listed-settled os (some e) =
      let h = objects_process name (os, some e) ∷ [] in
      ground (arith, delete_objects-unsettled os none h refl, delete_objects-keeps os none h)

-- Under the deletion policy Delete, `DeleteBucket` calls `DeleteObject` once for each object that was
-- listed, and otherwise for none; and it deletes the bucket itself exactly
-- when the policy is Delete, the objects were listed without an error, and each of these calls deleted
-- its object or found it gone.
pub delete_with_objects-settled :
    (client : Client) (b : Bucket)
    → (deletions (delete_with_objects client b []).1 ≡ (
        if b.spec.deletion_policy == deletion_policy_delete
        then in_bucket
            (bucket_name_for_delete b)
            (client.process_objects [] (bucket_name_for_delete b)).0
        else []))
      × (any deletes_bucket (delete_with_objects client b []).1 ≡ (
          b.spec.deletion_policy == deletion_policy_delete
          && all settled (delete_with_objects client b []).1))
unfolding delete_with_objects any deletions
delete_with_objects-settled client b =
    elim (Bool-cases (b.spec.deletion_policy == deletion_policy_delete)) [
      | inl delete ↦
          let name = bucket_name_for_delete b in
          let (os, failed) = client.process_objects [] name in
          rw delete (
            delete_listed-deletions client name os failed,
            delete_listed-settled client name os failed,
          )
      | inr retain ↦ rw retain (refl, refl)
    ]
