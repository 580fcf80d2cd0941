-- ===== src/Controller/Principals/Referenced.antt =====
-- `CloudPrincipalResolver.IsReferenced`: what its answer says of the lists that it read.
use vedro.Prelude.{◌≡◌, refl, Bool, false, arith, List, ◌∷◌}
use vedro.Errors.{Result, ok, err}
use vedro.Api.Meta.{ObjectMeta}
use vedro.Api.Access.{BucketAccess}
use vedro.Api.Principal.{CloudPrincipalAuth}
use vedro.Kube.{
  any, access_refers_to_principal, auth_refers_to_principal, principal_is_referenced, either_listed,
  principal_after_accesses, list_accesses, list_auths,
}
use vedro.Kube.Events.{Event, History, access_list, auth_list}
use vedro.Kube.Environment.{Env}
use vedro.Kube.Quiet.{count-cons, Quiet, Quiet-bind, Quiet-pure}

either_listed-false :
    {A B : Type 0} (p : A → Bool) (q : B → Bool) (xs : List A) (answer : Result (List B))
    → either_listed p q xs answer ≡ ok false
    → (ys : List B) × (answer ≡ ok ys) × (any p xs ≡ false) × (any q ys ≡ false)
either_listed-false p q xs (err e) h = cc h
either_listed-false p q xs (ok ys) h = (ys, refl, ground arith, ground arith)

module _ (env : Env) (m : ObjectMeta) where
  -- Both lists were read, and nothing in them refers to the principal.
  abbrev pub Unreferenced : History → Type 0
  Unreferenced h =
      (accesses : List BucketAccess) × (auths : List CloudPrincipalAuth) × (env.list_accesses h
        ≡ ok accesses)
      × (env.list_auths (access_list (ok accesses) ∷ h) ≡ ok auths)
      × (any (access_refers_to_principal m) accesses ≡ false)
      × (any (auth_refers_to_principal m) auths ≡ false)

  after_accesses-Unreferenced :
      (answer : Result (List BucketAccess)) (h : History)
      → env.list_accesses h ≡ answer
      → (principal_after_accesses env m answer (access_list answer ∷ h)).0 ≡ ok false
      → Unreferenced h
  unfolding principal_after_accesses list_auths
  after_accesses-Unreferenced (err e) h listed f = cc f
  after_accesses-Unreferenced (ok accesses) h listed f =
      let (auths, read, no_access, no_auth) =
        either_listed-false (access_refers_to_principal m) (auth_refers_to_principal m) accesses
          (env.list_auths (access_list (ok accesses) ∷ h)) f in
      (accesses, auths, listed, read, no_access, no_auth)

  pub principal_is_referenced-Unreferenced :
      (h : History) → (principal_is_referenced env m h).0 ≡ ok false → Unreferenced h
  unfolding principal_is_referenced
  principal_is_referenced-Unreferenced h e =
      after_accesses-Unreferenced (env.list_accesses h) h refl e

  lists-Quiet :
      {p : Event → Bool}
      → ((a : Result (List BucketAccess)) → p (access_list a) ≡ false)
      → Quiet p (list_accesses env)
  unfolding list_accesses
  lists-Quiet accesses = record { at = λ h. count-cons _ _ h (accesses _) }

  after_accesses-Quiet :
      {p : Event → Bool}
      → ((a : Result (List CloudPrincipalAuth)) → p (auth_list a) ≡ false)
      → (answer : Result (List BucketAccess)) → Quiet p (principal_after_accesses env m answer)
  unfolding principal_after_accesses list_auths
  after_accesses-Quiet auths (err e) = Quiet-pure (err e)
  after_accesses-Quiet auths (ok xs) = record { at = λ h. count-cons _ _ h (auths _) }

  pub principal_is_referenced-Quiet :
      {p : Event → Bool}
      → ((a : Result (List BucketAccess)) → p (access_list a) ≡ false)
      → ((a : Result (List CloudPrincipalAuth)) → p (auth_list a) ≡ false)
      → Quiet p (principal_is_referenced env m)
  unfolding principal_is_referenced
  principal_is_referenced-Quiet accesses auths =
      Quiet-bind (list_accesses env) (principal_after_accesses env m) (lists-Quiet accesses)
        (after_accesses-Quiet auths)
