-- ===== src/Gcp/Gcs.antt =====
-- The service beneath internal/cloud/gcp/bucket_api.go: the calls of Google's client of Cloud Storage,
-- each with its answer. An answer may depend on all the calls made before.
pub mod Api
pub mod Policies
pub mod Replay
use vedro.Prelude.{String, Bool, Option, List, ◌∷◌}
use vedro.Prelude.Trace.{Trace}
unfoldable pub use vedro.Prelude.Trace.{◌>>=◌, ◌>>◌, pure}
use vedro.Prelude.Int.{ℤ}
use vedro.Errors.{Error, Result}
use vedro.Gcp.Storage.{GcsAttrs, GcsUpdate}

-- What the code reads of `storage.ObjectAttrs`.
pub record GcsObject : Type 0 where
  pub name : String
  pub generation : ℤ

-- The policies are those of Google's client.
pub data GcsCall (Policy : Type 0) : Type 0 where
  attrs_read : String → Result GcsAttrs → GcsCall Policy
  created : String → String → GcsAttrs → Option Error → GcsCall Policy
  updated : String → GcsUpdate → Result GcsAttrs → GcsCall Policy
  objects_listed : String → List GcsObject × Option Error → GcsCall Policy
  object_removed : String → String → Option ℤ → Option Error → GcsCall Policy
  removed : String → Option Error → GcsCall Policy
  policy_read : String → Result Policy → GcsCall Policy
  policy_written : String → Policy → Option Error → GcsCall Policy

-- The iterator of objects answers with those that it gives and with the error that ends it, if it
-- is not done. The test on errors looks into those of the SDK. `members`, `add` and `remove` are
-- the methods of a policy, at a member and a role.
pub record GcsService (Policy : Type 0) : Type 0 where
  pub read_attrs : List (GcsCall Policy) → String → Result GcsAttrs
  pub create : List (GcsCall Policy) → String → String → GcsAttrs → Option Error
  pub update : List (GcsCall Policy) → String → GcsUpdate → Result GcsAttrs
  pub list_objects : List (GcsCall Policy) → String → List GcsObject × Option Error
  pub remove_object : List (GcsCall Policy) → String → String → Option ℤ → Option Error
  pub remove_bucket : List (GcsCall Policy) → String → Option Error
  pub read_policy : List (GcsCall Policy) → String → Result Policy
  pub write_policy : List (GcsCall Policy) → String → Policy → Option Error
  pub members : Policy → String → List String
  pub add : Policy → String → String → Policy
  pub remove : Policy → String → String → Policy
  pub google_not_found : Error → Bool

-- Go's `strconv.FormatInt` and `strconv.ParseInt`, at base 10 and 64 bits.
pub record GoInt : Type 0 where
  pub format_int : ℤ → String
  pub parse_int : String → Result ℤ

-- A computation that makes calls of the service.
abbrev pub GcsCalls : Type 0 → Type 0 → Type 0
GcsCalls Policy = Trace (GcsCall Policy)

module _ {Policy : Type 0} (service : GcsService Policy) where
  unfoldable pub read_attrs : String → GcsCalls Policy (Result GcsAttrs)
  read_attrs name h = let answer = service.read_attrs h name in (answer, attrs_read name answer ∷ h)

  unfoldable pub create : String → String → GcsAttrs → GcsCalls Policy (Option Error)
  create project name attrs h =
      let answer = service.create h project name attrs in
      (answer, created project name attrs answer ∷ h)

  unfoldable pub update : String → GcsUpdate → GcsCalls Policy (Result GcsAttrs)
  update name changes h =
      let answer = service.update h name changes in (answer, updated name changes answer ∷ h)

  unfoldable pub list_objects : String → GcsCalls Policy (List GcsObject × Option Error)
  list_objects name h =
      let answer = service.list_objects h name in (answer, objects_listed name answer ∷ h)

  unfoldable pub remove_object : String → String → Option ℤ → GcsCalls Policy (Option Error)
  remove_object bucket name generation h =
      let answer = service.remove_object h bucket name generation in
      (answer, object_removed bucket name generation answer ∷ h)

  unfoldable pub remove_bucket : String → GcsCalls Policy (Option Error)
  remove_bucket name h =
      let answer = service.remove_bucket h name in (answer, removed name answer ∷ h)

  unfoldable pub read_policy : String → GcsCalls Policy (Result Policy)
  read_policy name h =
      let answer = service.read_policy h name in (answer, policy_read name answer ∷ h)

  unfoldable pub write_policy : String → Policy → GcsCalls Policy (Option Error)
  write_policy name policy h =
      let answer = service.write_policy h name policy in
      (answer, policy_written name policy answer ∷ h)
