-- ===== src/Errors.antt =====
-- Go's error values, as the program makes and inspects them: the sentinels of
-- internal/cloud/provider.go, `errors.New`, `fmt.Errorf` with `%w`, `errors.Is` at a sentinel, and
-- the two tests of k8s.io/apimachinery's api errors that look through wrapped errors.
use vedro.Prelude.{String, Bool, true, false, ◌⧺◌}

-- The sentinels of internal/cloud/provider.go.
pub data Sentinel : Type 0 where
  bucket_not_found bucket_object_not_found principal_not_found auth_not_found : Sentinel

-- An error answered by the Kubernetes API has a reason; only two are told apart here.
pub data ApiReason : Type 0 where
  not_found conflict other_reason : ApiReason

pub data Error : Type 0 where
  sentinel : Sentinel → Error
  api : ApiReason → String → Error
  plain : String → Error
  prefixed : String → Error → Error

-- `fmt.Errorf("m: %w", e)`.
abbrev pub wrap : String → Error → Error
wrap m e = prefixed (m ⧺ ": ") e

abbrev pub sentinel_message : Sentinel → String
sentinel_message bucket_not_found = "bucket not found"
sentinel_message bucket_object_not_found = "bucket object not found"
sentinel_message principal_not_found = "principal not found"
sentinel_message auth_not_found = "authentication material not found"

-- `err.Error()`; `prefixed m e` is `fmt.Errorf("m%w", e)`.
unfoldable pub message : Error → String
message (sentinel s) = sentinel_message s
message (api r m) = m
message (plain m) = m
message (prefixed m e) = m ⧺ message e

abbrev pub same_sentinel : Sentinel → Sentinel → Bool
same_sentinel bucket_not_found bucket_not_found = true
same_sentinel bucket_object_not_found bucket_object_not_found = true
same_sentinel principal_not_found principal_not_found = true
same_sentinel auth_not_found auth_not_found = true
same_sentinel _ _ = false

-- `errors.Is(err, sentinel)`.
unfoldable pub is_error : Error → Sentinel → Bool
is_error (sentinel t) s = same_sentinel t s
is_error (api r m) s = false
is_error (plain m) s = false
is_error (prefixed m e) s = is_error e s

-- `apierrors.IsNotFound(err)`.
unfoldable pub is_not_found : Error → Bool
is_not_found (sentinel s) = false
is_not_found (api not_found m) = true
is_not_found (api conflict m) = false
is_not_found (api other_reason m) = false
is_not_found (plain m) = false
is_not_found (prefixed m e) = is_not_found e

-- A pair `(value, err)` of which exactly one is set.
pub data Result {ℓ} (A : Type ℓ) : Type ℓ where
  ok : A → Result A
  err : Error → Result A
