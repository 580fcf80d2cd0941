-- ===== src/Lib.antt =====
-- Vedro: a Kubernetes operator that keeps buckets, principals, their credentials and accesses of a
-- cloud as its resources describe them.
--
-- The parts of the program and the files that model them:
--   Api             api/v1alpha1: the specs and statuses of the resources, as records
--   Conditions      internal/conditions: the types and the reasons of conditions
--   Errors          Go's errors, with the sentinels of internal/cloud/provider.go
--   Helpers         internal/helpers/helpers.go: external names, IAM members
--   Resolvers       internal/resolvers: when a resource is ready, provisioned, to be deleted
--   UsagePolicy     internal/usagepolicy/policy.go: what a ProviderConfig allows
--   Validation      internal/validation: locations, names, settings, usage policies
--   Cloud           internal/cloud/provider.go: capabilities and the values of a provider
--   Capabilities    internal/capabilities: what a spec asks for and a provider lacks
--   Gcp             internal/cloud/gcp: normalization.go (Normalization), bucket.go (Patch, Specs,
--                   Buckets) and bucket_access.go (Accesses), over a cloud.BucketAPI (Client);
--                   bucket_api.go: its mappings (Storage) and its calls of Google's client (Gcs),
--                   and with these a cloud.BucketAPI for the provider (Gcs.Replay);
--                   over the calls of IAM (Iam): helpers.go (Bindings), principal.go with the
--                   principals of principal_api.go (Principals), and principal_auth.go with its
--                   authentications (Auths); provider.go (Provider)
--   Kube            the calls of the reconcilers, and Resolve and IsReferenced of the resolvers
--   Controller      internal/controller: helpers.go (Finish), provider_setup.go, bucket_setup.go and
--                   cloudprincipal_setup.go (Setup), patchStatus (Patch),
--                   bucket_controller.go (Buckets), bucket_access_controller.go (Accesses),
--                   cloudprincipal_controller.go (Principals), provider_config_controller.go
--                   (Configs), and the functions that map watched objects to requests (Watches)
--   Tests           concrete inputs
--
-- How they interact. A reconciler is a computation `M` that passes on the history of its calls: each
-- call asks the environment `Env`, whose answers are functions of that history, and adds what it asked
-- and was answered. So a theorem about every environment covers every server and cloud, every failure
-- and every change that others make between two calls. `Reconcile` resolves its resource, deletes it
-- if it is marked so (delete_bucket), adds the finalizer (reconcile_found), prepares the provider
-- (prepare_provider), asks the usage policy, the capabilities and the provider's validation
-- (with_provider, check_features, validate_bucket), ensures the bucket and patches the status
-- (patch_bucket_status). A return and a panic are values of Finish; the deferred Cleanup is
-- with_cleanup. A Go function that returns in many places is one definition for each stretch.
--
-- Parameters, since their code is not in the repository: controller-runtime's client and finalizer
-- helpers, meta.SetStatusCondition, retry.RetryOnConflict, Go's regexp at patterns of users, the
-- cloud clients. What is assumed of them is named where it is used (RetriesConflicts: the argument is
-- run at least once and again only after a conflict; HandlesFinalizers; KeepsBuckets: the
-- client of Cloud Storage answers with what it stores, and stores properties that it can keep as
-- they are; KeepsAccesses: it keeps who has which level on which bucket, the bucket's id left aside;
-- KeepsPolicies and KeepsAccounts: so does IAM with the bindings and the service accounts;
-- KeepsBucketPolicies and MissesBuckets: and Cloud Storage with the policies of buckets, none in a
-- bucket that is not found).
--
-- The provider of Google Cloud is modelled in the same way over the history of its client's calls.
-- The objects of a bucket are deleted by a pool of workers: the client answers with them in the order
-- in which the pool finished, so every order is covered.
--
-- Bounds. Generations and times are natural numbers; a duration is an integer of nanoseconds. All
-- recursion is on the structure of lists and strings, so no fuel is needed; the number of retries is
-- that of the parameter.
--
-- Not modelled: logging, metrics, the registration of watches, the scheme and the manager; Reconcile of
-- CloudPrincipalAuth; how the Google clients of internal/cloud/gcp are made and closed, and the other
-- clouds.
pub mod Prelude
pub mod Conditions
pub mod Errors
pub mod Api
pub mod Helpers
pub mod Resolvers
pub mod UsagePolicy
pub mod Validation
pub mod Cloud
pub mod Capabilities
pub mod Gcp
pub mod Kube
pub mod Controller
pub mod Tests
