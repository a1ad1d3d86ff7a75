-- ===== src/Lib.antt =====
-- The dual-deployment operator: one custom resource is rendered twice, for a seed cluster and for a
-- shoot cluster, and both renders are delivered by server-side apply, with an inventory in the
-- status that decides what is pruned and what is deleted.
--
-- The parts, and the files that model them:
--   Api         api/v1alpha1/dualdeploymentoperator_types.go: the spec and status as records
--   Manifest    internal/manifest: Manifest, OwnedByValue, ApplyNamespace, Parse
--   Deliver     internal/deliver: Order (order.go), Health (health.go), CaBundle (cabundle.go),
--               Applier (applier.go); Identity relates the two identity keys of order.go
--   Transform   internal/transform: Selection (selector.go), FilterKinds, RewriteWebhookUrl,
--               Patching (patch.go), Build (transform.go)
--   Clients     internal/clients: ShootRESTConfig
--   Controller  internal/controller/dualdeploymentoperator_controller.go: Reconciler (the struct,
--               its appliers, errStatus, finishNotReady), Conditions (computeConditions and its
--               tests), Delivery (applyAll), Prune (prune), Cleanup and Deletion (reconcileDelete),
--               Render (Reconcile up to the transformations), Reconcile (the rest of it), Runs (many
--               reconciliations and what happens between them)
--   Source      internal/source: Credentials (credentials.go), Cache (cachekey.go, rendercache.go
--               and the Render of cache.go), Helm (helm.go), Kustomize (kustomize.go), Url and Git
--               (gitresolver.go), Plan (resolveDepsPlan) and Loader (the rest of helmloader.go),
--               Select (source.go and the rest of cache.go); the modules Calls and Confined are
--               about the calls that fetching and rendering make
--   Equivalence internal/equivalence: Objects (set.go), Allowlist, Normalize, Compare, Scope,
--               Classify (golden_classify.go), Golden (golden_render.go), Capture
--               (operator_capture.go), Fixture
--   Webhook     internal/webhook: the validator and its registration
--   Startup     cmd/main.go: Options (flags and options), and the set-up up to the start; Operator
--               is about the runs of the reconciler that it makes
--   Base, Json  shared helpers; the values of unstructured objects
--   Library     the code outside the repository, as a record of operations
--   Tests       an implementation of Library, two clusters in memory, and the theorems at
--               concrete inputs
--
-- A Go function `fooBar` is `foo_bar`; where a function calls the outside world and goes on with
-- the answer, what follows the call is a function of its own. A pair (value, error) is a `Result`,
-- a nil error is `none`. What Apply, StripInternalAnnotations and the other in-place changes do to
-- the shared *Unstructured is written out: the changed manifest is returned, and the reconciler
-- goes on with it, as its slices do.
--
-- Calls that act on a cluster, on the API server, or on the clock are actions `M S` on a world `S`
-- that is left abstract: the records Client, Applier, Source and Reconciler hold such actions.
-- Statements on what is called and what is not have the form `Keeps P m`: a property P of the
-- world that the calls allowed keep is kept by the operation m. For instance P may say that the
-- objects of one cluster are the ones that they were.
--
-- A run of the operator is a path of the relation Step in Controller/Runs: a step is a whole
-- reconciliation of some custom resource, or anything else that leaves the object in question as it
-- is. Reconciliations are atomic there: what others do comes between two of them, not between the
-- read and the write of one. Deliver/Applier/Store says what a client is as a view of the objects of
-- all clusters: reads tell the truth, and a write changes the object that it names only.
--
-- The record Library holds what the code takes from apimachinery, controller-runtime, the patch
-- libraries and the Go library: accessors of unstructured objects, the decoder of a YAML stream,
-- parsing of apiVersions, aggregates of errors, conditions, finalizers, SHA-256 and formatting. Its
-- record Documented states the documented behaviour that some theorems rely on, and is an explicit
-- hypothesis of those. No theorem relies on a property of the hash or of the patch libraries.
--
-- All loops are structural recursion over lists, values and texts, so no fuel is needed. Durations
-- are in seconds.
-- The clock gives natural numbers. Generations are natural numbers, and no code computes with them.
--
-- The fetchers of Source take their libraries as records: UrlLibrary (net/url), GitLibrary (go-git),
-- Registry (Helm's registry, downloader and chart loader), FileSystem and ChartFiles. Reads of the
-- file system are functions of the world and leave it as it is. The comparison of Equivalence works
-- on values: what StripAllowlist, Normalize and Scope.Apply change in place is returned. The maps
-- of objects that it iterates over are association lists, and the reports are sorted, as in the
-- source.
--
-- The process start takes the environment, the manager and its builders, and the LRU cache from the
-- record Host; the flags are given with their values.
--
-- Not modelled: logging; the parsing of flags and the scheme; SeedClient, which passes its arguments
-- on to the library and has no caller; generated code.
pub mod Base
pub mod Json
pub mod Api
pub mod Library
pub mod Manifest
pub mod Deliver
pub mod Transform
pub mod Clients
pub mod Controller
pub mod Source
pub mod Equivalence
pub mod Webhook
pub mod Startup
mod Tests
