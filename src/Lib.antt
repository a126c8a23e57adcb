-- ===== src/Lib.antt =====
-- Verification of dockyards-flux2, the controllers and webhooks that turn the workloads of Dockyards
-- into objects of Flux.
--
-- A workload names a template, written in CUE. The webhooks of webhooks/ default and validate workloads
-- and templates as they enter the cluster; the workload controller of controllers/ renders the template
-- into Flux objects; the inventory controllers, one each for kustomizations, Helm releases and source
-- repositories, publish what Flux made as WorkloadInventory objects; and the worktree controller
-- publishes a Worktree of Dockyards as a GitRepository of Flux. The parts share no memory: they meet in
-- the objects of the cluster, by the labels and the owner references that they set.
--
-- Files:
-- - Base: equality of strings, splits, Go results (Result for value or error, Outcome where code can also
--   panic), nilable string maps, path.Join and filepath.Base, and views: objects by their keys.
-- - Api: the objects with the fields that the code uses, the constants of the API, and the interfaces
--   of what is not in this repository: ApiErrors (client.IgnoreNotFound, apierrors.IsNotFound), Reader
--   (client.Reader), GroupVersions (schema.ParseGroupVersion), Cue (cuelang.org/go and os.Getwd), World
--   (the cluster as a state, controllerutil.CreateOrPatch, the patch helper and kerrors.NewAggregate),
--   each beside a record of the laws that its documentation gives.
-- - Webhooks/Workload: webhooks/workload_webhook.go. Default is default, of which default_workload is the
--   part for a workload; findClusterOwnerReference is find_cluster_owner_reference; validate, ValidateCreate
--   and ValidateUpdate are validate, validate_create and validate_update of Webhooks/Workload/Validate,
--   and validateClusterReference is validate_cluster_reference of Webhooks/Workload/Reference.
-- - Webhooks/Template: webhooks/workloadtemplate_webhook.go. validate is validate_workload_template, and its
--   two loops are append_instance_errors and append_build_errors; a line is at most 65536 bytes, the
--   size of the scanner's buffer, and Scan describes its text by the line in the source.
-- - Controllers/Inventory: what the callbacks of the inventory controllers have in common.
-- - Controllers/Kustomization, HelmRelease, SourceRepository and Worktree: kustomization_controller.go,
--   helmrelease_controller.go, sourcerepository_controller.go and dockyardsworktree_controller.go of
--   controllers/. Reconcile is reconcile_kustomization and so on, and reconcileWorkloadInventory is
--   reconcile_kustomization_inventory and so on.
-- - Controllers/InventoryNames: the suffixes of the names of the inventories.
-- - Controllers/Workload: controllers/dockyardsworkload_controller.go. reconcileWorkloadTemplate is
--   reconcile_workload_template, which gives the verdict that mark writes into the conditions;
--   reconcileReconcilingCondition is reconcile_progress with mark_progress, the deferred function is
--   finish_workload, Reconcile is reconcile_workload, and ensureValidJSON is ensure_valid_json.
--   Api/Rendering and Api/Conditions are the interfaces of what it calls. Desired is the specification
--   of the loop over the fields, a function of the objects that were there; Marked and Again draw on it.
--   Reaching and Prefix say how far a reconciliation comes, and Refined, Kept and Untouched carry that
--   over to Reconcile as a whole, with the law of the patch of the workload, PatchesOnly, in Kept, and
--   Rounds to sequences of it.
--   Marks writes out the conditions that a reconciliation leaves. Paths is about ensureValidJSON, with
--   encoding/base64 by its documentation. Lists has the law of SetNestedMap at values that are not of JSON,
--   PanicsOffJson, which Panics and Returns draw on.
--   Admitted brings the patch of the workload together with the webhook.
-- - Controllers/ConditionReasons: controllers/condition_consts.go.
-- - Controllers/Sources: the four inventory controllers as one, for a Source of any of the four kinds.
--   Frames is about one reconciliation, Interleaving and Provenance about sequences of them for any
--   objects, Run and Trace, and Convergence about what a sequence leaves of itself. Reading and Histories
--   carry that over to Reconcile of the controllers, with what it reads and with the deferred patch.
-- - Controllers/Pipeline and EndToEnd: the way from a workload to the inventory of what it renders.
-- - Ingress: pkg/ingressutil/ingressutil.go, where GetURLsFromIngress is get_urls_from_ingress.
-- - Manager: main.go, where main is start_program; Manager/Setup has each SetupWithManager, and
--   Manager/Events what controller-runtime makes of their registrations.
-- - Command: cmd/create-workload-template/main.go, where main is create_workload_template.
-- - Examples: runs, and the theorems applied at concrete inputs.
--
-- A nil pointer is none, a nil error is none, and a panic is an outcome. A reconciliation takes the state
-- of the cluster and gives the next one; the only calls that change it are those of World and of
-- WorkloadWorld, and for Command that of Tool. The law of CreateOrPatch has what the callback made stored as
-- it is: the UID that a server gives to a new object, and the defaults that it fills in, are left out.
-- Every loop of the source runs over a list and is structural recursion, so that no fuel is used.
--
-- Not modelled: the log lines and the printed result; the reading of the flags; the directives and
-- imports of generate.go and tools.go; test/, cue.mod/, config/ and hack/.
pub mod Base
pub mod Api
pub mod Webhooks
pub mod Controllers
pub mod Ingress
pub mod Manager
pub mod Command
pub mod Examples
