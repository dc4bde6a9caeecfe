-- ===== src/Reconciler/Run.antt =====
-- `Reconcile`, step by step, for a namespaced name.
use rh_kernel_module_managem.Prelude.{String, not, ◌==◌, List, [], if◌then◌else◌, map}
use rh_kernel_module_managem.Prelude.Dict.{Dict}
use rh_kernel_module_managem.Api.{
  DaemonSet, Node, Module, ModuleLoaderData, Result, ok, err, panic, wrapv, wrapw, wrap_err,
  is_not_found,
}
use rh_kernel_module_managem.Api.Calls.{Act, pure, raise, lift, wrapping, for_each, ◌>>=◌, ◌>>◌}
use rh_kernel_module_managem.KernelMapper.{owner_of, get_module_loader_data_for_kernel}
use rh_kernel_module_managem.DaemonSets.{module_daemon_sets_by_kernel_version}
use rh_kernel_module_managem.StatusUpdater.{module_update_status}
use rh_kernel_module_managem.Reconciler.{
  Env, get_nodes_list_by_selector, get_relevant_kernel_mappings_and_nodes, handle_kernel,
  handle_device_plugin, garbage_collect,
}
use rh_kernel_module_managem.Reconciler.Metrics.{set_kmmo_metrics}

abbrev values {ℓ} : {V : Type ℓ} → Dict V → List V
values m = map (λ e. e.1) m

module _ (env : Env) where
  abbrev pub get_for : Module → String → Result ModuleLoaderData
  get_for m = get_module_loader_data_for_kernel env.parse env.match_string m

  unfoldable pub get_requested_module : String × String → Result Module
  get_requested_module name = wrap_err (wrapw "failed to get the kmmo module") (env.get_module name)

  -- what changes the cluster, once the state is read
  unfoldable pub apply_desired :
      Module → List Node → Dict ModuleLoaderData → List Node → Dict DaemonSet → Act (Unit {0})
  apply_desired m targeted_nodes mld_mappings nodes_with_mapping ds_by_kernel_version = do
    for_each (values mld_mappings) (λ mld. handle_kernel env mld ds_by_kernel_version)
    wrapping (wrapw "could handle device plugin") (handle_device_plugin env m)
    wrapping (wrapv "failed to run garbage collection")
        (garbage_collect env m mld_mappings ds_by_kernel_version)
    wrapping (wrapw "failed to update status of the module") (
        module_update_status env.answer_status m nodes_with_mapping targeted_nodes
          ds_by_kernel_version)

  unfoldable pub reconcile_module : String → Module → Act (Unit {0})
  reconcile_module request_namespace m = do
    if not (request_namespace == env.operator_namespace)
        then wrapping (wrapv "failed to synchronize CA ConfigMaps")
            (env.ca_sync request_namespace (owner_of m))
        else pure tt
    set_kmmo_metrics env.list_modules
    targeted_nodes ←
        lift (
          wrap_err (wrapw "could get targeted nodes for module") (get_nodes_list_by_selector env m))
    found ← lift (
        wrap_err (wrapw "could get kernel mappings and nodes for modules")
          (get_relevant_kernel_mappings_and_nodes (get_for m) [] targeted_nodes))
    ds_by_kernel_version ← lift (
        wrap_err (wrapv "could not get DaemonSets for module") (
          module_daemon_sets_by_kernel_version env.kernel_label env.list_daemon_sets m.name
            m.namespace))
    apply_desired m targeted_nodes found.0 found.1 ds_by_kernel_version

  unfoldable pub reconcile : String × String → Act (Unit {0})
  reconcile name = elim (get_requested_module name) [
    | err e ↦
        if is_not_found e then pure tt else raise (wrapw "failed to get the requested KMMO CR" e)
    | panic ↦ (panic, [])
    | ok m ↦ reconcile_module name.0 m
  ]
