-- ===== src/Reconciler.antt =====
-- controllers/module_reconciler.go: the reconciliation of a Module.
pub mod Mappings
pub mod Gates
pub mod Metrics
pub mod Run
pub mod Deletes
pub mod Reads
pub mod OnlyStale
use rh_kernel_module_managem.Prelude.{
  ℕ, suc, String, Bool, true, false, not, ◌&&◌, ◌==◌, ◌<>◌, Option, none, some, List, [], ◌∷◌,
  if◌then◌else◌, length, mem, is_some, get_or, filter, join, trim_suffix,
}
use rh_kernel_module_managem.Prelude.Dict.{Dict, lookup, insert, keys}
use rh_kernel_module_managem.Api.{
  DaemonSet, Node, Job, OcpBuild, KernelMapping, ModprobeArgs, Module, ModuleLoaderData, Owner,
  Error, Result, ok, err, panic, wrapv, wrapw, wrap_err, is_not_found,
}
use rh_kernel_module_managem.Api.Errors.{◌>>=◌ as bind_result}
use rh_kernel_module_managem.Api.Calls.{
  Act, pure, raise, lift, call, wrapping, for_each, set_gauge, ◌>>=◌, ◌>>◌,
}
use rh_kernel_module_managem.Images.{intermediate_image_name}
use rh_kernel_module_managem.KernelMapper.{
  owner_of, get_module_loader_data_for_kernel, should_be_built,
}
use rh_kernel_module_managem.JobHelper.{JobsApi, Status, completed}
use rh_kernel_module_managem.SignManager
use rh_kernel_module_managem.BuildManager
use rh_kernel_module_managem.DaemonSets
use rh_kernel_module_managem.DaemonSets.Desired.{
  set_driver_container_as_desired, set_device_plugin_as_desired,
}
use rh_kernel_module_managem.StatusUpdater.{module_update_status}

unfoldable pub is_node_schedulable : Node → Bool
is_node_schedulable node = not (mem "NoSchedule" node.taint_effects)

abbrev pub kernel_of : Node → String
kernel_of node = trim_suffix node.kernel_version b'+'

abbrev with_node :
    Node → Result (Dict ModuleLoaderData × List Node) → Result (Dict ModuleLoaderData × List Node)
with_node node r = bind_result r (λ s. ok (s.0, node ∷ s.1))

-- `get` is `GetModuleLoaderDataForKernel` of the module, `mld_mappings` the cache filled so far.
module _ (get : String → Result ModuleLoaderData) where
  unfoldable pub get_relevant_kernel_mappings_and_nodes :
      Dict ModuleLoaderData → List Node → Result (Dict ModuleLoaderData × List Node)
  get_relevant_kernel_mappings_and_nodes mld_mappings [] = ok (mld_mappings, [])
  get_relevant_kernel_mappings_and_nodes mld_mappings (node ∷ nodes) =
      elim (lookup (kernel_of node) mld_mappings) [
        | some mld ↦ with_node node (get_relevant_kernel_mappings_and_nodes mld_mappings nodes)
        | none ↦ elim (get (kernel_of node)) [
          | ok mld ↦ with_node node (
              get_relevant_kernel_mappings_and_nodes (insert (kernel_of node) mld mld_mappings)
                nodes)
          | err e ↦ get_relevant_kernel_mappings_and_nodes mld_mappings nodes
          | panic ↦ panic
        ]
      ]

-- What the reconciler takes from the libraries and from the API server.
pub record Env : Type 0 where
  pub kernel_label : String
  pub operator_namespace : String
  pub match_string : String → String → Result Bool
  pub parse : List String → String → Result String
  pub get_module : String × String → Result Module
  pub list_modules : Result (List Module)
  pub list_nodes : Dict String → Result (List Node)
  pub list_daemon_sets : String → String → Result (List DaemonSet)
  pub answer_delete_ds : DaemonSet → Option Error
  pub answer_status : Module → Option Error
  pub create_or_patch : DaemonSet → (DaemonSet → Result DaemonSet) → Act (Unit {0})
  pub set_controller_reference : Owner → DaemonSet → Result DaemonSet
  pub registry_image_exists : ModuleLoaderData → String → Result Bool
  pub builds : BuildManager.BuildsApi
  pub make_build : BuildManager.Maker
  pub jobs : JobsApi
  pub make_job : SignManager.Signer
  pub ca_sync : String → Owner → Act (Unit {0})

abbrev is_completed : Status → Bool
is_completed completed = true
is_completed _ = false

abbrev new_driver_ds : ModuleLoaderData → DaemonSet
new_driver_ds mld = record {
  name = "";
  generate_name = mld.name <> "-";
  namespace = mld.namespace;
  labels = [];
  controller = none;
  spec = none;
  number_available = 0;
}

abbrev new_plugin_ds : Module → DaemonSet
new_plugin_ds m = record {
  name = m.name <> "-device-plugin";
  generate_name = "";
  namespace = m.namespace;
  labels = [];
  controller = none;
  spec = none;
  number_available = 0;
}

unfoldable pub previous_image : ModuleLoaderData → String
previous_image mld =
    if should_be_built mld
    then intermediate_image_name mld.name mld.namespace mld.container_image
    else ""

module _ (env : Env) where
  unfoldable pub get_nodes_list_by_selector : Module → Result (List Node)
  get_nodes_list_by_selector m =
      bind_result (wrap_err (wrapv "could not list nodes") (env.list_nodes m.spec.selector))
        (λ selected_nodes. ok (filter is_node_schedulable selected_nodes))

  unfoldable pub handle_build : ModuleLoaderData → Act Bool
  handle_build mld = do
    should_sync ← lift (
        wrap_err (wrapw "could not check if build synchronization is needed")
          (BuildManager.should_sync env.registry_image_exists mld))
    if not should_sync then pure true else (do
      status ←
          wrapping (wrapw "could not synchronize the build")
            (BuildManager.sync env.builds env.make_build mld true mld.owner)
      pure (is_completed status))

  unfoldable pub handle_signing : ModuleLoaderData → Act Bool
  handle_signing mld = do
    should_sync ← lift (
        wrap_err (wrapw "cound not check if synchronization is needed")
          (SignManager.should_sync env.registry_image_exists mld))
    if not should_sync then pure true else (do
      status ←
          wrapping (wrapw "could not synchronize the signing")
            (SignManager.sync env.jobs env.make_job mld (previous_image mld) true mld.owner)
      pure (is_completed status))

  unfoldable pub handle_driver_container : ModuleLoaderData → Dict DaemonSet → Act (Unit {0})
  handle_driver_container mld ds_by_kernel_version =
      env.create_or_patch
        (get_or (lookup mld.kernel_version ds_by_kernel_version) (new_driver_ds mld))
        (λ d.
          set_driver_container_as_desired env.set_controller_reference env.kernel_label (some d) mld
            (mld.namespace == env.operator_namespace))

  unfoldable pub handle_device_plugin : Module → Act (Unit {0})
  handle_device_plugin m =
      if is_some m.spec.device_plugin
      then env.create_or_patch (new_plugin_ds m) (λ d.
        set_device_plugin_as_desired env.set_controller_reference (some d) m
          (m.namespace == env.operator_namespace))
      else pure tt

  unfoldable pub garbage_collect : Module → Dict ModuleLoaderData → Dict DaemonSet → Act (Unit {0})
  garbage_collect m mld_mappings existing_ds = do
    deleted ← wrapping (wrapv "could not garbage collect DaemonSets") (
        DaemonSets.garbage_collect env.kernel_label env.answer_delete_ds existing_ds
          (keys mld_mappings))
    deleted_builds ←
        wrapping (wrapv "could not garbage collect build objects")
          (BuildManager.garbage_collect m.name m.namespace (owner_of m))
    deleted_jobs ←
        wrapping (wrapv "could not garbage collect sign objects")
          (SignManager.garbage_collect env.jobs m.name m.namespace (owner_of m))
    pure tt

  -- the body of the loop over the kernels
  unfoldable pub handle_kernel : ModuleLoaderData → Dict DaemonSet → Act (Unit {0})
  handle_kernel mld ds_by_kernel_version = do
    built ← wrapping (wrapv "failed to handle build for kernel version") (handle_build mld)
    if not built then pure tt else (do
      signed ← wrapping (wrapv "failed to handle signing for kernel version") (handle_signing mld)
      if not signed
          then pure tt
          else wrapping (wrapv "failed to handle driver container for kernel version")
              (handle_driver_container mld ds_by_kernel_version))
