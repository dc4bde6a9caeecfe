-- ===== src/DaemonSets.antt =====
-- internal/daemonset/daemonset.go: the DaemonSets of a module. Filling them in and the modprobe
-- commands are in the modules below.
pub mod Commands
pub mod Unload
pub mod Desired
pub mod Wired
pub mod Collect
pub mod ByKernel
use rh_kernel_module_managem.Prelude.{
  String, Bool, true, false, not, ◌&&◌, ◌==◌, ◌<>◌, Option, none, some, List, [], ◌∷◌,
  if◌then◌else◌, mem, get_or, is_some,
}
use rh_kernel_module_managem.Prelude.Dict.{Dict, lookup, insert}
use rh_kernel_module_managem.Api.{
  DaemonSet, Pod, Error, Result, ok, err, panic, errorf, wrapv, wrapw, wrap_err,
}
use rh_kernel_module_managem.Api.Errors.{◌>>=◌ as bind_result}
use rh_kernel_module_managem.Api.Calls.{Act, pure, call, wrapping, delete_ds, ◌>>=◌, ◌>>◌}

abbrev pub module_name_label : String
module_name_label = "kmm.node.kubernetes.io/module.name"

abbrev pub label_of : String → Dict String → String
label_of key labels = get_or (lookup key labels) ""

unfoldable pub get_driver_container_node_label : String → String
get_driver_container_node_label module_name = "kmm.node.kubernetes.io/" <> module_name <> ".ready"

unfoldable pub get_device_plugin_node_label : String → String
get_device_plugin_node_label module_name =
    "kmm.node.kubernetes.io/" <> module_name <> ".device-plugin-ready"

unfoldable pub is_device_plugin_kernel_version : String → Bool
is_device_plugin_kernel_version kernel_version = kernel_version == ""

unfoldable pub override_labels : Dict String → Dict String → Dict String
override_labels labels [] = labels
override_labels labels ((k, v) ∷ overrides) = override_labels (insert k v labels) overrides

unfoldable pub get_pod_pull_secrets : Option String → List String
get_pod_pull_secrets none = []
get_pod_pull_secrets (some s) = s ∷ []

-- The field `kernelLabel` of the generator.
module _ (kernel_label : String) where
  unfoldable pub get_node_label_from_pod : Pod → String → String
  unfolding is_device_plugin_kernel_version
  get_node_label_from_pod pod module_name =
      if is_device_plugin_kernel_version (label_of kernel_label pod.labels)
      then get_device_plugin_node_label module_name
      else get_driver_container_node_label module_name

  unfoldable pub is_device_plugin_daemon_set : DaemonSet → Bool
  is_device_plugin_daemon_set ds = label_of kernel_label ds.labels == ""

  -- the loop over the listed DaemonSets
  unfoldable pub index_by_kernel : Dict DaemonSet → List DaemonSet → Result (Dict DaemonSet)
  index_by_kernel found [] = ok found
  index_by_kernel found (ds ∷ rest) =
      let kernel_version = label_of kernel_label ds.labels in
      let next = index_by_kernel (insert kernel_version ds found) rest in
      if is_some (lookup kernel_version found)
      then err (errorf "multiple DaemonSets found for kernel")
      else next

  -- `list_daemon_sets` answers with the DaemonSets of a namespace that carry a module's name.
  unfoldable pub module_daemon_sets_by_kernel_version :
      (String → String → Result (List DaemonSet)) → String → String → Result (Dict DaemonSet)
  module_daemon_sets_by_kernel_version list_daemon_sets name namespace =
      bind_result
        (wrap_err (wrapw "could not get all DaemonSets")
          (wrap_err (wrapv "could not list DaemonSets") (list_daemon_sets name namespace)))
        (index_by_kernel [])

  unfoldable pub garbage_collect :
      (DaemonSet → Option Error) → Dict DaemonSet → List String → Act (List String)
  garbage_collect answer_delete [] valid_kernels = pure []
  garbage_collect answer_delete ((kernel_version, ds) ∷ existing) valid_kernels =
      let rest = garbage_collect answer_delete existing valid_kernels in
      if not (is_device_plugin_daemon_set ds) && not (mem kernel_version valid_kernels)
      then (do
        wrapping (wrapv "could not delete DaemonSet") (call (delete_ds ds) (answer_delete ds))
        deleted ← rest
        pure (ds.name ∷ deleted))
      else rest
