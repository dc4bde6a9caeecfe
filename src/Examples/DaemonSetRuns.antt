-- ===== src/Examples/DaemonSetRuns.antt =====
-- The DaemonSets of a module, and their status, at concrete inputs.
use rh_kernel_module_managem.Prelude.{
  String, List, ◌≡◌, refl, true, none, some, [], ◌∷◌, map, arith,
}
use rh_kernel_module_managem.Prelude.Dict.{Dict, lookup}
use rh_kernel_module_managem.Api.{no_source, DevicePluginSpec, DaemonSet, Owner, Module, Result, ok}
use rh_kernel_module_managem.Api.Calls.{delete_ds}
use rh_kernel_module_managem.DaemonSets.{
  is_device_plugin_daemon_set, garbage_collect, index_by_kernel, override_labels,
}
use rh_kernel_module_managem.DaemonSets.Collect.{names, stale, garbage_collect_all}
use rh_kernel_module_managem.DaemonSets.ByKernel.{find_ds, index_by_kernel_lem}
use rh_kernel_module_managem.DaemonSets.Desired.{
  set_device_plugin_as_desired, device_plugin_spec, set_driver_container_as_desired, driver_spec,
  driver_labels,
}
use rh_kernel_module_managem.DaemonSets.Wired.{
  IsForKernel, IsForPlugin, set_driver_container_lem, set_device_plugin_lem,
}
use rh_kernel_module_managem.StatusUpdater.{module_status}
use rh_kernel_module_managem.StatusUpdater.Counts.{exact_status, module_status_lem}
use rh_kernel_module_managem.Examples.Data.{data_with, ds_of, kernel, kmod, node_on}

abbrev existing : Dict DaemonSet
existing =
    ("4.18.0-1", ds_of "old" "4.18.0-1")
    ∷ ("", ds_of "plugin" "")
    ∷ (kernel, ds_of "new" kernel)
    ∷ []

garbage_collect_all_example : garbage_collect "kernel" (λ _. none) existing (kernel ∷ []) ≡ (
  ok (names (stale "kernel" (kernel ∷ []) existing)),
  map delete_ds (stale "kernel" (kernel ∷ []) existing),
)
garbage_collect_all_example = garbage_collect_all "kernel" (kernel ∷ []) existing

abbrev listed : List DaemonSet
listed = ds_of "old" "4.18.0-1" ∷ ds_of "plugin" "" ∷ ds_of "new" kernel ∷ []

index_by_kernel_example :
    (m : Dict DaemonSet) × (index_by_kernel "kernel" [] listed ≡ ok m)
    × ((k : String) → lookup k m ≡ find_ds "kernel" k listed)
unfolding lookup
index_by_kernel_example = index_by_kernel_lem "kernel" listed (refl, (refl, (refl, tt)))

-- the controller is set, and nothing else
abbrev set_controller : Owner → DaemonSet → Result DaemonSet
set_controller o ds = ok (record ds { controller = some o.uid })

abbrev desired : DaemonSet
desired = record (ds_of "new" kernel) {
  labels = override_labels (ds_of "new" kernel).labels (driver_labels "kernel" (data_with none));
  controller = some "uid-1";
  spec = some (driver_spec "kernel" (data_with none) true);
}

set_driver_container_example : IsForKernel "kernel" (data_with none) desired
unfolding set_driver_container_as_desired
set_driver_container_example =
    set_driver_container_lem "kernel" (data_with none) set_controller true (ds_of "new" kernel)
      desired (λ o ds ds' e. (ground (arith, e), ground (arith, e))) refl refl

abbrev plugin : DevicePluginSpec
plugin = record {
  container = record {
    command = [];
    args = [];
    env = [];
    image = "plugin";
    image_pull_policy = "";
    resources = "";
    volume_mounts = record { name = "data"; read_only = true; mount_path = "/data" } ∷ [];
  };
  service_account_name = "";
  volumes = record { name = "data"; source = no_source } ∷ [];
}

-- the module with a device plugin
abbrev with_plugin : Module
with_plugin = record kmod { spec = record kmod.spec { device_plugin = some plugin } }

abbrev desired_plugin : DaemonSet
desired_plugin = record (ds_of "plugin" "") {
  labels =
      override_labels (ds_of "plugin" "").labels
        (("kmm.node.kubernetes.io/module.name", "kmod") ∷ []);
  controller = some "uid-1";
  spec = some (device_plugin_spec with_plugin plugin true);
}

set_device_plugin_example : IsForPlugin "kernel" desired_plugin
unfolding set_device_plugin_as_desired is_device_plugin_daemon_set lookup
set_device_plugin_example =
    set_device_plugin_lem "kernel" plugin set_controller with_plugin true (ds_of "plugin" "")
      desired_plugin (λ o d d' e. (ground (arith, e), ground (arith, e))) refl refl (refl, tt) refl
      refl

module_status_example :
    let s =
      module_status with_plugin
        (node_on kernel ∷ [])
        (node_on kernel ∷ node_on "6.1" ∷ [])
        existing in
    (s.module_loader ≡ exact_status 2 1 4) × (s.device_plugin ≡ exact_status 2 1 2)
module_status_example =
    module_status_lem with_plugin (node_on kernel ∷ []) (node_on kernel ∷ node_on "6.1" ∷ [])
      existing (omega arith) (omega arith) (omega arith) (omega arith)
