-- ===== src/DaemonSets/Desired.antt =====
-- `SetDriverContainerAsDesired` and `SetDevicePluginAsDesired`: the DaemonSets of a module filled in.
use rh_kernel_module_managem.Prelude.{
  String, Bool, true, false, ◌&&◌, ◌==◌, ◌<>◌, ◌++◌, Option, none, some, List, [], ◌∷◌,
  if◌then◌else◌,
}
use rh_kernel_module_managem.Prelude.Dict.{Dict, insert}
use rh_kernel_module_managem.Api.{
  DaemonSet, DaemonSetSpec, Container, Volume, directory, directory_or_create, host_path, Module,
  ModuleLoaderData, DevicePluginSpec, Owner, Result, err, errorf,
}
use rh_kernel_module_managem.KernelMapper.{owner_of}
use rh_kernel_module_managem.DaemonSets.{
  module_name_label, override_labels, get_driver_container_node_label, get_pod_pull_secrets,
}
use rh_kernel_module_managem.DaemonSets.Commands.{
  make_load_command, make_unload_command, node_var_lib_firmware_path,
}

abbrev pub node_labeler_finalizer : String
node_labeler_finalizer = "kmm.node.kubernetes.io/node-labeler"

unfoldable pub copy_map_string_string : Dict String → Dict String
copy_map_string_string m = override_labels [] m

unfoldable pub or_default : String → Bool → String → String
or_default service_account use_default_sa default_name =
    if service_account == "" && use_default_sa then default_name else service_account

unfoldable pub driver_container : ModuleLoaderData → Container
driver_container mld = record {
  name = "module-loader";
  image = mld.container_image;
  image_pull_policy = mld.image_pull_policy;
  command = "sleep" ∷ "infinity" ∷ [];
  args = [];
  env = [];
  resources = "";
  post_start = make_load_command mld.modprobe;
  pre_stop = make_unload_command mld.modprobe;
  security_context = some (record {
    allow_privilege_escalation = some false;
    capabilities = "SYS_MODULE" ∷ [];
    privileged = none;
    run_as_user = some 0;
    se_linux_type = "spc_t";
  });
  volume_mounts =
      record {
        name = "node-lib-modules";
        read_only = true;
        mount_path = "/lib/modules/" <> mld.kernel_version;
      }
      ∷ (if mld.modprobe.firmware_path == ""
          then []
          else record {
            name = "node-var-lib-firmware";
            read_only = false;
            mount_path = node_var_lib_firmware_path;
          }
            ∷ []);
}

unfoldable pub driver_volumes : ModuleLoaderData → List Volume
driver_volumes mld =
    record {
      name = "node-lib-modules";
      source = host_path ("/lib/modules/" <> mld.kernel_version) directory;
    }
    ∷ (if mld.modprobe.firmware_path == ""
        then []
        else record {
          name = "node-var-lib-firmware";
          source = host_path node_var_lib_firmware_path directory_or_create;
        }
          ∷ [])

-- `with_spec ds labels spec` sets what the two functions set before the controller reference.
abbrev pub with_spec : DaemonSet → Dict String → DaemonSetSpec → DaemonSet
with_spec ds labels spec = record ds { labels = labels; spec = some spec }

module _ (kernel_label : String) where
  unfoldable pub driver_labels : ModuleLoaderData → Dict String
  driver_labels mld = insert kernel_label mld.kernel_version ((module_name_label, mld.name) ∷ [])

  unfoldable pub driver_spec : ModuleLoaderData → Bool → DaemonSetSpec
  unfolding driver_labels driver_container driver_volumes
  driver_spec mld use_default_sa = record {
    selector = driver_labels mld;
    template_labels = driver_labels mld;
    finalizers = node_labeler_finalizer ∷ [];
    pod = record {
      containers = driver_container mld ∷ [];
      image_pull_secrets = get_pod_pull_secrets mld.image_repo_secret;
      node_selector = insert kernel_label mld.kernel_version (copy_map_string_string mld.selector);
      priority_class_name = "system-node-critical";
      restart_policy = "";
      service_account_name =
          or_default mld.service_account_name use_default_sa "kmm-operator-module-loader";
      volumes = driver_volumes mld;
    };
  }

unfoldable pub device_plugin_container : DevicePluginSpec → Container
device_plugin_container plugin = record {
  name = "device-plugin";
  image = plugin.container.image;
  image_pull_policy = plugin.container.image_pull_policy;
  command = plugin.container.command;
  args = plugin.container.args;
  env = plugin.container.env;
  resources = plugin.container.resources;
  post_start = [];
  pre_stop = [];
  security_context = some (record {
    allow_privilege_escalation = none;
    capabilities = [];
    privileged = some true;
    run_as_user = none;
    se_linux_type = "";
  });
  volume_mounts =
      plugin.container.volume_mounts
      ++ (record {
        name = "kubelet-device-plugins";
        read_only = false;
        mount_path = "/var/lib/kubelet/device-plugins";
      }
          ∷ []);
}

unfoldable pub device_plugin_spec : Module → DevicePluginSpec → Bool → DaemonSetSpec
unfolding device_plugin_container
device_plugin_spec m plugin use_default_sa = record {
  selector = (module_name_label, m.name) ∷ [];
  template_labels = (module_name_label, m.name) ∷ [];
  finalizers = node_labeler_finalizer ∷ [];
  pod = record {
    containers = device_plugin_container plugin ∷ [];
    image_pull_secrets = get_pod_pull_secrets m.spec.image_repo_secret;
    node_selector = (get_driver_container_node_label m.name, "") ∷ [];
    priority_class_name = "system-node-critical";
    restart_policy = "";
    service_account_name =
        or_default plugin.service_account_name use_default_sa "kmm-operator-device-plugin";
    volumes =
        record {
          name = "kubelet-device-plugins";
          source = host_path "/var/lib/kubelet/device-plugins" directory;
        }
        ∷ plugin.volumes;
  };
}

-- `set_controller_reference` is the function of controller-runtime.
module _ (set_controller_reference : Owner → DaemonSet → Result DaemonSet) where
  unfoldable pub set_driver_container_as_desired :
      String → Option DaemonSet → ModuleLoaderData → Bool → Result DaemonSet
  unfolding driver_spec driver_labels override_labels
  set_driver_container_as_desired kernel_label none mld use_default_sa =
      err (errorf "ds cannot be nil")
  set_driver_container_as_desired kernel_label (some ds) mld use_default_sa =
      if mld.container_image == ""
      then err (errorf "container image cannot be empty")
      else if mld.kernel_version == ""
      then err (errorf "kernelVersion cannot be empty")
      else set_controller_reference mld.owner (
          with_spec ds (override_labels ds.labels (driver_labels kernel_label mld))
            (driver_spec kernel_label mld use_default_sa))

  unfoldable pub set_device_plugin_as_desired : Option DaemonSet → Module → Bool → Result DaemonSet
  unfolding device_plugin_spec override_labels
  set_device_plugin_as_desired none m use_default_sa = err (errorf "ds cannot be nil")
  set_device_plugin_as_desired (some ds) m use_default_sa = desired m.spec.device_plugin
    where
      desired : Option DevicePluginSpec → Result DaemonSet
      desired none = err (errorf "device plugin in module should not be nil")
      desired (some plugin) = set_controller_reference (owner_of m) (
          with_spec ds (override_labels ds.labels ((module_name_label, m.name) ∷ []))
            (device_plugin_spec m plugin use_default_sa))
