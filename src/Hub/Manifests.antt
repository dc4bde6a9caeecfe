-- ===== src/Hub/Manifests.antt =====
-- internal/manifestwork/manifestwork.go: the ManifestWork that takes a Module to a managed cluster. The
-- function is given the ManagedClusterModule by value, but its kernel mappings are a slice: what it
-- writes there the caller sees. The mappings as they are left are a part of the result.
use rh_kernel_module_managem.Prelude.{
  String, false, Option, none, some, List, [], ◌∷◌, map, mem, if◌then◌else◌,
}
use rh_kernel_module_managem.Api.{
  KernelMapping, ModuleSpec, ManagedCluster, ManagedClusterModule, ManifestWork, Result, err,
  errorf, wrapw, wrap_err,
}
use rh_kernel_module_managem.Api.Calls.{
  Act, pure, lift, call, wrapping, delete_manifest_work, ◌>>=◌, ◌>>◌,
}
use rh_kernel_module_managem.Hub.{HubEnv, owner_of_mcm, no_status}

abbrev pub module_status_json_paths : List (String × String)
module_status_json_paths =
    ("devicePlugin.availableNumber", ".status.devicePlugin.availableNumber")
    ∷ ("devicePlugin.desiredNumber", ".status.devicePlugin.desiredNumber")
    ∷ (
      "devicePlugin.nodesMatchingSelectorNumber",
      ".status.devicePlugin.nodesMatchingSelectorNumber",
    )
    ∷ ("moduleLoader.availableNumber", ".status.moduleLoader.availableNumber")
    ∷ ("moduleLoader.desiredNumber", ".status.moduleLoader.desiredNumber")
    ∷ (
      "moduleLoader.nodesMatchingSelectorNumber",
      ".status.moduleLoader.nodesMatchingSelectorNumber",
    )
    ∷ []

abbrev pub mcm_name_label : String
mcm_name_label = "kmm.node.kubernetes.io/managedclustermodule.name"

unfoldable pub strip : List KernelMapping → List KernelMapping
strip [] = []
strip (m ∷ ms) = record m { build = none; sign = none } ∷ strip ms

abbrev pub with_mappings : ModuleSpec → List KernelMapping → ModuleSpec
with_mappings spec mappings = record spec {
  module_loader = record spec.module_loader {
    container = record spec.module_loader.container { kernel_mappings = mappings };
  };
}

-- the caller's ManagedClusterModule, once the slice is written
unfoldable pub strip_shared : ManagedClusterModule → ManagedClusterModule
unfolding strip
strip_shared mcm = record mcm {
  module_spec =
      with_mappings mcm.module_spec (strip mcm.module_spec.module_loader.container.kernel_mappings);
}

-- the spec that goes to the cluster
unfoldable pub spoke_spec : ModuleSpec → ModuleSpec
unfolding strip
spoke_spec spec = record spec {
  module_loader = record spec.module_loader {
    container = record spec.module_loader.container {
      build = none;
      sign = none;
      kernel_mappings = strip spec.module_loader.container.kernel_mappings;
    };
  };
}

module _ (env : HubEnv) where
  unfoldable pub set_manifest_work_as_desired :
      Option ManifestWork → ManagedClusterModule → Result ManifestWork
  set_manifest_work_as_desired none mcm = err (errorf "mw cannot be nil")
  set_manifest_work_as_desired (some mw) mcm =
      env.set_controller_reference (owner_of_mcm mcm) (record mw {
        labels = (mcm_name_label, mcm.name) ∷ [];
        workload =
            record {
              name = mcm.name;
              namespace = mcm.spoke_namespace;
              uid = "";
              deleting = false;
              spec = spoke_spec mcm.module_spec;
              status = no_status;
            }
            ∷ [];
        json_paths = module_status_json_paths;
      })

  unfoldable pub get_owned_manifest_works : ManagedClusterModule → Result (List ManifestWork)
  get_owned_manifest_works mcm = env.list_manifest_works ((mcm_name_label, mcm.name) ∷ [])

  unfoldable pub delete_unselected : List String → List ManifestWork → Act (Unit {0})
  delete_unselected cluster_names [] = pure tt
  delete_unselected cluster_names (mw ∷ works) =
      if mem mw.namespace cluster_names then delete_unselected cluster_names works else (do
        wrapping (wrapw "failed to delete ManifestWork")
            (call (delete_manifest_work mw) (env.answer_delete mw))
        delete_unselected cluster_names works)

  unfoldable pub garbage_collect : List ManagedCluster → ManagedClusterModule → Act (Unit {0})
  garbage_collect clusters mcm = do
    works ←
        lift (wrap_err (wrapw "failed to get owned ManifestWorks") (get_owned_manifest_works mcm))
    delete_unselected (map (λ c. c.name) clusters) works
