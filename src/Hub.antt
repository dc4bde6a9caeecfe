-- ===== src/Hub.antt =====
-- internal/cluster/cluster.go: the kernels of a managed cluster, and building and signing for them on
-- the hub.
pub mod Manifests
pub mod Run
pub mod BuildAndSign
pub mod Stripped
pub mod Collect
use rh_kernel_module_managem.Prelude.{
  pos, ℕ, String, Bool, true, false, not, ◌&&◌, ◌==◌, ◌=ℕ◌, Option, none, some, List, [], ◌∷◌,
  if◌then◌else◌, is_some, split_on, trim_suffix, map,
}
use rh_kernel_module_managem.Prelude.Dict.{Dict, lookup, insert}
use rh_kernel_module_managem.Api.{
  ManagedCluster, ManagedClusterModule, ManifestWork, Module, ModuleLoaderData, ModuleStatus, Owner,
  Error, Result, ok, err, panic, errorf, wrapv, wrapw, wrap_err,
}
use rh_kernel_module_managem.Api.Errors.{◌>>=◌ as bind_result}
use rh_kernel_module_managem.Api.Calls.{Act, pure, lift, wrapping, ◌>>=◌, ◌>>◌}
use rh_kernel_module_managem.JobHelper.{JobsApi, Status, completed}
use rh_kernel_module_managem.KernelMapper.{get_module_loader_data_for_kernel}
use rh_kernel_module_managem.Reconciler.{previous_image}
use rh_kernel_module_managem.SignManager
use rh_kernel_module_managem.BuildManager

-- What the hub takes from the libraries and from the API server. `create_or_patch` also tells whether
-- it has called the function that it is given.
pub record HubEnv : Type 0 where
  pub namespace : String
  pub match_string : String → String → Result Bool
  pub parse : List String → String → Result String
  pub get_mcm : String → Result ManagedClusterModule
  pub list_clusters : Dict String → Result (List ManagedCluster)
  pub list_manifest_works : Dict String → Result (List ManifestWork)
  pub create_or_patch : ManifestWork → (ManifestWork → Result ManifestWork) → Bool × Act (Unit {0})
  pub set_controller_reference : Owner → ManifestWork → Result ManifestWork
  pub answer_delete : ManifestWork → Option Error
  pub answer_status : ManagedClusterModule → Option Error
  pub registry_image_exists : ModuleLoaderData → String → Result Bool
  pub builds : BuildManager.BuildsApi
  pub make_build : BuildManager.Maker
  pub jobs : JobsApi
  pub make_job : SignManager.Signer

abbrev pub owner_of_mcm : ManagedClusterModule → Owner
owner_of_mcm mcm = record { name = mcm.name; namespace = ""; uid = mcm.uid }

abbrev pub no_status : ModuleStatus
no_status = record {
  device_plugin = record {
    nodes_matching_selector_number = pos 0;
    desired_number = pos 0;
    available_number = pos 0;
  };
  module_loader = record {
    nodes_matching_selector_number = pos 0;
    desired_number = pos 0;
    available_number = pos 0;
  };
}

abbrev pub is_completed : Status → Bool
is_completed completed = true
is_completed _ = false

-- The claims of a cluster are names with values, and the kernel versions are lines.
unfoldable pub kernel_versions : List (String × String) → Result (List String)
kernel_versions [] = err (errorf "KMM ClusterClaim not found")
kernel_versions ((name, value) ∷ claims) =
    if name == "kernel-versions.kmm.node.kubernetes.io"
    then ok (split_on (λ c. c =ℕ 10) value)
    else kernel_versions claims

module _ (get : String → Result ModuleLoaderData) where
  unfoldable pub collect_mappings :
      Dict ModuleLoaderData → List String → Result (Dict ModuleLoaderData)
  collect_mappings mld_mappings [] = ok mld_mappings
  collect_mappings mld_mappings (version ∷ versions) =
      let kernel_version = trim_suffix version b'+' in
      if is_some (lookup kernel_version mld_mappings)
      then collect_mappings mld_mappings versions
      else elim (get kernel_version) [
        | ok mld ↦ collect_mappings (insert kernel_version mld mld_mappings) versions
        | err e ↦ collect_mappings mld_mappings versions
        | panic ↦ panic
      ]

  unfoldable pub kernel_mappings_by_kernel_version : ManagedCluster → Result (Dict ModuleLoaderData)
  kernel_mappings_by_kernel_version cluster =
      bind_result (kernel_versions cluster.cluster_claims) (collect_mappings [])

module _ (env : HubEnv) where
  unfoldable pub requested_managed_cluster_module : String → Result ManagedClusterModule
  requested_managed_cluster_module name =
      wrap_err (wrapw "failed to get the ManagedClusterModule") (env.get_mcm name)

  unfoldable pub selected_managed_clusters : ManagedClusterModule → Result (List ManagedCluster)
  selected_managed_clusters mcm = env.list_clusters mcm.selector

  unfoldable pub build : ManagedClusterModule → ModuleLoaderData → Act Bool
  build mcm mld = do
    should_sync ← lift (
        wrap_err (wrapv "could not check if build synchronization is needed")
          (BuildManager.should_sync env.registry_image_exists mld))
    if not should_sync then pure true else (do
      status ←
          wrapping (wrapw "could not synchronize the build")
            (BuildManager.sync env.builds env.make_build mld true (owner_of_mcm mcm))
      pure (is_completed status))

  unfoldable pub sign : ManagedClusterModule → ModuleLoaderData → Act Bool
  sign mcm mld = do
    should_sync ← lift (
        wrap_err (wrapv "could not check if signing synchronization is needed")
          (SignManager.should_sync env.registry_image_exists mld))
    if not should_sync then pure true else (do
      status ←
          wrapping (wrapw "could not synchronize the signing") (
            SignManager.sync env.jobs env.make_job mld (previous_image mld) true (owner_of_mcm mcm))
      pure (is_completed status))

  -- the loop over the mappings; `completed` is `completedSuccessfully` so far
  unfoldable pub build_and_sign_each :
      ManagedClusterModule → Bool → Dict ModuleLoaderData → Act Bool
  build_and_sign_each mcm completed_so_far [] = pure completed_so_far
  build_and_sign_each mcm completed_so_far ((kernel_version, mld) ∷ mappings) = do
    built ← build mcm mld
    if not built then build_and_sign_each mcm false mappings else (do
      signed ← sign mcm mld
      build_and_sign_each mcm (completed_so_far && signed) mappings)

  abbrev pub hub_module : ManagedClusterModule → Module
  hub_module mcm = record {
    name = mcm.name;
    namespace = env.namespace;
    uid = "";
    deleting = false;
    spec = mcm.module_spec;
    status = no_status;
  }

  unfoldable pub build_and_sign : ManagedClusterModule → ManagedCluster → Act Bool
  build_and_sign mcm cluster = do
    mappings ← lift (
        kernel_mappings_by_kernel_version
          (get_module_loader_data_for_kernel env.parse env.match_string (hub_module mcm)) cluster)
    elim mappings [ [] ↦ pure false | e ∷ es ↦ build_and_sign_each mcm true (e ∷ es) ]

  unfoldable pub garbage_collect_builds : ManagedClusterModule → Act (List String)
  garbage_collect_builds mcm =
      BuildManager.garbage_collect mcm.name env.namespace (owner_of_mcm mcm)
