-- ===== src/Examples/HubRuns.antt =====
-- The hub at concrete inputs: one module for two clusters.
use rh_kernel_module_managem.Prelude.{
  pos, String, ◌≡◌, refl, Bool, true, false, none, [], ◌∷◌, All, arith, split_on, trim_suffix,
}
use rh_kernel_module_managem.Prelude.Dict.{Dict, lookup, insert}
use rh_kernel_module_managem.Api.{
  BuildPhase, ManagedCluster, ManagedClusterModule, ManifestWork, ModuleLoaderData, Result, ok,
}
use rh_kernel_module_managem.Api.Calls.{Act, apply_manifest_work, call, lift, ◌>>=◌, ◌>>◌}
use rh_kernel_module_managem.Images.{image_exists}
use rh_kernel_module_managem.KernelMapper.{
  should_be_built, should_be_signed, get_module_loader_data_for_kernel, find_kernel_mapping,
  prepare_module_loader_data, relevant_sign, relevant_build, replace_templates, loader_data,
}
use rh_kernel_module_managem.Templates.{kernel_components_as_env_vars, replace_in_templates, first}
use rh_kernel_module_managem.BuildHelper.{get_relevant_build}
use rh_kernel_module_managem.BuildManager
use rh_kernel_module_managem.SignManager
use rh_kernel_module_managem.Hub.{
  HubEnv, hub_module, build, sign, build_and_sign, build_and_sign_each,
  kernel_mappings_by_kernel_version, kernel_versions, collect_mappings,
}
use rh_kernel_module_managem.Hub.Manifests.{
  strip_shared, set_manifest_work_as_desired, spoke_spec, module_status_json_paths, mcm_name_label,
}
use rh_kernel_module_managem.Api.Calls.Makes.{Makes}
use rh_kernel_module_managem.Hub.Run.{reconcile_cluster, reconcile_clusters}
use rh_kernel_module_managem.Hub.BuildAndSign.{IsDone, build_and_sign-IsDone}
use rh_kernel_module_managem.Hub.Stripped.{
  IsBare, IsBareWork, set_manifest_work-IsBareWork, reconcile_clusters-shared,
}
use rh_kernel_module_managem.Examples.Data.{build_with, job_with, kmod, match_string, parse}

-- The ManifestWork is set up and applied.
abbrev create_or_patch : ManifestWork → (ManifestWork → Result ManifestWork) → Bool × Act (Unit {0})
create_or_patch mw f = (true, lift (f mw) >>= λ d. call (apply_manifest_work d) none)

abbrev mcm : ManagedClusterModule
mcm = record {
  name = "kmod";
  uid = "uid-3";
  module_spec = kmod.spec;
  spoke_namespace = "spoke";
  selector = [];
  status = record { number_desired = pos 0; number_applied = pos 0; number_degraded = pos 0 };
}

abbrev cluster : String → ManagedCluster
cluster name = record {
  name = name;
  labels = [];
  cluster_claims = ("kernel-versions.kmm.node.kubernetes.io", "5.14.0-70") ∷ [];
}

abbrev work : ManifestWork
work = record {
  name = "kmod";
  namespace = "a";
  labels = [];
  controller = none;
  workload = [];
  json_paths = [];
  conditions = [];
}

-- a hub whose registry has every image
abbrev env : HubEnv
env = record {
  namespace = "kmm-hub";
  match_string = match_string;
  parse = parse;
  get_mcm = λ name. ok mcm;
  list_clusters = λ selector. ok (cluster "a" ∷ cluster "b" ∷ []);
  list_manifest_works = λ selector. ok [];
  create_or_patch = create_or_patch;
  set_controller_reference = λ o mw. ok mw;
  answer_delete = λ mw. none;
  answer_status = λ m. none;
  registry_image_exists = λ mld image. ok true;
  builds = record {
    list_builds = λ namespace labels. ok [];
    answer_create = λ b. none;
    answer_delete = λ b. none;
  };
  make_build = λ mld push o. ok (build_with "h" BuildPhase.new);
  jobs = record {
    list_jobs = λ namespace labels. ok [];
    is_controlled_by = λ job o. true;
    answer_create = λ job. none;
    answer_delete = λ job. none;
  };
  make_job = λ mld labels image push o. ok (job_with "job" "h");
}

set_manifest_work_example : IsBareWork mcm (record work {
  labels = (mcm_name_label, "kmod") ∷ [];
  workload =
      record {
        name = "kmod";
        namespace = "spoke";
        uid = "";
        deleting = false;
        spec = spoke_spec kmod.spec;
        status = kmod.status;
      }
      ∷ [];
  json_paths = module_status_json_paths;
})
unfolding set_manifest_work_as_desired
set_manifest_work_example =
    set_manifest_work-IsBareWork env mcm work _ (λ o mw mw' e. ground (arith, e)) refl

build_and_sign_example :
    (e : String × ModuleLoaderData) × (es : Dict ModuleLoaderData)
    × (kernel_mappings_by_kernel_version
          (get_module_loader_data_for_kernel env.parse env.match_string (hub_module env mcm))
          (cluster "a")
        ≡ ok (e ∷ es))
    × All (IsDone env mcm) (e ∷ es)
unfolding ◌>>=◌ build_and_sign build_and_sign_each build sign kernel_mappings_by_kernel_version
    kernel_versions collect_mappings split_on trim_suffix lookup insert
    get_module_loader_data_for_kernel find_kernel_mapping prepare_module_loader_data relevant_sign
    relevant_build get_relevant_build replace_templates loader_data kernel_components_as_env_vars
    replace_in_templates first should_be_built should_be_signed image_exists
    BuildManager.should_sync SignManager.should_sync
build_and_sign_example = build_and_sign-IsDone env mcm (cluster "a") refl

shared_example :
    ((reconcile_cluster env mcm (cluster "a")).0 ≡ strip_shared mcm)
    × (reconcile_clusters env mcm (cluster "a" ∷ cluster "b" ∷ []) ≡ (
      (reconcile_clusters env (strip_shared mcm) (cluster "b" ∷ [])).0,
      (reconcile_cluster env mcm (cluster "a")).1
          >> (reconcile_clusters env (strip_shared mcm) (cluster "b" ∷ [])).1,
    ))
    × All IsBare (strip_shared mcm).module_spec.module_loader.container.kernel_mappings
unfolding ◌>>=◌ build_and_sign build_and_sign_each build sign kernel_mappings_by_kernel_version
    kernel_versions collect_mappings split_on trim_suffix lookup insert
    get_module_loader_data_for_kernel find_kernel_mapping prepare_module_loader_data relevant_sign
    relevant_build get_relevant_build replace_templates loader_data kernel_components_as_env_vars
    replace_in_templates first should_be_built should_be_signed image_exists
    BuildManager.should_sync SignManager.should_sync
shared_example =
    reconcile_clusters-shared env mcm (cluster "a") (cluster "b" ∷ []) refl (λ mw f. refl)
