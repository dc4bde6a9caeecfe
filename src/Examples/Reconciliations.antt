-- ===== src/Examples/Reconciliations.antt =====
-- The reconciliation of a Module at concrete inputs.
use rh_kernel_module_managem.Prelude.{
  String, ◌≡◌, refl, inl, ◌==◌, Bool, true, false, none, some, [], ◌∷◌, mem, map, filter,
  trim_suffix, if◌then◌else◌,
}
use rh_kernel_module_managem.Prelude.Dict.{Dict, lookup}
use rh_kernel_module_managem.Api.{
  BuildPhase, DaemonSet, ModuleLoaderData, Result, ok, err, errorf, is_sentinel,
}
use rh_kernel_module_managem.Api.Calls.{Act, apply_ds, call, lift, pure, ◌>>=◌}
use rh_kernel_module_managem.Api.Calls.Makes.{Makes, Makes-bind, Makes-lift, Makes-call, Makes-pure}
use rh_kernel_module_managem.BuildManager
use rh_kernel_module_managem.SignManager
use rh_kernel_module_managem.Images.{image_exists}
use rh_kernel_module_managem.KernelMapper.{should_be_built, should_be_signed}
use rh_kernel_module_managem.Reconciler.{
  Env, kernel_of, get_relevant_kernel_mappings_and_nodes, handle_build, handle_kernel,
}
use rh_kernel_module_managem.Reconciler.Mappings.{
  has_mapping, to_option, get_relevant_kernel_mappings_and_nodes_lem,
}
use rh_kernel_module_managem.Reconciler.Gates.{IsJobCall, handle_kernel-gated}
use rh_kernel_module_managem.Reconciler.OnlyStale.{DeletesOwnStale, reconcile-DeletesOwnStale}
use rh_kernel_module_managem.Reconciler.Run.{reconcile}
use rh_kernel_module_managem.Examples.Data.{
  data_with, ds_of, job_with, build_with, kernel, kmod, module_build, node_on, match_string, parse,
}

-- The object is set up and applied.
abbrev create_or_patch : DaemonSet → (DaemonSet → Result DaemonSet) → Act (Unit {0})
create_or_patch ds f = lift (f ds) >>= λ d. call (apply_ds d) none

-- a cluster whose registry has each image or none
abbrev env_with : Bool → Env
env_with exists = record {
  kernel_label = "kernel";
  operator_namespace = "kmm";
  match_string = match_string;
  parse = parse;
  get_module = λ name. ok kmod;
  list_modules = ok (kmod ∷ []);
  list_nodes = λ selector. ok (node_on kernel ∷ []);
  list_daemon_sets = λ name namespace. ok [];
  answer_delete_ds = λ ds. none;
  answer_status = λ m. none;
  create_or_patch = create_or_patch;
  set_controller_reference = λ o ds. ok ds;
  registry_image_exists = λ mld image. ok exists;
  builds = record {
    list_builds = λ namespace labels. ok [];
    answer_create = λ b. none;
    answer_delete = λ b. none;
  };
  make_build = λ mld push o. ok (build_with "h" BuildPhase.new);
  jobs = record {
    list_jobs = λ namespace labels. ok [];
    is_controlled_by = λ job o. true;
    answer_create = λ job. none;
    answer_delete = λ job. none;
  };
  make_job = λ mld labels image push o. ok (job_with "job" "h");
  ca_sync = λ namespace o. pure tt;
}

-- a cluster with one DaemonSet more, for a kernel that no node runs any longer
abbrev with_old : Env
with_old = record (env_with true) {
  list_daemon_sets = λ name namespace. ok (ds_of "old" "4.18.0-1" ∷ ds_of "new" kernel ∷ []);
}

reconcile-DeletesOwnStale_example :
    Makes (DeletesOwnStale with_old ("ns", "kmod")) (reconcile with_old ("ns", "kmod"))
reconcile-DeletesOwnStale_example =
    reconcile-DeletesOwnStale with_old ("ns", "kmod")
      (λ ds f. Makes-bind (lift (f ds)) _ (Makes-lift _) (λ d. Makes-call (apply_ds d) none tt))
      (λ ns o. Makes-pure tt)

-- The image does not exist, and its Build has just been created.
handle_kernel-gated_example :
    Makes IsJobCall (handle_kernel (env_with false) (data_with (some module_build)) [])
unfolding handle_build ◌>>=◌ BuildManager.should_sync should_be_built image_exists
    SignManager.should_sync should_be_signed BuildManager.sync BuildManager.get_build
    BuildManager.sync_found is_sentinel
handle_kernel-gated_example =
    handle_kernel-gated (env_with false) (data_with (some module_build)) [] (inl (λ e. cc e))

-- The module has data on one kernel only.
abbrev get : String → Result ModuleLoaderData
get k = if k == kernel then ok (data_with none) else err (errorf "no suitable mapping found")

mappings_example :
    (m : Dict ModuleLoaderData) × (get_relevant_kernel_mappings_and_nodes get []
        (node_on "5.14.0-70" ∷ node_on "6.1" ∷ [])
      ≡ ok (m, filter (has_mapping get) (node_on "5.14.0-70" ∷ node_on "6.1" ∷ [])))
    × ((k : String)
        → lookup k m ≡ (
            if mem k (map kernel_of (node_on "5.14.0-70" ∷ node_on "6.1" ∷ []))
            then to_option (get k)
            else none))
unfolding trim_suffix
mappings_example =
    get_relevant_kernel_mappings_and_nodes_lem get (node_on "5.14.0-70" ∷ node_on "6.1" ∷ [])
      (refl, (refl, tt))
