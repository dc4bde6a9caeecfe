-- ===== src/Reconciler/Deletes.antt =====
-- Which DaemonSets a reconciliation deletes, in terms of the maps that it has read.
use rh_kernel_module_managem.Prelude.{String, not, List, [], ◌∷◌, ◌=ℕ◌, is_some, In}
use rh_kernel_module_managem.Prelude.Dict.{Dict, keys}
use rh_kernel_module_managem.Api.{DaemonSet, Job, Node, Module, ModuleLoaderData, Result}
use rh_kernel_module_managem.Api.Calls.{
  Call, create_build, delete_build, create_job, delete_job, apply_ds, delete_ds,
}
use rh_kernel_module_managem.Api.Calls.Makes.{
  Makes, Makes-bind, Makes-wrapping, Makes-pure, Makes-lift, Makes-if, Makes-call, Makes-mono,
  Makes-for_each,
}
use rh_kernel_module_managem.SignManager
use rh_kernel_module_managem.BuildManager
use rh_kernel_module_managem.DaemonSets.Collect.{
  IsStale, DeletesStale, garbage_collect-DeletesStale,
}
use rh_kernel_module_managem.JobHelper.{JobsApi, job_delete}
use rh_kernel_module_managem.StatusUpdater.{module_update_status}
use rh_kernel_module_managem.Reconciler.{
  Env, garbage_collect, handle_kernel, handle_driver_container, handle_device_plugin,
}
use rh_kernel_module_managem.Reconciler.Gates.{
  IsJobCall, handle_build-IsJobCall, handle_signing-IsJobCall,
}
use rh_kernel_module_managem.Reconciler.Run.{apply_desired}

abbrev pub IsApply : Call → Type 0
IsApply (apply_ds ds) = Unit
IsApply _ = ⊥

-- `controllerutil.CreateOrPatch` creates or patches, and calls nothing else.
abbrev pub CreatesOrPatches : Env → Type 0
CreatesOrPatches env =
    (ds : DaemonSet) (f : DaemonSet → Result DaemonSet) → Makes IsApply (env.create_or_patch ds f)

module _ (kernel_label : String) (existing : Dict DaemonSet) (valid_kernels : List String) where
  -- A call that deletes a DaemonSet deletes a stale one of those that exist.
  abbrev pub IsSafe : Call → Type 0
  IsSafe (delete_ds ds) =
      (k : String) × In (k, ds) existing × IsStale kernel_label valid_kernels (k, ds)
  IsSafe _ = Unit

  job_call : (c : Call) → IsJobCall c → IsSafe c
  job_call (create_build b) h = tt
  job_call (delete_build b) h = tt
  job_call (create_job j) h = tt
  job_call (delete_job j) h = tt
  job_call (delete_ds ds) h = absurd h
  job_call _ h = tt

  applied : (c : Call) → IsApply c → IsSafe c
  applied (apply_ds ds) h = tt
  applied (delete_ds ds) h = absurd h
  applied _ h = tt

  stale_call : (c : Call) → DeletesStale kernel_label valid_kernels existing c → IsSafe c
  stale_call c (e, i, s, q) = rw q (e.0, i, s)

  delete_succeeded-IsSafe :
      (api : JobsApi) (jobs : List Job) → Makes IsSafe (SignManager.delete_succeeded api jobs)
  unfolding SignManager.delete_succeeded job_delete
  delete_succeeded-IsSafe api [] = Makes-pure _
  delete_succeeded-IsSafe api (job ∷ jobs) =
      Makes-if (job.succeeded =ℕ 1) _ _
        (λ _.
          Makes-bind _ _ (Makes-wrapping _ _ (Makes-call _ _ tt))
            (λ _. Makes-bind _ _ (delete_succeeded-IsSafe api jobs) (λ _. Makes-pure _)))
        (λ _. delete_succeeded-IsSafe api jobs)

  module _ (env : Env) (only : CreatesOrPatches env) where
    handle_kernel-IsSafe : (mld : ModuleLoaderData) → Makes IsSafe (handle_kernel env mld existing)
    unfolding handle_kernel handle_driver_container
    handle_kernel-IsSafe mld =
        Makes-bind _ _ (Makes-wrapping _ _ (Makes-mono _ job_call (handle_build-IsJobCall env mld)))
          (λ built.
            Makes-if (not built) _ _ (λ _. Makes-pure _)
              (λ _.
                Makes-bind _ _
                  (Makes-wrapping _ _ (Makes-mono _ job_call (handle_signing-IsJobCall env mld)))
                  (λ signed.
                    Makes-if (not signed) _ _ (λ _. Makes-pure _)
                      (λ _. Makes-wrapping _ _ (Makes-mono _ applied (only _ _))))))

    handle_device_plugin-IsSafe : (m : Module) → Makes IsSafe (handle_device_plugin env m)
    unfolding handle_device_plugin
    handle_device_plugin-IsSafe m =
        Makes-if (is_some m.spec.device_plugin) _ _ (λ _. Makes-mono _ applied (only _ _))
          (λ _. Makes-pure _)

-- Where CreateOrPatch only creates or patches: once the state is read, a DaemonSet is deleted only if
-- it is one of those given, does not belong to the device plugin, and its kernel has no mapping among
-- those given; whatever fails on the way.
pub apply_desired-IsSafe :
    (env : Env) (m : Module) (targeted nodes : List Node) (mappings : Dict ModuleLoaderData)
    (existing : Dict DaemonSet)
    → CreatesOrPatches env
    → Makes
        (IsSafe env.kernel_label existing (keys mappings))
        (apply_desired env m targeted mappings nodes existing)
unfolding apply_desired garbage_collect BuildManager.garbage_collect SignManager.garbage_collect
    module_update_status
apply_desired-IsSafe env m targeted nodes mappings existing only =
    let safe = handle_kernel-IsSafe env.kernel_label existing (keys mappings) env only in
    let plugin = handle_device_plugin-IsSafe env.kernel_label existing (keys mappings) env only m in
    let collected = Makes-mono _ (stale_call env.kernel_label existing (keys mappings)) (
      garbage_collect-DeletesStale env.kernel_label (keys mappings) env.answer_delete_ds
        existing) in
    Makes-bind _ _ (Makes-for_each _ _ safe) (λ _. Makes-bind _ _ (Makes-wrapping _ _ plugin) (λ _.
      Makes-bind _ _
        (Makes-wrapping _ _ (
          Makes-bind _ _ (Makes-wrapping _ _ collected) (λ _.
            Makes-bind _ _ (Makes-wrapping _ _ (Makes-pure _)) (λ _.
              Makes-bind _ _
                (Makes-wrapping _ _ (
                  Makes-bind _ _ (Makes-lift _)
                    (delete_succeeded-IsSafe env.kernel_label existing (keys mappings) env.jobs)))
                (λ _. Makes-pure _)))))
        (λ _. Makes-wrapping _ _ (Makes-call _ _ tt))))
