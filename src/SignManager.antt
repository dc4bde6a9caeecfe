-- ===== src/SignManager.antt =====
-- internal/sign/job/manager.go: the signing job of a kernel.
pub mod Converges
use rh_kernel_module_managem.Prelude.{
  String, Bool, true, false, not, ◌=ℕ◌, Option, none, some, List, [], ◌∷◌, if◌then◌else◌,
}
use rh_kernel_module_managem.Prelude.Dict.{Dict}
use rh_kernel_module_managem.Api.{
  Job, Owner, ModuleLoaderData, Error, Result, ok, err, panic, wrapv, wrapw, wrap_err, is_sentinel,
  no_matching_job,
}
use rh_kernel_module_managem.Api.Calls.{Act, pure, raise, lift, wrapping, ignoring, ◌>>=◌, ◌>>◌}
use rh_kernel_module_managem.Images.{image_exists}
use rh_kernel_module_managem.KernelMapper.{should_be_signed}
use rh_kernel_module_managem.JobHelper.{
  JobsApi, Status, created, in_progress, is_job_changed, get_job_status, get_module_job_by_kernel,
  get_module_jobs, job_create, job_delete, job_labels,
}

-- The interface `Signer`: ModuleLoaderData, labels, image to sign, whether to push, and owner.
abbrev pub Signer : Type 0
Signer = ModuleLoaderData → Dict String → String → Bool → Owner → Result Job

module _ (registry_image_exists : ModuleLoaderData → String → Result Bool) where
  unfoldable pub should_sync : ModuleLoaderData → Result Bool
  should_sync mld =
      if not (should_be_signed mld)
      then ok false
      else elim (image_exists registry_image_exists mld mld.container_image) [
        | ok exists ↦ ok (not exists)
        | err e ↦ err (wrapw "failed to check existence of image" e)
        | panic ↦ panic
      ]

module _ (api : JobsApi) where
  unfoldable pub sync_existing : Job → Job → Act Status
  sync_existing job template = do
    changed ←
        lift
          (wrap_err (wrapv "could not determine if job has changed") (is_job_changed job template))
    if changed
        then (do ignoring (job_delete api job); pure in_progress)
        else lift (get_job_status job)

  unfoldable pub sync_found : Result Job → Job → Act Status
  unfolding sync_existing
  sync_found (ok job) template = sync_existing job template
  sync_found panic template = (panic, [])
  sync_found (err e) template =
      if not (is_sentinel no_matching_job e)
      then raise (wrapv "error getting the signing job" e)
      else do
        wrapping (wrapv "could not create Signing Job") (job_create api template)
        pure created

  unfoldable pub sync : Signer → ModuleLoaderData → String → Bool → Owner → Act Status
  unfolding sync_found
  sync make_job_template mld image_to_sign push_image owner = do
    let labels = job_labels mld.name mld.kernel_version "sign"
    template ← lift (
        wrap_err (wrapv "could not make Job template")
          (make_job_template mld labels image_to_sign push_image owner))
    sync_found (get_module_job_by_kernel api mld.name mld.namespace mld.kernel_version "sign" owner)
        template

  unfoldable pub delete_succeeded : List Job → Act (List String)
  delete_succeeded [] = pure []
  delete_succeeded (job ∷ jobs) =
      let rest = delete_succeeded jobs in
      if job.succeeded =ℕ 1
      then (do
        wrapping (wrapv "failed to delete build job") (job_delete api job)
        names ← rest
        pure (job.name ∷ names))
      else rest

  unfoldable pub garbage_collect : String → String → Owner → Act (List String)
  unfolding delete_succeeded
  garbage_collect mod_name namespace owner = do
    jobs ← lift (
        wrap_err (wrapv "failed to get sign jobs for module")
          (get_module_jobs api mod_name namespace "sign" owner))
    delete_succeeded jobs
