-- ===== src/JobHelper.antt =====
-- internal/utils/jobhelper.go: finding, comparing, creating and deleting the jobs of a module.
pub mod Store
use rh_kernel_module_managem.Prelude.{
  ℕ, String, Bool, true, false, not, ◌==◌, ◌=ℕ◌, Option, none, some, List, [], ◌∷◌, if◌then◌else◌,
  filter, get_or,
}
use rh_kernel_module_managem.Prelude.Dict.{Dict, lookup, insert}
use rh_kernel_module_managem.Api.{
  Job, Owner, Error, Result, ok, err, errorf, wrapv, wrap_err, sentinel, no_matching_job,
}
use rh_kernel_module_managem.Api.Errors.{◌>>=◌}
use rh_kernel_module_managem.Api.Calls.{Act, call, create_job, delete_job}

pub data Status : Type 0 where
  completed created in_progress failed : Status

-- The API server's answers about jobs, and `metav1.IsControlledBy`.
pub record JobsApi : Type 0 where
  pub list_jobs : String → Dict String → Result (List Job)
  pub is_controlled_by : Job → Owner → Bool
  pub answer_create : Job → Option Error
  pub answer_delete : Job → Option Error

abbrev pub job_hash_annotation : String
job_hash_annotation = "kmm.node.kubernetes.io/last-hash"

-- `annotations[key]`, which is empty in a nil map too
abbrev pub annotation : Option (Dict String) → String → String
annotation none key = ""
annotation (some m) key = get_or (lookup key m) ""

unfoldable pub is_job_changed : Job → Job → Result Bool
is_job_changed existing new_job = elim existing.annotations [
  | none ↦ err (errorf "annotations are not present in the existing job")
  | some m ↦ ok (
      not (
        annotation (some m) job_hash_annotation
        == annotation new_job.annotations job_hash_annotation))
]

unfoldable pub module_labels : String → String → Dict String
module_labels module_name job_type =
    ("kmm.node.kubernetes.io/module.name", module_name)
    ∷ ("kmm.node.kubernetes.io/job-type", job_type)
    ∷ []

unfoldable pub module_kernel_labels : String → String → String → Dict String
unfolding module_labels
module_kernel_labels module_name target_kernel job_type =
    insert "kmm.node.kubernetes.io/target-kernel" target_kernel (module_labels module_name job_type)

unfoldable pub job_labels : String → String → String → Dict String
unfolding module_kernel_labels
job_labels mod_name target_kernel job_type = module_kernel_labels mod_name target_kernel job_type

unfoldable pub get_job_status : Job → Result Status
get_job_status job =
    if job.succeeded =ℕ 1
    then ok completed
    else if job.active =ℕ 1
    then ok in_progress
    else if job.failed =ℕ 1
    then ok failed
    else err (errorf "unknown status")

module _ (api : JobsApi) where
  get_jobs : String → Dict String → Result (List Job)
  get_jobs namespace labels =
      wrap_err (wrapv "could not list jobs") (api.list_jobs namespace labels)

  filter_jobs_by_owner : List Job → Owner → List Job
  filter_jobs_by_owner jobs owner = filter (λ job. api.is_controlled_by job owner) jobs

  unfoldable pub the_only_job : List Job → Result Job
  the_only_job [] = err (sentinel no_matching_job)
  the_only_job (job ∷ []) = ok job
  the_only_job (_ ∷ _ ∷ _) = err (errorf "expected 0 or 1 job")

  unfoldable pub get_module_job_by_kernel : String → String → String → String → Owner → Result Job
  unfolding get_jobs filter_jobs_by_owner the_only_job module_kernel_labels
  get_module_job_by_kernel mod_name namespace target_kernel job_type owner = do
    jobs ←
        wrap_err (wrapv "failed to get module jobs by kernel")
          (get_jobs namespace (module_kernel_labels mod_name target_kernel job_type))
    the_only_job (filter_jobs_by_owner jobs owner)

  unfoldable pub get_module_jobs : String → String → String → Owner → Result (List Job)
  unfolding get_jobs filter_jobs_by_owner module_labels
  get_module_jobs mod_name namespace job_type owner = do
    jobs ←
        wrap_err (wrapv "failed to get jobs for module")
          (get_jobs namespace (module_labels mod_name job_type))
    ok (filter_jobs_by_owner jobs owner)

  unfoldable pub job_create : Job → Act (Unit {0})
  job_create job = call (create_job job) (api.answer_create job)

  unfoldable pub job_delete : Job → Act (Unit {0})
  job_delete job = call (delete_job job) (api.answer_delete job)
