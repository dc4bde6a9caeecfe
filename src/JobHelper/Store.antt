-- ===== src/JobHelper/Store.antt =====
-- A cluster that stores jobs as the API server does: a list selects by namespace and labels, a
-- create adds, and a delete removes the job of that name. It is one way to meet the interface.
use rh_kernel_module_managem.Prelude.{
  String, Bool, true, false, ◌==◌, ◌&&◌, not, none, some, List, [], ◌∷◌, filter, get_or,
}
use rh_kernel_module_managem.Prelude.Dict.{Dict, lookup}
use rh_kernel_module_managem.Api.{Job, Owner, ok}
use rh_kernel_module_managem.Api.Calls.{Call, create_job, delete_job}
use rh_kernel_module_managem.JobHelper.{JobsApi}

-- `client.MatchingLabels`
unfoldable pub matches_labels : Dict String → Dict String → Bool
matches_labels [] labels = true
matches_labels ((k, v) ∷ sel) labels =
    (get_or (lookup k labels) "" == v) && matches_labels sel labels

unfoldable pub select : String → Dict String → List Job → List Job
unfolding matches_labels
select namespace labels =
    filter (λ job. (job.namespace == namespace) && matches_labels labels job.labels)

unfoldable pub controlled_by : Job → Owner → Bool
controlled_by job owner = elim job.controller [ none ↦ false | some uid ↦ uid == owner.uid ]

abbrev pub jobs_api : List Job → JobsApi
jobs_api jobs = record {
  list_jobs = λ namespace labels. ok (select namespace labels jobs);
  is_controlled_by = controlled_by;
  answer_create = λ job. none;
  answer_delete = λ job. none;
}

-- what one call leaves of the stored jobs
unfoldable pub store_call : List Job → Call → List Job
store_call jobs (create_job job) = job ∷ jobs
store_call jobs (delete_job job) = filter (λ j. not (j.name == job.name)) jobs
store_call jobs _ = jobs

unfoldable pub store_calls : List Job → List Call → List Job
unfolding store_call
store_calls jobs [] = jobs
store_calls jobs (c ∷ cs) = store_calls (store_call jobs c) cs
