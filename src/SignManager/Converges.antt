-- ===== src/SignManager/Converges.antt =====
-- Repeated runs of `Sync` against a cluster that stores jobs.
use rh_kernel_module_managem.Prelude.{
  String, ◌≡◌, refl, ap, ◌∙◌, ◌⊎◌, inl, inr, Bool, true, false, not, ◌==◌, eq_iff, eq_refl, List,
  [], ◌∷◌, arith, filter, is_some, Bool-cases,
}
use rh_kernel_module_managem.Api.{Job, Owner, ModuleLoaderData, ok, is_sentinel}
use rh_kernel_module_managem.Api.Calls.{◌>>=◌}
use rh_kernel_module_managem.JobHelper.{
  annotation, job_hash_annotation, module_kernel_labels, get_module_job_by_kernel, is_job_changed,
  the_only_job, job_create, job_delete,
}
use rh_kernel_module_managem.JobHelper.Store.{select, controlled_by, jobs_api, store_calls}
use rh_kernel_module_managem.SignManager.{sync, sync_found}

filter_comm {ℓ} :
    {A : Type ℓ} (p q : A → Bool) (xs : List A) → filter p (filter q xs) ≡ filter q (filter p xs)
filter_comm p q [] = refl
filter_comm p q (x ∷ xs) = ground (arith, filter_comm p q xs)

module _ (mld : ModuleLoaderData) (image : String) (push : Bool) (owner : Owner)
    (template : Job) where
  -- the jobs that `Sync` finds for the kernel
  abbrev pub mine : List Job → List Job
  mine jobs =
      filter (λ job. controlled_by job owner)
        (select mld.namespace (module_kernel_labels mld.name mld.kernel_version "sign") jobs)

  -- one run of `Sync`, and what it leaves of the jobs
  abbrev pub run : List Job → List Job
  run jobs =
      store_calls jobs (sync (jobs_api jobs) (λ _ _ _ _ _. ok template) mld image push owner).1

  -- `MakeJobTemplate` gives its jobs the labels, the namespace and the owner by which they are found.
  abbrev pub IsFound : Type 0
  IsFound = (jobs : List Job) → mine (template ∷ jobs) ≡ template ∷ mine jobs

  abbrev pub hash : Job → String
  hash job = annotation job.annotations job_hash_annotation

  abbrev pub IsCurrent : Job → Type 0
  IsCurrent job = (is_some job.annotations ≡ true) × (hash job ≡ hash template)

  run_by_mine :
      (jobs : List Job)
      → run jobs
        ≡ store_calls jobs
            (sync_found (jobs_api jobs) (the_only_job (jobs_api jobs) (mine jobs)) template).1
  unfolding sync ◌>>=◌ get_module_job_by_kernel
  run_by_mine jobs = refl

  run_none : (jobs : List Job) → mine jobs ≡ [] → run jobs ≡ template ∷ jobs
  run_none jobs h =
      rw (run_by_mine jobs, h)
        (unfold ◌>>=◌ sync_found the_only_job job_create is_sentinel store_calls in refl)

  run_current :
      (jobs : List Job) (job : Job) → mine jobs ≡ job ∷ [] → IsCurrent job → run jobs ≡ jobs
  run_current jobs job h c =
      rw (run_by_mine jobs, h)
        (unfold ◌>>=◌ sync_found the_only_job store_calls is_job_changed in
          ground (arith, c, eq_iff (hash job) (hash template)))

  run_changed :
      (jobs : List Job) (job : Job)
      → mine jobs ≡ job ∷ []
      → is_some job.annotations ≡ true
      → (hash job == hash template) ≡ false
      → run jobs ≡ filter (λ j. not (j.name == job.name)) jobs
  run_changed jobs job h a c =
      rw (run_by_mine jobs, h)
        (unfold ◌>>=◌ sync_found the_only_job store_calls job_delete is_job_changed in
          ground (arith, a, c))

  mine_deleted :
      (jobs : List Job) (job : Job)
      → mine jobs ≡ job ∷ []
      → mine (filter (λ j. not (j.name == job.name)) jobs) ≡ []
  unfolding select
  mine_deleted jobs job h =
      ap (λ l. filter (λ j. controlled_by j owner) l) (filter_comm _ _ jobs)
      ∙ filter_comm (λ j. controlled_by j owner) (λ j. not (j.name == job.name))
          (select mld.namespace (module_kernel_labels mld.name mld.kernel_version "sign") jobs)
      ∙ ap (λ l. filter (λ j. not (j.name == job.name)) l) h
      ∙ rw eq_refl

  -- The one job of the kernel is the template, or the one that was there before if it has the hash
  -- of the template; and another run changes nothing.
  pub record IsSettled (before jobs : List Job) : Type 0 where
    pub job : Job
    pub only : mine jobs ≡ job ∷ []
    pub origin : (job ≡ template) ⊎ (mine before ≡ job ∷ [])
    pub current : IsCurrent job
    pub stable : run jobs ≡ jobs

  settled :
      (before jobs : List Job) (job : Job)
      → mine jobs ≡ job ∷ []
      → (job ≡ template) ⊎ (mine before ≡ job ∷ [])
      → IsCurrent job
      → IsSettled before jobs
  settled before jobs job h o c = record {
    job = job;
    only = h;
    origin = o;
    current = c;
    stable = run_current jobs job h c;
  }

  IsSettled-none :
      (before jobs : List Job)
      → IsFound
      → is_some template.annotations ≡ true
      → mine jobs ≡ []
      → IsSettled before (run jobs)
  IsSettled-none before jobs found a h = rw (run_none jobs h) (
      settled before (template ∷ jobs) template (found jobs ∙ ap (λ l. template ∷ l) h) (inl refl)
        (a, refl))

  -- From no job, or from one annotated job of the kernel, two runs reach the job that the settings
  -- ask for, whatever the hash of the old one, and then nothing more is created or deleted.
  pub sync_converges :
      (jobs : List Job)
      → IsFound
      → is_some template.annotations ≡ true
      → (mine jobs ≡ []) ⊎ ((job : Job) × (mine jobs ≡ job ∷ []) × (is_some job.annotations ≡ true))
      → IsSettled jobs (run (run jobs))
  sync_converges jobs found a (inl h) = let s = IsSettled-none jobs jobs found a h in rw s.stable s
  sync_converges jobs found a (inr (job, h, b)) = elim (Bool-cases (hash job == hash template)) [
    | inl same ↦
        let s = settled jobs jobs job h (inr h) (b, (eq_iff _ _).0 same) in
        rw (s.stable, s.stable) s
    | inr other ↦
        rw (run_changed jobs job h b other)
          (IsSettled-none jobs _ found a (mine_deleted jobs job h))
  ]
