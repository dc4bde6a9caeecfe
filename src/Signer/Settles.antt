-- ===== src/Signer/Settles.antt =====
-- The signer's template and the manager that compares it with the job of the kernel.
use rh_kernel_module_managem.Prelude.{ℕ, some, String, ◌≡◌, ◌⊎◌, Bool, List, [], ◌∷◌}
use rh_kernel_module_managem.Api.{Sign, Job, Owner, ModuleLoaderData}
use rh_kernel_module_managem.JobHelper.{annotation, job_hash_annotation}
use rh_kernel_module_managem.JobHelper.Store.{jobs_api, store_calls}
use rh_kernel_module_managem.SignManager.{sync}
use rh_kernel_module_managem.SignManager.Converges.{mine}
use rh_kernel_module_managem.Signer.{SignerEnv, make_job_template}
use rh_kernel_module_managem.Signer.Template.{HashOf}

module _ (env : SignerEnv) (mld : ModuleLoaderData) (image : String) (push : Bool)
    (owner : Owner) where
  -- one run of Sync with the signer, and what it leaves of the jobs
  abbrev pub run_signer : List Job → List Job
  run_signer jobs =
      store_calls jobs (sync (jobs_api jobs) (make_job_template env) mld image push owner).1

  -- What two runs have reached from the jobs `before`. The hash is that of the pods' template that
  -- the signer makes, with the two keys.
  pub record Settled (job : Job) (before jobs : List Job) : Type 0 where
    pub current : Job
    pub only : mine mld image push owner job jobs ≡ current ∷ []
    pub origin : (current ≡ job) ⊎ (mine mld image push owner job before ≡ current ∷ [])
    pub sign : Sign
    pub settings : mld.sign ≡ some sign
    pub hash : ℕ
    pub hash_of : HashOf env sign mld.namespace job.template hash
    pub printed : annotation current.annotations job_hash_annotation ≡ env.print hash
    pub stable : run_signer jobs ≡ jobs
