-- ===== src/Reconciler/Gates.antt =====
-- `handleBuild` and `handleSigning` gate the driver container.
use rh_kernel_module_managem.Prelude.{
  String, ◌≡◌, refl, ap, sym, ◌∙◌, ◌≢◌, ◌⊎◌, inl, inr, Bool, true, false, not, [], ◌++◌,
  append_assoc, if◌then◌else◌, All-append,
}
use rh_kernel_module_managem.Prelude.Dict.{Dict}
use rh_kernel_module_managem.Api.{
  DaemonSet, Job, OcpBuild, ModuleLoaderData, Owner, Error, Result, ok, err, panic, wrapv,
  is_sentinel, no_matching_job, no_matching_build,
}
use rh_kernel_module_managem.Api.Calls.{
  Call, Act, pure, wrapping, create_build, delete_build, create_job, delete_job, ◌>>=◌,
}
use rh_kernel_module_managem.Api.Calls.Makes.{
  Makes, Makes-bind, Makes-wrapping, Makes-pure, Makes-lift, Makes-if, Makes-ignoring, Makes-call,
  Makes-raise,
}
use rh_kernel_module_managem.SignManager
use rh_kernel_module_managem.BuildManager
use rh_kernel_module_managem.JobHelper.{JobsApi, job_create, job_delete}
use rh_kernel_module_managem.Reconciler.{
  Env, handle_build, handle_signing, handle_driver_container, handle_kernel,
}

abbrev pub IsJobCall : Call → Type 0
IsJobCall (create_build b) = Unit
IsJobCall (delete_build b) = Unit
IsJobCall (create_job j) = Unit
IsJobCall (delete_job j) = Unit
IsJobCall _ = ⊥

-- the two ways to handle what was found
module _ (api : BuildManager.BuildsApi) where
  build_sync_existing-IsJobCall :
      (b template : OcpBuild) → Makes IsJobCall (BuildManager.sync_existing api b template)
  unfolding BuildManager.sync_existing
  build_sync_existing-IsJobCall b template = Makes-bind _ _ (Makes-lift _) (λ changed.
      Makes-if changed _ _
        (λ _. Makes-bind _ _ (Makes-ignoring _ (Makes-call _ _ tt)) (λ _. Makes-pure _))
        (λ _. Makes-lift _))

  build_sync_found-IsJobCall :
      (found : Result OcpBuild) (template : OcpBuild)
      → Makes IsJobCall (BuildManager.sync_found api found template)
  unfolding BuildManager.sync_found
  build_sync_found-IsJobCall (ok b) template = build_sync_existing-IsJobCall b template
  build_sync_found-IsJobCall (err e) template =
      Makes-if (not (is_sentinel no_matching_build e)) _ _ (λ _. Makes-raise _)
        (λ _. Makes-bind _ _ (Makes-wrapping _ _ (Makes-call _ _ tt)) (λ _. Makes-pure _))
  build_sync_found-IsJobCall panic template = record { all = tt }

  build_sync-IsJobCall :
      (maker : BuildManager.Maker) (mld : ModuleLoaderData) (push : Bool) (owner : Owner)
      → Makes IsJobCall (BuildManager.sync api maker mld push owner)
  unfolding BuildManager.sync
  build_sync-IsJobCall maker mld push owner =
      Makes-bind _ _ (Makes-lift _)
        (λ template. build_sync_found-IsJobCall (BuildManager.get_build api mld) template)

module _ (api : JobsApi) where
  sign_sync_existing-IsJobCall :
      (j template : Job) → Makes IsJobCall (SignManager.sync_existing api j template)
  unfolding SignManager.sync_existing job_delete
  sign_sync_existing-IsJobCall j template = Makes-bind _ _ (Makes-lift _) (λ changed.
      Makes-if changed _ _
        (λ _. Makes-bind _ _ (Makes-ignoring _ (Makes-call _ _ tt)) (λ _. Makes-pure _))
        (λ _. Makes-lift _))

  sign_sync_found-IsJobCall :
      (found : Result Job) (template : Job)
      → Makes IsJobCall (SignManager.sync_found api found template)
  unfolding SignManager.sync_found job_create
  sign_sync_found-IsJobCall (ok j) template = sign_sync_existing-IsJobCall j template
  sign_sync_found-IsJobCall (err e) template =
      Makes-if (not (is_sentinel no_matching_job e)) _ _ (λ _. Makes-raise _)
        (λ _. Makes-bind _ _ (Makes-wrapping _ _ (Makes-call _ _ tt)) (λ _. Makes-pure _))
  sign_sync_found-IsJobCall panic template = record { all = tt }

  sign_sync-IsJobCall :
      (signer : SignManager.Signer) (mld : ModuleLoaderData) (image : String) (push : Bool)
      (owner : Owner)
      → Makes IsJobCall (SignManager.sync api signer mld image push owner)
  unfolding SignManager.sync
  sign_sync-IsJobCall signer mld image push owner =
      Makes-bind _ _ (Makes-lift _) (λ template. sign_sync_found-IsJobCall _ template)

module _ (env : Env) where
  pub handle_build-IsJobCall : (mld : ModuleLoaderData) → Makes IsJobCall (handle_build env mld)
  unfolding handle_build
  handle_build-IsJobCall mld = Makes-bind _ _ (Makes-lift _) (λ should.
      Makes-if (not should) _ _ (λ _. Makes-pure _)
        (λ _.
          Makes-bind _ _
            (Makes-wrapping _ _ (build_sync-IsJobCall env.builds env.make_build mld true mld.owner))
            (λ _. Makes-pure _)))

  pub handle_signing-IsJobCall : (mld : ModuleLoaderData) → Makes IsJobCall (handle_signing env mld)
  unfolding handle_signing
  handle_signing-IsJobCall mld = Makes-bind _ _ (Makes-lift _) (λ should.
      Makes-if (not should) _ _ (λ _. Makes-pure _)
        (λ _.
          Makes-bind _ _
            (Makes-wrapping _ _ (sign_sync-IsJobCall env.jobs env.make_job mld _ true mld.owner))
            (λ _. Makes-pure _)))

-- The body of the loop over the kernels, for any two actions that gate a third.
module _ (f g h : Error → Error) where
  abbrev gates : Act Bool → Act Bool → Act (Unit {0}) → Act (Unit {0})
  gates b s d = wrapping f b >>= λ built.
      if not built
      then pure tt
      else (wrapping g s >>= λ signed. if not signed then pure tt else wrapping h d)

  inner :
      {P : Call → Type 0} (s : Act Bool) (d : Act (Unit {0}))
      → Makes P s
      → s.0 ≢ ok true
      → Makes P (wrapping g s >>= λ signed. if not signed then pure tt else wrapping h d)
  unfolding wrapping ◌>>=◌
  inner (ok true, w) d hs n = absurd (n refl)
  inner (ok false, w) d hs n = record { all = All-append _ w [] hs.all tt }
  inner (err e, w) d hs n = record { all = hs.all }
  inner (panic, w) d hs n = record { all = hs.all }

  closed :
      {P : Call → Type 0} (b s : Act Bool) (d : Act (Unit {0}))
      → Makes P b
      → Makes P s
      → (b.0 ≢ ok true) ⊎ (s.0 ≢ ok true)
      → Makes P (gates b s d)
  unfolding wrapping ◌>>=◌
  closed (ok true, w) s d hb hs (inl n) = absurd (n refl)
  closed (ok true, w) s d hb hs (inr n) = record {
    all = All-append _ w _ hb.all (inner s d hs n).all;
  }
  closed (ok false, w) s d hb hs n = record { all = All-append _ w [] hb.all tt }
  closed (err e, w) s d hb hs n = record { all = hb.all }
  closed (panic, w) s d hb hs n = record { all = hb.all }

  wrapping_calls : (d : Act (Unit {0})) → (wrapping h d).1 ≡ d.1
  unfolding wrapping
  wrapping_calls (ok a, w) = refl
  wrapping_calls (err e, w) = refl
  wrapping_calls (panic, w) = refl

  opened :
      (b s : Act Bool) (d : Act (Unit {0}))
      → b.0 ≡ ok true
      → s.0 ≡ ok true
      → (gates b s d).1 ≡ b.1 ++ s.1 ++ d.1
  unfolding wrapping ◌>>=◌
  opened (b, w) (s, v) d hb hs =
      rw (hb, hs) (ap (λ u. w ++ (v ++ u)) (wrapping_calls d) ∙ sym (append_assoc w v d.1))

-- Unless the image is built and signed, handling a kernel only creates or deletes jobs and builds:
-- whatever creates or patches DaemonSets is not reached.
pub handle_kernel-gated :
    (env : Env) (mld : ModuleLoaderData) (ds : Dict DaemonSet)
    → ((handle_build env mld).0 ≢ ok true) ⊎ ((handle_signing env mld).0 ≢ ok true)
    → Makes IsJobCall (handle_kernel env mld ds)
unfolding handle_kernel
handle_kernel-gated env mld ds n =
    closed (wrapv "failed to handle build for kernel version")
      (wrapv "failed to handle signing for kernel version")
      (wrapv "failed to handle driver container for kernel version") (handle_build env mld)
      (handle_signing env mld) (handle_driver_container env mld ds) (handle_build-IsJobCall env mld)
      (handle_signing-IsJobCall env mld) n

-- Once the image is built and signed, the driver container is set up last, behind the calls of the
-- two.
pub handle_kernel-opened :
    (env : Env) (mld : ModuleLoaderData) (ds : Dict DaemonSet)
    → (handle_build env mld).0 ≡ ok true
    → (handle_signing env mld).0 ≡ ok true
    → (handle_kernel env mld ds).1
      ≡ (handle_build env mld).1
        ++ (handle_signing env mld).1
        ++ (handle_driver_container env mld ds).1
unfolding handle_kernel
handle_kernel-opened env mld ds hb hs =
    opened (wrapv "failed to handle build for kernel version")
      (wrapv "failed to handle signing for kernel version")
      (wrapv "failed to handle driver container for kernel version") (handle_build env mld)
      (handle_signing env mld) (handle_driver_container env mld ds) hb hs
