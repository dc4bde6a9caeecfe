-- ===== src/BuildManager/Outcome.antt =====
-- What `Sync` can return and call.
use rh_kernel_module_managem.Prelude.{
  Bool, ◌≡◌, ◌≢◌, ◌↔◌, ◌⊎◌, inl, inr, refl, [], ◌∷◌, arith, true, false, Bool-cases,
}
use rh_kernel_module_managem.Api.{
  BuildPhase, OcpBuild, Owner, ModuleLoaderData, Error, Result, ok, err, panic, is_sentinel,
  no_matching_build,
}
use rh_kernel_module_managem.Api.Calls.{Act, create_build, delete_build, ◌>>=◌}
use rh_kernel_module_managem.JobHelper.{Status, completed, failed, in_progress}
use rh_kernel_module_managem.BuildManager.{
  BuildsApi, Maker, or_error, phase_status, sync, sync_found, sync_existing, get_build,
  is_build_changed,
}

module _ (api : BuildsApi) where
  sync_found-ne-failed :
      (found : Result OcpBuild) (template : OcpBuild)
      → (sync_found api found template).0 ≢ ok failed
  unfolding ◌>>=◌ sync_found sync_existing phase_status is_build_changed is_sentinel
  sync_found-ne-failed (ok b) template h = ground arith
  sync_found-ne-failed (err e) template h = ground arith
  sync_found-ne-failed panic template h = cc

  -- The one Build of the kernel has the hash of the template, and it is complete.
  abbrev pub IsComplete : Result OcpBuild → OcpBuild → Type 0
  IsComplete found template =
      (b : OcpBuild) × (found ≡ ok b)
      × (is_build_changed b template ≡ ok false)
      × (b.phase ≡ BuildPhase.complete)

  phase_completed :
      (p : BuildPhase) → or_error (phase_status p) ≡ ok completed → p ≡ BuildPhase.complete
  unfolding phase_status
  phase_completed BuildPhase.complete h = refl
  phase_completed BuildPhase.new h = cc
  phase_completed BuildPhase.pending h = cc
  phase_completed BuildPhase.running h = cc
  phase_completed BuildPhase.failed h = cc
  phase_completed BuildPhase.error h = cc
  phase_completed BuildPhase.cancelled h = cc
  phase_completed (BuildPhase.other s) h = cc

  sync_found_completed :
      (found : Result OcpBuild) (template : OcpBuild)
      → (sync_found api found template).0 ≡ ok completed
      → IsComplete found template
  unfolding ◌>>=◌ sync_found sync_existing
  sync_found_completed (ok b) template h = existing (is_build_changed b template) refl
    where
      existing : (r : Result Bool) → is_build_changed b template ≡ r → IsComplete (ok b) template
      existing (ok true) e = ground (arith, h, e)
      existing (ok false) e = (b, refl, e, phase_completed b.phase (ground (arith, h, e)))
      existing (err x) e = ground (arith, h, e)
      existing panic e = ground (arith, h, e)
  sync_found_completed (err e) template h = ground (arith, h)
  sync_found_completed panic template h = cc

  complete_found :
      (found : Result OcpBuild) (template : OcpBuild)
      → IsComplete found template
      → (sync_found api found template).0 ≡ ok completed
  unfolding ◌>>=◌ sync_found sync_existing phase_status
  complete_found found template (b, f, c, p) = rw f (ground (arith, c, p))

  -- Once the template is made, `Sync` returns the completed status without an error exactly if the one
  -- Build that is found has the template's hash and is complete; and it never returns the failed
  -- status without an error, so that a caller that looks for it there does not see a failed Build.
  pub sync_completed_iff :
      (maker : Maker) (mld : ModuleLoaderData) (push : Bool) (owner : Owner) (template : OcpBuild)
      → maker mld push owner ≡ ok template
      → (((sync api maker mld push owner).0 ≡ ok completed)
          ↔ IsComplete (get_build api mld) template)
        × ((sync api maker mld push owner).0 ≢ ok failed)
  unfolding ◌>>=◌ sync
  sync_completed_iff maker mld push owner template h = rw h (
    (
      sync_found_completed (get_build api mld) template,
      complete_found (get_build api mld) template,
    ),
    sync_found-ne-failed (get_build api mld) template,
  )

  -- what a run may call, for the Build that is there and the one that is asked for
  abbrev pub MayCall : Result OcpBuild → OcpBuild → Act Status → Type 0
  MayCall found template act =
      (act.1 ≡ [])
      ⊎ ((act.1 ≡ create_build template ∷ [])
          × (e : Error) × (found ≡ err e)
          × (is_sentinel no_matching_build e ≡ true))
      ⊎ ((b : OcpBuild) × (found ≡ ok b)
          × (act.1 ≡ delete_build b ∷ [])
          × (act.0 ≡ ok in_progress)
          × (is_build_changed b template ≡ ok true))

  sync_found-MayCall :
      (found : Result OcpBuild) (template : OcpBuild)
      → MayCall found template (sync_found api found template)
  unfolding ◌>>=◌ sync_found sync_existing
  sync_found-MayCall (ok b) template = existing (is_build_changed b template) refl
    where
      existing :
          (r : Result Bool)
          → is_build_changed b template ≡ r
          → MayCall (ok b) template (sync_existing api b template)
      existing (ok true) e = inr (inr (b, refl, ground (arith, e), ground (arith, e), e))
      existing (ok false) e = inl (ground (arith, e))
      existing (err x) e = inl (ground (arith, e))
      existing panic e = inl (ground (arith, e))
  sync_found-MayCall (err e) template = elim (Bool-cases (is_sentinel no_matching_build e)) [
    | inl h ↦ inr (inl (ground (arith, h), e, refl, h))
    | inr h ↦ inl (ground (arith, h))
  ]
  sync_found-MayCall panic template = inl refl

  -- Once the template is made, a run makes at most one call. It creates the template only if no Build
  -- of the kernel was found, and deletes only the Build that was found, if its hash differs.
  pub sync-MayCall :
      (maker : Maker) (mld : ModuleLoaderData) (push : Bool) (owner : Owner) (template : OcpBuild)
      → maker mld push owner ≡ ok template
      → MayCall (get_build api mld) template (sync api maker mld push owner)
  unfolding ◌>>=◌ sync
  sync-MayCall maker mld push owner template h =
      rw h (sync_found-MayCall (get_build api mld) template)
