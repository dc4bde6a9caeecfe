-- ===== src/PreflightReconciler.antt =====
-- controllers/preflightvalidation_reconciler.go: the reconciliation of a PreflightValidation. An error
-- of the API server and a panic leave the loop; a status that cannot be recorded does not.
pub mod ModulesToCheck
use rh_kernel_module_managem.Prelude.{
  ℕ, String, Bool, true, false, not, Option, none, some, List, [], ◌∷◌, ◌++◌, if◌then◌else◌,
  is_some,
}
use rh_kernel_module_managem.Prelude.Dict.{Dict, lookup}
use rh_kernel_module_managem.Api.{
  CrStatus, Module, PreflightValidation, VerificationStatus, VerificationStage, verification_true,
  verification_false, stage_done, stage_requeued, Error, Result, ok, err, panic, wrapw,
  is_not_found, wrap_err,
}
use rh_kernel_module_managem.Api.Errors.{◌>>=◌ as bind_result}
use rh_kernel_module_managem.Api.Calls.{
  Act, pure, raise, lift, wrapping, ignoring, call, set_gauge, ◌>>=◌, ◌>>◌,
}
use rh_kernel_module_managem.Preflight.{
  PreflightEnv, Reason, Verdict, Checked, preflight_upgrade_check,
}
use rh_kernel_module_managem.StatusUpdater.{
  preflight_preset_statuses, preflight_set_verification_status, preflight_set_verification_stage,
}

abbrev pub is_verified : VerificationStatus → Bool
is_verified verification_true = true
is_verified verification_false = false

-- `pv.Status.CRStatuses[name].VerificationStatus`: the map holds pointers, and a missing one is nil.
abbrev pub verification_of : String → Dict CrStatus → Result Bool
verification_of name statuses = elim (lookup name statuses) [
  | none ↦ panic
  | some s ↦ ok (is_verified s.verification_status)
]

-- the names of the modules that exist, and of those among them that have no status
unfoldable pub existing_modules : List Module → List String
existing_modules [] = []
existing_modules (m ∷ modules) =
    if m.deleting then existing_modules modules else m.name ∷ existing_modules modules

unfoldable pub new_modules : Dict CrStatus → List Module → List String
new_modules statuses [] = []
new_modules statuses (m ∷ modules) =
    if m.deleting
    then new_modules statuses modules
    else if is_some (lookup m.name statuses)
    then new_modules statuses modules
    else m.name ∷ new_modules statuses modules

unfoldable pub select_modules : Dict CrStatus → List Module → Result (List Module)
select_modules statuses [] = ok []
select_modules statuses (m ∷ modules) =
    let rest = select_modules statuses modules in
    if m.deleting
    then rest
    else bind_result (verification_of m.name statuses)
        (λ verified. if verified then rest else bind_result rest (λ ms. ok (m ∷ ms)))

abbrev all_verified : Dict CrStatus → Bool
all_verified [] = true
all_verified ((name, s) ∷ statuses) =
    if is_verified s.verification_status then all_verified statuses else false

module _ {Digest Layer : Type 0} (env : PreflightEnv Digest Layer) where
  unfoldable pub preset_modules_statuses :
      PreflightValidation → List Module → PreflightValidation × Act (Unit {0})
  preset_modules_statuses pv modules =
      preflight_preset_statuses env.answer_update env.now pv (existing_modules modules)
        (new_modules pv.cr_statuses modules)

  -- the PreflightValidation with its statuses preset, and the modules to check
  unfoldable pub get_modules_to_check :
      Result (List Module) → PreflightValidation → PreflightValidation × Act (List Module)
  get_modules_to_check (err e) pv = (pv, raise (wrapw "failed to get list of all Modules" e))
  get_modules_to_check panic pv = (pv, (panic, []))
  get_modules_to_check (ok modules) pv =
      let preset = preset_modules_statuses pv modules in
      (
        preset.0,
        wrapping (wrapw "failed to preset new modules' statuses") preset.1
            >> lift (select_modules preset.0.cr_statuses modules),
      )

  module _ (text : Reason → String) where
    unfoldable pub update_preflight_status :
        PreflightValidation → String → Verdict → PreflightValidation × Act (Unit {0})
    update_preflight_status pv name (verified, message) =
        let set =
          preflight_set_verification_status env.answer_update env.now pv name
            (if verified then verification_true else verification_false) (text message) in
        let staged =
          preflight_set_verification_stage env.answer_update env.now set.0 name
            (if verified then stage_done else stage_requeued) in
        (staged.0, ignoring set.1 >> ignoring staged.1)

    -- the loop over the modules to check
    unfoldable pub check_modules :
        PreflightValidation → List Module → PreflightValidation × Act (Unit {0})
    check_modules pv [] = (pv, pure tt)
    check_modules pv (m ∷ modules) =
        let checked = preflight_upgrade_check env pv m in
        elim checked.1.0 [
          | ok verdict ↦
              let updated = update_preflight_status checked.0 m.name verdict in
              let rest = check_modules updated.0 modules in
              (rest.0, (ok tt, checked.1.1) >> (updated.1 >> rest.1))
          | err e ↦ (checked.0, (err e, checked.1.1))
          | panic ↦ (checked.0, (panic, checked.1.1))
        ]

    -- `get_again` is the answer to the `Get` behind the loop.
    unfoldable pub check_preflight_completion : Result PreflightValidation → Result Bool
    check_preflight_completion get_again =
        bind_result
          (wrap_err (wrapw "failed to get preflight validation object in checkPreflightCompletion")
            get_again)
          (λ pv. ok (all_verified pv.cr_statuses))

    unfoldable pub run_preflight_validation :
        Result (List Module) → Result PreflightValidation → PreflightValidation → Act Bool
    run_preflight_validation list_modules get_again pv =
        let found = get_modules_to_check list_modules pv in
        wrapping (wrapw "failed to get list of modules to check for preflight") found.1
        >>= λ modules.
            (check_modules found.0 modules).1 >> lift (check_preflight_completion get_again)

    -- whether the reconciliation is run again after some time
    unfoldable pub reconcile :
        Result PreflightValidation → Result (List Module) → Result PreflightValidation → Act Bool
    reconcile (err e) list_modules get_again = if is_not_found e then pure false else raise e
    reconcile panic list_modules get_again = (panic, [])
    reconcile (ok pv) list_modules get_again = do
      call (set_gauge "kmm_preflight_num" [] 1) none
      completed ← run_preflight_validation list_modules get_again pv
      pure (not completed)
