-- ===== src/Preflight.antt =====
-- internal/preflight/preflight.go: whether a module can be upgraded to the kernel of a
-- PreflightValidation. Messages are `Reason`s: what they say, without the names they fill in.
pub mod Upgrade
pub mod Layers
use rh_kernel_module_managem.Prelude.{
  ℕ, String, Bool, true, false, not, ◌<>◌, Option, none, some, List, [], ◌∷◌, ◌++◌, reverse, ◌&&◌,
  if◌then◌else◌,
}
use rh_kernel_module_managem.Api.{
  Job, OcpBuild, Module, ModuleLoaderData, PreflightValidation, TlsOptions, Owner,
  VerificationStage, stage_image, stage_build, stage_sign, Error, Result, ok, err, panic,
}
use rh_kernel_module_managem.Api.Calls.{Act, Call, pure, lift, ignoring, ◌>>=◌, ◌>>◌}
use rh_kernel_module_managem.Images.{intermediate_image_name}
use rh_kernel_module_managem.JobHelper.{JobsApi, Status, completed}
use rh_kernel_module_managem.KernelMapper.{
  get_module_loader_data_for_kernel, should_be_built, should_be_signed,
}
use rh_kernel_module_managem.Reconciler.{previous_image}
use rh_kernel_module_managem.SignManager
use rh_kernel_module_managem.BuildManager
use rh_kernel_module_managem.StatusUpdater.{Updated, preflight_set_verification_stage}

pub data Reason : Type 0 where
  mapping_failed image_inaccessible layer_inaccessible module_not_in_image image_verified : Reason
  build_failed sign_failed : Error → Reason
  build_compiles sign_completes : Bool → Reason  -- whether the image is pushed
  waiting_for_build waiting_for_sign : Reason

abbrev pub Verdict : Type 0
Verdict = Bool × Reason

-- What the checks take from the registry, the libraries and the API server. `Digest` and `Layer` are
-- the registry's. `now` is the time that the status updates record.
pub record PreflightEnv (Digest Layer : Type 0) : Type 0 where
  pub now : ℕ
  pub match_string : String → String → Result Bool
  pub parse : List String → String → Result String
  pub get_layers_digests : ModuleLoaderData → Result (List Digest)
  pub get_layer_by_digest : ModuleLoaderData → Digest → Result Layer
  pub verify_module_exists : Layer → String → String → String → Bool
  pub builds : BuildManager.BuildsApi
  pub make_build : BuildManager.Maker
  pub jobs : JobsApi
  pub make_job : SignManager.Signer
  pub answer_update : PreflightValidation → Option Error

-- A check's verdict, the PreflightValidation as the status updates leave it, and the calls. A panic
-- is an `Act`'s.
abbrev pub Checked : Type 0
Checked = PreflightValidation × Act Verdict

pub owner_of_preflight : PreflightValidation → Owner
owner_of_preflight pv = record { name = pv.name; namespace = pv.namespace; uid = pv.uid }

-- A check, and what follows from its verdict.
unfoldable pub and_then : Checked → (PreflightValidation → Verdict → Checked) → Checked
and_then (pv, (ok verdict, w)) f = let c = f pv verdict in (c.0, (c.1.0, w ++ c.1.1))
and_then (pv, (err e, w)) f = (pv, (err e, w))
and_then (pv, (panic, w)) f = (pv, (panic, w))

module _ {Digest Layer : Type 0} (env : PreflightEnv Digest Layer) where
  -- the loop over the layers, the last one first: `digests` are in that order
  unfoldable pub verify_layers : ModuleLoaderData → List Digest → Result Verdict
  verify_layers mld [] = ok (false, module_not_in_image)
  verify_layers mld (digest ∷ digests) = elim (env.get_layer_by_digest mld digest) [
    | err e ↦ ok (false, layer_inaccessible)
    | panic ↦ panic
    | ok layer ↦
        let rest = verify_layers mld digests in
        if env.verify_module_exists layer mld.modprobe.dir_name mld.kernel_version
          (mld.modprobe.module_name <> ".ko")
        then ok (true, image_verified)
        else rest
  ]

  unfoldable pub verify_image : ModuleLoaderData → Result Verdict
  verify_image mld = elim (env.get_layers_digests mld) [
    | err e ↦ ok (false, image_inaccessible)
    | panic ↦ panic
    | ok digests ↦ verify_layers mld (reverse digests)
  ]

  build_verdict : Bool → Result Status → Result Verdict
  build_verdict pushed (err e) = ok (false, build_failed e)
  build_verdict pushed panic = panic
  build_verdict pushed (ok completed) = ok (true, build_compiles pushed)
  build_verdict pushed (ok _) = ok (false, waiting_for_build)

  sign_verdict : Bool → Result Status → Result Verdict
  sign_verdict pushed (err e) = ok (false, sign_failed e)
  sign_verdict pushed panic = panic
  sign_verdict pushed (ok completed) = ok (true, sign_completes pushed)
  sign_verdict pushed (ok _) = ok (false, waiting_for_sign)

  unfoldable pub verify_build : PreflightValidation → ModuleLoaderData → Act Verdict
  unfolding build_verdict owner_of_preflight
  verify_build pv mld =
      let run =
        BuildManager.sync env.builds env.make_build mld pv.push_built_image
          (owner_of_preflight pv) in
      (build_verdict pv.push_built_image run.0, run.1)

  unfoldable pub verify_sign : PreflightValidation → ModuleLoaderData → Act Verdict
  unfolding sign_verdict owner_of_preflight
  verify_sign pv mld =
      let run =
        SignManager.sync env.jobs env.make_job mld (previous_image mld) pv.push_built_image
          (owner_of_preflight pv) in
      (sign_verdict pv.push_built_image run.0, run.1)

  -- A stage that cannot be recorded is only logged.
  unfoldable pub at_stage :
      PreflightValidation
      → ModuleLoaderData
      → VerificationStage
      → (PreflightValidation → Act Verdict)
      → Checked
  at_stage pv mld stage check =
      let updated = preflight_set_verification_stage env.answer_update env.now pv mld.name stage in
      (updated.0, ignoring updated.1 >> check updated.0)

  unfoldable pub build_step : PreflightValidation → ModuleLoaderData → Verdict → Checked
  build_step pv mld verdict =
      if should_be_built mld
      then at_stage pv mld stage_build (λ pv'. verify_build pv' mld)
      else (pv, pure verdict)

  unfoldable pub sign_step : PreflightValidation → ModuleLoaderData → Verdict → Checked
  sign_step pv mld verdict =
      if should_be_signed mld
      then at_stage pv mld stage_sign (λ pv'. verify_sign pv' mld)
      else (pv, pure verdict)

  unfoldable pub check_loader_data : PreflightValidation → ModuleLoaderData → Checked
  check_loader_data pv mld =
      and_then (at_stage pv mld stage_image (λ _. lift (verify_image mld))) (λ pv1 image.
        if image.0
        then (pv1, pure image)
        else and_then (build_step pv1 mld image) (λ pv2 built.
          if should_be_built mld && not built.0
          then (pv2, pure built)
          else sign_step pv2 mld built))

  unfoldable pub preflight_upgrade_check : PreflightValidation → Module → Checked
  preflight_upgrade_check pv m =
      elim (get_module_loader_data_for_kernel env.parse env.match_string m pv.kernel_version) [
        | err e ↦ (pv, pure (false, mapping_failed))
        | panic ↦ (pv, (panic, []))
        | ok mld ↦ check_loader_data pv mld
      ]
