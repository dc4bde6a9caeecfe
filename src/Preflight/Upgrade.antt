-- ===== src/Preflight/Upgrade.antt =====
-- When `PreflightUpgradeCheck` verifies a module.
use rh_kernel_module_managem.Prelude.{
  String, ◌≡◌, refl, ap, sym, ◌∙◌, inl, inr, Bool, true, false, not, ◌&&◌, ◌||◌, Option, none, some,
  arith, if◌then◌else◌, Bool-cases,
}
use rh_kernel_module_managem.Prelude.Dict.{lookup}
use rh_kernel_module_managem.Api.{
  CrStatus, ModuleLoaderData, PreflightValidation, VerificationStage, stage_image, stage_build,
  stage_sign, Result, ok, err, panic,
}
use rh_kernel_module_managem.Api.Calls.{Act, call, pure, lift, raise, ignoring, ◌>>=◌}
use rh_kernel_module_managem.KernelMapper.{should_be_built, should_be_signed}
use rh_kernel_module_managem.StatusUpdater.{preflight_set_verification_stage}
use rh_kernel_module_managem.Preflight.{
  PreflightEnv, Verdict, Checked, and_then, at_stage, verify_image, verify_build, verify_sign,
  build_step, sign_step, check_loader_data,
}

-- whether a check verified
abbrev pub verified : Result Verdict → Bool
verified (ok v) = v.0
verified _ = false

module _ {Digest Layer : Type 0} (env : PreflightEnv Digest Layer) where
  -- Recording a stage leaves what the builds and the signing read.
  module _ (pv : PreflightValidation) (name : String) (stage : VerificationStage) where
    abbrev updated : PreflightValidation
    updated = (preflight_set_verification_stage env.answer_update env.now pv name stage).0

    kept :
        (updated.push_built_image ≡ pv.push_built_image)
        × (updated.name ≡ pv.name)
        × (updated.namespace ≡ pv.namespace)
        × (updated.uid ≡ pv.uid)
    unfolding preflight_set_verification_stage
    kept = found (lookup name pv.cr_statuses) refl
      where
        found :
            (o : Option CrStatus)
            → lookup name pv.cr_statuses ≡ o
            → (updated.push_built_image ≡ pv.push_built_image)
              × (updated.name ≡ pv.name)
              × (updated.namespace ≡ pv.namespace)
              × (updated.uid ≡ pv.uid)
        found none e = ground (arith, e)
        found (some s) e = ground (arith, e)

    build_kept : (mld : ModuleLoaderData) → verify_build env updated mld ≡ verify_build env pv mld
    unfolding verify_build
    build_kept mld = let (p, n, s, u) = kept in rw (p, n, s, u) refl

    sign_kept : (mld : ModuleLoaderData) → verify_sign env updated mld ≡ verify_sign env pv mld
    unfolding verify_sign
    sign_kept mld = let (p, n, s, u) = kept in rw (p, n, s, u) refl

    at_stage_lem :
        (mld : ModuleLoaderData) (check : PreflightValidation → Act Verdict)
        → name ≡ mld.name
        → ((at_stage env pv mld stage check).0 ≡ updated)
          × ((at_stage env pv mld stage check).1.0 ≡ (check updated).0)
    unfolding at_stage preflight_set_verification_stage raise call ignoring ◌>>=◌
    at_stage_lem mld check n = found (lookup name pv.cr_statuses) refl
      where
        found :
            (o : Option CrStatus)
            → lookup name pv.cr_statuses ≡ o
            → ((at_stage env pv mld stage check).0 ≡ updated)
              × ((at_stage env pv mld stage check).1.0 ≡ (check updated).0)
        found none e = ground (arith, e, n)
        found (some s) e = ground (arith, e, n)

  -- `verified` of a check and what follows, by the first verdict.
  after_ok :
      (c : Checked) (f : PreflightValidation → Verdict → Checked) (v : Verdict)
      → c.1.0 ≡ ok v
      → (and_then c f).1.0 ≡ (f c.0 v).1.0
  unfolding and_then
  after_ok (pv, (r, w)) f v h = rw h refl

  after_failed :
      (c : Checked) (f : PreflightValidation → Verdict → Checked)
      → verified c.1.0 ≡ false
      → ((v : Verdict) → v.0 ≡ false → verified (f c.0 v).1.0 ≡ false)
      → verified (and_then c f).1.0 ≡ false
  unfolding and_then
  after_failed (pv, (ok v, w)) f h g = g v h
  after_failed (pv, (err e, w)) f h g = refl
  after_failed (pv, (panic, w)) f h g = refl

  module _ (pv : PreflightValidation) (mld : ModuleLoaderData) where
    sign_verdict_lem :
        (v : Verdict)
        → verified (sign_step env pv mld v).1.0
          ≡ (if should_be_signed mld then verified (verify_sign env pv mld).0 else v.0)
    unfolding sign_step pure
    sign_verdict_lem v = elim (Bool-cases (should_be_signed mld)) [
      | inl s ↦
          let (_, e) =
            at_stage_lem pv mld.name stage_sign mld (λ pv'. verify_sign env pv' mld) refl in
          rw (s, e, sign_kept pv mld.name stage_sign mld) refl
      | inr s ↦ rw s refl
    ]

    abbrev sign_ok : Bool
    sign_ok = not (should_be_signed mld) || verified (verify_sign env pv mld).0

    abbrev rest : PreflightValidation → Verdict → Checked
    rest pv2 built =
        if should_be_built mld && not built.0
        then (pv2, pure built)
        else sign_step env pv2 mld built

  module _ (pv : PreflightValidation) (mld : ModuleLoaderData) where
    -- the signing, behind a build with the result `r`
    then_sign :
        (c : Checked) (r : Result Verdict)
        → should_be_built mld ≡ true
        → c.1.0 ≡ r
        → verify_sign env c.0 mld ≡ verify_sign env pv mld
        → verified (and_then c (rest pv mld)).1.0 ≡ verified r && sign_ok pv mld
    unfolding pure
    then_sign c (ok (true, m)) b e k =
        ap verified (after_ok c (rest pv mld) (true, m) e)
        ∙ rw b (sign_verdict_lem c.0 mld (true, m) ∙ rw k (ground arith))
    then_sign c (ok (false, m)) b e k =
        ap verified (after_ok c (rest pv mld) (false, m) e) ∙ rw b refl
    then_sign c (err x) b e k = after_failed c (rest pv mld) (ap verified e) (λ v h. rw (b, h) refl)
    then_sign c panic b e k = after_failed c (rest pv mld) (ap verified e) (λ v h. rw (b, h) refl)

    build_step_lem :
        (image : Verdict)
        → should_be_built mld ≡ true
        → ((build_step env pv mld image).1.0 ≡ (verify_build env pv mld).0)
          × (verify_sign env (build_step env pv mld image).0 mld ≡ verify_sign env pv mld)
    unfolding build_step
    build_step_lem image b =
        let (p, e) =
          at_stage_lem pv mld.name stage_build mld (λ pv'. verify_build env pv' mld) refl in
        rw b (
          e ∙ ap (λ a. a.0) (build_kept pv mld.name stage_build mld),
          ap (λ x. verify_sign env x mld) p ∙ sign_kept pv mld.name stage_build mld,
        )

    build_step_none :
        (image : Verdict)
        → should_be_built mld ≡ false
        → build_step env pv mld image ≡ (pv, pure image)
    unfolding build_step
    build_step_none image b = rw b refl

    only_sign :
        (image : Verdict)
        → image.0 ≡ false
        → should_be_built mld ≡ false
        → verified (and_then (pv, pure image) (rest pv mld)).1.0
          ≡ (should_be_signed mld && sign_ok pv mld)
    unfolding pure
    only_sign image h b =
        ap verified (after_ok (pv, pure image) (rest pv mld) image refl)
        ∙ rw b (sign_verdict_lem pv mld image ∙ ground (arith, h))

    build_then_sign :
        (image : Verdict)
        → image.0 ≡ false
        → verified (and_then (build_step env pv mld image) (rest pv mld)).1.0 ≡ (
            (should_be_built mld || should_be_signed mld)
            && (not (should_be_built mld) || verified (verify_build env pv mld).0)
            && sign_ok pv mld)
    build_then_sign image h = elim (Bool-cases (should_be_built mld)) [
      | inl b ↦
          let (e, k) = build_step_lem image b in
          then_sign (build_step env pv mld image) (verify_build env pv mld).0 b e k ∙ rw b refl
      | inr b ↦ rw (build_step_none image b, b) (only_sign image h b ∙ ground arith)
    ]

  module _ (pv : PreflightValidation) (mld : ModuleLoaderData) where
    abbrev image_step : Checked
    image_step = at_stage env pv mld stage_image (λ _. lift (verify_image env mld))

    image_step_lem :
        (image : Verdict)
        → verify_image env mld ≡ ok image
        → (image_step.1.0 ≡ ok image)
          × (verify_build env image_step.0 mld ≡ verify_build env pv mld)
          × (verify_sign env image_step.0 mld ≡ verify_sign env pv mld)
    unfolding lift
    image_step_lem image e =
        let (p, r) =
          at_stage_lem pv mld.name stage_image mld (λ _. lift (verify_image env mld)) refl in
        (
          r ∙ e,
          ap (λ x. verify_build env x mld) p ∙ build_kept pv mld.name stage_image mld,
          ap (λ x. verify_sign env x mld) p ∙ sign_kept pv mld.name stage_image mld,
        )

    -- Where the registry's answer about the image is no panic, a module is verified exactly when its
    -- image is, or when it is to be built or signed, and each of the two that is asked for completes.
    pub check_loader_data-verified :
        (image : Verdict)
        → verify_image env mld ≡ ok image
        → verified (check_loader_data env pv mld).1.0 ≡ (
            image.0
            || ((should_be_built mld || should_be_signed mld)
                && (not (should_be_built mld) || verified (verify_build env pv mld).0)
                && (not (should_be_signed mld) || verified (verify_sign env pv mld).0)))
    unfolding check_loader_data pure
    check_loader_data-verified (true, m) e =
        ap verified (after_ok image_step _ (true, m) (image_step_lem (true, m) e).0)
    check_loader_data-verified (false, m) e =
        let (r, kb, ks) = image_step_lem (false, m) e in
        ap verified (after_ok image_step _ (false, m) r)
        ∙ rw (sym kb, sym ks) (build_then_sign image_step.0 mld (false, m) refl)
