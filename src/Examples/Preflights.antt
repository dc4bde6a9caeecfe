-- ===== src/Examples/Preflights.antt =====
-- A PreflightValidation at concrete inputs.
use rh_kernel_module_managem.Prelude.{
  String, ◌≡◌, refl, true, false, ◌==◌, ◌||◌, ◌&&◌, not, none, some, [], ◌∷◌, any, filter,
}
use rh_kernel_module_managem.Api.{BuildPhase, PreflightValidation, ok}
use rh_kernel_module_managem.KernelMapper.{should_be_built, should_be_signed}
use rh_kernel_module_managem.Preflight.{
  PreflightEnv, check_loader_data, verify_image, verify_layers, verify_build, verify_sign,
  module_not_in_image,
}
use rh_kernel_module_managem.Preflight.Layers.{has_module, verdict_of, verify_image_lem}
use rh_kernel_module_managem.Preflight.Upgrade.{verified, check_loader_data-verified}
use rh_kernel_module_managem.PreflightReconciler.{get_modules_to_check}
use rh_kernel_module_managem.PreflightReconciler.ModulesToCheck.{
  is_unverified, get_modules_to_check_lem,
}
use rh_kernel_module_managem.Examples.Data.{
  data_with, build_with, job_with, kmod, module_build, match_string, parse,
}

-- An image is its two layers, of which the one named "module" holds the module.
abbrev env : PreflightEnv String String
env = record {
  now = 7;
  match_string = match_string;
  parse = parse;
  get_layers_digests = λ mld. ok ("base" ∷ "top" ∷ []);
  get_layer_by_digest = λ mld digest. ok digest;
  verify_module_exists = λ layer dir kernel file. layer == "module";
  builds = record {
    list_builds = λ namespace labels. ok (build_with "h" BuildPhase.complete ∷ []);
    answer_create = λ b. none;
    answer_delete = λ b. none;
  };
  make_build = λ mld push o. ok (build_with "h" BuildPhase.new);
  jobs = record {
    list_jobs = λ namespace labels. ok [];
    is_controlled_by = λ job o. true;
    answer_create = λ job. none;
    answer_delete = λ job. none;
  };
  make_job = λ mld labels image push o. ok (job_with "job" "h");
  answer_update = λ pv. none;
}

abbrev pv : PreflightValidation
pv = record {
  name = "preflight";
  namespace = "kmm";
  uid = "uid-2";
  kernel_version = "5.14.0-70";
  push_built_image = true;
  cr_statuses = [];
}

verify_image_example :
    verify_image env (data_with none)
    ≡ ok (
        verdict_of env
          (data_with none)
          (any (has_module env (data_with none)) ("base" ∷ "top" ∷ [])))
verify_image_example =
    verify_image_lem env (data_with none) ("base" ∷ "top" ∷ []) refl (refl, (refl, tt))

check_loader_data_example :
    verified (check_loader_data env pv (data_with (some module_build))).1.0 ≡ (
      false
      || ((should_be_built (data_with (some module_build))
            || should_be_signed (data_with (some module_build)))
          && (not (should_be_built (data_with (some module_build)))
              || verified (verify_build env pv (data_with (some module_build))).0)
          && (not (should_be_signed (data_with (some module_build)))
              || verified (verify_sign env pv (data_with (some module_build))).0)))
unfolding verify_image verify_layers
check_loader_data_example =
    check_loader_data-verified env pv (data_with (some module_build)) (false, module_not_in_image)
      refl

get_modules_to_check_example :
    (get_modules_to_check env (ok (kmod ∷ [])) pv).1.0
    ≡ ok (filter (is_unverified pv.cr_statuses) (kmod ∷ []))
get_modules_to_check_example = get_modules_to_check_lem env pv (kmod ∷ []) refl
