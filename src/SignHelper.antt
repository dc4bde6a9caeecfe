-- ===== src/SignHelper.antt =====
-- internal/sign/helper.go: a mapping's signing settings over those of the module, with the
-- templates filled in.
pub mod Merge
use rh_kernel_module_managem.Prelude.{
  String, not, ◌==◌, Option, none, some, List, [], ◌∷◌, ◌++◌, if◌then◌else◌, is_some,
}
use rh_kernel_module_managem.Api.{Sign, Result, ok, panic}
use rh_kernel_module_managem.Api.Errors.{◌>>=◌}
use rh_kernel_module_managem.Templates.{kernel_components_as_env_vars, replace_in_templates, first}

-- `DeepCopy` of no settings is no settings.
unfoldable pub merge_sign : Option Sign → Option Sign → Option Sign
merge_sign none mapping_sign = mapping_sign
merge_sign (some module_sign) none = some module_sign
merge_sign (some s) (some mapping) = some (record s {
  unsigned_image =
      if not (mapping.unsigned_image == "") then mapping.unsigned_image else s.unsigned_image;
  key_secret = if is_some mapping.key_secret then mapping.key_secret else s.key_secret;
  cert_secret = if is_some mapping.cert_secret then mapping.cert_secret else s.cert_secret;
  files_to_sign = s.files_to_sign ++ mapping.files_to_sign;
})

module _ (parse : List String → String → Result String) where
  -- Without any settings the code reads a field of a nil pointer.
  pub fill_sign : Option Sign → String → Result Sign
  fill_sign none kernel = panic
  fill_sign (some s) kernel = do
    env ← kernel_components_as_env_vars kernel
    images ← replace_in_templates parse env (s.unsigned_image ∷ [])
    image ← first images
    files ← replace_in_templates parse env s.files_to_sign
    ok (record s { unsigned_image = image; files_to_sign = files })

  unfoldable pub get_relevant_sign : Option Sign → Option Sign → String → Result Sign
  unfolding merge_sign fill_sign
  get_relevant_sign module_sign mapping_sign kernel =
      fill_sign (merge_sign module_sign mapping_sign) kernel
