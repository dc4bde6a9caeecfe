-- ===== src/Images.antt =====
-- internal/module/helper.go: names of images, and the question whether one exists.
pub mod Names
use rh_kernel_module_managem.Prelude.{String, Bool, ◌<>◌, contains_char, if◌then◌else◌}
use rh_kernel_module_managem.Api.{ModuleLoaderData, Result, wrapv, wrap_err}

unfoldable pub append_to_tag : String → String → String
append_to_tag name tag =
    let separator = if contains_char name b':' then "_" else ":" in name <> separator <> tag

unfoldable pub intermediate_image_name : String → String → String → String
unfolding append_to_tag
intermediate_image_name name namespace target_image =
    append_to_tag target_image (namespace <> "_" <> name <> "_kmm_unsigned")

-- The registry's answer, with the credentials and the TLS options of the ModuleLoaderData.
module _ (registry_image_exists : ModuleLoaderData → String → Result Bool) where
  unfoldable pub image_exists : ModuleLoaderData → String → Result Bool
  image_exists mld image_name =
      wrap_err (wrapv "could not check if the image is available")
        (registry_image_exists mld image_name)
