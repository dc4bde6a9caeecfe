-- ===== src/Examples/Settings.antt =====
-- The settings of a module at concrete inputs.
use rh_kernel_module_managem.Prelude.{
  none, String, ◌≡◌, refl, ◌↔◌, ◌⊎◌, ◌<>◌, some, List, [], ◌∷◌, ◌<◌,
}
use rh_kernel_module_managem.Api.{Sign, ok, panic}
use rh_kernel_module_managem.BuildHelper.{apply_build_arg_overrides, get_relevant_build}
use rh_kernel_module_managem.BuildHelper.Overrides.{
  find_arg, last_arg, or_else, find_arg-apply_build_arg_overrides,
}
use rh_kernel_module_managem.BuildHelper.Relevant.{MergeSpec, get_relevant_build_lem}
use rh_kernel_module_managem.Templates.{
  is_kernel_sep, replace_in_templates, first, kernel_components_as_env_vars,
}
use rh_kernel_module_managem.Templates.Components.{
  separators, kernel_components_lem, kernel_components_panics,
}
use rh_kernel_module_managem.KernelMapper.{
  find_kernel_mapping, prepare_module_loader_data, relevant_sign, relevant_build, replace_templates,
  loader_data, get_module_loader_data_for_kernel,
}
use rh_kernel_module_managem.KernelMapper.Find.{IsFirst, find_kernel_mapping_iff}
use rh_kernel_module_managem.KernelMapper.LoaderData.{IsLoaderData, get_module_loader_data_lem}
use rh_kernel_module_managem.DaemonSets.Commands.{unload_line}
use rh_kernel_module_managem.DaemonSets.Unload.{intended_line, unload_line_iff}
use rh_kernel_module_managem.Examples.Data.{
  strict_tls, kernel, kmod, mapping, other_mapping, module_build, mapping_build, modprobe, parse,
  match_string, data_with,
}

overrides_example :
    find_arg "OPT" (apply_build_arg_overrides module_build.build_args mapping_build.build_args)
    ≡ or_else (last_arg "OPT" mapping_build.build_args) (find_arg "OPT" module_build.build_args)
overrides_example =
    find_arg-apply_build_arg_overrides "OPT" module_build.build_args mapping_build.build_args

relevant_build_example :
    MergeSpec
      (some module_build)
      (some mapping_build)
      (get_relevant_build (some module_build) (some mapping_build))
relevant_build_example = get_relevant_build_lem (some module_build) (some mapping_build)

kernel_components_example :
    kernel_components_as_env_vars ("5" <> "." <> ("14" <> "." <> ("0" <> "-" <> "70")))
    ≡ ok (
        "KERNEL_FULL_VERSION=5.14.0-70" ∷ "KERNEL_VERSION=5.14.0-70" ∷ "KERNEL_XYZ=5.14.0"
        ∷ "KERNEL_X=5" ∷ "KERNEL_Y=14" ∷ "KERNEL_Z=0" ∷ [])
unfolding is_kernel_sep
kernel_components_example =
    kernel_components_lem "5" "14" "0" "70" "." "." "-" (refl, tt) (refl, (refl, tt)) (refl, tt)
      refl refl refl

kernel_components_panics_example :
    (kernel_components_as_env_vars "5.14" ≡ panic) ↔ (separators is_kernel_sep "5.14" < 2)
kernel_components_panics_example = kernel_components_panics "5.14"

find_kernel_mapping_example :
    (find_kernel_mapping match_string (other_mapping ∷ mapping ∷ []) kernel ≡ ok mapping)
    ↔ IsFirst match_string kernel mapping (other_mapping ∷ mapping ∷ [])
find_kernel_mapping_example =
    find_kernel_mapping_iff match_string kernel (other_mapping ∷ mapping ∷ []) mapping

loader_data_example :
    IsLoaderData match_string parse kmod kernel
      (data_with (get_relevant_build (some module_build) (some mapping_build)))
unfolding get_module_loader_data_for_kernel find_kernel_mapping prepare_module_loader_data
    relevant_sign replace_templates kernel_components_as_env_vars loader_data replace_in_templates
    first get_relevant_build relevant_build
loader_data_example =
    get_module_loader_data_lem match_string parse kmod kernel
      (data_with (get_relevant_build (some module_build) (some mapping_build))) refl

abbrev more : List String
more = "kmm_ci" ∷ []

unload_line_example :
    (unload_line modprobe ("-r" ∷ more) ≡ intended_line modprobe ("-r" ∷ more))
    ↔ ((modprobe.firmware_path ≡ "") ⊎ (more ≡ []))
unload_line_example = unload_line_iff modprobe "-r" more

abbrev module_sign : Sign
module_sign = record {
  unsigned_image = "base";
  unsigned_image_registry_tls = strict_tls;
  key_secret = some "key";
  cert_secret = some "cert";
  files_to_sign = "a.ko" ∷ [];
}

abbrev mapping_sign : Sign
mapping_sign = record {
  unsigned_image = "";
  unsigned_image_registry_tls = strict_tls;
  key_secret = some "other";
  cert_secret = none;
  files_to_sign = "b.ko" ∷ [];
}

abbrev merged_sign : Sign
merged_sign = record {
  unsigned_image = "base";
  unsigned_image_registry_tls = strict_tls;
  key_secret = some "other";
  cert_secret = some "cert";
  files_to_sign = "a.ko" ∷ "b.ko" ∷ [];
}
