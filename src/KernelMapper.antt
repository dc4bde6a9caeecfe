-- ===== src/KernelMapper.antt =====
-- internal/module/kernelmapper.go and the predicates of internal/module/helper.go: from a Module
-- and a kernel version to the ModuleLoaderData of that kernel.
pub mod Find
pub mod LoaderData
use rh_kernel_module_managem.Prelude.{
  String, Bool, true, false, ◌==◌, ◌&&◌, ◌||◌, not, Option, none, some, List, [], ◌∷◌,
  if◌then◌else◌, is_some, get_or,
}
use rh_kernel_module_managem.Prelude.Dict.{Dict}
use rh_kernel_module_managem.Api.{
  Build, Sign, KernelMapping, Module, ModuleLoaderData, Owner, Result, ok, err, panic, errorf,
  wrapv, wrap_err,
}
use rh_kernel_module_managem.Api.Errors.{◌>>=◌}
use rh_kernel_module_managem.Templates.{kernel_components_as_env_vars, replace_in_templates, first}
use rh_kernel_module_managem.BuildHelper.{get_relevant_build}
use rh_kernel_module_managem.SignHelper.{get_relevant_sign}

abbrev pub owner_of : Module → Owner
owner_of mod' = record { name = mod'.name; namespace = mod'.namespace; uid = mod'.uid }

-- The engine of the regular expressions that users write, `regexp.MatchString`.
module _ (match_string : String → String → Result Bool) where
  unfoldable pub find_kernel_mapping : List KernelMapping → String → Result KernelMapping
  find_kernel_mapping [] kernel_version = err (errorf "no suitable mapping found")
  find_kernel_mapping (m ∷ ms) kernel_version =
      let rest = find_kernel_mapping ms kernel_version in
      if not (m.literal == "") && m.literal == kernel_version
      then ok m
      else if m.regexp == ""
      then rest
      else elim (match_string m.regexp kernel_version) [
        | ok true ↦ ok m
        | ok false ↦ rest
        | err e ↦ err (wrapv "could not match regexp against kernel" e)
        | panic ↦ panic
      ]

module _ (parse : List String → String → Result String) where
  unfoldable pub relevant_build : KernelMapping → Module → Option Build
  relevant_build mapping m =
      let container = m.spec.module_loader.container in
      if is_some mapping.build || is_some container.build
      then get_relevant_build container.build mapping.build
      else none

  unfoldable pub relevant_sign : KernelMapping → Module → String → Result (Option Sign)
  relevant_sign mapping m kernel_version =
      let container = m.spec.module_loader.container in
      if is_some mapping.sign || is_some container.sign
      then (do
        s ←
            wrap_err (wrapv "failed to get the relevant Sign configuration")
              (get_relevant_sign parse container.sign mapping.sign kernel_version)
        ok (some s))
      else ok none

  -- `ImagePullPolicy` is left at its zero value.
  unfoldable pub loader_data : KernelMapping → Module → String → Option Sign → ModuleLoaderData
  loader_data mapping m kernel_version sign = record {
    kernel_version = kernel_version;
    image_repo_secret = m.spec.image_repo_secret;
    selector = m.spec.selector;
    name = m.name;
    namespace = m.namespace;
    service_account_name = m.spec.module_loader.service_account_name;
    build = relevant_build mapping m;
    sign = sign;
    container_image =
        if mapping.container_image == ""
        then m.spec.module_loader.container.container_image
        else mapping.container_image;
    image_pull_policy = "";
    modprobe = m.spec.module_loader.container.modprobe;
    registry_tls = get_or mapping.registry_tls m.spec.module_loader.container.registry_tls;
    owner = owner_of m;
  }

  unfoldable pub prepare_module_loader_data :
      KernelMapping → Module → String → Result ModuleLoaderData
  prepare_module_loader_data mapping m kernel_version = do
    sign ← relevant_sign mapping m kernel_version
    ok (loader_data mapping m kernel_version sign)

  unfoldable pub replace_templates : ModuleLoaderData → Result ModuleLoaderData
  replace_templates mld = do
    env ← kernel_components_as_env_vars mld.kernel_version
    images ←
        wrap_err (wrapv "failed to substitute templates in the ContainerImage field")
          (replace_in_templates parse env (mld.container_image ∷ []))
    image ← first images
    ok (record mld { container_image = image })

  unfoldable pub get_module_loader_data_for_kernel :
      (String → String → Result Bool) → Module → String → Result ModuleLoaderData
  get_module_loader_data_for_kernel match_string m kernel_version = do
    mapping ← wrap_err (wrapv "failed to find mapping for kernel") (
        find_kernel_mapping match_string m.spec.module_loader.container.kernel_mappings
          kernel_version)
    mld ←
        wrap_err (wrapv "failed to prepare module loader data")
          (prepare_module_loader_data mapping m kernel_version)
    wrap_err (wrapv "failed to replace templates in module loader data") (replace_templates mld)

unfoldable pub should_be_built : ModuleLoaderData → Bool
should_be_built mld = is_some mld.build

unfoldable pub should_be_signed : ModuleLoaderData → Bool
should_be_signed mld = is_some mld.sign
