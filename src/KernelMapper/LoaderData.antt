-- ===== src/KernelMapper/LoaderData.antt =====
-- What `GetModuleLoaderDataForKernel` returns.
use rh_kernel_module_managem.Prelude.{
  String, ◌≡◌, Bool, ◌||◌, ◌==◌, Option, List, [], ◌∷◌, arith, if◌then◌else◌, is_some, get_or,
}
use rh_kernel_module_managem.Api.{
  KernelMapping, Module, ModuleLoaderContainerSpec, ModuleLoaderData, Sign, Result, ok,
}
use rh_kernel_module_managem.Templates.{kernel_components_as_env_vars, replace_in_templates, first}
use rh_kernel_module_managem.BuildHelper.{get_relevant_build}
use rh_kernel_module_managem.KernelMapper.{
  owner_of, find_kernel_mapping, relevant_build, relevant_sign, loader_data,
  prepare_module_loader_data, replace_templates, get_module_loader_data_for_kernel,
}

abbrev container_of : Module → ModuleLoaderContainerSpec
container_of m = m.spec.module_loader.container

module _ (match_string : String → String → Result Bool)
    (parse : List String → String → Result String) (m : Module) (kernel : String) where
  -- `mld` holds what the module and its mapping ask for on the kernel.
  pub record IsLoaderData (mld : ModuleLoaderData) : Type 0 where
    pub mapping : KernelMapping
    pub found :
        find_kernel_mapping match_string (container_of m).kernel_mappings kernel ≡ ok mapping
    pub env : List String
    pub kernel_env : kernel_components_as_env_vars kernel ≡ ok env
    pub image :
        parse env (
          if mapping.container_image == ""
          then (container_of m).container_image
          else mapping.container_image)
        ≡ ok mld.container_image
    pub build : mld.build ≡ get_relevant_build (container_of m).build mapping.build
    pub signed : is_some mld.sign ≡ (is_some mapping.sign || is_some (container_of m).sign)
    pub tls : mld.registry_tls ≡ get_or mapping.registry_tls (container_of m).registry_tls
    pub kernel_version : mld.kernel_version ≡ kernel
    pub name : mld.name ≡ m.name
    pub namespace : mld.namespace ≡ m.namespace
    pub selector : mld.selector ≡ m.spec.selector
    pub modprobe : mld.modprobe ≡ (container_of m).modprobe
    pub pull_policy : mld.image_pull_policy ≡ ""
    pub owner : mld.owner ≡ owner_of m

  relevant_build_lem :
      (mapping : KernelMapping)
      → relevant_build parse mapping m ≡ get_relevant_build (container_of m).build mapping.build
  unfolding relevant_build get_relevant_build
  relevant_build_lem mapping = ground arith

  relevant_sign_lem :
      (mapping : KernelMapping) (s : Option Sign)
      → relevant_sign parse mapping m kernel ≡ ok s
      → is_some s ≡ (is_some mapping.sign || is_some (container_of m).sign)
  unfolding relevant_sign
  relevant_sign_lem mapping s h = ground (arith, h)

  replace_one :
      (env : List String) (t : String) (ts : List String) (s : String)
      → replace_in_templates parse env (t ∷ []) ≡ ok ts
      → first ts ≡ ok s
      → parse env t ≡ ok s
  unfolding replace_in_templates first
  replace_one env t ts s h k = ground (arith, h, k)

  -- the three steps of a run that succeeds
  steps :
      (mld : ModuleLoaderData)
      → get_module_loader_data_for_kernel parse match_string m kernel ≡ ok mld
      → (mapping : KernelMapping) × (mld0 : ModuleLoaderData) × (find_kernel_mapping match_string
            (container_of m).kernel_mappings
            kernel
          ≡ ok mapping)
        × (prepare_module_loader_data parse mapping m kernel ≡ ok mld0)
        × (replace_templates parse mld0 ≡ ok mld)
  unfolding get_module_loader_data_for_kernel
  steps mld h = ground (arith, h)

  prepared :
      (mapping : KernelMapping) (mld : ModuleLoaderData)
      → prepare_module_loader_data parse mapping m kernel ≡ ok mld
      → (s : Option Sign) × (relevant_sign parse mapping m kernel ≡ ok s)
        × (mld ≡ loader_data parse mapping m kernel s)
  unfolding prepare_module_loader_data
  prepared mapping mld h = ground (arith, h)

  replaced :
      (mld0 mld : ModuleLoaderData)
      → replace_templates parse mld0 ≡ ok mld
      → (env : List String) × (images : List String) × (kernel_components_as_env_vars
            mld0.kernel_version
          ≡ ok env)
        × (replace_in_templates parse env (mld0.container_image ∷ []) ≡ ok images)
        × (first images ≡ ok mld.container_image)
        × (mld ≡ record mld0 { container_image = mld.container_image })
  unfolding replace_templates
  replaced mld0 mld h = ground (arith, h)

  -- What is returned comes from the first mapping that suits the kernel: the image with the kernel's
  -- variables filled in, the build settings merged, signing settings where either place has some,
  -- the mapping's TLS options or else the module's, and never an image pull policy.
  pub get_module_loader_data_lem :
      (mld : ModuleLoaderData)
      → get_module_loader_data_for_kernel parse match_string m kernel ≡ ok mld
      → IsLoaderData mld
  unfolding loader_data
  get_module_loader_data_lem mld h =
      let (mapping, mld0, found, prep, rep) = steps mld h in
      let (s, signing, e0) = prepared mapping mld0 prep in
      let (env, images, kernel_env, repl, one, e) = replaced mld0 mld rep in
      record {
        mapping = mapping;
        found = found;
        env = env;
        kernel_env = cc (e0, kernel_env);
        image = cc (replace_one env mld0.container_image images mld.container_image repl one, e0);
        build = cc (e, e0, relevant_build_lem mapping);
        signed = cc (relevant_sign_lem mapping s signing, e, e0);
        tls = cc (e, e0);
        kernel_version = cc (e, e0);
        name = cc (e, e0);
        namespace = cc (e, e0);
        selector = cc (e, e0);
        modprobe = cc (e, e0);
        pull_policy = cc (e, e0);
        owner = cc (e, e0);
      }
