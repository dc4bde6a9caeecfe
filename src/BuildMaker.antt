-- ===== src/BuildMaker.antt =====
-- internal/build/buildconfig/maker.go: the Build that is made for a kernel.
pub mod Args
pub mod Hash
pub mod WithToolkit
use rh_kernel_module_managem.Prelude.{
  ℕ, String, Bool, true, false, Option, none, some, List, [], ◌∷◌, ◌++◌, if◌then◌else◌, ◌<>◌,
  contains, map,
}
use rh_kernel_module_managem.Prelude.Dict.{Dict, lookup}
use rh_kernel_module_managem.Api.{
  Build, BuildArg, OcpBuild, BuildPhase, Volume, secret, Owner, ModuleLoaderData,
  LocalObjectReference, Result, ok, err, panic, errorf, wrapv, wrap_err,
}
use rh_kernel_module_managem.Api.Errors.{◌>>=◌}
use rh_kernel_module_managem.BuildHelper.{apply_build_arg_overrides, get_build_labels}
use rh_kernel_module_managem.BuildManager.{build_hash_annotation, target_image}
use rh_kernel_module_managem.DtkMapping.{KernelOsDtkMapping, get_image}

-- The data of ConfigMaps by namespace and name, the hash of a source that is a Dockerfile, the
-- printing of a number, and `controllerutil.SetControllerReference`.
pub record MakerEnv : Type 0 where
  pub get_config_map : String → String → Result (Dict String)
  pub hash_source : String → Result ℕ
  pub print : ℕ → String
  pub set_controller_reference : Owner → OcpBuild → Result OcpBuild

abbrev pub dtk_build_arg : String
dtk_build_arg = "DTK_AUTO"

unfoldable pub env_vars_from_build_args : List BuildArg → List (String × String)
env_vars_from_build_args args = map (λ (a : BuildArg). (a.name, a.value)) args

unfoldable pub build_volumes_from_build_secrets : List LocalObjectReference → List (Volume × String)
build_volumes_from_build_secrets secrets =
    map
      (λ (s : String).
        (record { name = "secret-" <> s; source = secret s [] }, "/run/secrets/" <> s))
      secrets

unfoldable pub kernel_override : ModuleLoaderData → BuildArg
kernel_override mld = record { name = "KERNEL_VERSION"; value = mld.kernel_version }

-- where the Dockerfile speaks of the toolkit
unfoldable pub dtk_overrides : KernelOsDtkMapping → ModuleLoaderData → Result (List BuildArg)
unfolding kernel_override
dtk_overrides mapping mld = do
  dtk_image ←
      wrap_err (wrapv "could not get DTK image for kernel") (get_image mapping mld.kernel_version)
  ok (kernel_override mld ∷ record { name = dtk_build_arg; value = dtk_image } ∷ [])

unfoldable pub final_overrides :
    KernelOsDtkMapping → ModuleLoaderData → String → Result (List BuildArg)
unfolding dtk_overrides kernel_override
final_overrides mapping mld dockerfile =
    if contains dockerfile dtk_build_arg
    then dtk_overrides mapping mld
    else ok (kernel_override mld ∷ [])

module _ (env : MakerEnv) where
  -- A build without a ConfigMap for its Dockerfile has a nil pointer here.
  unfoldable pub get_dockerfile_data : Build → String → Result String
  get_dockerfile_data build ns = elim build.dockerfile_config_map [
    | none ↦ panic
    | some name ↦ do
      data' ← wrap_err (wrapv "failed to get dockerfile ConfigMap") (env.get_config_map ns name)
      elim (lookup "dockerfile" data') [
        | none ↦ err (errorf "invalid Dockerfile ConfigMap format, key is missing")
        | some text ↦ ok text
      ]
  ]

  -- the Build, before its controller is set
  unfoldable pub build_object :
      ModuleLoaderData → Build → Bool → String → List BuildArg → ℕ → OcpBuild
  unfolding env_vars_from_build_args build_volumes_from_build_secrets
  build_object mld build push dockerfile overrides hash = record {
    name = "";
    generate_name = mld.name <> "-";
    namespace = mld.namespace;
    labels = get_build_labels mld;
    annotations = some ((build_hash_annotation, env.print hash) ∷ []);
    controller = none;
    service_account = "builder";
    dockerfile = dockerfile;
    build_args = env_vars_from_build_args (apply_build_arg_overrides build.build_args overrides);
    volumes = build_volumes_from_build_secrets build.secrets;
    output = if push then some (target_image mld, mld.image_repo_secret) else none;
    node_selector = mld.selector;
    mount_trusted_ca = true;
    phase = BuildPhase.other "";
  }

  unfoldable pub make_template :
      KernelOsDtkMapping → ModuleLoaderData → Build → Bool → Owner → Result OcpBuild
  unfolding get_dockerfile_data final_overrides build_object
  make_template mapping mld build push owner = do
    dockerfile ←
        wrap_err (wrapv "failed to get dockerfile data from configmap")
          (get_dockerfile_data build mld.namespace)
    overrides ← final_overrides mapping mld dockerfile
    hash ←
        wrap_err (wrapv "could not hash Build's Buildsource template") (env.hash_source dockerfile)
    wrap_err (wrapv "could not set the owner reference")
        (env.set_controller_reference owner (build_object mld build push dockerfile overrides hash))

  -- Without build settings the Dockerfile's ConfigMap is looked for behind a nil pointer.
  unfoldable pub make_build_template :
      KernelOsDtkMapping → ModuleLoaderData → Bool → Owner → Result OcpBuild
  unfolding make_template
  make_build_template mapping mld push owner = elim mld.build [
    | none ↦ panic
    | some build ↦ make_template mapping mld build push owner
  ]
