-- ===== src/BuildHelper/Relevant.antt =====
-- `GetRelevantBuild`: what a merged build holds.
use rh_kernel_module_managem.Prelude.{String, ◌≡◌, refl, Option, none, some, ◌++◌, arith}
use rh_kernel_module_managem.Api.{Build}
use rh_kernel_module_managem.BuildHelper.{get_relevant_build}
use rh_kernel_module_managem.BuildHelper.Overrides.{
  find_arg, last_arg, or_else, find_arg-apply_build_arg_overrides,
}

-- The build `b` is the module's build with what the mapping sets put over it.
pub record IsMerge (module_build mapping_build b : Build) : Type 0 where
  pub args :
      (n : String)
      → find_arg n b.build_args
        ≡ or_else (last_arg n mapping_build.build_args) (find_arg n module_build.build_args)
  pub dockerfile :
      b.dockerfile_config_map
      ≡ or_else mapping_build.dockerfile_config_map module_build.dockerfile_config_map
  pub secrets : b.secrets ≡ module_build.secrets ++ mapping_build.secrets
  pub tls : b.base_image_registry_tls ≡ module_build.base_image_registry_tls
  pub kaniko : b.kaniko_params ≡ module_build.kaniko_params

-- what `GetRelevantBuild` owes to its callers, for each pair of settings
abbrev pub MergeSpec : Option Build → Option Build → Option Build → Type 0
MergeSpec none mapping_build r = r ≡ mapping_build
MergeSpec (some b) none r = r ≡ some b
MergeSpec (some b) (some mapping) r = (c : Build) × (r ≡ some c) × IsMerge b mapping c

-- With one of the two settings missing the other is the build. With both, a build argument has the
-- mapping's last value for its name or else the module's, the mapping's Dockerfile wins, the secrets
-- are the module's and then the mapping's, and the other fields are the module's.
pub get_relevant_build_lem :
    (module_build mapping_build : Option Build)
    → MergeSpec module_build mapping_build (get_relevant_build module_build mapping_build)
unfolding get_relevant_build
get_relevant_build_lem none mapping_build = refl
get_relevant_build_lem (some b) none = refl
get_relevant_build_lem (some b) (some mapping) = (
  _,
  refl,
  record {
    args = λ n. find_arg-apply_build_arg_overrides n b.build_args mapping.build_args;
    dockerfile = ground arith;
    secrets = refl;
    tls = refl;
    kaniko = refl;
  },
)
