-- ===== src/BuildHelper.antt =====
-- internal/build/helper.go: a mapping's build settings over those of the module.
pub mod Overrides
pub mod Relevant
use rh_kernel_module_managem.Prelude.{
  String, Bool, Option, none, some, List, [], ◌∷◌, ◌++◌, ◌==◌, if◌then◌else◌, is_some, sort_strings,
}
use rh_kernel_module_managem.Prelude.Dict.{Dict, lookup, insert, keys}
use rh_kernel_module_managem.Api.{BuildArg, Build, ModuleLoaderData}

-- `overridesMap[o.Name] = o` for each override in turn
pub overrides_map : Dict BuildArg → List BuildArg → Dict BuildArg
overrides_map m [] = m
overrides_map m (o ∷ os) = overrides_map (insert o.name o m) os

-- `unusedOverrides.Delete(name)`
pub discard : String → List String → List String
discard name [] = []
discard name (x ∷ xs) = let rest = discard name xs in if x == name then rest else x ∷ rest

-- The loop over the arguments writes each in its place, and the overrides that it has not used
-- are what is left.
pub override_each : Dict BuildArg → List BuildArg → List String → List BuildArg × List String
override_each m [] unused = ([], unused)
override_each m (a ∷ more) unused = elim (lookup a.name m) [
  | none ↦ let (rest, left) = override_each m more unused in (a ∷ rest, left)
  | some o ↦ let (rest, left) = override_each m more (discard a.name unused) in (o ∷ rest, left)
]

-- `overridesMap[overrideName]` for each name in order; every name is a key of the map.
pub append_unused : Dict BuildArg → List String → List BuildArg
append_unused m [] = []
append_unused m (n ∷ ns) = elim (lookup n m) [
  | none ↦ record { name = ""; value = "" } ∷ append_unused m ns
  | some o ↦ o ∷ append_unused m ns
]

unfoldable pub apply_build_arg_overrides : List BuildArg → List BuildArg → List BuildArg
unfolding overrides_map override_each append_unused
apply_build_arg_overrides args overrides =
    let m = overrides_map [] overrides in
    let (replaced, unused) = override_each m args (keys m) in
    replaced ++ append_unused m (sort_strings unused)

-- Where both are given, what the mapping sets wins over the module's settings. `DeepCopy` of no
-- build is no build.
unfoldable pub get_relevant_build : Option Build → Option Build → Option Build
get_relevant_build none mapping_build = mapping_build
get_relevant_build (some module_build) none = some module_build
get_relevant_build (some b) (some mapping) = some (record b {
  dockerfile_config_map =
      if is_some mapping.dockerfile_config_map
      then mapping.dockerfile_config_map
      else b.dockerfile_config_map;
  build_args = apply_build_arg_overrides b.build_args mapping.build_args;
  secrets = b.secrets ++ mapping.secrets;
})

unfoldable pub get_build_labels : ModuleLoaderData → Dict String
get_build_labels mld =
    ("kmm.node.kubernetes.io/module.name", mld.name)
    ∷ ("kmm.node.kubernetes.io/target-kernel", mld.kernel_version)
    ∷ []
