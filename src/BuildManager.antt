-- ===== src/BuildManager.antt =====
-- internal/build/buildconfig/manager.go: the OpenShift Build of a kernel.
pub mod Outcome
use rh_kernel_module_managem.Prelude.{
  String, Bool, true, false, not, ◌==◌, Option, none, some, List, [], ◌∷◌, if◌then◌else◌,
}
use rh_kernel_module_managem.Prelude.Dict.{Dict}
use rh_kernel_module_managem.Api.{
  BuildPhase, OcpBuild, Owner, ModuleLoaderData, Error, Result, ok, err, panic, errorf, wrapv,
  wrapw, wrap_err, sentinel, is_sentinel, no_matching_build,
}
use rh_kernel_module_managem.Api.Calls.{
  Act, pure, raise, lift, call, wrapping, ignoring, create_build, delete_build, ◌>>=◌, ◌>>◌,
}
use rh_kernel_module_managem.BuildHelper.{get_build_labels}
use rh_kernel_module_managem.Images.{image_exists, intermediate_image_name}
use rh_kernel_module_managem.KernelMapper.{should_be_built, should_be_signed}
use rh_kernel_module_managem.JobHelper.{Status, completed, created, in_progress, failed, annotation}

-- The API server's answers about Builds.
pub record BuildsApi : Type 0 where
  pub list_builds : String → Dict String → Result (List OcpBuild)
  pub answer_create : OcpBuild → Option Error
  pub answer_delete : OcpBuild → Option Error

-- The interface `Maker`: ModuleLoaderData, whether to push, and owner.
abbrev pub Maker : Type 0
Maker = ModuleLoaderData → Bool → Owner → Result OcpBuild

-- `GarbageCollect` does nothing yet.
unfoldable pub garbage_collect : String → String → Owner → Act (List String)
garbage_collect mod_name namespace owner = pure []

-- the image that a build produces
unfoldable pub target_image : ModuleLoaderData → String
target_image mld =
    if should_be_signed mld
    then intermediate_image_name mld.name mld.namespace mld.container_image
    else mld.container_image

module _ (registry_image_exists : ModuleLoaderData → String → Result Bool) where
  unfoldable pub should_sync : ModuleLoaderData → Result Bool
  unfolding target_image
  should_sync mld =
      if not (should_be_built mld)
      then ok false
      else elim (image_exists registry_image_exists mld (target_image mld)) [
        | ok exists ↦ ok (not exists)
        | err e ↦ err (wrapw "failed to check existence of image" e)
        | panic ↦ panic
      ]

abbrev pub build_hash_annotation : String
build_hash_annotation = "kmm.node.kubernetes.io/last-hash"

unfoldable pub is_build_changed : OcpBuild → OcpBuild → Result Bool
is_build_changed existing new_build = elim existing.annotations [
  | none ↦ err (errorf "annotations are not present in the existing Build")
  | some m ↦ ok (
      not (
        annotation (some m) build_hash_annotation
        == annotation new_build.annotations build_hash_annotation))
]

-- What is returned for a phase: a status and no error, or an error and what stands beside it, a
-- status or the empty one.
pub data Returned : Type 0 where
  returned : Status → Returned
  returned_with : Option Status → Error → Returned

-- the `switch` on `build.Status.Phase`
unfoldable pub phase_status : BuildPhase → Returned
phase_status BuildPhase.complete = returned completed
phase_status BuildPhase.new = returned in_progress
phase_status BuildPhase.pending = returned in_progress
phase_status BuildPhase.running = returned in_progress
phase_status BuildPhase.failed = returned_with (some failed) (errorf "build failed")
phase_status _ = returned_with none (errorf "unknown status")

-- All that call `Sync` look at its status only where the error is nil.
abbrev pub or_error : Returned → Result Status
or_error (returned s) = ok s
or_error (returned_with s e) = err e

unfoldable pub the_only_build : List OcpBuild → Result OcpBuild
the_only_build [] = err (sentinel no_matching_build)
the_only_build (b ∷ []) = ok b
the_only_build (_ ∷ _ ∷ _) = err (errorf "expected 0 or 1 Builds")

module _ (api : BuildsApi) where
  unfoldable pub get_build : ModuleLoaderData → Result OcpBuild
  unfolding the_only_build
  get_build mld =
      elim (wrap_err (wrapv "could not list Build")
        (api.list_builds mld.namespace (get_build_labels mld))) [
          | ok builds ↦ the_only_build builds
          | err e ↦ err e
          | panic ↦ panic
        ]

  unfoldable pub sync_existing : OcpBuild → OcpBuild → Act Status
  sync_existing build template = do
    changed ← lift (
        wrap_err (wrapv "could not determine if Build has changed")
          (is_build_changed build template))
    if changed
        then (do ignoring (call (delete_build build) (api.answer_delete build)); pure in_progress)
        else lift (or_error (phase_status build.phase))

  unfoldable pub sync_found : Result OcpBuild → OcpBuild → Act Status
  sync_found (ok build) template = sync_existing build template
  sync_found panic template = (panic, [])
  sync_found (err e) template =
      if not (is_sentinel no_matching_build e)
      then raise (wrapv "error getting the build" e)
      else do
        wrapping (wrapv "could not create Build")
            (call (create_build template) (api.answer_create template))
        pure created

  unfoldable pub sync : Maker → ModuleLoaderData → Bool → Owner → Act Status
  sync make_build_template mld push_image owner = do
    template ← lift (
        wrap_err (wrapv "could not make Build template") (make_build_template mld push_image owner))
    sync_found (get_build mld) template
