-- ===== src/PreflightOcp.antt =====
-- controllers/preflightvalidationocp_reconciler.go: a preflight for an OpenShift release is one for
-- the kernel of the release, which is found in the layers of its images. The driver toolkit's
-- mapping comes in and goes out.
pub mod Known
use rh_kernel_module_managem.Prelude.{
  ℕ, String, Bool, true, false, ◌==◌, ◌||◌, Option, none, some, List, [], ◌∷◌, reverse,
  if◌then◌else◌,
}
use rh_kernel_module_managem.Prelude.Dict.{lookup}
use rh_kernel_module_managem.Api.{
  PreflightValidation, PreflightValidationOcp, Error, Result, ok, err, panic, errorf, wrapv,
  wrap_err, is_not_found, is_ok,
}
use rh_kernel_module_managem.Api.Errors.{◌>>=◌}
use rh_kernel_module_managem.Api.Calls.{
  Act, pure, raise, call, wrapping, create_preflight, update_preflight_ocp_status,
}
use rh_kernel_module_managem.DtkMapping.{
  KernelOsDtkMapping, set_node_info, set_image_stream_info, get_image,
}
use rh_kernel_module_managem.DtkMapping.Reconcilers.{TagReference}
use rh_kernel_module_managem.Registry.{RepoPullConfig}
use rh_kernel_module_managem.Registry.Manifests.{
  RegistryEnv, last_layer, get_layers_digests, get_layer_by_digest,
}
use rh_kernel_module_managem.Registry.Layers.{Layer, get_header_data_from_layer}

pub record DtkRelease : Type 0 where
  pub kernel_version : String
  pub rt_kernel_version : String
  pub rhel_version : String

-- The registry and the answer of the cluster's auth getter; the decoding of the two files; the API
-- server; and `controllerutil.SetControllerReference`.
pub record OcpEnv : Type 0 where
  pub registry : RegistryEnv Layer
  pub keychain : Result String
  pub unmarshal_image_stream : List ℕ → Result (List TagReference)
  pub unmarshal_dtk_release : List ℕ → Result DtkRelease
  pub get_preflight_ocp : String × String → Result PreflightValidationOcp
  pub get_preflight : String → String → Result PreflightValidation
  pub answer_create : PreflightValidation → Option Error
  pub answer_status : PreflightValidationOcp → Option Error
  pub set_controller_reference :
      PreflightValidationOcp → PreflightValidation → Result PreflightValidation

-- the loop over the tags of the release
unfoldable pub find_dtk : List TagReference → Result String
find_dtk [] = err (errorf "failed to find driver-toolkit entry in the file")
find_dtk (tag ∷ tags) =
    let rest = find_dtk tags in
    if tag.name == "driver-toolkit"
    then elim tag.from [
      | none ↦ err (errorf "driver-toolkit local reference is missing")
      | some image ↦ ok image
    ]
    else rest

-- both versions have to be there
unfoldable pub check_release : DtkRelease → Result DtkRelease
check_release release =
    if (release.kernel_version == "") || (release.rhel_version == "")
    then err
        (errorf "failed format of file, both KernelVersion and RHEL_VERSION should not be empty")
    else ok release

module _ (env : OcpEnv) where
  unfoldable pub get_dtk_from_image : String → Result String
  unfolding find_dtk
  get_dtk_from_image image = do
    layer ←
        wrap_err (wrapv "failed to get last layer of image")
          (last_layer env.registry image none (some env.keychain))
    bytes ←
        wrap_err (wrapv "failed to get image spec from image")
          (get_header_data_from_layer layer "release-manifests/image-references")
    tags ← wrap_err (wrapv "failed to unmarshal data") (env.unmarshal_image_stream bytes)
    find_dtk tags

  -- From the last layer to the first; a layer without the file is passed over.
  unfoldable pub find_release : List String → RepoPullConfig → Result DtkRelease
  unfolding check_release
  find_release [] repo = err (errorf "file is not present in the image")
  find_release (digest ∷ digests) repo = elim (get_layer_by_digest env.registry digest repo) [
    | err e ↦ err (wrapv "failed to get layer for DTK image" e)
    | panic ↦ panic
    | ok layer ↦ elim (get_header_data_from_layer layer "etc/driver-toolkit-release.json") [
      | err e ↦ find_release digests repo
      | panic ↦ panic
      | ok bytes ↦ elim (env.unmarshal_dtk_release bytes) [
        | err e ↦ err (wrapv "failed to unmarshal data" e)
        | panic ↦ panic
        | ok release ↦ check_release release
      ]
    ]
  ]

  unfoldable pub get_kernel_version_and_os_from_dtk : String → Result DtkRelease
  unfolding find_release
  get_kernel_version_and_os_from_dtk dtk_image = do
    found ←
        wrap_err (wrapv "failed to get layers digests for DTK image")
          (get_layers_digests env.registry dtk_image none (some env.keychain))
    find_release (reverse found.0) found.1

  -- the kernel to check for
  unfoldable pub chosen_kernel : PreflightValidationOcp → DtkRelease → Result String
  chosen_kernel pvo release =
      if pvo.spec.use_rt_kernel
      then if release.rt_kernel_version == ""
        then err (errorf "rt_kernel_version is missing for this release")
        else ok release.rt_kernel_version
      else ok release.kernel_version

  -- what the images tell: the toolkit's image, the kernel, and the version of the system
  unfoldable pub discover : PreflightValidationOcp → Result (String × String × String)
  unfolding get_dtk_from_image get_kernel_version_and_os_from_dtk chosen_kernel
  discover pvo = do
    dtk_image ←
        wrap_err (wrapv "failed to get DTK image from Release Image")
          (get_dtk_from_image pvo.spec.release_image)
    release ←
        wrap_err (wrapv "failed to get kernel/os version from DTK image")
          (get_kernel_version_and_os_from_dtk dtk_image)
    kernel ← chosen_kernel pvo release
    ok (dtk_image, kernel, release.rhel_version)

  -- A kernel that the mapping knows is left as it is.
  unfoldable pub learn : KernelOsDtkMapping → String → String → String → KernelOsDtkMapping
  unfolding set_node_info set_image_stream_info
  learn m dtk_image kernel os =
      if is_ok (get_image m kernel)
      then m
      else set_image_stream_info (set_node_info m kernel os) os dtk_image

  unfoldable pub new_preflight : PreflightValidationOcp → String → PreflightValidation
  new_preflight pvo kernel = record {
    name = pvo.name;
    namespace = pvo.namespace;
    uid = "";
    kernel_version = kernel;
    push_built_image = pvo.spec.push_built_image;
    cr_statuses = [];
  }

  unfoldable pub prepare_preflight_validation :
      PreflightValidationOcp → KernelOsDtkMapping → Result PreflightValidation × KernelOsDtkMapping
  unfolding discover learn new_preflight
  prepare_preflight_validation pvo m = elim (discover pvo) [
    | err e ↦ (err e, m)
    | panic ↦ (panic, m)
    | ok found ↦ (
      wrap_err (wrapv "failed to set owner reference for pv")
          (env.set_controller_reference pvo (new_preflight pvo found.1)),
      learn m found.0 found.1 found.2,
    )
  ]

  -- `PreflightOCPUpdateStatus` of internal/statusupdater
  unfoldable pub preflight_ocp_update_status :
      PreflightValidationOcp → PreflightValidation → Act (Unit {0})
  preflight_ocp_update_status pvo pv =
      let pvo' = record pvo { cr_statuses = pv.cr_statuses } in
      call (update_preflight_ocp_status pvo') (env.answer_status pvo')

  unfoldable pub create_prepared : Result PreflightValidation → Act (Unit {0})
  create_prepared (err e) =
      raise (wrapv "failed to prepare the data for compatible PreflightValidation" e)
  create_prepared panic = (panic, [])
  create_prepared (ok pv) =
      wrapping (wrapv "failed to create PreflightValidation")
        (call (create_preflight pv) (env.answer_create pv))

  unfoldable pub run_preflight_validation_ocp :
      PreflightValidationOcp → KernelOsDtkMapping → Act (Unit {0}) × KernelOsDtkMapping
  unfolding prepare_preflight_validation create_prepared preflight_ocp_update_status
  run_preflight_validation_ocp pvo m = elim (env.get_preflight pvo.name pvo.namespace) [
    | ok pv ↦ (
      wrapping (wrapv "failed to update the statuses from compatible PreflightValidations")
          (preflight_ocp_update_status pvo pv),
      m,
    )
    | panic ↦ ((panic, []), m)
    | err e ↦
        if is_not_found e
        then (let (r, m') = prepare_preflight_validation pvo m in (create_prepared r, m'))
        else (raise (wrapv "failed to get the compatible PreflightValidation" e), m)
  ]

  unfoldable pub reconcile :
      String × String → KernelOsDtkMapping → Act (Unit {0}) × KernelOsDtkMapping
  unfolding run_preflight_validation_ocp
  reconcile name m = elim (env.get_preflight_ocp name) [
    | ok pvo ↦
        let (a, m') = run_preflight_validation_ocp pvo m in
        (wrapping (wrapv "runPreflightValidationOCP failed") a, m')
    | panic ↦ ((panic, []), m)
    | err e ↦ if is_not_found e then (pure tt, m) else (raise e, m)
  ]
