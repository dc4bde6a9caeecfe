-- ===== src/StatusUpdater.antt =====
-- internal/statusupdater/statusupdater.go: the status of a Module, of a ManagedClusterModule and of a
-- PreflightValidation. A number of type int32 is its pattern of 32 bits.
pub mod Counts
pub mod Preflight
use rh_kernel_module_managem.Prelude.{
  int32, signed32, ℕ, ◌+◌, ◌%◌, String, Bool, true, false, not, ◌==◌, Option, none, some, List, [],
  ◌∷◌, if◌then◌else◌, length, mem, is_some,
}
use rh_kernel_module_managem.Prelude.Dict.{Dict, lookup, insert, delete, has, keys}
use rh_kernel_module_managem.Api.{
  DaemonSet, Node, Module, ModuleStatus, DaemonSetStatus, DevicePluginSpec, ManagedClusterModule,
  ManagedClusterModuleStatus, ManifestWork, PreflightValidation, CrStatus, VerificationStatus,
  VerificationStage, verification_false, stage_image, Error, errorf,
}
use rh_kernel_module_managem.Api.Calls.{
  Act, raise, call, patch_module_status, patch_mcm_status, update_preflight_status,
}
use rh_kernel_module_managem.DaemonSets.{is_device_plugin_kernel_version}

-- The loop over the DaemonSets: available device plugins, and available module loaders. The counts
-- are the bits of an int32, which the addition of signed numbers wraps as it does here.
unfoldable pub count_available : Dict DaemonSet → ℕ × ℕ → ℕ × ℕ
count_available [] counts = counts
count_available ((kernel_version, ds) ∷ rest) (plugin, loader) =
    if is_device_plugin_kernel_version kernel_version
    then count_available rest (int32 (plugin + ds.number_available), loader)
    else count_available rest (plugin, int32 (loader + ds.number_available))

-- the three numbers, from their bits
unfoldable pub daemon_set_status : ℕ → ℕ → ℕ → DaemonSetStatus
daemon_set_status matching desired available = record {
  nodes_matching_selector_number = signed32 matching;
  desired_number = signed32 desired;
  available_number = signed32 available;
}

unfoldable pub module_status : Module → List Node → List Node → Dict DaemonSet → ModuleStatus
unfolding count_available daemon_set_status
module_status m kernel_mapping_nodes targeted_nodes ds_by_kernel_version =
    let counts = count_available ds_by_kernel_version (0, 0) in
    let matching = int32 (length targeted_nodes) in
    let desired = int32 (length kernel_mapping_nodes) in
    record {
      device_plugin =
          if is_some m.spec.device_plugin
          then daemon_set_status matching desired counts.0
          else m.status.device_plugin;
      module_loader = daemon_set_status matching desired counts.1;
    }

-- `answer` is the API server's answer to the patch.
unfoldable pub module_update_status :
    (Module → Option Error) → Module → List Node → List Node → Dict DaemonSet → Act (Unit {0})
unfolding module_status
module_update_status answer m kernel_mapping_nodes targeted_nodes ds_by_kernel_version =
    let m' = record m {
      status = module_status m kernel_mapping_nodes targeted_nodes ds_by_kernel_version;
    } in
    call (patch_module_status m') (answer m')

-- the loop over the conditions of a ManifestWork, with the bits of an int32 as counts
unfoldable pub count_conditions : List (String × String) → ℕ × ℕ → ℕ × ℕ
count_conditions [] counts = counts
count_conditions ((type, status) ∷ rest) (applied, degraded) =
    if not (status == "True")
    then count_conditions rest (applied, degraded)
    else if type == "Applied"
    then count_conditions rest (int32 (applied + 1), degraded)
    else if type == "Degraded"
    then count_conditions rest (applied, int32 (degraded + 1))
    else count_conditions rest (applied, degraded)

unfoldable pub count_works : List ManifestWork → ℕ × ℕ → ℕ × ℕ
count_works [] counts = counts
count_works (mw ∷ rest) counts = count_works rest (count_conditions mw.conditions counts)

unfoldable pub managed_cluster_module_update_status :
    (ManagedClusterModule → Option Error)
    → ManagedClusterModule
    → List ManifestWork
    → Act (Unit {0})
managed_cluster_module_update_status answer mcm owned_manifest_works =
    let counts = count_works owned_manifest_works (0, 0) in
    let mcm' = record mcm {
      status = record {
        number_desired = signed32 (int32 (length owned_manifest_works));
        number_applied = signed32 counts.0;
        number_degraded = signed32 counts.1;
      };
    } in
    call (patch_mcm_status mcm') (answer mcm')

delete_gone : List String → List String → Dict CrStatus → Dict CrStatus
delete_gone [] existing statuses = statuses
delete_gone (name ∷ rest) existing statuses =
    delete_gone rest existing (if mem name existing then statuses else delete name statuses)

-- `now` is the time of the call.
preset_new : ℕ → List String → Dict CrStatus → Dict CrStatus
preset_new now [] statuses = statuses
preset_new now (name ∷ rest) statuses = preset_new now rest (
    insert name
      (record {
        verification_status = verification_false;
        status_reason = "";
        verification_stage = stage_image;
        last_transition_time = now;
      })
      statuses)

unfoldable pub preset_statuses : ℕ → List String → List String → Dict CrStatus → Dict CrStatus
unfolding delete_gone preset_new
preset_statuses now existing_modules new_modules statuses =
    preset_new now new_modules (delete_gone (keys statuses) existing_modules statuses)

-- The functions change the PreflightValidation that they are given: it is a part of the result, also
-- where the update fails.
abbrev pub Updated : Type 0
Updated = PreflightValidation × Act (Unit {0})

module _ (answer : PreflightValidation → Option Error) where
  abbrev update_status : PreflightValidation → Dict CrStatus → Updated
  update_status pv statuses =
      let pv' = record pv { cr_statuses = statuses } in
      (pv', call (update_preflight_status pv') (answer pv'))

  unfoldable pub preflight_preset_statuses :
      ℕ → PreflightValidation → List String → List String → Updated
  unfolding preset_statuses
  preflight_preset_statuses now pv existing_modules new_modules =
      update_status pv (preset_statuses now existing_modules new_modules pv.cr_statuses)

  unfoldable pub preflight_set_verification_status :
      ℕ → PreflightValidation → String → VerificationStatus → String → Updated
  preflight_set_verification_status now pv module_name status message =
      elim (lookup module_name pv.cr_statuses) [
        | none ↦ (pv, raise (errorf "failed to find module status in preflight"))
        | some s ↦ update_status pv (
            insert module_name
              (record s {
                verification_status = status;
                status_reason = message;
                last_transition_time = now;
              })
              pv.cr_statuses)
      ]

  unfoldable pub preflight_set_verification_stage :
      ℕ → PreflightValidation → String → VerificationStage → Updated
  preflight_set_verification_stage now pv module_name stage =
      elim (lookup module_name pv.cr_statuses) [
        | none ↦ (pv, raise (errorf "failed to find module status in preflight"))
        | some s ↦ update_status pv (
            insert module_name (record s { verification_stage = stage; last_transition_time = now })
              pv.cr_statuses)
      ]
