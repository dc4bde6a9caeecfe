-- ===== src/Examples/Managers.antt =====
-- The managers of jobs and Builds at concrete inputs.
use rh_kernel_module_managem.Prelude.{refl, ◌≢◌, ◌≡◌, ◌↔◌, true, none, some, [], ◌∷◌}
use rh_kernel_module_managem.Api.{BuildPhase, ok}
use rh_kernel_module_managem.JobHelper.{completed, failed}
use rh_kernel_module_managem.BuildManager.{BuildsApi, Maker, get_build, sync}
use rh_kernel_module_managem.BuildManager.Outcome.{
  MayCall, sync-MayCall, IsComplete, sync_completed_iff,
}
use rh_kernel_module_managem.Examples.Data.{module_build, data_with, owner, build_with}

-- one Build, which the API server answers with
abbrev api : BuildsApi
api = record {
  list_builds = λ namespace labels. ok (build_with "h1" BuildPhase.failed ∷ []);
  answer_create = λ b. none;
  answer_delete = λ b. none;
}

abbrev maker : Maker
maker mld push o = ok (build_with "h1" BuildPhase.new)

sync_completed_iff_example :
    (((sync api maker (data_with (some module_build)) true owner).0 ≡ ok completed)
      ↔ IsComplete api
          (get_build api (data_with (some module_build)))
          (build_with "h1" BuildPhase.new))
    × ((sync api maker (data_with (some module_build)) true owner).0 ≢ ok failed)
sync_completed_iff_example =
    sync_completed_iff api maker (data_with (some module_build)) true owner
      (build_with "h1" BuildPhase.new) refl

-- a template with another hash
abbrev new_maker : Maker
new_maker mld push o = ok (build_with "h2" BuildPhase.new)

sync-MayCall_example :
    MayCall api
      (get_build api (data_with (some module_build)))
      (build_with "h2" BuildPhase.new)
      (sync api new_maker (data_with (some module_build)) true owner)
sync-MayCall_example =
    sync-MayCall api new_maker (data_with (some module_build)) true owner
      (build_with "h2" BuildPhase.new) refl
