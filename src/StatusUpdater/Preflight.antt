-- ===== src/StatusUpdater/Preflight.antt =====
-- What `PreflightPresetStatuses` leaves of the statuses.
use rh_kernel_module_managem.Prelude.{
  ℕ, String, ◌≡◌, refl, false, none, some, List, [], ◌∷◌, arith, mem, if◌then◌else◌, eq_iff,
}
use rh_kernel_module_managem.Prelude.Dict.{
  Dict, lookup, insert, delete, keys, lookup-insert, lookup-delete,
}
use rh_kernel_module_managem.Api.{CrStatus, verification_false, stage_image}
use rh_kernel_module_managem.StatusUpdater.{preset_statuses, preset_new, delete_gone}

abbrev pub fresh_status : ℕ → CrStatus
fresh_status now = record {
  verification_status = verification_false;
  status_reason = "";
  verification_stage = stage_image;
  last_transition_time = now;
}

lookup-preset_new :
    (now : ℕ) (new : List String) (k : String) (s : Dict CrStatus)
    → lookup k (preset_new now new s) ≡ (if mem k new then some (fresh_status now) else lookup k s)
unfolding preset_new
lookup-preset_new now [] k s = refl
lookup-preset_new now (n ∷ new) k s = ground (
  arith,
  eq_iff n k,
  lookup-insert n k (fresh_status now) s,
  lookup-preset_new now new k (insert n (fresh_status now) s),
)

lookup-delete_gone :
    (names existing : List String) (k : String) (s : Dict CrStatus)
    → lookup k (delete_gone names existing s)
      ≡ (if mem k names then (if mem k existing then lookup k s else none) else lookup k s)
unfolding delete_gone
lookup-delete_gone [] existing k s = refl
lookup-delete_gone (n ∷ names) existing k s = ground (
  arith,
  eq_iff n k,
  lookup-delete n k s,
  lookup-delete_gone names existing k (if mem n existing then s else delete n s),
)

lookup_not_key : (k : String) (s : Dict CrStatus) → mem k (keys s) ≡ false → lookup k s ≡ none
unfolding lookup keys
lookup_not_key k [] h = refl
lookup_not_key k ((j, v) ∷ s) h = ground (arith, h, lookup_not_key k s)

-- A module that is new gets the first status, a module that exists keeps its own, and one that does
-- not exist any more has none.
pub lookup-preset_statuses :
    (now : ℕ) (existing new : List String) (k : String) (s : Dict CrStatus)
    → lookup k (preset_statuses now existing new s)
      ≡ (if mem k new then some (fresh_status now) else if mem k existing then lookup k s else none)
unfolding preset_statuses
lookup-preset_statuses now existing new k s = ground (
  arith,
  lookup-preset_new now new k (delete_gone (keys s) existing s),
  lookup-delete_gone (keys s) existing k s,
  lookup_not_key k s,
)
