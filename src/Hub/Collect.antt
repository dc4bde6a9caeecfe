-- ===== src/Hub/Collect.antt =====
-- Which ManifestWorks the hub deletes.
use rh_kernel_module_managem.Prelude.{String, ◌≡◌, false, List, In, mem}
use rh_kernel_module_managem.Api.{ManifestWork}
use rh_kernel_module_managem.Api.Calls.{Call, delete_manifest_work}
use rh_kernel_module_managem.Api.Calls.Makes.{Makes}

module _ (cluster_names : List String) where
  -- The call deletes one of the ManifestWorks, in the namespace of no selected cluster.
  abbrev pub DeletesUnselected : List ManifestWork → Call → Type 0
  DeletesUnselected works c =
      (mw : ManifestWork) × In mw works
      × (mem mw.namespace cluster_names ≡ false)
      × (c ≡ delete_manifest_work mw)
