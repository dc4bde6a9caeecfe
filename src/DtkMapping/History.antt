-- ===== src/DtkMapping/History.antt =====
-- The mapping against its history: what is read depends on the updates made so far, of which the
-- last one for a kernel and the last one for a version count, in whatever order they came.
use rh_kernel_module_managem.Prelude.{
  String, ◌≡◌, refl, Option, none, some, List, [], ◌∷◌, if◌then◌else◌, ◌==◌, arith, inl, inr,
  Option-cases,
}
use rh_kernel_module_managem.Prelude.Dict.{lookup, lookup-insert}
use rh_kernel_module_managem.Api.{Result, ok, err, errorf}
use rh_kernel_module_managem.DtkMapping.{
  KernelOsDtkMapping, new_kernel_os_dtk_mapping, set_node_info, set_image_stream_info, get_image,
}

pub data Update : Type 0 where
  node_info image_stream_info : String → String → Update

unfoldable pub apply_update : KernelOsDtkMapping → Update → KernelOsDtkMapping
unfolding set_node_info set_image_stream_info
apply_update m (node_info kernel os) = set_node_info m kernel os
apply_update m (image_stream_info os dtk) = set_image_stream_info m os dtk

-- the updates of a history, the latest one first
unfoldable pub replay : List Update → KernelOsDtkMapping
unfolding apply_update new_kernel_os_dtk_mapping
replay [] = new_kernel_os_dtk_mapping
replay (u ∷ us) = apply_update (replay us) u

-- The abstract view: the last version of a kernel, and the last image of a version.
unfoldable pub last_os : String → List Update → Option String
last_os kernel [] = none
last_os kernel (node_info k os ∷ us) = if k == kernel then some os else last_os kernel us
last_os kernel (image_stream_info _ _ ∷ us) = last_os kernel us

unfoldable pub last_dtk : String → List Update → Option String
last_dtk os [] = none
last_dtk os (node_info _ _ ∷ us) = last_dtk os us
last_dtk os (image_stream_info o dtk ∷ us) = if o == os then some dtk else last_dtk os us

unfoldable pub last_image : String → List Update → Result String
unfolding last_os last_dtk
last_image kernel us = elim (last_os kernel us) [
  | none ↦ err (errorf "could not find kernel in kernel --> OS mapping")
  | some os ↦ elim (last_dtk os us) [
    | none ↦ err (errorf "could not find osImage in OS --> DTK mapping")
    | some dtk ↦ ok dtk
  ]
]

lookup-kernel_to_os :
    (kernel : String) (us : List Update)
    → lookup kernel (replay us).kernel_to_os ≡ last_os kernel us
unfolding replay last_os lookup
lookup-kernel_to_os kernel [] = refl
lookup-kernel_to_os kernel (node_info k os ∷ us) =
    ground
      (arith, lookup-insert k kernel os (replay us).kernel_to_os, lookup-kernel_to_os kernel us)
lookup-kernel_to_os kernel (image_stream_info o dtk ∷ us) = lookup-kernel_to_os kernel us

lookup-os_to_dtk :
    (os : String) (us : List Update) → lookup os (replay us).os_to_dtk ≡ last_dtk os us
unfolding replay last_dtk lookup
lookup-os_to_dtk os [] = refl
lookup-os_to_dtk os (node_info k o ∷ us) = lookup-os_to_dtk os us
lookup-os_to_dtk os (image_stream_info o dtk ∷ us) =
    ground (arith, lookup-insert o os dtk (replay us).os_to_dtk, lookup-os_to_dtk os us)

-- Whatever the order of the updates, the image of a kernel is the last one of its last version.
pub get_image-replay :
    (us : List Update) (kernel : String) → get_image (replay us) kernel ≡ last_image kernel us
unfolding get_image last_image
get_image-replay us kernel = elim (Option-cases (last_os kernel us)) [
  | inl none_yet ↦ ground (arith, lookup-kernel_to_os kernel us)
  | inr (os, e) ↦ ground (arith, lookup-kernel_to_os kernel us, lookup-os_to_dtk os us)
]
