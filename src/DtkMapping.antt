-- ===== src/DtkMapping.antt =====
-- internal/syncronizedmap/syncronizedmap.go: the driver toolkit image of a kernel, by way of the
-- version of the node's operating system. Each method holds its lock to its end, so that the
-- methods' steps do not mix, and a run is a list of updates.
pub mod History
pub mod Reconcilers
pub mod Discovered
use rh_kernel_module_managem.Prelude.{String, none, some, []}
use rh_kernel_module_managem.Prelude.Dict.{Dict, lookup, insert}
use rh_kernel_module_managem.Api.{Result, ok, err, errorf}

pub record KernelOsDtkMapping : Type 0 where
  pub kernel_to_os : Dict String
  pub os_to_dtk : Dict String

unfoldable pub new_kernel_os_dtk_mapping : KernelOsDtkMapping
new_kernel_os_dtk_mapping = record { kernel_to_os = []; os_to_dtk = [] }

unfoldable pub set_node_info : KernelOsDtkMapping → String → String → KernelOsDtkMapping
set_node_info m kernel_version os_image = record m {
  kernel_to_os = insert kernel_version os_image m.kernel_to_os;
}

unfoldable pub set_image_stream_info : KernelOsDtkMapping → String → String → KernelOsDtkMapping
set_image_stream_info m os_image dtk_image = record m {
  os_to_dtk = insert os_image dtk_image m.os_to_dtk;
}

unfoldable pub get_image : KernelOsDtkMapping → String → Result String
get_image m kernel_version = elim (lookup kernel_version m.kernel_to_os) [
  | none ↦ err (errorf "could not find kernel in kernel --> OS mapping")
  | some os_image ↦ elim (lookup os_image m.os_to_dtk) [
    | none ↦ err (errorf "could not find osImage in OS --> DTK mapping")
    | some dtk ↦ ok dtk
  ]
]
