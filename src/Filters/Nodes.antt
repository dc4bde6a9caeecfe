-- ===== src/Filters/Nodes.antt =====
-- The node reconciler and the filter before it.
use rh_kernel_module_managem.Prelude.{String, ◌≡◌, ◌==◌, not, arith, eq_iff, eq_refl}
use rh_kernel_module_managem.Prelude.Dict.{lookup-insert}
use rh_kernel_module_managem.Api.{Node}
use rh_kernel_module_managem.DtkMapping.Reconcilers.{kernel_of, with_kernel_label}
use rh_kernel_module_managem.Filters.{node_kernel_reconciler_predicate}

-- Where an update leaves a node as the reconciler labels it, with its old system image, it passes the
-- filter exactly if the suffix `+` was cut off the node's kernel: of such a node every update does.
pub update-with_kernel_label :
    (label : String) (old node : Node)
    → node.os_image ≡ old.os_image
    → (node_kernel_reconciler_predicate label).update old (with_kernel_label label node)
      ≡ not (kernel_of node == node.kernel_version)
unfolding node_kernel_reconciler_predicate with_kernel_label
update-with_kernel_label label old node same = ground (
  arith,
  lookup-insert label label (kernel_of node) node.labels,
  eq_refl label,
  eq_iff node.os_image old.os_image,
  same,
)
