-- ===== src/Examples/ClaimRuns.antt =====
-- The claim of a cluster of two nodes, as the hub reads it.
use rh_kernel_module_managem.Prelude.{String, ◌≡◌, refl, List, [], ◌∷◌, map, mem}
use rh_kernel_module_managem.Api.{Node, ok}
use rh_kernel_module_managem.Hub.{kernel_versions}
use rh_kernel_module_managem.ClusterClaims.{claim_value, sorted_kernels}
use rh_kernel_module_managem.ClusterClaims.RoundTrip.{lines_of, kernel_versions-claim_value}
use rh_kernel_module_managem.Examples.Data.{node_on}

abbrev nodes : List Node
nodes = node_on "6.1" ∷ node_on "5.14" ∷ []

kernel_versions-claim_value_example :
    (kernel_versions (("kernel-versions.kmm.node.kubernetes.io", claim_value nodes) ∷ [])
      ≡ ok (lines_of (sorted_kernels nodes)))
    × ((k : String) → mem k (sorted_kernels nodes) ≡ mem k (map (λ n. n.kernel_version) nodes))
kernel_versions-claim_value_example =
    kernel_versions-claim_value nodes
      ((refl, (refl, (refl, tt))), ((refl, (refl, (refl, (refl, tt)))), tt))
