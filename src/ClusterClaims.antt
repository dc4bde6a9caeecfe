-- ===== src/ClusterClaims.antt =====
-- controllers/node_kernel_clusterclaim.go: the kernels of a cluster's nodes, as a claim that the hub reads.
pub mod RoundTrip
use rh_kernel_module_managem.Prelude.{String, List, [], ◌∷◌, join, sort_strings}
use rh_kernel_module_managem.Prelude.Dict.{Dict, insert, keys}
use rh_kernel_module_managem.Api.{Node, Result, wrapv, wrap_err}
use rh_kernel_module_managem.Api.Calls.{Act, lift, ◌>>=◌}

-- `map[string]struct{}`
unfoldable pub collect_kernels : Dict (Unit {0}) → List Node → Dict (Unit {0})
collect_kernels kernels [] = kernels
collect_kernels kernels (n ∷ nodes) = collect_kernels (insert n.kernel_version tt kernels) nodes

unfoldable pub sorted_kernels : List Node → List String
sorted_kernels nodes = sort_strings (keys (collect_kernels [] nodes))

unfoldable pub claim_value : List Node → String
claim_value nodes = join (sorted_kernels nodes) "\n"

-- `create_or_patch` is the function of controller-runtime, for a claim that is set to a value.
module _ (create_or_patch : String → String → Act (Unit {0})) where
  unfoldable pub reconcile_claim : Result (List Node) → Act (Unit {0})
  reconcile_claim list_nodes =
      lift (wrap_err (wrapv "could not list nodes") list_nodes) >>= λ nodes.
      create_or_patch "kernel-versions.kmm.node.kubernetes.io" (claim_value nodes)
