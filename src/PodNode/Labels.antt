-- ===== src/PodNode/Labels.antt =====
-- What a reconciliation leaves on the node of a pod.
use rh_kernel_module_managem.Prelude.{
  String, ◌≡◌, refl, Bool, false, not, ◌&&◌, eq_refl, none, some, List, [], ◌∷◌, arith, is_some,
  if◌then◌else◌, Bool-cases, inl, inr,
}
use rh_kernel_module_managem.Prelude.Dict.{lookup, lookup-insert, lookup-delete}
use rh_kernel_module_managem.Api.{Node, Pod, Error, ok, err, is_ok}
use rh_kernel_module_managem.Api.Calls.{Call, patch_node, patch_pod, ◌>>=◌}
use rh_kernel_module_managem.DaemonSets.{module_name_label, get_node_label_from_pod}
use rh_kernel_module_managem.DaemonSets.Desired.{node_labeler_finalizer}
use rh_kernel_module_managem.PodNode.{
  PodEnv, labelled, unlabelled, add_label, delete_label, delete_finalizer, mark_node, reconcile_pod,
}

module _ (env : PodEnv) (pod : Pod) (module_name : String) where
  abbrev pub label_name : String
  label_name = get_node_label_from_pod env.kernel_label pod module_name

  -- The pod is ready and stays.
  abbrev pub is_active : Bool
  is_active = pod.ready && not pod.deleting

  -- the node as it has to be
  abbrev pub marked : Node → Node
  marked node = if is_active then labelled node label_name else unlabelled node label_name

  abbrev pub finalized : List Call
  finalized =
      if pod.deleting then patch_pod (env.remove_finalizer node_labeler_finalizer pod) ∷ [] else []

  marked_label : (node : Node) → is_some (lookup label_name (marked node).labels) ≡ is_active
  marked_label node = elim (Bool-cases is_active) [
    | inl h ↦ rw (h, lookup-insert label_name label_name "" node.labels, eq_refl label_name) refl
    | inr h ↦ rw (h, lookup-delete label_name label_name node.labels, eq_refl label_name) refl
  ]

  -- Where the node is found and the patches succeed, the node of a pod has the label of the module
  -- exactly if the pod is ready and not being deleted, and the finalizer is removed, after that, from a
  -- pod that is being deleted.
  pub reconcile_pod_lem :
      (node : Node)
      → lookup module_name_label pod.labels ≡ some module_name
      → env.get_node pod.node_name ≡ ok node
      → env.answer_node (marked node) ≡ none
      → env.answer_pod (env.remove_finalizer node_labeler_finalizer pod) ≡ none
      → (reconcile_pod env pod ≡ (ok tt, patch_node (marked node) ∷ finalized))
        × (is_some (lookup label_name (marked node).labels) ≡ is_active)
  unfolding reconcile_pod mark_node add_label delete_label delete_finalizer ◌>>=◌
  reconcile_pod_lem node l n a p = (ground (arith, l, n, a, p), marked_label node)

  -- Where the node is not found, nothing is called and the reconciliation fails: the pod keeps its
  -- finalizer, also if it is being deleted.
  pub reconcile_pod-no_node :
      (e : Error)
      → lookup module_name_label pod.labels ≡ some module_name
      → env.get_node pod.node_name ≡ err e
      → ((reconcile_pod env pod).1 ≡ []) × (is_ok (reconcile_pod env pod).0 ≡ false)
  unfolding reconcile_pod mark_node add_label delete_label ◌>>=◌
  reconcile_pod-no_node e l n = (ground (arith, l, n), ground (arith, l, n))
