-- ===== src/Examples/PodRuns.antt =====
-- The label of a node at concrete inputs: a pod that is being deleted.
use rh_kernel_module_managem.Prelude.{◌≡◌, refl, true, false, none, [], ◌∷◌, is_some}
use rh_kernel_module_managem.Prelude.Dict.{lookup}
use rh_kernel_module_managem.Api.{Pod, ok, err, not_found, is_ok}
use rh_kernel_module_managem.Api.Calls.{patch_node}
use rh_kernel_module_managem.PodNode.{PodEnv, reconcile_pod}
use rh_kernel_module_managem.PodNode.Labels.{
  label_name, is_active, marked, finalized, reconcile_pod_lem, reconcile_pod-no_node,
}
use rh_kernel_module_managem.Examples.Data.{kernel, node_on}

abbrev pod : Pod
pod = record {
  name = "pod";
  namespace = "ns";
  labels = ("kmm.node.kubernetes.io/module.name", "kmod") ∷ ("kernel", kernel) ∷ [];
  finalizers = "kmm.node.kubernetes.io/node-labeler" ∷ [];
  node_name = "node";
  ready = true;
  deleting = true;
}

abbrev env : PodEnv
env = record {
  kernel_label = "kernel";
  get_pod = λ name. ok pod;
  get_node = λ name. ok (node_on kernel);
  answer_node = λ node. none;
  answer_pod = λ p. none;
  remove_finalizer = λ finalizer p. record p { finalizers = [] };
}

-- the node has been deleted
abbrev env_without : PodEnv
env_without = record env { get_node = λ name. err not_found }

reconcile_pod_example :
    (reconcile_pod env pod
      ≡ (ok tt, patch_node (marked env pod "kmod" (node_on kernel)) ∷ finalized env pod "kmod"))
    × (is_some (lookup (label_name env pod "kmod") (marked env pod "kmod" (node_on kernel)).labels)
        ≡ is_active env pod "kmod")
unfolding lookup
reconcile_pod_example = reconcile_pod_lem env pod "kmod" (node_on kernel) refl refl refl refl

reconcile_pod-no_node_example :
    ((reconcile_pod env_without pod).1 ≡ []) × (is_ok (reconcile_pod env_without pod).0 ≡ false)
unfolding lookup
reconcile_pod-no_node_example = reconcile_pod-no_node env_without pod "kmod" not_found refl refl
