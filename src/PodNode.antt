-- ===== src/PodNode.antt =====
-- controllers/pod_node_module_reconciler.go: the labels that tell on which nodes a module is ready.
pub mod Labels
use rh_kernel_module_managem.Prelude.{
  String, Bool, true, false, not, ◌||◌, Option, none, some, List, [], ◌∷◌, if◌then◌else◌,
}
use rh_kernel_module_managem.Prelude.Dict.{Dict, lookup, insert, delete}
use rh_kernel_module_managem.Api.{
  Node, Pod, Error, Result, ok, err, panic, errorf, wrapv, wrap_err, is_not_found,
}
use rh_kernel_module_managem.Api.Calls.{
  Act, pure, raise, lift, call, wrapping, patch_node, patch_pod, ◌>>=◌, ◌>>◌,
}
use rh_kernel_module_managem.DaemonSets.{module_name_label, get_node_label_from_pod}
use rh_kernel_module_managem.DaemonSets.Desired.{node_labeler_finalizer}

-- The API server's answers, and `controllerutil.RemoveFinalizer`.
pub record PodEnv : Type 0 where
  pub kernel_label : String
  pub get_pod : String × String → Result Pod
  pub get_node : String → Result Node
  pub answer_node : Node → Option Error
  pub answer_pod : Pod → Option Error
  pub remove_finalizer : String → Pod → Pod

-- `client.IgnoreNotFound(err)`
abbrev pub ignore_not_found : Act (Unit {0}) → Act (Unit {0})
ignore_not_found (ok tt, w) = (ok tt, w)
ignore_not_found (err e, w) = (if is_not_found e then ok tt else err e, w)
ignore_not_found (panic, w) = (panic, w)

abbrev pub labelled : Node → String → Node
labelled node label_name = record node { labels = insert label_name "" node.labels }

abbrev pub unlabelled : Node → String → Node
unlabelled node label_name = record node { labels = delete label_name node.labels }

module _ (env : PodEnv) where
  unfoldable pub add_label : String → String → Act (Unit {0})
  add_label node_name label_name = do
    node ← lift (wrap_err (wrapv "could not get node") (env.get_node node_name))
    call (patch_node (labelled node label_name)) (env.answer_node (labelled node label_name))

  unfoldable pub delete_label : String → String → Act (Unit {0})
  delete_label node_name label_name = do
    node ← lift (wrap_err (wrapv "could not get node") (env.get_node node_name))
    call (patch_node (unlabelled node label_name)) (env.answer_node (unlabelled node label_name))

  unfoldable pub delete_finalizer : Pod → Act (Unit {0})
  delete_finalizer pod =
      let pod' = env.remove_finalizer node_labeler_finalizer pod in
      call (patch_pod pod') (env.answer_pod pod')

  -- the reconciliation of a pod of the module `module_name`
  unfoldable pub mark_node : Pod → String → Act (Unit {0})
  mark_node pod module_name =
      let label_name = get_node_label_from_pod env.kernel_label pod module_name in
      if not pod.ready || pod.deleting
      then (do
        wrapping (wrapv "could not unlabel node") (delete_label pod.node_name label_name)
        if pod.deleting
            then wrapping (wrapv "could not delete the pod finalizer")
                (ignore_not_found (delete_finalizer pod))
            else pure tt)
      else wrapping (wrapv "could not label node") (add_label pod.node_name label_name)

  unfoldable pub reconcile_pod : Pod → Act (Unit {0})
  reconcile_pod pod = elim (lookup module_name_label pod.labels) [
    | none ↦ raise (errorf "pod has no module name label")
    | some module_name ↦ mark_node pod module_name
  ]

  unfoldable pub reconcile : String × String → Act (Unit {0})
  reconcile name = elim (env.get_pod name) [
    | err e ↦ if is_not_found e then pure tt else raise (wrapv "could not get pod" e)
    | panic ↦ (panic, [])
    | ok pod ↦ reconcile_pod pod
  ]
