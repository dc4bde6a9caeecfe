-- ===== src/Reconciler/OnlyStale.antt =====
-- Which DaemonSets the whole of `Reconcile` deletes, in terms of what the cluster answers.
use rh_kernel_module_managem.Prelude.{
  String, ◌≡◌, refl, inl, inr, false, not, ◌&&◌, ◌==◌, Option, none, some, List, [], ◌∷◌, arith,
  if◌then◌else◌, is_some, In, All, mem, eq_iff,
}
use rh_kernel_module_managem.Prelude.Dict.{Dict, lookup, keys}
use rh_kernel_module_managem.Api.{
  DaemonSet, Node, Module, ModprobeArgs, ModuleLoaderData, Owner, Result, ok, err, panic, is_ok,
  is_not_found, wrapw, wrapv, wrap_err,
}
use rh_kernel_module_managem.Api.Errors.Inversion.{bind_inv, wrap_err_inv}
use rh_kernel_module_managem.Api.Calls.{Call, pure, raise, wrapping, delete_ds}
use rh_kernel_module_managem.Api.Calls.Makes.{
  Makes, Makes-bind, Makes-wrapping, Makes-pure, Makes-raise, Makes-if, Makes-call, Makes-mono,
}
use rh_kernel_module_managem.DaemonSets.{
  label_of, index_by_kernel, is_device_plugin_daemon_set, module_daemon_sets_by_kernel_version,
}
use rh_kernel_module_managem.KernelMapper.{owner_of}
use rh_kernel_module_managem.Reconciler.{
  Env, kernel_of, get_nodes_list_by_selector, get_relevant_kernel_mappings_and_nodes,
}
use rh_kernel_module_managem.Reconciler.Metrics.{
  Totals, set_args, each_module, set_totals, set_modprobe_args, set_kmmo_metrics,
}
use rh_kernel_module_managem.Reconciler.Run.{
  get_for, get_requested_module, reconcile_module, reconcile,
}
use rh_kernel_module_managem.Reconciler.Deletes.{CreatesOrPatches, IsSafe, apply_desired-IsSafe}
use rh_kernel_module_managem.Reconciler.Reads.{Makes-read, covers, mem-keys, index_by_kernel-In}

-- `ca.Helper`'s Sync and the metrics change no DaemonSet.
abbrev pub IsOtherCall : Call → Type 0
IsOtherCall (delete_ds ds) = ⊥
IsOtherCall _ = Unit

set_args-IsOtherCall :
    (name : String) (m : Module) (args : Option ModprobeArgs)
    → Makes IsOtherCall (set_args name m args)
unfolding set_args
set_args-IsOtherCall name m none = Makes-pure _
set_args-IsOtherCall name m (some args) = Makes-call _ _ tt

set_modprobe_args-IsOtherCall : (m : Module) → Makes IsOtherCall (set_modprobe_args m)
unfolding set_modprobe_args
set_modprobe_args-IsOtherCall m =
    Makes-bind _ _ (set_args-IsOtherCall _ m _) λ _. set_args-IsOtherCall _ m _

each_module-IsOtherCall :
    (ms : List Module) (totals : Totals) → Makes IsOtherCall (each_module ms totals)
unfolding each_module
each_module-IsOtherCall [] totals = Makes-pure _
each_module-IsOtherCall (m ∷ ms) totals =
    Makes-bind _ _ (set_modprobe_args-IsOtherCall m) λ _. each_module-IsOtherCall ms _

set_kmmo_metrics-IsOtherCall : (r : Result (List Module)) → Makes IsOtherCall (set_kmmo_metrics r)
unfolding set_kmmo_metrics set_totals
set_kmmo_metrics-IsOtherCall (err e) = Makes-pure _
set_kmmo_metrics-IsOtherCall panic = record { all = tt }
set_kmmo_metrics-IsOtherCall (ok ms) = Makes-bind _ _ (each_module-IsOtherCall ms _) λ totals.
    Makes-bind _ _ (Makes-call _ _ tt) λ _.
      Makes-bind _ _ (Makes-call _ _ tt)
        λ _. Makes-bind _ _ (Makes-call _ _ tt) λ _. Makes-call _ _ tt

-- `ca.Helper`'s Sync works on ConfigMaps only.
abbrev pub SyncsCa : Env → Type 0
SyncsCa env = (ns : String) (o : Owner) → Makes IsOtherCall (env.ca_sync ns o)

module _ (env : Env) (name : String × String) where
  -- The DaemonSet is one of those that are listed for the Module of that name, it is not the device
  -- plugin's, and of the nodes that the Module targets none runs the kernel of its label, but for those
  -- whose kernel has no data: no mapping suits it, or the data cannot be made.
  pub record IsOwnStale (ds : DaemonSet) : Type 0 where
    pub m : Module
    pub nodes : List Node
    pub dss : List DaemonSet
    pub found : env.get_module name ≡ ok m
    pub targeted : get_nodes_list_by_selector env m ≡ ok nodes
    pub listed : env.list_daemon_sets m.name m.namespace ≡ ok dss
    pub own : In ds dss
    pub no_plugin : is_device_plugin_daemon_set env.kernel_label ds ≡ false
    pub no_data :
        All
          (λ n.
            ((kernel_of n == label_of env.kernel_label ds.labels)
              && is_ok (get_for env m (kernel_of n)))
            ≡ false)
          nodes

  abbrev pub DeletesOwnStale : Call → Type 0
  DeletesOwnStale (delete_ds ds) = IsOwnStale ds
  DeletesOwnStale _ = Unit

  other : (c : Call) → IsOtherCall c → DeletesOwnStale c
  other (delete_ds ds) h = absurd h
  other _ h = tt

  no_data_for :
      (get : String → Result ModuleLoaderData) (kernel : String) (nodes : List Node)
      (mappings : Dict ModuleLoaderData)
      → mem kernel (keys mappings) ≡ false
      → All
          (λ n.
            (is_ok (get (kernel_of n)) && not (is_some (lookup (kernel_of n) mappings))) ≡ false)
          nodes
      → All (λ n. ((kernel_of n == kernel) && is_ok (get (kernel_of n))) ≡ false) nodes
  no_data_for get kernel [] mappings h a = tt
  no_data_for get kernel (n ∷ nodes) mappings h (p, a) = (
    ground (arith, p, mem-keys kernel mappings h, eq_iff (kernel_of n) kernel),
    no_data_for get kernel nodes mappings h a,
  )

  module _ (only : CreatesOrPatches env) (ca : SyncsCa env) (m : Module)
      (found : env.get_module name ≡ ok m) where
    own_stale :
        (nodes : List Node) (mappings : Dict ModuleLoaderData) (with_mapping : List Node)
        (existing : Dict DaemonSet) (dss : List DaemonSet)
        → get_nodes_list_by_selector env m ≡ ok nodes
        → get_relevant_kernel_mappings_and_nodes (get_for env m) [] nodes
          ≡ ok (mappings, with_mapping)
        → env.list_daemon_sets m.name m.namespace ≡ ok dss
        → index_by_kernel env.kernel_label [] dss ≡ ok existing
        → (c : Call) → IsSafe env.kernel_label existing (keys mappings) c
        → DeletesOwnStale c
    own_stale nodes mappings ns existing dss t g l x (delete_ds ds) (k, i, (p, q)) =
        elim (index_by_kernel-In env.kernel_label dss [] existing k ds x i) [
          | inl gone ↦ absurd gone
          | inr (own, label) ↦ record {
            m = m;
            nodes = nodes;
            dss = dss;
            found = found;
            targeted = t;
            listed = l;
            own = own;
            no_plugin = p;
            no_data = rw label (
                no_data_for (get_for env m) k nodes mappings q
                  (covers (get_for env m) nodes [] mappings ns g).all);
          }
        ]
    own_stale nodes mappings ns existing dss t g l x _ h = tt

    reconcile_module-DeletesOwnStale :
        (ns : String) → Makes DeletesOwnStale (reconcile_module env ns m)
    unfolding reconcile_module module_daemon_sets_by_kernel_version
    reconcile_module-DeletesOwnStale ns =
        Makes-bind _ _
          (Makes-if (not (ns == env.operator_namespace))
            (wrapping (wrapv "failed to synchronize CA ConfigMaps") (env.ca_sync ns (owner_of m))) _
            (λ _. Makes-wrapping _ _ (Makes-mono _ other (ca ns (owner_of m)))) (λ _. Makes-pure _))
          λ _. Makes-bind _ _ (Makes-mono _ other (set_kmmo_metrics-IsOtherCall _)) λ _.
            Makes-read _ _ λ nodes t. Makes-read _ _ λ r g. Makes-read _ _ λ existing x.
              let (dss, l, e) = bind_inv _ _ existing (wrap_err_inv _ _ _ x) in
              Makes-mono _
                (own_stale nodes r.0 r.1 existing dss (wrap_err_inv _ _ _ t) (wrap_err_inv _ _ _ g)
                  (wrap_err_inv _ _ _ (wrap_err_inv _ _ _ l)) e)
                (apply_desired-IsSafe env m nodes r.1 r.0 existing only)

-- Where CreateOrPatch only creates or patches, and the synchronisation of the CA's ConfigMaps
-- changes no DaemonSet: reconciling a Module deletes a DaemonSet only if it is listed for that Module
-- and is not the device plugin's, and no node that the Module targets has its kernel, unless there is
-- no data for that kernel; whatever fails on the way.
pub reconcile-DeletesOwnStale :
    (env : Env) (name : String × String)
    → CreatesOrPatches env
    → SyncsCa env
    → Makes (DeletesOwnStale env name) (reconcile env name)
unfolding reconcile get_requested_module
reconcile-DeletesOwnStale env name only ca = by_module (env.get_module name) refl
  where
    by_module :
        (r : Result Module)
        → env.get_module name ≡ r
        → Makes
            (DeletesOwnStale env name)
            (elim (wrap_err (wrapw "failed to get the kmmo module") r) [
              | err e ↦
                  if is_not_found e
                  then pure tt
                  else raise (wrapw "failed to get the requested KMMO CR" e)
              | panic ↦ (panic, [])
              | ok m ↦ reconcile_module env name.0 m
            ])
    by_module (ok m) e = reconcile_module-DeletesOwnStale env name only ca m e name.0
    by_module (err x) e =
        let f = wrapw "failed to get the kmmo module" x in
        Makes-if (is_not_found f) (pure tt) (raise (wrapw "failed to get the requested KMMO CR" f))
          (λ _. Makes-pure _) (λ _. Makes-raise _)
    by_module panic e = record { all = tt }
