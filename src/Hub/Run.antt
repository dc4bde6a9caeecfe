-- ===== src/Hub/Run.antt =====
-- controllers/hub/managedclustermodule_reconciler.go: the reconciliation of a ManagedClusterModule. What
-- fails for one cluster is logged, and the loop goes on with the ManagedClusterModule as it is left.
use rh_kernel_module_managem.Prelude.{String, none, some, List, [], ◌∷◌, if◌then◌else◌}
use rh_kernel_module_managem.Api.{
  ManagedCluster, ManagedClusterModule, ManifestWork, ok, err, panic, wrapv, wrap_err, is_not_found,
}
use rh_kernel_module_managem.Api.Calls.{Act, pure, raise, lift, wrapping, ignoring, ◌>>=◌, ◌>>◌}
use rh_kernel_module_managem.StatusUpdater.{managed_cluster_module_update_status}
use rh_kernel_module_managem.Hub.{
  HubEnv, requested_managed_cluster_module, selected_managed_clusters, build_and_sign,
  garbage_collect_builds,
}
use rh_kernel_module_managem.Hub.Manifests.{
  set_manifest_work_as_desired, strip_shared, garbage_collect, get_owned_manifest_works,
}

abbrev pub new_work : ManagedClusterModule → ManagedCluster → ManifestWork
new_work mcm cluster = record {
  name = mcm.name;
  namespace = cluster.name;
  labels = [];
  controller = none;
  workload = [];
  json_paths = [];
  conditions = [];
}

module _ (env : HubEnv) where
  -- the body of the loop: the ManagedClusterModule that is left, and what is called
  unfoldable pub reconcile_cluster :
      ManagedClusterModule → ManagedCluster → ManagedClusterModule × Act (Unit {0})
  reconcile_cluster mcm cluster =
      let run = build_and_sign env mcm cluster in
      elim run.0 [
        | err e ↦ (mcm, (ok tt, run.1))
        | panic ↦ (mcm, (panic, run.1))
        | ok completed ↦
            let patched =
              env.create_or_patch (new_work mcm cluster)
                (λ mw. set_manifest_work_as_desired env (some mw) mcm) in
            if completed
            then (
              (if patched.0 then strip_shared mcm else mcm),
              (ok tt, run.1) >> ignoring patched.1,
            )
            else (mcm, (ok tt, run.1))
      ]

  unfoldable pub reconcile_clusters :
      ManagedClusterModule → List ManagedCluster → ManagedClusterModule × Act (Unit {0})
  reconcile_clusters mcm [] = (mcm, pure tt)
  reconcile_clusters mcm (cluster ∷ clusters) =
      let one = reconcile_cluster mcm cluster in
      let rest = reconcile_clusters one.0 clusters in (rest.0, one.1 >> rest.1)

  unfoldable pub reconcile_mcm : ManagedClusterModule → List ManagedCluster → Act (Unit {0})
  reconcile_mcm mcm clusters = do
    (reconcile_clusters mcm clusters).1
    wrapping (wrapv "failed to garbage collect ManifestWorks with no matching cluster selector")
        (garbage_collect env clusters mcm)
    deleted ←
        wrapping (wrapv "failed to garbage collect build objects") (garbage_collect_builds env mcm)
    owned ← lift (
        wrap_err (wrapv "failed to fetch owned ManifestWorks of the ManagedClusterModule")
          (get_owned_manifest_works env mcm))
    wrapping (wrapv "failed to update status of the ManagedClusterModule") (
        managed_cluster_module_update_status env.answer_status (reconcile_clusters mcm clusters).0
          owned)

  unfoldable pub reconcile : String → Act (Unit {0})
  reconcile name = elim (requested_managed_cluster_module env name) [
    | err e ↦ if is_not_found e then pure tt else raise (wrapv "failed to get the requested CR" e)
    | panic ↦ (panic, [])
    | ok mcm ↦
        lift
          (wrap_err (wrapv "failed to get selected clusters") (selected_managed_clusters env mcm))
        >>= λ clusters. reconcile_mcm mcm clusters
  ]
