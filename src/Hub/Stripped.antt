-- ===== src/Hub/Stripped.antt =====
-- No build or signing settings reach a managed cluster, and what that does to the next one.
use rh_kernel_module_managem.Prelude.{◌≡◌, refl, ap, true, none, some, List, [], ◌∷◌, All, arith}
use rh_kernel_module_managem.Api.{
  KernelMapping, Module, ManagedCluster, ManagedClusterModule, ManifestWork, Owner, Result, ok,
}
use rh_kernel_module_managem.Api.Calls.{◌>>◌}
use rh_kernel_module_managem.Hub.{HubEnv, build_and_sign, owner_of_mcm}
use rh_kernel_module_managem.Hub.Manifests.{
  strip, strip_shared, spoke_spec, set_manifest_work_as_desired,
}
use rh_kernel_module_managem.Hub.Run.{new_work, reconcile_cluster, reconcile_clusters}

-- The mapping asks for no build and no signing.
abbrev pub IsBare : KernelMapping → Type 0
IsBare m = (m.build ≡ none) × (m.sign ≡ none)

-- The workload is one module, which asks for no build and no signing anywhere, and for what the
-- ManagedClusterModule asks for in the other fields of its mappings.
pub record IsBareWork (mcm : ManagedClusterModule) (mw : ManifestWork) : Type 0 where
  pub m : Module
  pub only : mw.workload ≡ m ∷ []
  pub name : m.name ≡ mcm.name
  pub namespace : m.namespace ≡ mcm.spoke_namespace
  pub no_build : m.spec.module_loader.container.build ≡ none
  pub no_sign : m.spec.module_loader.container.sign ≡ none
  pub mappings : All IsBare m.spec.module_loader.container.kernel_mappings
  pub selector : m.spec.selector ≡ mcm.module_spec.selector
  pub plugin : m.spec.device_plugin ≡ mcm.module_spec.device_plugin

strip-IsBare : (ms : List KernelMapping) → All IsBare (strip ms)
unfolding strip
strip-IsBare [] = tt
strip-IsBare (m ∷ ms) = ((refl, refl), strip-IsBare ms)

strip-strip : (ms : List KernelMapping) → strip (strip ms) ≡ strip ms
unfolding strip
strip-strip [] = refl
strip-strip (m ∷ ms) = ap (λ l. record m { build = none; sign = none } ∷ l) (strip-strip ms)

-- `metav1.SetControllerReference` leaves the workload as it is.
abbrev pub KeepsWorkload : HubEnv → Type 0
KeepsWorkload env =
    (o : Owner) (mw mw' : ManifestWork)
    → env.set_controller_reference o mw ≡ ok mw'
    → mw'.workload ≡ mw.workload

-- Whatever the ManifestWork held, the one that is set up holds one module, without any build or
-- signing settings, in the namespace that the ManagedClusterModule names.
pub set_manifest_work-IsBareWork :
    (env : HubEnv) (mcm : ManagedClusterModule) (mw mw' : ManifestWork)
    → KeepsWorkload env
    → set_manifest_work_as_desired env (some mw) mcm ≡ ok mw'
    → IsBareWork mcm mw'
unfolding set_manifest_work_as_desired spoke_spec
set_manifest_work-IsBareWork env mcm mw mw' keeps h = record {
  m = _;
  only = keeps (owner_of_mcm mcm) _ mw' h;
  name = refl;
  namespace = refl;
  no_build = refl;
  no_sign = refl;
  mappings = strip-IsBare mcm.module_spec.module_loader.container.kernel_mappings;
  selector = refl;
  plugin = refl;
}

-- The kernel mappings are shared with the caller. Where CreateOrPatch calls its function, a cluster
-- that is built and signed for leaves the ManagedClusterModule with mappings that have no build or
-- signing settings, and the clusters behind it, as many as there are, are reconciled with that one.
pub reconcile_clusters-shared :
    (env : HubEnv) (mcm : ManagedClusterModule) (c : ManagedCluster) (cs : List ManagedCluster)
    → (build_and_sign env mcm c).0 ≡ ok true
    → ((mw : ManifestWork) (f : ManifestWork → Result ManifestWork)
        → (env.create_or_patch mw f).0 ≡ true)
    → ((reconcile_cluster env mcm c).0 ≡ strip_shared mcm)
      × (reconcile_clusters env mcm (c ∷ cs) ≡ (
        (reconcile_clusters env (strip_shared mcm) cs).0,
        (reconcile_cluster env mcm c).1 >> (reconcile_clusters env (strip_shared mcm) cs).1,
      ))
      × All IsBare (strip_shared mcm).module_spec.module_loader.container.kernel_mappings
unfolding reconcile_cluster reconcile_clusters strip_shared
reconcile_clusters-shared env mcm c cs done called =
    let patched = called (new_work mcm c) (λ mw. set_manifest_work_as_desired env (some mw) mcm) in
    let one : (reconcile_cluster env mcm c).0 ≡ strip_shared mcm = ground (arith, done, patched) in
    (
      one,
      ap
          (λ x. (
            (reconcile_clusters env x cs).0,
            (reconcile_cluster env mcm c).1 >> (reconcile_clusters env x cs).1,
          ))
          one,
      strip-IsBare mcm.module_spec.module_loader.container.kernel_mappings,
    )
