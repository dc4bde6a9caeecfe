-- ===== src/Hub/BuildAndSign.antt =====
-- When a cluster is done with building and signing.
use rh_kernel_module_managem.Prelude.{
  String, ◌≡◌, refl, Bool, true, false, not, ◌&&◌, [], ◌∷◌, All, if◌then◌else◌, arith,
}
use rh_kernel_module_managem.Prelude.Dict.{Dict}
use rh_kernel_module_managem.Api.{
  ManagedCluster, ManagedClusterModule, ModuleLoaderData, ok, err, panic,
}
use rh_kernel_module_managem.Api.Calls.{Act, ◌>>=◌, lift, pure}
use rh_kernel_module_managem.KernelMapper.{get_module_loader_data_for_kernel}
use rh_kernel_module_managem.Hub.{
  HubEnv, build, sign, build_and_sign_each, build_and_sign, hub_module,
  kernel_mappings_by_kernel_version,
}

module _ (env : HubEnv) (mcm : ManagedClusterModule) where
  -- The kernel of the entry is built and signed, as far as the module asks for it.
  abbrev pub IsDone : String × ModuleLoaderData → Type 0
  IsDone e = ((build env mcm e.1).0 ≡ ok true) × ((sign env mcm e.1).0 ≡ ok true)

  bind-ok :
      {A B : Type 0} (m : Act A) (f : A → Act B) (b : B)
      → (m >>= f).0 ≡ ok b
      → (a : A) × (m.0 ≡ ok a) × ((f a).0 ≡ ok b)
  unfolding ◌>>=◌
  bind-ok (ok a, w) f b h = (a, refl, h)
  bind-ok (err e, w) f b h = cc h
  bind-ok (panic, w) f b h = cc h

  each-IsDone :
      (so_far : Bool) (mappings : Dict ModuleLoaderData)
      → (build_and_sign_each env mcm so_far mappings).0 ≡ ok true
      → (so_far ≡ true) × All IsDone mappings
  unfolding build_and_sign_each pure
  each-IsDone so_far [] h = (ground (arith, h), tt)
  each-IsDone so_far ((k, mld) ∷ mappings) h =
      let (b, eb, hb) = bind-ok (build env mcm mld) _ true h in
      built (λ s. each-IsDone s mappings) b eb hb
    where
      built :
          ((s : Bool)
            → (build_and_sign_each env mcm s mappings).0 ≡ ok true
            → (s ≡ true) × All IsDone mappings)
          → (b : Bool) → (build env mcm mld).0 ≡ ok b
          → (if not b
              then build_and_sign_each env mcm false mappings
              else sign env mcm mld >>= λ s. build_and_sign_each env mcm (so_far && s) mappings).0
            ≡ ok true
          → (so_far ≡ true) × All IsDone ((k, mld) ∷ mappings)
      built rest false eb hb = let (never, _) = rest false hb in cc never
      built rest true eb hb =
          let (s, es, hs) = bind-ok (sign env mcm mld) _ true hb in
          let (both, all) = rest (so_far && s) hs in
          (ground (arith, both), ((eb, ground (arith, es, both)), all))

  -- A cluster for which building and signing is reported as done has a mapping for at least one of
  -- its kernels, and for each kernel with a mapping the build and the signing have succeeded.
  pub build_and_sign-IsDone :
      (cluster : ManagedCluster)
      → (build_and_sign env mcm cluster).0 ≡ ok true
      → (e : String × ModuleLoaderData) × (es : Dict ModuleLoaderData)
        × (kernel_mappings_by_kernel_version
              (get_module_loader_data_for_kernel env.parse env.match_string (hub_module env mcm))
              cluster
            ≡ ok (e ∷ es))
        × All IsDone (e ∷ es)
  unfolding build_and_sign lift pure
  build_and_sign-IsDone cluster h =
      let (mappings, found, done) = bind-ok _ _ true h in some_mapping mappings found done
    where
      some_mapping :
          (ms : Dict ModuleLoaderData)
          → kernel_mappings_by_kernel_version
              (get_module_loader_data_for_kernel env.parse env.match_string (hub_module env mcm))
              cluster
            ≡ ok ms
          → (elim ms as (λ _. Act Bool) [
            | [] ↦ pure false
            | e ∷ es ↦ build_and_sign_each env mcm true (e ∷ es)
          ]).0
            ≡ ok true
          → (e : String × ModuleLoaderData) × (es : Dict ModuleLoaderData)
            × (kernel_mappings_by_kernel_version
                  (get_module_loader_data_for_kernel env.parse env.match_string
                    (hub_module env mcm))
                  cluster
                ≡ ok (e ∷ es))
            × All IsDone (e ∷ es)
      some_mapping [] found done = ground (arith, done)
      some_mapping (e ∷ es) found done = (e, es, found, (each-IsDone true (e ∷ es) done).1)
