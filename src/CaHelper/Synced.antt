-- ===== src/CaHelper/Synced.antt =====
-- `Sync` keeps a namespace's CA ConfigMaps single, and leaves both of them behind.
use rh_kernel_module_managem.Prelude.{
  String, ◌≡◌, refl, true, [], arith, Bool-cases, inl, inr, eq_refl,
}
use rh_kernel_module_managem.Prelude.Dict.{lookup}
use rh_kernel_module_managem.Api.{Owner, Result, ok, err, panic, is_sentinel, config_map_not_found}
use rh_kernel_module_managem.CaHelper.{
  ConfigMap, Stored, ConfigMapsApi, cluster_ca_type, service_ca_type, get_config_map, get_or_create,
  cluster_ca_config_map, service_ca_config_map, get_or_create_cluster_ca_config_map,
  get_or_create_service_ca_config_map, sync_config_map_owners, patch_owned, sync,
}
use rh_kernel_module_managem.CaHelper.Single.{
  is_of_type, of_type, Created, accepted, unanswered, refused, IsApi, IsSingle, absent, one_more,
  Extends, Extending, Extends-refl, Extending-bind, Extending-wrapping,
}

module _ (api : ConfigMapsApi) (law : IsApi api) where
  Extends-appended :
      (cm : ConfigMap) (s : Stored) (ns ty : String) (r : Result ConfigMap × Stored)
      → is_of_type ns ty cm ≡ true
      → of_type ns ty s ≡ []
      → Created cm s r
      → Extends s r.1
  unfolding of_type
  Extends-appended cm s ns ty _ i a (accepted c k) = record {
    single = one_more cm c s ns ty k i a;
    more = λ ns' ty'. ground arith;
  }
  Extends-appended cm s ns ty _ i a (unanswered c e k) = record {
    single = one_more cm c s ns ty k i a;
    more = λ ns' ty'. ground arith;
  }
  Extends-appended cm s ns ty _ i a (refused e) = Extends-refl s

  Extends-get_or_create :
      (cm : ConfigMap) (s : Stored) (ns ty : String)
      → is_of_type ns ty cm ≡ true
      → Extends s (get_or_create api (get_config_map api ns ty s) cm s).1
  unfolding get_or_create
  Extends-get_or_create cm s ns ty i = by_found (get_config_map api ns ty s) refl
    where
      by_found :
          (r : Result ConfigMap)
          → get_config_map api ns ty s ≡ r
          → Extends s (get_or_create api r cm s).1
      by_found (ok old) e = Extends-refl s
      by_found panic e = Extends-refl s
      by_found (err error) e = elim (Bool-cases (is_sentinel config_map_not_found error)) [
        | inl h ↦ rw h (
            Extends-appended cm s ns ty (api.create cm s) i (absent api law ns ty s error e h)
              (law.created cm s))
        | inr h ↦ rw h (Extends-refl s)
      ]

  pub Extending-sync_config_map_owners :
      (cm : ConfigMap) (owner : Owner) → Extending (sync_config_map_owners api cm owner)
  unfolding sync_config_map_owners patch_owned
  Extending-sync_config_map_owners cm owner = record {
    at = λ s. by_owned s (api.set_owner_reference owner cm) refl;
  }
    where
      by_owned :
          (s : Stored) (r : Result ConfigMap)
          → api.set_owner_reference owner cm ≡ r
          → Extends s (patch_owned api cm r s).1
      by_owned s (ok owned) e =
          let counts = law.patched cm owned s (law.owned owner cm owned e) in
          record {
            single = λ h ns ty. rw (counts ns ty) (h ns ty);
            more = λ ns ty. omega (arith, counts ns ty);
          }
      by_owned s panic e = Extends-refl s
      by_owned s (err error) e = Extends-refl s

  pub Extending-cluster : (ns : String) → Extending (get_or_create_cluster_ca_config_map api ns)
  unfolding get_or_create_cluster_ca_config_map is_of_type lookup cluster_ca_config_map
  Extending-cluster ns = record {
    at = λ s.
        Extends-get_or_create (cluster_ca_config_map ns) s ns cluster_ca_type
          (ground (arith, eq_refl ns));
  }

  pub Extending-service : (ns : String) → Extending (get_or_create_service_ca_config_map api ns)
  unfolding get_or_create_service_ca_config_map is_of_type lookup service_ca_config_map
  Extending-service ns = record {
    at = λ s.
        Extends-get_or_create (service_ca_config_map ns) s ns service_ca_type
          (ground (arith, eq_refl ns));
  }

  Extending-sync : (ns : String) (owner : Owner) → Extending (sync api ns owner)
  unfolding sync
  Extending-sync ns owner =
      Extending-bind _ _ (Extending-wrapping _ _ (Extending-cluster ns)) λ cluster_cm.
        Extending-bind _ _
          (Extending-wrapping _ _ (Extending-sync_config_map_owners cluster_cm owner))
          λ _.
            Extending-bind _ _ (Extending-wrapping _ _ (Extending-service ns)) λ service_cm.
              Extending-wrapping _ _ (Extending-sync_config_map_owners service_cm owner)

  -- Where a list that succeeds gives what is stored, never an older state, a create stores at most the
  -- one object, and a patch or an owner reference keeps namespace and labels: stored ConfigMaps with
  -- at most one CA of a type in a namespace stay so through a sync, whichever of the calls fail.
  pub sync-IsSingle :
      (ns : String) (owner : Owner) (s : Stored) → IsSingle s → IsSingle (sync api ns owner s).1
  sync-IsSingle ns owner s = ((Extending-sync ns owner).at s).single
