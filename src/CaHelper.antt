-- ===== src/CaHelper.antt =====
-- internal/ca/helper.go: the two ConfigMaps of a namespace into which OpenShift writes its CAs. The
-- stored ConfigMaps come in and go out of what changes them.
pub mod Single
pub mod Synced
pub mod Found
use rh_kernel_module_managem.Prelude.{String, Bool, true, false, List, [], ◌∷◌, if◌then◌else◌, not}
use rh_kernel_module_managem.Prelude.Dict.{Dict}
use rh_kernel_module_managem.Api.{
  Owner, Error, Result, ok, err, panic, errorf, wrapv, wrap_err, sentinel, is_sentinel,
}
use rh_kernel_module_managem.Api.Errors.{config_map_not_found, ◌>>=◌ as bind_result}

-- v1.ConfigMap, with the UIDs of its owners
pub record ConfigMap : Type 0 where
  pub name : String
  pub generate_name : String
  pub namespace : String
  pub labels : Dict String
  pub annotations : Dict String
  pub owners : List String

-- The type `ConfigMap` of the package: what a client needs of one.
pub record CaConfigMap : Type 0 where
  pub key_name : String
  pub name : String

abbrev pub cluster_ca_type : String
cluster_ca_type = "cluster"

abbrev pub service_ca_type : String
service_ca_type = "service"

abbrev pub type_key : String
type_key = "kmm.node.kubernetes.io/ca.type"

abbrev pub Stored : Type 0
Stored = List ConfigMap

-- What changes the stored ConfigMaps: a result, and what is stored then.
abbrev pub Step {ℓ} : Type ℓ → Type ℓ
Step A = Stored → Result A × Stored

-- The API server, and `controllerutil.SetOwnerReference`. A patch is from the old object.
pub record ConfigMapsApi : Type 0 where
  pub list_config_maps : Stored → String → Dict String → Result (List ConfigMap)
  pub create : ConfigMap → Step ConfigMap
  pub patch : ConfigMap → ConfigMap → Step (Unit {0})
  pub set_owner_reference : Owner → ConfigMap → Result ConfigMap

infixl 5 ◌>>=◌
unfoldable pub ◌>>=◌ {ℓ κ} : {A : Type ℓ} {B : Type κ} → Step A → (A → Step B) → Step B
(m >>= f) s = let (r, t) = m s in elim r [ ok a ↦ f a t | err e ↦ (err e, t) | panic ↦ (panic, t) ]

-- `if err != nil { return fmt.Errorf("…", err) }`
unfoldable pub wrapping {ℓ} : {A : Type ℓ} → String → Step A → Step A
wrapping text m s = let (r, t) = m s in (wrap_err (wrapv text) r, t)

unfoldable pub done : Step (Unit {0})
done s = (ok tt, s)

unfoldable pub cluster_ca_config_map : String → ConfigMap
cluster_ca_config_map ns = record {
  name = "";
  generate_name = "kmm-cluster-ca-";
  namespace = ns;
  labels =
      (type_key, cluster_ca_type) ∷ ("config.openshift.io/inject-trusted-cabundle", "true") ∷ [];
  annotations = [];
  owners = [];
}

unfoldable pub service_ca_config_map : String → ConfigMap
service_ca_config_map ns = record {
  name = "";
  generate_name = "kmm-service-ca-";
  namespace = ns;
  labels = (type_key, service_ca_type) ∷ [];
  annotations = ("service.beta.openshift.io/inject-cabundle", "true") ∷ [];
  owners = [];
}

unfoldable pub the_only_config_map : List ConfigMap → Result ConfigMap
the_only_config_map [] = err (sentinel config_map_not_found)
the_only_config_map (cm ∷ []) = ok cm
the_only_config_map (_ ∷ _ ∷ _) = err (errorf "expected 1 ConfigMap")

module _ (api : ConfigMapsApi) where
  unfoldable pub get_config_map : String → String → Stored → Result ConfigMap
  unfolding the_only_config_map
  get_config_map ns ca_type s =
      bind_result
        (wrap_err (wrapv "could not list ConfigMaps")
          (api.list_config_maps s ns ((type_key, ca_type) ∷ [])))
        the_only_config_map

  unfoldable pub get_cluster_ca : String → Stored → Result CaConfigMap
  unfolding get_config_map
  get_cluster_ca ns s = elim (get_config_map ns cluster_ca_type s) [
    | ok cm ↦ ok (record { key_name = "ca-bundle.crt"; name = cm.name })
    | err e ↦ err (wrapv "could not get CA ConfigMap" e)
    | panic ↦ panic
  ]

  unfoldable pub get_service_ca : String → Stored → Result CaConfigMap
  unfolding get_config_map
  get_service_ca ns s = elim (get_config_map ns service_ca_type s) [
    | ok cm ↦ ok (record { key_name = "service-ca.crt"; name = cm.name })
    | err e ↦ err (wrapv "could not get CA ConfigMap" e)
    | panic ↦ panic
  ]

  -- The same steps for both types: the messages of the service's speak of the cluster's too.
  unfoldable pub get_or_create : Result ConfigMap → ConfigMap → Step ConfigMap
  unfolding wrapping
  get_or_create (ok cm) new_cm s = (ok cm, s)
  get_or_create panic new_cm s = (panic, s)
  get_or_create (err e) new_cm s =
      if not (is_sentinel config_map_not_found e)
      then (err (wrapv "could not get the cluster CA ConfigMap" e), s)
      else wrapping "could not create the cluster CA ConfigMap" (api.create new_cm) s

  unfoldable pub get_or_create_cluster_ca_config_map : String → Step ConfigMap
  unfolding get_or_create get_config_map cluster_ca_config_map
  get_or_create_cluster_ca_config_map ns s =
      get_or_create (get_config_map ns cluster_ca_type s) (cluster_ca_config_map ns) s

  unfoldable pub get_or_create_service_ca_config_map : String → Step ConfigMap
  unfolding get_or_create get_config_map service_ca_config_map
  get_or_create_service_ca_config_map ns s =
      get_or_create (get_config_map ns service_ca_type s) (service_ca_config_map ns) s

  unfoldable pub patch_owned : ConfigMap → Result ConfigMap → Step (Unit {0})
  unfolding wrapping
  patch_owned cm (err e) s = (err (wrapv "could not set the owner of the ConfigMap" e), s)
  patch_owned cm panic s = (panic, s)
  patch_owned cm (ok owned) s = wrapping "error patching ConfigMap" (api.patch cm owned) s

  unfoldable pub sync_config_map_owners : ConfigMap → Owner → Step (Unit {0})
  unfolding patch_owned
  sync_config_map_owners cm owner s = patch_owned cm (api.set_owner_reference owner cm) s

  unfoldable pub sync : String → Owner → Step (Unit {0})
  sync ns owner = do
    cluster_cm ←
        wrapping "could not get the cluster CA ConfigMap" (get_or_create_cluster_ca_config_map ns)
    _ ←
        wrapping "could not sync the cluster CA ConfigMap owners"
          (sync_config_map_owners cluster_cm owner)
    service_cm ←
        wrapping "could not get the service CA ConfigMap" (get_or_create_service_ca_config_map ns)
    wrapping "could not sync the service CA ConfigMap owners"
        (sync_config_map_owners service_cm owner)
