-- ===== src/Examples/CaRuns.antt =====
-- The CA helper with an API server that stores ConfigMaps.
use rh_kernel_module_managem.Prelude.{
  String, ◌≡◌, refl, ◌==◌, List, [], ◌∷◌, ◌<>◌, length, map, arith, if◌then◌else◌,
}
use rh_kernel_module_managem.Prelude.Dict.{Dict}
use rh_kernel_module_managem.Api.{ok}
use rh_kernel_module_managem.CaHelper.{ConfigMap, Stored, ConfigMapsApi, sync}
use rh_kernel_module_managem.CaHelper.Single.{is_of_type, of_type, accepted, IsApi, IsSingle}
use rh_kernel_module_managem.CaHelper.Synced.{sync-IsSingle}
use rh_kernel_module_managem.Examples.Data.{owner}

abbrev select_type : String → Dict String → Stored → List ConfigMap
select_type ns [] s = []
select_type ns ((k, ty) ∷ sel) s = of_type ns ty s

-- a patch of the owners
abbrev own : ConfigMap → ConfigMap → ConfigMap
own new c = if c.name == new.name then record c { owners = new.owners } else c

abbrev server : ConfigMapsApi
server = record {
  list_config_maps = λ s ns sel. ok (select_type ns sel s);
  create =
      λ cm s. let c : ConfigMap = record cm { name = cm.generate_name <> "x7k2p" } in (ok c, c ∷ s);
  patch = λ old new s. (ok tt, map (own new) s);
  set_owner_reference = λ o cm. ok (record cm { owners = o.uid ∷ cm.owners });
}

length-patched :
    (new : ConfigMap) (ns ty : String) (s : Stored)
    → length (of_type ns ty (map (own new) s)) ≡ length (of_type ns ty s)
unfolding of_type is_of_type
length-patched new ns ty [] = refl
length-patched new ns ty (c ∷ s) = ground (arith, length-patched new ns ty s)

server-IsApi : IsApi server
server-IsApi = record {
  listed = λ s ns ty items e. ground (arith, e);
  created = λ cm s.
      accepted (record cm { name = cm.generate_name <> "x7k2p" })
        (record { namespace = refl; labels = refl });
  patched = λ old new s k ns ty. length-patched new ns ty s;
  owned = λ o cm cm' e. record { namespace = ground (arith, e); labels = ground (arith, e) };
}

empty-IsSingle : IsSingle []
unfolding of_type
empty-IsSingle ns ty = omega arith

sync-IsSingle_example : IsSingle (sync server "ns" owner []).1
sync-IsSingle_example = sync-IsSingle server server-IsApi "ns" owner [] empty-IsSingle
