-- ===== src/CaHelper/Found.antt =====
-- After a successful `Sync` both CA ConfigMaps are there to be found.
use rh_kernel_module_managem.Prelude.{◌<◌, String, ◌≡◌, [], ◌∷◌, length}
use rh_kernel_module_managem.Api.{Result, ok}
use rh_kernel_module_managem.Api.Errors.{◌>>=◌ as bind_result}
use rh_kernel_module_managem.CaHelper.{ConfigMap, Stored, Step, CaConfigMap, ◌>>=◌}
use rh_kernel_module_managem.CaHelper.Single.{of_type}

-- A step that succeeds leaves a ConfigMap of that type.
record Leaves {A : Type 0} (ns ty : String) (m : Step A) : Type 0 where
  some : (s : Stored) (a : A) → (m s).0 ≡ ok a → 0 < length (of_type ns ty (m s).1)

-- the CA ConfigMap of a type, as the client is told of it
pub record IsTheCa (ns ty key : String) (s : Stored) (answer : Result CaConfigMap) : Type 0 where
  pub cm : ConfigMap
  pub only : of_type ns ty s ≡ cm ∷ []
  pub told : answer ≡ ok (record { key_name = key; name = cm.name })
