-- ===== src/Api/Calls.antt =====
-- The calls that change the cluster, and the actions that make them. An action is its result with
-- the calls that it has made, in their order: what was called before an error stays called.
pub mod Makes
use rh_kernel_module_managem.Prelude.{ℕ, String, Option, none, some, List, [], ◌∷◌, ◌++◌}
use rh_kernel_module_managem.Api.Errors.{Error, Result, ok, err, panic}
use rh_kernel_module_managem.Api.K8s.{DaemonSet, Job, OcpBuild, Node, Pod}
use rh_kernel_module_managem.Api.Resource.{
  Module, PreflightValidation, PreflightValidationOcp, ManagedClusterModule, ManifestWork, Owner,
}

pub data Call : Type 0 where
  create_build delete_build : OcpBuild → Call
  create_job delete_job : Job → Call
  apply_ds delete_ds : DaemonSet → Call
  patch_module_status : Module → Call
  update_preflight_status create_preflight : PreflightValidation → Call
  update_preflight_ocp_status : PreflightValidationOcp → Call
  apply_manifest_work delete_manifest_work : ManifestWork → Call
  patch_mcm_status : ManagedClusterModule → Call
  patch_node : Node → Call
  patch_pod : Pod → Call
  set_gauge : String → List String → ℕ → Call
  sync_ca : String → Owner → Call

abbrev pub Act {ℓ} : Type ℓ → Type ℓ
Act A = Result A × List Call

module _ {ℓ} {A : Type ℓ} where
  unfoldable pub pure : A → Act A
  pure a = (ok a, [])

  unfoldable pub raise : Error → Act A
  raise e = (err e, [])

  unfoldable pub lift : Result A → Act A
  lift r = (r, [])

  -- `if err != nil { return fmt.Errorf("…", err) }`
  unfoldable pub wrapping : (Error → Error) → Act A → Act A
  wrapping f (ok a, w) = (ok a, w)
  wrapping f (err e, w) = (err (f e), w)
  wrapping f (panic, w) = (panic, w)

-- the answer of the cluster to a call
unfoldable pub call : Call → Option Error → Act (Unit {0})
call c none = (ok tt, c ∷ [])
call c (some e) = (err e, c ∷ [])

-- The error is logged and the loop goes on.
unfoldable pub ignoring : Act (Unit {0}) → Act (Unit {0})
ignoring (ok tt, w) = (ok tt, w)
ignoring (err e, w) = (ok tt, w)
ignoring (panic, w) = (panic, w)

abbrev after {ℓ} : {B : Type ℓ} → List Call → Act B → Act B
after w (r, v) = (r, w ++ v)

module _ {ℓ κ} {A : Type ℓ} {B : Type κ} where
  infixl 5 ◌>>=◌
  -- To unfold this is to unfold all that builds actions.
  unfoldable pub ◌>>=◌ : Act A → (A → Act B) → Act B
  unfolding pure raise lift wrapping call ignoring
  (ok a, w) >>= f = after w (f a)
  (err e, w) >>= f = (err e, w)
  (panic, w) >>= f = (panic, w)

infixl 5 ◌>>◌
abbrev pub ◌>>◌ {ℓ} : {B : Type ℓ} → Act (Unit {0}) → Act B → Act B
m >> k = m >>= λ _. k

-- `for _, x := range xs { … }` where an error returns from the function
module _ {ℓ} {A : Type ℓ} where
  unfoldable pub for_each : List A → (A → Act (Unit {0})) → Act (Unit {0})
  unfolding pure
  for_each [] body = pure tt
  for_each (x ∷ xs) body = body x >>= λ _. for_each xs body
