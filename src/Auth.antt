-- ===== src/Auth.antt =====
-- internal/auth/auth.go: which credentials the program pulls with.
use rh_kernel_module_managem.Prelude.{String, none, some}
use rh_kernel_module_managem.Api.{ModuleLoaderData, Result, wrapv, wrapw, wrap_err}
use rh_kernel_module_managem.Api.Errors.{◌>>=◌}

-- The two implementations of RegistryAuthGetter, each with a namespace and a name.
pub data RegistryAuthGetter : Type 0 where
  registry_secret service_account : String → String → RegistryAuthGetter

-- The API server, and go-containerregistry's keychains.
pub record AuthEnv (Secret : Type 0) : Type 0 where
  pub get_secret : String → String → Result Secret
  pub keychain_of_secret : Secret → Result String
  pub keychain_of_service_account : String → String → Result String

unfoldable pub get_key_chain :
    {Secret : Type 0} → AuthEnv Secret → RegistryAuthGetter → Result String
get_key_chain env (registry_secret ns name) = do
  secret ← wrap_err (wrapw "cannot find secret") (env.get_secret ns name)
  wrap_err (wrapw "could not create a keycahin from secret") (env.keychain_of_secret secret)
get_key_chain env (service_account ns name) =
    wrap_err (wrapv "could not get the service account's pull secrets")
      (env.keychain_of_service_account ns name)

unfoldable pub registry_auth_getter_from : ModuleLoaderData → RegistryAuthGetter
registry_auth_getter_from mld = elim mld.image_repo_secret [
  | some name ↦ registry_secret mld.namespace name
  | none ↦ service_account mld.namespace "builder"
]

unfoldable pub cluster_auth_getter : RegistryAuthGetter
cluster_auth_getter = registry_secret "openshift-config" "pull-secret"
