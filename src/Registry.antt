-- ===== src/Registry.antt =====
-- internal/registry/registry.go: images, their layers, and the files in them.
pub mod Repos
pub mod Manifests
pub mod Layers
pub mod Walks
pub mod Extract
use rh_kernel_module_managem.Prelude.{
  ℕ, String, Bool, true, false, ◌=ℕ◌, ◌==◌, Option, none, some, List, [], ◌∷◌, ◌++◌, if◌then◌else◌,
  split_on, length,
}
use rh_kernel_module_managem.Api.{
  TlsOptions, Error, Result, ok, err, panic, errorf, wrapw, external,
}

-- The options of crane that the program passes.
pub data PullOption : Type 0 where
  with_context insecure_option insecure_transport : PullOption
  with_keychain with_auth : String → PullOption

pub record RepoPullConfig : Type 0 where
  pub repo : String
  pub auth_options : List PullOption

-- `strings.Split(image, sep)` has more than one part
unfoldable pub first_of_many : List String → Option String
first_of_many (p ∷ _ ∷ _) = some p
first_of_many _ = none

-- What stands before the digest, or else before the tag; empty if the image has neither.
unfoldable pub repo_of : String → String
unfolding first_of_many split_on
repo_of image = elim (first_of_many (split_on (λ c. c =ℕ b'@') image)) [
  | some repo ↦ repo
  | none ↦ elim (first_of_many (split_on (λ c. c =ℕ b':') image)) [ some repo ↦ repo | none ↦ "" ]
]

abbrev option_if : Bool → PullOption → List PullOption
option_if b o = if b then o ∷ [] else []

-- Both flags of the TLS options, where there are any.
unfoldable pub tls_options : Option TlsOptions → List PullOption
tls_options none = []
tls_options (some tls) =
    option_if tls.insecure insecure_option
    ++ option_if tls.insecure_skip_tls_verify insecure_transport

-- The options and the repository. The last argument is the getter's answer, if a getter is given.
unfoldable pub get_pull_options :
    String → Option TlsOptions → Option (Result String) → Result RepoPullConfig
unfolding repo_of tls_options
get_pull_options image tls getter =
    if repo_of image == ""
    then err (errorf "image url is not valid, does not contain hash or tag")
    else elim getter [
      | none ↦ ok (record { repo = repo_of image; auth_options = with_context ∷ tls_options tls })
      | some r ↦ elim r [
        | ok keychain ↦ ok (record {
          repo = repo_of image;
          auth_options = (with_context ∷ tls_options tls) ++ with_keychain keychain ∷ [];
        })
        | err e ↦ err (wrapw "cannot get keychain from the registry auth getter" e)
        | panic ↦ panic
      ]
    ]

unfoldable pub get_transport_options : Bool → Bool → List PullOption
get_transport_options insecure skip_tls_verify =
    option_if insecure insecure_option ++ option_if skip_tls_verify insecure_transport

-- `errors.As` to a transport error with status 404: an error of foreign code is known by its text.
unfoldable pub is_status_not_found : (String → Option ℕ) → Error → Bool
is_status_not_found status (external text) = elim (status text) [
  | none ↦ false
  | some code ↦ code =ℕ 404
]
is_status_not_found status (wrapw m e) = is_status_not_found status e
is_status_not_found status _ = false
