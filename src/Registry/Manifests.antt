-- ===== src/Registry/Manifests.antt =====
-- The manifests of an image and the digests in them.
use rh_kernel_module_managem.Prelude.{
  ℕ, String, Bool, true, false, ◌==◌, Option, none, some, List, [], ◌∷◌, ◌<>◌, if◌then◌else◌,
  contains, map,
}
use rh_kernel_module_managem.Api.{
  TlsOptions, Result, ok, err, panic, errorf, wrapw, wrapv, wrap_err,
}
use rh_kernel_module_managem.Api.Errors.{◌>>=◌}
use rh_kernel_module_managem.Registry.{
  PullOption, RepoPullConfig, get_pull_options, is_status_not_found,
}

-- v1.Hash
pub record Digest : Type 0 where
  pub algorithm : String
  pub hex : String

-- One manifest of a list, with the architecture of its platform where it names one.
pub record PlatformManifest : Type 0 where
  pub architecture : Option String
  pub digest : Digest

-- crane and the decoding of its answers: the manifest of an image, the media type in it, the digests
-- of its layers, the manifests of a list. `Layer` is what crane pulls.
pub record RegistryEnv (Layer : Type 0) : Type 0 where
  pub go_arch : String
  pub manifest : String → List PullOption → Result String
  pub unmarshal : String → Result (Result (Option String))
  pub unmarshal_manifest : String → Result (List Digest)
  pub unmarshal_index : String → Result (List PlatformManifest)
  pub pull_layer : String → List PullOption → Result Layer
  pub status : String → Option ℕ

unfoldable pub digest_text : Digest → String
digest_text d = d.algorithm <> ":" <> d.hex

unfoldable pub find_arch : String → List PlatformManifest → Result String
unfolding digest_text
find_arch arch [] = err (errorf "Failed to find manifest for architecture")
find_arch arch (m ∷ ms) =
    let rest = find_arch arch ms in
    elim m.architecture [
      | none ↦ rest
      | some a ↦ if a == arch then ok (digest_text m.digest) else rest
    ]

module _ {Layer : Type 0} (env : RegistryEnv Layer) where
  unfoldable pub get_image_digest_from_multi_image : String → Result String
  unfolding find_arch
  get_image_digest_from_multi_image stream = do
    ms ← wrap_err (wrapw "failed to unmarshal manifest stream") (env.unmarshal_index stream)
    find_arch env.go_arch ms

  unfoldable pub get_layers_digests_from_manifest_stream : String → Result (List String)
  unfolding digest_text
  get_layers_digests_from_manifest_stream stream = do
    ds ← wrap_err (wrapw "failed to unmarshal manifest stream") (env.unmarshal_manifest stream)
    ok (map digest_text ds)

  unfoldable pub arch_manifest : String → String → List PullOption → Option String → Result String
  unfolding get_image_digest_from_multi_image
  arch_manifest stream repo options none =
      err (errorf "mediaType is missing from the image manifest")
  arch_manifest stream repo options (some media_type) =
      if contains media_type "manifest.list"
      then (do
        digest ←
            wrap_err (wrapw "failed to get arch digets from multi arch image")
              (get_image_digest_from_multi_image stream)
        wrap_err (wrapw "failed to get crane manifest for the arch image")
            (env.manifest (repo <> "@" <> digest) options))
      else ok stream

  unfoldable pub get_manifest_stream_from_image : String → String → List PullOption → Result String
  unfolding arch_manifest
  get_manifest_stream_from_image image repo options = do
    stream ← wrap_err (wrapw "failed to get crane manifest from image") (env.manifest image options)
    object ← wrap_err (wrapw "failed to unmarshal crane manifest") (env.unmarshal stream)
    media_type ← wrap_err (wrapw "unmarshalled manifests invalid format") object
    arch_manifest stream repo options media_type

  unfoldable pub get_image_manifest :
      String → Option TlsOptions → Option (Result String) → Result (String × RepoPullConfig)
  unfolding get_manifest_stream_from_image
  get_image_manifest image tls getter = do
    config ← wrap_err (wrapw "failed to get pull options") (get_pull_options image tls getter)
    stream ←
        wrap_err (wrapw "failed to get manifest stream from image")
          (get_manifest_stream_from_image image config.repo config.auth_options)
    ok (stream, config)

  unfoldable pub image_exists : String → Option TlsOptions → Option (Result String) → Result Bool
  unfolding get_image_manifest
  image_exists image tls getter = elim (get_image_manifest image tls getter) [
    | ok _ ↦ ok true
    | err e ↦
        if is_status_not_found env.status e then ok false else err (wrapw "could not get image" e)
    | panic ↦ panic
  ]

  unfoldable pub get_layers_digests :
      String → Option TlsOptions → Option (Result String) → Result (List String × RepoPullConfig)
  unfolding get_image_manifest get_layers_digests_from_manifest_stream
  get_layers_digests image tls getter = do
    found ←
        wrap_err (wrapw "failed to get manifest from image") (get_image_manifest image tls getter)
    digests ←
        wrap_err (wrapw "failed to get layers digests from manifest of the image")
          (get_layers_digests_from_manifest_stream found.0)
    ok (digests, found.1)

  unfoldable pub get_layer_by_digest : String → RepoPullConfig → Result Layer
  get_layer_by_digest digest config =
      env.pull_layer (config.repo <> "@" <> digest) config.auth_options

  -- `digests[len(digests)-1]`, which panics on no digests
  unfoldable pub last_of : List String → Result String
  last_of [] = panic
  last_of (d ∷ []) = ok d
  last_of (_ ∷ d ∷ ds) = last_of (d ∷ ds)

  unfoldable pub last_layer : String → Option TlsOptions → Option (Result String) → Result Layer
  unfolding get_layers_digests last_of get_layer_by_digest
  last_layer image tls getter = do
    found ←
        wrap_err (wrapv "failed to get layers digests from image")
          (get_layers_digests image tls getter)
    digest ← last_of found.0
    get_layer_by_digest digest found.1
