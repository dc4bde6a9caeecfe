-- ===== src/Signer/Mounted.antt =====
-- The mounts of the signing container and the volumes of its pod.
use rh_kernel_module_managem.Prelude.{
  String, ◌≡◌, refl, Bool, true, ◌||◌, Option, none, some, List, [], ◌∷◌, ◌++◌, All, All-append,
  map, mem, arith, eq_refl, ◌<>◌,
}
use rh_kernel_module_managem.Api.{Sign, Volume, VolumeMount, ModuleLoaderData}
use rh_kernel_module_managem.CaHelper.{CaConfigMap}
use rh_kernel_module_managem.SecretVolumes.{
  volume_name_from_secret_ref, make_secret_volume, make_secret_volume_mount,
}
use rh_kernel_module_managem.DaemonSets.Wired.{IsMounted}
use rh_kernel_module_managem.Signer.{SignerEnv, spec_template}
use rh_kernel_module_managem.Signer.Volumes.{
  trusted_ca_volume_name, trusted_ca_mount_path, trusted_ca_volume, image_secret_volume,
  image_secret_mount, builder_secret_volumes, builder_secret_mounts, sign_volumes,
  sign_volume_mounts,
}

abbrev named : String → List Volume → Bool
named n vs = mem n (map (λ (v : Volume). v.name) vs)

abbrev Resolve : List Volume → List VolumeMount → Type 0
Resolve vs ms = All (λ (m : VolumeMount). named m.name vs ≡ true) ms

named-append : (n : String) (vs ws : List Volume) → named n (vs ++ ws) ≡ (named n vs || named n ws)
named-append n [] ws = refl
named-append n (v ∷ vs) ws = ground (arith, named-append n vs ws)

Resolve-left : (vs ws : List Volume) (ms : List VolumeMount) → Resolve vs ms → Resolve (vs ++ ws) ms
Resolve-left vs ws [] h = tt
Resolve-left vs ws (m ∷ ms) (p, h) =
    (ground (arith, named-append m.name vs ws), Resolve-left vs ws ms h)

Resolve-right :
    (vs ws : List Volume) (ms : List VolumeMount) → Resolve ws ms → Resolve (vs ++ ws) ms
Resolve-right vs ws [] h = tt
Resolve-right vs ws (m ∷ ms) (p, h) =
    (ground (arith, named-append m.name vs ws), Resolve-right vs ws ms h)

Resolve-append :
    (vs ws : List Volume) (ms ns : List VolumeMount)
    → Resolve vs ms
    → Resolve ws ns
    → Resolve (vs ++ ws) (ms ++ ns)
Resolve-append vs ws ms ns h k =
    All-append _ ms ns (Resolve-left vs ws ms h) (Resolve-right vs ws ns k)

Resolve-secret :
    (o : Option String) (key path mount : String)
    → named (make_secret_volume_mount o mount).name (make_secret_volume o key path ∷ []) ≡ true
unfolding make_secret_volume make_secret_volume_mount
Resolve-secret none key path mount = refl
Resolve-secret (some name) key path mount = rw (eq_refl (volume_name_from_secret_ref name)) refl

Resolve-image : (o : Option String) → Resolve (image_secret_volume o) (image_secret_mount o)
unfolding image_secret_volume image_secret_mount
Resolve-image none = tt
Resolve-image (some name) = (Resolve-secret (some name) "" "" ("/docker_config/" <> name), tt)

Resolve-builder :
    (names : List String) → Resolve (builder_secret_volumes names) (builder_secret_mounts names)
unfolding builder_secret_volumes builder_secret_mounts
Resolve-builder [] = tt
Resolve-builder (name ∷ names) =
    Resolve-append (make_secret_volume (some name) "" "" ∷ []) (builder_secret_volumes names)
      (make_secret_volume_mount (some name) ("/docker_config/builder/" <> name) ∷ [])
      (builder_secret_mounts names)
      (Resolve-secret (some name) "" "" ("/docker_config/builder/" <> name), tt)
      (Resolve-builder names)

module _ (sign : Sign) (cluster service : CaConfigMap) where
  abbrev fixed_volumes : List Volume
  fixed_volumes =
      make_secret_volume sign.key_secret "key" "key.priv"
      ∷ make_secret_volume sign.cert_secret "cert" "public.der"
      ∷ trusted_ca_volume cluster service
      ∷ []

  abbrev fixed_mounts : List VolumeMount
  fixed_mounts =
      make_secret_volume_mount sign.cert_secret "/signingcert"
      ∷ make_secret_volume_mount sign.key_secret "/signingkey"
      ∷ record {
        name = trusted_ca_volume_name;
        read_only = true;
        mount_path = trusted_ca_mount_path;
      }
      ∷ []

  Resolve-fixed : Resolve fixed_volumes fixed_mounts
  unfolding trusted_ca_volume
  Resolve-fixed = (
    ground (arith, Resolve-secret sign.cert_secret "cert" "public.der" "/signingcert"),
    (
      ground (arith, Resolve-secret sign.key_secret "key" "key.priv" "/signingkey"),
      (ground arith, tt),
    ),
  )

pub IsMounted-spec_template :
    (env : SignerEnv) (mld : ModuleLoaderData) (sign : Sign) (args : List String)
    (cluster service : CaConfigMap) (secrets : List String)
    → All
        (IsMounted (spec_template env mld sign args cluster service secrets).volumes)
        (spec_template env mld sign args cluster service secrets).containers
unfolding spec_template sign_volumes sign_volume_mounts trusted_ca_volume
IsMounted-spec_template env mld sign args cluster service secrets = (
  Resolve-append (fixed_volumes sign cluster service)
      (image_secret_volume mld.image_repo_secret ++ builder_secret_volumes secrets)
      (fixed_mounts sign cluster service)
      (image_secret_mount mld.image_repo_secret ++ builder_secret_mounts secrets)
      (Resolve-fixed sign cluster service)
      (Resolve-append _ _ (image_secret_mount mld.image_repo_secret) _
        (Resolve-image mld.image_repo_secret) (Resolve-builder secrets)),
  tt,
)
