-- ===== src/SignImage.antt =====
-- cmd/signimage/signimage.go: the program in the signing job. It pulls an image, extracts and signs
-- the files it is asked for, and pushes the image with one more layer.
pub mod Flags
pub mod Kmods
pub mod Credentials
pub mod Tarball
pub mod OnlySigned
pub mod Added
pub mod Finished
pub mod FromSigner
pub mod Started
use rh_kernel_module_managem.Prelude.{
  ℕ, String, Bool, true, false, ◌==◌, ◌=ℕ◌, not, Option, none, some, List, [], ◌∷◌, ◌++◌, ◌<>◌,
  if◌then◌else◌, split_on, clean,
}
use rh_kernel_module_managem.Prelude.Dict.{Dict, lookup, insert}
use rh_kernel_module_managem.Api.{Error, Result, ok, err, panic, wrapv}
use rh_kernel_module_managem.Registry.{PullOption}
use rh_kernel_module_managem.Registry.Layers.{
  Image, Mutations, walk_files_in_image, add_layer_to_image, get_image_by_name, write_image_by_name,
}
use Flags.{Options, Parsed, parsed, exits, parse_args, check_args}
use Kmods.{Work, Effect, pushed, added, Files, process_file, kmods_to_sign, not_found_yet}
use Tarball.{TarWriter, add_file_to_tarball}
use Credentials.{CredentialFiles, Decoder, RepoAuth, new_repo_auth}

-- Temporary directories, files, crane and the image library.
pub record World : Type 0 where
  pub make_temp_dir : Result String
  pub decoder : Decoder
  pub credentials : String → List CredentialFiles
  pub pull : String → List PullOption → Result Image
  pub files : Files
  pub tarball : TarWriter
  pub write_layer : String → Result (Unit {0})
  pub mutations : Mutations
  pub push : Image → String → List PullOption → Result (Unit {0})

-- How the program ends: with an exit code, or by a panic. Its effects come with it, in their order.
pub data Ending : Type 0 where
  exit : ℕ → Ending
  crash : Ending

abbrev pub Run : Type 0
Run = Ending × List Effect

-- `die(code, …)` on an error
unfoldable pub or_die {ℓ} : {A : Type ℓ} → ℕ → Result A → List Effect → (A → Run) → Run
or_die code (ok a) w k = k a
or_die code (err e) w k = (exit code, w)
or_die code panic w k = (crash, w)

-- The loop over the map: files that were found go into the tarball, and others are missed. Only what
-- is written is an effect.
unfoldable pub add_signed :
    World → Dict String → Bool → List Effect → (Bool → List Effect → Run) → Run
add_signed world [] missing w k = k missing w
add_signed world ((kmod, path) ∷ rest) missing w k = elim (path == not_found_yet) [
  | true ↦ add_signed world rest true w k
  | false ↦
      or_die 1 (add_file_to_tarball world.tarball path kmod) w λ written.
        add_signed world rest missing (if written then w ++ added path kmod ∷ [] else w) k
]

-- the push, unless it is not wanted
unfoldable pub push_signed : World → Options → RepoAuth → List Effect → Image → Run
push_signed world o auth w signed =
    if o.no_push
    then (exit 0, w)
    else or_die 8
        (write_image_by_name world.push o.signed_image signed auth.push_auth o.insecure_push
          o.skip_tls_verify_push)
        w (λ _. (exit 0, w ++ pushed o.signed_image ∷ []))

-- the new layer, where no file is missing
unfoldable pub write_signed : World → Options → RepoAuth → String → Image → Bool → List Effect → Run
unfolding push_signed
write_signed world o auth dir image missing w =
    if missing
    then (exit 4, w)
    else or_die 5 (world.write_layer (dir <> "/layerfile.tar")) w λ _.
      or_die 6 (add_layer_to_image world.mutations (dir <> "/layerfile.tar") image) w
        λ signed. push_signed world o auth w signed

-- what follows the search of the image
unfoldable pub finish : World → Options → RepoAuth → String → Image → Work → Run
unfolding add_signed write_signed
finish world o auth dir image work =
    add_signed world work.kmods false work.effects (write_signed world o auth dir image)

-- the search of the image, from its last layer to its first
unfoldable pub search_image : World → Options → RepoAuth → String → Dict String → Image → Run
unfolding finish
search_image world o auth dir kmods image =
    let (r, work) =
      walk_files_in_image (process_file world.files o dir) image
        (record { kmods = kmods; effects = [] }) in
    or_die 9 r work.effects λ _. finish world o auth dir image work

-- the first of `strings.Split(image, "/")`
unfoldable pub registry_of : String → String
registry_of image = elim (split_on (λ c. c =ℕ b'/') image) [ [] ↦ "" | p ∷ ps ↦ p ]

unfoldable pub sign_listed : World → Options → String → Option (Dict String) → Run
unfolding search_image registry_of
sign_listed world o dir none = (exit 9, [])
sign_listed world o dir (some kmods) =
    let auth =
      new_repo_auth world.decoder (world.credentials (clean o.secret_dir))
        (registry_of o.unsigned_image) (registry_of o.signed_image) in
    or_die 3
      (get_image_by_name world.pull o.unsigned_image auth.pull_auth o.insecure_pull
        o.skip_tls_verify_pull)
      [] (λ image. search_image world o auth dir kmods image)

unfoldable pub sign_image : World → Options → Run
unfolding sign_listed
sign_image world o =
    or_die 1 world.make_temp_dir []
      λ dir. sign_listed world o dir (kmods_to_sign (split_on (λ c. c =ℕ b':') o.files_to_sign) [])

-- `main` on a command line
unfoldable pub main : World → List String → Run
unfolding sign_image
main world args = elim (parse_args args) [
  | exits code ↦ (exit code, [])
  | parsed o ↦ elim (check_args o) [ none ↦ (exit 0, []) | some checked ↦ sign_image world checked ]
]
