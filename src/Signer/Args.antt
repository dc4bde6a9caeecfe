-- ===== src/Signer/Args.antt =====
-- The command line of the signing container.
use rh_kernel_module_managem.Prelude.{
  String, Bool, ◌==◌, not, List, [], ◌∷◌, ◌++◌, if◌then◌else◌, join,
}
use rh_kernel_module_managem.Api.{Sign, ModuleLoaderData, Result, ok, err, panic, errorf}

abbrev pub flag_if : Bool → String → List String
flag_if b flag = if b then flag ∷ [] else []

unfoldable pub output_args : ModuleLoaderData → Bool → List String
output_args mld push_image =
    if push_image
    then ("-signedimage" ∷ mld.container_image ∷ [])
      ++ flag_if mld.registry_tls.insecure "--insecure"
      ++ flag_if mld.registry_tls.insecure_skip_tls_verify "--skip-tls-verify"
    else "-no-push" ∷ []

-- the image to sign: the caller's, or else that of the settings
unfoldable pub unsigned_image : Sign → String → Result String
unsigned_image sign image_to_sign =
    if not (image_to_sign == "")
    then ok image_to_sign
    else if not (sign.unsigned_image == "")
    then ok sign.unsigned_image
    else err (errorf "no image to sign given")

unfoldable pub files_args : List String → List String
files_args [] = []
files_args (f ∷ fs) = "-filestosign" ∷ join (f ∷ fs) ":" ∷ []

unfoldable pub sign_args : ModuleLoaderData → Sign → String → Bool → Result (List String)
unfolding output_args unsigned_image files_args
sign_args mld sign image_to_sign push_image = elim (unsigned_image sign image_to_sign) [
  | err e ↦ err e
  | panic ↦ panic
  | ok image ↦ ok (
      output_args mld push_image
      ++ ("-unsignedimage" ∷ image ∷ "-key" ∷ "/signingkey/key.priv" ∷ "-cert"
          ∷ "/signingcert/public.der" ∷ [])
      ++ files_args sign.files_to_sign
      ++ flag_if sign.unsigned_image_registry_tls.insecure "--insecure-pull"
      ++ flag_if sign.unsigned_image_registry_tls.insecure_skip_tls_verify "--skip-tls-verify-pull")
]
