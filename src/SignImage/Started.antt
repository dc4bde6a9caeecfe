-- ===== src/SignImage/Started.antt =====
-- What the program does with the signer's command line.
use Prim.Native.String.{len}
use text.Mathlib.TextPositions.{len-append}
use rh_kernel_module_managem.Prelude.{
  String, ◌≡◌, refl, ap, Bool, true, false, ◌==◌, ◌<>◌, not, ◌||◌, List, [], ◌∷◌, ◌++◌, join, arith,
  if◌then◌else◌, Bool-cases, inl, inr, some, none, eq_iff,
}
use rh_kernel_module_managem.Api.{Sign, ModuleLoaderData, ok}
use rh_kernel_module_managem.Signer.Args.{unsigned_image, sign_args}
use rh_kernel_module_managem.SignImage.{World, exit, sign_image, main}
use rh_kernel_module_managem.SignImage.Flags.{Options, check_arg, check_args}
use rh_kernel_module_managem.SignImage.FromSigner.{meant, parse_args-sign_args}

signed_nonempty : (image : String) → (image <> "signed" == "") ≡ false
signed_nonempty image = elim (Bool-cases (image <> "signed" == "")) [
  | inl e ↦
      absurd
        (omega (arith, len-append image "signed", ap len ((eq_iff (image <> "signed") "").0 e)))
  | inr e ↦ e
]

check_arg_given : (arg fallback : String) → (arg == "") ≡ false → check_arg arg fallback ≡ some arg
unfolding check_arg
check_arg_given arg fallback h = ground (arith, h)

check_arg_alone : (arg : String) → check_arg arg "" ≡ (if arg == "" then none else some arg)
unfolding check_arg
check_arg_alone arg = ground arith

check_arg-signed :
    (push : Bool) (name image : String)
    → check_arg (if push then name else "") (image <> "signed")
      ≡ some (if not push || (name == "") then image <> "signed" else name)
unfolding check_arg
check_arg-signed true name image = ground (arith, signed_nonempty image)
check_arg-signed false name image = ground (arith, signed_nonempty image)

module _ (world : World) (mld : ModuleLoaderData) (sign : Sign) (image_to_sign image : String)
    (push : Bool) (args : List String) (chosen : unsigned_image sign image_to_sign ≡ ok image)
    (written : sign_args mld sign image_to_sign push ≡ ok args) where
  -- the options that the program goes on with
  abbrev pub started : Options
  started = record (meant mld sign image push) {
    signed_image =
        if not push || (mld.container_image == "") then image <> "signed" else mld.container_image;
  }

  image_nonempty : (image == "") ≡ false
  unfolding unsigned_image
  image_nonempty = ground (arith, chosen)

  checked :
      check_args (meant mld sign image push)
      ≡ (if join sign.files_to_sign ":" == "" then none else some started)
  unfolding check_args meant
  checked = ground (
    arith,
    check_arg_given image "" image_nonempty,
    check_arg-signed push mld.container_image image,
    check_arg_alone (join sign.files_to_sign ":"),
    check_arg_given "/signingkey/key.priv" "" refl,
    check_arg_given "/signingcert/public.der" "" refl,
    check_arg_given "/docker_config/" "" refl,
  )

  -- On the command line of a job the program goes on with the options that the signer writes, where
  -- the name of the signed image is the unsigned image's followed by `signed` if the signer writes
  -- none or an empty one. But where the settings list no file, or one with an empty name, it ends with
  -- exit code 0 before it has pulled an image.
  pub main-sign_args :
      main world (args ++ ("-secretdir" ∷ "/docker_config/" ∷ []))
      ≡ (if join sign.files_to_sign ":" == "" then (exit 0, []) else sign_image world started)
  unfolding main
  main-sign_args =
      ground
        (arith, parse_args-sign_args mld sign image push image_to_sign args chosen written, checked)
