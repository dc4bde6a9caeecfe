-- ===== src/SignImage/FromSigner.antt =====
-- The command line that the signer writes and the program that reads it.
use rh_kernel_module_managem.Prelude.{
  String, ◌≡◌, refl, sym, ap, ◌∙◌, append_assoc, Bool, true, false, not, List, [], ◌∷◌, ◌++◌, join,
  arith, ◌&&◌, if◌then◌else◌,
}
use rh_kernel_module_managem.Api.{Sign, ModuleLoaderData, ok}
use rh_kernel_module_managem.Signer.Args.{
  flag_if, output_args, unsigned_image, files_args, sign_args,
}
use rh_kernel_module_managem.SignImage.Flags.{
  Options, default_options, parsed, set, parse_flags, parse_args, argument_step,
}

-- The options that the signer means.
unfoldable pub meant : ModuleLoaderData → Sign → String → Bool → Options
meant mld sign image push = record {
  unsigned_image = image;
  signed_image = if push then mld.container_image else "";
  files_to_sign = join sign.files_to_sign ":";
  key = "/signingkey/key.priv";
  cert = "/signingcert/public.der";
  secret_dir = "/docker_config/";
  no_push = not push;
  insecure_pull = sign.unsigned_image_registry_tls.insecure;
  skip_tls_verify_pull = sign.unsigned_image_registry_tls.insecure_skip_tls_verify;
  insecure_push = push && mld.registry_tls.insecure;
  skip_tls_verify_push = push && mld.registry_tls.insecure_skip_tls_verify;
}

-- The arguments `xs` take the options from `o` to `o'`, whatever follows.
record Reads (xs : List String) (o o' : Options) : Type 0 where
  to : (rest : List String) → parse_flags (xs ++ rest) o ≡ parse_flags rest o'

Reads-append :
    (xs ys : List String) (o o' o'' : Options)
    → Reads xs o o'
    → Reads ys o' o''
    → Reads (xs ++ ys) o o''
Reads-append xs ys o o' o'' h k = record {
  to = λ rest. ap (λ l. parse_flags l o) (append_assoc xs ys rest) ∙ h.to (ys ++ rest) ∙ k.to rest;
}

parse_set :
    (arg : String) (rest : List String) (o o' : Options)
    → argument_step arg o ≡ set o'
    → parse_flags (arg ∷ rest) o ≡ parse_flags rest o'
unfolding parse_flags
parse_set arg [] o o' h = ground (arith, h)
parse_set arg (v ∷ rest) o o' h = ground (arith, h)

Reads-flag :
    (b : Bool) (arg : String) (o : Options) (f : Bool → Options)
    → f false ≡ o
    → argument_step arg o ≡ set (f true)
    → Reads (flag_if b arg) o (f b)
Reads-flag true arg o f h k = record { to = λ rest. parse_set arg rest o (f true) k }
Reads-flag false arg o f h k = record { to = λ rest. ap (parse_flags rest) (sym h) }

module _ (mld : ModuleLoaderData) where
  -- the options that are read of `output_args`
  abbrev with_output : Bool → Options
  with_output push = record default_options {
    signed_image = if push then mld.container_image else "";
    no_push = not push;
    insecure_push = push && mld.registry_tls.insecure;
    skip_tls_verify_push = push && mld.registry_tls.insecure_skip_tls_verify;
  }

  abbrev with_image : Options
  with_image = record default_options { signed_image = mld.container_image }

  Reads-output : (push : Bool) → Reads (output_args mld push) default_options (with_output push)
  unfolding output_args argument_step
  Reads-output false = record {
    to = λ rest. parse_set "-no-push" rest default_options (with_output false) refl;
  }
  Reads-output true =
      Reads-append _ (flag_if mld.registry_tls.insecure_skip_tls_verify "--skip-tls-verify") _ _ _
        (Reads-append ("-signedimage" ∷ mld.container_image ∷ [])
          (flag_if mld.registry_tls.insecure "--insecure") default_options with_image _
          (record { to = λ rest. unfold parse_flags in refl })
          (Reads-flag mld.registry_tls.insecure "--insecure" with_image
            (λ b. record with_image { insecure_push = b }) refl refl))
        (Reads-flag mld.registry_tls.insecure_skip_tls_verify "--skip-tls-verify"
          (record with_image { insecure_push = mld.registry_tls.insecure })
          (λ b. record with_image {
            insecure_push = mld.registry_tls.insecure;
            skip_tls_verify_push = b;
          })
          refl refl)

Reads-files :
    (files : List String) (o : Options)
    → o.files_to_sign ≡ ""
    → Reads (files_args files) o (record o { files_to_sign = join files ":" })
unfolding files_args parse_flags join
Reads-files [] o h = record {
  to = λ rest. ap (λ t. parse_flags rest (record o { files_to_sign = t })) h;
}
Reads-files (f ∷ fs) o h = record { to = λ rest. refl }

module _ (mld : ModuleLoaderData) (sign : Sign) (image : String) (push : Bool) where
  abbrev image_args : List String
  image_args =
      "-unsignedimage" ∷ image ∷ "-key" ∷ "/signingkey/key.priv" ∷ "-cert"
      ∷ "/signingcert/public.der" ∷ []

  -- the options after each part of the command line
  abbrev o2 : Options
  o2 = record (with_output mld push) {
    unsigned_image = image;
    key = "/signingkey/key.priv";
    cert = "/signingcert/public.der";
  }

  abbrev o3 : Options
  o3 = record o2 { files_to_sign = join sign.files_to_sign ":" }

  abbrev o4 : Options
  o4 = record o3 { insecure_pull = sign.unsigned_image_registry_tls.insecure }

  abbrev o5 : Options
  o5 = record o4 {
    skip_tls_verify_pull = sign.unsigned_image_registry_tls.insecure_skip_tls_verify;
  }

  Reads-image : Reads image_args (with_output mld push) o2
  unfolding parse_flags
  Reads-image = record { to = λ rest. refl }

  abbrev all_args : List String
  all_args =
      (((output_args mld push ++ image_args) ++ files_args sign.files_to_sign)
        ++ flag_if sign.unsigned_image_registry_tls.insecure "--insecure-pull")
      ++ flag_if sign.unsigned_image_registry_tls.insecure_skip_tls_verify "--skip-tls-verify-pull"

  Reads-all : Reads all_args default_options o5
  unfolding argument_step
  Reads-all =
      Reads-append _ _ _ o4 _
        (Reads-append _ _ _ o3 _
          (Reads-append _ _ _ o2 _ (Reads-append _ _ _ _ _ (Reads-output mld push) Reads-image)
            (Reads-files sign.files_to_sign o2 refl))
          (Reads-flag sign.unsigned_image_registry_tls.insecure "--insecure-pull" o3
            (λ b. record o3 { insecure_pull = b }) refl refl))
        (Reads-flag sign.unsigned_image_registry_tls.insecure_skip_tls_verify
          "--skip-tls-verify-pull" o4 (λ b. record o4 { skip_tls_verify_pull = b }) refl refl)

  -- What the signer writes is read as it is meant: the images, the keys' paths, the files joined by
  -- colons, and a flag exactly where the settings set it.
  pub parse_args-sign_args :
      (image_to_sign : String) (args : List String)
      → unsigned_image sign image_to_sign ≡ ok image
      → sign_args mld sign image_to_sign push ≡ ok args
      → parse_args (args ++ ("-secretdir" ∷ "/docker_config/" ∷ []))
        ≡ parsed (meant mld sign image push)
  unfolding parse_args sign_args meant
  parse_args-sign_args image_to_sign args h e =
      let same : args ≡ all_args = ground (arith, h, e) in
      ap (λ l. parse_flags (l ++ ("-secretdir" ∷ "/docker_config/" ∷ [])) default_options) same
      ∙ Reads-all.to ("-secretdir" ∷ "/docker_config/" ∷ [])
      ∙ unfold parse_flags in refl
