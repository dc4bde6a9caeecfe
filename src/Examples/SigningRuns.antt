-- ===== src/Examples/SigningRuns.antt =====
-- The signer, the manager of its jobs, and the program in the job.
use rh_kernel_module_managem.Prelude.{
  String, ◌≡◌, refl, true, false, none, some, List, [], ◌∷◌, ◌++◌, join,
}
use rh_kernel_module_managem.Api.{Sign, Job, ModuleLoaderData, Result, ok}
use rh_kernel_module_managem.JobHelper.{job_labels}
use rh_kernel_module_managem.Signer.{SignerEnv, make_job_template}
use rh_kernel_module_managem.Signer.Args.{sign_args, unsigned_image}
use rh_kernel_module_managem.Registry.Layers.{archive_end, entry, Image}
use rh_kernel_module_managem.SignImage.{World, exit, main}
use rh_kernel_module_managem.SignImage.Flags.{Options, default_options}
use rh_kernel_module_managem.SignImage.Started.{main-sign_args}
use rh_kernel_module_managem.Examples.Data.{job_with, kernel, data_with, owner, strict_tls}

abbrev sign_with : List String → Sign
sign_with files = record {
  unsigned_image = "quay.io/org/kmod:unsigned";
  unsigned_image_registry_tls = strict_tls;
  key_secret = some "key";
  cert_secret = some "cert";
  files_to_sign = files;
}

abbrev signed_data : ModuleLoaderData
signed_data = record (data_with none) { sign = some (sign_with ("/lib/a.ko" ∷ [])) }

abbrev signer : SignerEnv
signer = record {
  get_cluster_ca = λ ns. ok (record { key_name = "ca-bundle.crt"; name = "cluster" });
  get_service_ca = λ ns. ok (record { key_name = "service-ca.crt"; name = "service" });
  get_service_account_secrets = λ ns name. ok ("pull" ∷ []);
  get_secret = λ ns name. ok (("key", "k") ∷ ("cert", "c") ∷ []);
  hash_template = λ template public private. ok 7;
  print = λ n. "7";
  related_images_sign = "signer";
  set_controller_reference = λ o job. ok (record job { controller = some o.uid });
}

-- the job that the signer makes
abbrev job_or : Job → Result Job → Job
job_or job (ok made) = made
job_or job _ = job

abbrev made_job : Job
made_job =
    job_or (job_with "" "")
      (make_job_template signer signed_data (job_labels "kmod" kernel "sign") "" true owner)

abbrev files : List String
files = "/lib/a.ko" ∷ []

abbrev sign_options : Options
sign_options = record default_options {
  unsigned_image = "quay.io/org/kmod:unsigned";
  signed_image = "quay.io/org/kmod:1";
  files_to_sign = "/lib/a.ko";
  key = "/signingkey/key.priv";
  cert = "/signingcert/public.der";
  secret_dir = "/docker_config/";
}

-- an image of one layer with one module, which is named without its first slash
abbrev image : Image
image = record {
  layers = ok (
      record {
        uncompressed =
            ok (entry (record { name = "lib/a.ko"; size = 1; content = ok (7 ∷ []) }) archive_end);
        media_type = ok "layer";
      }
      ∷ []);
  media_type = ok "image";
}

abbrev world : World
world = record {
  make_temp_dir = ok "/tmp/kmod_signer";
  decoder = record { raw_messages = λ text. none; auth_configs = λ text. none };
  credentials = λ dir. [];
  pull = λ name options. ok image;
  files = record {
    make_dirs = λ path. ok tt;
    write_file = λ path bytes. ok tt;
    run_sign_file = λ key cert path. ok tt;
  };
  tarball = record {
    stat = λ path. ok (record { is_dir = false; mode = 420; size = 1 });
    write_header = λ header. ok tt;
    open_file = λ path. ok (7 ∷ []);
    copy = λ bytes. ok tt;
  };
  write_layer = λ path. ok tt;
  mutations = record {
    layer_from_file = λ path media_type.
        ok (record { uncompressed = ok archive_end; media_type = ok media_type });
    append_layers = λ old layer. ok old;
    set_media_type = λ new media_type. new;
  };
  push = λ new name options. ok tt;
}

main-sign_args_example :
    main world (
      ("-no-push" ∷ "-unsignedimage" ∷ "quay.io/org/kmod:unsigned" ∷ "-key" ∷ "/signingkey/key.priv"
        ∷ "-cert" ∷ "/signingcert/public.der" ∷ [])
      ++ ("-secretdir" ∷ "/docker_config/" ∷ []))
    ≡ (exit 0, [])
unfolding unsigned_image sign_args join
main-sign_args_example =
    main-sign_args world (data_with none) (sign_with []) "" "quay.io/org/kmod:unsigned" false _ refl
      refl
