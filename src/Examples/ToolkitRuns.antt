-- ===== src/Examples/ToolkitRuns.antt =====
-- The toolkit's mapping, what feeds it, and the Builds that ask for it.
use rh_kernel_module_managem.Prelude.{
  ◌≡◌, refl, Bool, true, false, not, ◌||◌, ◌==◌, none, some, List, [], ◌∷◌, arith, trim_suffix,
  if◌then◌else◌, contains,
}
use rh_kernel_module_managem.Prelude.Dict.{lookup}
use rh_kernel_module_managem.Api.{
  BuildPhase, Node, OcpBuild, Owner, ModuleLoaderData, PreflightValidationOcp, Result, ok, err,
  not_found,
}
use rh_kernel_module_managem.DtkMapping.{KernelOsDtkMapping, new_kernel_os_dtk_mapping, get_image}
use rh_kernel_module_managem.DtkMapping.Reconcilers.{
  NodeEnv, TagReference, kernel_of, os_of, reconcile_node, reconcile_image_stream,
}
use rh_kernel_module_managem.DtkMapping.History.{
  node_info, image_stream_info, replay, last_image, get_image-replay,
}
use rh_kernel_module_managem.DtkMapping.Discovered.{IsDescribed, all_refer, last_tag}
use rh_kernel_module_managem.BuildManager.{is_build_changed}
use rh_kernel_module_managem.BuildMaker.{
  MakerEnv, dtk_build_arg, make_build_template, get_dockerfile_data,
}
use rh_kernel_module_managem.BuildMaker.Args.{Keeps, build_arg}
use rh_kernel_module_managem.BuildMaker.Hash.{is_build_changed-make_build_template}
use rh_kernel_module_managem.BuildMaker.WithToolkit.{IsReadable, make_build_template-reconciled}
use rh_kernel_module_managem.PreflightOcp.{OcpEnv, discover, prepare_preflight_validation}
use rh_kernel_module_managem.PreflightOcp.Known.{runs, get_image-prepared}
use rh_kernel_module_managem.Registry.{get_pull_options}
use rh_kernel_module_managem.Registry.Manifests.{last_layer}
use rh_kernel_module_managem.Registry.Layers.{Layer, entry, archive_end, get_header_data_from_layer}
use rh_kernel_module_managem.Examples.Data.{
  module_build, mapping_build, data_with, owner, node_on, build_with,
}

-- A later update of the version counts, and an update of another kernel does not.
get_image-replay_example :
    get_image
      (replay (
        node_info "k2" "os2"
        ∷ node_info "k1" "os1"
        ∷ image_stream_info "os1" "dtk"
        ∷ node_info "k1" "os0"
        ∷ []))
      "k1"
    ≡ last_image "k1" (
        node_info "k2" "os2"
        ∷ node_info "k1" "os1"
        ∷ image_stream_info "os1" "dtk"
        ∷ node_info "k1" "os0"
        ∷ [])
get_image-replay_example =
    get_image-replay
      (node_info "k2" "os2"
        ∷ node_info "k1" "os1"
        ∷ image_stream_info "os1" "dtk"
        ∷ node_info "k1" "os0"
        ∷ [])
      "k1"

abbrev node : Node
node = record (node_on "5.14.0-70+") { os_image = "Red Hat CoreOS 411.86.202210072320-0 (Ootpa)" }

abbrev nodes : NodeEnv
nodes = record { label_name = "kernel"; get_node = λ name. ok node; answer_patch = λ n. none }

abbrev tags : List TagReference
tags =
    record { name = "latest"; from = none }
    ∷ record { name = "411.86.202210072320-0"; from = some "quay.io/dtk" }
    ∷ []

described : IsDescribed nodes "node" node tags "quay.io/dtk"
unfolding os_of all_refer last_tag
described = record { got = refl; versioned = refl; refer = refl; tagged = refl }

abbrev maker : MakerEnv
maker = record {
  get_config_map = λ ns name. ok (("dockerfile", "FROM $DTK_AUTO") ∷ []);
  hash_source = λ text. ok 5;
  print = λ n. "5";
  set_controller_reference = λ o b. ok (record b { controller = some o.uid });
}

maker-Keeps : (o : Owner) (a b : OcpBuild) → maker.set_controller_reference o a ≡ ok b → Keeps a b
maker-Keeps o a b e = record {
  build_args = ground (arith, e);
  annotations = ground (arith, e);
  dockerfile = ground (arith, e);
  output = ground (arith, e);
}

readable : IsReadable maker (data_with (some module_build))
unfolding get_dockerfile_data lookup contains
readable = record {
  build = module_build;
  text = "FROM $DTK_AUTO";
  hash = 5;
  built = refl;
  read = refl;
  asks = refl;
  hashed = refl;
}

make_build_template-reconciled_example :
    (b : OcpBuild) × (make_build_template maker
        (reconcile_image_stream
          (ok tags)
          (reconcile_node nodes new_kernel_os_dtk_mapping "node").1).1
        (data_with (some module_build))
        true
        owner
      ≡ ok b)
    × (build_arg dtk_build_arg b ≡ some "quay.io/dtk")
unfolding kernel_of trim_suffix
make_build_template-reconciled_example =
    make_build_template-reconciled maker maker-Keeps owner (λ a. (_, refl))
      (data_with (some module_build)) readable true nodes new_kernel_os_dtk_mapping "node" node tags
      "quay.io/dtk" described refl

abbrev known : KernelOsDtkMapping
known = record { kernel_to_os = ("5.14.0-70", "os") ∷ []; os_to_dtk = ("os", "quay.io/dtk") ∷ [] }

abbrev build_or : OcpBuild → Result OcpBuild → OcpBuild
build_or b (ok made) = made
build_or b _ = b

abbrev made_build : ModuleLoaderData → Bool → OcpBuild
made_build mld push =
    build_or (build_with "" BuildPhase.new) (make_build_template maker known mld push owner)

-- Other arguments and no push, and still the same Build.
abbrev other_data : ModuleLoaderData
other_data = data_with (some (record mapping_build { dockerfile_config_map = some "dockerfile" }))

is_build_changed-make_build_template_example :
    is_build_changed (made_build (data_with (some module_build)) true) (made_build other_data false)
    ≡ ok (not ("5" == "5"))
unfolding make_build_template lookup contains get_image
is_build_changed-make_build_template_example =
    is_build_changed-make_build_template maker owner (maker-Keeps owner) known known
      (data_with (some module_build)) other_data true false
      (made_build (data_with (some module_build)) true) (made_build other_data false) 5 5 refl refl
      refl refl

-- A release whose images have one layer, with the two files.
abbrev layer : Layer
layer = record {
  uncompressed = ok (
      entry
        (record { name = "release-manifests/image-references"; size = 1; content = ok (1 ∷ []) })
        (entry
          (record { name = "etc/driver-toolkit-release.json"; size = 1; content = ok (2 ∷ []) })
          archive_end));
  media_type = ok "layer";
}

abbrev release : PreflightValidationOcp
release = record {
  name = "ocp";
  namespace = "";
  uid = "uid-2";
  spec = record {
    release_image = "quay.io/release:4.11";
    use_rt_kernel = false;
    push_built_image = false;
  };
  cr_statuses = [];
}

abbrev ocp : OcpEnv
ocp = record {
  registry = record {
    go_arch = "amd64";
    manifest = λ name options. ok "manifest";
    unmarshal = λ stream. ok (ok (some "oci"));
    unmarshal_manifest = λ stream. ok (record { algorithm = "sha256"; hex = "0" } ∷ []);
    unmarshal_index = λ stream. ok [];
    pull_layer = λ name options. ok layer;
    status = λ text. none;
  };
  keychain = ok "keychain";
  unmarshal_image_stream =
      λ bytes. ok (record { name = "driver-toolkit"; from = some "quay.io/dtk:2" } ∷ []);
  unmarshal_dtk_release = λ bytes.
      ok (record { kernel_version = "5.14.0-80"; rt_kernel_version = ""; rhel_version = "os" });
  get_preflight_ocp = λ name. ok release;
  get_preflight = λ name ns. err not_found;
  answer_create = λ pv. none;
  answer_status = λ p. none;
  set_controller_reference = λ p pv. ok pv;
}

abbrev prepared : KernelOsDtkMapping
prepared = (prepare_preflight_validation ocp release known).1

-- The kernel of the node loses the image that it had.
get_image-prepared_example : get_image prepared "5.14.0-70" ≡ (
    if ("5.14.0-80" == "5.14.0-70") || runs known "os" "5.14.0-70"
    then ok "quay.io/dtk:2"
    else get_image known "5.14.0-70")
unfolding discover last_layer get_pull_options contains get_header_data_from_layer get_image lookup
get_image-prepared_example =
    get_image-prepared ocp release known "quay.io/dtk:2" "5.14.0-80" "os" refl "5.14.0-70" refl
