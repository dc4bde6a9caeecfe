-- ===== src/BuildMaker/WithToolkit.antt =====
-- The reconcilers that feed the mapping and the maker that reads it.
use rh_kernel_module_managem.Prelude.{
  ℕ, String, ◌≡◌, ap, ◌∙◌, Bool, true, some, List, [], ◌∷◌, contains, arith,
}
use rh_kernel_module_managem.Api.{Build, OcpBuild, Owner, ModuleLoaderData, Node, ok}
use rh_kernel_module_managem.DtkMapping.{KernelOsDtkMapping, get_image}
use rh_kernel_module_managem.DtkMapping.Reconcilers.{
  NodeEnv, TagReference, kernel_of, reconcile_node, reconcile_image_stream,
}
use rh_kernel_module_managem.DtkMapping.Discovered.{IsDescribed, get_image-reconciled}
use rh_kernel_module_managem.BuildMaker.{
  MakerEnv, build_object, dtk_build_arg, kernel_override, dtk_overrides, final_overrides,
  get_dockerfile_data, make_template, make_build_template,
}
use rh_kernel_module_managem.BuildMaker.Args.{Keeps, build_arg, build_arg-make_build_template}

-- A build whose Dockerfile can be read, asks for the toolkit and can be hashed.
pub record IsReadable (env : MakerEnv) (mld : ModuleLoaderData) : Type 0 where
  pub build : Build
  pub text : String
  pub hash : ℕ
  pub built : mld.build ≡ some build
  pub read : get_dockerfile_data env build mld.namespace ≡ ok text
  pub asks : contains text dtk_build_arg ≡ true
  pub hashed : env.hash_source text ≡ ok hash

module _ (env : MakerEnv)
    (keeps : (owner : Owner) (a b : OcpBuild)
      → env.set_controller_reference owner a ≡ ok b
      → Keeps a b)
    (owner : Owner)
    (owns : (a : OcpBuild) → (b : OcpBuild) × (env.set_controller_reference owner a ≡ ok b))
    (mld : ModuleLoaderData) (readable : IsReadable env mld) (push : Bool) where
  -- the Build that is made where the toolkit's image is known
  abbrev asked_for : String → OcpBuild
  asked_for dtk =
      (owns (
        build_object env mld readable.build push readable.text
          (kernel_override mld ∷ record { name = dtk_build_arg; value = dtk } ∷ [])
          readable.hash)).0

  make_build_template_lem :
      (mapping : KernelOsDtkMapping) (dtk : String)
      → get_image mapping mld.kernel_version ≡ ok dtk
      → make_build_template env mapping mld push owner ≡ ok (asked_for dtk)
  unfolding make_build_template make_template final_overrides dtk_overrides
  make_build_template_lem mapping dtk h =
      let (b, e) = owns (
        build_object env mld readable.build push readable.text
          (kernel_override mld ∷ record { name = dtk_build_arg; value = dtk } ∷ [])
          readable.hash) in
      ground (arith, readable.built, readable.read, readable.asks, readable.hashed, h, e)

  asks_for_dtk :
      (mapping : KernelOsDtkMapping) (dtk : String)
      → get_image mapping mld.kernel_version ≡ ok dtk
      → build_arg dtk_build_arg (asked_for dtk) ≡ some dtk
  unfolding build_object
  asks_for_dtk mapping dtk h =
      let made = make_build_template_lem mapping dtk h in
      let (b, e) = owns (
        build_object env mld readable.build push readable.text
          (kernel_override mld ∷ record { name = dtk_build_arg; value = dtk } ∷ [])
          readable.hash) in
      let (found, got, same) =
        (build_arg-make_build_template env keeps mapping mld push owner (asked_for dtk) made).1
          (ap (λ t. contains t dtk_build_arg) ((keeps owner _ b e).dockerfile) ∙ readable.asks) in
      ground (arith, h, got, same)

  module _ (nodes : NodeEnv) (mapping : KernelOsDtkMapping) (name : String) (node : Node)
      (tags : List TagReference) (dtk : String) (d : IsDescribed nodes name node tags dtk)
      (running : mld.kernel_version ≡ kernel_of node) where
    -- Once a node and the ImageStream are reconciled, the Build for the node's kernel is made, and it
    -- passes the image of the tag with the node's version as DTK_AUTO, if the build's Dockerfile can
    -- be read and hashed, has that word, and the controller reference can be set.
    pub make_build_template-reconciled :
        (b : OcpBuild) × (make_build_template env
            (reconcile_image_stream (ok tags) (reconcile_node nodes mapping name).1).1
            mld
            push
            owner
          ≡ ok b)
        × (build_arg dtk_build_arg b ≡ some dtk)
    make_build_template-reconciled =
        let known = (get_image-reconciled nodes mapping name node tags dtk d).0 in
        let m = (reconcile_image_stream (ok tags) (reconcile_node nodes mapping name).1).1 in
        let h = ap (get_image m) running ∙ known in
        (asked_for dtk, make_build_template_lem m dtk h, asks_for_dtk m dtk h)
