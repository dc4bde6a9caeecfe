-- ===== src/BuildMaker/Hash.antt =====
-- What the manager learns when it compares a Build with the one that is asked for.
use rh_kernel_module_managem.Prelude.{ℕ, ◌≡◌, Bool, not, ◌==◌, some, [], ◌∷◌, arith}
use rh_kernel_module_managem.Prelude.Dict.{lookup}
use rh_kernel_module_managem.Api.{OcpBuild, Owner, ModuleLoaderData, ok}
use rh_kernel_module_managem.BuildManager.{build_hash_annotation, is_build_changed}
use rh_kernel_module_managem.DtkMapping.{KernelOsDtkMapping}
use rh_kernel_module_managem.BuildMaker.{MakerEnv, build_object, make_build_template}
use rh_kernel_module_managem.BuildMaker.Args.{Keeps, steps}

module _ (env : MakerEnv) (owner : Owner)
    (keeps : (a b : OcpBuild) → env.set_controller_reference owner a ≡ ok b → Keeps a b) where
  annotations-made :
      (mapping : KernelOsDtkMapping) (mld : ModuleLoaderData) (push : Bool) (b : OcpBuild) (h : ℕ)
      → make_build_template env mapping mld push owner ≡ ok b
      → env.hash_source b.dockerfile ≡ ok h
      → b.annotations ≡ some ((build_hash_annotation, env.print h) ∷ [])
  unfolding build_object
  annotations-made mapping mld push b h made hashed =
      let s = steps env mapping mld push owner b made in
      let k = keeps _ b s.owned in ground (arith, k.annotations, k.dockerfile, s.hashed, hashed)

  -- Where the controller reference leaves the annotations and the Dockerfile alone, a Build counts as
  -- changed exactly if the hashes of the two Dockerfiles are printed differently: the arguments, the
  -- kernel, the secrets and the output of the two may differ as they like.
  pub is_build_changed-make_build_template :
      (mapping mapping' : KernelOsDtkMapping) (mld mld' : ModuleLoaderData) (push push' : Bool)
      (b b' : OcpBuild) (h h' : ℕ)
      → make_build_template env mapping mld push owner ≡ ok b
      → make_build_template env mapping' mld' push' owner ≡ ok b'
      → env.hash_source b.dockerfile ≡ ok h
      → env.hash_source b'.dockerfile ≡ ok h'
      → is_build_changed b b' ≡ ok (not (env.print h == env.print h'))
  unfolding is_build_changed lookup
  is_build_changed-make_build_template m m' mld mld' push push' b b' h h' made made' hashed
        hashed' =
      ground (
        arith,
        annotations-made m mld push b h made hashed,
        annotations-made m' mld' push' b' h' made' hashed',
      )
