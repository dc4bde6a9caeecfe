-- ===== src/BuildMaker/Args.antt =====
-- What a made Build is given as arguments, and what its hash tells of it.
use rh_kernel_module_managem.Prelude.{
  ℕ, String, ◌≡◌, refl, sym, ap, ◌∙◌, Bool, true, false, Option, none, some, List, [], ◌∷◌, arith,
  if◌then◌else◌, contains,
}
use rh_kernel_module_managem.Prelude.Dict.{lookup}
use rh_kernel_module_managem.Api.{
  Build, BuildArg, OcpBuild, Owner, ModuleLoaderData, ok, panic, wrap_err, wrapv,
}
use rh_kernel_module_managem.Api.Errors.Inversion.{bind_inv, wrap_err_inv}
use rh_kernel_module_managem.BuildHelper.Overrides.{
  find_arg, last_arg, or_else, find_arg-apply_build_arg_overrides,
}
use rh_kernel_module_managem.DtkMapping.{KernelOsDtkMapping, get_image}
use rh_kernel_module_managem.BuildMaker.{
  MakerEnv, env_vars_from_build_args, final_overrides, dtk_overrides, kernel_override,
  get_dockerfile_data, build_object, make_template, make_build_template, dtk_build_arg,
}

abbrev value_of : Option BuildArg → Option String
value_of none = none
value_of (some a) = some a.value

lookup-env_vars :
    (n : String) (args : List BuildArg)
    → lookup n (env_vars_from_build_args args) ≡ value_of (find_arg n args)
unfolding lookup env_vars_from_build_args
lookup-env_vars n [] = refl
lookup-env_vars n (a ∷ args) = ground (arith, lookup-env_vars n args)

value_of-or_else :
    (o p : Option BuildArg) (v : String) → value_of o ≡ some v → value_of (or_else o p) ≡ some v
value_of-or_else none p v h = cc
value_of-or_else (some a) p v h = h

-- What `SetControllerReference` leaves alone.
pub record Keeps (a b : OcpBuild) : Type 0 where
  pub build_args : b.build_args ≡ a.build_args
  pub annotations : b.annotations ≡ a.annotations
  pub dockerfile : b.dockerfile ≡ a.dockerfile
  pub output : b.output ≡ a.output

-- the steps of a Build that was made
pub record Steps (env : MakerEnv) (mapping : KernelOsDtkMapping) (mld : ModuleLoaderData)
    (push : Bool) (owner : Owner) (b : OcpBuild) : Type 0 where
  pub build : Build
  pub text : String
  pub overrides : List BuildArg
  pub hash : ℕ
  pub built : mld.build ≡ some build
  pub read : get_dockerfile_data env build mld.namespace ≡ ok text
  pub overridden : final_overrides mapping mld text ≡ ok overrides
  pub hashed : env.hash_source text ≡ ok hash
  pub owned :
      env.set_controller_reference owner (build_object env mld build push text overrides hash)
      ≡ ok b

module _ (env : MakerEnv) (mapping : KernelOsDtkMapping) (mld : ModuleLoaderData) (push : Bool)
    (owner : Owner) (b : OcpBuild) where
  trace_of :
      (build : Build)
      → mld.build ≡ some build
      → make_template env mapping mld build push owner ≡ ok b
      → Steps env mapping mld push owner b
  unfolding make_template
  trace_of build e h =
      let (text, read, h1) = bind_inv _ _ _ h in
      let (overrides, overridden, h2) = bind_inv _ _ _ h1 in
      let (hash, hashed, h3) = bind_inv _ _ _ h2 in
      record {
        build = build;
        text = text;
        overrides = overrides;
        hash = hash;
        built = e;
        read = wrap_err_inv _ _ _ read;
        overridden = overridden;
        hashed = wrap_err_inv _ _ _ hashed;
        owned = wrap_err_inv _ _ _ h3;
      }

  pub steps :
      make_build_template env mapping mld push owner ≡ ok b → Steps env mapping mld push owner b
  unfolding make_build_template
  steps h = by_build mld.build refl h
    where
      by_build :
          (o : Option Build)
          → mld.build ≡ o
          → elim o [ none ↦ panic | some build ↦ make_template env mapping mld build push owner ]
            ≡ ok b
          → Steps env mapping mld push owner b
      by_build none e h = cc
      by_build (some build) e h = trace_of build e h

-- The value that a Build passes for an argument of its Dockerfile.
abbrev pub build_arg : String → OcpBuild → Option String
build_arg n b = lookup n b.build_args

last_overrides :
    (mapping : KernelOsDtkMapping) (mld : ModuleLoaderData) (text : String)
    (overrides : List BuildArg)
    → final_overrides mapping mld text ≡ ok overrides
    → (value_of (last_arg "KERNEL_VERSION" overrides) ≡ some mld.kernel_version)
      × (contains text dtk_build_arg ≡ true
          → (dtk : String) × (get_image mapping mld.kernel_version ≡ ok dtk)
            × (value_of (last_arg dtk_build_arg overrides) ≡ some dtk))
unfolding final_overrides
last_overrides mapping mld text overrides h = by_test (contains text dtk_build_arg) h
  where
    by_test :
        (c : Bool)
        → (if c then dtk_overrides mapping mld else ok (kernel_override mld ∷ [])) ≡ ok overrides
        → (value_of (last_arg "KERNEL_VERSION" overrides) ≡ some mld.kernel_version)
          × (c ≡ true
              → (dtk : String) × (get_image mapping mld.kernel_version ≡ ok dtk)
                × (value_of (last_arg dtk_build_arg overrides) ≡ some dtk))
    by_test false p = (ground (arith, p), λ q. cc)
    by_test true p =
        let (dtk, got, same) =
          bind_inv
            (wrap_err (wrapv "could not get DTK image for kernel")
              (get_image mapping mld.kernel_version))
            (λ dtk. ok (kernel_override mld ∷ record { name = dtk_build_arg; value = dtk } ∷ []))
            overrides p in
        (ground (arith, same), λ q. (dtk, wrap_err_inv _ _ _ got, ground (arith, same)))

module _ (env : MakerEnv)
    (keeps : (owner : Owner) (a b : OcpBuild)
      → env.set_controller_reference owner a ≡ ok b
      → Keeps a b)
    (mapping : KernelOsDtkMapping) (mld : ModuleLoaderData) (push : Bool) (owner : Owner)
    (b : OcpBuild) (made : make_build_template env mapping mld push owner ≡ ok b) where
  -- Where the controller reference leaves the spec alone, a Build that is made passes its kernel as
  -- KERNEL_VERSION, whatever the settings say, and the image of that kernel's driver toolkit as
  -- DTK_AUTO where its Dockerfile has that word.
  pub build_arg-make_build_template :
      (build_arg "KERNEL_VERSION" b ≡ some mld.kernel_version)
      × (contains b.dockerfile dtk_build_arg ≡ true
          → (dtk : String) × (get_image mapping mld.kernel_version ≡ ok dtk)
            × (build_arg dtk_build_arg b ≡ some dtk))
  unfolding build_object
  build_arg-make_build_template =
      let s = steps env mapping mld push owner b made in
      let k = keeps owner _ b s.owned in
      let passed : (n : String)
          → build_arg n b
            ≡ value_of (or_else (last_arg n s.overrides) (find_arg n s.build.build_args)) =
        λ n.
          ap (lookup n) k.build_args
          ∙ lookup-env_vars n _
          ∙ ap value_of (find_arg-apply_build_arg_overrides n s.build.build_args s.overrides) in
      let last = last_overrides mapping mld s.text s.overrides s.overridden in
      (
        passed "KERNEL_VERSION" ∙ value_of-or_else _ _ _ last.0,
        λ c.
            let (dtk, got, v) =
              last.1 (ap (λ t. contains t dtk_build_arg) (sym k.dockerfile) ∙ c) in
            (dtk, got, passed dtk_build_arg ∙ value_of-or_else _ _ _ v),
      )
