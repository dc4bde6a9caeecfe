-- ===== src/Preflight/Layers.antt =====
-- `verifyImage`: which layers decide.
use rh_kernel_module_managem.Prelude.{
  ◌≡◌, refl, Bool, true, false, ◌||◌, ◌<>◌, List, [], ◌∷◌, ◌++◌, arith, any, All, All-append,
  reverse, if◌then◌else◌,
}
use rh_kernel_module_managem.Api.{ModuleLoaderData, Result, ok, err, panic, is_ok}
use rh_kernel_module_managem.Preflight.{
  PreflightEnv, Verdict, module_not_in_image, image_verified, verify_layers, verify_image,
}

module _ {Digest Layer : Type 0} (env : PreflightEnv Digest Layer) (mld : ModuleLoaderData) where
  -- The layer holds the module's file for the kernel.
  abbrev pub holds_module : Result Layer → Bool
  holds_module (ok layer) =
      env.verify_module_exists layer mld.modprobe.dir_name mld.kernel_version
        (mld.modprobe.module_name <> ".ko")
  holds_module _ = false

  abbrev pub has_module : Digest → Bool
  has_module digest = holds_module (env.get_layer_by_digest mld digest)

  abbrev pub IsAccessible : Digest → Type 0
  IsAccessible digest = is_ok (env.get_layer_by_digest mld digest) ≡ true

  abbrev pub verdict_of : Bool → Verdict
  verdict_of b = if b then (true, image_verified) else (false, module_not_in_image)

  verify_layers_lem :
      (digests : List Digest)
      → All IsAccessible digests
      → verify_layers env mld digests ≡ ok (verdict_of (any has_module digests))
  unfolding verify_layers
  verify_layers_lem [] h = refl
  verify_layers_lem (d ∷ ds) (p, h) =
      layer (env.get_layer_by_digest mld d) refl p (verify_layers_lem ds h)
    where
      layer :
          (r : Result Layer)
          → env.get_layer_by_digest mld d ≡ r
          → is_ok r ≡ true
          → verify_layers env mld ds ≡ ok (verdict_of (any has_module ds))
          → verify_layers env mld (d ∷ ds) ≡ ok (verdict_of (any has_module (d ∷ ds)))
      layer (ok l) e p ih = ground (arith, e, ih)
      layer (err x) e p ih = ground (arith, p)
      layer panic e p ih = ground (arith, p)

  any-append :
      (xs ys : List Digest) → any has_module (xs ++ ys) ≡ any has_module xs || any has_module ys
  any-append [] ys = refl
  any-append (x ∷ xs) ys = ground (arith, any-append xs ys)

  any-reverse : (xs : List Digest) → any has_module (reverse xs) ≡ any has_module xs
  any-reverse [] = refl
  any-reverse (x ∷ xs) = ground (arith, any-append (reverse xs) (x ∷ []), any-reverse xs)

  All-reverse : (xs : List Digest) → All IsAccessible xs → All IsAccessible (reverse xs)
  All-reverse [] h = tt
  All-reverse (x ∷ xs) (p, h) =
      All-append IsAccessible (reverse xs) (x ∷ []) (All-reverse xs h) (p, tt)

  -- If every layer is accessible, the image is verified exactly when some layer holds the module's
  -- file, wherever the layer stands.
  pub verify_image_lem :
      (digests : List Digest)
      → env.get_layers_digests mld ≡ ok digests
      → All IsAccessible digests
      → verify_image env mld ≡ ok (verdict_of (any has_module digests))
  unfolding verify_image
  verify_image_lem digests e h =
      ground
        (arith, e, any-reverse digests, verify_layers_lem (reverse digests) (All-reverse digests h))
