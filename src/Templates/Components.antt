-- ===== src/Templates/Components.antt =====
-- What the variables hold, for a kernel version of at least three components, and when the code
-- panics.
use Prim.Native.Char.{Char, code}
use Prim.Native.String.append
use rh_kernel_module_managem.Prelude.{
  ℕ, suc, ◌<◌, String, ◌≡◌, ◌↔◌, refl, Bool, true, false, List, [], ◌∷◌, arith, ◌<>◌, split_on,
  length, if◌then◌else◌,
}
use rh_kernel_module_managem.Api.{ok, panic}
use rh_kernel_module_managem.Templates.{is_kernel_sep, env_vars, kernel_components_as_env_vars}

-- No character of the text is a separator.
abbrev pub Lacks : (ℕ → Bool) → String → Type 0
Lacks is_sep String.[] = Unit
Lacks is_sep (String.◌∷◌ c s) = (is_sep (code c) ≡ false) × Lacks is_sep s

module _ (is_sep : ℕ → Bool) where
  -- A part without separators and the separator behind it are cut off together.
  pub split_on-append :
      (x s : String) (c : Char)
      → Lacks is_sep x
      → is_sep (code c) ≡ true
      → split_on is_sep (x <> String.◌∷◌ c s) ≡ x ∷ split_on is_sep s
  unfolding split_on
  split_on-append String.[] s c l h = rw append.nil (ground arith)
  split_on-append (String.◌∷◌ d x) s c l h =
      rw append.cons (ground (arith, split_on-append x s c l.1 h))

-- For a kernel version `x.y.z-rest` the variables hold the whole version and its first three
-- components. The separators may be any of `.`, `,` and `-`, and the components hold none of them.
pub kernel_components_lem :
    (x y z rest : String) (c d e : Char)
    → Lacks is_kernel_sep x
    → Lacks is_kernel_sep y
    → Lacks is_kernel_sep z
    → is_kernel_sep (code c) ≡ true
    → is_kernel_sep (code d) ≡ true
    → is_kernel_sep (code e) ≡ true
    → let kernel = x <> String.◌∷◌ c (y <> String.◌∷◌ d (z <> String.◌∷◌ e rest)) in
      kernel_components_as_env_vars kernel
      ≡ ok (
          "KERNEL_FULL_VERSION=" <> kernel
          ∷ "KERNEL_VERSION=" <> kernel
          ∷ "KERNEL_XYZ=" <> (x <> "." <> y <> "." <> z)
          ∷ "KERNEL_X=" <> x
          ∷ "KERNEL_Y=" <> y
          ∷ "KERNEL_Z=" <> z
          ∷ [])
unfolding kernel_components_as_env_vars
kernel_components_lem x y z rest c d e lx ly lz hc hd he = rw (
  split_on-append is_kernel_sep x _ c lx hc,
  split_on-append is_kernel_sep y _ d ly hd,
  split_on-append is_kernel_sep z _ e lz he,
)

-- how many separators the text has
pub separators : (ℕ → Bool) → String → ℕ
separators is_sep String.[] = 0
separators is_sep (String.◌∷◌ c s) =
    let rest = separators is_sep s in if is_sep (code c) then suc rest else rest

length-split_on :
    (is_sep : ℕ → Bool) (s : String) → length (split_on is_sep s) ≡ suc (separators is_sep s)
unfolding split_on separators
length-split_on is_sep String.[] = refl
length-split_on is_sep (String.◌∷◌ c s) = ground (arith, length-split_on is_sep s)

env_vars_panics :
    (kernel : String) (fields : List String)
    → (env_vars kernel fields ≡ panic) ↔ (length fields < 3)
unfolding env_vars
env_vars_panics kernel [] = (λ _. omega arith, λ _. refl)
env_vars_panics kernel (x ∷ []) = ground arith
env_vars_panics kernel (x ∷ y ∷ []) = ground arith
env_vars_panics kernel (x ∷ y ∷ z ∷ fs) = ground arith

-- The code panics exactly on the versions with fewer than two separators.
pub kernel_components_panics :
    (kernel : String)
    → (kernel_components_as_env_vars kernel ≡ panic) ↔ (separators is_kernel_sep kernel < 2)
unfolding kernel_components_as_env_vars
kernel_components_panics kernel =
    let panics = env_vars_panics kernel (split_on is_kernel_sep kernel) in
    let n = length-split_on is_kernel_sep kernel in
    (λ p. omega (arith, panics.0 p, n), λ h. panics.1 (omega (arith, h, n)))
