-- ===== src/Templates.antt =====
-- internal/utils/replaceStrings.go: the kernel version as environment variables, and the
-- substitution of variables in image names and file names.
pub mod Components
use rh_kernel_module_managem.Prelude.{
  ℕ, String, Bool, ◌||◌, List, [], ◌∷◌, ◌<>◌, ◌=ℕ◌, split_on, join,
}
use rh_kernel_module_managem.Api.{Result, ok, panic, wrapv, wrap_err}
use rh_kernel_module_managem.Api.Errors.{◌>>=◌}

-- the class `[.,-]`
unfoldable pub is_kernel_sep : ℕ → Bool
is_kernel_sep c = (c =ℕ b'.') || (c =ℕ b',') || (c =ℕ b'-')

-- `osConfigFieldsList[:3]` panics where there are fewer than three fields.
env_vars : String → List String → Result (List String)
env_vars kernel (x ∷ y ∷ z ∷ _) = ok (
    "KERNEL_FULL_VERSION=" <> kernel
    ∷ "KERNEL_VERSION=" <> kernel
    ∷ "KERNEL_XYZ=" <> join (x ∷ y ∷ z ∷ []) "."
    ∷ "KERNEL_X=" <> x
    ∷ "KERNEL_Y=" <> y
    ∷ "KERNEL_Z=" <> z
    ∷ [])
env_vars kernel _ = panic

unfoldable pub kernel_components_as_env_vars : String → Result (List String)
unfolding env_vars is_kernel_sep split_on join
kernel_components_as_env_vars kernel = env_vars kernel (split_on is_kernel_sep kernel)

-- The parser of github.com/a8m/envsubst, given the variables, is the parameter.
module _ (parse : List String → String → Result String) where
  unfoldable pub replace_in_templates : List String → List String → Result (List String)
  replace_in_templates env [] = ok []
  replace_in_templates env (t ∷ ts) = do
    s ← wrap_err (wrapv "failed to substitute") (parse env t)
    rest ← replace_in_templates env ts
    ok (s ∷ rest)

-- `replaced[0]`
unfoldable pub first : List String → Result String
first [] = panic
first (s ∷ _) = ok s
