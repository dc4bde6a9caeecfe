-- ===== src/Api/Errors.antt =====
-- Errors. The texts that `fmt.Errorf` fills in are not modelled: what is kept is the fixed text and
-- how an inner error is carried, because `errors.Is` and `IsNotFound` see through `%w` and not
-- through `%v`. A run-time panic is a third result, which no test of `err` sees.
pub mod Inversion
use rh_kernel_module_managem.Prelude.{String, Bool, true, false}

-- the errors that the program compares with `errors.Is`
pub data Sentinel : Type 0 where
  no_matching_job no_matching_build config_map_not_found : Sentinel

pub data Error : Type 0 where
  not_found : Error  -- the API server's NotFound status
  external : String → Error  -- any other error of code that is not the program's
  sentinel : Sentinel → Error
  errorf : String → Error  -- `errors.New`, or `fmt.Errorf` around no error
  wrapw : String → Error → Error  -- `fmt.Errorf` with `%w`
  wrapv : String → Error → Error  -- `fmt.Errorf` with `%v`

pub data Result {ℓ} (A : Type ℓ) : Type ℓ where
  ok : A → Result A
  err : Error → Result A
  panic : Result A

-- `k8serrors.IsNotFound(err)`
unfoldable pub is_not_found : Error → Bool
is_not_found not_found = true
is_not_found (wrapw m e) = is_not_found e
is_not_found _ = false

abbrev same_sentinel : Sentinel → Sentinel → Bool
same_sentinel no_matching_job no_matching_job = true
same_sentinel no_matching_build no_matching_build = true
same_sentinel config_map_not_found config_map_not_found = true
same_sentinel _ _ = false

-- `errors.Is(err, target)` for a sentinel
unfoldable pub is_sentinel : Sentinel → Error → Bool
is_sentinel s (sentinel t) = same_sentinel s t
is_sentinel s (wrapw m e) = is_sentinel s e
is_sentinel s _ = false

-- `if err != nil { return fmt.Errorf("…", err) }`
abbrev pub wrap_err {ℓ} : {A : Type ℓ} → (Error → Error) → Result A → Result A
wrap_err f (ok a) = ok a
wrap_err f (err e) = err (f e)
wrap_err f panic = panic

abbrev pub is_ok {ℓ} : {A : Type ℓ} → Result A → Bool
is_ok (ok a) = true
is_ok _ = false

-- a chain of fallible steps that call nothing
infixl 5 ◌>>=◌
abbrev pub ◌>>=◌ {ℓ κ} : {A : Type ℓ} {B : Type κ} → Result A → (A → Result B) → Result B
panic >>= next = panic
err e >>= next = err e
ok value >>= next = next value
