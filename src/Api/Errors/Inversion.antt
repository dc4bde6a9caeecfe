-- ===== src/Api/Errors/Inversion.antt =====
-- What a successful chain of fallible steps says about each step.
use rh_kernel_module_managem.Prelude.{◌≡◌, refl}
use rh_kernel_module_managem.Api.Errors.{Error, Result, ok, err, panic, wrap_err, ◌>>=◌}

module _ {A B : Type 0} where
  pub bind_inv :
      (r : Result A) (f : A → Result B) (b : B)
      → (r >>= f) ≡ ok b
      → (a : A) × (r ≡ ok a) × (f a ≡ ok b)
  bind_inv (ok a) f b h = (a, refl, h)
  bind_inv (err e) f b h = cc
  bind_inv panic f b h = cc

module _ {A : Type 0} where
  pub wrap_err_inv : (g : Error → Error) (r : Result A) (a : A) → wrap_err g r ≡ ok a → r ≡ ok a
  wrap_err_inv g (ok a) b h = h
  wrap_err_inv g (err e) b h = cc
  wrap_err_inv g panic b h = cc
