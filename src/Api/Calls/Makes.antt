-- ===== src/Api/Calls/Makes.antt =====
-- `Makes P act`: every call of the action satisfies `P`. One rule for each way to build an action.
use rh_kernel_module_managem.Prelude.{
  ◌≡◌, refl, Bool, true, false, Option, none, some, List, [], ◌∷◌, All, All-append, if◌then◌else◌,
}
use rh_kernel_module_managem.Api.Errors.{Error, Result, ok, err, panic}
use rh_kernel_module_managem.Api.Calls.{
  Call, Act, pure, raise, lift, wrapping, call, ignoring, for_each, ◌>>=◌,
}

pub record Makes {A : Type 0} (P : Call → Type 0) (act : Act A) : Type 0 where
  pub all : All P act.1

module _ {A : Type 0} {P : Call → Type 0} where
  pub Makes-pure : (a : A) → Makes P (pure a)
  unfolding pure
  Makes-pure a = record { all = tt }

  pub Makes-raise : (e : Error) → Makes P (raise {A = A} e)
  unfolding raise
  Makes-raise e = record { all = tt }

  pub Makes-lift : (r : Result A) → Makes P (lift r)
  unfolding lift
  Makes-lift r = record { all = tt }

  pub Makes-wrapping : (f : Error → Error) (m : Act A) → Makes P m → Makes P (wrapping f m)
  unfolding wrapping
  Makes-wrapping f (ok a, w) h = record { all = h.all }
  Makes-wrapping f (err e, w) h = record { all = h.all }
  Makes-wrapping f (panic, w) h = record { all = h.all }

  pub Makes-if :
      (b : Bool) (m n : Act A)
      → (b ≡ true → Makes P m)
      → (b ≡ false → Makes P n)
      → Makes P (if b then m else n)
  Makes-if true m n hm hn = hm refl
  Makes-if false m n hm hn = hn refl

pub Makes-call : {P : Call → Type 0} (c : Call) (o : Option Error) → P c → Makes P (call c o)
unfolding call
Makes-call c none h = record { all = (h, tt) }
Makes-call c (some e) h = record { all = (h, tt) }

pub Makes-ignoring : {P : Call → Type 0} (m : Act (Unit {0})) → Makes P m → Makes P (ignoring m)
unfolding ignoring
Makes-ignoring (ok tt, w) h = record { all = h.all }
Makes-ignoring (err e, w) h = record { all = h.all }
Makes-ignoring (panic, w) h = record { all = h.all }

module _ {A B : Type 0} {P : Call → Type 0} where
  pub Makes-bind :
      (m : Act A) (f : A → Act B) → Makes P m → ((a : A) → Makes P (f a)) → Makes P (m >>= f)
  unfolding ◌>>=◌
  Makes-bind (ok a, w) f hm hf = record { all = All-append P w (f a).1 hm.all (hf a).all }
  Makes-bind (err e, w) f hm hf = record { all = hm.all }
  Makes-bind (panic, w) f hm hf = record { all = hm.all }

pub Makes-for_each :
    {A : Type 0} {P : Call → Type 0} (xs : List A) (body : A → Act (Unit {0}))
    → ((x : A) → Makes P (body x))
    → Makes P (for_each xs body)
unfolding for_each
Makes-for_each [] body h = Makes-pure tt
Makes-for_each (x ∷ xs) body h = Makes-bind _ _ (h x) (λ _. Makes-for_each xs body h)

All-mono : (P Q : Call → Type 0) (w : List Call) → ((c : Call) → P c → Q c) → All P w → All Q w
All-mono P Q [] f h = tt
All-mono P Q (c ∷ w) f (p, h) = (f c p, All-mono P Q w f h)

pub Makes-mono :
    {A : Type 0} {P Q : Call → Type 0} (m : Act A)
    → ((c : Call) → P c → Q c)
    → Makes P m
    → Makes Q m
Makes-mono {P} {Q} m f h = record { all = All-mono P Q m.1 f h.all }

pub ruleset makes_rules = (
  Makes-pure, Makes-raise, Makes-lift, Makes-wrapping, Makes-if, Makes-call, Makes-ignoring,
  Makes-bind,
)
