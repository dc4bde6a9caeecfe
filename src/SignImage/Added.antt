-- ===== src/SignImage/Added.antt =====
-- What the end of the program has put into the tarball, and how it may end.
use rh_kernel_module_managem.Prelude.{
  ℕ, String, ◌≡◌, ◌≢◌, refl, sym, ◌∙◌, inl, inr, Bool, true, false, ◌==◌, none, some, List, [], ◌∷◌,
  ◌++◌, All, In, arith, eq_iff, if◌then◌else◌, Bool-cases,
}
use rh_kernel_module_managem.Prelude.Dict.{Dict, lookup}
use rh_kernel_module_managem.Api.{Result, ok, err, panic}
use rh_kernel_module_managem.SignImage.{World, exit, crash, Run, or_die, add_signed}
use rh_kernel_module_managem.SignImage.Tarball.{
  FileInfo, add_file_to_tarball, add_file_to_tarball-written,
}
use rh_kernel_module_managem.SignImage.Kmods.{Effect, added, not_found_yet}
use rh_kernel_module_managem.SignImage.OnlySigned.{In-left, In-last}

module _ {A : Type 0} (P : Run → Type 0) where
  pub or_die-post :
      (code : ℕ) (r : Result A) (w : List Effect) (k : A → Run)
      → P (exit code, w)
      → P (crash, w)
      → ((a : A) → r ≡ ok a → P (k a))
      → P (or_die code r w k)
  unfolding or_die
  or_die-post code (ok a) w k d c h = h a refl
  or_die-post code (err e) w k d c h = d
  or_die-post code panic w k d c h = c

pub some_ne_none : {m : Dict String} → some m ≢ none
some_ne_none e = cc

pub false_ne_true : false ≢ true
false_ne_true e = cc

pub if-post :
    (P : Run → Type 0) (b : Bool) (x y : Run)
    → (b ≡ true → P x)
    → (b ≡ false → P y)
    → P (if b then x else y)
if-post P true x y h k = h refl
if-post P false x y h k = k refl

-- the entry is in the tarball
abbrev pub IsAdded : List Effect → String × String → Type 0
IsAdded w (kmod, path) = ((path == not_found_yet) ≡ false) × In (added path kmod) w

unfoldable pub More : List Effect → List Effect → Type 0
More w v = (e : Effect) → In e w → In e v

module _ (world : World) (f p : String) (ks : Dict String) (missing : Bool) (w : List Effect)
    (k : Bool → List Effect → Run) where
  add_signed_missed :
      (p == not_found_yet) ≡ true
      → add_signed world ((f, p) ∷ ks) missing w k ≡ add_signed world ks true w k
  unfolding add_signed
  add_signed_missed h = ground (arith, h)

  add_signed_found :
      (p == not_found_yet) ≡ false
      → add_signed world ((f, p) ∷ ks) missing w k
        ≡ or_die 1
            (add_file_to_tarball world.tarball p f)
            w
            λ b. add_signed world ks missing (if b then w ++ added p f ∷ [] else w) k
  unfolding add_signed
  add_signed_found h = ground (arith, h)

module _ (world : World) (P : Run → Type 0) (died : (w : List Effect) → P (exit 1, w))
    (crashed : (w : List Effect) → P (crash, w))
    (files : (p : String) (i : FileInfo) → world.tarball.stat p ≡ ok i → i.is_dir ≡ false) where
  pub add_signed-post :
      (ks : Dict String) (missing : Bool) (w : List Effect) (k : Bool → List Effect → Run)
      → ((b : Bool) (v : List Effect)
          → More w v
          → (missing ≡ true → b ≡ true)
          → (b ≡ false → All (IsAdded v) ks)
          → P (k b v))
      → P (add_signed world ks missing w k)
  unfolding add_signed More
  add_signed-post [] missing w k h = h missing w (λ e i. i) (λ m. m) (λ _. tt)
  add_signed-post ((f, p) ∷ ks) missing w k h = elim (Bool-cases (p == not_found_yet)) [
    | inl e ↦ rw (add_signed_missed world f p ks missing w k e) (
        add_signed-post ks true w k
          λ b v more m a. h b v more (λ _. m refl) (λ no. absurd (false_ne_true (sym no ∙ m refl))))
    | inr e ↦ rw (add_signed_found world f p ks missing w k e) (
        or_die-post P 1 (add_file_to_tarball world.tarball p f) w _ (died w) (crashed w) λ b made.
          rw (add_file_to_tarball-written world.tarball p f b (files p) made) (
            add_signed-post ks missing (w ++ added p f ∷ []) k λ b v more m a.
              h b v (λ x i. more x (In-left x w (added p f ∷ []) i)) m
                (λ no. ((e, more (added p f) (In-last (added p f) w)), a no))))
  ]

-- what is listed is found in the map
pub All-lookup :
    (Q : String × String → Type 0) (f p : String) (m : Dict String)
    → All Q m
    → lookup f m ≡ some p
    → Q (f, p)
unfolding lookup
All-lookup Q f p [] h e = cc
All-lookup Q f p ((j, q) ∷ m) (s, h) e = elim (Bool-cases (j == f)) [
  | inl same ↦
      let name : j ≡ f = (eq_iff j f).0 same in
      let path : q ≡ p = ground (arith, e, same) in rw (← name, ← path) s
  | inr other ↦ All-lookup Q f p m h (ground (arith, e, other))
]
