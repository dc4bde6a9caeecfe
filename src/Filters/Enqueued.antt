-- ===== src/Filters/Enqueued.antt =====
-- Which objects an event on a node or a cluster asks for.
use rh_kernel_module_managem.Prelude.{
  String, ◌≡◌, refl, true, false, List, [], ◌∷◌, ◌++◌, filter, All, arith,
}
use rh_kernel_module_managem.Prelude.Dict.{Dict}
use rh_kernel_module_managem.Filters.{Selectors, all_valid, find_matching}

module _ {A : Type 0} (s : Selectors) (selector : A → Dict String) (labels : Dict String) where
  -- Where the selectors of `xs` are valid and that of the object behind them is not, the objects of
  -- `xs` that select the labels are found, in their order; that object and all behind it are not,
  -- whatever they select.
  pub find_matching-append :
      (xs : List A) (bad : A) (ys : List A)
      → All (λ x. all_valid s (selector x) ≡ true) xs
      → all_valid s (selector bad) ≡ false
      → (find_matching s selector labels xs ≡ filter (λ x. s.matches (selector x) labels) xs)
        × (find_matching s selector labels (xs ++ bad ∷ ys)
            ≡ filter (λ x. s.matches (selector x) labels) xs)
  unfolding find_matching
  find_matching-append [] bad ys h b = (refl, ground (arith, b))
  find_matching-append (x ∷ xs) bad ys (v, h) b =
      let (all, cut) = find_matching-append xs bad ys h b in
      (ground (arith, v, all), ground (arith, v, cut))
