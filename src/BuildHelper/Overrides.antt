-- ===== src/BuildHelper/Overrides.antt =====
-- `ApplyBuildArgOverrides`: which value a name has in the result.
use rh_kernel_module_managem.Prelude.{
  String, ◌≡◌, refl, true, ◌&&◌, ◌||◌, not, Option, none, some, List, [], ◌∷◌, ◌++◌, arith, ◌==◌,
  eq_iff, eq_refl, if◌then◌else◌, is_some, sort_strings, insert_sorted, mem, Option-cases, inl, inr,
}
use rh_kernel_module_managem.Prelude.Dict.{Dict, lookup, insert, keys, lookup-insert}
use rh_kernel_module_managem.Api.{BuildArg}
use rh_kernel_module_managem.BuildHelper.{
  overrides_map, discard, override_each, append_unused, apply_build_arg_overrides,
}

-- the first argument of that name
abbrev pub find_arg : String → List BuildArg → Option BuildArg
find_arg n [] = none
find_arg n (a ∷ more) = if a.name == n then some a else find_arg n more

-- `o`, or else `d`
abbrev pub or_else {ℓ} : {A : Type ℓ} → Option A → Option A → Option A
or_else (some a) d = some a
or_else none d = d

-- the last argument of that name
abbrev pub last_arg : String → List BuildArg → Option BuildArg
last_arg n [] = none
last_arg n (a ∷ more) = or_else (last_arg n more) (if a.name == n then some a else none)

lookup-overrides_map :
    (n : String) (m : Dict BuildArg) (os : List BuildArg)
    → lookup n (overrides_map m os) ≡ or_else (last_arg n os) (lookup n m)
unfolding overrides_map
lookup-overrides_map n m [] = refl
lookup-overrides_map n m (o ∷ os) =
    ground (arith, lookup-overrides_map n (insert o.name o m) os, lookup-insert o.name n o m)

last_arg-name :
    (n : String) (os : List BuildArg) (o : BuildArg) → last_arg n os ≡ some o → o.name ≡ n
last_arg-name n [] o h = cc
last_arg-name n (a ∷ os) o h = ground (arith, last_arg-name n os o, eq_iff a.name n)

find_arg-append :
    (n : String) (xs ys : List BuildArg)
    → find_arg n (xs ++ ys) ≡ or_else (find_arg n xs) (find_arg n ys)
find_arg-append n [] ys = refl
find_arg-append n (x ∷ xs) ys = ground (arith, find_arg-append n xs ys)

mem-discard : (n k : String) (xs : List String) → mem n (discard k xs) ≡ (not (k == n) && mem n xs)
unfolding discard
mem-discard n k [] = ground arith
mem-discard n k (x ∷ xs) = ground (arith, mem-discard n k xs, eq_iff x k, eq_iff x n, eq_iff k n)

mem-keys : (n : String) (m : Dict BuildArg) → mem n (keys m) ≡ is_some (lookup n m)
unfolding keys lookup
mem-keys n [] = refl
mem-keys n ((k, v) ∷ m) = ground (arith, mem-keys n m)

mem-insert_sorted :
    (n x : String) (xs : List String) → mem n (insert_sorted x xs) ≡ (x == n || mem n xs)
unfolding insert_sorted
mem-insert_sorted n x [] = refl
mem-insert_sorted n x (y ∷ ys) = ground (arith, mem-insert_sorted n x ys)

pub mem-sort_strings : (n : String) (xs : List String) → mem n (sort_strings xs) ≡ mem n xs
unfolding sort_strings
mem-sort_strings n [] = refl
mem-sort_strings n (x ∷ xs) = rw (mem-insert_sorted, mem-sort_strings n xs)

-- Each entry stands under its own name, as in the map of the overrides.
abbrev IsNamed : Dict BuildArg → Type 0
IsNamed m = (k : String) (o : BuildArg) → lookup k m ≡ some o → o.name ≡ k

module _ (m : Dict BuildArg) (named : IsNamed m) (n : String) where
  find_arg-override_each :
      (args : List BuildArg) (unused : List String)
      → find_arg n (override_each m args unused).0
        ≡ (if is_some (find_arg n args) then or_else (lookup n m) (find_arg n args) else none)
  unfolding override_each
  find_arg-override_each [] unused = refl
  find_arg-override_each (a ∷ args) unused = elim (Option-cases (lookup a.name m)) [
    | inl e ↦ ground (arith, find_arg-override_each args unused, eq_iff a.name n, e)
    | inr (o, e) ↦ ground (
      arith,
      find_arg-override_each args (discard a.name unused),
      eq_iff a.name n,
      eq_iff o.name n,
      named a.name o e,
      e,
    )
  ]

  mem-override_each :
      (args : List BuildArg) (unused : List String)
      → is_some (lookup n m) ≡ true
      → mem n (override_each m args unused).1 ≡ (mem n unused && not (is_some (find_arg n args)))
  unfolding override_each
  mem-override_each [] unused h = ground arith
  mem-override_each (a ∷ args) unused h = elim (Option-cases (lookup a.name m)) [
    | inl e ↦ ground (arith, mem-override_each args unused h, eq_iff a.name n, e)
    | inr (x, e) ↦ ground (
      arith,
      mem-override_each args (discard a.name unused) h,
      eq_iff a.name n,
      mem-discard n a.name unused,
      e,
    )
  ]

  find_arg-append_unused :
      (names : List String)
      → ((k : String) → mem k names ≡ true → is_some (lookup k m) ≡ true)
      → find_arg n (append_unused m names) ≡ (if mem n names then lookup n m else none)
  unfolding append_unused
  find_arg-append_unused [] known = refl
  find_arg-append_unused (k ∷ names) known = elim (Option-cases (lookup k m)) [
    | inl e ↦ ground (arith, known k, e, eq_refl k)
    | inr (o, e) ↦ ground (
      arith,
      find_arg-append_unused names (λ j h. known j (ground arith)),
      named k o e,
      eq_iff k n,
      eq_iff o.name n,
      e,
    )
  ]

-- the names left over by the loop were unused before it
mem-override_each_unused :
    (m : Dict BuildArg) (n : String) (args : List BuildArg) (unused : List String)
    → mem n (override_each m args unused).1 ≡ true
    → mem n unused ≡ true
unfolding override_each
mem-override_each_unused m n [] unused h = h
mem-override_each_unused m n (a ∷ args) unused h = elim (Option-cases (lookup a.name m)) [
  | inl e ↦ mem-override_each_unused m n args unused (ground (arith, e))
  | inr (o, e) ↦ ground (
    arith,
    mem-override_each_unused m n args (discard a.name unused),
    mem-discard n a.name unused,
    e,
  )
]

overrides_map-IsNamed : (os : List BuildArg) → IsNamed (overrides_map [] os)
unfolding lookup
overrides_map-IsNamed os k o h = ground (arith, lookup-overrides_map k [] os, last_arg-name k os o)

module _ (n : String) (args overrides : List BuildArg) where
  abbrev m : Dict BuildArg
  m = overrides_map [] overrides

  abbrev unused : List String
  unused = (override_each m args (keys m)).1

  -- what is appended has a value in the map
  unused-known : (k : String) → mem k (sort_strings unused) ≡ true → is_some (lookup k m) ≡ true
  unused-known k h =
      let left = mem-override_each_unused m k args (keys m) in
      ground (arith, mem-keys k m, mem-sort_strings k unused, left)

  appended :
      find_arg n (append_unused m (sort_strings unused))
      ≡ (if mem n unused then lookup n m else none)
  appended = rw (
    find_arg-append_unused m (overrides_map-IsNamed overrides) n (sort_strings unused) unused-known,
    mem-sort_strings n unused,
  )

  -- In the result a name has the value of its last override, or else the value that it had.
  pub find_arg-apply_build_arg_overrides :
      find_arg n (apply_build_arg_overrides args overrides)
      ≡ or_else (last_arg n overrides) (find_arg n args)
  unfolding apply_build_arg_overrides lookup
  find_arg-apply_build_arg_overrides = rw find_arg-append (
      ground (
        arith,
        find_arg-override_each m (overrides_map-IsNamed overrides) n args (keys m),
        appended,
        mem-override_each m (overrides_map-IsNamed overrides) n args (keys m),
        mem-keys n m,
        lookup-overrides_map n [] overrides,
      ))
