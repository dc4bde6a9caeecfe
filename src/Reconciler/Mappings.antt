-- ===== src/Reconciler/Mappings.antt =====
-- `getRelevantKernelMappingsAndNodes`: the cache of mappings is transparent.
use rh_kernel_module_managem.Prelude.{
  String, ◌≡◌, refl, Bool, true, false, eq_iff, Option, none, some, List, [], ◌∷◌, arith, filter,
  map, mem, is_some, if◌then◌else◌, All,
}
use rh_kernel_module_managem.Prelude.Dict.{Dict, lookup, insert, lookup-insert}
use rh_kernel_module_managem.Api.{Node, ModuleLoaderData, Result, ok, err, panic, is_ok}
use rh_kernel_module_managem.Reconciler.{kernel_of, get_relevant_kernel_mappings_and_nodes}

abbrev pub to_option : Result ModuleLoaderData → Option ModuleLoaderData
to_option (ok mld) = some mld
to_option _ = none

abbrev pub no_panic : Result ModuleLoaderData → Bool
no_panic panic = false
no_panic _ = true

module _ (get : String → Result ModuleLoaderData) where
  abbrev pub has_mapping : Node → Bool
  has_mapping n = is_ok (get (kernel_of n))

  -- Computing the mapping panics for no kernel of the nodes.
  abbrev pub NoPanic : List Node → Type 0
  NoPanic nodes = All (λ n. no_panic (get (kernel_of n)) ≡ true) nodes

  -- The cache holds what `get` answers.
  abbrev Cached : Dict ModuleLoaderData → Type 0
  Cached mappings =
      (k : String) (mld : ModuleLoaderData) → lookup k mappings ≡ some mld → get k ≡ ok mld

  Cached-insert :
      (k : String) (mld : ModuleLoaderData) (mappings : Dict ModuleLoaderData)
      → get k ≡ ok mld
      → Cached mappings
      → Cached (insert k mld mappings)
  Cached-insert k mld mappings g c j mld' h =
      ground (arith, g, h, c j mld', lookup-insert k j mld mappings, eq_iff k j)

  -- What is found from a cache: the nodes that have a mapping, and for each kernel either what the
  -- cache held or what `get` answers.
  abbrev Finds : Dict ModuleLoaderData → List Node → Type 0
  Finds mappings nodes =
      (m : Dict ModuleLoaderData) × (get_relevant_kernel_mappings_and_nodes get mappings nodes
        ≡ ok (m, filter has_mapping nodes))
      × ((k : String)
          → lookup k m ≡ (
              if is_some (lookup k mappings)
              then lookup k mappings
              else if mem k (map kernel_of nodes)
              then to_option (get k)
              else none))

  finds :
      (mappings : Dict ModuleLoaderData) (nodes : List Node)
      → NoPanic nodes
      → Cached mappings
      → Finds mappings nodes
  unfolding get_relevant_kernel_mappings_and_nodes
  finds mappings [] np c = (mappings, refl, λ k. ground arith)
  finds mappings (node ∷ nodes) (p, np) c =
      cached (λ ms. finds ms nodes np) (lookup (kernel_of node) mappings) refl
    where
      fresh :
          ((ms : Dict ModuleLoaderData) → Cached ms → Finds ms nodes)
          → (r : Result ModuleLoaderData) → get (kernel_of node) ≡ r
          → lookup (kernel_of node) mappings ≡ none
          → Finds mappings (node ∷ nodes)
      fresh rest (ok mld) g l =
          let (m, e, f) =
            rest (insert (kernel_of node) mld mappings)
              (Cached-insert (kernel_of node) mld mappings g c) in
          (
            m,
            ground (arith, l, g, e),
            λ k. ground (
              arith,
              g,
              l,
              f k,
              lookup-insert (kernel_of node) k mld mappings,
              eq_iff (kernel_of node) k,
            ),
          )
      fresh rest (err x) g l =
          let (m, e, f) = rest mappings c in
          (m, ground (arith, l, g, e), λ k. ground (arith, g, l, f k, eq_iff (kernel_of node) k))
      fresh rest panic g l = ground (arith, g, p)

      cached :
          ((ms : Dict ModuleLoaderData) → Cached ms → Finds ms nodes)
          → (o : Option ModuleLoaderData) → lookup (kernel_of node) mappings ≡ o
          → Finds mappings (node ∷ nodes)
      cached rest (some mld) l =
          let (m, e, f) = rest mappings c in
          (
            m,
            ground (arith, l, e, c (kernel_of node) mld l),
            λ k. ground (arith, l, f k, eq_iff (kernel_of node) k),
          )
      cached rest none l = fresh rest (get (kernel_of node)) refl l

  -- If no mapping panics, the nodes found are those whose kernel has a mapping, in their order, and
  -- the map holds for each kernel of the nodes, and for no other, the data of that kernel.
  pub get_relevant_kernel_mappings_and_nodes_lem :
      (nodes : List Node)
      → NoPanic nodes
      → (m : Dict ModuleLoaderData) × (get_relevant_kernel_mappings_and_nodes get [] nodes
          ≡ ok (m, filter has_mapping nodes))
        × ((k : String)
            → lookup k m ≡ (if mem k (map kernel_of nodes) then to_option (get k) else none))
  unfolding lookup
  get_relevant_kernel_mappings_and_nodes_lem nodes np =
      let (m, e, f) = finds [] nodes np (λ k mld h. cc) in (m, e, λ k. f k)
