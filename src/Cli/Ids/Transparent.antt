-- ===== src/Cli/Ids/Transparent.antt =====
-- The caches change no result: a cached call returns what the computation returns.
use sto.Prelude.{◌≡◌, refl, sym, ◌∙◌, inl, inr, Option, none, some, ℕ, ap}
use sto.Cli.Ids.{
  Hasher, Cache, CacheLaws, answer, cached, hash_node, hash_data, id_stack_node, id_data,
}
use sto.Defs.{StackNode, StackNodeData}

-- A state of the cache is valid for `f` if every answer that it may give is a value of `f`.
abbrev pub IsValid : {K V : Type 0} (c : Cache K V) (f : K → V) → c.State → Type 0
IsValid {K} {V} c f s = (k : K) (v : V) → c.Holds s k v → v ≡ f k

module _ {K V : Type 0} (c : Cache K V) (laws : CacheLaws c) (f : K → V) where
  insert-IsValid : (k : K) (s : c.State) → IsValid c f s → IsValid c f (c.insert k (f k) s)
  insert-IsValid k s valid j w holds = elim (laws.insert_holds k j s (f k) w holds) [
    | inl old ↦ valid j w old
    | inr (same, value) ↦ sym value ∙ ap f same
  ]

  answer-IsValid :
      (k : K) (r : Option V × c.State)
      → IsValid c f r.1
      → ((v : V) → r.0 ≡ some v → v ≡ f k)
      → ((answer c f k r).0 ≡ f k) × IsValid c f (answer c f k r).1
  unfolding answer
  answer-IsValid k (some hit, s) valid right = (right hit refl, valid)
  answer-IsValid k (none, s) valid right = (refl, insert-IsValid k s valid)

  -- On a valid state a cached call returns the value of `f`, and leaves a valid state.
  pub cached-IsValid :
      (k : K) (s : c.State)
      → IsValid c f s
      → ((cached c f k s).0 ≡ f k) × IsValid c f (cached c f k s).1
  unfolding cached
  cached-IsValid k s valid =
      answer-IsValid k (c.get k s) (λ j v holds. valid j v (laws.get_keeps k j s v holds))
        (λ v hit. valid k v (laws.get_holds k s v hit))

module _ (h : Hasher) where
  module _ (c : Cache StackNode ℕ) (laws : CacheLaws c) where
    -- Whatever the cache has kept or forgotten, `id_stack_node` sets the identifier that hashing
    -- the node gives and no other field, and leaves the cache valid.
    pub id_stack_node-hash_node :
        (node : StackNode) (s : c.State)
        → IsValid c (hash_node h) s
        → ((id_stack_node h c node s).0 ≡ record node { id = hash_node h node })
          × IsValid c (hash_node h) (id_stack_node h c node s).1
    unfolding id_stack_node
    id_stack_node-hash_node node s valid =
        let (value, valid') = cached-IsValid c laws (hash_node h) node s valid in
        (ap (λ (i : ℕ). record node { id = i }) value, valid')

  module _ (c : Cache StackNodeData ℕ) (laws : CacheLaws c) where
    -- The same of `id_data`.
    pub id_data-hash_data :
        (node : StackNodeData) (s : c.State)
        → IsValid c (hash_data h) s
        → ((id_data h c node s).0 ≡ record node { id = hash_data h node })
          × IsValid c (hash_data h) (id_data h c node s).1
    unfolding id_data
    id_data-hash_data node s valid =
        let (value, valid') = cached-IsValid c laws (hash_data h) node s valid in
        (ap (λ (i : ℕ). record node { id = i }) value, valid')
