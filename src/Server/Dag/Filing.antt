-- ===== src/Server/Dag/Filing.antt =====
-- `sn_p_id_map` files every node that has a parent exactly once.
use mathlib.Core.Path.{subst}
use mathlib.Core.List.{append-nil}
use mathlib.Core.Option
use sto.Prelude.{
  ℕ, ◌+◌, ◌≡◌, refl, sym, ap, ◌∙◌, true, false, Option, none, some, List, [], ◌∷◌, ◌++◌, map,
  append_assoc, arith, ◌==◌, ==_iff, if◌then◌else◌, Bool-cases, inl, inr, Map, get, upsert,
  get-upsert, has, has-upsert, All, sum_of, sum_of-append, member, ids, DistinctIds,
}
use sto.Defs.{StackNode}
use sto.Defs.References.{ParentIn}
use sto.Server.Dag.{node_map, by_parent, file_under, roots, keep_root}
use sto.Server.Dag.Weight.{listed}

abbrev pub entries : List StackNode → Map StackNode
entries = map (λ (n : StackNode). (n.id, n))

abbrev pub node_ids : List StackNode → List ℕ
node_ids = ids (λ (n : StackNode). n.id)

pub upsert_new {ℓ} :
    {V : Type ℓ} (k : ℕ) (f : V → V) (v : V) (m : Map V)
    → has m k ≡ false
    → upsert k f v m ≡ m ++ (k, v) ∷ []
unfolding upsert has
upsert_new k f v [] h = refl
upsert_new k f v ((j, w) ∷ m) h = ground (arith, upsert_new k f v m)

-- The rows that are still to come stay new.
pub new_rows :
    (f : StackNode → StackNode) (n : StackNode) (ns : List StackNode) (m : Map StackNode)
    → member (node_ids ns) n.id ≡ false
    → All (λ (x : StackNode). has m x.id ≡ false) ns
    → All (λ (x : StackNode). has (upsert n.id f n m) x.id ≡ false) ns
unfolding member
new_rows f n [] m h all = tt
new_rows f n (x ∷ ns) m h all =
    (ground (arith, has-upsert n.id x.id f n m), new_rows f n ns m (ground arith) all.1)

node_map-entries :
    (ns : List StackNode) (m : Map StackNode)
    → DistinctIds (node_ids ns)
    → All (λ (x : StackNode). has m x.id ≡ false) ns
    → node_map ns m ≡ m ++ entries ns
unfolding node_map
node_map-entries [] m d h = sym (append-nil m)
node_map-entries (n ∷ ns) m d h =
    node_map-entries ns (upsert n.id (λ _. n) n m) d.1 (new_rows (λ _. n) n ns m d.0 h.1)
    ∙ ap (λ t. t ++ entries ns) (upsert_new n.id (λ _. n) n m h.0)
    ∙ append_assoc m ((n.id, n) ∷ []) (entries ns)

pub nothing_stored :
    (ns : List StackNode) → All (λ (x : StackNode). has {V = StackNode} [] x.id ≡ false) ns
unfolding has
nothing_stored [] = tt
nothing_stored (n ∷ ns) = (refl, nothing_stored ns)

-- `sn_id_map` has an entry for each row.
pub node_map-entries_all :
    (ns : List StackNode) → DistinctIds (node_ids ns) → node_map ns [] ≡ entries ns
node_map-entries_all ns d = node_map-entries ns [] d (nothing_stored ns)

module _ (G : StackNode → ℕ) where
  -- What is filed under the identifiers of `keys`
  abbrev pub filed : List StackNode → Map (List StackNode) → ℕ
  filed keys acc = sum_of (λ n. listed G (get acc n.id)) keys

  -- What a node adds to the entry j.
  abbrev share : StackNode → ℕ → ℕ → ℕ
  share v p j = if p == j then G v else 0

  listed-upsert :
      (v : StackNode) (p j : ℕ) (acc : Map (List StackNode))
      → listed G (get (upsert p (λ e. e ++ v ∷ []) (v ∷ []) acc) j)
        ≡ listed G (get acc j) + share v p j
  listed-upsert v p j acc = elim (Bool-cases (p == j)) [
    | inl same ↦
        rw (get-upsert p j (λ e. e ++ v ∷ []) (v ∷ []) acc, same)
          (at_entry (get acc p) ∙ ap (λ i. listed G (get acc i) + G v) ((==_iff p j).0 same))
    | inr other ↦ rw (get-upsert p j (λ e. e ++ v ∷ []) (v ∷ []) acc, other) (omega arith)
  ]
    where
      at_entry :
          (o : Option (List StackNode))
          → sum_of G (Option.get_or (Option.map (λ e. e ++ v ∷ []) o) (v ∷ [])) ≡ listed G o + G v
      at_entry none = omega arith
      at_entry (some ns) = omega (arith, sum_of-append G ns (v ∷ []))

  -- Only one of distinct keys has it.
  shares_none :
      (v : StackNode) (p : ℕ) (keys : List StackNode)
      → member (node_ids keys) p ≡ false
      → sum_of (λ n. share v p n.id) keys ≡ 0
  unfolding member
  shares_none v p [] h = refl
  shares_none v p (n ∷ keys) h = ground (arith, shares_none v p keys)

  shares :
      (v : StackNode) (p : ℕ) (keys : List StackNode)
      → DistinctIds (node_ids keys)
      → member (node_ids keys) p ≡ true
      → sum_of (λ n. share v p n.id) keys ≡ G v
  unfolding member
  shares v p [] d h = cc
  shares v p (n ∷ keys) d h = elim (Bool-cases (p == n.id)) [
    | inl same ↦
        let unseen : member (node_ids keys) p ≡ false =
          subst (λ (j : ℕ). member (node_ids keys) j ≡ false) (sym ((==_iff p n.id).0 same)) d.0 in
        rw same (omega (arith, shares_none v p keys unseen))
    | inr other ↦ rw other (omega (arith, shares v p keys d.1 (ground arith)))
  ]

  filed-upsert :
      (v : StackNode) (p : ℕ) (keys : List StackNode) (acc : Map (List StackNode))
      → filed keys (upsert p (λ e. e ++ v ∷ []) (v ∷ []) acc)
        ≡ filed keys acc + sum_of (λ n. share v p n.id) keys
  filed-upsert v p [] acc = refl
  filed-upsert v p (n ∷ keys) acc =
      omega (arith, listed-upsert v p n.id acc, filed-upsert v p keys acc)

  abbrev under_parent : StackNode → Option ℕ → ℕ
  under_parent n none = 0
  under_parent n (some p) = G n

  abbrev pub filed_once : List StackNode → ℕ
  filed_once = sum_of (λ n. under_parent n n.parent_id)

  module _ (keys : List StackNode) (distinct : DistinctIds (node_ids keys)) where
    filed-file_under :
        (v : StackNode) (o : Option ℕ) (acc : Map (List StackNode))
        → ParentIn (member (node_ids keys)) o
        → filed keys (file_under v o acc) ≡ filed keys acc + under_parent v o
    unfolding file_under
    filed-file_under v none acc h = omega arith
    filed-file_under v (some p) acc h =
        omega (arith, filed-upsert v p keys acc, shares v p keys distinct h)

    pub filed-by_parent :
        (ns : List StackNode) (acc : Map (List StackNode))
        → All (λ (n : StackNode). ParentIn (member (node_ids keys)) n.parent_id) ns
        → filed keys (by_parent (entries ns) acc) ≡ filed keys acc + filed_once ns
    unfolding by_parent
    filed-by_parent [] acc h = omega arith
    filed-by_parent (n ∷ ns) acc h = omega (
      arith,
      filed-file_under n n.parent_id acc h.0,
      filed-by_parent ns (file_under n n.parent_id acc) h.1,
    )

  -- The nodes without a parent are the others.
  pub sum_of-roots : (ns : List StackNode) → sum_of G ns ≡ sum_of G (roots ns) + filed_once ns
  unfolding roots
  sum_of-roots [] = refl
  sum_of-roots (n ∷ ns) = omega (arith, kept n.parent_id (roots ns), sum_of-roots ns)
    where
      kept :
          (o : Option ℕ) (rest : List StackNode)
          → sum_of G (keep_root n o rest) + under_parent n o ≡ G n + sum_of G rest
      kept none rest = omega arith
      kept (some p) rest = omega arith
