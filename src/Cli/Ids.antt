-- ===== src/Cli/Ids.antt =====
-- Identifiers by content: `misc_id`, `id_stack_node` and `id_data` of src/bin/cli.rs. The hash
-- function (crate highway) and the concurrent caches (crate moka) are parameters.
pub mod Message
pub mod Transparent
pub mod Range
use sto.Prelude.{ℕ, ◌+◌, ◌^◌, ◌<◌, ◌≡◌, ◌⊎◌, Option, none, some, List, [], ◌∷◌, ◌++◌}
use sto.Words.{to_be_bytes, abs_i64}
use sto.Text.{as_bytes}
use sto.Defs.{Text, StackNode, StackNodeData}

-- `HighwayHasher`: `new(HASHER_SEED)`, `append` and `finalize64`.
pub record Hasher : Type 1 where
  pub State : Type 0
  pub new : State
  pub append : List ℕ → State → State
  pub finalize64 : State → ℕ

-- Its documentation: only the concatenation of what is appended counts, and a digest is a `u64`.
pub record HasherLaws (h : Hasher) : Type 0 where
  pub append_append :
      (xs ys : List ℕ) (s : h.State) → h.append ys (h.append xs s) ≡ h.append (xs ++ ys) s
  pub finalize64_word : (s : h.State) → h.finalize64 s < 2 ^ 64

-- A `moka` cache: it may forget an entry at any call, and never invents one. `Holds s k v` says
-- that state `s` may answer `v` for `k`.
pub record Cache (K V : Type 0) : Type 1 where
  pub State : Type 0
  pub Holds : State → K → V → Type 0
  pub get : K → State → Option V × State
  pub insert : K → V → State → State

pub record CacheLaws {K V : Type 0} (c : Cache K V) : Type 0 where
  pub get_holds : (k : K) (s : c.State) (v : V) → (c.get k s).0 ≡ some v → c.Holds s k v
  pub get_keeps : (k j : K) (s : c.State) (v : V) → c.Holds (c.get k s).1 j v → c.Holds s j v
  pub insert_holds :
      (k j : K) (s : c.State) (v w : V)
      → c.Holds (c.insert k v s) j w
      → c.Holds s j w ⊎ ((k ≡ j) × (v ≡ w))

-- Look a key up; compute and store the value on a miss. Each of the three functions below, and
-- `cached_demangle`, is this `match` around a computation of its own.
unfoldable pub answer :
    {K V : Type 0} (c : Cache K V) (f : K → V) → K → Option V × c.State → V × c.State
answer c f k (some hit, s) = (hit, s)
answer c f k (none, s) = (f k, c.insert k (f k) s)

unfoldable pub cached : {K V : Type 0} (c : Cache K V) (f : K → V) → K → c.State → V × c.State
unfolding answer
cached c f k s = answer c f k (c.get k s)

module _ (h : Hasher) where
  open h use {State, new, append, finalize64}

  -- hasher.finalize64() as i64, then abs()
  unfoldable pub to_id : State → ℕ
  to_id s = abs_i64 (finalize64 s)

  -- The `None` arm of `misc_id`.
  unfoldable pub hash_misc : Text → ℕ
  unfolding to_id
  hash_misc text = to_id (append (as_bytes text) new)

  -- `if let Some(parent_id) = data.parent_id { hasher.append(..) }`
  unfoldable pub append_parent : Option ℕ → State → State
  append_parent none s = s
  append_parent (some parent_id) s = append (to_be_bytes 8 parent_id) s

  -- The `None` arm of `id_stack_node`.
  unfoldable pub hash_node : StackNode → ℕ
  unfolding to_id append_parent
  hash_node node = to_id (
      append (to_be_bytes 8 node.executable_id)
        (append (to_be_bytes 8 node.stack_node_data_id) (append_parent node.parent_id new)))

  unfoldable pub append_file : Option Text → State → State
  append_file none s = s
  append_file (some file) s = append (as_bytes file) s

  unfoldable pub append_line : Option ℕ → State → State
  append_line none s = s
  append_line (some line_number) s = append (to_be_bytes 4 line_number) s

  -- The `None` arm of `id_data`.
  unfoldable pub hash_data : StackNodeData → ℕ
  unfolding to_id append_file append_line
  hash_data node =
      to_id
        (append_line node.line_number (append_file node.file (append (as_bytes node.symbol) new)))

  module _ (c : Cache Text ℕ) where
    unfoldable pub misc_id : Text → c.State → ℕ × c.State
    unfolding cached hash_misc
    misc_id = cached c hash_misc

  module _ (c : Cache StackNode ℕ) where
    unfoldable pub id_stack_node : StackNode → c.State → StackNode × c.State
    unfolding cached hash_node
    id_stack_node node s = let (id, s') = cached c hash_node node s in (record node { id = id }, s')

  module _ (c : Cache StackNodeData ℕ) where
    unfoldable pub id_data : StackNodeData → c.State → StackNodeData × c.State
    unfolding cached hash_data
    id_data node s = let (id, s') = cached c hash_data node s in (record node { id = id }, s')
