-- ===== src/Defs/References.antt =====
-- The references between the rows of `StoData` (src/defs.rs), which the tables of the database
-- check (migrations/20230305040305_init.up.sql).
use sto.Prelude.{ℕ, ◌≡◌, ◌∙◌, Bool, true, Option, none, some, All, member, ids, DistinctIds}
use sto.Defs.{StackNode, StoData}

abbrev pub ParentIn : (ℕ → Bool) → Option ℕ → Type 0
ParentIn known none = Unit
ParentIn known (some p) = known p ≡ true

-- The references of a node, in terms of what is known.
abbrev pub RefersTo : (ℕ → Bool) → (ℕ → Bool) → (ℕ → Bool) → StackNode → Type 0
RefersTo nodes datas executables n =
    ParentIn nodes n.parent_id
    × (datas n.stack_node_data_id ≡ true)
    × (executables n.executable_id ≡ true)

pub ParentIn-mono :
    (known known' : ℕ → Bool) (p : Option ℕ)
    → ((k : ℕ) → known k ≡ true → known' k ≡ true)
    → ParentIn known p
    → ParentIn known' p
ParentIn-mono known known' none f h = tt
ParentIn-mono known known' (some p) f h = f p h

-- What the server is handed: no identifier twice, and no reference to anything that is not there.
pub record IsClosedData (d : StoData) : Type 0 where
  pub nodes :
      All
        (RefersTo
          (member (ids (λ n. n.id) d.stack_nodes))
          (member (ids (λ n. n.id) d.stack_node_datas))
          (member (ids (λ e. e.id) d.profiled_binaries)))
        d.stack_nodes
  pub distinct_nodes : DistinctIds (ids (λ n. n.id) d.stack_nodes)
  pub distinct_datas : DistinctIds (ids (λ n. n.id) d.stack_node_datas)
  pub distinct_executables : DistinctIds (ids (λ e. e.id) d.profiled_binaries)

pub ParentIn-eq :
    (known known' : ℕ → Bool) (p : Option ℕ)
    → ((k : ℕ) → known' k ≡ known k)
    → ParentIn known p
    → ParentIn known' p
ParentIn-eq known known' none f h = tt
ParentIn-eq known known' (some p) f h = f p ∙ h
