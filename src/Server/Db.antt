-- ===== src/Server/Db.antt =====
-- The three tables of migrations/20230305040305_init.up.sql, with their constraints. A table is
-- a map from its primary key; the generated column `search_col` is left out.
use sto.Prelude.{
  ℕ, ◌≡◌, refl, arith, Bool, true, false, ◌&&◌, ◌||◌, Option, none, some, List, [], ◌∷◌, ◌==◌, Map,
  has,
}
use sto.Defs.{Text, Executable, StackNode, StackNodeData}
use sto.Defs.References.{RefersTo}

pub record Db : Type 0 where
  pub datas : Map StackNodeData
  pub executables : Map Executable
  pub nodes : Map StackNode

abbrev pub empty : Db
empty = record { datas = []; executables = []; nodes = [] }

unfoldable pub text_eq : Text → Text → Bool
text_eq [] [] = true
text_eq (c ∷ s) (d ∷ t) = (c == d) && text_eq s t
text_eq _ _ = false

pub text_eq_sound : (s t : Text) → text_eq s t ≡ true → s ≡ t
unfolding text_eq
text_eq_sound [] [] h = refl
text_eq_sound [] (d ∷ t) h = cc
text_eq_sound (c ∷ s) [] h = cc
text_eq_sound (c ∷ s) (d ∷ t) h = ground (arith, text_eq_sound s t)

-- `=` of SQL on two columns that may be null, in a unique index: null is like nothing.
abbrev pub opt_text_eq : Option Text → Option Text → Bool
opt_text_eq (some s) (some t) = text_eq s t
opt_text_eq _ _ = false

abbrev pub opt_eq : Option ℕ → Option ℕ → Bool
opt_eq (some a) (some b) = a == b
opt_eq _ _ = false

-- create unique index on stack_node_data (symbol, file, line_number)
unfoldable pub same_content : StackNodeData → StackNodeData → Bool
same_content a b =
    text_eq a.symbol b.symbol && (opt_text_eq a.file b.file && opt_eq a.line_number b.line_number)

unfoldable pub clashes : StackNodeData → List StackNodeData → Bool
clashes row [] = false
clashes row (old ∷ olds) = same_content row old || clashes row olds

-- `references stack_node (id)` of a column that may be null
abbrev pub parent_known : Map StackNode → Option ℕ → Bool
parent_known nodes none = true
parent_known nodes (some p) = has nodes p

-- The foreign keys of a row of stack_node.
abbrev pub references : Db → StackNode → Bool
references db n =
    parent_known db.nodes n.parent_id
    && (has db.datas n.stack_node_data_id && has db.executables n.executable_id)

unfoldable pub all_refer : Db → Map StackNode → Bool
all_refer db [] = true
all_refer db ((k, n) ∷ m) = references db n && all_refer db m

-- What is checked when a transaction commits: the constraints are deferred.
abbrev pub references_hold : Db → Bool
references_hold db = all_refer db db.nodes

-- The same as a statement.
abbrev pub Refers : Db → StackNode → Type 0
Refers db = RefersTo (has db.nodes) (has db.datas) (has db.executables)
