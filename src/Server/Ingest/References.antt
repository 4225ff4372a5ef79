-- ===== src/Server/Ingest/References.antt =====
-- The check of the foreign keys, as a statement about every node.
use sto.Prelude.{ℕ, ◌≡◌, refl, Bool, true, false, ◌&&◌, Option, none, some, [], ◌∷◌, Map, All, has}
use sto.Defs.{StackNode}
use sto.Defs.References.{ParentIn, ParentIn-mono}
use sto.Server.Db.{Db, Refers, references, parent_known, all_refer}

&&-split : (a b : Bool) → a && b ≡ true → (a ≡ true) × (b ≡ true)
&&-split true b h = (refl, h)
&&-split false b h = cc

&&-both : (a b : Bool) → a ≡ true → b ≡ true → a && b ≡ true
&&-both true b ha hb = hb
&&-both false b ha hb = cc

parent_known→ParentIn :
    (m : Map StackNode) (p : Option ℕ) → parent_known m p ≡ true → ParentIn (has m) p
parent_known→ParentIn m none h = tt
parent_known→ParentIn m (some p) h = h

ParentIn→parent_known :
    (m : Map StackNode) (p : Option ℕ) → ParentIn (has m) p → parent_known m p ≡ true
ParentIn→parent_known m none h = refl
ParentIn→parent_known m (some p) h = h

pub references→Refers : (db : Db) (n : StackNode) → references db n ≡ true → Refers db n
references→Refers db n h =
    let (parent, rest) = &&-split (parent_known db.nodes n.parent_id) _ h in
    let (data_known, exe_known) = &&-split (has db.datas n.stack_node_data_id) _ rest in
    (parent_known→ParentIn db.nodes n.parent_id parent, data_known, exe_known)

pub Refers→references : (db : Db) (n : StackNode) → Refers db n → references db n ≡ true
Refers→references db n h =
    &&-both _ _ (ParentIn→parent_known db.nodes n.parent_id h.0) (&&-both _ _ h.1 h.2)

pub all_refer→All :
    (db : Db) (m : Map StackNode)
    → all_refer db m ≡ true
    → All (λ (e : ℕ × StackNode). Refers db e.1) m
unfolding all_refer
all_refer→All db [] h = tt
all_refer→All db ((k, n) ∷ m) h =
    let (one, rest) = &&-split (references db n) (all_refer db m) h in
    (references→Refers db n one, all_refer→All db m rest)

pub All→all_refer :
    (db : Db) (m : Map StackNode)
    → All (λ (e : ℕ × StackNode). Refers db e.1) m
    → all_refer db m ≡ true
unfolding all_refer
All→all_refer db [] h = refl
All→all_refer db ((k, n) ∷ m) h =
    &&-both (references db n) (all_refer db m) (Refers→references db n h.0) (All→all_refer db m h.1)

-- A database that knows more keys satisfies what one that knows fewer does.
pub Refers-mono :
    (db db' : Db) (n : StackNode)
    → ((k : ℕ) → has db.nodes k ≡ true → has db'.nodes k ≡ true)
    → ((k : ℕ) → has db.datas k ≡ true → has db'.datas k ≡ true)
    → ((k : ℕ) → has db.executables k ≡ true → has db'.executables k ≡ true)
    → Refers db n
    → Refers db' n
Refers-mono db db' n f g k h = (
  ParentIn-mono (has db.nodes) (has db'.nodes) n.parent_id f h.0,
  g n.stack_node_data_id h.1,
  k n.executable_id h.2,
)
