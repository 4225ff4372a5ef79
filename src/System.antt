-- ===== src/System.antt =====
-- The tool and the server together: what src/bin/cli.rs posts, data_ingest of src/bin/server.rs
-- takes.
pub mod Traffic
pub mod Fresh
pub mod Drawn
use mathlib.Core.Path.{subst}
use sto.Prelude.{
  ℕ, ◌≤◌, ◌<◌, ◌≡◌, refl, sym, ap, ◌∙◌, true, Option, none, some, List, [], ◌∷◌, arith, All, length,
  sum_of, member, ids, get,
}
use sto.Defs.{Text, Args, Executable, StackNode, StackNodeData, StoData}
use sto.Defs.References.{IsClosedData, RefersTo}
use sto.Cli.Ids.{Hasher, CacheLaws, hash_data, hash_node}
use sto.Cli.Ids.Transparent.{IsValid}
use sto.Cli.Sink.{Tools, Sink, Stack, process_and_sink_data}
use sto.Cli.Sink.Addressed.{HasDataId, process-IsAddressed}
use sto.Cli.Sink.Counts.{frames_in, process-samples}
use sto.Cli.Sink.Posted.{process-IsClosedData}
use sto.Cli.Sink.Sizes.{process-sizes}
use sto.Cli.Sink.Tally.{process-executable}
use sto.Server.Db.{Db, empty, same_content, text_eq_sound, opt_text_eq, opt_eq}
use sto.Server.Ingest.{data_ingest}
use sto.Server.Ingest.Kept.{ExecutablesKept, IsKept}
use sto.Server.Ingest.Statements.{FitsNodes, FitsExecutables}
use sto.Server.Ingest.WellFormed.{empty-IsWellFormed}
use sto.Server.Ingest.Accepts.{data_ingest-accepts}

opt_text_eq_sound : (a b : Option Text) → opt_text_eq a b ≡ true → a ≡ b
opt_text_eq_sound none none h = refl
opt_text_eq_sound none (some y) h = cc
opt_text_eq_sound (some x) none h = cc
opt_text_eq_sound (some x) (some y) h = ap some (text_eq_sound x y h)

opt_eq_sound : (a b : Option ℕ) → opt_eq a b ≡ true → a ≡ b
opt_eq_sound none none h = refl
opt_eq_sound none (some y) h = cc
opt_eq_sound (some x) none h = cc
opt_eq_sound (some x) (some y) h = let same : x ≡ y = ground arith in ap some same

-- What the unique index takes for the same content has the same hash.
hash_data-content :
    (h : Hasher) (a b : StackNodeData) → same_content a b ≡ true → hash_data h a ≡ hash_data h b
unfolding hash_data same_content
hash_data-content h a b same =
    let symbol = text_eq_sound a.symbol b.symbol (ground arith) in
    let file = opt_text_eq_sound a.file b.file (ground arith) in
    let line = opt_eq_sound a.line_number b.line_number (ground arith) in
    rw (symbol, file, line) refl

-- A batch with a frame has a stack.
frames-stacks : (symlists : List (List Stack)) → 0 < frames_in symlists → 0 < sum_of length symlists
frames-stacks [] h = omega arith
frames-stacks ([] ∷ symlists) h = omega (arith, frames-stacks symlists (omega arith))
frames-stacks ((stack ∷ stacks) ∷ symlists) h = omega arith

counted-some :
    (ns : List StackNode) → 0 < sum_of (λ (n : StackNode). n.sample_count) ns → 0 < length ns
counted-some [] h = h
counted-some (n ∷ ns) h = omega arith

member-some {ℓ} :
    {V : Type ℓ} (id : V → ℕ) (vs : List V) (k : ℕ) → member (ids id vs) k ≡ true → 0 < length vs
unfolding member
member-some id [] k h = cc
member-some id (v ∷ vs) k h = omega arith

-- A closed batch with a node has node data.
data-some :
    (d : StoData) → IsClosedData d → 0 < length d.stack_nodes → 0 < length d.stack_node_datas
data-some d closed h = of_nodes d.stack_nodes closed.nodes h
  where
    of_nodes :
        (ns : List StackNode)
        → All
            (RefersTo
              (member (ids (λ n. n.id) d.stack_nodes))
              (member (ids (λ n. n.id) d.stack_node_datas))
              (member (ids (λ e. e.id) d.profiled_binaries)))
            ns
        → 0 < length ns
        → 0 < length d.stack_node_datas
    of_nodes [] refers some_node = absurd (omega arith)
    of_nodes (n ∷ ns) refers some_node =
        member-some (λ (x : StackNodeData). x.id) d.stack_node_datas n.stack_node_data_id refers.0.1

pub some-injective {ℓ} : {A : Type ℓ} (a b : A) → some a ≡ some b → a ≡ b
some-injective {A} a b e = ap (from a) e
  where
    from : A → Option A → A
    from x none = x
    from x (some y) = y

-- In an empty table nothing overflows.
all_FitsNodes : (ns : List StackNode) → All (FitsNodes []) ns
unfolding get
all_FitsNodes [] = tt
all_FitsNodes (n ∷ ns) = (λ old e. cc, all_FitsNodes ns)

all_FitsExecutables : (es : List Executable) → All (FitsExecutables []) es
unfolding get
all_FitsExecutables [] = tt
all_FitsExecutables (x ∷ es) = (λ old e. absurd cc, all_FitsExecutables es)

-- The batch makes up the database: each node and each node data is there as it was posted, and
-- each executable with its times set.
pub record IsWhole (clock : ℕ → ℕ) (created : ℕ) (d : StoData) (db : Db) : Type 0 where
  pub nodes : All (λ (n : StackNode). get db.nodes n.id ≡ some n) d.stack_nodes
  pub datas : All (λ (x : StackNodeData). get db.datas x.id ≡ some x) d.stack_node_datas
  pub executables : ExecutablesKept clock created 0 d.profiled_binaries [] db.executables

IsKept-IsWhole :
    (clock : ℕ → ℕ) (created : ℕ) (d : StoData) (db : Db)
    → IsKept clock created d empty db
    → IsWhole clock created d db
unfolding get
IsKept-IsWhole clock created d db h = record {
  nodes = h.nodes;
  datas = h.datas;
  executables = h.executables;
}

module _ (t : Tools) (data_laws : CacheLaws t.data_cache) (node_laws : CacheLaws t.node_cache) where
  -- The first batch that reaches a server with an empty database is stored whole: with a binary
  -- name, valid caches, and between 1 and 16383 frames, the tool does not panic, none of the
  -- three statements of the server fails on what the tool posts, and afterwards the database has
  -- each node and each node data as it was posted, and each executable with the time of the
  -- request as the time that it was updated and that of the database as that it was created.
  pub data_ingest-process :
      (symlists : List (List Stack)) (args : Args) (s : Sink t) (misc : t.misc_cache.State)
      (binary : Text) (clock : ℕ → ℕ) (created : ℕ)
      → args.binary ≡ some binary
      → IsValid t.data_cache (hash_data t.hasher) s.data_ids
      → IsValid t.node_cache (hash_node t.hasher) s.node_ids
      → 0 < frames_in symlists
      → frames_in symlists ≤ 16383
      → (r : StoData × Sink t × t.misc_cache.State) × (process_and_sink_data t symlists args s misc
          ≡ some r)
        × ((data_ingest clock created r.0 empty).1 ≡ true)
        × IsWhole clock created r.0 (data_ingest clock created r.0 empty).0
  data_ingest-process symlists args s misc binary clock created e dv nv some_frame few =
      let run = process_and_sink_data t symlists args s misc in
      let (r, posted, closed) = process-IsClosedData t symlists args s misc binary e in
      let (r₁, posted₁, counts) = process-samples t symlists args s misc binary e (omega arith) in
      let (r₂, posted₂, few_nodes, few_datas) = process-sizes t symlists args s misc binary e in
      let (r₃, x, posted₃, one, named, counted, sized, grown) =
        process-executable t symlists args s misc binary e (frames-stacks symlists some_frame) in
      let (r₄, posted₄, addressed, nodes_addressed, left) =
        process-IsAddressed t data_laws node_laws symlists args s misc binary e dv nv in
      let counts' : sum_of (λ (n : StackNode). n.sample_count) r.0.stack_nodes
          ≡ frames_in symlists =
        ap (λ q. sum_of (λ (n : StackNode). n.sample_count) q.0.stack_nodes)
          (some-injective r r₁ (sym posted ∙ posted₁))
        ∙ counts in
      let nodes_le : length r.0.stack_nodes ≤ frames_in symlists =
        subst (λ q. length q.0.stack_nodes ≤ frames_in symlists)
          (some-injective r₂ r (sym posted₂ ∙ posted)) few_nodes in
      let datas_le : length r.0.stack_node_datas ≤ frames_in symlists =
        subst (λ q. length q.0.stack_node_datas ≤ frames_in symlists)
          (some-injective r₂ r (sym posted₂ ∙ posted)) few_datas in
      let single : length r.0.profiled_binaries ≡ 1 =
        ap (λ q. length q.0.profiled_binaries) (some-injective r r₃ (sym posted ∙ posted₃))
        ∙ ap length one in
      let hashed : All (HasDataId t) r.0.stack_node_datas =
        subst (λ q. All (HasDataId t) q.0.stack_node_datas)
          (some-injective r₄ r (sym posted₄ ∙ posted)) addressed in
      let some_node = counted-some r.0.stack_nodes (omega (arith, counts', some_frame)) in
      let (goes_on, kept) =
        data_ingest-accepts (hash_data t.hasher) (hash_data-content t.hasher) clock created r.0
          empty empty-IsWellFormed closed
          (record {
            some_node = some_node;
            some_data = data-some r.0 closed some_node;
            some_executable = omega (arith, single);
            few_nodes = omega (arith, nodes_le, few);
            few_datas = omega (arith, datas_le, few);
            few_executables = omega (arith, single);
            addressed = hashed;
            stored_addressed = tt;
            nodes_fit = all_FitsNodes r.0.stack_nodes;
            executables_fit = all_FitsExecutables r.0.profiled_binaries;
          }) in
      (r, posted, goes_on, IsKept-IsWhole clock created r.0 _ kept)
