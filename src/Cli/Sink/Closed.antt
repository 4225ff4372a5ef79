-- ===== src/Cli/Sink/Closed.antt =====
-- What is posted refers only to what is posted: parents, node data and executables.
use mathlib.Core.List.{reverse}
use sto.Prelude.{
  ℕ, ◌≡◌, refl, true, Option, none, List, [], ◌∷◌, Map, All, All-map, All-upsert, All-and_modify,
  has, has-upsert_mono, has-upsert_self, has-and_modify, Distinct, upsert-Distinct,
  and_modify-Distinct, upsert, or_insert, and_modify, Keyed, ◌∙◌,
}
use sto.Defs.{Executable, StackNode, StackNodeData}
use sto.Defs.References.{ParentIn, ParentIn-mono, RefersTo}
use sto.Cli.Sink.{
  Tools, Sink, SymbolizedResult, Stack, add_frame, count_sample, count_stack, identify, on_frame,
  on_frames, on_stack, on_stacks, on_symlist, on_symlists,
}

abbrev pub NodeOk : Map StackNode → Map StackNodeData → Map Executable → ℕ × StackNode → Type 0
NodeOk ns ds es e = (e.1.id ≡ e.0) × RefersTo (has ns) (has ds) (has es) e.1

pub record Closed (ns : Map StackNode) (ds : Map StackNodeData) (es : Map Executable)
    (parent_id : Option ℕ) : Type 0 where
  pub nodes : All (NodeOk ns ds es) ns
  pub datas : Keyed (λ d. d.id) ds
  pub executables : Keyed (λ e. e.id) es
  pub distinct_nodes : Distinct ns
  pub distinct_datas : Distinct ds
  pub distinct_executables : Distinct es
  pub parent : ParentIn (has ns) parent_id

-- The executable is stored, then counted.
abbrev pub with_executable : Executable → ℕ → Map Executable → Map Executable
with_executable e size es = and_modify e.id (count_stack size) (or_insert e.id e es)

has-with_executable :
    (e : Executable) (size : ℕ) (es : Map Executable) (k : ℕ)
    → has (with_executable e size es) k ≡ has (or_insert e.id e es) k
has-with_executable e size es k = has-and_modify e.id k (count_stack size) (or_insert e.id e es)

module _ (t : Tools) where
  abbrev pub IsClosed : Sink t → Type 0
  IsClosed s = Closed s.nodes s.datas s.executables s.parent_id

  add_frame-IsClosed :
      (d : StackNodeData) (n : StackNode) (s : Sink t)
      → n.parent_id ≡ s.parent_id
      → n.stack_node_data_id ≡ d.id
      → has s.executables n.executable_id ≡ true
      → IsClosed s
      → IsClosed (add_frame t d n s)
  unfolding add_frame
  add_frame-IsClosed d n s parent data_id exe c =
      let ns' = upsert n.id count_sample n s.nodes in
      let ds' = or_insert d.id d s.datas in
      let more_nodes : (k : ℕ) → has s.nodes k ≡ true → has ns' k ≡ true =
        λ k. has-upsert_mono n.id k count_sample n s.nodes in
      record {
        nodes =
            All-upsert (NodeOk ns' ds' s.executables) n.id count_sample n s.nodes (λ w h. h)
              (
                refl,
                (
                  ParentIn-mono (has s.nodes) (has ns') n.parent_id more_nodes (rw parent c.parent),
                  rw data_id (has-upsert_self d.id (λ w. w) d s.datas),
                  exe,
                ),
              )
              (All-map (NodeOk s.nodes s.datas s.executables) (NodeOk ns' ds' s.executables) s.nodes
                (λ e h. (
                  h.0,
                  (
                    ParentIn-mono (has s.nodes) (has ns') e.1.parent_id more_nodes h.1.0,
                    has-upsert_mono d.id e.1.stack_node_data_id (λ w. w) d s.datas h.1.1,
                    h.1.2,
                  ),
                ))
                c.nodes);
        datas =
            All-upsert (λ (e : ℕ × StackNodeData). e.1.id ≡ e.0) d.id (λ w. w) d s.datas (λ w h. h)
              refl c.datas;
        executables = c.executables;
        distinct_nodes = upsert-Distinct n.id count_sample n s.nodes c.distinct_nodes;
        distinct_datas = upsert-Distinct d.id (λ w. w) d s.datas c.distinct_datas;
        distinct_executables = c.distinct_executables;
        parent = has-upsert_self n.id count_sample n s.nodes;
      }

  on_frame-IsClosed :
      (exe : ℕ) (frame : SymbolizedResult) (s : Sink t)
      → has s.executables exe ≡ true
      → IsClosed s
      → IsClosed (on_frame t exe frame s)
  unfolding on_frame
  on_frame-IsClosed exe frame s known c =
      let found = identify t exe frame s in
      add_frame-IsClosed found.0 found.1 found.2 refl refl known c

  pub executables-on_frame :
      (exe : ℕ) (frame : SymbolizedResult) (s : Sink t)
      → (on_frame t exe frame s).executables ≡ s.executables
  unfolding on_frame
  executables-on_frame exe frame s = refl

  on_frames-IsClosed :
      (exe : ℕ) (stack : Stack) (s : Sink t)
      → has s.executables exe ≡ true
      → IsClosed s
      → IsClosed (on_frames t exe stack s)
  unfolding on_frames
  on_frames-IsClosed exe [] s known c = c
  on_frames-IsClosed exe (frame ∷ stack) s known c =
      on_frames-IsClosed exe stack (on_frame t exe frame s)
        (rw (executables-on_frame exe frame s) known) (on_frame-IsClosed exe frame s known c)

  with_executable-IsClosed :
      (e : Executable) (size : ℕ) (s : Sink t)
      → IsClosed s
      → Closed s.nodes s.datas (with_executable e size s.executables) s.parent_id
  with_executable-IsClosed e size s c =
      let es = or_insert e.id e s.executables in
      record {
        nodes =
            All-map (NodeOk s.nodes s.datas s.executables)
              (NodeOk s.nodes s.datas (with_executable e size s.executables)) s.nodes
              (λ n h. (
                h.0,
                (
                  h.1.0,
                  h.1.1,
                  has-with_executable e size s.executables n.1.executable_id
                      ∙ has-upsert_mono e.id n.1.executable_id (λ w. w) e s.executables h.1.2,
                ),
              ))
              c.nodes;
        datas = c.datas;
        executables =
            All-and_modify (λ (x : ℕ × Executable). x.1.id ≡ x.0) e.id (count_stack size) es
              (λ w h. h)
              (All-upsert (λ (x : ℕ × Executable). x.1.id ≡ x.0) e.id (λ w. w) e s.executables
                (λ w h. h) refl c.executables);
        distinct_nodes = c.distinct_nodes;
        distinct_datas = c.distinct_datas;
        distinct_executables =
            and_modify-Distinct e.id (count_stack size) es
              (upsert-Distinct e.id (λ w. w) e s.executables c.distinct_executables);
        parent = c.parent;
      }

  on_stack-IsClosed :
      (e : Executable) (stack : Stack) (s : Sink t) → IsClosed s → IsClosed (on_stack t e stack s)
  unfolding on_stack
  on_stack-IsClosed e stack s c =
      let size = t.deep_size_of stack in
      on_frames-IsClosed e.id stack
        (record s { executables = with_executable e size s.executables })
        (has-with_executable e size s.executables e.id
          ∙ has-upsert_self e.id (λ w. w) e s.executables)
        (with_executable-IsClosed e size s c)

  on_stacks-IsClosed :
      (e : Executable) (stacks : List Stack) (s : Sink t)
      → IsClosed s
      → IsClosed (on_stacks t e stacks s)
  unfolding on_stacks
  on_stacks-IsClosed e [] s c = c
  on_stacks-IsClosed e (stack ∷ stacks) s c =
      on_stacks-IsClosed e stacks (on_stack t e stack s) (on_stack-IsClosed e stack s c)

  orphan-IsClosed : (s : Sink t) → IsClosed s → Closed s.nodes s.datas s.executables none
  orphan-IsClosed s c = record {
    nodes = c.nodes;
    datas = c.datas;
    executables = c.executables;
    distinct_nodes = c.distinct_nodes;
    distinct_datas = c.distinct_datas;
    distinct_executables = c.distinct_executables;
    parent = tt;
  }

  pub on_symlists-IsClosed :
      (e : Executable) (symlists : List (List Stack)) (s : Sink t)
      → IsClosed s
      → IsClosed (on_symlists t e symlists s)
  unfolding on_symlists on_symlist
  on_symlists-IsClosed e [] s c = c
  on_symlists-IsClosed e (symlist ∷ symlists) s c =
      on_symlists-IsClosed e symlists
        (on_stacks t e (reverse symlist) (record s { parent_id = none }))
        (on_stacks-IsClosed e (reverse symlist) (record s { parent_id = none })
          (orphan-IsClosed s c))
