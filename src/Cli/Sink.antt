-- ===== src/Cli/Sink.antt =====
-- `process_and_sink_data` and `cached_demangle` of src/bin/cli.rs: symbolised stacks become the
-- three tables that are posted to the server. The symboliser's results, the demangler, the sizes
-- that crate deepsize reports, the hash function and the caches are parameters.
pub mod Addressed
pub mod Closed
pub mod Counts
pub mod Posted
pub mod Sizes
pub mod Tally
use mathlib.Core.List.{reverse}
use sto.Prelude.{
  ℕ, ◌+◌, ◌%◌, ◌^◌, Option, none, some, List, [], ◌∷◌, ◌++◌, ltb, if◌then◌else◌, Map, upsert,
  or_insert, and_modify, values,
}
use sto.Words.{add_i64}
use sto.Text.{trim, is_empty, codes}
use sto.Defs.{Text, Args, EventType, cycles, clock, Executable, StackNode, StackNodeData, StoData}
use sto.Cli.Ids.{Hasher, Cache, cached, misc_id, id_stack_node, id_data}

-- What the tool reads of blazesym's `SymbolizedResult`; `line_no` is a `usize`.
pub record SymbolizedResult : Type 0 where
  pub symbol : Text
  pub path : Text
  pub line_no : ℕ

-- One address of a stack may stand for several frames, if functions were inlined.
abbrev pub Stack : Type 0
Stack = List SymbolizedResult

pub record Tools : Type 1 where
  pub hasher : Hasher
  pub sym_cache : Cache Text Text
  pub data_cache : Cache StackNodeData ℕ
  pub node_cache : Cache StackNode ℕ
  pub misc_cache : Cache Text ℕ
  pub demangle : Text → Text
  pub deep_size_of : Stack → ℕ
  pub deep_size_of_data : StoData → ℕ

-- The derived `Display` of `EventType`
abbrev pub event_name : EventType → Text
event_name cycles = codes "Cycles"
event_name clock = codes "Clock"

-- The literal `StackNodeData { id: 0, ... }`, with the demangled symbol.
unfoldable pub frame_data : SymbolizedResult → Text → StackNodeData
frame_data frame symbol = record {
  id = 0;
  symbol = symbol;
  file = if is_empty (trim frame.path) then none else some (trim frame.path);
  line_number = if ltb 0 frame.line_no then some (frame.line_no % 2 ^ 32) else none;
}

abbrev pub count_sample : StackNode → StackNode
count_sample e = record e { sample_count = add_i64 e.sample_count 1 }

-- The literal `StackNode { id: 0, ... }`
abbrev pub frame_node : Option ℕ → ℕ → ℕ → StackNode
frame_node parent_id data_id executable_id = record {
  id = 0;
  parent_id = parent_id;
  stack_node_data_id = data_id;
  executable_id = executable_id;
  sample_count = 1;
}

abbrev pub count_stack : ℕ → Executable → Executable
count_stack size e = record e {
  sample_count = add_i64 e.sample_count 1;
  raw_data_size = add_i64 e.raw_data_size size;
}

-- The literal `Executable { .. }`
abbrev pub new_executable : ℕ → Text → Args → Executable
new_executable id basename args = record {
  id = id;
  event = event_name args.event_type;
  build_id = args.version;
  basename = basename;
  updated_at = none;
  created_at = none;
  sample_count = 0;
  raw_data_size = 0;
  processed_data_size = 0;
}

-- The text that the executable's identifier is hashed from.
abbrev pub executable_key : Text → Option Text → Text
executable_key binary none = binary
executable_key binary (some version) = binary ++ version

abbrev pub grow : ℕ → Executable → Executable
grow size e = record e { processed_data_size = add_i64 e.processed_data_size size }

module _ (t : Tools) where
  open t use {hasher, sym_cache, data_cache, node_cache, misc_cache, demangle}

  -- The locals of the loops, and the caches.
  pub record Sink : Type 0 where
    pub nodes : Map StackNode
    pub datas : Map StackNodeData
    pub executables : Map Executable
    pub parent_id : Option ℕ
    pub symbols : sym_cache.State
    pub data_ids : data_cache.State
    pub node_ids : node_cache.State

  unfoldable pub cached_demangle : Text → sym_cache.State → Text × sym_cache.State
  unfolding cached
  cached_demangle = cached sym_cache demangle

  -- The body of the loop over the frames of a stack, behind the two identifiers.
  unfoldable pub add_frame : StackNodeData → StackNode → Sink → Sink
  add_frame node_data node s = record s {
    datas = or_insert node_data.id node_data s.datas;
    nodes = upsert node.id count_sample node s.nodes;
    parent_id = some node.id;
  }

  -- The data and the node of a frame with their identifiers, and the caches behind the calls.
  unfoldable pub identify : ℕ → SymbolizedResult → Sink → StackNodeData × StackNode × Sink
  unfolding cached_demangle id_data id_stack_node
  identify executable_id frame s =
      let (symbol, symbols) = cached_demangle frame.symbol s.symbols in
      let (node_data, data_ids) = id_data hasher data_cache (frame_data frame symbol) s.data_ids in
      let (node, node_ids) =
        id_stack_node hasher node_cache (frame_node s.parent_id node_data.id executable_id)
          s.node_ids in
      (node_data, node, record s { symbols = symbols; data_ids = data_ids; node_ids = node_ids })

  unfoldable pub on_frame : ℕ → SymbolizedResult → Sink → Sink
  unfolding identify add_frame
  on_frame executable_id frame s =
      let (node_data, node, s') = identify executable_id frame s in add_frame node_data node s'

  unfoldable pub on_frames : ℕ → Stack → Sink → Sink
  on_frames executable_id [] s = s
  on_frames executable_id (frame ∷ stack) s =
      on_frames executable_id stack (on_frame executable_id frame s)

  -- The body of the loop over the stacks of a list.
  unfoldable pub on_stack : Executable → Stack → Sink → Sink
  on_stack executable stack s = on_frames executable.id stack (record s {
    executables =
        and_modify executable.id (count_stack (t.deep_size_of stack))
          (or_insert executable.id executable s.executables);
  })

  unfoldable pub on_stacks : Executable → List Stack → Sink → Sink
  on_stacks executable [] s = s
  on_stacks executable (stack ∷ stacks) s =
      on_stacks executable stacks (on_stack executable stack s)

  -- The body of the outer loop: every list starts a path of its own, from its outermost frame.
  unfoldable pub on_symlist : Executable → List Stack → Sink → Sink
  on_symlist executable symlist s =
      on_stacks executable (reverse symlist) (record s { parent_id = none })

  unfoldable pub on_symlists : Executable → List (List Stack) → Sink → Sink
  on_symlists executable [] s = s
  on_symlists executable (symlist ∷ symlists) s =
      on_symlists executable symlists (on_symlist executable symlist s)

  -- `data_out` before and after the executable learns its size.
  abbrev pub tables : Sink → StoData
  tables s = record {
    stack_nodes = values s.nodes;
    stack_node_datas = values s.datas;
    profiled_binaries = values s.executables;
  }

  unfoldable pub data_out : ℕ → Sink → StoData
  data_out executable_id s = record (tables s) {
    profiled_binaries =
        values (and_modify executable_id (grow (t.deep_size_of_data (tables s))) s.executables);
  }

  -- Before the loops: `s` brings the caches, its maps are new.
  abbrev pub start : Sink → Sink
  start s = record s { nodes = []; datas = []; executables = []; parent_id = none }

  unfoldable pub with_binary :
      Option Text
      → List (List Stack)
      → Args
      → Sink
      → misc_cache.State
      → Option (StoData × Sink × misc_cache.State)
  with_binary none symlists args s misc = none
  with_binary (some binary) symlists args s misc =
      let (id, misc') = misc_id hasher misc_cache (executable_key binary args.version) misc in
      let s' = on_symlists (new_executable id binary args) symlists (start s) in
      some (data_out id s', s', misc')

  -- What is posted to `args.url`. `none` is the panic of `args.binary.unwrap()`; the reply to the
  -- post changes nothing but the log.
  unfoldable pub process_and_sink_data :
      List (List Stack)
      → Args
      → Sink
      → misc_cache.State
      → Option (StoData × Sink × misc_cache.State)
  unfolding with_binary
  process_and_sink_data symlists args s misc = with_binary args.binary symlists args s misc
