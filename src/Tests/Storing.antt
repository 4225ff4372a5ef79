-- ===== src/Tests/Storing.antt =====
-- The server on small inputs.
use sto.Prelude.{ℕ, ◌+◌, ◌≡◌, refl, true, none, some, [], ◌∷◌, arith, length, member, has, get}
use sto.Defs.{Executable, StackNode, StackNodeData, StoData}
use sto.Defs.References.{IsClosedData}
use sto.Text.{codes}
use sto.Server.Db.{Db, same_content, text_eq_sound}
use sto.Server.Ingest.{data_ingest}
use sto.Server.Ingest.WellFormed.{IsWellFormed, data_ingest-IsWellFormed}
use sto.Server.Ingest.Kept.{IsKept}
use sto.Server.Ingest.Accepts.{IsAcceptable, data_ingest-accepts}
use sto.Server.Ingest.Merges.{Counted, data_ingest-Counted}

abbrev pub demo : Executable
demo = record {
  id = 9;
  event = codes "Clock";
  build_id = some (codes "1");
  basename = codes "demo";
  updated_at = some 100;
  created_at = some 100;
  sample_count = 3;
  raw_data_size = 60;
  processed_data_size = 40;
}

abbrev pub main_data : StackNodeData
main_data = record { id = 4; symbol = codes "main"; file = none; line_number = none }

abbrev pub log_data : StackNodeData
log_data = record { id = 3; symbol = codes "log"; file = some (codes "a.c"); line_number = some 3 }

abbrev pub main_node : StackNode
main_node = record {
  id = 20;
  parent_id = none;
  stack_node_data_id = 4;
  executable_id = 9;
  sample_count = 3;
}

abbrev pub log_node : StackNode
log_node = record {
  id = 21;
  parent_id = some 20;
  stack_node_data_id = 3;
  executable_id = 9;
  sample_count = 1;
}

abbrev pub stored : Db
stored = record {
  datas = (4, main_data) ∷ [];
  executables = (9, demo) ∷ [];
  nodes = (20, main_node) ∷ [];
}

pub stored-IsWellFormed : IsWellFormed stored
unfolding has
stored-IsWellFormed = record {
  datas = ((refl, tt), (refl, tt));
  executables = ((refl, tt), (refl, tt));
  nodes = ((refl, tt), (refl, tt));
  references = ((tt, refl, refl), tt);
  created = ((100, refl), tt);
}

-- One more sample of main, and the first of log.
abbrev pub sent : StoData
sent = record {
  stack_nodes = record main_node { sample_count = 1 } ∷ log_node ∷ [];
  stack_node_datas = main_data ∷ log_data ∷ [];
  profiled_binaries = record demo { sample_count = 2; created_at = none } ∷ [];
}

pub sent-IsClosedData : IsClosedData sent
unfolding member
sent-IsClosedData = record {
  nodes = ((tt, refl, refl), ((refl, refl, refl), tt));
  distinct_nodes = (refl, (refl, tt));
  distinct_datas = (refl, (refl, tt));
  distinct_executables = (refl, tt);
}

-- Node data are identified by the length of their symbol.
unfoldable pub by_length : StackNodeData → ℕ
by_length d = length d.symbol

pub by_length-content : (a b : StackNodeData) → same_content a b ≡ true → by_length a ≡ by_length b
unfolding by_length same_content
by_length-content a b h = ground (arith, text_eq_sound a.symbol b.symbol)

sent-IsAcceptable : IsAcceptable by_length sent stored
unfolding by_length get
sent-IsAcceptable = record {
  some_node = omega arith;
  some_data = omega arith;
  some_executable = omega arith;
  few_nodes = omega arith;
  few_datas = omega arith;
  few_executables = omega arith;
  addressed = (refl, (refl, tt));
  stored_addressed = (refl, tt);
  nodes_fit = ((λ old e. ground arith), ((λ old e. cc), tt));
  executables_fit = (
    (λ old e. record {
      sample_count = ground arith;
      raw_data_size = ground arith;
      processed_data_size = ground arith;
    }),
    tt,
  );
}

abbrev clock : ℕ → ℕ
clock i = 200 + i

data_ingest-accepts_example :
    ((data_ingest clock 200 sent stored).1 ≡ true)
    × IsKept clock 200 sent stored (data_ingest clock 200 sent stored).0
data_ingest-accepts_example =
    data_ingest-accepts by_length by_length-content clock 200 sent stored stored-IsWellFormed
      sent-IsClosedData sent-IsAcceptable

data_ingest-IsWellFormed_example : IsWellFormed (data_ingest clock 200 sent stored).0
data_ingest-IsWellFormed_example =
    data_ingest-IsWellFormed clock 200 sent stored stored-IsWellFormed

data_ingest-Counted_example : Counted sent stored (data_ingest clock 200 sent stored)
data_ingest-Counted_example =
    data_ingest-Counted clock 200 sent stored (omega arith, tt) (omega arith, (omega arith, tt))
