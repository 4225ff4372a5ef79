-- ===== src/Defs.antt =====
-- The shared types of src/defs.rs. `i64`, `u32` and the like are bit patterns (sto.Words); a text
-- is a list of Unicode code points.
pub mod References
use sto.Prelude.{ℕ, Option, List}
use sto.Bpf.{StacktraceEvent}

abbrev pub Text : Type 0
Text = List ℕ

pub data EventType : Type 0 where
  cycles clock : EventType

pub record Args : Type 0 where
  pub pid : ℕ
  pub total_samples : ℕ
  pub event_type : EventType
  pub sample_freq : ℕ
  pub binary : Option Text
  pub version : Option Text
  pub url : Text

pub record StackInfo : Type 0 where
  pub event : StacktraceEvent
  pub args : Args

-- `DateTime<Utc>` is a number of ticks.
pub record Executable : Type 0 where
  pub id : ℕ
  pub event : Text
  pub build_id : Option Text
  pub basename : Text
  pub updated_at : Option ℕ
  pub created_at : Option ℕ
  pub sample_count : ℕ
  pub raw_data_size : ℕ
  pub processed_data_size : ℕ

pub record StackNode : Type 0 where
  pub id : ℕ
  pub parent_id : Option ℕ
  pub stack_node_data_id : ℕ
  pub executable_id : ℕ
  pub sample_count : ℕ

pub record StackNodeData : Type 0 where
  pub id : ℕ
  pub symbol : Text
  pub file : Option Text
  pub line_number : Option ℕ

pub record StoData : Type 0 where
  pub stack_nodes : List StackNode
  pub stack_node_datas : List StackNodeData
  pub profiled_binaries : List Executable
