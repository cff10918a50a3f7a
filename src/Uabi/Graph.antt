-- ===== src/Uabi/Graph.antt =====
-- k3_aiUabi/src/graph.rs: the data of graphs and of their submission. A node id is its raw number.
pub mod WellFormed
pub mod Validate
pub mod Manager
pub mod Blob
use k3x_hera_rt.Common.{ℕ, List, Bool, ◌&&◌, leb}
use k3x_hera_rt.Uabi.Desc.{AiKernelDesc}

-- "HERA"
abbrev pub ai_graph_magic : ℕ
ai_graph_magic = 0x4845_5241

-- `AiGraphState`
pub record AiGraphState : Type 0 where
  pub complete : ℕ
  pub error_flag : ℕ

abbrev pub default_state : AiGraphState
default_state = record { complete = 0; error_flag = 0 }

pub record AiGraphNode : Type 0 where
  pub node_id : ℕ
  pub desc : AiKernelDesc
  pub state : AiGraphState

pub record AiGraphEdge : Type 0 where
  pub from_node : ℕ
  pub to_node : ℕ

pub record AiGraphHeader : Type 0 where
  pub magic : ℕ
  pub total_size : ℕ
  pub flags : ℕ
  pub node_count : ℕ
  pub edge_count : ℕ
  pub nodes_offset : ℕ
  pub edges_offset : ℕ

abbrev pub default_header : AiGraphHeader
default_header = record {
  magic = 0;
  total_size = 0;
  flags = 0;
  node_count = 0;
  edge_count = 0;
  nodes_offset = 0;
  edges_offset = 0;
}

pub record AiParsedGraph : Type 0 where
  pub header : AiGraphHeader
  pub nodes : List AiGraphNode
  pub edges : List AiGraphEdge

pub data AiGraphBuildError : Type 0 where
  too_many_nodes too_many_edges : AiGraphBuildError
  invalid_depend : ℕ → AiGraphBuildError
  cycle_detected size_overflow : AiGraphBuildError

-- The named section of an out-of-range error.
pub data Section : Type 0 where
  nodes_section edges_section : Section

pub data AiGraphParseError : Type 0 where
  too_small : AiGraphParseError
  bad_magic bad_abi : ℕ → AiGraphParseError
  size_mismatch : (header_size actual_size : ℕ) → AiGraphParseError
  section_out_of_range : Section → (offset size total_size : ℕ) → AiGraphParseError
  count_overflow : AiGraphParseError

-- `GraphSubmitKind::is_known`
unfoldable pub submit_is_known : ℕ → Bool
submit_is_known kind = leb 1 kind && leb kind 3
