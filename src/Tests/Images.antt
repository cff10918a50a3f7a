-- ===== src/Tests/Images.antt =====
-- Memory images of headers and edges (little endian), and of the nodes with a default description;
-- with them, the blob of a graph and what the kernel makes of it.
use k3x_hera_rt.Uabi.Graph.Validate.{validate_graph}
use k3x_hera_rt.Common.{
  ◌≤◌, ℕ, ◌∙◌, ◌+◌, ◌*◌, ◌/◌, ◌%◌, ◌<◌, ◌≡◌, refl, ap, ◌⊎◌, some, List, [], ◌∷◌, ◌++◌, get_or,
  u32_mod, ok, err, arith,
}
use k3x_hera_rt.Uabi.Types.{try_as_usize, checked_range}
use k3x_hera_rt.Uabi.Desc.{default_kernel_desc}
use k3x_hera_rt.Uabi.Graph.{
  AiGraphNode, AiGraphEdge, AiGraphHeader, AiParsedGraph, AiGraphBuildError, ai_graph_magic,
}
use k3x_hera_rt.Uabi.Graph.WellFormed.{WellFormed}
use k3x_hera_rt.Uabi.Graph.Manager.Build.{node_of}
use k3x_hera_rt.Uabi.Graph.Validate.{validate_ids, validate_edges, has_cycle, validate_graph}
use k3x_hera_rt.Kahn.{
  empty_tables, add_edge, add_edges, decrement, sources, relax, drain, drain_count, push_back,
  push_top,
}
use k3x_hera_rt.Uabi.Graph.Blob.{
  Repr, append_repr_slice, write_repr, read_repr_at, read_items, read_repr_vec, pad_to,
  checked_section, reserve_size, serialize, from_parts, freeze, parse,
}
use k3x_hera_rt.Uabi.Graph.Blob.Bytes.{All}
use k3x_hera_rt.Uabi.Graph.Blob.Safety.{
  InU32, Serialised, from_parts_decides, parse-from_parts, Checked, parse-Checked,
}
use k3x_hera_rt.Scheduler.TaskLink.{TaskLink, resolve_parsed_graph}
use k3x_hera_rt.Scheduler.Schedule.{IsSchedule}
use k3x_hera_rt.Scheduler.EndToEnd.{freeze_schedules}
use k3x_hera_rt.Tests.Graphs.{join, join-Reachable}

-- A `u32`, little endian.
abbrev word_image : ℕ → List ℕ
word_image x = x % 256 ∷ x / 256 % 256 ∷ x / 65536 % 256 ∷ x / 16777216 % 256 ∷ []

abbrev read_word : ℕ → List ℕ → ℕ
read_word offset bytes =
    get_or bytes offset 0
    + get_or bytes (offset + 1) 0 * 256
    + get_or bytes (offset + 2) 0 * 65536
    + get_or bytes (offset + 3) 0 * 16777216

word_lem : (x : ℕ) → x < u32_mod → read_word 0 (word_image x) ≡ x
word_lem x h = omega (arith, h)

abbrev edge_repr : Repr AiGraphEdge
edge_repr = record {
  size = 8;
  align = 4;
  image = λ e. word_image e.from_node ++ word_image e.to_node;
  read = λ bytes. record { from_node = read_word 0 bytes; to_node = read_word 4 bytes };
  Fits = λ e. (e.from_node < u32_mod) × (e.to_node < u32_mod);
  length-image = λ e. refl;
  read-image = λ e fits i. record {
    from_node = word_lem e.from_node fits.0 i;
    to_node = word_lem e.to_node fits.1 i;
  };
}

abbrev header_repr : Repr AiGraphHeader
header_repr = record {
  size = 28;
  align = 4;
  image = λ h.
      word_image h.magic
      ++ word_image h.total_size
      ++ word_image h.flags
      ++ word_image h.node_count
      ++ word_image h.edge_count
      ++ word_image h.nodes_offset
      ++ word_image h.edges_offset;
  read = λ bytes. record {
    magic = read_word 0 bytes;
    total_size = read_word 4 bytes;
    flags = read_word 8 bytes;
    node_count = read_word 12 bytes;
    edge_count = read_word 16 bytes;
    nodes_offset = read_word 20 bytes;
    edges_offset = read_word 24 bytes;
  };
  Fits = InU32;
  length-image = λ h. refl;
  read-image = λ h fits i. record {
    magic = word_lem h.magic fits.magic i;
    total_size = word_lem h.total_size fits.total_size i;
    flags = word_lem h.flags fits.flags i;
    node_count = word_lem h.node_count fits.node_count i;
    edge_count = word_lem h.edge_count fits.edge_count i;
    nodes_offset = word_lem h.nodes_offset fits.nodes_offset i;
    edges_offset = word_lem h.edges_offset fits.edges_offset i;
  };
}

-- Of a node only the id is stored; it fits if the rest is the default.
abbrev node_repr : Repr AiGraphNode
node_repr = record {
  size = 4;
  align = 8;
  image = λ n. word_image n.node_id;
  read = λ bytes. node_of (read_word 0 bytes) default_kernel_desc;
  Fits = λ n. (n.node_id < u32_mod) × (node_of n.node_id default_kernel_desc ≡ n);
  length-image = λ n. refl;
  read-image =
      λ n fits. ap (λ id. node_of id default_kernel_desc) (word_lem n.node_id fits.0) ∙ fits.1;
}

-- The blob of the graph.
abbrev word : ℕ → List ℕ
word = word_image

abbrev join_blob : List ℕ
join_blob =
    word ai_graph_magic
    ++ word 60
    ++ word 0
    ++ word 3
    ++ word 2
    ++ word 32
    ++ word 44
    ++ word 0
    ++ word 0
    ++ word 1
    ++ word 2
    ++ word 0
    ++ word 2
    ++ word 1
    ++ word 2

join-freeze : freeze header_repr node_repr edge_repr join ≡ some (ok join_blob)
unfolding freeze from_parts validate_graph validate_ids validate_edges has_cycle add_edge add_edges
    decrement sources relax drain drain_count push_back push_top empty_tables serialize reserve_size
    append_repr_slice pad_to write_repr
join-freeze = refl

join-from_parts :
    from_parts header_repr node_repr edge_repr join.nodes join.edges ≡ some (ok join_blob)
unfolding freeze
join-from_parts = join-freeze

nodes_fit : All node_repr.Fits join.nodes
nodes_fit = ((omega arith, refl), ((omega arith, refl), ((omega arith, refl), tt)))

edges_fit : All edge_repr.Fits join.edges
edges_fit = ((omega arith, omega arith), ((omega arith, omega arith), tt))

from_parts_decides_example :
    ((u32_mod ≤ 3)
      × (from_parts header_repr node_repr edge_repr join.nodes join.edges
          ≡ some (err AiGraphBuildError.too_many_nodes)))
    ⊎ ((3 < u32_mod)
        × (u32_mod ≤ 2)
        × (from_parts header_repr node_repr edge_repr join.nodes join.edges
            ≡ some (err AiGraphBuildError.too_many_edges)))
    ⊎ ((3 < u32_mod)
        × (2 < u32_mod)
        × ¬ WellFormed join.nodes join.edges
        × ((e : AiGraphBuildError) × (validate_graph join.nodes join.edges ≡ some (err e))
            × (from_parts header_repr node_repr edge_repr join.nodes join.edges ≡ some (err e))))
    ⊎ ((3 < u32_mod)
        × (2 < u32_mod)
        × WellFormed join.nodes join.edges
        × Serialised header_repr node_repr edge_repr join.nodes join.edges)
from_parts_decides_example =
    from_parts_decides header_repr node_repr edge_repr join.nodes join.edges

parse-from_parts_example :
    (header : AiGraphHeader) × (parse header_repr node_repr edge_repr join_blob
      ≡ ok (record { header = header; nodes = join.nodes; edges = join.edges }))
    × (0 < 8 → header.nodes_offset % 8 ≡ 0)
    × (0 < 4 → header.edges_offset % 4 ≡ 0)
parse-from_parts_example =
    parse-from_parts header_repr node_repr edge_repr (λ h f. f) join.nodes join.edges join_blob
      nodes_fit edges_fit join-from_parts

abbrev join_header : AiGraphHeader
join_header = record {
  magic = ai_graph_magic;
  total_size = 60;
  flags = 0;
  node_count = 3;
  edge_count = 2;
  nodes_offset = 32;
  edges_offset = 44;
}

abbrev join_parsed : AiParsedGraph
join_parsed = record { header = join_header; nodes = join.nodes; edges = join.edges }

join-parse : parse header_repr node_repr edge_repr join_blob ≡ ok join_parsed
unfolding parse read_repr_at checked_section read_repr_vec read_items checked_range try_as_usize
join-parse = refl

parse-Checked_example : Checked header_repr node_repr edge_repr join_blob join_parsed
parse-Checked_example =
    parse-Checked header_repr node_repr edge_repr join_blob join_parsed join-parse

freeze_schedules_example :
    (g : AiParsedGraph) × (link : TaskLink) × (parse header_repr node_repr edge_repr join_blob
      ≡ ok g)
    × (g.nodes ≡ join.nodes)
    × (g.edges ≡ join.edges)
    × (resolve_parsed_graph 9 g ≡ some (ok link))
    × IsSchedule g link
freeze_schedules_example =
    freeze_schedules header_repr node_repr edge_repr (λ h f. f) join join_blob 9 join-Reachable
      nodes_fit edges_fit join-freeze
