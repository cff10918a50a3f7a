-- ===== src/Uabi/Graph/Blob.antt =====
-- `AiGraphBlob` and `AiGraphParser` of k3_aiUabi/src/graph.rs: a graph as one block of bytes (header,
-- nodes, edges) and back. The memory image of a `repr(C)` type is the compiler's: a parameter.
pub mod Bytes
pub mod Layout
pub mod RoundTrip
pub mod Safety
use k3x_hera_rt.Common.{
  ℕ, zero, suc, ◌+◌, ◌-◌, ◌*◌, ◌%◌, ◌≡◌, Option, none, some, List, [], ◌∷◌, ◌++◌, ◌==◌, ltb,
  if◌then◌else◌, length, take, drop, replicate, Result, ok, err, ok_or, ◌>>=◌, ◌>>◌, guard,
  checked_add, checked_mul, try_u32,
}
use k3x_hera_rt.Uabi.Types.{AbiTypeError, Range, checked_range}
use k3x_hera_rt.Uabi.Graph.{
  AiGraphNode, AiGraphEdge, AiGraphHeader, AiParsedGraph, AiGraphBuildError, AiGraphParseError,
  Section, nodes_section, edges_section, ai_graph_magic, default_header,
}
use k3x_hera_rt.Uabi.Graph.Validate.{validate_graph}
use k3x_hera_rt.Uabi.Graph.Manager.{GraphManager}

-- The memory image of a type: its size and alignment, its bytes, and what a read of bytes gives.
-- `Fits` says that a value is one of the machine's (its fields are in range), and the image of such a
-- value is `size` bytes long and is read back as that value.
pub record Repr (T : Type 0) : Type 1 where
  pub size : ℕ
  pub align : ℕ
  pub image : T → List ℕ
  pub read : List ℕ → T
  pub Fits : T → Type 0
  pub length-image : (x : T) → length (image x) ≡ size
  pub read-image : (x : T) → Fits x → read (image x) ≡ x

module _ {T : Type 0} (r : Repr T) where
  open r use {size, image, read}

  -- `append_repr_slice`, behind what is there already; `append_repr` is the case of one value.
  unfoldable pub append_repr_slice : List ℕ → List T → List ℕ
  append_repr_slice bytes [] = bytes
  append_repr_slice bytes (x ∷ xs) = append_repr_slice (bytes ++ image x) xs

  -- `write_repr_at` at offset 0, the only one at which it is called, behind which the buffer is kept.
  unfoldable pub write_repr : List ℕ → T → List ℕ
  write_repr bytes x = image x ++ drop (length (image x)) bytes

  -- `read_repr_at`
  unfoldable pub read_repr_at : List ℕ → ℕ → Result AiGraphParseError T
  read_repr_at bytes offset = do
    end ← ok_or (checked_add offset size) AiGraphParseError.count_overflow
    if ltb (length bytes) end
        then err AiGraphParseError.too_small
        else ok (read (take size (drop offset bytes)))

  -- `for idx in from..from + count`
  unfoldable pub read_items : List ℕ → ℕ → ℕ → Result AiGraphParseError (List T)
  unfolding read_repr_at
  read_items bytes from zero = ok []
  read_items bytes from (suc count) = do
    x ← read_repr_at bytes (from * size)
    xs ← read_items bytes (from + 1) count
    ok (x ∷ xs)

  -- `read_repr_vec`
  unfoldable pub read_repr_vec : List ℕ → ℕ → Result AiGraphParseError (List T)
  unfolding read_items
  read_repr_vec bytes count = do
    expected ← ok_or (checked_mul count size) AiGraphParseError.count_overflow
    if ltb (length bytes) expected
        then err AiGraphParseError.too_small
        else read_items bytes 0 count

-- `pad_to`: the padded bytes and their length.
unfoldable pub pad_to : List ℕ → ℕ → Result AiGraphBuildError (List ℕ × ℕ)
pad_to bytes align = do
  let padding = (align - length bytes % align) % align
  new_len ← ok_or (checked_add (length bytes) padding) AiGraphBuildError.size_overflow
  offset ← ok_or (try_u32 new_len) AiGraphBuildError.size_overflow
  ok (bytes ++ replicate padding 0, offset)

-- `checked_section`
unfoldable pub checked_section : Section → ℕ → ℕ → ℕ → ℕ → Result AiGraphParseError Range
unfolding checked_range
checked_section section total_size offset count item_size = do
  size ← ok_or (checked_mul count item_size) AiGraphParseError.count_overflow
  elim (checked_range offset size total_size) [
    | ok range ↦ ok range
    | err e ↦ elim e [
      | AbiTypeError.count_overflow ↦ err AiGraphParseError.count_overflow
      | _ ↦ err (AiGraphParseError.section_out_of_range section offset size total_size)
    ]
  ]

-- `&bytes[range]`
abbrev pub slice : List ℕ → Range → List ℕ
slice bytes range = take (range.end - range.start) (drop range.start bytes)

module _ (rh : Repr AiGraphHeader) (rn : Repr AiGraphNode) (re : Repr AiGraphEdge) where
  -- The capacity to reserve; the sum is computed for its overflow only.
  unfoldable pub reserve_size : ℕ → ℕ → Option ℕ
  reserve_size node_count edge_count = elim (checked_add rh.size rn.align) [
    | none ↦ none
    | some a ↦ elim (checked_add a (node_count * rn.size)) [
      | none ↦ none
      | some b ↦ elim (checked_add b re.align) [
        | none ↦ none
        | some c ↦ checked_add c (edge_count * re.size)
      ]
    ]
  ]

  -- `from_parts` once the graph is validated.
  unfoldable pub serialize :
      List AiGraphNode → List AiGraphEdge → ℕ → ℕ → Result AiGraphBuildError (List ℕ)
  unfolding reserve_size append_repr_slice pad_to write_repr
  serialize nodes edges node_count edge_count = do
    capacity ← ok_or (reserve_size (length nodes) (length edges)) AiGraphBuildError.size_overflow
    (with_header, nodes_offset) ← pad_to (rh.image default_header) rn.align
    let with_nodes = append_repr_slice rn with_header nodes
    (padded, edges_offset) ← pad_to with_nodes re.align
    let bytes = append_repr_slice re padded edges
    total_size ← ok_or (try_u32 (length bytes)) AiGraphBuildError.size_overflow
    ok (
        write_repr rh bytes (record {
          magic = ai_graph_magic;
          total_size = total_size;
          flags = 0;
          node_count = node_count;
          edge_count = edge_count;
          nodes_offset = nodes_offset;
          edges_offset = edges_offset;
        }))

  -- `AiGraphBlob::from_parts`; the outer `Option` is `none` for a panic.
  unfoldable pub from_parts :
      List AiGraphNode → List AiGraphEdge → Option (Result AiGraphBuildError (List ℕ))
  from_parts nodes edges = elim (try_u32 (length nodes)) [
    | none ↦ some (err AiGraphBuildError.too_many_nodes)
    | some node_count ↦ elim (try_u32 (length edges)) [
      | none ↦ some (err AiGraphBuildError.too_many_edges)
      | some edge_count ↦ elim (validate_graph nodes edges) [
        | none ↦ none
        | some (err e) ↦ some (err e)
        | some (ok _) ↦ some (serialize nodes edges node_count edge_count)
      ]
    ]
  ]

  -- `GraphManager::freeze`
  unfoldable pub freeze : GraphManager → Option (Result AiGraphBuildError (List ℕ))
  unfolding from_parts
  freeze m = from_parts m.nodes m.edges

  -- `AiGraphParser::parse`
  unfoldable pub parse : List ℕ → Result AiGraphParseError AiParsedGraph
  unfolding read_repr_at checked_section read_repr_vec
  parse bytes = do
    header ← read_repr_at rh bytes 0
    guard (header.magic == ai_graph_magic) (AiGraphParseError.bad_magic header.magic)
    guard (header.total_size == length bytes)
        (AiGraphParseError.size_mismatch header.total_size (length bytes))
    nodes_range ←
        checked_section nodes_section (length bytes) header.nodes_offset header.node_count rn.size
    edges_range ←
        checked_section edges_section (length bytes) header.edges_offset header.edge_count re.size
    nodes ← read_repr_vec rn (slice bytes nodes_range) header.node_count
    edges ← read_repr_vec re (slice bytes edges_range) header.edge_count
    ok (record { header = header; nodes = nodes; edges = edges })
