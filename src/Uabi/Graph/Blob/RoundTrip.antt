-- ===== src/Uabi/Graph/Blob/RoundTrip.antt =====
-- A frozen graph is parsed back as it was (k3_aiUabi/src/graph.rs, `from_parts` and `parse`).
use k3x_hera_rt.Common.{
  ℕ, ◌+◌, ◌-◌, ◌*◌, ◌≤◌, ◌<◌, ◌≡◌, refl, sym, ◌∙◌, ap, ap₂, List, [], ◌++◌, length, take, replicate,
  ok, ◌>>=◌, arith, length-append, usize_mod, length-replicate, ==_iff,
}
use mathlib.Core.List.{append-nil, append_assoc}
use k3x_hera_rt.Uabi.Types.{Range}
use k3x_hera_rt.Uabi.Graph.{
  AiGraphNode, AiGraphEdge, AiGraphHeader, Section, nodes_section, edges_section, ai_graph_magic,
}
use k3x_hera_rt.Uabi.Graph.Blob.{Repr, checked_section, slice, parse, read_repr_at, read_repr_vec}
use k3x_hera_rt.Uabi.Graph.Blob.Bytes.{
  All, images, length-images, read_repr_at_lem, read_repr_vec_lem, drop-append, take-append,
}
use k3x_hera_rt.Uabi.Graph.Blob.Layout.{Layout, body, length-parts}

pub checked_section_lem :
    (section : Section) (total offset count size : ℕ)
    → offset + count * size ≤ total
    → total < usize_mod
    → checked_section section total offset count size
      ≡ ok (record { start = offset; end = offset + count * size })
unfolding checked_section
checked_section_lem section total offset count size fits small = ground arith

slice_lem :
    (pre mid post : List ℕ) (start end : ℕ)
    → start ≡ length pre
    → end ≡ start + length mid
    → slice (pre ++ (mid ++ post)) (record { start = start; end = end }) ≡ mid
slice_lem pre mid post start end e f =
    ap (take (end - start)) (drop-append start pre (mid ++ post) e)
    ∙ take-append (end - start) mid post (omega arith)

module _ (rh : Repr AiGraphHeader) (rn : Repr AiGraphNode) (re : Repr AiGraphEdge)
    (nodes : List AiGraphNode) (edges : List AiGraphEdge) (header : AiGraphHeader) (blob : List ℕ)
    (l : Layout rh rn re nodes edges header blob) where
  open l use {before_nodes as p, before_edges as q}

  abbrev after_header : List ℕ
  after_header = body rh rn re p q nodes edges

  size_lem : length blob ≡ rh.size + p + length nodes * rn.size + q + length edges * re.size
  size_lem = ap length l.bytes ∙ length-parts rh rn re header p q nodes edges

  read_header : rh.Fits header → read_repr_at rh blob 0 ≡ ok header
  read_header fits =
      ap (λ b. read_repr_at rh b 0) l.bytes
      ∙ read_repr_at_lem rh [] after_header header 0 refl fits (omega (arith, size_lem, l.small))

  abbrev nodes_range : Range
  nodes_range = record {
    start = header.nodes_offset;
    end = header.nodes_offset + header.node_count * rn.size;
  }

  abbrev edges_range : Range
  edges_range = record {
    start = header.edges_offset;
    end = header.edges_offset + header.edge_count * re.size;
  }

  nodes_bytes : header.node_count * rn.size ≡ length nodes * rn.size
  nodes_bytes = ap (λ k. k * rn.size) l.node_count

  edges_bytes : header.edge_count * re.size ≡ length edges * re.size
  edges_bytes = ap (λ k. k * re.size) l.edge_count

  nodes_section_lem :
      checked_section nodes_section (length blob) header.nodes_offset header.node_count rn.size
      ≡ ok nodes_range
  nodes_section_lem =
      checked_section_lem nodes_section (length blob) header.nodes_offset header.node_count rn.size
        (omega (arith, size_lem, l.nodes_offset, nodes_bytes)) (omega (arith, l.small))

  edges_section_lem :
      checked_section edges_section (length blob) header.edges_offset header.edge_count re.size
      ≡ ok edges_range
  edges_section_lem =
      checked_section_lem edges_section (length blob) header.edges_offset header.edge_count re.size
        (omega (arith, size_lem, l.edges_offset, edges_bytes)) (omega (arith, l.small))

  nodes_slice : slice blob nodes_range ≡ images rn nodes
  nodes_slice =
      ap (λ b. slice b nodes_range)
        (l.bytes ∙ sym (append_assoc (rh.image header) (replicate p 0) _))
      ∙ slice_lem (rh.image header ++ replicate p 0) (images rn nodes)
          (replicate q 0 ++ images re edges) header.nodes_offset
          (header.nodes_offset + header.node_count * rn.size)
          (omega (
            arith,
            l.nodes_offset,
            length-append (rh.image header) (replicate p 0),
            length-replicate {A = ℕ} p 0,
            rh.length-image header,
          ))
          (omega (arith, nodes_bytes, length-images rn nodes))

  edges_slice : slice blob edges_range ≡ images re edges
  edges_slice =
      ap (λ b. slice b edges_range) (l.bytes ∙ regroup)
      ∙ slice_lem (((rh.image header ++ replicate p 0) ++ images rn nodes) ++ replicate q 0)
          (images re edges) [] header.edges_offset
          (header.edges_offset + header.edge_count * re.size)
          (omega (
            arith,
            l.edges_offset,
            length-append ((rh.image header ++ replicate p 0) ++ images rn nodes) (replicate q 0),
            length-append (rh.image header ++ replicate p 0) (images rn nodes),
            length-append (rh.image header) (replicate p 0),
            length-replicate {A = ℕ} p 0,
            length-replicate {A = ℕ} q 0,
            rh.length-image header,
            length-images rn nodes,
          ))
          (omega (arith, edges_bytes, length-images re edges))
    where
      regroup :
          rh.image header ++ after_header
          ≡ (((rh.image header ++ replicate p 0) ++ images rn nodes) ++ replicate q 0)
            ++ (images re edges ++ [])
      regroup = simp (append_assoc, append-nil)

  nodes_read :
      All rn.Fits nodes → read_repr_vec rn (slice blob nodes_range) header.node_count ≡ ok nodes
  nodes_read fits =
      ap₂ (λ b k. read_repr_vec rn b k) nodes_slice l.node_count
      ∙ read_repr_vec_lem rn nodes fits (omega (arith, size_lem, l.small))

  edges_read :
      All re.Fits edges → read_repr_vec re (slice blob edges_range) header.edge_count ≡ ok edges
  edges_read fits =
      ap₂ (λ b k. read_repr_vec re b k) edges_slice l.edge_count
      ∙ read_repr_vec_lem re edges fits (omega (arith, size_lem, l.small))

  -- A blob laid out so is parsed as its parts.
  pub parse_lem :
      rh.Fits header
      → All rn.Fits nodes
      → All re.Fits edges
      → parse rh rn re blob ≡ ok (record { header = header; nodes = nodes; edges = edges })
  unfolding parse
  parse_lem fits_h fits_n fits_e =
      rw (read_header fits_h, ◌>>=◌)
        (rw
          (
            (==_iff header.magic ai_graph_magic).1 l.magic,
            (==_iff header.total_size (length blob)).1 l.total,
          )
          (rw (nodes_section_lem, ◌>>=◌)
            (rw (edges_section_lem, ◌>>=◌)
              (rw (nodes_read fits_n, ◌>>=◌) (rw (edges_read fits_e, ◌>>=◌) refl)))))
