-- ===== src/Uabi/Graph/Blob/Safety.antt =====
-- Freezing and parsing of graph blobs (k3_aiUabi/src/graph.rs): the round trip, when freezing succeeds,
-- and what a successful parse has checked of bytes that come from anywhere.
use k3x_hera_rt.Common.{
  Result, ◌∙◌, ℕ, zero, suc, ◌+◌, ◌*◌, ◌%◌, ◌≤◌, ◌<◌, ◌≡◌, refl, sym, ap, ◌⊎◌, inl, inr, some, List,
  length, ok, err, arith, u32_mod, ltb, if◌then◌else◌, true, false, ltb→lt, Bool-cases,
  ok-injective, guard-eq-ok, checked_mul, ◌==◌, ==_iff, ok_or, guard, >>=-eq-ok,
}
use mathlib.Core.Path.{subst}
use k3x_hera_rt.Uabi.Types.{Range}
use k3x_hera_rt.Uabi.Graph.{
  Section, AiGraphNode, AiGraphEdge, AiGraphHeader, AiParsedGraph, AiGraphBuildError,
  AiGraphParseError, ai_graph_magic, nodes_section, edges_section,
}
use k3x_hera_rt.Uabi.Graph.WellFormed.{WellFormed}
use k3x_hera_rt.Uabi.Graph.Validate.{validate_graph, validate_decides}
use k3x_hera_rt.Uabi.Graph.Blob.{
  Repr, serialize, from_parts, parse, read_repr_at, read_items, read_repr_vec, checked_section,
  slice,
}
use k3x_hera_rt.Uabi.Graph.Blob.Bytes.{All}
use k3x_hera_rt.Uabi.Graph.Blob.Layout.{Layout, serialize_lem, serialize-err, serialize-room, room}
use k3x_hera_rt.Uabi.Graph.Blob.RoundTrip.{parse_lem}

-- The fields of a header are `u32`s.
pub record InU32 (h : AiGraphHeader) : Type 0 where
  pub magic : h.magic < u32_mod
  pub total_size : h.total_size < u32_mod
  pub flags : h.flags < u32_mod
  pub node_count : h.node_count < u32_mod
  pub edge_count : h.edge_count < u32_mod
  pub nodes_offset : h.nodes_offset < u32_mod
  pub edges_offset : h.edges_offset < u32_mod

checked_section_sound :
    (section : Section) (total offset count size : ℕ) {range : Range}
    → checked_section section total offset count size ≡ ok range
    → offset + count * size ≤ total
unfolding checked_section
checked_section_sound section total offset count size h = ground arith

module _ {T : Type 0} (r : Repr T) where
  length-read_items :
      (bytes : List ℕ) (from count : ℕ) {xs : List T}
      → read_items r bytes from count ≡ ok xs
      → length xs ≡ count
  unfolding read_items
  length-read_items bytes from zero h = ap length (sym (ok-injective h))
  length-read_items bytes from (suc count) h =
      let (x, _, h1) = >>=-eq-ok (read_repr_at r bytes (from * r.size)) _ h in
      let (xs, e2, h2) = >>=-eq-ok (read_items r bytes (from + 1) count) _ h1 in
      omega (arith, ap length (ok-injective h2), length-read_items bytes (from + 1) count e2)

  length-read_repr_vec :
      (bytes : List ℕ) (count : ℕ) {xs : List T}
      → read_repr_vec r bytes count ≡ ok xs
      → length xs ≡ count
  unfolding read_repr_vec
  length-read_repr_vec bytes count {xs} h =
      let (expected, _, h1) = >>=-eq-ok (ok_or (checked_mul count r.size) _) _ h in
      length-read_items bytes 0 count (inside expected h1)
    where
      inside :
          (expected : ℕ)
          → (if ltb (length bytes) expected
              then err AiGraphParseError.too_small
              else read_items r bytes 0 count)
            ≡ ok xs
          → read_items r bytes 0 count ≡ ok xs
      inside expected k = elim (Bool-cases (ltb (length bytes) expected)) [
        | inl a ↦ absurd (cc (rw a at k))
        | inr a ↦ rw a at k
      ]

outcome : {E A : Type 0} (r : Result E A) → ((a : A) × (r ≡ ok a)) ⊎ ((e : E) × (r ≡ err e))
outcome (ok a) = inl (a, refl)
outcome (err e) = inr (e, refl)

module _ (rh : Repr AiGraphHeader) (rn : Repr AiGraphNode) (re : Repr AiGraphEdge) where
  module _ (nodes : List AiGraphNode) (edges : List AiGraphEdge) where
    too_many_nodes_lem :
        ltb (length nodes) u32_mod ≡ false
        → from_parts rh rn re nodes edges ≡ some (err AiGraphBuildError.too_many_nodes)
    unfolding from_parts
    too_many_nodes_lem h = rw (h, from_parts) refl

    too_many_edges_lem :
        ltb (length nodes) u32_mod ≡ true
        → ltb (length edges) u32_mod ≡ false
        → from_parts rh rn re nodes edges ≡ some (err AiGraphBuildError.too_many_edges)
    unfolding from_parts
    too_many_edges_lem h k = rw (h, from_parts) (rw (k, from_parts) refl)

    invalid_lem :
        (e : AiGraphBuildError)
        → ltb (length nodes) u32_mod ≡ true
        → ltb (length edges) u32_mod ≡ true
        → validate_graph nodes edges ≡ some (err e)
        → from_parts rh rn re nodes edges ≡ some (err e)
    unfolding from_parts
    invalid_lem e h k v = rw (h, from_parts) (rw (k, from_parts) (rw (v, from_parts) refl))

    valid_lem :
        ltb (length nodes) u32_mod ≡ true
        → ltb (length edges) u32_mod ≡ true
        → validate_graph nodes edges ≡ some (ok tt)
        → from_parts rh rn re nodes edges
          ≡ some (serialize rh rn re nodes edges (length nodes) (length edges))
    unfolding from_parts
    valid_lem h k v = rw (h, from_parts) (rw (k, from_parts) (rw (v, from_parts) refl))

    -- What a valid graph comes to.
    abbrev pub Serialised : Type 0
    Serialised =
        ((blob : List ℕ) × (header : AiGraphHeader) × (from_parts rh rn re nodes edges
            ≡ some (ok blob))
          × Layout rh rn re nodes edges header blob)
        ⊎ ((from_parts rh rn re nodes edges ≡ some (err AiGraphBuildError.size_overflow))
            × (u32_mod ≤ room rh rn re nodes edges))

    serialised :
        from_parts rh rn re nodes edges
          ≡ some (serialize rh rn re nodes edges (length nodes) (length edges))
        → Serialised
    serialised run = elim (outcome (serialize rh rn re nodes edges (length nodes) (length edges))) [
      | inl (blob, written) ↦
          let (header, l) = serialize_lem rh rn re nodes edges blob written in
          inl (blob, header, run ∙ ap some written, l)
      | inr (e, failed) ↦
          let why = serialize-err rh rn re nodes edges failed in
          inr (
            run ∙ ap some (failed ∙ ap err why),
            elim (Bool-cases (ltb (room rh rn re nodes edges) u32_mod)) [
              | inr large ↦ ground (arith, large)
              | inl small ↦
                  let (_, fine) =
                    serialize-room rh rn re nodes edges
                      (ltb→lt (room rh rn re nodes edges) u32_mod small) in
                  absurd (cc (fine, failed))
            ],
          )
    ]

    -- `from_parts` ends without a panic, and is told on every branch. With 2^32 nodes or more it
    -- reports `TooManyNodes`, whatever the rest; otherwise, with 2^32 edges or more, `TooManyEdges`,
    -- whatever the graph; otherwise, on a graph that is not well-formed, the error of the validation.
    -- Otherwise it gives a blob that is laid out as the format says, or reports `SizeOverflow`, the
    -- latter only if header, nodes, edges and an alignment for each list take 2^32 bytes or more.
    pub from_parts_decides :
        ((u32_mod ≤ length nodes)
          × (from_parts rh rn re nodes edges ≡ some (err AiGraphBuildError.too_many_nodes)))
        ⊎ ((length nodes < u32_mod)
            × (u32_mod ≤ length edges)
            × (from_parts rh rn re nodes edges ≡ some (err AiGraphBuildError.too_many_edges)))
        ⊎ ((length nodes < u32_mod)
            × (length edges < u32_mod)
            × ¬ WellFormed nodes edges
            × ((e : AiGraphBuildError) × (validate_graph nodes edges ≡ some (err e))
                × (from_parts rh rn re nodes edges ≡ some (err e))))
        ⊎ ((length nodes < u32_mod)
            × (length edges < u32_mod)
            × WellFormed nodes edges
            × Serialised)
    from_parts_decides = elim (Bool-cases (ltb (length nodes) u32_mod)) [
      | inr a ↦ inl (ground (arith, a), too_many_nodes_lem a)
      | inl a ↦
          let few_nodes = ltb→lt (length nodes) u32_mod a in
          elim (Bool-cases (ltb (length edges) u32_mod)) [
            | inr b ↦ inr (inl (few_nodes, ground (arith, b), too_many_edges_lem a b))
            | inl b ↦
                let few_edges = ltb→lt (length edges) u32_mod b in
                elim (validate_decides nodes edges (omega (arith, few_nodes))) [
                  | inl (e, bad, none_formed) ↦ inr (
                      inr
                        (inl (few_nodes, few_edges, none_formed, (e, bad, invalid_lem e a b bad))))
                  | inr (good, w) ↦
                      inr (inr (inr (few_nodes, few_edges, w, serialised (valid_lem a b good))))
                ]
          ]
    ]

    pub from_parts_lem :
        (blob : List ℕ)
        → from_parts rh rn re nodes edges ≡ some (ok blob)
        → (length nodes < u32_mod)
          × (length edges < u32_mod)
          × WellFormed nodes edges
          × ((header : AiGraphHeader) × Layout rh rn re nodes edges header blob)
    from_parts_lem blob h = elim from_parts_decides [
      | inl (_, bad) ↦ absurd (cc (bad, h))
      | inr (inl (_, _, bad)) ↦ absurd (cc (bad, h))
      | inr (inr (inl (_, _, _, (e, _, bad)))) ↦ absurd (cc (bad, h))
      | inr (inr (inr (few_nodes, few_edges, w, s))) ↦ elim s [
        | inr (bad, _) ↦ absurd (cc (bad, h))
        | inl (blob', header, run, l) ↦
            let same : blob' ≡ blob = cc (run, h) in
            (few_nodes, few_edges, w, (header, subst (Layout rh rn re nodes edges header) same l))
      ]
    ]

  -- A graph that `from_parts` serialises is parsed back as it was, from sections that stand at aligned
  -- offsets, if the images of its values are faithful.
  pub parse-from_parts :
      ((h : AiGraphHeader) → InU32 h → rh.Fits h)
      → (nodes : List AiGraphNode) (edges : List AiGraphEdge) (blob : List ℕ) → All rn.Fits nodes
      → All re.Fits edges
      → from_parts rh rn re nodes edges ≡ some (ok blob)
      → (header : AiGraphHeader) × (parse rh rn re blob
          ≡ ok (record { header = header; nodes = nodes; edges = edges }))
        × (0 < rn.align → header.nodes_offset % rn.align ≡ 0)
        × (0 < re.align → header.edges_offset % re.align ≡ 0)
  parse-from_parts fits nodes edges blob fits_n fits_e h =
      let (few_nodes, few_edges, _, (header, l)) = from_parts_lem nodes edges blob h in
      (
        header,
        parse_lem rh rn re nodes edges header blob l
            (fits header (in_u32 header l few_nodes few_edges)) fits_n fits_e,
        l.nodes_aligned,
        l.edges_aligned,
      )
    where
      in_u32 :
          (header : AiGraphHeader)
          → Layout rh rn re nodes edges header blob
          → length nodes < u32_mod
          → length edges < u32_mod
          → InU32 header
      in_u32 header l few_nodes few_edges = record {
        magic = omega (arith, l.magic);
        total_size = omega (arith, l.total, l.small);
        flags = omega (arith, l.flags);
        node_count = omega (arith, l.node_count);
        edge_count = omega (arith, l.edge_count);
        nodes_offset = l.nodes_small;
        edges_offset = l.edges_small;
      }

  -- What a successful parse has checked.
  pub record Checked (bytes : List ℕ) (g : AiParsedGraph) : Type 0 where
    pub magic : g.header.magic ≡ ai_graph_magic
    pub total : g.header.total_size ≡ length bytes
    pub nodes_inside : g.header.nodes_offset + g.header.node_count * rn.size ≤ length bytes
    pub edges_inside : g.header.edges_offset + g.header.edge_count * re.size ≤ length bytes
    pub nodes_read : length g.nodes ≡ g.header.node_count
    pub edges_read : length g.edges ≡ g.header.edge_count

  -- Whatever the bytes, a successful parse has found the magic number and the size, both sections lie
  -- inside the bytes, and as many values were read as the header says.
  pub parse-Checked :
      (bytes : List ℕ) (g : AiParsedGraph) → parse rh rn re bytes ≡ ok g → Checked bytes g
  unfolding parse
  parse-Checked bytes g h =
      let (header, e0, h0) = >>=-eq-ok (read_repr_at rh bytes 0) _ h in
      let (_, e1, h1) = >>=-eq-ok (guard (header.magic == ai_graph_magic) _) _ h0 in
      let (_, e2, h2) = >>=-eq-ok (guard (header.total_size == length bytes) _) _ h1 in
      let (nodes_range, e3, h3) =
        >>=-eq-ok
          (checked_section nodes_section (length bytes) header.nodes_offset header.node_count
            rn.size)
          _ h2 in
      let (edges_range, e4, h4) =
        >>=-eq-ok
          (checked_section edges_section (length bytes) header.edges_offset header.edge_count
            re.size)
          _ h3 in
      let (nodes, e5, h5) =
        >>=-eq-ok (read_repr_vec rn (slice bytes nodes_range) header.node_count) _ h4 in
      let (edges, e6, h6) =
        >>=-eq-ok (read_repr_vec re (slice bytes edges_range) header.edge_count) _ h5 in
      subst (Checked bytes) (ok-injective h6) (record {
        magic = (==_iff header.magic ai_graph_magic).0 (guard-eq-ok _ _ e1);
        total = (==_iff header.total_size (length bytes)).0 (guard-eq-ok _ _ e2);
        nodes_inside =
            checked_section_sound nodes_section (length bytes) header.nodes_offset header.node_count
              rn.size e3;
        edges_inside =
            checked_section_sound edges_section (length bytes) header.edges_offset header.edge_count
              re.size e4;
        nodes_read = length-read_repr_vec rn (slice bytes nodes_range) header.node_count e5;
        edges_read = length-read_repr_vec re (slice bytes edges_range) header.edge_count e6;
      })
