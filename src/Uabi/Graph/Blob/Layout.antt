-- ===== src/Uabi/Graph/Blob/Layout.antt =====
-- Where `from_parts` (k3_aiUabi/src/graph.rs) puts the parts of a blob.
use k3x_hera_rt.Common.{
  ℕ, ◌+◌, ◌*◌, ◌%◌, ◌<◌, ◌≡◌, refl, sym, ◌∙◌, ap, List, ◌++◌, length, replicate, ok, ok_or,
  >>=-eq-ok, >>=-eq-err, ok_or-eq-err, inl, inr, err, arith, ◌≤◌, ltb, true, some, usize_mod, ◌-◌,
  length-append, u32_mod, length-replicate, try_u32,
}
use mathlib.Core.List.{append_assoc}
use native.Mathlib.Nat.{mod-le}
use k3x_hera_rt.Uabi.Graph.{
  AiGraphNode, AiGraphEdge, AiGraphHeader, AiGraphBuildError, ai_graph_magic, default_header,
}
use k3x_hera_rt.Uabi.Graph.Blob.{
  Repr, append_repr_slice, write_repr, pad_to, reserve_size, serialize,
}
use k3x_hera_rt.Uabi.Graph.Blob.Bytes.{
  images, length-images, append_repr_slice_lem, pad_to_lem, drop-append,
}

try_u32_lem :
    (n t : ℕ) (e : AiGraphBuildError) → ok_or (try_u32 n) e ≡ ok t → (n ≡ t) × (n < u32_mod)
try_u32_lem n t e h = ground arith

-- Padding takes less than an alignment.
pub pad_to-room :
    (bytes : List ℕ) (align : ℕ)
    → length bytes + align < u32_mod
    → (padded : List ℕ) × (pad_to bytes align ≡ ok (padded, length padded))
      × (length padded ≤ length bytes + align)
unfolding pad_to
pad_to-room bytes align small =
    let p : ℕ = (align - length bytes % align) % align in
    let least : p ≤ align = omega (arith, mod-le (align - length bytes % align) align) in
    let long : length (bytes ++ replicate p 0) ≡ length bytes + p =
      omega (arith, length-append bytes (replicate p 0), length-replicate {A = ℕ} p 0) in
    let machine : ltb (length bytes + p) usize_mod ≡ true = ground (arith, least, small) in
    let word : ltb (length bytes + p) u32_mod ≡ true = ground (arith, least, small) in
    (
      bytes ++ replicate p 0,
      rw (machine, pad_to)
          (rw (word, pad_to) (ap (λ n. ok (bytes ++ replicate p 0, n)) (sym long))),
      omega (arith, long, least),
    )

-- Both helpers of `serialize` fail with `SizeOverflow` only.
pad_to-err :
    (bytes : List ℕ) (align : ℕ) {e : AiGraphBuildError}
    → pad_to bytes align ≡ err e
    → e ≡ AiGraphBuildError.size_overflow
unfolding pad_to
pad_to-err bytes align h = ground arith

module _ (rh : Repr AiGraphHeader) (rn : Repr AiGraphNode) (re : Repr AiGraphEdge) where
  -- Where the parts of a blob stand.
  pub record Layout (nodes : List AiGraphNode) (edges : List AiGraphEdge) (header : AiGraphHeader)
      (blob : List ℕ) : Type 0 where
    pub before_nodes : ℕ
    pub before_edges : ℕ
    pub bytes :
        blob
        ≡ rh.image header
          ++ (replicate before_nodes 0
              ++ (images rn nodes ++ (replicate before_edges 0 ++ images re edges)))
    pub magic : header.magic ≡ ai_graph_magic
    pub flags : header.flags ≡ 0
    pub total : header.total_size ≡ length blob
    pub small : length blob < u32_mod
    pub node_count : header.node_count ≡ length nodes
    pub edge_count : header.edge_count ≡ length edges
    pub nodes_offset : header.nodes_offset ≡ rh.size + before_nodes
    pub edges_offset :
        header.edges_offset ≡ rh.size + before_nodes + length nodes * rn.size + before_edges
    pub nodes_small : header.nodes_offset < u32_mod
    pub edges_small : header.edges_offset < u32_mod
    pub nodes_aligned : 0 < rn.align → header.nodes_offset % rn.align ≡ 0
    pub edges_aligned : 0 < re.align → header.edges_offset % re.align ≡ 0

  pub length-parts :
      (header : AiGraphHeader) (p q : ℕ) (nodes : List AiGraphNode) (edges : List AiGraphEdge)
      → length (
          rh.image header
          ++ (replicate p 0 ++ (images rn nodes ++ (replicate q 0 ++ images re edges))))
        ≡ rh.size + p + length nodes * rn.size + q + length edges * re.size
  length-parts header p q nodes edges = omega (
    arith,
    length-append (rh.image header)
        (replicate p 0 ++ (images rn nodes ++ (replicate q 0 ++ images re edges))),
    length-append (replicate p 0) (images rn nodes ++ (replicate q 0 ++ images re edges)),
    length-append (images rn nodes) (replicate q 0 ++ images re edges),
    length-append (replicate q 0) (images re edges),
    length-replicate {A = ℕ} p 0,
    length-replicate {A = ℕ} q 0,
    rh.length-image header,
    length-images rn nodes,
    length-images re edges,
  )

  -- The parts behind the header.
  abbrev pub body : ℕ → ℕ → List AiGraphNode → List AiGraphEdge → List ℕ
  body p q nodes edges = replicate p 0 ++ (images rn nodes ++ (replicate q 0 ++ images re edges))

  joined :
      (nodes : List AiGraphNode) (edges : List AiGraphEdge) (first second : List ℕ) (p q : ℕ)
      → first ≡ rh.image default_header ++ replicate p 0
      → second ≡ append_repr_slice rn first nodes ++ replicate q 0
      → append_repr_slice re second edges ≡ rh.image default_header ++ body p q nodes edges
  joined nodes edges first second p q e f =
      append_repr_slice_lem re second edges
      ∙ ap (λ l. l ++ images re edges)
          (f
            ∙ ap (λ l. l ++ replicate q 0)
                (append_repr_slice_lem rn first nodes ∙ ap (λ l. l ++ images rn nodes) e))
      ∙ simp append_assoc

  written :
      (header : AiGraphHeader) (rest : List ℕ)
      → write_repr rh (rh.image default_header ++ rest) header ≡ rh.image header ++ rest
  unfolding write_repr
  written header rest =
      ap (λ l. rh.image header ++ l)
        (drop-append (length (rh.image header)) (rh.image default_header) rest
          (omega (arith, rh.length-image header, rh.length-image default_header)))

  laid_out :
      (nodes : List AiGraphNode) (edges : List AiGraphEdge) (header : AiGraphHeader)
      (first second blob : List ℕ) (e : AiGraphBuildError)
      → pad_to (rh.image default_header) rn.align ≡ ok (first, header.nodes_offset)
      → pad_to (append_repr_slice rn first nodes) re.align ≡ ok (second, header.edges_offset)
      → ok_or (try_u32 (length (append_repr_slice re second edges))) e ≡ ok header.total_size
      → header.magic ≡ ai_graph_magic
      → header.flags ≡ 0
      → header.node_count ≡ length nodes
      → header.edge_count ≡ length edges
      → write_repr rh (append_repr_slice re second edges) header ≡ blob
      → Layout nodes edges header blob
  laid_out nodes edges header first second blob e h1 h2 h3 m fl n k w =
      let (p, at1, off1, small1, al1) =
        pad_to_lem (rh.image default_header) first rn.align header.nodes_offset h1 in
      let (q, at2, off2, small2, al2) =
        pad_to_lem (append_repr_slice rn first nodes) second re.align header.edges_offset h2 in
      let all = joined nodes edges first second p q at1 at2 in
      let bytes =
        sym w ∙ ap (λ l. write_repr rh l header) all ∙ written header (body p q nodes edges) in
      let in_u32 =
        try_u32_lem (length (append_repr_slice re second edges)) header.total_size e h3 in
      let same : length blob ≡ length (append_repr_slice re second edges) = omega (
        arith,
        ap length all,
        ap length bytes,
        length-append (rh.image default_header) (body p q nodes edges),
        length-append (rh.image header) (body p q nodes edges),
        rh.length-image default_header,
        rh.length-image header,
      ) in
      record {
        before_nodes = p;
        before_edges = q;
        bytes = bytes;
        magic = m;
        flags = fl;
        total = omega (arith, in_u32.0, same);
        small = omega (arith, in_u32.1, same);
        node_count = n;
        edge_count = k;
        nodes_offset = omega (arith, off1, rh.length-image default_header);
        edges_offset = omega (
          arith,
          off2,
          ap length (append_repr_slice_lem rn first nodes),
          length-append first (images rn nodes),
          length-images rn nodes,
          ap length at1,
          length-append (rh.image default_header) (replicate p 0),
          length-replicate {A = ℕ} p 0,
          rh.length-image default_header,
        );
        nodes_small = small1;
        edges_small = small2;
        nodes_aligned = al1;
        edges_aligned = al2;
      }

  pub serialize_lem :
      (nodes : List AiGraphNode) (edges : List AiGraphEdge) (blob : List ℕ)
      → serialize rh rn re nodes edges (length nodes) (length edges) ≡ ok blob
      → (header : AiGraphHeader) × Layout nodes edges header blob
  unfolding serialize
  serialize_lem nodes edges blob h =
      let (cap, e0, h0) =
        >>=-eq-ok (ok_or (reserve_size rh rn re (length nodes) (length edges)) _) _ h in
      let (first, e1, h1) = >>=-eq-ok (pad_to (rh.image default_header) rn.align) _ h0 in
      let (second, e2, h2) =
        >>=-eq-ok (pad_to (append_repr_slice rn first.0 nodes) re.align) _ h1 in
      let (total, e3, h3) =
        >>=-eq-ok (ok_or (try_u32 (length (append_repr_slice re second.0 edges))) _) _ h2 in
      let header : AiGraphHeader = record {
        magic = ai_graph_magic;
        total_size = total;
        flags = 0;
        node_count = length nodes;
        edge_count = length edges;
        nodes_offset = first.1;
        edges_offset = second.1;
      } in
      (
        header,
        laid_out nodes edges header first.0 second.0 blob AiGraphBuildError.size_overflow e1 e2 e3
            refl refl refl refl (cc h3),
      )

  -- A blob that has room: every part and its padding, in a `u32`.
  abbrev pub room : List AiGraphNode → List AiGraphEdge → ℕ
  room nodes edges = rh.size + rn.align + length nodes * rn.size + re.align + length edges * re.size

  reserve_size-room :
      (nodes : List AiGraphNode) (edges : List AiGraphEdge)
      → room nodes edges < u32_mod
      → (cap : ℕ) × (reserve_size rh rn re (length nodes) (length edges) ≡ some cap)
  unfolding reserve_size
  reserve_size-room nodes edges small =
      let first : ltb (rh.size + rn.align) usize_mod ≡ true = ground (arith, small) in
      let second : ltb (rh.size + rn.align + length nodes * rn.size) usize_mod ≡ true =
        ground (arith, small) in
      let third : ltb (rh.size + rn.align + length nodes * rn.size + re.align) usize_mod ≡ true =
        ground (arith, small) in
      let fourth : ltb (room nodes edges) usize_mod ≡ true = ground (arith, small) in
      (
        room nodes edges,
        rw (first, reserve_size)
            (rw (second, reserve_size) (rw (third, reserve_size) (rw (fourth, reserve_size) refl))),
      )

  -- A graph with room for its parts is serialised.
  pub serialize-room :
      (nodes : List AiGraphNode) (edges : List AiGraphEdge)
      → room nodes edges < u32_mod
      → (blob : List ℕ) × (serialize rh rn re nodes edges (length nodes) (length edges) ≡ ok blob)
  unfolding serialize
  serialize-room nodes edges small =
      let (cap, reserved) = reserve_size-room nodes edges small in
      let (first, at1, size1) =
        pad_to-room (rh.image default_header) rn.align
          (omega (arith, rh.length-image default_header, small)) in
      let body_size = ap length (append_repr_slice_lem rn first nodes) in
      let with_nodes = append_repr_slice rn first nodes in
      let nodes_size : length with_nodes ≡ length first + length nodes * rn.size =
        omega (arith, body_size, length-append first (images rn nodes), length-images rn nodes) in
      let (second, at2, size2) =
        pad_to-room with_nodes re.align
          (omega (arith, nodes_size, size1, rh.length-image default_header, small)) in
      let edges_size : length (append_repr_slice re second edges)
          ≡ length second + length edges * re.size =
        omega (
          arith,
          ap length (append_repr_slice_lem re second edges),
          length-append second (images re edges),
          length-images re edges,
        ) in
      let fits : ltb (length (append_repr_slice re second edges)) u32_mod ≡ true =
        ground
          (arith, edges_size, size2, nodes_size, size1, rh.length-image default_header, small) in
      rw (reserved, serialize)
        (rw (at1, serialize) (rw (at2, serialize) (rw (fits, serialize) (_, refl))))

  -- The only error of `serialize`.
  pub serialize-err :
      (nodes : List AiGraphNode) (edges : List AiGraphEdge) {e : AiGraphBuildError}
      → serialize rh rn re nodes edges (length nodes) (length edges) ≡ err e
      → e ≡ AiGraphBuildError.size_overflow
  unfolding serialize
  serialize-err nodes edges h =
      elim (>>=-eq-err (ok_or (reserve_size rh rn re (length nodes) (length edges)) _) _ h) [
        | inl e0 ↦ ok_or-eq-err (reserve_size rh rn re (length nodes) (length edges)) _ e0
        | inr (_, _, h0) ↦ elim (>>=-eq-err (pad_to (rh.image default_header) rn.align) _ h0) [
          | inl e1 ↦ pad_to-err (rh.image default_header) rn.align e1
          | inr (first, _, h1) ↦
              let with_nodes = append_repr_slice rn first.0 nodes in
              elim (>>=-eq-err (pad_to with_nodes re.align) _ h1) [
                | inl e2 ↦ pad_to-err with_nodes re.align e2
                | inr (second, _, h2) ↦
                    let whole = append_repr_slice re second.0 edges in
                    elim (>>=-eq-err (ok_or (try_u32 (length whole)) _) _ h2) [
                      | inl e3 ↦ ok_or-eq-err (try_u32 (length whole)) _ e3
                      | inr (_, _, h3) ↦ absurd (cc h3)
                    ]
              ]
        ]
      ]
