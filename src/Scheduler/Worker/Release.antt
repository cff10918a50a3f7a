-- ===== src/Scheduler/Worker/Release.antt =====
-- Which mappings `release_tensor_mappings` of k3_aiScheduler/src/woker.rs releases.
use k3x_hera_rt.Common.{
  Option, some, none, true, false, ◌+◌, ◌&&◌, if◌then◌else◌, ltb, leb, usize_mod, take, length,
  arith, ◌≡◌, refl, inl, inr, List, [], ◌∷◌, ◌++◌, ◌==◌, u32_mod, Bool-cases, ap, ap₂,
}
use mathlib.Core.List.{filter_map}
use k3x_hera_rt.Uabi.Types.{checked_total, try_as_usize}
use k3x_hera_rt.Uabi.Graph.Blob.Bytes.{All}
use k3x_hera_rt.Uabi.Desc.{AiTensorDesc, max_submit_tensors}
use k3x_hera_rt.Uabi.Graph.{AiGraphNode}
use k3x_hera_rt.Scheduler.Worker.{release_node, release_tensors, Unmap, release_tensor_mappings}

-- A node's array of tensors has all its entries.
abbrev pub IsFull : AiGraphNode → Type 0
IsFull node = length node.desc.tensors ≡ max_submit_tensors

-- The mapping of a tensor that has one.
abbrev pub mapping_of : AiTensorDesc → Option Unmap
mapping_of tensor =
    if ltb 0 tensor.kernel_va && ltb 0 tensor.size_bytes && ltb tensor.size_bytes usize_mod
    then some (record { kernel_va = tensor.kernel_va; size_bytes = tensor.size_bytes })
    else none

-- The mappings of the inputs and outputs of the nodes.
abbrev pub all_mappings : List AiGraphNode → List Unmap
all_mappings [] = []
all_mappings (node ∷ nodes) =
    let total = node.desc.input_count + node.desc.output_count in
    (if leb total max_submit_tensors
      then filter_map mapping_of (take total node.desc.tensors)
      else [])
    ++ all_mappings nodes

release_tensors_lem :
    (tensors : List AiTensorDesc) → release_tensors tensors ≡ filter_map mapping_of tensors
unfolding release_tensors try_as_usize filter_map
release_tensors_lem [] = refl
release_tensors_lem (tensor ∷ tensors) =
    let rest = release_tensors_lem tensors in
    elim (Bool-cases (tensor.kernel_va == 0)) [
      | inl unmapped ↦
          let test : ltb 0 tensor.kernel_va ≡ false = ground (arith, unmapped) in
          rw (unmapped, release_tensors) (rw test rest)
      | inr mapped ↦
          let test : ltb 0 tensor.kernel_va ≡ true = ground (arith, mapped) in
          elim (Bool-cases (ltb tensor.size_bytes usize_mod)) [
            | inr large ↦
                let size : ltb 0 tensor.size_bytes ≡ true = ground (arith, large) in
                rw (mapped, release_tensors) (rw (large, release_tensors) (rw test (rw size rest)))
            | inl small ↦ elim (Bool-cases (tensor.size_bytes == 0)) [
              | inl empty ↦
                  let size : ltb 0 tensor.size_bytes ≡ false = ground (arith, empty) in
                  rw (mapped, release_tensors)
                    (rw (small, release_tensors)
                      (rw (empty, release_tensors) (rw test (rw size rest))))
              | inr some_size ↦
                  let size : ltb 0 tensor.size_bytes ≡ true = ground (arith, some_size) in
                  rw (mapped, release_tensors)
                    (rw (small, release_tensors)
                      (rw (some_size, release_tensors)
                        (rw test (
                          rw size (
                            ap
                              (λ us.
                                record {
                                  kernel_va = tensor.kernel_va;
                                  size_bytes = tensor.size_bytes;
                                }
                                ∷ us)
                              rest)))))
            ]
          ]
    ]

release_node_lem :
    (node : AiGraphNode)
    → IsFull node
    → release_node node ≡ (
        if leb (node.desc.input_count + node.desc.output_count) max_submit_tensors
        then filter_map mapping_of
            (take (node.desc.input_count + node.desc.output_count) node.desc.tensors)
        else [])
unfolding release_node checked_total try_as_usize
release_node_lem node full =
    let total = node.desc.input_count + node.desc.output_count in
    elim (Bool-cases (ltb total u32_mod)) [
      | inr far ↦
          let test : leb total max_submit_tensors ≡ false = ground (arith, far) in
          rw (far, release_node, checked_total) (rw test refl)
      | inl near ↦
          let small : ltb total usize_mod ≡ true = ground (arith, near) in
          rw (near, release_node, checked_total)
            (rw (small, release_node)
              (rw (full, release_node)
                (ap (λ us. if leb total max_submit_tensors then us else [])
                  (release_tensors_lem (take total node.desc.tensors)))))
    ]

pub release_tensor_mappings_lem :
    (nodes : List AiGraphNode)
    → All IsFull nodes
    → release_tensor_mappings nodes ≡ all_mappings nodes
unfolding release_tensor_mappings
release_tensor_mappings_lem [] full = refl
release_tensor_mappings_lem (node ∷ nodes) full =
    ap₂ (λ us vs. us ++ vs) (release_node_lem node full.0)
      (release_tensor_mappings_lem nodes full.1)
