-- ===== src/Backend/Kernel/Routing.antt =====
-- Which operators `k3_run_kernel` (k3_kernel_backend/src/lib.rs) knows, and how it ends.
use k3x_hera_rt.Common.{
  ℕ, zero, suc, ◌+◌, ◌≤◌, ◌<◌, ◌≡◌, refl, sym, ap, ◌∙◌, ◌⊎◌, inl, inr, true, false, some, List, [],
  ◌∷◌, ◌++◌, map, get_elem?, take, drop, ltb, u32_mod, usize_mod, Result, ok, err, Bool-cases,
  arith,
}
use mathlib.Core.Option
use k3x_hera_rt.Uabi.Types.{checked_total, try_as_usize}
use k3x_hera_rt.Uabi.Error.{BackendErr, backend_code}
use k3x_hera_rt.Uabi.Kernel.{KernelOp, op_is_known, prefer_a100}
use k3x_hera_rt.Uabi.Desc.{AiTensorDesc, max_submit_tensors}
use k3x_hera_rt.Uabi.Graph.{AiGraphNode}
use k3x_hera_rt.Backend.Call.{from_desc}
use k3x_hera_rt.Backend.Kernel.{
  BackendCall, has_kernel, failed, finished, call_of, dispatch, run_counted, k3_run_kernel,
}

-- The operators that have a kernel are those that the ABI knows.
has_kernel_known : (op : KernelOp) → has_kernel op ≡ op_is_known op
unfolding has_kernel op_is_known
has_kernel_known op = ground arith

get_elem?-map-take {ℓ κ} :
    {A : Type ℓ} {B : Type κ} (f : A → B) (n : ℕ) (xs : List A) (rest : List B) (i : ℕ) {x : A}
    → i < n
    → get_elem? xs i ≡ some x
    → get_elem? (map f (take n xs) ++ rest) i ≡ some (f x)
get_elem?-map-take f zero xs rest i lt h = absurd (omega arith)
get_elem?-map-take f (suc n) [] rest i lt h = cc
get_elem?-map-take f (suc n) (x ∷ xs) rest zero lt h = ap (λ o. Option.map f o) h
get_elem?-map-take f (suc n) (x ∷ xs) rest (suc i) lt h =
    get_elem?-map-take f n xs rest i (omega arith) h

get_elem?-drop {ℓ} :
    {A : Type ℓ} (n : ℕ) (xs : List A) (i : ℕ) → get_elem? (drop n xs) i ≡ get_elem? xs (n + i)
get_elem?-drop zero xs i = ap (get_elem? xs) (omega arith)
get_elem?-drop (suc n) [] i = refl
get_elem?-drop (suc n) (x ∷ xs) i =
    let step : suc n + i ≡ suc (n + i) = omega arith in rw step (get_elem?-drop n xs i)

-- The call that the kernel of a node is to see: its operator, target, counts and attributes, and the
-- views of its tensors, the inputs first.
pub record CallFor (node : AiGraphNode) (call : BackendCall) : Type 0 where
  pub op : call.op ≡ node.desc.op
  pub target : call.target ≡ prefer_a100
  pub input_count : call.input_count ≡ node.desc.input_count
  pub output_count : call.output_count ≡ node.desc.output_count
  pub attr : call.attr ≡ node.desc.attr_inline
  pub attr_size : call.attr_size ≡ node.desc.attr_size
  pub inputs :
      (i : ℕ) {tensor : AiTensorDesc}
      → i < node.desc.input_count
      → get_elem? node.desc.tensors i ≡ some tensor
      → get_elem? call.inputs i ≡ some (from_desc tensor)
  pub outputs :
      (i : ℕ) {tensor : AiTensorDesc}
      → i < node.desc.output_count
      → get_elem? node.desc.tensors (node.desc.input_count + i) ≡ some tensor
      → get_elem? call.outputs i ≡ some (from_desc tensor)

call_of-CallFor : (node : AiGraphNode) → CallFor node (call_of node)
unfolding call_of
call_of-CallFor node = record {
  op = refl;
  target = refl;
  input_count = refl;
  output_count = refl;
  attr = refl;
  attr_size = refl;
  inputs = λ i lt found.
      get_elem?-map-take from_desc node.desc.input_count node.desc.tensors _ i lt found;
  outputs = λ i lt found.
      get_elem?-map-take from_desc node.desc.output_count
        (drop node.desc.input_count node.desc.tensors) _ i lt
        (get_elem?-drop node.desc.input_count node.desc.tensors i ∙ found);
}

-- An error, as a negative `i32` in two's complement and as the error flag.
abbrev pub FailsWith : AiGraphNode × ℕ → BackendErr → Type 0
FailsWith end e = (end.1 + backend_code e ≡ u32_mod) × (end.0.state.error_flag ≡ backend_code e)

-- How the kernel of a node has answered its call, and what came of it.
pub record Answered (kernels : KernelOp → BackendCall → Result BackendErr (Unit {0}))
    (node : AiGraphNode) (end : AiGraphNode × ℕ) : Type 0 where
  pub call : BackendCall
  pub call_for : CallFor node call
  pub answer :
      ((kernels node.desc.op call ≡ ok tt)
        × (end.1 ≡ 0)
        × (end.0.state.error_flag ≡ node.state.error_flag))
      ⊎ ((e : BackendErr) × (kernels node.desc.op call ≡ err e) × FailsWith end e)

-- How `k3_run_kernel` leaves a node, and what it returns.
pub record Ends (kernels : KernelOp → BackendCall → Result BackendErr (Unit {0}))
    (node : AiGraphNode) (end : AiGraphNode × ℕ) : Type 0 where
  pub desc : end.0.desc ≡ node.desc
  pub node_id : end.0.node_id ≡ node.node_id
  pub complete : end.0.state.complete ≡ 1
  pub reported :
      ((max_submit_tensors < node.desc.input_count + node.desc.output_count)
        × FailsWith end BackendErr.invalid_input)
      ⊎ ((node.desc.input_count + node.desc.output_count ≤ max_submit_tensors)
          × (op_is_known node.desc.op ≡ false)
          × FailsWith end BackendErr.unsupported_op)
      ⊎ ((node.desc.input_count + node.desc.output_count ≤ max_submit_tensors)
          × (op_is_known node.desc.op ≡ true)
          × Answered kernels node end)

failed-FailsWith : (node : AiGraphNode) (e : BackendErr) → FailsWith (failed node e) e
unfolding backend_code
failed-FailsWith node BackendErr.invalid_input = (omega arith, refl)
failed-FailsWith node BackendErr.invalid_tensor = (omega arith, refl)
failed-FailsWith node BackendErr.invalid_attr = (omega arith, refl)
failed-FailsWith node BackendErr.unsupported_dtype = (omega arith, refl)
failed-FailsWith node BackendErr.unsupported_op = (omega arith, refl)
failed-FailsWith node BackendErr.execution_failed = (omega arith, refl)
failed-FailsWith node BackendErr.null_pointer = (omega arith, refl)

module _ (kernels : KernelOp → BackendCall → Result BackendErr (Unit {0}))
    (node : AiGraphNode) where
  too_many-Ends :
      max_submit_tensors < node.desc.input_count + node.desc.output_count
      → Ends kernels node (failed node BackendErr.invalid_input)
  too_many-Ends many = record {
    desc = refl;
    node_id = refl;
    complete = refl;
    reported = inl (many, failed-FailsWith node BackendErr.invalid_input);
  }

  finished-Ends :
      node.desc.input_count + node.desc.output_count ≤ max_submit_tensors
      → op_is_known node.desc.op ≡ true
      → (r : Result BackendErr (Unit {0})) → kernels node.desc.op (call_of node) ≡ r
      → Ends kernels node (finished node r)
  finished-Ends few known (ok _) answered = record {
    desc = refl;
    node_id = refl;
    complete = refl;
    reported = inr (
        inr (
          few,
          known,
          record {
            call = call_of node;
            call_for = call_of-CallFor node;
            answer = inl (answered, refl, refl);
          },
        ));
  }
  finished-Ends few known (err e) answered = record {
    desc = refl;
    node_id = refl;
    complete = refl;
    reported = inr (
        inr (
          few,
          known,
          record {
            call = call_of node;
            call_for = call_of-CallFor node;
            answer = inr (e, answered, failed-FailsWith node e);
          },
        ));
  }

  dispatched-Ends :
      node.desc.input_count + node.desc.output_count ≤ max_submit_tensors
      → Ends kernels node (finished node (dispatch kernels (call_of node)))
  unfolding dispatch
  dispatched-Ends few = elim (Bool-cases (op_is_known node.desc.op)) [
    | inl known ↦
        let same : has_kernel (call_of node).op ≡ true =
          ap has_kernel (call_of-CallFor node).op ∙ has_kernel_known node.desc.op ∙ known in
        rw (same, dispatch)
          (finished-Ends few known _
            (ap (λ op. kernels op (call_of node)) (sym (call_of-CallFor node).op)))
    | inr unknown ↦
        let same : has_kernel (call_of node).op ≡ false =
          ap has_kernel (call_of-CallFor node).op ∙ has_kernel_known node.desc.op ∙ unknown in
        rw (same, dispatch)
          (record {
            desc = refl;
            node_id = refl;
            complete = refl;
            reported = inr (inl (few, unknown, failed-FailsWith node BackendErr.unsupported_op));
          })
  ]

  -- `k3_run_kernel` keeps the id and the description of the node and marks it complete. With more than
  -- `MAX_SUBMIT_TENSORS` tensors it fails with `InvalidInput`; with no more, and an operator that the
  -- ABI does not know, it fails with `UnsupportedOp`; otherwise what the kernel of that operator
  -- answers to the call with the views of the node's tensors in order decides: success returns 0 and
  -- keeps the error flag, an error fails with that error. To fail is to return the negated code of the
  -- error, with the code in the error flag.
  pub k3_run_kernel-Ends : Ends kernels node (k3_run_kernel kernels node)
  unfolding k3_run_kernel run_counted checked_total try_as_usize
  k3_run_kernel-Ends =
      let total = node.desc.input_count + node.desc.output_count in
      elim (Bool-cases (ltb total u32_mod)) [
        | inr far ↦ rw (far, k3_run_kernel, checked_total) (too_many-Ends (ground (arith, far)))
        | inl near ↦
            let small : ltb total usize_mod ≡ true = ground (arith, near) in
            elim (Bool-cases (ltb max_submit_tensors total)) [
              | inl many ↦
                  rw (near, k3_run_kernel, checked_total)
                    (rw (small, run_counted)
                      (rw (many, run_counted) (too_many-Ends (ground (arith, many)))))
              | inr few ↦
                  rw (near, k3_run_kernel, checked_total)
                    (rw (small, run_counted)
                      (rw (few, run_counted) (dispatched-Ends (ground (arith, few)))))
            ]
      ]
