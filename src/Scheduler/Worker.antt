-- ===== src/Scheduler/Worker.antt =====
-- k3_aiScheduler/src/woker.rs: what a worker does with one task, and its release of the mappings.
-- The kernels of the backend are a parameter (Backend/Kernel.antt). The calls of `unmap_user` and the completion that is
-- sent are part of the result; logging is left out.
pub mod Release
pub mod Run
use k3x_hera_rt.Common.{
  Result, ℕ, Bool, true, false, not, List, [], ◌∷◌, ◌++◌, leb, ◌==◌, if◌then◌else◌, length, take,
  u32_mod, ◌-◌, ok, err,
}
use k3x_hera_rt.Uabi.Types.{checked_total, try_as_usize}
use k3x_hera_rt.Uabi.Error.{SchedulerErr, BackendErr, AiCompletion, scheduler_code}
use k3x_hera_rt.Uabi.Kernel.{KernelOp}
use k3x_hera_rt.Backend.Kernel.{BackendCall, k3_run_kernel}
use k3x_hera_rt.Uabi.Desc.{AiTensorDesc}
use k3x_hera_rt.Uabi.Graph.{AiGraphNode}
use k3x_hera_rt.Scheduler.TaskLink.{TaskLink}

-- A call `unmap_user(kernel_va, size_bytes)`.
pub record Unmap : Type 0 where
  pub kernel_va : ℕ
  pub size_bytes : ℕ

-- The slot fields that a worker writes.
pub record WorkerSlot : Type 0 where
  pub worker_busy : Bool
  pub worker_token : ℕ

-- The loop of `release_tensor_mappings` over the tensors of a node.
unfoldable pub release_tensors : List AiTensorDesc → List Unmap
release_tensors [] = []
release_tensors (tensor ∷ tensors) =
    if tensor.kernel_va == 0
    then release_tensors tensors
    else elim (try_as_usize tensor.size_bytes) [
      | err _ ↦ release_tensors tensors
      | ok size_bytes ↦
          if size_bytes == 0
          then release_tensors tensors
          else record { kernel_va = tensor.kernel_va; size_bytes = size_bytes }
            ∷ release_tensors tensors
    ]

-- What it does for one node.
unfoldable pub release_node : AiGraphNode → List Unmap
unfolding release_tensors
release_node node = elim (checked_total node.desc.input_count node.desc.output_count) [
  | err _ ↦ []
  | ok total_count ↦
      if leb total_count (length node.desc.tensors)
      then release_tensors (take total_count node.desc.tensors)
      else []
]

-- `release_tensor_mappings`: the calls of `unmap_user`, in order. Their results are only logged.
unfoldable pub release_tensor_mappings : List AiGraphNode → List Unmap
release_tensor_mappings [] = []
release_tensor_mappings (node ∷ nodes) = release_node node ++ release_tensor_mappings nodes

-- `success`, `first_failed_node_id`, `_err` and `_op`
pub record Outcome : Type 0 where
  pub success : Bool
  pub failed_node_id : ℕ
  pub failed_node_err : ℕ
  pub failed_node_op : ℕ

abbrev pub no_failure : Outcome
no_failure = record {
  success = true;
  failed_node_id = u32_mod - 1;
  failed_node_err = 0;
  failed_node_op = 0;
}

-- The body of `if ret != 0`, on the node after the call.
abbrev pub record_failure : Outcome → AiGraphNode → Outcome
record_failure o node =
    if o.failed_node_id == u32_mod - 1
    then record {
      success = false;
      failed_node_id = node.node_id;
      failed_node_err = node.state.error_flag;
      failed_node_op = node.desc.op;
    }
    else record o { success = false }

module _ (kernels : KernelOp → BackendCall → Result BackendErr (Unit {0})) where
  -- The loop over the nodes: the chain as it is left, how many nodes were run, and the outcome.
  unfoldable pub run_nodes : List AiGraphNode → Outcome → List AiGraphNode × Outcome
  run_nodes [] o = ([], o)
  run_nodes (node ∷ nodes) o =
      let rest = run_nodes nodes o in
      if not ((k3_run_kernel kernels node).1 == 0)
      then ((k3_run_kernel kernels node).0 ∷ nodes, record_failure o (k3_run_kernel kernels node).0)
      else ((k3_run_kernel kernels node).0 ∷ rest.0, rest.1)

  -- The `AiCompletion` of a task, without its padding.
  abbrev pub completion_of : ℕ → Outcome → AiCompletion
  completion_of user_token o = record {
    user_token = user_token;
    failed_node_id = o.failed_node_id;
    status = if o.success then 0 else scheduler_code SchedulerErr.execution_failed;
    failed_node_err = o.failed_node_err;
    failed_node_op = o.failed_node_op;
  }

  -- The effects of one task, in order: the slot while it runs, the nodes as they are left, the
  -- mappings released, the completion sent, and the slot afterwards.
  pub record Served : Type 0 where
    pub during : WorkerSlot
    pub nodes : List AiGraphNode
    pub unmapped : List Unmap
    pub completion : AiCompletion
    pub after : WorkerSlot

  -- The body of the worker's loop on a task that it took.
  unfoldable pub serve : (user_token : ℕ) → TaskLink → Served
  unfolding run_nodes release_tensor_mappings
  serve user_token tasklink =
      let r = run_nodes tasklink.ordered_nodes no_failure in
      record {
        during = record { worker_busy = true; worker_token = user_token };
        nodes = r.0;
        unmapped = release_tensor_mappings r.0;
        completion = completion_of user_token r.1;
        after = record { worker_busy = false; worker_token = 0 };
      }
