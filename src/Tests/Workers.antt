-- ===== src/Tests/Workers.antt =====
-- A worker on a task of three nodes, of which the kernel of the second fails.
use k3x_hera_rt.Common.{
  refl, ℕ, ◌-◌, ◌≡◌, ◌⊎◌, none, some, [], ◌∷◌, ◌++◌, map, ◌==◌, if◌then◌else◌, u32_mod, replicate,
  Result, ok, err,
}
use k3x_hera_rt.Uabi.Error.{
  SchedulerErr, BackendErr, scheduler_code, backend_code, from_u8, from_u8-backend_code,
}
use mathlib.Core.List.{filter_map}
use k3x_hera_rt.Uabi.Kernel.{KernelOp, add_op}
use k3x_hera_rt.Backend.Kernel.{BackendCall, k3_run_kernel}
use k3x_hera_rt.Backend.Kernel.Routing.{Ends, k3_run_kernel-Ends}
use k3x_hera_rt.Uabi.Desc.{default_kernel_desc, default_tensor}
use k3x_hera_rt.Uabi.Graph.{AiGraphNode, default_state}
use k3x_hera_rt.Scheduler.TaskLink.{TaskLink}
use k3x_hera_rt.Scheduler.Worker.{serve}
use k3x_hera_rt.Scheduler.Worker.Run.{AllSucceed, FirstFailure, ran, serve_reports, serve_releases}

-- Kernels that fail on a call without inputs.
abbrev kernel : KernelOp → BackendCall → Result BackendErr (Unit {0})
kernel op call = if call.input_count == 0 then err BackendErr.execution_failed else ok tt

abbrev mapped_node : ℕ → ℕ → AiGraphNode
mapped_node id inputs = record {
  node_id = id;
  desc = record default_kernel_desc {
    op = add_op;
    input_count = inputs;
    output_count = 1;
    tensors =
        record default_tensor { kernel_va = 4096; size_bytes = 64 } ∷ replicate 7 default_tensor;
  };
  state = default_state;
}

abbrev task : TaskLink
task = record {
  pid = 9;
  head_node = some 0;
  tail_node = some 2;
  next_node = some 1 ∷ some 2 ∷ none ∷ [];
  node_order = 0 ∷ 1 ∷ 2 ∷ [];
  ordered_nodes = mapped_node 0 1 ∷ mapped_node 1 0 ∷ mapped_node 2 2 ∷ [];
}

serve_reports_example :
    (AllSucceed kernel task.ordered_nodes
      × ((serve kernel 5 task).nodes ≡ map (ran kernel) task.ordered_nodes)
      × ((serve kernel 5 task).completion ≡ record {
        user_token = 5;
        failed_node_id = u32_mod - 1;
        status = 0;
        failed_node_err = 0;
        failed_node_op = 0;
      }))
    ⊎ ((f : FirstFailure kernel task.ordered_nodes) × ((serve kernel 5 task).nodes
          ≡ map (ran kernel) f.before ++ (ran kernel f.node ∷ f.later))
        × ((serve kernel 5 task).completion ≡ record {
          user_token = 5;
          failed_node_id = f.node.node_id;
          status = scheduler_code SchedulerErr.execution_failed;
          failed_node_err = (ran kernel f.node).state.error_flag;
          failed_node_op = f.node.desc.op;
        })
        × ((e : BackendErr) × (from_u8 (ran kernel f.node).state.error_flag ≡ some e)))
serve_reports_example = serve_reports kernel 5 task

-- Node 0 has one mapped input, and so have the two others, whose first tensor is an input or an output.
serve_releases_example :
    (serve kernel 5 task).unmapped
    ≡ record { kernel_va = 4096; size_bytes = 64 }
      ∷ record { kernel_va = 4096; size_bytes = 64 }
      ∷ record { kernel_va = 4096; size_bytes = 64 }
      ∷ []
unfolding filter_map
serve_releases_example = serve_releases kernel 5 task (refl, (refl, (refl, tt)))

from_u8-backend_code_example :
    from_u8 (backend_code BackendErr.invalid_attr) ≡ some BackendErr.invalid_attr
from_u8-backend_code_example = from_u8-backend_code BackendErr.invalid_attr

k3_run_kernel-Ends_example : Ends kernel (mapped_node 1 0) (k3_run_kernel kernel (mapped_node 1 0))
k3_run_kernel-Ends_example = k3_run_kernel-Ends kernel (mapped_node 1 0)
