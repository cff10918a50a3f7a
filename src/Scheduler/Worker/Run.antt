-- ===== src/Scheduler/Worker/Run.antt =====
-- What a worker (k3_aiScheduler/src/woker.rs) reports of a task.
use k3x_hera_rt.Common.{
  ◌∙◌, some, ℕ, ◌-◌, ◌≡◌, ◌≢◌, refl, ◌⊎◌, inl, inr, List, [], ◌∷◌, ◌++◌, map, Result, ◌==◌, u32_mod,
  Bool-cases, ==_ne, ap, ap₂, ℕ_discrete,
}
use k3x_hera_rt.Uabi.Kernel.{KernelOp}
use k3x_hera_rt.Backend.Kernel.{BackendCall, k3_run_kernel}
use k3x_hera_rt.Backend.Kernel.Routing.{k3_run_kernel-Ends}
use k3x_hera_rt.Uabi.Error.{
  SchedulerErr, BackendErr, AiCompletion, scheduler_code, backend_code, from_u8,
  from_u8-backend_code,
}
use k3x_hera_rt.Uabi.Graph.Blob.Bytes.{All}
use k3x_hera_rt.Uabi.Desc.{AiKernelDesc}
use k3x_hera_rt.Uabi.Graph.{AiGraphNode, default_state}
use k3x_hera_rt.Scheduler.TaskLink.{TaskLink}
use k3x_hera_rt.Scheduler.Worker.Release.{IsFull, all_mappings, release_tensor_mappings_lem}
use k3x_hera_rt.Scheduler.Worker.{
  Outcome, no_failure, record_failure, run_nodes, serve, completion_of, release_node,
  release_tensor_mappings,
}

release_node-desc : (a b : AiGraphNode) → a.desc ≡ b.desc → release_node a ≡ release_node b
unfolding release_node
release_node-desc a b same =
    ap
      (λ (d : AiKernelDesc). release_node (record { node_id = 0; desc = d; state = default_state }))
      same

-- The completion of a task that failed.
abbrev failure_of : (user_token id flag op : ℕ) → AiCompletion
failure_of user_token id flag op = record {
  user_token = user_token;
  failed_node_id = id;
  status = scheduler_code SchedulerErr.execution_failed;
  failed_node_err = flag;
  failed_node_op = op;
}

module _ (kernels : KernelOp → BackendCall → Result BackendErr (Unit {0})) where
  -- A node as its kernel leaves it.
  abbrev pub ran : AiGraphNode → AiGraphNode
  ran node = (k3_run_kernel kernels node).0

  -- Every kernel of these nodes answers 0.
  abbrev pub AllSucceed : List AiGraphNode → Type 0
  AllSucceed [] = Unit {0}
  AllSucceed (node ∷ nodes) = ((k3_run_kernel kernels node).1 ≡ 0) × AllSucceed nodes

  -- The first failure among the nodes: those before it, it, and those after it.
  pub record FirstFailure (nodes : List AiGraphNode) : Type 0 where
    pub before : List AiGraphNode
    pub node : AiGraphNode
    pub later : List AiGraphNode
    pub split : nodes ≡ before ++ (node ∷ later)
    pub succeed : AllSucceed before
    pub fails : (k3_run_kernel kernels node).1 ≢ 0

  run_nodes_lem :
      (nodes : List AiGraphNode)
      → (AllSucceed nodes × (run_nodes kernels nodes no_failure ≡ (map ran nodes, no_failure)))
        ⊎ ((f : FirstFailure nodes) × (run_nodes kernels nodes no_failure ≡ (
          map ran f.before ++ (ran f.node ∷ f.later),
          record_failure no_failure (ran f.node),
        )))
  unfolding run_nodes
  run_nodes_lem [] = inl (tt, refl)
  run_nodes_lem (node ∷ nodes) = elim (ℕ_discrete (k3_run_kernel kernels node).1 0) [
    | no p ↦ inr (
      record { before = []; node = node; later = nodes; split = refl; succeed = tt; fails = p },
      rw (==_ne (k3_run_kernel kernels node).1 0 p, run_nodes) refl,
    )
    | yes p ↦ elim (run_nodes_lem nodes) [
      | inl (all, eq) ↦ inl ((p, all), rw (p, run_nodes) (ap (λ r. (ran node ∷ r.0, r.1)) eq))
      | inr (f, eq) ↦ inr (
        record {
          before = node ∷ f.before;
          node = f.node;
          later = f.later;
          split = ap (λ xs. node ∷ xs) f.split;
          succeed = (p, f.succeed);
          fails = f.fails;
        },
        rw (p, run_nodes) (ap (λ r. (ran node ∷ r.0, r.1)) eq),
      )
    ]
  ]

  -- The error flag of a failed node reads back.
  failure_code :
      {nodes : List AiGraphNode} (f : FirstFailure nodes)
      → (e : BackendErr) × (from_u8 (ran f.node).state.error_flag ≡ some e)
  failure_code f = elim (k3_run_kernel-Ends kernels f.node).reported [
    | inl (_, fails) ↦ reads_back BackendErr.invalid_input fails.1
    | inr (inl (_, _, fails)) ↦ reads_back BackendErr.unsupported_op fails.1
    | inr (inr (_, _, a)) ↦ elim a.answer [
      | inl (_, zero_code, _) ↦ absurd (f.fails zero_code)
      | inr (e, _, fails) ↦ reads_back e fails.1
    ]
  ]
    where
      reads_back :
          (e : BackendErr) {flag : ℕ}
          → flag ≡ backend_code e
          → (e' : BackendErr) × (from_u8 flag ≡ some e')
      reads_back e same = (e, ap from_u8 same ∙ from_u8-backend_code e)

  -- A worker runs the nodes of a task in order up to the first whose kernel fails. If none fails, the
  -- completion has status 0 and no failed node; otherwise its status is the code of
  -- `ExecutionFailed`, it names that node with its operator and error flag, which reads back as a
  -- `BackendErr`, and the later nodes are left as they were.
  pub serve_reports :
      (user_token : ℕ) (tasklink : TaskLink)
      → (AllSucceed tasklink.ordered_nodes
          × ((serve kernels user_token tasklink).nodes ≡ map ran tasklink.ordered_nodes)
          × ((serve kernels user_token tasklink).completion ≡ record {
            user_token = user_token;
            failed_node_id = u32_mod - 1;
            status = 0;
            failed_node_err = 0;
            failed_node_op = 0;
          }))
        ⊎ ((f : FirstFailure tasklink.ordered_nodes) × ((serve kernels user_token tasklink).nodes
              ≡ map ran f.before ++ (ran f.node ∷ f.later))
            × ((serve kernels user_token tasklink).completion ≡ record {
              user_token = user_token;
              failed_node_id = f.node.node_id;
              status = scheduler_code SchedulerErr.execution_failed;
              failed_node_err = (ran f.node).state.error_flag;
              failed_node_op = f.node.desc.op;
            })
            × ((e : BackendErr) × (from_u8 (ran f.node).state.error_flag ≡ some e)))
  unfolding serve
  serve_reports user_token tasklink = elim (run_nodes_lem tasklink.ordered_nodes) [
    | inl (all, eq) ↦ inl (all, ap (λ r. r.0) eq, ap (λ r. completion_of kernels user_token r.1) eq)
    | inr (f, eq) ↦
        let kept = k3_run_kernel-Ends kernels f.node in
        inr (
          f,
          ap (λ r. r.0) eq,
          ap (λ r. completion_of kernels user_token r.1) eq
              ∙ ap₂
                  (λ (id : ℕ) (d : AiKernelDesc).
                    failure_of user_token id (ran f.node).state.error_flag d.op)
                  kept.node_id kept.desc,
          failure_code f,
        )
  ]

  release_run :
      (nodes : List AiGraphNode) (o : Outcome)
      → release_tensor_mappings (run_nodes kernels nodes o).0 ≡ release_tensor_mappings nodes
  unfolding run_nodes release_tensor_mappings
  release_run [] o = refl
  release_run (node ∷ nodes) o = elim (Bool-cases ((k3_run_kernel kernels node).1 == 0)) [
    | inr p ↦
        rw (p, run_nodes)
          (ap (λ us. us ++ release_tensor_mappings nodes)
            (release_node-desc (ran node) node (k3_run_kernel-Ends kernels node).desc))
    | inl p ↦
        rw (p, run_nodes)
          (ap₂ (λ us vs. us ++ vs)
            (release_node-desc (ran node) node (k3_run_kernel-Ends kernels node).desc)
            (release_run nodes o))
  ]

  -- Whatever the kernels answer, a worker calls `unmap_user` for exactly the mappings of the nodes of
  -- the task as it was submitted, in their order, those after a failure too: once for each of a node's
  -- inputs and outputs with a kernel address and a size that are not 0 (the size in the range of a
  -- `usize`), and for none of a node that names more than `MAX_SUBMIT_TENSORS` tensors. The nodes have
  -- arrays of that many tensors.
  pub serve_releases :
      (user_token : ℕ) (tasklink : TaskLink)
      → All IsFull tasklink.ordered_nodes
      → (serve kernels user_token tasklink).unmapped ≡ all_mappings tasklink.ordered_nodes
  unfolding serve
  serve_releases user_token tasklink full =
      release_run tasklink.ordered_nodes no_failure
      ∙ release_tensor_mappings_lem tasklink.ordered_nodes full
