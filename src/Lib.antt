-- ===== src/Lib.antt =====
-- HERA-RT runs graphs of AI operators on the K3: user space builds a graph, freezes it to a block of
-- bytes and submits it; the kernel parses it, resolves it to a chain of nodes, queues the chain on the
-- submitting core, and a worker of that core runs the nodes on the backend and sends a completion.
--
-- The files follow that way. A function keeps its Rust name; a method returns the new state beside
-- its result.
--   Common: Boolean tests, lists, machine words (`usize` is 64 bits wide), results and counting.
--   Uabi: k3_aiUabi/src. Types (types.rs), Kernel (kernel.rs), Error (error.rs), Dtype and Desc
--   (desc.rs); Graph (graph.rs) with Graph/Validate (`validate_graph`, `has_cycle`), Graph/Manager
--   (`GraphManager`) and Graph/Blob (`AiGraphBlob`, `AiGraphParser`). Graph/WellFormed is what a graph
--   needs to have a schedule.
--   Kahn: the topological sort that `has_cycle` and `resolve_parsed_graph` have in common.
--   Scheduler: k3_aiScheduler/src. TaskLink (`resolve_parsed_graph` of kd_kring.rs), Schedule (what it
--   promises), Queue (`PerCoreTaskQueue` of scheduler.rs), Slots (`GraphScheduler` and `run_graph` of
--   scheduler.rs), Threads (`try_push` and `try_pop` of one queue by several threads, a shared access at
--   a time), Worker (woker.rs), and EndToEnd, which joins the graph of user space and the chain
--   of the kernel.
--   Backend: k3_kernel_backend/src. Call (the views and their checks of call.rs),
--   Context (`CallContext` of call.rs), Kernel (`k3_run_kernel` of lib.rs), Vector (`copy_bytes` and
--   `gather_bytes` of rvv.rs with their hardware loops), Transform (transform.rs: reading and writing
--   tensors in logical order, the index computations, and the entries of the operators that move
--   data, in Transform/Entries and Transform/GatherEntries).
--   Tests: concrete runs.
--
-- A panic (an index out of bounds, an overflow, a failed assertion) is `none`. Loops without a bound in
-- their data take fuel. `reaches` takes two rounds more than there are edges, since each edge is pushed
-- at most once; the loop over a worklist takes one round more than there are nodes, since each node is
-- pushed at most once. The loops of the queue take the outcomes of their weak compare-exchanges, of
-- which one has to succeed. The vector loops take a round for each element, since a round handles at
-- least one. The threads of a queue are modelled with one order of all accesses to shared memory, which
-- is stronger than what `Ordering::Relaxed` promises.
--
-- The memory image of `repr(C)` types, which the compiler fixes, is a parameter (`Repr` of
-- Uabi/Graph/Blob). What the kernels of the single operators answer is one too, as
-- a function of the operator and the call: the theorems about a worker hold for any such function. The
-- tensor memory that a real kernel also reads is not a part of it, so nodes with equal calls answer
-- alike. The reserved words of the descriptors (`reserved0`, `reserved`), which no code reads, are left
-- out. The rounds of a hardware loop give the bytes of the destination one after the other.
--
-- Not modelled: the floating-point kernels (binary.rs, conv2d.rs, matmul.rs, nn.rs, unary.rs, the casts,
-- the resize of transform.rs, the arithmetic of rvv.rs), since they compute with `f32` and `f16`; concat;
-- logging, formatting, the traits and system calls of the host, the channels (a crate that is not in the
-- repository), and the interleaving of several callers that initialise one scheduler slot.
pub mod Common
pub mod Uabi
pub mod Kahn
pub mod Scheduler
pub mod Backend
mod Tests
