-- ===== src/Uabi/Error.antt =====
-- k3_aiUabi/src/error.rs: the error types of the runtime, the scheduler and the backend, and the
-- completion record. The codes of the `repr(u8)` enums are written as `code` functions.
use k3x_hera_rt.Common.{ℕ, ◌≡◌, refl, Option, none, some, ◌==◌, if◌then◌else◌, arith}

pub data AiRuntimeErr : Type 0 where
  invalid_abi_version invalid_input channel_not_initialized serialize_failed : AiRuntimeErr
  send_failed ioctl_failed mmap_failed device_open_failed alloc_failed : AiRuntimeErr
  invalid_shape invalid_layout : AiRuntimeErr
  graph_execution_failed : (node_id op backend_err : ℕ) → AiRuntimeErr

pub data SchedulerErr : Type 0 where
  invalid_graph parse_failed node_mapping_failed execution_failed : SchedulerErr
  notification_failed : SchedulerErr

unfoldable pub scheduler_code : SchedulerErr → ℕ
scheduler_code SchedulerErr.invalid_graph = 1
scheduler_code SchedulerErr.parse_failed = 2
scheduler_code SchedulerErr.node_mapping_failed = 3
scheduler_code SchedulerErr.execution_failed = 4
scheduler_code SchedulerErr.notification_failed = 5

pub data BackendErr : Type 0 where
  invalid_input invalid_tensor invalid_attr unsupported_dtype : BackendErr
  unsupported_op execution_failed null_pointer : BackendErr

-- `BackendErr as u8`
unfoldable pub backend_code : BackendErr → ℕ
backend_code BackendErr.invalid_input = 1
backend_code BackendErr.invalid_tensor = 2
backend_code BackendErr.invalid_attr = 3
backend_code BackendErr.unsupported_dtype = 4
backend_code BackendErr.unsupported_op = 5
backend_code BackendErr.execution_failed = 6
backend_code BackendErr.null_pointer = 7

-- `BackendErr::from_u8`
unfoldable pub from_u8 : ℕ → Option BackendErr
from_u8 v =
    if v == 1
    then some BackendErr.invalid_input
    else if v == 2
    then some BackendErr.invalid_tensor
    else if v == 3
    then some BackendErr.invalid_attr
    else if v == 4
    then some BackendErr.unsupported_dtype
    else if v == 5
    then some BackendErr.unsupported_op
    else if v == 6
    then some BackendErr.execution_failed
    else if v == 7
    then some BackendErr.null_pointer
    else none

-- `AiCompletion`, without its padding bytes.
pub record AiCompletion : Type 0 where
  pub user_token : ℕ
  pub failed_node_id : ℕ
  pub status : ℕ
  pub failed_node_err : ℕ
  pub failed_node_op : ℕ

-- Reading back the code of a backend error gives that error.
pub from_u8-backend_code : (e : BackendErr) → from_u8 (backend_code e) ≡ some e
unfolding from_u8 backend_code
from_u8-backend_code BackendErr.invalid_input = refl
from_u8-backend_code BackendErr.invalid_tensor = refl
from_u8-backend_code BackendErr.invalid_attr = refl
from_u8-backend_code BackendErr.unsupported_dtype = refl
from_u8-backend_code BackendErr.unsupported_op = refl
from_u8-backend_code BackendErr.execution_failed = refl
from_u8-backend_code BackendErr.null_pointer = refl

-- Only the code of an error is read as that error.
backend_code-from_u8 : (v : ℕ) (e : BackendErr) → from_u8 v ≡ some e → backend_code e ≡ v
unfolding from_u8 backend_code
backend_code-from_u8 v e h = ground arith
