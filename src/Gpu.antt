-- ===== src/Gpu.antt =====
-- src/gpu_delegate.c as the bus uses it. Which accelerators the machine has, and what a copy by the
-- CUDA library gives, are the driver's: a parameter.
use universal_multi_segmente.Prelude.{ℕ, ◌*◌, Bool, true, false, ltb, if◌then◌else◌}

-- `available` is the disjunction of the capabilities that the first initialisation detects; `parallel_copy` is the result of `gpu_parallel_copy` for a size.
pub record GpuDriver : Type 0 where
  pub available : Bool
  pub parallel_copy : ℕ → Bool

abbrev pub gpu_available : GpuDriver → Bool
gpu_available d = d.available

-- The argument says whether an earlier call has set `gpu_initialized`.
abbrev pub initialize_gpu : GpuDriver → Bool → Bool
initialize_gpu d initialised = if initialised then true else d.available

unfoldable pub try_gpu_execute : GpuDriver → ℕ → Bool
try_gpu_execute d size =
    if gpu_available d
    then (if ltb (1024 * 1024) size then d.parallel_copy size else false)
    else false
