-- ===== src/FaultTolerance.antt =====
-- src/fault_tolerance.c and include/fault_tolerance.h: the reports of faults, their recovery and the
-- health of components. The
-- scores, which are doubles, and the description have no field; the static table of components is
-- part of the state. The clock is read at the arguments `now` and `later`.
pub mod Accounting
pub mod Health
use universal_multi_segmente.Prelude.{
  ℕ, ◌+◌, ◌*◌, ◌%◌, Bool, true, false, not, ◌&&◌, Option, none, some, List, [], ◌∷◌, ltb, leb, ◌==◌,
  if◌then◌else◌, add_size, sub_size, add32, sub32, get_elem?, set, replicate,
}

pub data FaultType : Type 0 where
  no_fault corruption timeout overflow underflow memory network gpu deadlock starvation : FaultType

pub data RecoveryAction : Type 0 where
  no_action retry fallback reset isolate escalate : RecoveryAction

-- The sequence number and the data size, which nothing reads or writes, are left out.
pub record FaultRecord : Type 0 where
  pub fault_id : ℕ
  pub type : FaultType
  pub timestamp_us : ℕ
  pub component_id : ℕ
  pub severity : ℕ
  pub retry_count : ℕ
  pub action_taken : RecoveryAction
  pub recovery_successful : Bool
  pub recovery_time_us : ℕ

pub record ComponentHealth : Type 0 where
  pub component_id : ℕ
  pub operations_count : ℕ
  pub success_count : ℕ
  pub failure_count : ℕ
  pub last_heartbeat_us : ℕ
  pub consecutive_failures : ℕ
  pub is_healthy : Bool
  pub is_degraded : Bool
  pub is_isolated : Bool

pub record FaultManager : Type 0 where
  pub records : List FaultRecord
  pub capacity : ℕ
  pub head : ℕ
  pub tail : ℕ
  pub active_faults : ℕ
  pub total_faults : ℕ
  pub recovered_faults : ℕ
  pub unrecoverable_faults : ℕ
  pub total_recovery_time_us : ℕ
  pub degraded_components : ℕ
  pub max_retry_attempts : ℕ
  pub auto_recovery_enabled : Bool
  pub components : List ComponentHealth

-- Records and components as `calloc` leaves them.
abbrev pub blank_record : FaultRecord
blank_record = record {
  fault_id = 0;
  type = no_fault;
  timestamp_us = 0;
  component_id = 0;
  severity = 0;
  retry_count = 0;
  action_taken = no_action;
  recovery_successful = false;
  recovery_time_us = 0;
}

abbrev pub blank_component : ComponentHealth
blank_component = record {
  component_id = 0;
  operations_count = 0;
  success_count = 0;
  failure_count = 0;
  last_heartbeat_us = 0;
  consecutive_failures = 0;
  is_healthy = false;
  is_degraded = false;
  is_isolated = false;
}

unfoldable pub fault_tolerance_init : ℕ → FaultManager
fault_tolerance_init capacity = record {
  records = replicate capacity blank_record;
  capacity = capacity;
  head = 0;
  tail = 0;
  active_faults = 0;
  total_faults = 0;
  recovered_faults = 0;
  unrecoverable_faults = 0;
  total_recovery_time_us = 0;
  degraded_components = 0;
  max_retry_attempts = 3;
  auto_recovery_enabled = true;
  components = replicate 64 blank_component;
}

abbrev pub severity_of : FaultType → ℕ
severity_of corruption = 3
severity_of deadlock = 3
severity_of timeout = 2
severity_of overflow = 2
severity_of gpu = 2
severity_of underflow = 1
severity_of memory = 1
severity_of _ = 0

unfoldable pub determine_recovery_action : FaultManager → FaultRecord → FaultType → RecoveryAction
determine_recovery_action m r corruption = reset
determine_recovery_action m r timeout =
    if ltb r.retry_count m.max_retry_attempts then retry else fallback
determine_recovery_action m r overflow = fallback
determine_recovery_action m r underflow = fallback
determine_recovery_action m r memory = retry
determine_recovery_action m r network = retry
determine_recovery_action m r gpu = fallback
determine_recovery_action m r deadlock = reset
determine_recovery_action m r starvation = escalate
determine_recovery_action m r no_fault = no_action

-- The loop that finds the record, with the records that are left and `i`.
unfoldable pub find_record : List FaultRecord → ℕ → ℕ → Option (ℕ × FaultRecord)
find_record [] id i = none
find_record (r ∷ rs) id i =
    let rest = find_record rs id (i + 1) in if r.fault_id == id then some (i, r) else rest

abbrev pub with_component : FaultManager → ComponentHealth → ℕ → FaultManager
with_component m c id = record m { components = set m.components id c }

unfoldable pub reset_component : FaultManager → ℕ → Option ComponentHealth → Bool × FaultManager
reset_component m id none = (false, m)
reset_component m id (some c) = (
  true,
  with_component m (record c { consecutive_failures = 0; is_healthy = true; is_degraded = false })
      id,
)

unfoldable pub isolate_component : FaultManager → ℕ → Option ComponentHealth → Bool × FaultManager
isolate_component m id none = (false, m)
isolate_component m id (some c) = (
  true,
  record (with_component m (record c { is_isolated = true; is_healthy = false }) id) {
    degraded_components = add32 m.degraded_components 1;
  },
)

-- What an action does, for a record that has counted it. The table has `max_components` components.
unfoldable pub attempt : FaultManager → FaultRecord → RecoveryAction → Bool × FaultManager
attempt m r retry = (leb r.retry_count m.max_retry_attempts, m)
attempt m r fallback = (true, m)
attempt m r reset = reset_component m r.component_id (get_elem? m.components r.component_id)
attempt m r isolate = isolate_component m r.component_id (get_elem? m.components r.component_id)
attempt m r escalate = (false, m)
attempt m r no_action = (false, m)

-- The end of `fault_tolerance_execute_recovery`, with the time that it took.
unfoldable pub conclude : ℕ → ℕ → FaultRecord → Bool × FaultManager → Bool × FaultManager
conclude time i r (successful, m) =
    let n = record m {
      records =
          set m.records i (record r { recovery_time_us = time; recovery_successful = successful });
      total_recovery_time_us = add_size m.total_recovery_time_us time;
    } in
    (
      successful,
      (if successful
          then record n {
            recovered_faults = add_size n.recovered_faults 1;
            active_faults = sub32 n.active_faults 1;
          }
          else record n { unrecoverable_faults = add_size n.unrecoverable_faults 1 }),
    )

unfoldable pub recover_record :
    ℕ → FaultManager → RecoveryAction → Option (ℕ × FaultRecord) → Bool × FaultManager
recover_record time m chosen none = (false, m)
recover_record time m chosen (some (i, r)) =
    let r' = record r { action_taken = chosen; retry_count = add32 r.retry_count 1 } in
    conclude time i r' (attempt m r' chosen)

unfoldable pub execute_recovery : FaultManager → ℕ → ℕ → ℕ → RecoveryAction → Bool × FaultManager
execute_recovery m now later id no_action = (false, m)
execute_recovery m now later id chosen =
    recover_record (sub_size later now) m chosen (find_record m.records id 0)

unfoldable pub fail_component : FaultManager → ℕ → Option ComponentHealth → FaultManager
fail_component m id none = m
fail_component m id (some c) =
    let failures = add32 c.consecutive_failures 1 in
    with_component m
      (record c {
        component_id = id;
        consecutive_failures = failures;
        failure_count = add_size c.failure_count 1;
        is_healthy = if leb 5 failures then false else c.is_healthy;
        is_degraded = if leb 5 failures then true else c.is_degraded;
      })
      id

unfoldable pub new_record : FaultManager → ℕ → FaultType → ℕ → FaultRecord
new_record m now type component = record {
  fault_id = m.total_faults;
  type = type;
  timestamp_us = now;
  component_id = component;
  severity = severity_of type;
  retry_count = 0;
  action_taken = no_action;
  recovery_successful = false;
  recovery_time_us = 0;
}

-- `fault_tolerance_report_fault` up to the recovery.
unfoldable pub register_fault : FaultManager → ℕ → FaultType → ℕ → FaultManager
register_fault m now type component =
    let n = record m {
      records = set m.records (m.head % m.capacity) (new_record m now type component);
      total_faults = add_size m.total_faults 1;
      head = add32 m.head 1;
      active_faults = add32 m.active_faults 1;
    } in
    fail_component n component (get_elem? n.components component)

unfoldable pub report_fault : FaultManager → ℕ → ℕ → FaultType → ℕ → ℕ × FaultManager
report_fault m now later type component =
    let n = register_fault m now type component in
    let chosen = determine_recovery_action n (new_record m now type component) type in
    (
      m.total_faults,
      (if n.auto_recovery_enabled
          then (execute_recovery n now later m.total_faults chosen).1
          else n),
    )

-- The score is the double of `success_count / operations_count`; it compares with 0.95 and 0.7 as the
-- fraction does for counts below 2 ^ 46.
unfoldable pub judged : ComponentHealth → ComponentHealth
judged c =
    if ltb 0 c.operations_count
    then record c {
      is_healthy =
          ltb (95 * c.operations_count) (100 * c.success_count) && ltb c.consecutive_failures 3;
      is_degraded =
          ltb (100 * c.success_count) (95 * c.operations_count)
          && ltb (70 * c.operations_count) (100 * c.success_count);
    }
    else c

-- The counts of one operation; the response times are doubles.
unfoldable pub counted : ComponentHealth → Bool → ℕ → ComponentHealth
counted c successful now = record c {
  operations_count = add_size c.operations_count 1;
  success_count = if successful then add_size c.success_count 1 else c.success_count;
  failure_count = if successful then c.failure_count else add_size c.failure_count 1;
  consecutive_failures = if successful then 0 else add32 c.consecutive_failures 1;
  last_heartbeat_us = now;
}

unfoldable pub update_found : FaultManager → ℕ → Bool → ℕ → Option ComponentHealth → FaultManager
update_found m id successful now none = m
update_found m id successful now (some c) = with_component m (judged (counted c successful now)) id

-- `fault_tolerance_update_component_health`.
unfoldable pub update_component_health : FaultManager → ℕ → Bool → ℕ → FaultManager
update_component_health m id successful now =
    update_found m id successful now (get_elem? m.components id)

unfoldable pub check_found : FaultManager → ℕ → ℕ → Option ComponentHealth → Bool × FaultManager
check_found m id now none = (false, m)
check_found m id now (some c) =
    if ltb 5000000 (sub_size now c.last_heartbeat_us)
    then (false, with_component m (record c { is_healthy = false }) id)
    else (c.is_healthy && not c.is_isolated, m)

-- `fault_tolerance_is_component_healthy`, which changes the component.
unfoldable pub is_component_healthy : FaultManager → ℕ → ℕ → Bool × FaultManager
is_component_healthy m id now = check_found m id now (get_elem? m.components id)
