-- ===== src/FaultTolerance/Accounting.antt =====
-- The counts of faults of src/fault_tolerance.c.
use universal_multi_segmente.Prelude.{
  ℕ, ◌+◌, ◌%◌, ◌^◌, ◌≡◌, refl, Bool, true, false, Option, none, some, List, [], ◌∷◌, arith, ltb,
  Bool-cases, inl, inr, if◌then◌else◌, add_size, sub_size, add32, sub32, get_elem?,
}
use universal_multi_segmente.FaultTolerance.{
  FaultType, RecoveryAction, no_action, retry, fallback, reset, isolate, escalate, FaultRecord,
  ComponentHealth, FaultManager, determine_recovery_action, find_record, reset_component,
  isolate_component, attempt, conclude, recover_record, execute_recovery, fail_component,
  new_record, register_fault, report_fault, update_found, update_component_health, check_found,
  is_component_healthy,
}

-- Every fault that was reported is active or recovered, in the width of the smaller counter.
pub record IsAccounted (m : FaultManager) : Type 0 where
  pub sum : (m.active_faults + m.recovered_faults) % 2 ^ 32 ≡ m.total_faults % 2 ^ 32

-- The counts of `n` are those of `m`.
record SameCounts (m n : FaultManager) : Type 0 where
  active : n.active_faults ≡ m.active_faults
  recovered : n.recovered_faults ≡ m.recovered_faults
  total : n.total_faults ≡ m.total_faults

SameCounts-refl : (m : FaultManager) → SameCounts m m
SameCounts-refl m = record { active = refl; recovered = refl; total = refl }

attempt-SameCounts :
    (m : FaultManager) (r : FaultRecord) (a : RecoveryAction) → SameCounts m (attempt m r a).1
unfolding attempt reset_component isolate_component
attempt-SameCounts m r retry = SameCounts-refl m
attempt-SameCounts m r fallback = SameCounts-refl m
attempt-SameCounts m r escalate = SameCounts-refl m
attempt-SameCounts m r no_action = SameCounts-refl m
attempt-SameCounts m r reset = found (get_elem? m.components r.component_id)
  where
    found : (o : Option ComponentHealth) → SameCounts m (reset_component m r.component_id o).1
    found none = SameCounts-refl m
    found (some c) = record { active = refl; recovered = refl; total = refl }
attempt-SameCounts m r isolate = found (get_elem? m.components r.component_id)
  where
    found : (o : Option ComponentHealth) → SameCounts m (isolate_component m r.component_id o).1
    found none = SameCounts-refl m
    found (some c) = record { active = refl; recovered = refl; total = refl }

conclude-IsAccounted :
    (time i : ℕ) (r : FaultRecord) (successful : Bool) (m : FaultManager)
    → IsAccounted m
    → IsAccounted (conclude time i r (successful, m)).1
unfolding conclude
conclude-IsAccounted time i r true m v = record { sum = omega (arith, v.sum) }
conclude-IsAccounted time i r false m v = record { sum = v.sum }

SameCounts-IsAccounted : {m n : FaultManager} → SameCounts m n → IsAccounted m → IsAccounted n
SameCounts-IsAccounted s v = record { sum = omega (arith, s.active, s.recovered, s.total, v.sum) }

recover_record-IsAccounted :
    (time : ℕ) (m : FaultManager) (a : RecoveryAction) (o : Option (ℕ × FaultRecord))
    → IsAccounted m
    → IsAccounted (recover_record time m a o).1
unfolding recover_record
recover_record-IsAccounted time m a none v = v
recover_record-IsAccounted time m a (some (i, r)) v =
    let r' = record r { action_taken = a; retry_count = add32 r.retry_count 1 } in
    let t = attempt m r' a in
    conclude-IsAccounted time i r' t.0 t.1 (SameCounts-IsAccounted (attempt-SameCounts m r' a) v)

execute_recovery-IsAccounted :
    (m : FaultManager) (now later id : ℕ) (a : RecoveryAction)
    → IsAccounted m
    → IsAccounted (execute_recovery m now later id a).1
unfolding execute_recovery
execute_recovery-IsAccounted m now later id no_action v = v
execute_recovery-IsAccounted m now later id retry v =
    recover_record-IsAccounted (sub_size later now) m retry (find_record m.records id 0) v
execute_recovery-IsAccounted m now later id fallback v =
    recover_record-IsAccounted (sub_size later now) m fallback (find_record m.records id 0) v
execute_recovery-IsAccounted m now later id reset v =
    recover_record-IsAccounted (sub_size later now) m reset (find_record m.records id 0) v
execute_recovery-IsAccounted m now later id isolate v =
    recover_record-IsAccounted (sub_size later now) m isolate (find_record m.records id 0) v
execute_recovery-IsAccounted m now later id escalate v =
    recover_record-IsAccounted (sub_size later now) m escalate (find_record m.records id 0) v

fail_component-IsAccounted :
    (m : FaultManager) (id : ℕ) (o : Option ComponentHealth)
    → IsAccounted m
    → IsAccounted (fail_component m id o)
unfolding fail_component
fail_component-IsAccounted m id none v = v
fail_component-IsAccounted m id (some c) v = record { sum = v.sum }

register_fault-IsAccounted :
    (m : FaultManager) (now : ℕ) (t : FaultType) (component : ℕ)
    → IsAccounted m
    → IsAccounted (register_fault m now t component)
unfolding register_fault
register_fault-IsAccounted m now t component v =
    fail_component-IsAccounted _ component (get_elem? m.components component)
      (record { sum = omega (arith, v.sum) })

if-IsAccounted :
    (b : Bool) {m n : FaultManager}
    → IsAccounted m
    → IsAccounted n
    → IsAccounted (if b then m else n)
if-IsAccounted true v w = v
if-IsAccounted false v w = w

report_fault-IsAccounted :
    (m : FaultManager) (now later : ℕ) (t : FaultType) (component : ℕ)
    → IsAccounted m
    → IsAccounted (report_fault m now later t component).1
unfolding report_fault
report_fault-IsAccounted m now later t component v =
    let n = register_fault m now t component in
    let w = register_fault-IsAccounted m now t component v in
    let chosen = determine_recovery_action n (new_record m now t component) t in
    if-IsAccounted n.auto_recovery_enabled
      (execute_recovery-IsAccounted n now later m.total_faults chosen w) w

update_component_health-IsAccounted :
    (m : FaultManager) (id : ℕ) (successful : Bool) (now : ℕ)
    → IsAccounted m
    → IsAccounted (update_component_health m id successful now)
unfolding update_component_health update_found
update_component_health-IsAccounted m id successful now v = found (get_elem? m.components id)
  where
    found : (o : Option ComponentHealth) → IsAccounted (update_found m id successful now o)
    found none = v
    found (some c) = record { sum = v.sum }

is_component_healthy-IsAccounted :
    (m : FaultManager) (id now : ℕ) → IsAccounted m → IsAccounted (is_component_healthy m id now).1
unfolding is_component_healthy check_found
is_component_healthy-IsAccounted m id now v = found (get_elem? m.components id)
  where
    found : (o : Option ComponentHealth) → IsAccounted (check_found m id now o).1
    found none = v
    found (some c) = elim (Bool-cases (ltb 5000000 (sub_size now c.last_heartbeat_us))) [
      | inl e ↦ rw e (record { sum = v.sum })
      | inr e ↦ rw e v
    ]

-- Reports of faults, recoveries that are asked for, operations of components and looks at them.
pub data Call : Type 0 where
  operate : ℕ → Bool → ℕ → Call
  check : ℕ → ℕ → Call
  report : ℕ → ℕ → FaultType → ℕ → Call
  recover : ℕ → ℕ → ℕ → RecoveryAction → Call

unfoldable pub handled : FaultManager → List Call → FaultManager
handled m [] = m
handled m (report now later t component ∷ cs) = handled (report_fault m now later t component).1 cs
handled m (operate component successful now ∷ cs) =
    handled (update_component_health m component successful now) cs
handled m (check component now ∷ cs) = handled (is_component_healthy m component now).1 cs
handled m (recover now later id a ∷ cs) = handled (execute_recovery m now later id a).1 cs

-- Whatever faults are reported to a manager, whatever recoveries are asked for and however they end,
-- and whatever components do and are asked, the faults reported are those active and those recovered, modulo 2 ^ 32.
pub handled-IsAccounted :
    (m : FaultManager) (cs : List Call) → IsAccounted m → IsAccounted (handled m cs)
unfolding handled
handled-IsAccounted m [] v = v
handled-IsAccounted m (report now later t component ∷ cs) v =
    handled-IsAccounted (report_fault m now later t component).1 cs
      (report_fault-IsAccounted m now later t component v)
handled-IsAccounted m (operate component successful now ∷ cs) v =
    handled-IsAccounted (update_component_health m component successful now) cs
      (update_component_health-IsAccounted m component successful now v)
handled-IsAccounted m (check component now ∷ cs) v =
    handled-IsAccounted (is_component_healthy m component now).1 cs
      (is_component_healthy-IsAccounted m component now v)
handled-IsAccounted m (recover now later id a ∷ cs) v =
    handled-IsAccounted (execute_recovery m now later id a).1 cs
      (execute_recovery-IsAccounted m now later id a v)

-- A fallback of a fault that has a record is a success, however often it was recovered before: each
-- time it takes one fault off the active ones.
pub fallback_again :
    (m : FaultManager) (now later id i : ℕ) (r : FaultRecord)
    → find_record m.records id 0 ≡ some (i, r)
    → let (successful, n) = execute_recovery m now later id fallback in
      (successful ≡ true)
      × (n.active_faults ≡ sub32 m.active_faults 1)
      × (n.recovered_faults ≡ add_size m.recovered_faults 1)
unfolding execute_recovery recover_record attempt conclude
fallback_again m now later id i r e = rw e (refl, refl, refl)
