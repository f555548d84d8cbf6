-- ===== src/FaultTolerance/Health.antt =====
-- The health of the components of src/fault_tolerance.c.
use universal_multi_segmente.Prelude.{
  ℕ, ◌≡◌, refl, ap, ◌∙◌, sym, Bool, true, false, ◌&&◌, Option, none, some, List, [], ◌∷◌, ltb, ◌==◌,
  Bool-cases, inl, inr, if◌then◌else◌, get_elem?, get_elem?-set_self, get_elem?-set_ne,
  get_elem?-some, ==_iff, ◌≢◌, set, sub_size, add32,
}
use mathlib.Core.Option.{some-injective}
use universal_multi_segmente.FaultTolerance.{
  FaultType, RecoveryAction, no_action, retry, fallback, reset, isolate, escalate, FaultRecord,
  ComponentHealth, FaultManager, find_record, reset_component, isolate_component, attempt, conclude,
  recover_record, execute_recovery, fail_component, register_fault, report_fault, judged, counted,
  update_found, update_component_health, check_found, is_component_healthy,
}
use universal_multi_segmente.FaultTolerance.Accounting.{
  Call, report, recover, operate, check, handled,
}

-- The component is isolated.
pub record IsIsolated (cs : List ComponentHealth) (id : ℕ) : Type 0 where
  pub health : ComponentHealth
  pub present : get_elem? cs id ≡ some health
  pub isolated : health.is_isolated ≡ true

judged-isolated : (c : ComponentHealth) → (judged c).is_isolated ≡ c.is_isolated
unfolding judged
judged-isolated c = elim (Bool-cases (ltb 0 c.operations_count)) [
  | inl e ↦ rw e refl
  | inr e ↦ rw e refl
]

module _ {id : ℕ} where
  -- A component is written back that is isolated if it was.
  set-IsIsolated :
      (cs : List ComponentHealth) (k : ℕ) (c d : ComponentHealth)
      → get_elem? cs k ≡ some c
      → (c.is_isolated ≡ true → d.is_isolated ≡ true)
      → IsIsolated cs id
      → IsIsolated (set cs k d) id
  set-IsIsolated cs k c d e f v = elim (Bool-cases (k == id)) [
    | inl q ↦
        let here : k ≡ id = (==_iff k id).0 q in
        let same : c ≡ v.health =
          some-injective c v.health (sym e ∙ ap (λ j. get_elem? cs j) here ∙ v.present) in
        record {
          health = d;
          present =
              ap (λ j. get_elem? (set cs k d) j) (sym here)
              ∙ get_elem?-set_self cs k d (get_elem?-some cs k c e);
          isolated = f (ap (λ (h : ComponentHealth). h.is_isolated) same ∙ v.isolated);
        }
    | inr q ↦
        let elsewhere : k ≢ id = λ here. let t = (==_iff k id).1 here in cc in
        record {
          health = v.health;
          present = get_elem?-set_ne cs d elsewhere ∙ v.present;
          isolated = v.isolated;
        }
  ]

  reset_component-IsIsolated :
      (m : FaultManager) (k : ℕ) (o : Option ComponentHealth)
      → get_elem? m.components k ≡ o
      → IsIsolated m.components id
      → IsIsolated (reset_component m k o).1.components id
  unfolding reset_component
  reset_component-IsIsolated m k none e v = v
  reset_component-IsIsolated m k (some c) e v = set-IsIsolated m.components k c _ e (λ h. h) v

  isolate_component-IsIsolated :
      (m : FaultManager) (k : ℕ) (o : Option ComponentHealth)
      → get_elem? m.components k ≡ o
      → IsIsolated m.components id
      → IsIsolated (isolate_component m k o).1.components id
  unfolding isolate_component
  isolate_component-IsIsolated m k none e v = v
  isolate_component-IsIsolated m k (some c) e v = set-IsIsolated m.components k c _ e (λ h. refl) v

  attempt-IsIsolated :
      (m : FaultManager) (r : FaultRecord) (a : RecoveryAction)
      → IsIsolated m.components id
      → IsIsolated (attempt m r a).1.components id
  unfolding attempt
  attempt-IsIsolated m r retry v = v
  attempt-IsIsolated m r fallback v = v
  attempt-IsIsolated m r escalate v = v
  attempt-IsIsolated m r no_action v = v
  attempt-IsIsolated m r reset v = reset_component-IsIsolated m r.component_id _ refl v
  attempt-IsIsolated m r isolate v = isolate_component-IsIsolated m r.component_id _ refl v

  conclude-IsIsolated :
      (time i : ℕ) (r : FaultRecord) (answer : Bool × FaultManager)
      → IsIsolated answer.1.components id
      → IsIsolated (conclude time i r answer).1.components id
  unfolding conclude
  conclude-IsIsolated time i r (true, m) v = v
  conclude-IsIsolated time i r (false, m) v = v

  recover_record-IsIsolated :
      (time : ℕ) (m : FaultManager) (a : RecoveryAction) (o : Option (ℕ × FaultRecord))
      → IsIsolated m.components id
      → IsIsolated (recover_record time m a o).1.components id
  unfolding recover_record
  recover_record-IsIsolated time m a none v = v
  recover_record-IsIsolated time m a (some (i, r)) v =
      let r' = record r { action_taken = a; retry_count = add32 r.retry_count 1 } in
      conclude-IsIsolated time i r' (attempt m r' a) (attempt-IsIsolated m r' a v)

  execute_recovery-IsIsolated :
      (m : FaultManager) (now later k : ℕ) (a : RecoveryAction)
      → IsIsolated m.components id
      → IsIsolated (execute_recovery m now later k a).1.components id
  unfolding execute_recovery
  execute_recovery-IsIsolated m now later k no_action v = v
  execute_recovery-IsIsolated m now later k retry v =
      recover_record-IsIsolated _ m retry (find_record m.records k 0) v
  execute_recovery-IsIsolated m now later k fallback v =
      recover_record-IsIsolated _ m fallback (find_record m.records k 0) v
  execute_recovery-IsIsolated m now later k reset v =
      recover_record-IsIsolated _ m reset (find_record m.records k 0) v
  execute_recovery-IsIsolated m now later k isolate v =
      recover_record-IsIsolated _ m isolate (find_record m.records k 0) v
  execute_recovery-IsIsolated m now later k escalate v =
      recover_record-IsIsolated _ m escalate (find_record m.records k 0) v

  fail_component-IsIsolated :
      (m : FaultManager) (k : ℕ) (o : Option ComponentHealth)
      → get_elem? m.components k ≡ o
      → IsIsolated m.components id
      → IsIsolated (fail_component m k o).components id
  unfolding fail_component
  fail_component-IsIsolated m k none e v = v
  fail_component-IsIsolated m k (some c) e v = set-IsIsolated m.components k c _ e (λ h. h) v

  report_fault-IsIsolated :
      (m : FaultManager) (now later : ℕ) (t : FaultType) (component : ℕ)
      → IsIsolated m.components id
      → IsIsolated (report_fault m now later t component).1.components id
  unfolding report_fault register_fault
  report_fault-IsIsolated m now later t component v =
      let n = register_fault m now t component in
      let w = fail_component-IsIsolated _ component (get_elem? m.components component) refl v in
      either n.auto_recovery_enabled _ n
        (execute_recovery-IsIsolated n now later m.total_faults _ w) w
    where
      either :
          (b : Bool) (m n : FaultManager)
          → IsIsolated m.components id
          → IsIsolated n.components id
          → IsIsolated (if b then m else n).components id
      either true m n v w = v
      either false m n v w = w

  update_found-IsIsolated :
      (m : FaultManager) (k : ℕ) (successful : Bool) (now : ℕ) (o : Option ComponentHealth)
      → get_elem? m.components k ≡ o
      → IsIsolated m.components id
      → IsIsolated (update_found m k successful now o).components id
  unfolding update_found counted
  update_found-IsIsolated m k successful now none e v = v
  update_found-IsIsolated m k successful now (some c) e v =
      set-IsIsolated m.components k c _ e (λ h. judged-isolated (counted c successful now) ∙ h) v

  check_found-IsIsolated :
      (m : FaultManager) (k now : ℕ) (o : Option ComponentHealth)
      → get_elem? m.components k ≡ o
      → IsIsolated m.components id
      → IsIsolated (check_found m k now o).1.components id
  unfolding check_found
  check_found-IsIsolated m k now none e v = v
  check_found-IsIsolated m k now (some c) e v =
      elim (Bool-cases (ltb 5000000 (sub_size now c.last_heartbeat_us))) [
        | inl f ↦ rw f (set-IsIsolated m.components k c _ e (λ h. h) v)
        | inr f ↦ rw f v
      ]

  handled-IsIsolated :
      (m : FaultManager) (cs : List Call)
      → IsIsolated m.components id
      → IsIsolated (handled m cs).components id
  unfolding handled update_component_health is_component_healthy
  handled-IsIsolated m [] v = v
  handled-IsIsolated m (report now later t component ∷ cs) v =
      handled-IsIsolated (report_fault m now later t component).1 cs
        (report_fault-IsIsolated m now later t component v)
  handled-IsIsolated m (recover now later k a ∷ cs) v =
      handled-IsIsolated (execute_recovery m now later k a).1 cs
        (execute_recovery-IsIsolated m now later k a v)
  handled-IsIsolated m (operate component successful now ∷ cs) v =
      handled-IsIsolated (update_component_health m component successful now) cs
        (update_found-IsIsolated m component successful now _ refl v)
  handled-IsIsolated m (check component now ∷ cs) v =
      handled-IsIsolated (is_component_healthy m component now).1 cs
        (check_found-IsIsolated m component now _ refl v)

check-isolated :
    (m : FaultManager) (id now : ℕ)
    → IsIsolated m.components id
    → (is_component_healthy m id now).0 ≡ false
unfolding is_component_healthy check_found
check-isolated m id now v =
    rw v.present (elim (Bool-cases (ltb 5000000 (sub_size now v.health.last_heartbeat_us))) [
      | inl e ↦ rw e refl
      | inr e ↦ rw (e, v.isolated) (and-false v.health.is_healthy)
    ])
  where
    and-false : (b : Bool) → (b && false) ≡ false
    and-false true = refl
    and-false false = refl

-- Until `fault_tolerance_init` is called again, which replaces the table of components, nothing ends
-- the isolation of a component: whatever faults are reported to a manager, whatever recoveries are
-- asked for, and whatever components do and are asked, the component is not found healthy.
pub isolated_stays :
    (m : FaultManager) (cs : List Call) (id now : ℕ)
    → IsIsolated m.components id
    → (is_component_healthy (handled m cs) id now).0 ≡ false
isolated_stays m cs id now v = check-isolated (handled m cs) id now (handled-IsIsolated m cs v)
