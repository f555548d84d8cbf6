-- ===== src/Tests/FaultTolerance.antt =====
-- The theorems on the fault tolerance at a new manager with two records.
use universal_multi_segmente.Prelude.{◌≡◌, refl, true, false, List, [], ◌∷◌}
use universal_multi_segmente.FaultTolerance.{
  FaultManager, corruption, timeout, reset, blank_component, fault_tolerance_init,
  is_component_healthy,
}
use universal_multi_segmente.FaultTolerance.Accounting.{
  IsAccounted, Call, report, recover, operate, check, handled, handled-IsAccounted,
}
use universal_multi_segmente.FaultTolerance.Health.{IsIsolated, isolated_stays}

fresh-IsAccounted : IsAccounted (fault_tolerance_init 2)
unfolding fault_tolerance_init
fresh-IsAccounted = record { sum = refl }

abbrev calls : List Call
calls = report 10 12 timeout 3 ∷ report 20 21 corruption 90 ∷ recover 30 31 1 reset ∷ []

handled-IsAccounted_example : IsAccounted (handled (fault_tolerance_init 2) calls)
handled-IsAccounted_example = handled-IsAccounted (fault_tolerance_init 2) calls fresh-IsAccounted

-- The second of two components is isolated.
abbrev guarded : FaultManager
guarded = record (fault_tolerance_init 2) {
  components = blank_component ∷ record blank_component { is_isolated = true } ∷ [];
}

guarded-IsIsolated : IsIsolated guarded.components 1
guarded-IsIsolated = record {
  health = record blank_component { is_isolated = true };
  present = refl;
  isolated = refl;
}

abbrev operations : List Call
operations = report 10 12 corruption 1 ∷ operate 1 true 20 ∷ check 1 25 ∷ []

isolated_stays_example : (is_component_healthy (handled guarded operations) 1 30).0 ≡ false
isolated_stays_example = isolated_stays guarded operations 1 30 guarded-IsIsolated
