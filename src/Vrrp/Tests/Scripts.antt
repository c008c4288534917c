-- ===== src/Vrrp/Tests/Scripts.antt =====
-- The theorems on the results of a concrete script.
use keepalived.Common.{◌≡◌, refl, arith, Bool, true, false, List, [], ◌∷◌}
use keepalived.Vrrp.Priority.{InitState}
use keepalived.Vrrp.Script.{VrrpScript, script_runs}
use keepalived.Vrrp.Script.Hysteresis.{IsScript, is_ok, last, alternates, script_runs-reports}

abbrev script : VrrpScript
script = record { result = 0; rise = 2; fall = 3; init_state = InitState.done }

script-IsScript : IsScript script
script-IsScript = record { rises = omega arith; falls = omega arith; bounded = omega arith }

abbrev results : List Bool
results = true ∷ true ∷ false ∷ false ∷ false ∷ []

script_runs-reports_example :
    (last false (script_runs results script).1 ≡ is_ok (script_runs results script).0)
    × (alternates false (script_runs results script).1 ≡ true)
script_runs-reports_example = script_runs-reports results script script-IsScript refl
