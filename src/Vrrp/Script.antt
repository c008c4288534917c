-- ===== src/Vrrp/Script.antt =====
-- keepalived/vrrp/vrrp_scheduler.c: the results of a tracking script. A script is up after `rise`
-- successes in a row, and down after `fall` failures in a row.
pub mod Hysteresis
use keepalived.Common.{
  ℕ, ◌+◌, ◌-◌, ◌≤◌, Bool, true, false, not, ◌||◌, ltb, leb, ◌==◌, if◌then◌else◌, List, [], ◌∷◌,
  ◌++◌,
}
use keepalived.Vrrp.Priority.{InitState, is_initial, is_reloaded}

-- vrrp_script_t: the result is below `rise` for a script that is down, and at most `rise + fall - 1`.
pub record VrrpScript : Type 0 where
  pub result : ℕ
  pub rise : ℕ
  pub fall : ℕ
  pub init_state : InitState

abbrev top : VrrpScript → ℕ
top s = s.rise + s.fall - 1

-- The result after a success, and after a failure.
unfoldable pub next_result : Bool → VrrpScript → ℕ
next_result true s =
    if ltb s.result (s.rise - 1)
    then s.result + 1
    else if not (s.result == top s)
    then top s
    else s.result
next_result false s = if ltb s.rise s.result then s.result - 1 else 0

-- The calls of update_script_priorities.
unfoldable pub reports : Bool → VrrpScript → List Bool
reports true s =
    if ltb s.result (s.rise - 1)
    then []
    else if not (s.result == top s)
    then (if ltb s.result s.rise then true ∷ [] else [])
    else []
reports false s =
    if ltb s.rise s.result
    then []
    else if s.result == s.rise || is_initial s.init_state || is_reloaded s.init_state
    then false ∷ []
    else []

-- vrrp_script_child_thread, once the script has ended.
unfoldable pub script_ended : Bool → VrrpScript → VrrpScript × List Bool
script_ended success s =
    (record s { result = next_result success s; init_state = InitState.done }, reports success s)

-- Runs with these results, in order, and what is reported of them.
unfoldable pub script_runs : List Bool → VrrpScript → VrrpScript × List Bool
script_runs [] s = (s, [])
script_runs (b ∷ r) s =
    let first = script_ended b s in let rest = script_runs r first.0 in (rest.0, first.1 ++ rest.1)
