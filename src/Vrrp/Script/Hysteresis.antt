-- ===== src/Vrrp/Script/Hysteresis.antt =====
-- When a script comes up and goes down, and what is reported of it.
use keepalived.Common.{
  and_both, and_parts, ℕ, zero, suc, ◌+◌, ◌≤◌, ◌<◌, ◌≡◌, refl, ap, ◌∙◌, Bool, true, false, not,
  ◌&&◌, leb, List, [], ◌∷◌, ◌++◌, arith,
}
use keepalived.Vrrp.Priority.{eqb, InitState}
use keepalived.Vrrp.Script.{VrrpScript, next_result, reports, script_ended, script_runs}

pub record IsScript (s : VrrpScript) : Type 0 where
  pub rises : 1 ≤ s.rise
  pub falls : 1 ≤ s.fall
  pub bounded : s.result < s.rise + s.fall

-- Whether the script counts as up.
abbrev pub is_ok : VrrpScript → Bool
is_ok s = leb s.rise s.result

unfoldable pub replicate : ℕ → Bool → List Bool
replicate zero b = []
replicate (suc n) b = b ∷ replicate n b

ended-IsScript : (b : Bool) (s : VrrpScript) → IsScript s → IsScript (script_ended b s).0
unfolding script_ended next_result
ended-IsScript true s i = ground arith
ended-IsScript false s i = ground arith

ended_done : (b : Bool) (s : VrrpScript) → (script_ended b s).0.init_state ≡ InitState.done
unfolding script_ended
ended_done b s = refl

abbrev flip : Bool → Bool → List Bool
flip true true = []
flip true false = false ∷ []
flip false true = true ∷ []
flip false false = []

-- A script that has had its first result is reported exactly when it comes up or goes down.
reports-flip :
    (b : Bool) (s : VrrpScript)
    → IsScript s
    → s.init_state ≡ InitState.done
    → (script_ended b s).1 ≡ flip (is_ok s) (is_ok (script_ended b s).0)
unfolding script_ended next_result reports
reports-flip true s i d = ground arith
reports-flip false s i d = ground arith

succeeded :
    (n : ℕ) (s : VrrpScript)
    → IsScript s
    → leb (script_ended true s).0.rise ((script_ended true s).0.result + n)
      ≡ leb s.rise (s.result + suc n)
unfolding script_ended next_result
succeeded n s i = ground arith

failed :
    (n : ℕ) (s : VrrpScript)
    → IsScript s
    → leb ((script_ended false s).0.rise + n) (script_ended false s).0.result
      ≡ leb (s.rise + suc n) s.result
unfolding script_ended next_result
failed n s i = ground arith

-- A script that is up needs one more than the failures its result is above `rise`, and one that is
-- down the successes its result is below it: after `n` successes in a row a script counts as up exactly
-- if its result and they reach `rise`, and after `n` failures in a row it counts as up exactly if its
-- result exceeds `rise` by `n` at least.
pub script_runs-replicate :
    (n : ℕ) (s : VrrpScript)
    → IsScript s
    → (is_ok (script_runs (replicate n true) s).0 ≡ leb s.rise (s.result + n))
      × (is_ok (script_runs (replicate n false) s).0 ≡ leb (s.rise + n) s.result)
unfolding script_runs script_ended replicate next_result
script_runs-replicate zero s i = ground arith
script_runs-replicate (suc n) s i =
    let up = (script_runs-replicate n (script_ended true s).0 (ended-IsScript true s i)).0 in
    let down = (script_runs-replicate n (script_ended false s).0 (ended-IsScript false s i)).1 in
    (up ∙ succeeded n s i, down ∙ failed n s i)

-- The last report, or the state before where there is none.
unfoldable pub last : Bool → List Bool → Bool
last b [] = b
last b (x ∷ r) = last x r

-- Each report differs from the one before.
unfoldable pub alternates : Bool → List Bool → Bool
alternates b [] = true
alternates b (x ∷ r) = not (eqb b x) && alternates x r

last-append : (b : Bool) (xs ys : List Bool) → last b (xs ++ ys) ≡ last (last b xs) ys
unfolding last
last-append b [] ys = refl
last-append b (x ∷ r) ys = last-append x r ys

alternates-append :
    (b : Bool) (xs ys : List Bool)
    → alternates b xs ≡ true
    → alternates (last b xs) ys ≡ true
    → alternates b (xs ++ ys) ≡ true
unfolding alternates last
alternates-append b [] ys h k = k
alternates-append b (x ∷ r) ys h k =
    let (first, rest) = and_parts (not (eqb b x)) (alternates x r) h in
    and_both _ _ first (alternates-append x r ys rest k)

flip-last : (a b : Bool) → (last a (flip a b) ≡ b) × (alternates a (flip a b) ≡ true)
unfolding last alternates
flip-last true true = (refl, refl)
flip-last true false = (refl, refl)
flip-last false true = (refl, refl)
flip-last false false = (refl, refl)

-- A script that has had its first result, through any further results: what is reported of it goes from
-- up to down and back, in turn, and the last report says whether the script counts as up now.
pub script_runs-reports :
    (rs : List Bool) (s : VrrpScript)
    → IsScript s
    → s.init_state ≡ InitState.done
    → (last (is_ok s) (script_runs rs s).1 ≡ is_ok (script_runs rs s).0)
      × (alternates (is_ok s) (script_runs rs s).1 ≡ true)
unfolding script_runs last alternates
script_runs-reports [] s i d = (refl, refl)
script_runs-reports (b ∷ r) s i d =
    let (state, turns) =
      script_runs-reports r (script_ended b s).0 (ended-IsScript b s i) (ended_done b s) in
    let rest = (script_runs r (script_ended b s).0).1 in
    let (now, turn) = flip-last (is_ok s) (is_ok (script_ended b s).0) in
    let told = reports-flip b s i d in
    let shown = ap (last (is_ok s)) told ∙ now in
    (
      last-append (is_ok s) (script_ended b s).1 rest ∙ ap (λ x. last x rest) shown ∙ state,
      alternates-append (is_ok s) (script_ended b s).1 rest (ap (alternates (is_ok s)) told ∙ turn)
          (ap (λ x. alternates x rest) shown ∙ turns),
    )
