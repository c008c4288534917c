-- ===== src/Check/Quorum/Hysteresis.antt =====
-- When a virtual server gains and loses its quorum.
use keepalived.Common.{
  ◌+◌, ◌^◌, ◌⊎◌, ◌≤◌, ◌<◌, ◌≡◌, ◌↔◌, refl, ap, ◌∙◌, Bool, true, false, not, ◌&&◌, leb, ◌==◌,
  if◌then◌else◌, Option, none, some, List, [], ◌∷◌, arith,
}
use keepalived.Check.{RealServer, VirtualServer, Cmd, Pool, ipvs_cmd, dest_rule}
use keepalived.Check.Quorum.{
  live_weight, weigh_live_realservers, quorum_threshold, perform_list, perform_quorum_state,
  drop_sorry, raise_sorry, update_quorum_state, with_quorum, with_sorry,
}

-- The configuration reader makes the hysteresis smaller than the quorum; that their sum does not wrap is
-- a condition of its own.
pub record HasLimits (vs : VirtualServer) : Type 0 where
  pub below : vs.hysteresis < vs.quorum
  pub fits : vs.quorum + vs.hysteresis < 2 ^ 32

-- Nothing that the quorum depends on differs.
pub record SameWeight (p q : Pool) : Type 0 where
  pub up : q.vs.quorum_state_up ≡ p.vs.quorum_state_up
  pub weight : live_weight q.vs.rs ≡ live_weight p.vs.rs
  pub quorum : q.vs.quorum ≡ p.vs.quorum
  pub hysteresis : q.vs.hysteresis ≡ p.vs.hysteresis

dest_rule_weight :
    (cmd : Cmd) (r : RealServer) → (dest_rule cmd r).2.effective_weight ≡ r.effective_weight
unfolding dest_rule
dest_rule_weight cmd r = ground arith

pub perform_list_vs :
    (add : Bool) (rs : List RealServer) (p : Pool) → (perform_list add rs p).1.vs ≡ p.vs
unfolding perform_list ipvs_cmd
perform_list_vs add [] p = refl
perform_list_vs add (r ∷ rs) p = perform_list_vs add rs _ ∙ ground arith

perform_list_weight :
    (add : Bool) (rs : List RealServer) (p : Pool)
    → live_weight (perform_list add rs p).0 ≡ live_weight rs
unfolding perform_list ipvs_cmd
perform_list_weight add [] p = refl
perform_list_weight add (r ∷ rs) p =
    let rest = perform_list_weight add rs (
      if r.alive
      then (ipvs_cmd (if add then Cmd.add_dest else Cmd.del_dest)
          (if add then record r { alive = false } else r) p).2
      else p) in
    let kept =
      dest_rule_weight (if add then Cmd.add_dest else Cmd.del_dest)
        (if add then record r { alive = false } else r) in
    ground arith

pub perform_quorum_state-SameWeight :
    (add : Bool) (p : Pool) → SameWeight p (perform_quorum_state add p)
unfolding perform_quorum_state
perform_quorum_state-SameWeight add p =
    let vs = perform_list_vs add p.vs.rs p in
    let weight = perform_list_weight add p.vs.rs p in
    record {
      up = ap (λ v. v.quorum_state_up) vs;
      weight = weight;
      quorum = ap (λ v. v.quorum) vs;
      hysteresis = ap (λ v. v.hysteresis) vs;
    }

drop_sorry-SameWeight : (s : Option RealServer) (p : Pool) → SameWeight p (drop_sorry s p)
unfolding drop_sorry ipvs_cmd
drop_sorry-SameWeight none p = ground arith
drop_sorry-SameWeight (some s) p =
    let told = ipvs_cmd Cmd.del_dest s p in
    let same =
      perform_quorum_state-SameWeight true
        (with_sorry told.2 (record (told.1) { alive = false })) in
    ground arith

raise_sorry-SameWeight : (s : Option RealServer) (p : Pool) → SameWeight p (raise_sorry s p)
unfolding raise_sorry ipvs_cmd
raise_sorry-SameWeight none p = ground arith
raise_sorry-SameWeight (some s) p =
    let same = perform_quorum_state-SameWeight false p in ground arith

update_up :
    (init : Bool) (p : Pool)
    → (update_quorum_state init p).vs.quorum_state_up ≡ (
        let w = weigh_live_realservers p.vs in
        leb (quorum_threshold p.vs) w && not (p.vs.quorum_state_up && (w == 0)))
unfolding update_quorum_state
update_up init p =
    let gain = drop_sorry-SameWeight p.vs.s_svr (with_quorum p true) in
    let loss = raise_sorry-SameWeight p.vs.s_svr (with_quorum p false) in ground arith

update_weight :
    (init : Bool) (p : Pool) → live_weight (update_quorum_state init p).vs.rs ≡ live_weight p.vs.rs
unfolding update_quorum_state
update_weight init p =
    let gain = drop_sorry-SameWeight p.vs.s_svr (with_quorum p true) in
    let loss = raise_sorry-SameWeight p.vs.s_svr (with_quorum p false) in ground arith

update_limits :
    (init : Bool) (p : Pool)
    → ((update_quorum_state init p).vs.quorum ≡ p.vs.quorum)
      × ((update_quorum_state init p).vs.hysteresis ≡ p.vs.hysteresis)
unfolding update_quorum_state
update_limits init p =
    let gain = drop_sorry-SameWeight p.vs.s_svr (with_quorum p true) in
    let loss = raise_sorry-SameWeight p.vs.s_svr (with_quorum p false) in ground arith

-- With a hysteresis below the quorum, and both together below 2 ^ 32: a virtual server is up after the update exactly when the
-- weight of its live servers reaches the quorum plus the hysteresis, or it was up and the weight
-- reaches the quorum less the hysteresis.
pub update_quorum_state_iff :
    (init : Bool) (p : Pool)
    → HasLimits p.vs
    → let w = weigh_live_realservers p.vs in
      ((update_quorum_state init p).vs.quorum_state_up ≡ true) ↔ (
        (p.vs.quorum + p.vs.hysteresis ≤ w)
        ⊎ ((p.vs.quorum_state_up ≡ true) × (p.vs.quorum ≤ w + p.vs.hysteresis)))
unfolding quorum_threshold
update_quorum_state_iff init p v =
    let e = update_up init p in (λ h. ground arith, λ h. ground arith)

-- With a hysteresis below the quorum, a second update without a change of the servers leaves the
-- quorum state as the first one set it.
pub update_quorum_state-update_quorum_state :
    (init again : Bool) (p : Pool)
    → HasLimits p.vs
    → (update_quorum_state again (update_quorum_state init p)).vs.quorum_state_up
      ≡ (update_quorum_state init p).vs.quorum_state_up
unfolding quorum_threshold weigh_live_realservers
update_quorum_state-update_quorum_state init again p v =
    let first = update_up init p in
    let second = update_up again (update_quorum_state init p) in
    let weight = update_weight init p in let limits = update_limits init p in ground arith
