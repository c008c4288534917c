-- ===== src/Check/Tests.antt =====
-- A virtual server with two real servers: the theorems of the folder applied to it, and a run.
use keepalived.Common.{
  ℕ, ◌+◌, ◌≤◌, ◌≡◌, ◌↔◌, ◌⊎◌, inl, inr, refl, true, false, some, [], ◌∷◌, arith,
}
use keepalived.Common.Int.{pos}
use keepalived.Check.{RealServer, VirtualServer, Cmd, Pool, ipvs_cmd, dest_rule, real_weight}
use keepalived.Check.Quorum.{
  weigh_live_realservers, quorum_threshold, update_quorum_state, perform_list, perform_quorum_state,
  drop_sorry, raise_sorry, do_vs_notifies,
}
use keepalived.Check.Quorum.Hysteresis.{HasLimits, update_quorum_state_iff}
use keepalived.Check.Quorum.Placement.{IsConsistent, update_quorum_state-IsConsistent}
use keepalived.Check.Server.{Checker, perform_svr_state, do_rs_notifies, update_svr_checker_state}
use keepalived.Check.Server.Placement.{perform_svr_state-IsConsistent}
use keepalived.Check.Server.Alive.{AllSound, update_svr_checker_state-AllSound}

abbrev server : ℕ → ℕ → RealServer
server addr weight = record {
  addr = addr;
  effective_weight = pos weight;
  inhibit = false;
  alive = true;
  num_failed_checkers = 0;
  set = true;
}

abbrev sorry_server : RealServer
sorry_server = record (server 9 1) { alive = false; set = false }

abbrev two_servers : VirtualServer
two_servers = record {
  rs = server 1 1 ∷ server 2 2 ∷ [];
  s_svr = some sorry_server;
  quorum = 3;
  hysteresis = 1;
  quorum_state_up = true;
}

abbrev pool : Pool
pool = record { vs = two_servers; sent = []; notices = []; talk_fails = λ _. false }

limits : HasLimits two_servers
limits = record { below = omega arith; fits = omega arith }

consistent : IsConsistent two_servers
consistent = record { placed = ((inr refl, inr refl), ((inr refl, inr refl), tt)); sorry = refl }

update_quorum_state_iff_example : ((update_quorum_state false pool).vs.quorum_state_up ≡ true) ↔ (
    (3 + 1 ≤ weigh_live_realservers two_servers)
    ⊎ ((true ≡ true) × (3 ≤ weigh_live_realservers two_servers + 1)))
update_quorum_state_iff_example = update_quorum_state_iff false pool limits

update_quorum_state-IsConsistent_example : IsConsistent (update_quorum_state false pool).vs
update_quorum_state-IsConsistent_example = update_quorum_state-IsConsistent false pool consistent

accepted : (perform_svr_state false 1 (server 2 2) pool).0 ≡ true
unfolding perform_svr_state ipvs_cmd
accepted = refl

perform_svr_state-IsConsistent_example :
    IsConsistent (perform_svr_state false 1 (server 2 2) pool).1.vs
perform_svr_state-IsConsistent_example =
    perform_svr_state-IsConsistent false 1 (server 2 2) pool consistent refl accepted

-- The second server fails: it is removed, the quorum is lost, the first server is removed too and the
-- sorry server is added.
second_fails :
    (perform_svr_state false 1 (server 2 2) pool).1.sent
    ≡ record { cmd = Cmd.del_dest; addr = 2; weight = 2 }
      ∷ record { cmd = Cmd.del_dest; addr = 1; weight = 1 }
      ∷ record { cmd = Cmd.add_dest; addr = 9; weight = 1 }
      ∷ []
unfolding perform_svr_state ipvs_cmd dest_rule real_weight do_rs_notifies update_quorum_state
    weigh_live_realservers quorum_threshold perform_list perform_quorum_state drop_sorry raise_sorry
    do_vs_notifies
second_fails = refl

abbrev checker : Checker
checker = record { rs = 1; is_up = true; has_run = true; alpha = false }

update_svr_checker_state-AllSound_example :
    AllSound (update_svr_checker_state false checker (server 2 2) pool).1.vs.rs
update_svr_checker_state-AllSound_example =
    update_svr_checker_state-AllSound false checker (server 2 2) pool (refl, (refl, tt)) refl
      (inl refl)
