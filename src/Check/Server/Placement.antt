-- ===== src/Check/Server/Placement.antt =====
-- A server that changes its state keeps the kernel's table right.
use keepalived.Common.{
  ℕ, ◌≡◌, inl, inr, Bool, true, false, not, ◌&&◌, ◌||◌, some, arith, Bool-cases, if◌then◌else◌,
  All-set, All-get, get_elem?,
}
use keepalived.Check.{RealServer, Cmd, Pool, ipvs_cmd, dest_rule}
use keepalived.Check.Quorum.{sorry_alive}
use keepalived.Check.Quorum.Placement.{IsPlaced, IsConsistent, update_quorum_state-IsConsistent}
use keepalived.Check.Server.{perform_svr_state, put, do_rs_notifies}

-- The server that is put is in its place.
put-IsConsistent :
    (p : Pool) (i : ℕ) (r : RealServer)
    → IsConsistent p.vs
    → IsPlaced (sorry_alive p.vs) r
    → IsConsistent (put i r p).vs
put-IsConsistent p i r v h = record {
  placed = All-set (IsPlaced (sorry_alive p.vs)) p.vs.rs i r v.placed h;
  sorry = v.sorry;
}

moved-IsPlaced :
    (alive : Bool) (r : RealServer) (sorry : Bool)
    → IsPlaced sorry r
    → (r.alive && alive || not r.alive && not alive) ≡ false
    → sorry ≡ false
    → IsPlaced sorry
        (record ((dest_rule (if alive then Cmd.add_dest else Cmd.del_dest) r).2) { alive = alive })
unfolding dest_rule
moved-IsPlaced alive r sorry h changed off = ground arith

opened_off :
    (sorry up has : Bool) → sorry ≡ (has && not up) → (up || not sorry) ≡ true → sorry ≡ false
opened_off sorry up has e h = ground arith

kept-IsPlaced :
    (alive : Bool) (r : RealServer) (sorry : Bool)
    → IsPlaced sorry r
    → sorry ≡ true
    → IsPlaced sorry (record r { alive = alive })
kept-IsPlaced alive r sorry h on = ground arith

-- Unless the kernel refuses the command, a server that goes up or down in a consistent virtual server
-- leaves it consistent: the live servers are in the table while the sorry server does not serve, no
-- others are but those with inhibit_on_failure, which may stay, and the sorry server, if there is one,
-- serves exactly while the quorum is lost.
pub perform_svr_state-IsConsistent :
    (alive : Bool) (i : ℕ) (r : RealServer) (p : Pool)
    → IsConsistent p.vs
    → get_elem? p.vs.rs i ≡ some r
    → (perform_svr_state alive i r p).0 ≡ true
    → IsConsistent (perform_svr_state alive i r p).1.vs
unfolding perform_svr_state ipvs_cmd do_rs_notifies
perform_svr_state-IsConsistent alive i r p v at done =
    let place = All-get (IsPlaced (sorry_alive p.vs)) p.vs.rs i r v.placed at in
    elim (Bool-cases (r.alive && alive || not r.alive && not alive)) [
      | inl same ↦ rw same v
      | inr changed ↦ elim (Bool-cases (p.vs.quorum_state_up || not (sorry_alive p.vs))) [
        | inl opened ↦
            let off : sorry_alive p.vs ≡ false =
              opened_off (sorry_alive p.vs) p.vs.quorum_state_up _ v.sorry opened in
            elim (Bool-cases (p.talk_fails p.sent)) [
              | inl refused ↦ ground arith
              | inr accepted ↦
                  rw (changed, opened, accepted)
                    (update_quorum_state-IsConsistent false _ (
                      put-IsConsistent p i _ v
                        (moved-IsPlaced alive r (sorry_alive p.vs) place changed off)))
            ]
        | inr shut ↦
            let on : sorry_alive p.vs ≡ true = ground arith in
            rw (changed, shut)
              (update_quorum_state-IsConsistent false _
                (put-IsConsistent p i _ v (kept-IsPlaced alive r (sorry_alive p.vs) place on)))
      ]
    ]
