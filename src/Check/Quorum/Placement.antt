-- ===== src/Check/Quorum/Placement.antt =====
-- Which servers stand in the kernel's table.
use keepalived.Common.{
  ◌≡◌, refl, ap, subst, Bool-cases, ◌⊎◌, inl, inr, Bool, true, false, not, ◌&&◌, Option, none, some,
  List, [], ◌∷◌, arith, is_some, All, if◌then◌else◌,
}
use keepalived.Check.{RealServer, VirtualServer, Cmd, Pool, ipvs_cmd, dest_rule}
use keepalived.Check.Quorum.{
  perform_list, perform_quorum_state, drop_sorry, raise_sorry, update_quorum_state, with_quorum,
  sorry_alive,
}
use keepalived.Check.Quorum.Hysteresis.{perform_list_vs}

-- A server is in the table while it is alive and the sorry server does not serve in its place, and not
-- otherwise, unless it is inhibited on failure: it may then stay, with the weight 0.
abbrev pub IsPlaced : Bool → RealServer → Type 0
IsPlaced sorry r =
    ((r.inhibit ≡ true) ⊎ (r.set ≡ (r.alive && not sorry)))
    × (((r.alive && not sorry) ≡ false) ⊎ (r.set ≡ true))

-- Every server has its place, and the sorry server serves exactly while the quorum is lost.
pub record IsConsistent (vs : VirtualServer) : Type 0 where
  pub placed : All (IsPlaced (sorry_alive vs)) vs.rs
  pub sorry : sorry_alive vs ≡ (is_some vs.s_svr && not vs.quorum_state_up)

served-IsPlaced :
    (add : Bool) (r : RealServer)
    → IsPlaced add r
    → IsPlaced (not add) (
        if r.alive
        then record ((dest_rule
            (if add then Cmd.add_dest else Cmd.del_dest)
            (if add then record r { alive = false } else r)).2) { alive = true }
        else r)
unfolding dest_rule
served-IsPlaced add r h = ground arith

perform_list-IsPlaced :
    (add : Bool) (rs : List RealServer) (p : Pool)
    → All (IsPlaced add) rs
    → All (IsPlaced (not add)) (perform_list add rs p).0
unfolding perform_list ipvs_cmd
perform_list-IsPlaced add [] p h = tt
perform_list-IsPlaced add (r ∷ rs) p h =
    (served-IsPlaced add r h.0, perform_list-IsPlaced add rs _ h.1)

perform_vs :
    (add : Bool) (p : Pool)
    → (perform_quorum_state add p).vs ≡ record (p.vs) { rs = (perform_list add p.vs.rs p).0 }
unfolding perform_quorum_state
perform_vs add p =
    ap {A = VirtualServer} {B = VirtualServer}
      (λ vs. record vs { rs = (perform_list add p.vs.rs p).0 }) (perform_list_vs add p.vs.rs p)

drop_sorry-IsConsistent :
    (p : Pool) (s : Option RealServer)
    → p.vs.s_svr ≡ s
    → All (IsPlaced (sorry_alive p.vs)) p.vs.rs
    → p.vs.quorum_state_up ≡ true
    → IsConsistent (drop_sorry s p).vs
unfolding drop_sorry ipvs_cmd
drop_sorry-IsConsistent p none e h up = record { placed = h; sorry = ground arith }
drop_sorry-IsConsistent p (some s) e h up = elim (Bool-cases s.alive) [
  | inl serves ↦
      rw (serves, perform_vs)
        (let serving : sorry_alive p.vs ≡ true = ground arith in
          record {
            placed =
                perform_list-IsPlaced true p.vs.rs _
                  (subst (λ b. All (IsPlaced b) p.vs.rs) serving h);
            sorry = ground arith;
          })
  | inr idle ↦ rw idle record { placed = h; sorry = ground arith }
]

raise_sorry-IsConsistent :
    (p : Pool) (s : Option RealServer)
    → p.vs.s_svr ≡ s
    → All (IsPlaced (sorry_alive p.vs)) p.vs.rs
    → p.vs.quorum_state_up ≡ false
    → IsConsistent (raise_sorry s p).vs
unfolding raise_sorry ipvs_cmd
raise_sorry-IsConsistent p none e h down = record { placed = h; sorry = ground arith }
raise_sorry-IsConsistent p (some s) e h down = elim (Bool-cases s.alive) [
  | inl serves ↦ rw serves record { placed = h; sorry = ground arith }
  | inr idle ↦
      rw (idle, perform_vs)
        (let serving : sorry_alive p.vs ≡ false = ground arith in
          record {
            placed =
                perform_list-IsPlaced false p.vs.rs _
                  (subst (λ b. All (IsPlaced b) p.vs.rs) serving h);
            sorry = ground arith;
          })
]

-- An update of the quorum leaves a consistent virtual server consistent.
pub update_quorum_state-IsConsistent :
    (init : Bool) (p : Pool) → IsConsistent p.vs → IsConsistent (update_quorum_state init p).vs
unfolding update_quorum_state
update_quorum_state-IsConsistent init p v =
    let gain = drop_sorry-IsConsistent (with_quorum p true) p.vs.s_svr refl v.placed refl in
    let loss = raise_sorry-IsConsistent (with_quorum p false) p.vs.s_svr refl v.placed refl in
    ground arith
