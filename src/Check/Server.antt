-- ===== src/Check/Server.antt =====
-- keepalived/check/ipwrapper.c: a real server that goes up or down, and its weight.
-- The checker names its real server by the place in the list of the virtual server.
pub mod Placement
pub mod Alive
use keepalived.Common.{
  ℕ, suc, ◌-◌, Bool, true, false, not, ◌&&◌, ◌||◌, leb, ◌==◌, if◌then◌else◌, Option, none, some,
  List, [], ◌∷◌, ◌++◌, get_elem?, set, is_some,
}
use keepalived.Common.Int.{ℤ}
use keepalived.Check.{real_weight, RealServer, VirtualServer, Cmd, Notice, Pool, ipvs_cmd}
use keepalived.Check.Quorum.{with_rs, sorry_alive, update_quorum_state}

-- checker_t
pub record Checker : Type 0 where
  pub rs : ℕ
  pub is_up : Bool
  pub has_run : Bool
  pub alpha : Bool

unfoldable pub do_rs_notifies : RealServer → Pool → Pool
do_rs_notifies r p = record p { notices = p.notices ++ Notice.rs_notice r.addr r.alive ∷ [] }

abbrev pub put : ℕ → RealServer → Pool → Pool
put i r p = with_rs p (set p.vs.rs i r)

-- `false` where the kernel refused the command.
unfoldable pub perform_svr_state : Bool → ℕ → RealServer → Pool → Bool × Pool
unfolding do_rs_notifies
perform_svr_state alive i r p =
    if (r.alive && alive) || (not r.alive && not alive)
    then (true, p)
    else (let (failed, r', p') =
          if p.vs.quorum_state_up || not (sorry_alive p.vs)
          then ipvs_cmd (if alive then Cmd.add_dest else Cmd.del_dest) r p
          else (false, r, p) in
        if failed then (false, put i r' p') else (
          true,
          update_quorum_state false (
              do_rs_notifies (record r' { alive = alive })
                (put i (record r' { alive = alive }) p')),
        ))

unfoldable pub set_checker_state : Bool → Checker → RealServer → Checker × RealServer
set_checker_state up c r = if (c.is_up && up) || (not c.is_up && not up) then (c, r) else (
  record c { is_up = up },
  record r {
    num_failed_checkers = if up then r.num_failed_checkers - 1 else suc r.num_failed_checkers;
  },
)

-- The state of the checker and of its server, once the pool is right.
unfoldable pub settle : Bool → Checker → Option RealServer → Pool → Checker × Pool
unfolding set_checker_state
settle alive c none p = (c, p)
settle alive c (some r) p = let (c', r') = set_checker_state alive c r in (c', put c.rs r' p)

unfoldable pub first_run : Bool → Checker → RealServer → Pool → Checker × Pool
unfolding do_rs_notifies
first_run alive c r p =
    if c.has_run
    then (c, p)
    else (record c { has_run = true }, if c.alpha || not alive then do_rs_notifies r p else p)

unfoldable pub update_svr_checker_state : Bool → Checker → RealServer → Pool → Checker × Pool
unfolding first_run
update_svr_checker_state alive c r p =
    let ran = record c { has_run = true } in
    if (c.is_up && alive) || (not c.is_up && not alive)
    then first_run alive c r p
    else (let (done, p') =
          if (if alive then leb r.num_failed_checkers 1 else r.num_failed_checkers == 0)
          then perform_svr_state alive c.rs r p
          else (true, p) in
        if done then settle alive ran (get_elem? p'.vs.rs c.rs) p' else (ran, p'))

unfoldable pub update_svr_wgt : ℤ → ℕ → RealServer → Bool → Pool → Pool
update_svr_wgt weight i r update_quorum p =
    let r₁ = record r { effective_weight = weight } in
    let (_, r₂, p₂) =
      if r.set && r.alive && (p.vs.quorum_state_up || not (sorry_alive p.vs))
      then ipvs_cmd Cmd.edit_dest r₁ p
      else (false, r₁, p) in
    let p₃ = put i r₂ p₂ in
    if real_weight weight == real_weight r.effective_weight
    then put i r₁ p
    else if update_quorum
    then update_quorum_state false p₃
    else p₃
