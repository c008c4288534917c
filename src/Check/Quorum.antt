-- ===== src/Check/Quorum.antt =====
-- keepalived/check/ipwrapper.c: the quorum of a virtual server, and its sorry server.
pub mod Hysteresis
pub mod Placement
use keepalived.Common.{
  ℕ, ◌+◌, ◌-◌, ◌%◌, ◌^◌, Bool, true, false, not, ◌&&◌, ◌||◌, leb, ltb, ◌==◌, if◌then◌else◌, Option,
  none, some, List, [], ◌∷◌, ◌++◌,
}
use keepalived.Check.{real_weight, RealServer, VirtualServer, Cmd, Notice, Pool, ipvs_cmd}

abbrev pub live_weight : List RealServer → ℕ
live_weight [] = 0
live_weight (r ∷ rs) =
    let rest = live_weight rs in if r.alive then real_weight r.effective_weight + rest else rest

unfoldable pub weigh_live_realservers : VirtualServer → ℕ
weigh_live_realservers vs = live_weight vs.rs

-- Unsigned 32-bit arithmetic, before the result becomes a long.
unfoldable pub quorum_threshold : VirtualServer → ℕ
quorum_threshold vs =
    if vs.quorum_state_up
    then (vs.quorum + 2 ^ 32 - vs.hysteresis) % 2 ^ 32
    else (vs.quorum + vs.hysteresis) % 2 ^ 32

-- One virtual server of set_quorum_states.
unfoldable pub set_quorum_state : VirtualServer → VirtualServer
unfolding weigh_live_realservers
set_quorum_state vs = record vs {
  quorum_state_up = leb ((vs.quorum + vs.hysteresis) % 2 ^ 32) (weigh_live_realservers vs);
}

abbrev pub with_rs : Pool → List RealServer → Pool
with_rs p rs = record p { vs = record (p.vs) { rs = rs } }

abbrev pub with_sorry : Pool → RealServer → Pool
with_sorry p s = record p { vs = record (p.vs) { s_svr = some s } }

abbrev pub with_quorum : Pool → Bool → Pool
with_quorum p up = record p { vs = record (p.vs) { quorum_state_up = up } }

-- The loop of perform_quorum_state: the servers that are alive are added or removed.
unfoldable pub perform_list : Bool → List RealServer → Pool → List RealServer × Pool
perform_list add [] p = ([], p)
perform_list add (r ∷ rs) p =
    let (_, r', p') =
      ipvs_cmd (if add then Cmd.add_dest else Cmd.del_dest)
        (if add then record r { alive = false } else r) p in
    let (rest, q) = perform_list add rs (if r.alive then p' else p) in
    ((if r.alive then record r' { alive = true } else r) ∷ rest, q)

unfoldable pub perform_quorum_state : Bool → Pool → Pool
perform_quorum_state add p = let (rs, p') = perform_list add p.vs.rs p in with_rs p' rs

unfoldable pub do_vs_notifies : Pool → Pool
do_vs_notifies p = record p { notices = p.notices ++ Notice.vs_notice p.vs.quorum_state_up ∷ [] }

abbrev pub sorry_alive : VirtualServer → Bool
sorry_alive vs = elim vs.s_svr [ none ↦ false | some s ↦ s.alive ]

abbrev pub sorry_idle : VirtualServer → Bool
sorry_idle vs = elim vs.s_svr [ none ↦ false | some s ↦ not s.alive ]

-- With the quorum gained the sorry server goes and the real servers come back.
unfoldable pub drop_sorry : Option RealServer → Pool → Pool
drop_sorry none p = p
drop_sorry (some s) p =
    let (_, s', p') = ipvs_cmd Cmd.del_dest s p in
    if s.alive then perform_quorum_state true (with_sorry p' (record s' { alive = false })) else p

-- With the quorum lost the real servers go and the sorry server comes.
unfoldable pub raise_sorry : Option RealServer → Pool → Pool
raise_sorry none p = p
raise_sorry (some s) p =
    let (_, s', p') = ipvs_cmd Cmd.add_dest s (perform_quorum_state false p) in
    if s.alive then p else with_sorry p' (record s' { alive = true })

unfoldable pub update_quorum_state : Bool → Pool → Pool
unfolding do_vs_notifies
update_quorum_state init p =
    let weight_sum = weigh_live_realservers p.vs in
    let threshold = quorum_threshold p.vs in
    let up = p.vs.quorum_state_up in
    if not up && leb threshold weight_sum
    then do_vs_notifies (drop_sorry p.vs.s_svr (with_quorum p true))
    else if (up && (weight_sum == 0 || ltb weight_sum threshold))
        || (init && not up && sorry_idle p.vs)
    then do_vs_notifies (raise_sorry p.vs.s_svr (with_quorum p false))
    else p
