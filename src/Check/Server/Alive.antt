-- ===== src/Check/Server/Alive.antt =====
-- A real server is alive while none of its checkers fails.
use keepalived.Common.{
  ℕ, suc, ◌-◌, ◌≡◌, ◌≢◌, ◌⊎◌, refl, ap, sym, ◌∙◌, subst, Bool, true, false, not, ◌&&◌, ◌||◌, leb,
  ◌==◌, if◌then◌else◌, Option, none, some, List, [], ◌∷◌, arith, Bool-cases, inl, inr, map, set,
  get_elem?, All, All-set, All-get, set-set, set_same, get_elem?-set, map-set, get_elem?-map,
  get_elem?-map-none, Option-cases,
}
use keepalived.Check.{RealServer, Cmd, Pool, ipvs_cmd, dest_rule}
use keepalived.Check.Quorum.{
  perform_list, perform_quorum_state, drop_sorry, raise_sorry, update_quorum_state, with_quorum,
  sorry_alive, do_vs_notifies,
}
use keepalived.Check.Server.{
  Checker, perform_svr_state, do_rs_notifies, set_checker_state, settle, first_run,
  update_svr_checker_state,
}

-- What the checkers say of a server.
abbrev pub health : RealServer → Bool × ℕ
health r = (r.alive, r.num_failed_checkers)

-- Alive exactly while the number of failed checkers is 0.
abbrev pub IsSound : Bool × ℕ → Type 0
IsSound h = h.0 ≡ (h.1 == 0)

abbrev pub AllSound : List RealServer → Type 0
AllSound rs = All IsSound (map health rs)

health-dest_rule : (cmd : Cmd) (r : RealServer) → health (dest_rule cmd r).2 ≡ health r
unfolding dest_rule
health-dest_rule cmd r = ground arith

served_health :
    (cmd : Cmd) (add : Bool) (r : RealServer)
    → health (
        if r.alive
        then record ((dest_rule cmd (if add then record r { alive = false } else r)).2) {
          alive = true;
        }
        else r)
      ≡ health r
unfolding dest_rule
served_health cmd add r = ground arith

health-perform_list :
    (add : Bool) (rs : List RealServer) (p : Pool)
    → map health (perform_list add rs p).0 ≡ map health rs
unfolding perform_list ipvs_cmd
health-perform_list add [] p = refl
health-perform_list add (r ∷ rs) p = rw (served_health, health-perform_list add rs) refl

health-perform_quorum_state :
    (add : Bool) (p : Pool) → map health (perform_quorum_state add p).vs.rs ≡ map health p.vs.rs
unfolding perform_quorum_state
health-perform_quorum_state add p = health-perform_list add p.vs.rs p

health-drop_sorry :
    (s : Option RealServer) (p : Pool) → map health (drop_sorry s p).vs.rs ≡ map health p.vs.rs
unfolding drop_sorry ipvs_cmd
health-drop_sorry none p = refl
health-drop_sorry (some s) p = elim (Bool-cases s.alive) [
  | inl serves ↦ rw serves (health-perform_quorum_state true _)
  | inr idle ↦ rw idle refl
]

health-raise_sorry :
    (s : Option RealServer) (p : Pool) → map health (raise_sorry s p).vs.rs ≡ map health p.vs.rs
unfolding raise_sorry ipvs_cmd
health-raise_sorry none p = refl
health-raise_sorry (some s) p = elim (Bool-cases s.alive) [
  | inl serves ↦ rw serves refl
  | inr idle ↦ rw idle (health-perform_quorum_state false p)
]

health-update_quorum_state :
    (init : Bool) (p : Pool) → map health (update_quorum_state init p).vs.rs ≡ map health p.vs.rs
unfolding update_quorum_state do_vs_notifies
health-update_quorum_state init p =
    let gain = health-drop_sorry p.vs.s_svr (with_quorum p true) in
    let loss = health-raise_sorry p.vs.s_svr (with_quorum p false) in ground arith

-- The server's state changes if the kernel did not refuse, and no other server's does.
health-perform_svr_state :
    (alive : Bool) (i : ℕ) (r : RealServer) (p : Pool)
    → get_elem? p.vs.rs i ≡ some r
    → (r.alive && alive || not r.alive && not alive) ≡ false
    → map health (perform_svr_state alive i r p).1.vs.rs
      ≡ set
          (map health p.vs.rs)
          i
          ((if (perform_svr_state alive i r p).0 then alive else r.alive), r.num_failed_checkers)
unfolding perform_svr_state do_rs_notifies ipvs_cmd
health-perform_svr_state alive i r p at changed =
    elim (Bool-cases (p.vs.quorum_state_up || not (sorry_alive p.vs))) [
      | inl opened ↦ elim (Bool-cases (p.talk_fails p.sent)) [
        | inl refused ↦
            rw (changed, opened, refused)
              (map-set health p.vs.rs i _ ∙ ap (set (map health p.vs.rs) i) (health-dest_rule _ r))
        | inr accepted ↦
            rw (changed, opened, accepted)
              (health-update_quorum_state false _
                ∙ map-set health p.vs.rs i _
                ∙ ap (λ h. set (map health p.vs.rs) i (alive, h.1)) (health-dest_rule _ r))
      ]
      | inr shut ↦
          rw (changed, shut) (health-update_quorum_state false _ ∙ map-set health p.vs.rs i _)
    ]

health-settle :
    (alive : Bool) (c : Checker) (p : Pool) (hs : List (Bool × ℕ)) (h old : Bool × ℕ)
    → (c.is_up && alive || not c.is_up && not alive) ≡ false
    → map health p.vs.rs ≡ set hs c.rs h
    → get_elem? hs c.rs ≡ some old
    → map health (settle alive c (get_elem? p.vs.rs c.rs) p).1.vs.rs
      ≡ set hs c.rs (h.0, (if alive then h.1 - 1 else suc h.1))
unfolding settle set_checker_state
health-settle alive c p hs h old changed e at =
    let found : get_elem? (map health p.vs.rs) c.rs ≡ some h =
      ap (λ l. get_elem? l c.rs) e ∙ get_elem?-set hs c.rs h old at in
    elim (Option-cases (get_elem? p.vs.rs c.rs)) [
      | inl gone ↦ absurd (none_some (sym (get_elem?-map-none health p.vs.rs c.rs gone) ∙ found))
      | inr (r, is) ↦
          let same : health r ≡ h =
            some_inj (sym (get_elem?-map health p.vs.rs c.rs r is) ∙ found) in
          rw (is, changed)
            (map-set health p.vs.rs c.rs _
              ∙ ap
                  (λ l. set l c.rs (
                    r.alive,
                    (if alive then r.num_failed_checkers - 1 else suc r.num_failed_checkers),
                  ))
                  e
              ∙ set-set hs c.rs h _
              ∙ ap (λ k. set hs c.rs (k.0, (if alive then k.1 - 1 else suc k.1))) same)
    ]
  where
    none_some : {a : Bool × ℕ} → none ≡ some a → ⊥
    none_some e = cc

    some_inj : {a b : Bool × ℕ} → some a ≡ some b → a ≡ b
    some_inj e = cc

first_run_rs :
    (alive : Bool) (c : Checker) (r : RealServer) (p : Pool)
    → (first_run alive c r p).1.vs.rs ≡ p.vs.rs
unfolding first_run do_rs_notifies
first_run_rs alive c r p = ground arith

flips :
    (alive up was : Bool) (n : ℕ)
    → was ≡ (n == 0)
    → (up ≡ true) ⊎ (n ≢ 0)
    → (up && alive || not up && not alive) ≡ false
    → (if alive then leb n 1 else n == 0) ≡ true
    → (was && alive || not was && not alive) ≡ false
flips alive up was n h counted changed moves = ground arith

-- Whatever the kernel answers, a result of a checker leaves every real server alive exactly while the
-- number of its failed checkers is 0, if that was so and a checker that is down had been counted.
pub update_svr_checker_state-AllSound :
    (alive : Bool) (c : Checker) (r : RealServer) (p : Pool)
    → AllSound p.vs.rs
    → get_elem? p.vs.rs c.rs ≡ some r
    → (c.is_up ≡ true) ⊎ (r.num_failed_checkers ≢ 0)
    → AllSound (update_svr_checker_state alive c r p).1.vs.rs
unfolding update_svr_checker_state first_run do_rs_notifies
update_svr_checker_state-AllSound alive c r p sound at counted =
    let found = get_elem?-map health p.vs.rs c.rs r at in
    let own = All-get IsSound (map health p.vs.rs) c.rs (health r) sound found in
    elim (Bool-cases (c.is_up && alive || not c.is_up && not alive)) [
      | inl same ↦ rw same (subst AllSound (sym (first_run_rs alive c r p)) sound)
      | inr changed ↦
          elim (Bool-cases
            (if alive then leb r.num_failed_checkers 1 else r.num_failed_checkers == 0)) [
              | inl moves ↦
                  let e =
                    health-perform_svr_state alive c.rs r p at (
                      flips alive c.is_up r.alive r.num_failed_checkers own counted changed
                        moves) in
                  rw (changed, moves)
                    (elim (Bool-cases (perform_svr_state alive c.rs r p).0) [
                      | inl done ↦ rw done (
                          subst (All IsSound)
                            (sym (
                              health-settle alive (record c { has_run = true }) _
                                (map health p.vs.rs) (alive, r.num_failed_checkers) (health r)
                                changed (rw done at e) found))
                            (All-set IsSound (map health p.vs.rs) c.rs _ sound (ground arith)))
                      | inr refused ↦ rw refused (
                          subst (All IsSound) (sym (rw refused at e))
                            (All-set IsSound (map health p.vs.rs) c.rs _ sound own))
                    ])
              | inr stays ↦
                  rw (changed, stays)
                    (subst (All IsSound)
                      (sym (
                        health-settle alive (record c { has_run = true }) p (map health p.vs.rs)
                          (health r) (health r) changed
                          (sym (set_same (map health p.vs.rs) c.rs (health r) found)) found))
                      (All-set IsSound (map health p.vs.rs) c.rs _ sound (ground arith)))
            ]
    ]
