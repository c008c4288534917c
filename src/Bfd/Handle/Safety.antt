-- ===== src/Bfd/Handle/Safety.antt =====
-- Whatever packet comes, no assertion of its handler fails, and the session is left running.
use keepalived.Common.{
  ℕ, ◌≡◌, refl, inl, inr, Bool, true, false, not, ◌&&◌, Option, some, arith, ◌==◌, is_some,
  if◌then◌else◌, Succeeds, Succeeds->>=, Succeeds-mono, Succeeds-both, Bool-cases,
}
use keepalived.Bfd.Session.{Bfd, Ctx, Header, Packet, is_up, is_admin_down, with_session}
use keepalived.Bfd.Packet.{bfd_check_packet_ttl}
use keepalived.Bfd.Socket.{bfd_open_fd_out}
use keepalived.Bfd.Socket.Open.{Opened, bfd_open_fd_out-Opened}
use keepalived.Bfd.Timers.{
  bfd_sender_schedule, bfd_sender_reschedule, bfd_open_fd_out_scheduled, bfd_open_fd_out_cancel,
}
use keepalived.Bfd.Machine.{bfd_state_init}
use keepalived.Bfd.Machine.Invariant.{
  IsRunning, IsOpen, IsLucky, SameLuck, SameLuck-IsLucky, IsLive, Lives, Runs, bfd_state_init-Lives,
  bfd_state_init-SameLuck, bfd_state_down-Lives, bfd_state_up-Lives,
}
use keepalived.Bfd.Handle.{
  take_header, update_intervals, update_detect_times, run_machine, apply_demand, answer_poll,
  mark_seen, open_done, leave_admin_down, hasten_sender, process_packet, handle_session,
}

IsRunning-IsOpen : (b : Bfd) → IsRunning b → is_admin_down b.local_state ≡ false → IsOpen b
IsRunning-IsOpen b v alive = ground arith

-- Dispatch on the pair of states.
run_machine-Lives : (c : Ctx) → IsLive c → IsLucky c → Lives (run_machine c)
unfolding run_machine
run_machine-Lives c (v, alive) lucky = ground (
  arith,
  IsRunning-IsOpen c.s v alive,
  bfd_state_init-Lives c,
  bfd_state_up-Lives c,
  bfd_state_down-Lives c 3 lucky,
)

apply_demand-Lives : (c : Ctx) → IsLive c → Lives (apply_demand c)
unfolding apply_demand bfd_sender_schedule
apply_demand-Lives c (v, alive) = ground arith

mark_seen-Lives : (h : Header) (c : Ctx) → IsLive c → Lives (mark_seen (answer_poll h c))
unfolding mark_seen answer_poll
mark_seen-Lives h c (v, alive) = ground arith

abbrev LuckyLive : Ctx → Type 0
LuckyLive c = IsLive c × IsLucky c

-- A step that keeps the session live and uses at most one random number keeps both.
with_luck :
    (c : Ctx) (o : Option Ctx)
    → IsLucky c
    → Lives o
    → Succeeds o (SameLuck c)
    → Succeeds o LuckyLive
with_luck c o lucky live same =
    Succeeds-mono (λ d. IsLive d × SameLuck c d) LuckyLive o
      (Succeeds-both IsLive (SameLuck c) o live same) (λ d p. (p.0, SameLuck-IsLucky c d p.1 lucky))

hasten_sender-Lives : (old_tx : ℕ) (c : Ctx) → IsLive c → Lives (hasten_sender old_tx c)
unfolding hasten_sender bfd_sender_reschedule
hasten_sender-Lives old_tx c (v, alive) = ground arith

hasten_sender-SameLuck : (old_tx : ℕ) (c : Ctx) → Succeeds (hasten_sender old_tx c) (SameLuck c)
unfolding hasten_sender bfd_sender_reschedule
hasten_sender-SameLuck old_tx c = ground arith

take_packet : Header → Bfd → Bfd
take_packet h b = update_detect_times (update_intervals h (take_header h b))

take_packet-IsLive : (h : Header) (c : Ctx) → IsLive c → IsLive (with_session c (take_packet h c.s))
unfolding take_packet take_header update_intervals update_detect_times
take_packet-IsLive h c (v, alive) = ground arith

take_packet-discr : (h : Header) (b : Bfd) → (take_packet h b).local_discr ≡ b.local_discr
unfolding take_packet take_header update_intervals update_detect_times
take_packet-discr h b = ground arith

take_packet-IsLucky :
    (h : Header) (c : Ctx) → IsLucky c → IsLucky (with_session c (take_packet h c.s))
take_packet-IsLucky h c lucky = rw (take_packet-discr h c.s) lucky

-- The packet is processed to the end, and the session is left live.
process_packet-Lives : (h : Header) (c : Ctx) → IsLive c → IsLucky c → Lives (process_packet h c)
unfolding process_packet take_packet
process_packet-Lives h c live lucky =
    let c₁ = with_session c (take_packet h c.s) in
    Succeeds->>= LuckyLive IsLive (hasten_sender c.s.local_tx_intv c₁) _
      (with_luck c₁ _ (take_packet-IsLucky h c lucky)
        (hasten_sender-Lives c.s.local_tx_intv c₁ (take_packet-IsLive h c live))
        (hasten_sender-SameLuck c.s.local_tx_intv c₁))
      λ c₂ l₂.
        Succeeds->>= IsLive IsLive (run_machine c₂) _ (run_machine-Lives c₂ l₂.0 l₂.1) λ c₃ l₃.
          Succeeds->>= IsLive IsLive (apply_demand c₃) _ (apply_demand-Lives c₃ l₃)
            λ c₄ l₄. mark_seen-Lives h c₄ l₄

-- After the attempt to leave AdminDown the session runs; it is live where the packet goes on.
abbrev Left : Bool × Ctx → Type 0
Left (true, d) = LuckyLive d
Left (false, d) = IsRunning d.s

-- Ready to go from AdminDown to Init.
abbrev CanInit : ℕ → Bfd → Type 0
CanInit discr b = IsOpen b × (is_up b.local_state ≡ false) × (b.local_discr ≡ discr)

cancel_retry :
    (b : Bfd)
    → CanInit b.local_discr b
    → Succeeds
        (if bfd_open_fd_out_scheduled b then bfd_open_fd_out_cancel b else some b)
        (CanInit b.local_discr)
unfolding bfd_open_fd_out_scheduled bfd_open_fd_out_cancel
cancel_retry b i = ground arith

open_done-Left : (d : Ctx) → IsLucky d → CanInit d.s.local_discr d.s → Succeeds (open_done d) Left
unfolding open_done
open_done-Left d lucky can =
    Succeeds->>= (CanInit d.s.local_discr) Left _ _ (cancel_retry d.s can) λ b can'.
      let e = with_session d b in
      Succeeds->>= LuckyLive Left (bfd_state_init e) _
        (with_luck e _ (rw can'.2 lucky) (bfd_state_init-Lives e can'.0 can'.1)
          (bfd_state_init-SameLuck e can'.1))
        λ d' l. l

leave-Left :
    (c d : Ctx) (closed : Bool)
    → IsRunning c.s
    → IsLucky c
    → is_admin_down c.s.local_state ≡ true
    → Opened c (closed, d)
    → Succeeds (if closed then some (false, d) else open_done d) Left
leave-Left c d true v lucky down (fd, closed, (r, e, _)) = rw e (ground arith)
leave-Left c d false v lucky down (fd, closed, (r, e, l)) =
    open_done-Left d (SameLuck-IsLucky c d luck lucky) (rw e (ground arith))
  where
    luck : SameLuck c d
    luck = rw e (record { same_discrs = refl; same_now = refl; stream = l })

pub leave_admin_down-Left :
    (c : Ctx) → IsRunning c.s → IsLucky c → Succeeds (leave_admin_down c) Left
unfolding leave_admin_down
leave_admin_down-Left c v lucky = elim (Bool-cases (is_admin_down c.s.local_state)) [
  | inl down ↦
      let shut : is_some c.s.fd_out ≡ false = ground arith in
      rw (down, leave_admin_down)
        (Succeeds->>= (Opened c) Left (bfd_open_fd_out c) _ (bfd_open_fd_out-Opened c shut)
          (λ r o. leave-Left c r.1 r.0 v lucky down o))
  | inr alive ↦ rw (alive, leave_admin_down) ((v, alive), lucky)
]

go_on :
    (h : Header) (opened : Bool) (d : Ctx)
    → Left (opened, d)
    → Runs (if opened then process_packet h d else some d)
go_on h true d (live, lucky) =
    Succeeds-mono IsLive (λ e. IsRunning e.s) _ (process_packet-Lives h d live lucky) (λ e l. l.0)
go_on h false d v = v

-- Whatever packet comes to a session that runs, no assertion of the handler fails, and the session
-- runs afterwards, as long as random() gives a free discriminator in time.
pub handle_session-Runs :
    (pkt : Packet) (c : Ctx) → IsRunning c.s → IsLucky c → Runs (handle_session pkt c)
unfolding handle_session process_packet answer_poll
handle_session-Runs pkt c v lucky =
    elim (Bool-cases (not (c.s.max_hops == 255) && bfd_check_packet_ttl pkt c.s)) [
      | inl far ↦ rw (far, handle_session) v
      | inr near ↦ elim (Bool-cases pkt.hdr.auth) [
        | inl auth ↦ rw (near, handle_session) (rw (auth, handle_session) v)
        | inr plain ↦
            rw (near, handle_session)
              (rw (plain, handle_session)
                (Succeeds->>= Left (λ d. IsRunning d.s) (leave_admin_down c) _
                  (leave_admin_down-Left c v lucky) (λ r l. go_on pkt.hdr r.0 r.1 l)))
      ]
    ]
