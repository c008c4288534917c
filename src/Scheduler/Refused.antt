-- ===== src/Scheduler/Refused.antt =====
-- lib/scheduler.c: an fd whose read thread epoll has refused.
use keepalived.Common.{
  ℕ, true, false, ◌&&◌, ◌≡◌, refl, sym, ap, ◌∙◌, ◌==◌, ==_iff, ltb, if_both, if_true, if_false,
  Bool-cases, Option, none, some, is_some, maybe, List, [], ◌∷◌, map, ◌+◌, ◌%◌, ◌^◌, subst, arith,
  inl, inr,
}
use keepalived.Timer.{Timeval}
use keepalived.Scheduler.{ThreadEvent, Io, Master, Kernel, thread_new, thread_add_unuse}
use keepalived.Scheduler.Events.{
  event_of, store_event, store, thread_event_get, thread_event_set, thread_event_new,
  thread_events_resize, add_event, new_event,
}
use keepalived.Scheduler.Add.{
  event_for, read_thread, register_read, place_read, thread_add_read_sands,
}

event_of-store_event :
    (e f : ThreadEvent) (es : List ThreadEvent)
    → event_of e.fd es ≡ some f
    → event_of e.fd (store_event e es) ≡ some e
unfolding event_of store_event
event_of-store_event e f [] h = cc
event_of-store_event e f (g ∷ gs) h = elim (Bool-cases (g.fd == e.fd)) [
  | inl k ↦
      ap (event_of e.fd) (if_true _ (e ∷ gs) (g ∷ store_event e gs) k)
      ∙ if_true _ (some e) (event_of e.fd gs) (ground arith)
  | inr k ↦
      ap (event_of e.fd) (if_false _ (e ∷ gs) (g ∷ store_event e gs) k)
      ∙ if_false _ (some g) (event_of e.fd (store_event e gs)) k
      ∙ event_of-store_event e f gs (sym (if_false _ (some g) (event_of e.fd gs) k) ∙ h)
]

event_of-add_event :
    (fd : ℕ) (e : ThreadEvent) (es : List ThreadEvent)
    → e.fd ≡ fd
    → event_of fd es ≡ none
    → event_of fd (add_event e es) ≡ some e
unfolding event_of add_event
event_of-add_event fd e [] i h = if_true _ (some e) none ((==_iff e.fd fd).1 i)
event_of-add_event fd e (g ∷ gs) i h = elim (Bool-cases (g.fd == fd)) [
  | inl k ↦ (let c = sym (if_true _ (some g) (event_of fd gs) k) ∙ h in cc)
  | inr k ↦
      if_both (λ es. event_of fd es ≡ some e) (ltb e.fd g.fd) _ (g ∷ add_event e gs)
        (if_true _ (some e) (event_of fd (g ∷ gs)) ((==_iff e.fd fd).1 i))
        (if_false _ (some g) (event_of fd (add_event e gs)) k
          ∙ event_of-add_event fd e gs i (sym (if_false _ (some g) (event_of fd gs) k) ∙ h))
]

event_of-fd :
    (fd : ℕ) (e : ThreadEvent) (es : List ThreadEvent) → event_of fd es ≡ some e → e.fd ≡ fd
unfolding event_of
event_of-fd fd e [] h = cc
event_of-fd fd e (g ∷ gs) h = elim (Bool-cases (g.fd == fd)) [
  | inl k ↦ sym (ap fd_of (sym (if_true _ (some g) (event_of fd gs) k) ∙ h)) ∙ (==_iff g.fd fd).0 k
  | inr k ↦ event_of-fd fd e gs (sym (if_false _ (some g) (event_of fd gs) k) ∙ h)
]
  where
    fd_of : Option ThreadEvent → ℕ
    fd_of none = 0
    fd_of (some a) = a.fd

resize-events : (n : ℕ) (io : Io) → (thread_events_resize n io).io_events ≡ io.io_events
unfolding thread_events_resize
resize-events n io = if_both (λ (r : Io). r.io_events ≡ io.io_events) _ _ _ refl refl

-- The event that is used for an fd is in the tree, under that fd.
event_for-get :
    (fd : ℕ) (io : Io)
    → (thread_event_get fd (event_for fd io).1 ≡ some (event_for fd io).0)
      × ((event_for fd io).0.fd ≡ fd)
unfolding event_for thread_event_get thread_event_new
event_for-get fd io = go (event_of fd io.io_events) refl
  where
    go :
        (o : Option ThreadEvent)
        → event_of fd io.io_events ≡ o
        → (event_of fd
              (maybe {B = ThreadEvent × Io} o
                (new_event fd, thread_event_new fd io)
                (λ e. (e, io))).1.io_events
            ≡ some
                (maybe {B = ThreadEvent × Io} o
                  (new_event fd, thread_event_new fd io)
                  (λ e. (e, io))).0)
          × ((maybe {B = ThreadEvent × Io} o
                (new_event fd, thread_event_new fd io)
                (λ e. (e, io))).0.fd
              ≡ fd)
    go none h = (
      event_of-add_event fd (new_event fd) _ refl
          (ap (event_of fd) (resize-events ((io.epoll_count + 1) % 2 ^ 32) io) ∙ h),
      refl,
    )
    go (some e) h = (h, event_of-fd fd e io.io_events h)

get-store :
    (fd : ℕ) (e f : ThreadEvent) (io : Io)
    → e.fd ≡ fd
    → thread_event_get fd io ≡ some f
    → thread_event_get fd (store e io) ≡ some e
unfolding thread_event_get store
get-store fd e f io i h =
    subst (λ x. event_of x (store_event e io.io_events) ≡ some e) i
      (event_of-store_event e f io.io_events
        (subst (λ x. event_of x io.io_events ≡ some f) (sym i) h))

-- A read thread is refused where the event of the fd has one.
bound-refused :
    (k : Kernel) (func arg fd : ℕ) (sands : Timeval) (flags : ℕ) (m : Master) (e : ThreadEvent)
    → thread_event_get fd m.io ≡ some e
    → (e.want_read && is_some e.read) ≡ true
    → thread_add_read_sands k func arg fd sands flags m ≡ (none, m)
unfolding thread_add_read_sands event_for
bound-refused k func arg fd sands flags m e h b = if_true _ _ _ (
    ap
      (λ o.
        (maybe {B = ThreadEvent × Io} o (new_event fd, thread_event_new fd m.io)
          (λ x. (x, m.io))).0.want_read
        && is_some
            (maybe {B = ThreadEvent × Io} o (new_event fd, thread_event_new fd m.io)
              (λ x. (x, m.io))).0.read)
      h
    ∙ b)

-- The arguments of a later call.
pub record Call : Type 0 where
  pub func : ℕ
  pub arg : ℕ
  pub sands : Timeval
  pub flags : ℕ

-- Calls for one fd, one after the other, with what each returns.
unfoldable pub add_reads : Kernel → ℕ → List Call → Master → List (Option ℕ) × Master
add_reads k fd [] m = ([], m)
add_reads k fd (c ∷ cs) m =
    let r = thread_add_read_sands k c.func c.arg fd c.sands c.flags m in
    let rest = add_reads k fd cs r.1 in (r.0 ∷ rest.0, rest.1)

add_reads-refused :
    (k : Kernel) (fd : ℕ) (calls : List Call) (m : Master) (e : ThreadEvent)
    → thread_event_get fd m.io ≡ some e
    → (e.want_read && is_some e.read) ≡ true
    → add_reads k fd calls m ≡ (map (λ _. none) calls, m)
unfolding add_reads
add_reads-refused k fd [] m e h b = refl
add_reads-refused k fd (c ∷ cs) m e h b =
    ap (λ (r : Option ℕ × Master). (r.0 ∷ (add_reads k fd cs r.1).0, (add_reads k fd cs r.1).1))
      (bound-refused k c.func c.arg fd c.sands c.flags m e h b)
    ∙ ap (λ (r : List (Option ℕ) × Master). (none ∷ r.0, r.1)) (add_reads-refused k fd cs m e h b)

register_refused :
    (k : Kernel) (e : ThreadEvent)
    → e.epoll_read ≡ false
    → k.epoll_ctl e.epoll e.fd e.want_read e.want_write ≡ false
    → register_read k e ≡ (e, false)
unfolding register_read thread_event_set
register_refused k e n f = rw (n, f)

add_fails :
    (k : Kernel) (func arg fd : ℕ) (sands : Timeval) (flags : ℕ) (m : Master)
    → ((event_for fd m.io).0.want_read && is_some (event_for fd m.io).0.read) ≡ false
    → (event_for fd m.io).0.epoll_read ≡ false
    → k.epoll_ctl
        (event_for fd m.io).0.epoll
        (event_for fd m.io).0.fd
        true
        (event_for fd m.io).0.want_write
      ≡ false
    → thread_add_read_sands k func arg fd sands flags m ≡ (
      none,
      thread_add_unuse (read_thread func arg fd flags (thread_new m).0) (record (thread_new m).1 {
        io =
            store
              (record (event_for fd m.io).0 {
                want_read = true;
                read = some (read_thread func arg fd flags (thread_new m).0).ptr;
              })
              (event_for fd m.io).1;
      }),
    )
unfolding thread_add_read_sands place_read
add_fails k func arg fd sands flags m idle new fails =
    let t = read_thread func arg fd flags (thread_new m).0 in
    if_false _ (none, m) _ idle
    ∙ ap (λ r. place_read t sands r (event_for fd m.io).1 (thread_new m).1)
        (register_refused k (record (event_for fd m.io).0 { want_read = true; read = some t.ptr })
          new fails)

-- The registration of a read fails: the fd had no read thread, epoll does not know that it is to be
-- read, and EPOLL_CTL_ADD or EPOLL_CTL_MOD does not succeed. thread_add_read then gives no thread, and
-- calls for the fd that follow it, any number of them, give none either and change nothing, whatever
-- epoll would answer: the event keeps the flag and the pointer to the thread that went to the unuse list.
pub thread_add_read_sands-refused :
    (k j : Kernel) (func arg fd : ℕ) (sands : Timeval) (flags : ℕ) (calls : List Call) (m : Master)
    → ((event_for fd m.io).0.want_read && is_some (event_for fd m.io).0.read) ≡ false
    → (event_for fd m.io).0.epoll_read ≡ false
    → k.epoll_ctl
        (event_for fd m.io).0.epoll
        (event_for fd m.io).0.fd
        true
        (event_for fd m.io).0.want_write
      ≡ false
    → ((thread_add_read_sands k func arg fd sands flags m).0 ≡ none)
      × (add_reads j fd calls (thread_add_read_sands k func arg fd sands flags m).1
          ≡ (map (λ _. none) calls, (thread_add_read_sands k func arg fd sands flags m).1))
unfolding thread_add_unuse
thread_add_read_sands-refused k j func arg fd sands flags calls m idle new fails =
    let e = (event_for fd m.io).0 in
    let n = thread_new m in
    let t = read_thread func arg fd flags n.0 in
    let b = record e { want_read = true; read = some t.ptr } in
    let r = add_fails k func arg fd sands flags m idle new fails in
    let g = event_for-get fd m.io in
    (
      ap (λ (x : Option ℕ × Master). x.0) r,
      subst (λ (x : Option ℕ × Master). add_reads j fd calls x.1 ≡ (map (λ _. none) calls, x.1))
          (sym r)
          (add_reads-refused j fd calls _ b (get-store fd b e (event_for fd m.io).1 g.1 g.0) refl),
    )
