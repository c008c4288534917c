-- ===== src/Scheduler/Timerfd.antt =====
-- lib/scheduler.c: the whole of thread_timerfd_handler.
use keepalived.Common.{
  ℕ, Bool, true, false, ◌≡◌, refl, ap, ◌∙◌, if_both, Option, none, some, ◌⊎◌, List, [], ◌∷◌, ◌++◌,
  map, subst, inl, inr, arith,
}
use keepalived.Timer.{Timeval, timer_never}
use keepalived.Scheduler.{
  ThreadType, Thread, ThreadEvent, Io, Master, Kernel, is_disabled, thread_new, take_struct,
  thread_add_unuse, rb_add,
}
use keepalived.Scheduler.Add.{
  sands_of, read_thread, place_read, thread_add_read_sands, thread_add_read,
}
use keepalived.Scheduler.Ready.{
  retyped, is_due, move_reads, move_writes, move_timers, move_children, thread_timerfd_handler,
}
use keepalived.Scheduler.Sound.{IsSound}
use keepalived.Scheduler.Due.{due, later, thread_rb_move_ready-due}

-- What a read tree has gained: nothing, or one thread for the fd that is not due, in its place.
unfoldable pub Gained : Timeval → ℕ → List Thread → List Thread → Type 0
Gained now fd q r =
    (r ≡ q) ⊎ ((t : Thread) × (t.fd ≡ some fd) × (is_due now t ≡ false) × (r ≡ rb_add t q))

-- What an added read thread leaves of the queues.
record Same (now : Timeval) (fd : ℕ) (m n : Master) : Type 0 where
  ready : n.ready ≡ m.ready
  write : n.write ≡ m.write
  timer : n.timer ≡ m.timer
  child : n.child ≡ m.child
  read : Gained now fd m.read n.read

take_struct-Same :
    (now : Timeval) (fd : ℕ) (q : List Thread) (m : Master) → Same now fd m (take_struct q m).1
unfolding take_struct Gained
take_struct-Same now fd [] m = record {
  ready = refl;
  write = refl;
  timer = refl;
  child = refl;
  read = inl refl;
}
take_struct-Same now fd (t ∷ ts) m = record {
  ready = refl;
  write = refl;
  timer = refl;
  child = refl;
  read = inl refl;
}

take_struct-read : (q : List Thread) (m : Master) → (take_struct q m).1.read ≡ m.read
unfolding take_struct
take_struct-read [] m = refl
take_struct-read (t ∷ ts) m = refl

is_due_never :
    (now : Timeval) (t : Thread)
    → is_due now (record t { sands = sands_of now timer_never 0 }) ≡ false
unfolding is_due is_disabled sands_of
is_due_never now t = ground arith

place_read-Same :
    (now : Timeval) (fd : ℕ) (t : Thread) (r : ThreadEvent × Bool) (io : Io) (m n : Master)
    → t.fd ≡ some fd
    → n.read ≡ m.read
    → Same now fd m n
    → Same now fd m (place_read t (sands_of now timer_never 0) r io n).1
unfolding place_read thread_add_unuse Gained
place_read-Same now fd t (e, true) io m n f q s =
    let u = record t { sands = sands_of now timer_never 0 } in
    record {
      ready = s.ready;
      write = s.write;
      timer = s.timer;
      child = s.child;
      read = inr (u, f, is_due_never now t, ap (rb_add u) q);
    }
place_read-Same now fd t (e, false) io m n f q s = record {
  ready = s.ready;
  write = s.write;
  timer = s.timer;
  child = s.child;
  read = s.read;
}

add-Same :
    (k : Kernel) (now : Timeval) (func fd : ℕ) (m : Master)
    → Same now fd m (thread_add_read k now func 0 fd timer_never 0 m).1
unfolding thread_add_read thread_add_read_sands thread_new Gained read_thread
add-Same k now func fd m =
    if_both (λ (r : Option ℕ × Master). Same now fd m r.1) _ _ _
      (record { ready = refl; write = refl; timer = refl; child = refl; read = inl refl })
      (place_read-Same now fd _ _ _ m (thread_new m).1 refl (take_struct-read m.unuse m)
        (take_struct-Same now fd m.unuse m))

-- The threads of the four trees that are due, with their new types, after those that were ready.
unfoldable pub made_ready : Timeval → Master → List Thread
made_ready now m =
    (((m.ready ++ map (retyped ThreadType.read_timeout) (due now m.read))
        ++ map (retyped ThreadType.write_timeout) (due now m.write))
      ++ map (retyped ThreadType.ready_timer) (due now m.timer))
    ++ map (retyped ThreadType.child_timeout) (due now m.child)

-- When the timerfd fires in a state with sound queues, the ready list gets exactly the threads whose
-- time has come, the readers first, then the writers, the timers and the children, each in the order of
-- the due times; no thread that is due stays on a tree, and all the others stay on theirs in their
-- order, beside at most one thread that the read tree gains, the next reader of the timerfd.
pub thread_timerfd_handler-due :
    (k : Kernel) (now : Timeval) (handler : ℕ) (m : Master)
    → IsSound none m
    → ((thread_timerfd_handler k now handler m).1.ready ≡ made_ready now m)
      × ((thread_timerfd_handler k now handler m).1.write ≡ later now m.write)
      × ((thread_timerfd_handler k now handler m).1.timer ≡ later now m.timer)
      × ((thread_timerfd_handler k now handler m).1.child ≡ later now m.child)
      × Gained now m.timer_fd (later now m.read) (thread_timerfd_handler k now handler m).1.read
unfolding thread_timerfd_handler move_reads move_writes move_timers move_children made_ready
thread_timerfd_handler-due k now handler m s =
    let n = move_children now (move_timers now (move_writes now (move_reads now m))) in
    let r = thread_rb_move_ready-due now ThreadType.read_timeout m.read m.ready m.io s.reads.1 in
    let m1 = move_reads now m in
    let w =
      thread_rb_move_ready-due now ThreadType.write_timeout m.write m1.ready m1.io s.writes.1 in
    let m2 = move_writes now m1 in
    let t = thread_rb_move_ready-due now ThreadType.ready_timer m.timer m2.ready m2.io s.timers.1 in
    let m3 = move_timers now m2 in
    let c =
      thread_rb_move_ready-due now ThreadType.child_timeout m.child m3.ready m3.io s.childs.1 in
    let h = add-Same k now handler m.timer_fd n in
    (
      h.ready
          ∙ c.1
          ∙ ap (λ q. q ++ map (retyped ThreadType.child_timeout) (due now m.child))
              (t.1
                ∙ ap (λ q. q ++ map (retyped ThreadType.ready_timer) (due now m.timer))
                    (w.1
                      ∙ ap (λ q. q ++ map (retyped ThreadType.write_timeout) (due now m.write))
                          r.1)),
      h.write ∙ w.0,
      h.timer ∙ t.0,
      h.child ∙ c.0,
      subst (λ q. Gained now m.timer_fd q (thread_timerfd_handler k now handler m).1.read) r.0
          h.read,
    )
