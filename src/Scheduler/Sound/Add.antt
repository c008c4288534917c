-- ===== src/Scheduler/Sound/Add.antt =====
-- lib/scheduler.c: adding a thread keeps the queues sound.
use keepalived.Common.{ℕ, Bool, true, false, ◌≡◌, refl, if◌then◌else◌, Option, none, some, maybe}
use keepalived.Timer.{Timeval}
use keepalived.Scheduler.{
  ThreadType, Thread, ThreadEvent, Io, Master, Kernel, code, ◌is◌, thread_new,
}
use keepalived.Scheduler.Events.{store}
use keepalived.Scheduler.Add.{
  sands_of, read_thread, write_thread, place_read, place_write, thread_add_read_sands,
  thread_add_read, thread_add_write, thread_add_timer_uval_sands, thread_add_child,
  thread_add_event, thread_add_generic_terminate_event,
}
use keepalived.Scheduler.Sound.{IsSound, is_timer, is_event, io-IsSound, thread_new-IsSound}
use keepalived.Scheduler.Sound.Put.{
  same-IsSound, put_read-IsSound, put_write-IsSound, put_timer-IsSound, put_child-IsSound,
  put_event-IsSound, thread_add_unuse-IsSound,
}

-- A result that is sound on both sides of a test, and on both cases of an option.
pub if-IsSound :
    (b : Bool) (m n : Master) → IsSound none m → IsSound none n → IsSound none (if b then m else n)
if-IsSound true m n s r = s
if-IsSound false m n s r = r

place_read-IsSound :
    (t : Thread) (sands : Timeval) (r : ThreadEvent × Bool) (io : Io) (m : Master)
    → (t.type is ThreadType.read) ≡ true
    → IsSound (some t) m
    → IsSound none (place_read t sands r io m).1
unfolding place_read
place_read-IsSound t sands (e, true) io m k s =
    put_read-IsSound (record t { sands = sands }) (record m { io = store e io }) k
      (same-IsSound t (record t { sands = sands }) (record m { io = store e io }) refl
        (io-IsSound _ (store e io) m s))
place_read-IsSound t sands (e, false) io m k s =
    thread_add_unuse-IsSound t (record m { io = store e io }) (io-IsSound _ (store e io) m s)

place_write-IsSound :
    (t : Thread) (sands : Timeval) (r : ThreadEvent × Bool) (io : Io) (m : Master)
    → (t.type is ThreadType.write) ≡ true
    → IsSound (some t) m
    → IsSound none (place_write t sands r io m).1
unfolding place_write
place_write-IsSound t sands (e, true) io m k s =
    put_write-IsSound (record t { sands = sands }) (record m { io = store e io }) k
      (same-IsSound t (record t { sands = sands }) (record m { io = store e io }) refl
        (io-IsSound _ (store e io) m s))
place_write-IsSound t sands (e, false) io m k s =
    thread_add_unuse-IsSound t (record m { io = store e io }) (io-IsSound _ (store e io) m s)

unless-IsSound :
    (b : Bool) (m : Master) (r : Option ℕ × Master)
    → IsSound none m
    → IsSound none r.1
    → IsSound none (if b then (none, m) else r).1
unless-IsSound true m r s k = s
unless-IsSound false m r s k = k

pub thread_add_read_sands-IsSound :
    (k : Kernel) (func arg fd : ℕ) (sands : Timeval) (flags : ℕ) (m : Master)
    → IsSound none m
    → IsSound none (thread_add_read_sands k func arg fd sands flags m).1
unfolding thread_add_read_sands read_thread code
thread_add_read_sands-IsSound k func arg fd sands flags m s =
    let n = thread_new m in
    let t = read_thread func arg fd flags n.0 in
    unless-IsSound _ m _ s (
      place_read-IsSound t sands _ _ n.1 refl
        (same-IsSound n.0 t n.1 refl (thread_new-IsSound m s)))

pub thread_add_read-IsSound :
    (k : Kernel) (now : Timeval) (func arg fd timer flags : ℕ) (m : Master)
    → IsSound none m
    → IsSound none (thread_add_read k now func arg fd timer flags m).1
unfolding thread_add_read
thread_add_read-IsSound k now func arg fd timer flags m s =
    thread_add_read_sands-IsSound k func arg fd (sands_of now timer 0) flags m s

pub thread_add_write-IsSound :
    (k : Kernel) (now : Timeval) (func arg fd timer flags : ℕ) (m : Master)
    → IsSound none m
    → IsSound none (thread_add_write k now func arg fd timer flags m).1
unfolding thread_add_write write_thread code
thread_add_write-IsSound k now func arg fd timer flags m s =
    let n = thread_new m in
    let t = write_thread func arg fd flags n.0 in
    unless-IsSound _ m _ s
      (place_write-IsSound t _ _ _ n.1 refl (same-IsSound n.0 t n.1 refl (thread_new-IsSound m s)))

pub maybe-IsSound {ℓ} :
    {A : Type ℓ} (o : Option A) (m : Master) (f : A → Master)
    → IsSound none m
    → ((a : A) → o ≡ some a → IsSound none (f a))
    → IsSound none (maybe o m f)
maybe-IsSound none m f s k = s
maybe-IsSound (some a) m f s k = k a refl

pub thread_add_timer_uval_sands-IsSound :
    (type : ThreadType) (func arg val : ℕ) (sands : Timeval) (m : Master)
    → is_timer type ≡ true
    → IsSound none m
    → IsSound none (thread_add_timer_uval_sands type func arg val sands m).1
unfolding thread_add_timer_uval_sands
thread_add_timer_uval_sands-IsSound type func arg val sands m k s =
    let n = thread_new m in
    let t = record n.0 { type = type; func = some func; arg = arg; val = val; sands = sands } in
    put_timer-IsSound t n.1 k (same-IsSound n.0 t n.1 refl (thread_new-IsSound m s))

pub thread_add_child-IsSound :
    (now : Timeval) (func arg pid timer : ℕ) (m : Master)
    → IsSound none m
    → IsSound none (thread_add_child now func arg pid timer m).1
unfolding thread_add_child code
thread_add_child-IsSound now func arg pid timer m s =
    let n = thread_new m in
    let t = record n.0 {
      type = ThreadType.child;
      func = some func;
      arg = arg;
      pid = pid;
      status = 0;
      sands = sands_of now timer n.0.sands.tv_usec;
    } in
    put_child-IsSound t n.1 refl (same-IsSound n.0 t n.1 refl (thread_new-IsSound m s))

pub thread_add_event-IsSound :
    (func arg val : ℕ) (m : Master)
    → IsSound none m
    → IsSound none (thread_add_event func arg val m).1
unfolding thread_add_event is_event code
thread_add_event-IsSound func arg val m s =
    let n = thread_new m in
    let t = record n.0 { type = ThreadType.event; func = some func; arg = arg; val = val } in
    put_event-IsSound t n.1 refl (same-IsSound n.0 t n.1 refl (thread_new-IsSound m s))

pub thread_add_generic_terminate_event-IsSound :
    (type : ThreadType) (func : Option ℕ) (status : ℕ) (m : Master)
    → is_event type ≡ true
    → IsSound none m
    → IsSound none (thread_add_generic_terminate_event type func status m).1
unfolding thread_add_generic_terminate_event
thread_add_generic_terminate_event-IsSound type func status m k s =
    let n = thread_new m in
    let t = record n.0 { type = type; func = func; arg = 0; val = status } in
    put_event-IsSound t n.1 k (same-IsSound n.0 t n.1 refl (thread_new-IsSound m s))
