-- ===== src/Scheduler/Child.antt =====
-- lib/scheduler.c: a child process that has ended.
use keepalived.Common.{ℕ, ◌==◌, if◌then◌else◌, Option, none, some, maybe, List, [], ◌∷◌, ◌++◌}
use keepalived.Scheduler.{ThreadType, Thread, PidNode, Master, erase, find, erase_pid}
use keepalived.Scheduler.Ready.{retyped}

-- rb_find with thread_child_pid_cmp
unfoldable pub find_pid : ℕ → List PidNode → Option PidNode
find_pid pid [] = none
find_pid pid (n ∷ ns) = let rest = find_pid pid ns in if n.pid == pid then some n else rest

-- A write through a pointer to a thread on the ready list.
unfoldable pub reap : ℕ → ℕ → List Thread → List Thread
reap p status [] = []
reap p status (t ∷ ts) =
    let rest = reap p status ts in
    if t.ptr == p
    then record t { status = status; type = ThreadType.child_terminated } ∷ ts
    else t ∷ rest

-- The thread of the node: on the ready list where it has timed out, and in the child tree otherwise.
unfoldable pub end_child : ℕ → ℕ → Master → Master
end_child p status m =
    maybe (find p m.child) (record m { ready = reap p status m.ready })
      (λ t. record m {
        child = erase p m.child;
        ready = m.ready ++ retyped ThreadType.child_terminated (record t { status = status }) ∷ [];
      })

unfoldable pub process_child_termination : ℕ → ℕ → Master → Master
process_child_termination pid status m =
    maybe (find_pid pid m.child_pid) m
      (λ n. end_child n.ptr status (record m { child_pid = erase_pid n.ptr m.child_pid }))

-- The children that waitpid reports, up to the last.
unfoldable pub thread_child_handler : List (ℕ × ℕ) → Master → Master
thread_child_handler [] m = m
thread_child_handler (c ∷ cs) m = thread_child_handler cs (process_child_termination c.0 c.1 m)
