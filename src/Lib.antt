-- ===== src/Lib.antt =====
-- The core of keepalived: the time values of its libraries, the process that speaks BFD
-- (bidirectional forwarding detection, RFC 5880), the pool of real servers of a virtual server, and
-- the process that speaks VRRP (virtual router redundancy protocol, RFC 3768 and RFC 5798).
--
-- Parts, and the files that model them:
-- * lib/timer.c and lib/timer.h are Timer.antt: `timeval_t` is `Timeval`, with seconds in the
--   integers and microseconds in ℕ. Timer/Clock.antt is `set_mono_offset` and
--   `monotonic_gettimeofday`; Timer/Laws.antt and Timer/Order.antt hold the proofs.
-- * lib/scheduler.h and lib/scheduler.c are Scheduler.antt and its children: `thread_master_t` is
--   `Master`, a red-black tree is a list in the tree's order, and a pointer to a thread is its `ptr`.
--   Scheduler/Events.antt is the events of epoll, Scheduler/Add.antt the adding of threads and their
--   timeouts, Scheduler/Ready.antt the timerfd and what epoll reports, Scheduler/Alarm.antt
--   `thread_set_timer`, Scheduler/Child.antt the end of a child process, Scheduler/Cancel.antt
--   `thread_cancel`, Scheduler/Cleanup.antt
--   `thread_cleanup_master`, and Scheduler/Run.antt a round of `process_threads`, the function of the thread
--   being an argument. Scheduler/System.antt runs these operations in any order; Scheduler/Sound.antt
--   and its children are what they keep.
-- * lib/parser.c is Parser.antt as far as it reads unsigned and decimal numbers; a string is the list of
--   its characters, and strtoull an argument.
-- * keepalived/include/bfd.h is Bfd/Session.antt and Bfd/Diag.antt: `bfd_t` is `Bfd`, `bfdhdr_t` is
--   `Header`, `bfdpkt_t` is `Packet`. `Ctx` is a session together with what its handlers read (the
--   clock, random(), the answers of the system calls, the discriminators of the other sessions)
--   and what they put out (packets, events, calls queued on the event list).
-- * keepalived/bfd/bfd.c is Bfd/State.antt (copy, reset and intervals) and Bfd/Packet.antt (building
--   and checking of control packets); htonl and ntohl are Bfd/ByteOrder.antt, for a little-endian host.
-- * keepalived/bfd/bfd_data.c is Bfd/Random.antt (`rand_intv`, `bfd_get_random_discr`) and a part of
--   Bfd/Workers.antt (`bfd_complete_init`).
-- * keepalived/bfd/bfd_scheduler.c is Bfd/Timers.antt (the sender, expire and reset timers with their
--   suspension), Bfd/Socket.antt (the output socket), Bfd/Machine.antt (the changes of state, the
--   handlers of the timers, and `bfd_event_send` of keepalived/bfd/bfd_event.c), Bfd/Handle.antt
--   (`bfd_handle_packet` from the session it has found on) and Bfd/Workers.antt (registration and
--   release of a session).
-- * Bfd/System.antt runs the handlers of a session one after the other, in any order, between
--   changes of the clock, of the system and of the other sessions.
-- * keepalived/check/ipwrapper.c is Check/Quorum.antt (`update_quorum_state`, the sorry server) and
--   Check/Server.antt (`perform_svr_state`, `update_svr_checker_state`, `update_svr_wgt`); the structs
--   of keepalived/include/check_data.h and `ipvs_cmd` of keepalived/check/ipvswrapper.c are
--   Check.antt. `Pool` is a virtual server with what was sent to the kernel and told to others.
-- * keepalived/include/vrrp.h is Vrrp/Instance.antt and Vrrp/Timers.antt: `vrrp_t` is `Vrrp`, `vrrphdr_t`
--   is `Advert`, `flags_if_fault` is `Faults`. `Env` is what a handler reads beside the instance, and the
--   field `out` lists what the instance puts out.
-- * keepalived/vrrp/vrrp.c is Vrrp/Transition.antt (the changes of state), Vrrp/Backup.antt and
--   Vrrp/Master.antt (`vrrp_state_backup` and `vrrp_state_master_rx`). Vrrp/Transition/Steps.antt is an
--   abstract machine over the states alone. Vrrp/Packet.antt is `vrrp_check_packet`, whose verdict is an argument of the handlers, and Vrrp/Checksum.antt `in_csum`
--   of lib/utils.c. Vrrp/Advert.antt is the building and the updating of the packet that is sent:
--   `Sender` is what of `vrrp_t` has to do with it, `Buffer` its send buffer.
-- * keepalived/vrrp/vrrp_scheduler.c is Vrrp/Dispatch.antt (an advert and a timeout), Vrrp/Fault.antt
--   (`try_up_instance`, with `down_instance` of vrrp_track.c), Vrrp/Script.antt (the results of a
--   script) and the table VRRP_TSM in Vrrp/Sync.antt.
-- * keepalived/vrrp/vrrp_track.c is Vrrp/Fault.antt and Vrrp/Priority.antt; keepalived/vrrp/vrrp_sync.c is
--   Vrrp/Sync.antt, where `Group` is a sync group seen from the member that an event is for.
-- * Vrrp/System.antt runs an instance outside a group through events in any order. BFD, the checkers and
--   VRRP are processes of their own: VRRP hears of BFD by the events of Bfd/Machine.antt, of which
--   `track_bfd` in Vrrp/Priority.antt is the receiver.
-- * Sockaddr.antt is the comparison of addresses in lib/utils.c, for BFD and VRRP.
-- * Common.antt is the shared part: Boolean tests, options, lists and integers over the native
--   numbers.
--
-- Correspondence. A function that changes a struct takes the struct and returns it. `assert` is an
-- `Option`: `none` stands for an assertion that fails. Unsigned numbers keep their wrap-around.
-- Logging is left out. In the parts for
-- BFD and VRRP a thread is its due time and the list it stands in.
--
-- Bounds and fuel. The search for a discriminator is tried 64 times: the theorems about it name a
-- number of the stream that is free among these. The loop over the ports is tried 2 ^ 16 + 1 times,
-- once more than there are ports. Seconds are integers without a bound, and so
-- are the sum of the weights of a virtual server, the number of failed checkers and the total priority
-- of an instance. A down timer has 32 bits: the theorems about it name the limits of the configuration
-- or of the time that is left. The loops of VRRP are walks over lists.
--
-- Not modelled: the parsers but for the numbers, and the start of the processes, netlink, sockets and the kernel's
-- tables (they are arguments), the receive path of BFD before a session is found, the health
-- checkers, SNMP and DBus. Of VRRP: the statistics, gratuitous ARP, the
-- addresses of the interfaces, authentication, the start and the reload, the fault counts of a sync
-- group, and the tracking of interfaces and files. Of the scheduler: SNMP's fds,
-- the errors of epoll_wait. lib/list_head.h and lib/rbtree.c are copies of
-- the kernel's library; lists stand for them.
pub mod Common
pub mod Timer
pub mod Scheduler
pub mod Parser
pub mod Sockaddr
pub mod Bfd
pub mod Check
pub mod Vrrp
