-- ===== src/Bfd/Socket/Open.antt =====
-- What opening the output socket changes.
use keepalived.Common.{
  ℕ, suc, ◌≡◌, refl, ◌⊎◌, inl, inr, Bool, false, Option, none, some, is_some, Succeeds, Bool-cases,
  not, ◌==◌, ap,
}
use keepalived.Bfd.Session.{Ctx}
use keepalived.Bfd.Socket.{bind_out, open_with, open_socket, bfd_open_fd_out}

-- At most one random number is used, and nothing else changes.
abbrev pub SameBut : Ctx → Ctx → Type 0
SameBut c d =
    (r : ℕ → ℕ) × (d ≡ record c { random = r }) × ((r ≡ c.random) ⊎ (r ≡ λ n. c.random (suc n)))

bind_out-SameBut : (c : Ctx) → SameBut c (bind_out c).1
unfolding bind_out
bind_out-SameBut c = elim (Bool-cases (c.s.src_addr.ss_family == 0)) [
  | inl e ↦ rw (e, bind_out) (c.random, refl, inl refl)
  | inr e ↦ rw (e, bind_out) ((λ n. c.random (suc n)), refl, inr refl)
]

open_with-SameBut : (fd : Option ℕ) (c : Ctx) → SameBut c (open_with fd c).1
unfolding open_with
open_with-SameBut none c = (c.random, refl, inl refl)
open_with-SameBut (some fd) c = bind_out-SameBut c

-- The descriptor is all that changes of the session.
abbrev pub Opened : Ctx → Bool × Ctx → Type 0
Opened c (closed, d) =
    (fd : Option ℕ) × (closed ≡ not (is_some fd))
    × (SameBut (record c { s = record (c.s) { fd_out = fd } }) d)

pub bfd_open_fd_out-Opened :
    (c : Ctx) → is_some c.s.fd_out ≡ false → Succeeds (bfd_open_fd_out c) (Opened c)
unfolding bfd_open_fd_out open_socket
bfd_open_fd_out-Opened c shut =
    let (r, e, d) = open_with-SameBut c.net.socket c in
    rw (shut, bfd_open_fd_out)
      ((open_with c.net.socket c).0, refl, (r, ap (reopen (open_with c.net.socket c).0) e, d))
  where
    reopen : Option ℕ → Ctx → Ctx
    reopen fd x = record x { s = record (x.s) { fd_out = fd } }
