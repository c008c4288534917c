-- ===== src/Vrrp/Advert/Valid.antt =====
-- keepalived/vrrp/vrrp.c: the checksum of what is sent, with IPv4.
use keepalived.Common.{
  ℕ, ◌+◌, ◌*◌, ◌/◌, ◌%◌, ◌^◌, ◌<◌, true, false, ◌||◌, ◌==◌, ==_iff, ◌≡◌, sym, ap, ◌∙◌, subst,
  if◌then◌else◌, if_true, if_false, if_both, Bool-cases, Option, none, some, List, [], ◌∷◌, All,
  inl, inr, arith,
}
use keepalived.Sockaddr.{af_inet}
use keepalived.Vrrp.Checksum.{csum_incremental_update16, csum_incremental_update32}
use keepalived.Vrrp.Checksum.Inverse.{sum_of}
use keepalived.Vrrp.Checksum.Update.{
  IsFull, update16-IsFull, update32-IsFull, update16_lt, update32_lt,
}
use keepalived.Vrrp.Advert.{
  Buffer, Sender, first_word, second_word, update_priority, update_daddr, update_saddr,
}

-- The sum of the two addresses of the pseudo header.
abbrev pub addresses : Buffer → ℕ
addresses b = (b.saddr / 2 ^ 16 + b.saddr % 2 ^ 16) + (b.daddr / 2 ^ 16 + b.daddr % 2 ^ 16)

-- What the checksum covers: the words, and in version 3 the pseudo header, the rest of which adds `tail`.
unfoldable pub cover : ℕ → ℕ → Buffer → ℕ
cover version tail b =
    (first_word b + (second_word b + (b.third + (b.chksum + sum_of b.body))))
    + (if version == 2 then 0 else addresses b + tail)

-- A buffer whose checksum is right.
pub record IsValid (version tail : ℕ) (b : Buffer) : Type 0 where
  pub full : IsFull (cover version tail b)
  pub chksum : b.chksum < 2 ^ 16
  pub priority : b.priority < 2 ^ 8
  pub naddr : b.naddr < 2 ^ 8
  pub saddr : b.saddr < 2 ^ 32
  pub small : first_word b + (b.third + sum_of b.body) < 2 ^ 30
  pub daddr : b.daddr < 2 ^ 32

-- The same buffer with another priority or another address, and the checksum that follows it.
set_priority : ℕ → Buffer → Buffer
set_priority prio b = record b {
  priority = prio;
  chksum = csum_incremental_update16 b.chksum (second_word b) (prio * 2 ^ 8 + b.naddr);
}

set_priority-IsValid :
    (version tail prio : ℕ) (b : Buffer)
    → prio < 2 ^ 8
    → IsValid version tail b
    → IsValid version tail (set_priority prio b)
unfolding set_priority cover
set_priority-IsValid version tail prio b p s =
    let t = if version == 2 then 0 else addresses b + tail in
    let k =
      update16-IsFull (first_word b + (b.third + sum_of b.body) + t) b.chksum (second_word b)
        (prio * 2 ^ 8 + b.naddr) s.chksum (bound16 b.priority b.naddr s.priority s.naddr)
        (bound16 prio b.naddr p s.naddr) (positive (b.third + sum_of b.body) t)
        (subst IsFull (swap t) s.full) in
    record {
      full = subst IsFull (sym (swap2 t (prio * 2 ^ 8 + b.naddr) _)) k;
      chksum = update16_lt b.chksum (second_word b) (prio * 2 ^ 8 + b.naddr) s.chksum;
      priority = p;
      naddr = s.naddr;
      small = s.small;
      saddr = s.saddr;
      daddr = s.daddr;
    }
  where
    bound16 : (a c : ℕ) → a < 2 ^ 8 → c < 2 ^ 8 → a * 2 ^ 8 + c < 2 ^ 16
    bound16 a c h k = omega arith

    positive : (r t : ℕ) → 0 < first_word b + r + t
    positive r t = omega arith

    swap :
        (t : ℕ)
        → first_word b + (second_word b + (b.third + (b.chksum + sum_of b.body))) + t
          ≡ first_word b + (b.third + sum_of b.body) + t + second_word b + b.chksum
    swap t = omega arith

    swap2 :
        (t w c : ℕ)
        → first_word b + (w + (b.third + (c + sum_of b.body))) + t
          ≡ first_word b + (b.third + sum_of b.body) + t + w + c
    swap2 t w c = omega arith

-- With version 3: the checksum covers the addresses.
set_daddr : ℕ → Buffer → Buffer
set_daddr a b = record b { chksum = csum_incremental_update32 b.chksum b.daddr a; daddr = a }

set_saddr : ℕ → Buffer → Buffer
set_saddr a b = record b { chksum = csum_incremental_update32 b.chksum b.saddr a; saddr = a }

module _ (version tail : ℕ) (a : ℕ) (b : Buffer) (three : (version == 2) ≡ false) where
  with_addresses :
      (x : Buffer)
      → cover version tail x
        ≡ (first_word x + (second_word x + (x.third + (x.chksum + sum_of x.body))))
          + (addresses x + tail)
  unfolding cover
  with_addresses x =
      ap (λ z. first_word x + (second_word x + (x.third + (x.chksum + sum_of x.body))) + z)
        (if_false _ 0 (addresses x + tail) three)

  set_daddr-IsValid : a < 2 ^ 32 → IsValid version tail b → IsValid version tail (set_daddr a b)
  unfolding set_daddr
  set_daddr-IsValid p s =
      let rest =
        first_word b
        + (second_word b + (b.third + sum_of b.body))
        + (b.saddr / 2 ^ 16 + b.saddr % 2 ^ 16)
        + tail in
      let k =
        update32-IsFull rest b.chksum b.daddr a s.chksum s.daddr p (omega arith)
          (subst IsFull (with_addresses b ∙ omega arith) s.full) in
      record {
        full =
            subst IsFull
              (sym (
                with_addresses (set_daddr a b)
                ∙ swap (csum_incremental_update32 b.chksum b.daddr a)))
              k;
        chksum = update32_lt b.chksum b.daddr a s.chksum;
        priority = s.priority;
        naddr = s.naddr;
        small = s.small;
        saddr = s.saddr;
        daddr = p;
      }
    where
      swap :
          (c : ℕ)
          → (first_word b + (second_word b + (b.third + (c + sum_of b.body))))
              + (((b.saddr / 2 ^ 16 + b.saddr % 2 ^ 16) + (a / 2 ^ 16 + a % 2 ^ 16)) + tail)
            ≡ first_word b
              + (second_word b + (b.third + sum_of b.body))
              + (b.saddr / 2 ^ 16 + b.saddr % 2 ^ 16)
              + tail
              + (a / 2 ^ 16 + a % 2 ^ 16)
              + c
      swap c = omega arith

  set_saddr-IsValid : a < 2 ^ 32 → IsValid version tail b → IsValid version tail (set_saddr a b)
  unfolding set_saddr
  set_saddr-IsValid p s =
      let rest =
        first_word b
        + (second_word b + (b.third + sum_of b.body))
        + (b.daddr / 2 ^ 16 + b.daddr % 2 ^ 16)
        + tail in
      let k =
        update32-IsFull rest b.chksum b.saddr a s.chksum s.saddr p (omega arith)
          (subst IsFull (with_addresses b ∙ omega arith) s.full) in
      record {
        full =
            subst IsFull
              (sym (
                with_addresses (set_saddr a b)
                ∙ swap (csum_incremental_update32 b.chksum b.saddr a)))
              k;
        chksum = update32_lt b.chksum b.saddr a s.chksum;
        priority = s.priority;
        naddr = s.naddr;
        small = s.small;
        saddr = p;
        daddr = s.daddr;
      }
    where
      swap :
          (c : ℕ)
          → (first_word b + (second_word b + (b.third + (c + sum_of b.body))))
              + (((a / 2 ^ 16 + a % 2 ^ 16) + (b.daddr / 2 ^ 16 + b.daddr % 2 ^ 16)) + tail)
            ≡ first_word b
              + (second_word b + (b.third + sum_of b.body))
              + (b.daddr / 2 ^ 16 + b.daddr % 2 ^ 16)
              + tail
              + (a / 2 ^ 16 + a % 2 ^ 16)
              + c
      swap c = omega arith

-- With version 2 the addresses are not covered.
move_v2 :
    (version tail s d : ℕ) (b : Buffer)
    → (version == 2) ≡ true
    → s < 2 ^ 32
    → d < 2 ^ 32
    → IsValid version tail b
    → IsValid version tail (record b { saddr = s; daddr = d })
unfolding cover
move_v2 version tail s d b two p q h =
    let z = λ (x : ℕ). if_true (version == 2) 0 x two in
    record {
      full =
          subst IsFull
            (ap (λ x. first_word b + (second_word b + (b.third + (b.chksum + sum_of b.body))) + x)
              (z _ ∙ sym (z _)))
            h.full;
      chksum = h.chksum;
      priority = h.priority;
      naddr = h.naddr;
      small = h.small;
      saddr = p;
      daddr = q;
    }

-- The address that a call asks for.
unfoldable pub asked : Option ℕ → List ℕ
asked none = []
asked (some a) = a ∷ []

module _ (tail : ℕ) (v : Sender) (b : Buffer) (s : IsValid v.version tail b) where
  pub update_priority-IsValid :
      (prio : ℕ)
      → v.family ≡ af_inet
      → prio < 2 ^ 8
      → IsValid v.version tail (update_priority prio v b)
  unfolding update_priority set_priority
  update_priority-IsValid prio i p = if_both (IsValid v.version tail) (b.priority == prio) b _ s (
      subst (IsValid v.version tail)
        (sym (
          if_true (v.family == af_inet) (set_priority prio b) (record b { priority = prio })
            ((==_iff v.family af_inet).1 i)))
        (set_priority-IsValid v.version tail prio b p s))

  pub update_daddr-IsValid :
      (a : Option ℕ) → All (λ x. x < 2 ^ 32) (asked a) → IsValid v.version tail (update_daddr a v b)
  unfolding update_daddr set_daddr asked
  update_daddr-IsValid none p = s
  update_daddr-IsValid (some a) p =
      let other = if b.daddr == a then b else set_daddr a b in
      elim (Bool-cases (v.version == 2)) [
        | inl two ↦
            subst (IsValid v.version tail)
              (sym (if_true (v.version == 2) (record b { daddr = a }) other two))
              (move_v2 v.version tail b.saddr a b two s.saddr p.0 s)
        | inr three ↦
            subst (IsValid v.version tail)
              (sym (if_false (v.version == 2) (record b { daddr = a }) other three))
              (if_both (IsValid v.version tail) (b.daddr == a) b (set_daddr a b) s
                (set_daddr-IsValid v.version tail a b three p.0 s))
      ]

  pub update_saddr-IsValid : v.saddr < 2 ^ 32 → IsValid v.version tail (update_saddr v b)
  unfolding update_saddr set_saddr
  update_saddr-IsValid p =
      if_both (IsValid v.version tail) (v.saddr_from_config || b.saddr == v.saddr) b _ s
        (elim (Bool-cases (v.version == 2)) [
          | inl two ↦
              subst (IsValid v.version tail)
                (sym (
                  if_true (v.version == 2) (record b { saddr = v.saddr }) (set_saddr v.saddr b)
                    two))
                (move_v2 v.version tail v.saddr b.daddr b two p s.daddr s)
          | inr three ↦
              subst (IsValid v.version tail)
                (sym (
                  if_false (v.version == 2) (record b { saddr = v.saddr }) (set_saddr v.saddr b)
                    three))
                (set_saddr-IsValid v.version tail v.saddr b three p s)
        ])
