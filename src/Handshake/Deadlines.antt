-- ===== src/Handshake/Deadlines.antt =====
-- What `handshake_process_timeouts` of src/feedback_handshake.c leaves of the messages in flight.
use universal_multi_segmente.Prelude.{
  ℕ, zero, suc, ◌+◌, ◌-◌, ◌≤◌, ◌<◌, ◌≡◌, ◌≢◌, refl, sym, ap, ◌∙◌, subst, inl, inr, Bool, true,
  false, ◌&&◌, Option, none, some, arith, ltb, length, if◌then◌else◌, Bool-cases, mul32, add_size,
  get_elem?, get_elem?-set_self, get_elem?-set_ne, get_elem?-some,
}
use native.Mathlib.Decide.{dec_lt}
use native.Mathlib.Nat.{mod-eq_of_lt}
use universal_multi_segmente.Handshake.{
  timeout, HandshakeEntry, HandshakeManager, give_up, schedule, is_overdue, expire, timeouts_from,
  process_timeouts,
}
use universal_multi_segmente.Handshake.Calls.{expire-IsAdjusted}
use universal_multi_segmente.Handshake.Lifetime.{IsHandshake}

-- If an entry stands there, it is no pending one that is overdue.
abbrev InTime : ℕ → Option HandshakeEntry → Type 0
InTime now none = Unit
InTime now (some e) = is_overdue now e ≡ false

module _ (now : ℕ) (m : HandshakeManager) (i : ℕ) where
  retried-InTime :
      (z : Bool) (e : HandshakeEntry) (ms : ℕ)
      → i < length m.entries
      → InTime now (get_elem? (if z then schedule m i e ms else give_up m i e timeout).entries i)
  unfolding schedule give_up
  retried-InTime true e ms h = rw (get_elem?-set_self m.entries i _ h) refl
  retried-InTime false e ms h = rw (get_elem?-set_self m.entries i _ h) refl

  retried-elsewhere :
      (z : Bool) (e : HandshakeEntry) (ms j : ℕ)
      → i ≢ j
      → get_elem? (if z then schedule m i e ms else give_up m i e timeout).entries j
        ≡ get_elem? m.entries j
  unfolding schedule give_up
  retried-elsewhere true e ms j h = get_elem?-set_ne m.entries _ h
  retried-elsewhere false e ms j h = get_elem?-set_ne m.entries _ h

expire-elsewhere :
    (now : ℕ) (m : HandshakeManager) (i j : ℕ) (o : Option HandshakeEntry)
    → i ≢ j
    → get_elem? (expire now m i o).entries j ≡ get_elem? m.entries j
unfolding expire
expire-elsewhere now m i j none h = refl
expire-elsewhere now m i j (some e) h = elim (Bool-cases (is_overdue now e)) [
  | inr a ↦ rw a refl
  | inl a ↦ rw a (
      retried-elsewhere now (record m { timeouts = add_size m.timeouts 1 }) i
        (m.zero_loss_mode && ltb e.retry_count m.max_retries) e (mul32 e.timeout_ms 2) j h)
]

expire-InTime :
    (now : ℕ) (m : HandshakeManager) (i : ℕ) (o : Option HandshakeEntry)
    → get_elem? m.entries i ≡ o
    → InTime now (get_elem? (expire now m i o).entries i)
unfolding expire
expire-InTime now m i none g = rw g tt
expire-InTime now m i (some e) g = elim (Bool-cases (is_overdue now e)) [
  | inr a ↦ rw a (rw g a)
  | inl a ↦ rw a (
      retried-InTime now (record m { timeouts = add_size m.timeouts 1 }) i
        (m.zero_loss_mode && ltb e.retry_count m.max_retries) e (mul32 e.timeout_ms 2)
        (get_elem?-some m.entries i e g))
]

timeouts_from-step :
    (now : ℕ) (m : HandshakeManager) (n i : ℕ)
    → i < m.capacity
    → timeouts_from now m (suc n) i
      ≡ timeouts_from now (expire now m i (get_elem? m.entries i)) n (i + 1)
unfolding timeouts_from
timeouts_from-step now m n i h =
    ap (λ x. timeouts_from now (expire now m x (get_elem? m.entries x)) n (i + 1)) (mod-eq_of_lt h)

timeouts_from-before :
    (now : ℕ) (m : HandshakeManager) (n i j : ℕ)
    → j < i
    → i + n ≤ m.capacity
    → get_elem? (timeouts_from now m n i).entries j ≡ get_elem? m.entries j
timeouts_from-before now m zero i j h k = unfold timeouts_from in refl
timeouts_from-before now m (suc n) i j h k =
    let o = get_elem? m.entries i in
    let a = expire-IsAdjusted now m i o refl in
    ap (λ x. get_elem? x.entries j) (timeouts_from-step now m n i (omega arith))
    ∙ timeouts_from-before now (expire now m i o) n (i + 1) j (omega arith)
        (omega (arith, a.capacity_same))
    ∙ expire-elsewhere now m i j o (omega arith)

timeouts_from-InTime :
    (now : ℕ) (m : HandshakeManager) (n i j : ℕ)
    → i ≤ j
    → j < i + n
    → i + n ≤ m.capacity
    → InTime now (get_elem? (timeouts_from now m n i).entries j)
timeouts_from-InTime now m zero i j lo hi k = absurd (omega arith)
timeouts_from-InTime now m (suc n) i j lo hi k =
    let o = get_elem? m.entries i in
    let m' = expire now m i o in
    let a = expire-IsAdjusted now m i o refl in
    subst (λ x. InTime now (get_elem? x.entries j))
      (sym (timeouts_from-step now m n i (omega arith)))
      (elim (dec_lt i j) [
        | yes lt ↦
            timeouts_from-InTime now m' n (i + 1) j (omega arith) (omega arith)
              (omega (arith, a.capacity_same))
        | no ge ↦
            let e : i ≡ j = omega arith in
            subst (λ x. InTime now (get_elem? (timeouts_from now m' n (i + 1)).entries x)) e
              (subst (InTime now)
                (sym (
                  timeouts_from-before now m' n (i + 1) i (omega arith)
                    (omega (arith, a.capacity_same))))
                (expire-InTime now m i o refl))
      ])

-- After the timeouts of a well-formed manager were processed, none of the messages that it ever took
-- is pending and overdue at that time.
pub process_timeouts-InTime :
    (m : HandshakeManager) (now j : ℕ) (e : HandshakeEntry)
    → IsHandshake m
    → j < m.head
    → get_elem? (process_timeouts m now).entries j ≡ some e
    → is_overdue now e ≡ false
unfolding process_timeouts
process_timeouts-InTime m now j e v h g = subst (InTime now) g (
    timeouts_from-InTime now m (m.head - m.tail) m.tail j (omega (arith, v.start))
      (omega (arith, v.start)) (omega (arith, v.start, v.room)))
