-- ===== src/Handshake/Lifetime.antt =====
-- How many messages a manager of src/feedback_handshake.c takes, whatever calls it sees.
use universal_multi_segmente.Prelude.{
  ℕ, zero, suc, ◌+◌, ◌-◌, ◌%◌, ◌^◌, ◌≤◌, ◌<◌, ◌≡◌, refl, sym, ◌∙◌, subst, Bool, true, false, ◌&&◌,
  not, List, [], ◌∷◌, arith, ltb, ltb→lt, ge→ltb, ◌==◌, if◌then◌else◌, add32, add_size, length,
  length-set, length-replicate, set, replicate, All, All-set,
}
use native.Mathlib.Decide.{dec_lt}
use native.Mathlib.Nat.{mod-eq_of_lt, mod_self}
use universal_multi_segmente.Handshake.{
  HandshakeEntry, HandshakeManager, FeedbackMessage, blank, handshake_init, new_entry, send_message,
  process_feedback, process_timeouts, retry_failed_messages,
}
use universal_multi_segmente.Handshake.Adjusted.{IsAdjusted}
use universal_multi_segmente.Handshake.Calls.{
  process_feedback-IsAdjusted, process_timeouts-IsAdjusted, retry_failed_messages-IsAdjusted,
}

-- `tail` is never moved, so the numbers handed out are those below `head`.
pub record IsHandshake (m : HandshakeManager) : Type 0 where
  pub size : length m.entries ≡ m.capacity
  pub narrow : m.capacity < 2 ^ 32
  pub start : m.tail ≡ 0
  pub room : m.head < m.capacity
  pub few : m.max_retries < 2 ^ 32 - 1
  pub bounded : All (λ e. e.retry_count ≤ m.max_retries) m.entries

IsAdjusted-IsHandshake : {m n : HandshakeManager} → IsAdjusted m n → IsHandshake m → IsHandshake n
IsAdjusted-IsHandshake {m} {n} a v = record {
  size = a.length_same ∙ v.size ∙ sym a.capacity_same;
  narrow = omega (arith, a.capacity_same, v.narrow);
  start = a.tail_same ∙ v.start;
  room = omega (arith, a.capacity_same, a.head_same, v.room);
  few = omega (arith, a.limit_same, v.few);
  bounded =
      subst (λ l. All (λ e. e.retry_count ≤ l) n.entries) (sym a.limit_same)
        (a.bounded v.few v.bounded);
}

-- A send is taken if it has a byte and there is a place besides the one that is always left free.
abbrev pub takes : HandshakeManager → List ℕ → Bool
takes m bytes = ltb 0 (length bytes) && ltb (m.head + 1) m.capacity

abbrev pub sent : HandshakeManager → ℕ → ℕ → ℕ → List ℕ → HandshakeManager
sent m now producer consumer bytes = record m {
  entries = set m.entries m.head (new_entry m now producer consumer bytes);
  head = m.head + 1;
  pending_count = add32 m.pending_count 1;
  total_messages = add_size m.total_messages 1;
}

full-mod : (h c t : ℕ) → t ≡ 0 → h < c → ((h + 1) % c == t) ≡ not (ltb (h + 1) c)
full-mod h c t z k = elim (dec_lt (h + 1) c) [
  | yes lt ↦ rw (z, mod-eq_of_lt lt) (ground arith)
  | no ge ↦ let e : h + 1 ≡ c = omega arith in rw (z, e, mod_self c, ge→ltb c c (omega arith)) refl
]

empty-not : (n : ℕ) → (n == 0) ≡ not (ltb 0 n)
empty-not n = ground arith

if-flip {ℓ} :
    {A : Type ℓ} (a b : Bool) (x y : A)
    → (if not a then x else if not b then x else y) ≡ (if a && b then y else x)
if-flip true true x y = refl
if-flip true false x y = refl
if-flip false b x y = refl

pub send_message_lem :
    (m : HandshakeManager) (now producer consumer : ℕ) (bytes : List ℕ)
    → IsHandshake m
    → send_message m now producer consumer bytes
      ≡ (if takes m bytes then (m.head, sent m now producer consumer bytes) else (0, m))
unfolding send_message
send_message_lem m now producer consumer bytes v =
    let position : m.head % m.capacity ≡ m.head = mod-eq_of_lt v.room in
    let next : add32 m.head 1 ≡ m.head + 1 = omega (arith, v.room, v.narrow) in
    rw (position, next, full-mod m.head m.capacity m.tail v.start v.room, empty-not (length bytes))
      (if-flip (ltb 0 (length bytes)) (ltb (m.head + 1) m.capacity) (0, m)
        (m.head, sent m now producer consumer bytes))

All-replicate : (n : ℕ) → All (λ (e : HandshakeEntry). e.retry_count ≤ 3) (replicate n blank)
All-replicate zero = tt
All-replicate (suc n) = (omega arith, All-replicate n)

-- A new manager of a capacity from 1 on.
pub init-IsHandshake :
    (capacity : ℕ) → 0 < capacity → capacity < 2 ^ 32 → IsHandshake (handshake_init capacity)
unfolding handshake_init
init-IsHandshake capacity h k = record {
  size = length-replicate capacity blank;
  narrow = k;
  start = refl;
  room = h;
  few = omega arith;
  bounded = All-replicate capacity;
}

send-IsHandshake :
    (m : HandshakeManager) (now producer consumer : ℕ) (bytes : List ℕ)
    → IsHandshake m
    → ltb (m.head + 1) m.capacity ≡ true
    → IsHandshake (sent m now producer consumer bytes)
unfolding new_entry
send-IsHandshake m now producer consumer bytes v h = record {
  size = length-set m.entries m.head _ ∙ v.size;
  narrow = v.narrow;
  start = v.start;
  room = ltb→lt (m.head + 1) m.capacity h;
  few = v.few;
  bounded = All-set (λ e. e.retry_count ≤ m.max_retries) m.entries m.head _ v.bounded (omega arith);
}

-- The calls that producers, consumers and the owner of a manager make.
pub data Call : Type 0 where
  send : ℕ → ℕ → ℕ → List ℕ → Call
  answered : ℕ → FeedbackMessage → Call
  timed : ℕ → Call
  retried : ℕ → Call

unfoldable pub step : HandshakeManager → Call → HandshakeManager
step m (send now producer consumer bytes) = (send_message m now producer consumer bytes).1
step m (answered now f) = (process_feedback m now f).1
step m (timed now) = process_timeouts m now
step m (retried now) = (retry_failed_messages m now).1

pub run : HandshakeManager → List Call → HandshakeManager
run m [] = m
run m (c ∷ cs) = run (step m c) cs

-- The sends that are taken among the calls.
abbrev taken : HandshakeManager → Call → ℕ
taken m (send now producer consumer bytes) = if takes m bytes then 1 else 0
taken m _ = 0

pub all_taken : HandshakeManager → List Call → ℕ
all_taken m [] = 0
all_taken m (c ∷ cs) = taken m c + all_taken (step m c) cs

pub step-taken :
    (m : HandshakeManager) (c : Call)
    → IsHandshake m
    → IsHandshake (step m c)
      × ((step m c).head ≡ m.head + taken m c)
      × ((step m c).capacity ≡ m.capacity)
unfolding step
step-taken m (send now producer consumer bytes) v =
    rw (step, send_message_lem m now producer consumer bytes v)
      (split (ltb 0 (length bytes)) (ltb (m.head + 1) m.capacity) refl)
  where
    decided : Bool → ℕ × HandshakeManager
    decided t = if t then (m.head, sent m now producer consumer bytes) else (0, m)

    split :
        (a b : Bool)
        → ltb (m.head + 1) m.capacity ≡ b
        → IsHandshake (decided (a && b)).1
          × ((decided (a && b)).1.head ≡ m.head + (if a && b then 1 else 0))
          × ((decided (a && b)).1.capacity ≡ m.capacity)
    split true true h = (send-IsHandshake m now producer consumer bytes v h, refl, refl)
    split true false h = (v, omega arith, refl)
    split false b h = (v, omega arith, refl)
step-taken m (answered now f) v =
    let a = process_feedback-IsAdjusted m now f in
    (IsAdjusted-IsHandshake a v, omega (arith, a.head_same), a.capacity_same)
step-taken m (timed now) v =
    let a = process_timeouts-IsAdjusted m now in
    (IsAdjusted-IsHandshake a v, omega (arith, a.head_same), a.capacity_same)
step-taken m (retried now) v =
    let a = retry_failed_messages-IsAdjusted m now in
    (IsAdjusted-IsHandshake a v, omega (arith, a.head_same), a.capacity_same)

-- Whatever calls a well-formed manager sees, it stays well-formed: its numbers stay below its
-- capacity, and no entry is retried more often than the limit. Each message that it takes uses up a
-- number for good, so that all the messages it ever takes, acknowledged or not, have to fit in the
-- numbers that are left.
pub run_lifetime :
    (m : HandshakeManager) (cs : List Call)
    → IsHandshake m
    → IsHandshake (run m cs)
      × ((run m cs).head ≡ m.head + all_taken m cs)
      × (m.head + all_taken m cs < m.capacity)
unfolding run all_taken
run_lifetime m [] v = (v, omega arith, omega (arith, v.room))
run_lifetime m (c ∷ cs) v =
    let s = step-taken m c v in
    let r = run_lifetime (step m c) cs s.0 in
    (r.0, omega (arith, s.1, r.1), omega (arith, s.1, s.2, r.2))
