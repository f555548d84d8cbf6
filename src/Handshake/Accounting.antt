-- ===== src/Handshake/Accounting.antt =====
-- The count of pending messages of src/feedback_handshake.c through every call, where feedback comes
-- only for messages that wait for it.
use universal_multi_segmente.Prelude.{
  ℕ, ◌+◌, ◌-◌, ◌^◌, ◌<◌, ◌≡◌, refl, sym, Bool, true, false, ◌&&◌, List, arith, ltb, ltb→lt,
  if◌then◌else◌, length, replicate,
}
use universal_multi_segmente.Handshake.{
  HandshakeManager, blank, handshake_init, new_entry, send_message, process_timeouts,
  retry_failed_messages,
}
use universal_multi_segmente.Handshake.Lifetime.{
  IsHandshake, sent, send_message_lem, Call, send, answered, timed, retried, step, step-taken,
  init-IsHandshake,
}
use universal_multi_segmente.Handshake.Balance.{
  waiting, waiting-sent, waiting_small, waiting_none, IsBalanced,
}
use universal_multi_segmente.Handshake.Kept.{
  IsAwaited, timeouts_from-IsKept, retry_from-IsKept, process_feedback-IsKept,
}

-- The call is no feedback, or feedback that answers a message which still waits.
abbrev pub Expected : HandshakeManager → Call → Type 0
Expected m (answered now f) = IsAwaited m f
Expected m _ = Unit

sent-IsBalanced :
    (m : HandshakeManager) (now producer consumer : ℕ) (bytes : List ℕ)
    → IsHandshake m
    → IsBalanced m
    → ltb (m.head + 1) m.capacity ≡ true
    → IsBalanced (sent m now producer consumer bytes)
unfolding new_entry
sent-IsBalanced m now producer consumer bytes v b h = record {
  balance = omega (
    arith,
    b.balance,
    b.narrow,
    b.room,
    waiting_small m.entries m.head,
    waiting-sent m.entries m.head (new_entry m now producer consumer bytes)
        (omega (arith, v.size, v.room)),
  );
  room = ltb→lt (m.head + 1) m.capacity h;
  narrow = b.narrow;
}

send-IsBalanced :
    (m : HandshakeManager) (now producer consumer : ℕ) (bytes : List ℕ)
    → IsHandshake m
    → IsBalanced m
    → IsBalanced (send_message m now producer consumer bytes).1
send-IsBalanced m now producer consumer bytes v b =
    rw (send_message_lem m now producer consumer bytes v)
      (split (ltb 0 (length bytes)) (ltb (m.head + 1) m.capacity) refl)
  where
    decided : Bool → ℕ × HandshakeManager
    decided t = if t then (m.head, sent m now producer consumer bytes) else (0, m)

    split : (a t : Bool) → ltb (m.head + 1) m.capacity ≡ t → IsBalanced (decided (a && t)).1
    split true true h = sent-IsBalanced m now producer consumer bytes v b h
    split true false h = b
    split false t h = b

step-IsBalanced :
    (m : HandshakeManager) (c : Call)
    → IsHandshake m
    → IsBalanced m
    → Expected m c
    → IsBalanced (step m c)
unfolding step process_timeouts retry_failed_messages
step-IsBalanced m (send now producer consumer bytes) v b x =
    send-IsBalanced m now producer consumer bytes v b
step-IsBalanced m (answered now f) v b x = (process_feedback-IsKept m now f b x).balanced
step-IsBalanced m (timed now) v b x =
    (timeouts_from-IsKept now m (m.head - m.tail) m.tail b (omega (arith, v.start))).balanced
step-IsBalanced m (retried now) v b x =
    (retry_from-IsKept now m (m.head - m.tail) m.tail 0 b (omega (arith, v.start))).balanced

-- The managers that calls lead to from `m`, where feedback only comes when it is awaited.
pub data Reach (m : HandshakeManager) : HandshakeManager → Type 0 where
  here : Reach m m
  next : {n : HandshakeManager} → Reach m n → (c : Call) → Expected n c → Reach m (step n c)

init-IsBalanced :
    (capacity : ℕ) → 0 < capacity → capacity < 2 ^ 32 → IsBalanced (handshake_init capacity)
unfolding handshake_init
init-IsBalanced capacity h k = record {
  balance = sym (waiting_none (replicate capacity blank));
  room = h;
  narrow = k;
}

Reach-IsBalanced :
    (capacity : ℕ) {m : HandshakeManager}
    → 0 < capacity
    → capacity < 2 ^ 32
    → Reach (handshake_init capacity) m
    → IsHandshake m × IsBalanced m
Reach-IsBalanced capacity h k here = (init-IsHandshake capacity h k, init-IsBalanced capacity h k)
Reach-IsBalanced capacity h k (next {n} r c x) =
    let (v, b) = Reach-IsBalanced capacity h k r in
    ((step-taken n c v).0, step-IsBalanced n c v b x)

-- If feedback comes only for messages that still wait, a manager counts as pending, after any calls,
-- exactly the messages that are neither acknowledged nor given up.
pub Reach-balance :
    (capacity : ℕ) {m : HandshakeManager}
    → 0 < capacity
    → capacity < 2 ^ 32
    → Reach (handshake_init capacity) m
    → m.pending_count ≡ waiting m.entries m.head
Reach-balance capacity h k r = (Reach-IsBalanced capacity h k r).1.balance
