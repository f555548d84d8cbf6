-- ===== src/Handshake/Balance.antt =====
-- The count of pending messages of src/feedback_handshake.c against the entries.
use universal_multi_segmente.Prelude.{
  ℕ, zero, suc, ◌+◌, ◌^◌, ◌≤◌, ◌<◌, ◌≡◌, refl, subst, inl, inr, Bool, true, false, ◌&&◌, some, List,
  [], ◌∷◌, arith, ltb, if◌then◌else◌, Bool-cases, add32, mul32, sub32, length, get_elem?, set,
}
use mathlib.Core.Option.{some-injective}
use universal_multi_segmente.Handshake.{
  HandshakeState, pending, acked, nacked, timeout, retry, FeedbackType, ack, nack, busy, overflow,
  ready, HandshakeEntry, HandshakeManager, with_entry, give_up, schedule, answer,
}

-- An entry counts while an answer can still come: it is pending or scheduled for a retry.
abbrev pub weight : HandshakeState → ℕ
weight pending = 1
weight retry = 1
weight _ = 0

-- The entries that count, among the first `n`.
unfoldable pub waiting : List HandshakeEntry → ℕ → ℕ
waiting [] n = 0
waiting (e ∷ es) zero = 0
waiting (e ∷ es) (suc n) = weight e.state + waiting es n

pub waiting-set :
    (es : List HandshakeEntry) (n i : ℕ) (e f : HandshakeEntry)
    → i < n
    → get_elem? es i ≡ some e
    → waiting (set es i f) n + weight e.state ≡ waiting es n + weight f.state
unfolding waiting
waiting-set [] n i e f h g = cc
waiting-set (x ∷ es) zero i e f h g = absurd (omega arith)
waiting-set (x ∷ es) (suc n) zero e f h g =
    subst
      (λ y.
        weight f.state + waiting es n + weight y.state
        ≡ weight x.state + waiting es n + weight f.state)
      (some-injective x e g) (omega arith)
waiting-set (x ∷ es) (suc n) (suc i) e f h g = omega (arith, waiting-set es n i e f (omega arith) g)

waiting-snoc :
    (es : List HandshakeEntry) (n : ℕ) (f : HandshakeEntry)
    → n < length es
    → waiting (set es n f) (suc n) ≡ waiting es n + weight f.state
unfolding waiting
waiting-snoc [] n f h = absurd (omega arith)
waiting-snoc (x ∷ []) zero f h = omega arith
waiting-snoc (x ∷ y ∷ es) zero f h = omega arith
waiting-snoc (x ∷ es) (suc n) f h = omega (arith, waiting-snoc es n f (omega arith))

pub waiting-sent :
    (es : List HandshakeEntry) (n : ℕ) (f : HandshakeEntry)
    → n < length es
    → waiting (set es n f) (n + 1) ≡ waiting es n + weight f.state
waiting-sent es n f h =
    subst (λ k. waiting (set es n f) k ≡ waiting es n + weight f.state) {x = suc n} (omega arith)
      (waiting-snoc es n f h)

pub waiting_none : (es : List HandshakeEntry) → waiting es 0 ≡ 0
unfolding waiting
waiting_none [] = refl
waiting_none (e ∷ es) = refl

weight_small : (s : HandshakeState) → weight s ≤ 1
weight_small pending = omega arith
weight_small acked = omega arith
weight_small nacked = omega arith
weight_small timeout = omega arith
weight_small retry = omega arith

pub waiting_small : (es : List HandshakeEntry) (n : ℕ) → waiting es n ≤ n
unfolding waiting
waiting_small [] n = omega arith
waiting_small (e ∷ es) zero = omega arith
waiting_small (e ∷ es) (suc n) = omega (arith, weight_small e.state, waiting_small es n)

-- The numbers in use are below the capacity, and what the manager counts as pending is what waits.
pub record IsBalanced (m : HandshakeManager) : Type 0 where
  pub balance : m.pending_count ≡ waiting m.entries m.head
  pub room : m.head < m.capacity
  pub narrow : m.capacity < 2 ^ 32

-- `n` is balanced, and hands out the same number next as `m`.
pub record IsKept (m n : HandshakeManager) : Type 0 where
  pub balanced : IsBalanced n
  pub head_same : n.head ≡ m.head

-- The entry at `i` is one that counts.
module _ {m : HandshakeManager} (b : IsBalanced m) (i : ℕ) (e0 e : HandshakeEntry) (l : i < m.head)
    (g : get_elem? m.entries i ≡ some e0) (w : weight e0.state ≡ 1) where
  pub with_entry-IsKept : weight e.state ≡ 1 → IsKept m (with_entry m i e)
  with_entry-IsKept k = record {
    balanced = record {
      balance = omega (arith, b.balance, waiting-set m.entries m.head i e0 e l g, w, k);
      room = b.room;
      narrow = b.narrow;
    };
    head_same = refl;
  }

  schedule-IsKept : (ms : ℕ) → IsKept m (schedule m i e ms)
  unfolding schedule
  schedule-IsKept ms = record {
    balanced = record {
      balance = omega (arith, b.balance, waiting-set m.entries m.head i e0 _ l g, w);
      room = b.room;
      narrow = b.narrow;
    };
    head_same = refl;
  }

  -- One that no longer counts is taken off.
  closed :
      (f : HandshakeEntry)
      → weight f.state ≡ 0
      → sub32 m.pending_count 1 ≡ waiting (set m.entries i f) m.head
  closed f z = omega (
    arith,
    b.balance,
    waiting-set m.entries m.head i e0 f l g,
    w,
    z,
    waiting_small m.entries m.head,
    b.room,
    b.narrow,
  )

  give_up-IsKept : (s : HandshakeState) → weight s ≡ 0 → IsKept m (give_up m i e s)
  unfolding give_up
  give_up-IsKept s z = record {
    balanced = record {
      balance = closed (record e { state = s }) z;
      room = b.room;
      narrow = b.narrow;
    };
    head_same = refl;
  }

  pub retried_if-IsKept :
      (z : Bool) (ms : ℕ) (s : HandshakeState)
      → weight s ≡ 0
      → IsKept m
          (if z && ltb e.retry_count m.max_retries then schedule m i e ms else give_up m i e s)
  retried_if-IsKept false ms s k = give_up-IsKept s k
  retried_if-IsKept true ms s k = elim (Bool-cases (ltb e.retry_count m.max_retries)) [
    | inl f ↦ rw f (schedule-IsKept ms)
    | inr f ↦ rw f (give_up-IsKept s k)
  ]

  pub answer-IsKept : (t : FeedbackType) → weight e.state ≡ 1 → IsKept m (answer m i e t)
  unfolding answer
  answer-IsKept ack k = record {
    balanced = record {
      balance = closed (record e { state = acked }) refl;
      room = b.room;
      narrow = b.narrow;
    };
    head_same = refl;
  }
  answer-IsKept nack k = retried_if-IsKept m.zero_loss_mode e.timeout_ms nacked refl
  answer-IsKept busy k = retried_if-IsKept true (add32 e.timeout_ms m.retry_backoff_ms) nacked refl
  answer-IsKept overflow k = retried_if-IsKept true (mul32 e.timeout_ms 2) nacked refl
  answer-IsKept ready k = with_entry-IsKept k
