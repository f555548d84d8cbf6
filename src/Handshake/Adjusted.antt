-- ===== src/Handshake/Adjusted.antt =====
-- What the handling of one entry in src/feedback_handshake.c leaves as it is.
use universal_multi_segmente.Prelude.{
  ℕ, ◌-◌, ◌^◌, ◌≤◌, ◌<◌, ◌≡◌, refl, sym, ◌∙◌, subst, inl, inr, Bool, true, false, ◌&&◌, arith, ltb,
  ltb→lt, if◌then◌else◌, Bool-cases, add32, mul32, length, length-set, All, All-set,
}
use universal_multi_segmente.Handshake.{
  HandshakeState, nacked, FeedbackType, ack, nack, busy, overflow, ready, HandshakeEntry,
  HandshakeManager, with_entry, give_up, schedule, answer,
}

-- What a call may change of a manager, apart from sends: the entries, within the bound on the
-- retries, and the counters.
pub record IsAdjusted (m n : HandshakeManager) : Type 0 where
  pub length_same : length n.entries ≡ length m.entries
  pub capacity_same : n.capacity ≡ m.capacity
  pub head_same : n.head ≡ m.head
  pub tail_same : n.tail ≡ m.tail
  pub limit_same : n.max_retries ≡ m.max_retries
  pub bounded :
      m.max_retries < 2 ^ 32 - 1
      → All (λ e. e.retry_count ≤ m.max_retries) m.entries
      → All (λ e. e.retry_count ≤ m.max_retries) n.entries

pub IsAdjusted-refl : (m : HandshakeManager) → IsAdjusted m m
IsAdjusted-refl m = record {
  length_same = refl;
  capacity_same = refl;
  head_same = refl;
  tail_same = refl;
  limit_same = refl;
  bounded = λ f b. b;
}

pub IsAdjusted-trans : {m n o : HandshakeManager} → IsAdjusted m n → IsAdjusted n o → IsAdjusted m o
IsAdjusted-trans {m} {n} {o} a b = record {
  length_same = b.length_same ∙ a.length_same;
  capacity_same = b.capacity_same ∙ a.capacity_same;
  head_same = b.head_same ∙ a.head_same;
  tail_same = b.tail_same ∙ a.tail_same;
  limit_same = b.limit_same ∙ a.limit_same;
  bounded = λ f k.
      subst (λ l. All (λ e. e.retry_count ≤ l) o.entries) a.limit_same
        (b.bounded (subst (λ l. l < 2 ^ 32 - 1) (sym a.limit_same) f)
          (subst (λ l. All (λ e. e.retry_count ≤ l) n.entries) (sym a.limit_same) (a.bounded f k)));
}

-- The retries of the entries stay within the limit, and so do those of `e`.
abbrev pub Within : HandshakeManager → HandshakeEntry → Type 0
Within m e = All (λ x. x.retry_count ≤ m.max_retries) m.entries → e.retry_count ≤ m.max_retries

module _ (m : HandshakeManager) (i : ℕ) (e : HandshakeEntry) where
  pub with_entry-IsAdjusted : Within m e → IsAdjusted m (with_entry m i e)
  with_entry-IsAdjusted h = record {
    length_same = length-set m.entries i e;
    capacity_same = refl;
    head_same = refl;
    tail_same = refl;
    limit_same = refl;
    bounded = λ f b. All-set (λ x. x.retry_count ≤ m.max_retries) m.entries i e b (h b);
  }

  schedule-IsAdjusted :
      (ms : ℕ) → ltb e.retry_count m.max_retries ≡ true → IsAdjusted m (schedule m i e ms)
  unfolding schedule
  schedule-IsAdjusted ms h = record {
    length_same = length-set m.entries i _;
    capacity_same = refl;
    head_same = refl;
    tail_same = refl;
    limit_same = refl;
    bounded = λ f b.
        All-set (λ x. x.retry_count ≤ m.max_retries) m.entries i _ b
          (omega (arith, f, ltb→lt e.retry_count m.max_retries h));
  }

  give_up-IsAdjusted : (s : HandshakeState) → Within m e → IsAdjusted m (give_up m i e s)
  unfolding give_up
  give_up-IsAdjusted s h = record {
    length_same = length-set m.entries i _;
    capacity_same = refl;
    head_same = refl;
    tail_same = refl;
    limit_same = refl;
    bounded = λ f b. All-set (λ x. x.retry_count ≤ m.max_retries) m.entries i _ b (h b);
  }

  -- A retry if one is left, or the end of the entry.
  retried-IsAdjusted :
      (ms : ℕ) (s : HandshakeState)
      → Within m e
      → IsAdjusted m
          (if ltb e.retry_count m.max_retries then schedule m i e ms else give_up m i e s)
  retried-IsAdjusted ms s h = elim (Bool-cases (ltb e.retry_count m.max_retries)) [
    | inl f ↦ rw f (schedule-IsAdjusted ms f)
    | inr f ↦ rw f (give_up-IsAdjusted s h)
  ]

  pub retried_if-IsAdjusted :
      (z : Bool) (ms : ℕ) (s : HandshakeState)
      → Within m e
      → IsAdjusted m
          (if z && ltb e.retry_count m.max_retries then schedule m i e ms else give_up m i e s)
  retried_if-IsAdjusted true ms s h = retried-IsAdjusted ms s h
  retried_if-IsAdjusted false ms s h = give_up-IsAdjusted s h

  pub answer-IsAdjusted : (t : FeedbackType) → Within m e → IsAdjusted m (answer m i e t)
  unfolding answer
  answer-IsAdjusted ack h = record {
    length_same = length-set m.entries i _;
    capacity_same = refl;
    head_same = refl;
    tail_same = refl;
    limit_same = refl;
    bounded = λ f b. All-set (λ x. x.retry_count ≤ m.max_retries) m.entries i _ b (h b);
  }
  answer-IsAdjusted nack h = retried_if-IsAdjusted m.zero_loss_mode e.timeout_ms nacked h
  answer-IsAdjusted busy h = retried-IsAdjusted (add32 e.timeout_ms m.retry_backoff_ms) nacked h
  answer-IsAdjusted overflow h = retried-IsAdjusted (mul32 e.timeout_ms 2) nacked h
  answer-IsAdjusted ready h = with_entry-IsAdjusted h
