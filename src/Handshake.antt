-- ===== src/Handshake.antt =====
-- src/feedback_handshake.c and include/feedback_handshake.h: messages that wait for an
-- acknowledgement, with timeouts and retries. The clock is read once for each call, as the argument
-- `now`. The average latency, a double that nothing else depends on, has no field.
pub mod Adjusted
pub mod Calls
pub mod Lifetime
pub mod Balance
pub mod Kept
pub mod Accounting
pub mod Duplicates
pub mod Deadlines
use Prim.Native.Nat.{bit_xor}
use universal_multi_segmente.Prelude.{
  ℕ, zero, suc, ◌+◌, ◌-◌, ◌/◌, ◌%◌, Bool, true, false, ◌&&◌, Option, none, some, List, [], ◌∷◌, ltb,
  leb, ◌==◌, if◌then◌else◌, add_size, sub_size, add32, sub32, mul32, length, get_elem?, set,
  replicate,
}

pub data HandshakeState : Type 0 where
  pending acked nacked timeout retry : HandshakeState

pub data FeedbackType : Type 0 where
  ack nack busy overflow ready : FeedbackType

-- The field `type`, which nothing reads or writes, is left out.
pub record HandshakeEntry : Type 0 where
  pub sequence : ℕ
  pub producer_id : ℕ
  pub consumer_id : ℕ
  pub timestamp_us : ℕ
  pub retry_count : ℕ
  pub state : HandshakeState
  pub message_size : ℕ
  pub message_hash : ℕ
  pub sent_timestamp_us : ℕ
  pub ack_timestamp_us : ℕ
  pub timeout_ms : ℕ

pub record HandshakeManager : Type 0 where
  pub entries : List HandshakeEntry
  pub capacity : ℕ
  pub head : ℕ
  pub tail : ℕ
  pub pending_count : ℕ
  pub default_timeout_ms : ℕ
  pub max_retries : ℕ
  pub retry_backoff_ms : ℕ
  pub zero_loss_mode : Bool
  pub total_messages : ℕ
  pub successful_acks : ℕ
  pub failed_deliveries : ℕ
  pub timeouts : ℕ
  pub retries : ℕ

-- The fields that the processing of a message looks at.
pub record FeedbackMessage : Type 0 where
  pub sequence : ℕ
  pub type : FeedbackType
  pub producer_id : ℕ
  pub consumer_id : ℕ

-- The loop of `calculate_hash`, with `hash`.
pub hash_loop : ℕ → List ℕ → ℕ
hash_loop hash [] = hash
hash_loop hash (b ∷ bs) = hash_loop (mul32 (bit_xor hash b) 16777619) bs

unfoldable pub calculate_hash : List ℕ → ℕ
calculate_hash bytes = hash_loop 2166136261 bytes

-- An entry as `calloc` leaves it.
abbrev pub blank : HandshakeEntry
blank = record {
  sequence = 0;
  producer_id = 0;
  consumer_id = 0;
  timestamp_us = 0;
  retry_count = 0;
  state = pending;
  message_size = 0;
  message_hash = 0;
  sent_timestamp_us = 0;
  ack_timestamp_us = 0;
  timeout_ms = 0;
}

-- `handshake_init` where the allocation succeeds; the code refuses the capacity 0.
unfoldable pub handshake_init : ℕ → HandshakeManager
handshake_init capacity = record {
  entries = replicate capacity blank;
  capacity = capacity;
  head = 0;
  tail = 0;
  pending_count = 0;
  default_timeout_ms = 1000;
  max_retries = 3;
  retry_backoff_ms = 100;
  zero_loss_mode = true;
  total_messages = 0;
  successful_acks = 0;
  failed_deliveries = 0;
  timeouts = 0;
  retries = 0;
}

unfoldable pub new_entry : HandshakeManager → ℕ → ℕ → ℕ → List ℕ → HandshakeEntry
new_entry m now producer consumer bytes = record {
  sequence = m.head;
  producer_id = producer;
  consumer_id = consumer;
  timestamp_us = now;
  retry_count = 0;
  state = pending;
  message_size = length bytes;
  message_hash = calculate_hash bytes;
  sent_timestamp_us = now;
  ack_timestamp_us = 0;
  timeout_ms = m.default_timeout_ms;
}

-- The result is the sequence number, or 0. The bytes and their number come as one list.
unfoldable pub send_message : HandshakeManager → ℕ → ℕ → ℕ → List ℕ → ℕ × HandshakeManager
send_message m now producer consumer bytes =
    if length bytes == 0
    then (0, m)
    else if add32 m.head 1 % m.capacity == m.tail
    then (0, m)
    else (
      m.head,
      record m {
        entries = set m.entries (m.head % m.capacity) (new_entry m now producer consumer bytes);
        head = add32 m.head 1;
        pending_count = add32 m.pending_count 1;
        total_messages = add_size m.total_messages 1;
      },
    )

abbrev pub with_entry : HandshakeManager → ℕ → HandshakeEntry → HandshakeManager
with_entry m i e = record m { entries = set m.entries i e }

-- The entry is given up: it gets the state, and is no longer counted as pending.
unfoldable pub give_up : HandshakeManager → ℕ → HandshakeEntry → HandshakeState → HandshakeManager
give_up m i e state = record (with_entry m i (record e { state = state })) {
  failed_deliveries = add_size m.failed_deliveries 1;
  pending_count = sub32 m.pending_count 1;
}

-- The entry is scheduled for a retry, with a new timeout.
unfoldable pub schedule : HandshakeManager → ℕ → HandshakeEntry → ℕ → HandshakeManager
schedule m i e timeout_ms =
    record (with_entry m i
      (record e { state = retry; retry_count = add32 e.retry_count 1; timeout_ms = timeout_ms })) {
        retries = add_size m.retries 1;
      }

-- The cases of `handshake_process_feedback`; `e` has its time of acknowledgement.
unfoldable pub answer : HandshakeManager → ℕ → HandshakeEntry → FeedbackType → HandshakeManager
answer m i e ack = record (with_entry m i (record e { state = acked })) {
  successful_acks = add_size m.successful_acks 1;
  pending_count = sub32 m.pending_count 1;
}
answer m i e nack =
    if m.zero_loss_mode && ltb e.retry_count m.max_retries
    then schedule m i e e.timeout_ms
    else give_up m i e nacked
answer m i e busy =
    if ltb e.retry_count m.max_retries
    then schedule m i e (add32 e.timeout_ms m.retry_backoff_ms)
    else give_up m i e nacked
answer m i e overflow =
    if ltb e.retry_count m.max_retries
    then schedule m i e (mul32 e.timeout_ms 2)
    else give_up m i e nacked
answer m i e ready = with_entry m i e

abbrev pub is_addressed : HandshakeEntry → FeedbackMessage → Bool
is_addressed e f =
    e.sequence == f.sequence && e.producer_id == f.producer_id && e.consumer_id == f.consumer_id

unfoldable pub process_entry :
    HandshakeManager → ℕ → ℕ → FeedbackMessage → Option HandshakeEntry → Bool × HandshakeManager
process_entry m now i f none = (false, m)
process_entry m now i f (some e) =
    if is_addressed e f
    then (true, answer m i (record e { ack_timestamp_us = now }) f.type)
    else (false, m)

unfoldable pub process_feedback : HandshakeManager → ℕ → FeedbackMessage → Bool × HandshakeManager
process_feedback m now f =
    let i = f.sequence % m.capacity in process_entry m now i f (get_elem? m.entries i)

abbrev pub is_pending : HandshakeState → Bool
is_pending pending = true
is_pending _ = false

abbrev pub is_retry : HandshakeState → Bool
is_retry retry = true
is_retry _ = false

-- The product of the timeout and 1000 has 32 bits.
abbrev pub is_overdue : ℕ → HandshakeEntry → Bool
is_overdue now e =
    is_pending e.state && ltb (mul32 e.timeout_ms 1000) (sub_size now e.sent_timestamp_us)

-- The body of the loop of `handshake_process_timeouts`.
unfoldable pub expire : ℕ → HandshakeManager → ℕ → Option HandshakeEntry → HandshakeManager
expire now m i none = m
expire now m i (some e) =
    if is_overdue now e
    then (let m' = record m { timeouts = add_size m.timeouts 1 } in
        if m.zero_loss_mode && ltb e.retry_count m.max_retries
        then schedule m' i e (mul32 e.timeout_ms 2)
        else give_up m' i e timeout)
    else m

-- The loop, with the rounds that are left and `i`.
unfoldable pub timeouts_from : ℕ → HandshakeManager → ℕ → ℕ → HandshakeManager
timeouts_from now m zero i = m
timeouts_from now m (suc n) i =
    let index = i % m.capacity in
    timeouts_from now (expire now m index (get_elem? m.entries index)) n (i + 1)

unfoldable pub process_timeouts : HandshakeManager → ℕ → HandshakeManager
process_timeouts m now = timeouts_from now m (m.head - m.tail) m.tail

abbrev pub retry_entry : ℕ → HandshakeEntry → HandshakeEntry
retry_entry now e = record e { state = pending; sent_timestamp_us = now; ack_timestamp_us = 0 }

abbrev pub wants_retry : Option HandshakeEntry → Bool
wants_retry none = false
wants_retry (some e) = is_retry e.state

unfoldable pub reset : ℕ → HandshakeManager → ℕ → Option HandshakeEntry → HandshakeManager
reset now m i none = m
reset now m i (some e) = with_entry m i (retry_entry now e)

-- The loop of `handshake_retry_failed_messages`, with the rounds that are left, `i` and
-- `retries_processed`.
unfoldable pub retry_from : ℕ → HandshakeManager → ℕ → ℕ → ℕ → ℕ × HandshakeManager
retry_from now m zero i processed = (processed, m)
retry_from now m (suc n) i processed =
    let index = i % m.capacity in
    let o = get_elem? m.entries index in
    let m' = reset now m index o in
    let further = retry_from now m' n (i + 1) (processed + 1) in
    let skip = retry_from now m n (i + 1) processed in
    if wants_retry o
    then (if leb 10 (processed + 1) then (processed + 1, m') else further)
    else skip

unfoldable pub retry_failed_messages : HandshakeManager → ℕ → Bool × HandshakeManager
retry_failed_messages m now =
    let (processed, m') = retry_from now m (m.head - m.tail) m.tail 0 in (ltb 0 processed, m')

unfoldable pub can_send_more : HandshakeManager → ℕ → Bool
can_send_more m producer = ltb m.pending_count (m.capacity / 4)

unfoldable pub get_pending_count : HandshakeManager → ℕ → ℕ
get_pending_count m producer = m.pending_count
