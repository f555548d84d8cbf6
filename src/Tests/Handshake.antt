-- ===== src/Tests/Handshake.antt =====
-- The theorems on the feedback handshake at a manager with four places.
use universal_multi_segmente.Prelude.{
  ◌+◌, ◌<◌, ◌≡◌, refl, true, false, some, List, [], ◌∷◌, arith, get_elem?,
}
use universal_multi_segmente.Handshake.{
  pending, retry, ack, HandshakeEntry, HandshakeManager, handshake_init, process_timeouts,
  is_overdue, timeouts_from, expire, schedule,
}
use universal_multi_segmente.Handshake.Lifetime.{
  IsHandshake, init-IsHandshake, Call, send, answered, timed, retried, run, all_taken, run_lifetime,
  step,
}
use universal_multi_segmente.Handshake.Balance.{waiting}
use universal_multi_segmente.Handshake.Accounting.{Reach, Reach-balance}
use universal_multi_segmente.Handshake.Deadlines.{process_timeouts-InTime}

abbrev calls : List Call
calls =
    send 1000 1 2 (5 ∷ 6 ∷ [])
    ∷ timed 5000000
    ∷ retried 5000001
    ∷ answered 5000002 (record { sequence = 0; type = ack; producer_id = 1; consumer_id = 2 })
    ∷ send 5000003 1 2 (7 ∷ [])
    ∷ []

run_lifetime_example :
    IsHandshake (run (handshake_init 4) calls)
    × ((run (handshake_init 4) calls).head ≡ 0 + all_taken (handshake_init 4) calls)
    × (0 + all_taken (handshake_init 4) calls < 4)
unfolding handshake_init
run_lifetime_example =
    run_lifetime (handshake_init 4) calls (init-IsHandshake 4 (omega arith) (omega arith))

abbrev sent_once : HandshakeManager
sent_once = step (handshake_init 4) (send 1000 1 2 (5 ∷ 6 ∷ []))

Reach-balance_example :
    (step sent_once (timed 5000000)).pending_count
    ≡ waiting (step sent_once (timed 5000000)).entries (step sent_once (timed 5000000)).head
Reach-balance_example =
    Reach-balance 4 (omega arith) (omega arith)
      (Reach.next (Reach.next Reach.here (send 1000 1 2 (5 ∷ 6 ∷ [])) tt) (timed 5000000) tt)

abbrev entry : HandshakeEntry
entry = record {
  sequence = 0;
  producer_id = 1;
  consumer_id = 2;
  timestamp_us = 1000;
  retry_count = 0;
  state = pending;
  message_size = 2;
  message_hash = 77;
  sent_timestamp_us = 1000;
  ack_timestamp_us = 0;
  timeout_ms = 1000;
}

abbrev manager : HandshakeManager
manager = record {
  entries = entry ∷ entry ∷ [];
  capacity = 2;
  head = 1;
  tail = 0;
  pending_count = 1;
  default_timeout_ms = 1000;
  max_retries = 3;
  retry_backoff_ms = 100;
  zero_loss_mode = true;
  total_messages = 1;
  successful_acks = 0;
  failed_deliveries = 0;
  timeouts = 0;
  retries = 0;
}

manager-IsHandshake : IsHandshake manager
manager-IsHandshake = record {
  size = refl;
  narrow = omega arith;
  start = refl;
  room = omega arith;
  few = omega arith;
  bounded = (omega arith, (omega arith, tt));
}

abbrev retried_entry : HandshakeEntry
retried_entry = record entry { state = retry; retry_count = 1; timeout_ms = 2000 }

timed_out : get_elem? (process_timeouts manager 5000000).entries 0 ≡ some retried_entry
unfolding process_timeouts timeouts_from expire schedule
timed_out = refl

process_timeouts-InTime_example : is_overdue 5000000 retried_entry ≡ false
process_timeouts-InTime_example =
    process_timeouts-InTime manager 5000000 0 retried_entry manager-IsHandshake (omega arith)
      timed_out
