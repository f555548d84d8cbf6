-- ===== src/Bindings/Delivery.antt =====
-- Data through the direct bindings of src/language_bindings.c: `umsbb_submit_direct` and then
-- `umsbb_drain_direct`.
use universal_multi_segmente.Prelude.{
  ℕ, zero, suc, ◌+◌, ◌%◌, ◌<◌, ◌≡◌, refl, ap, ◌∙◌, subst, sym, Bool, true, false, Option, some,
  List, length, arith,
}
use universal_multi_segmente.Capsule.{Memory}
use universal_multi_segmente.Standalone.Bytes.{load, store, load-store_self}
use universal_multi_segmente.BiBuffer.{BiBuffer}
use universal_multi_segmente.Gpu.{GpuDriver}
use universal_multi_segmente.Bus.{Bus}
use universal_multi_segmente.Bus.Submit.{umsbb_submit_to}
use universal_multi_segmente.Bus.Drain.{Drained, bytes_at, umsbb_drain_from}
use universal_multi_segmente.Bus.Delivery.{IsDrainedWithRoom, submit-drain, segment_count-submit}
use universal_multi_segmente.Bindings.{
  UniversalData, Bindings, allocate, get_language_runtime, create_universal_data, filled,
}
use universal_multi_segmente.Bindings.Direct.{
  tried_gpu, submitted, submit_direct, Received, wrapped, drain_round, drain_rounds, drain_direct,
}

length-bytes_at : (m : Memory) (p n : ℕ) → length (bytes_at m p n) ≡ n
unfolding bytes_at
length-bytes_at m p zero = refl
length-bytes_at m p (suc n) = ap suc (length-bytes_at m (p + 1) n)

-- What a submission on the bus answers is what the direct one answers.
submit_direct-answer :
    (d : GpuDriver) (m : Memory) (now : ℕ) (s : Bindings) (bus : Bus) (x : UniversalData)
    → let sent = umsbb_submit_to d m now bus (x.type_id % bus.segment_count) x.data_ptr x.size in
      ((submit_direct d m now s bus x).0 ≡ sent.0) × ((submit_direct d m now s bus x).2 ≡ sent.1)
unfolding submit_direct submitted
submit_direct-answer d m now s bus x =
    answered (tried_gpu d s x.size)
      (umsbb_submit_to d m now bus (x.type_id % bus.segment_count) x.data_ptr x.size)
  where
    answered :
        (s : Bindings) (sent : Bool × Bus)
        → ((submitted d now s sent).0 ≡ sent.0) × ((submitted d now s sent).2 ≡ sent.1)
    answered s (true, bus) = (refl, refl)
    answered s (false, bus) = (refl, refl)

drain_round-some :
    (m : Memory) (allocated : Bool) (block : Option ℕ) (s : Bindings) (i lang : ℕ)
    (answer : Drained) (rest : Received) (bytes : List ℕ) (size : ℕ)
    → answer.0 ≡ some bytes
    → answer.1 ≡ size
    → 0 < size
    → drain_round m allocated block s i lang answer rest
      ≡ wrapped s answer.2 (create_universal_data s m allocated block bytes i lang)
unfolding drain_round
drain_round-some m allocated block s i lang (o, n, bus) rest bytes zero e f h = absurd (omega arith)
drain_round-some m allocated block s i lang (o, n, bus) rest bytes (suc size) e f h = rw (e, f) refl

-- A drain whose first round finds a message.
drain_direct-first :
    (d : GpuDriver) (m : Memory) (block : Option ℕ) (now : ℕ) (s : Bindings) (bus : Bus) (lang : ℕ)
    (bytes : List ℕ) (size : ℕ)
    → 0 < bus.segment_count
    → (umsbb_drain_from d m true now bus 0).0 ≡ some bytes
    → (umsbb_drain_from d m true now bus 0).1 ≡ size
    → 0 < size
    → drain_direct d m true true block now s bus lang
      ≡ wrapped s
          (umsbb_drain_from d m true now bus 0).2
          (create_universal_data s m true block bytes 0 lang)
unfolding drain_direct drain_rounds
drain_direct-first d m block now s bus lang bytes size some_lane e f h =
    first bus.segment_count some_lane
  where
    first :
        (n : ℕ)
        → 0 < n
        → drain_rounds d m true true block now s lang n 0 bus
          ≡ wrapped s
              (umsbb_drain_from d m true now bus 0).2
              (create_universal_data s m true block bytes 0 lang)
    first zero k = absurd (omega arith)
    first (suc n) k =
        drain_round-some m true block s 0 lang (umsbb_drain_from d m true now bus 0) _ bytes size e
          f h

create-given :
    (s : Bindings) (m : Memory) (block : Option ℕ) (bytes : List ℕ) (type_id lang p : ℕ)
    → allocate (get_language_runtime s lang) (length bytes) block ≡ some p
    → create_universal_data s m true block bytes type_id lang ≡ (
      some (record { data_ptr = p; size = length bytes; type_id = type_id; source_lang = lang }),
      store m p bytes,
    )
unfolding create_universal_data filled
create-given s m block bytes type_id lang p e = rw e refl

-- On a well-formed bus without an accelerator, whose first lane is drained, so that no older message
-- waits there, and has room in its buffer and in the arena, data of at least one byte whose type
-- number is a multiple of the number of segments is accepted. A drain then gives data of the target's
-- language with the same bytes, if they are unchanged in memory until then and blocks are given, but
-- with the type number 0.
pub submit-drain_direct :
    (d : GpuDriver) (m m' : Memory) (now later : ℕ) (s t : Bindings) {bus : Bus} {b : BiBuffer}
    (x : UniversalData) (lang p : ℕ) (block : Option ℕ)
    → IsDrainedWithRoom bus 0 b
    → 0 < bus.segment_count
    → x.type_id % bus.segment_count ≡ 0
    → 0 < x.size
    → ((j : ℕ) → j < x.size → m' (x.data_ptr + j) % 256 ≡ m (x.data_ptr + j) % 256)
    → allocate (get_language_runtime t lang) x.size block ≡ some p
    → let (accepted, s', bus') = submit_direct d m now s bus x in
      let (received, m'', t', bus'') = drain_direct d m' true true block later t bus' lang in
      (accepted ≡ true)
      × (received ≡ some (record { data_ptr = p; size = x.size; type_id = 0; source_lang = lang }))
      × (load m'' p x.size ≡ bytes_at m x.data_ptr x.size)
unfolding wrapped
submit-drain_direct d m m' now later s t {bus} {b} x lang p block h some_lane first some_bytes same
      given =
    let sent : ℕ → Bool × Bus = λ k. umsbb_submit_to d m now bus k x.data_ptr x.size in
    let v = submit-drain d m m' now later x.data_ptr x.size h same in
    let answer = submit_direct-answer d m now s bus x in
    let left : (submit_direct d m now s bus x).2 ≡ (sent 0).1 =
      answer.1 ∙ ap (λ k. (sent k).1) first in
    let n = length-bytes_at m x.data_ptr x.size in
    let drained =
      drain_direct-first d m' block later t (sent 0).1 lang (bytes_at m x.data_ptr x.size) x.size
        (subst (λ k. 0 < k) (sym (segment_count-submit d m now h x.data_ptr x.size)) some_lane)
        (v.1) (v.2) some_bytes
      ∙ ap (wrapped t (umsbb_drain_from d m' true later (sent 0).1 0).2)
          (create-given t m' block (bytes_at m x.data_ptr x.size) 0 lang p (rw n given)) in
    rw left (
      rw drained (
        answer.0 ∙ ap (λ k. (sent k).0) first ∙ v.0,
        ap (λ k. some (record { data_ptr = p; size = k; type_id = 0; source_lang = lang })) n,
        subst
            (λ k.
              load (store m' p (bytes_at m x.data_ptr x.size)) p k ≡ bytes_at m x.data_ptr x.size)
            n (load-store_self m' p (bytes_at m x.data_ptr x.size)),
      ))
