-- ===== src/Messenger/Order.antt =====
-- Ordered delivery: what holds of two connections at every time.
use kmod_ceph.Base.{
  ℕ, suc, ◌+◌, ◌≤◌, ◌<◌, ◌≡◌, refl, sym, subst, ap, ◌∙◌, ◌⊎◌, inl, inr, Bool, true, false, some,
  List, [], ◌∷◌, ◌++◌, arith, ltb, Bool-cases, length, get_elem?, take, All, length-append, u64,
}
use kmod_ceph.Base.Int.{◌-ℤ◌}
use kmod_ceph.Crush.Outcome.{ok}
use kmod_ceph.Messenger.{
  Con, Msg, Written, keepalive, nothing, old, next, is_open, no_messages, number_msg, moved,
  move_msg, prepare_write_message, prepare_write_ack, do_next, check_seq,
}
use kmod_ceph.Messenger.Link.{Link, messages_of, acks_of}
use kmod_ceph.Messenger.Queues.{IsNumbered, Numbered, Fresh, Numbered-append, kept}

-- The sender keeps the messages from `acked` on: those sent, those to be sent again (`again`) and
-- those without a number (`unsent`).
pub record KeepsOf (sent : List ℕ) (lossytx : Bool) (out_queue out_sent : List Msg) (out_seq : ℕ)
    : Type 0 where
  pub acked : ℕ
  pub again : List Msg
  pub unsent : List Msg
  pub lossless : lossytx ≡ false
  pub queue : out_queue ≡ again ++ unsent
  pub sent_numbered : Numbered sent acked out_sent
  pub again_numbered : Numbered sent (acked + length out_sent) again
  pub unsent_fresh : Fresh sent out_seq unsent
  pub again_end : acked + length out_sent + length again ≡ out_seq
  pub unsent_end : out_seq + length unsent ≡ length sent

abbrev pub Keeps : List ℕ → Con → Type 0
Keeps sent con = KeepsOf sent con.lossytx con.out_queue con.out_sent con.out_seq

-- The receiver counts the first messages and has dispatched them in order, but for those that their
-- allocation skipped; the wire has the next ones but for some that it knows already, and no ack says
-- more than it counts.
pub record IsOrdered (s : Link) : Type 0 where
  pub keeps : Keeps s.sent s.sender
  pub at : ℕ
  pub wire_numbered : Numbered s.sent at s.wire
  pub wire_end : at + length s.wire ≡ keeps.acked + length s.sender.out_sent
  pub no_gap : at ≤ s.receiver.in_seq
  pub acked_le : keeps.acked ≤ s.receiver.in_seq
  pub acks_le : All (λ n. n ≤ s.receiver.in_seq) s.acks
  pub counted : length s.fates ≡ s.receiver.in_seq
  pub dispatched : s.delivered ≡ kept s.fates (take s.receiver.in_seq s.sent)
  pub dispatched_le : s.receiver.in_seq ≤ s.sender.out_seq

-- The numbers stay below the sign bit of `s64`.
abbrev pub IsShort : Link → Type 0
IsShort s = length s.sent < 0x8000000000000000

pub check_seq-old :
    (in_seq seq : ℕ) → in_seq < 0x8000000000000000 → seq ≤ in_seq → check_seq in_seq seq ≡ old
unfolding check_seq ◌-ℤ◌
check_seq-old in_seq seq h le = ground arith

pub check_seq-next :
    (in_seq : ℕ) → in_seq + 1 < 0x8000000000000000 → check_seq in_seq (in_seq + 1) ≡ next
unfolding check_seq ◌-ℤ◌
check_seq-next in_seq h = ground arith

-- `do_next` gives the connection and what is written: the messages that follow those sent.
abbrev pub Writes : (sent : List ℕ) (con : Con) → Keeps sent con → Con × Written → Type 0
Writes sent con h q =
    (h' : Keeps sent q.0) × (h'.acked ≡ h.acked)
    × Numbered sent (h.acked + length con.out_sent) (messages_of q.1)
    × (length q.0.out_sent ≡ length con.out_sent + length (messages_of q.1))
    × (con.out_seq ≤ q.0.out_seq)

move_again :
    (sent : List ℕ) (con : Con) (h : Keeps sent con) (m : Msg) (queue again unsent : List Msg)
    → con.out_queue ≡ m ∷ queue
    → h.again ≡ again
    → h.unsent ≡ unsent
    → length sent < 0x8000000000000000
    → (q : Con × Written) × (move_msg con (m ∷ queue) ≡ ok q) × Writes sent con h q
unfolding move_msg number_msg
move_again sent con h m queue [] [] e ea eu short =
    let no : m ∷ queue ≡ [] = sym e ∙ h.queue ∙ ap (λ (t : List Msg). t ++ h.unsent) ea ∙ eu in
    absurd (cc)
move_again sent con h m queue [] (x ∷ unsent) e ea eu short =
    let same : m ∷ queue ≡ x ∷ unsent =
      sym e ∙ h.queue ∙ ap (λ (t : List Msg). t ++ h.unsent) ea ∙ eu in
    let first : m ≡ x = cc in
    let left : queue ≡ unsent = cc in
    let fresh : Fresh sent con.out_seq (x ∷ unsent) = rw eu at h.unsent_fresh in
    let needs : m.needs_out_seq ≡ true = rw (sym first) at fresh.0.1 in
    let here : get_elem? sent con.out_seq ≡ some m.body = rw (sym first) at fresh.0.0 in
    let e1 = h.again_end in
    let e2 = h.unsent_end in
    let a0 : length h.again ≡ 0 = ap length ea in
    let u0 : length h.unsent ≡ suc (length unsent) = ap length eu in
    let wrap : u64 (con.out_seq + 1) ≡ con.out_seq + 1 = omega arith in
    let place : h.acked + length con.out_sent ≡ con.out_seq = omega arith in
    let new : Msg = record m { seq = u64 (con.out_seq + 1); needs_out_seq = false } in
    let numbered : Numbered sent (h.acked + length con.out_sent) (new ∷ []) =
      rw place ((here, refl, wrap), tt) in
    let size = length-append con.out_sent (new ∷ []) in
    (
      moved (record con { out_seq = u64 (con.out_seq + 1) }) new queue,
      rw needs refl,
      (
        record {
          acked = h.acked;
          again = [];
          unsent = unsent;
          lossless = h.lossless;
          queue = left;
          sent_numbered =
              Numbered-append sent h.acked _ con.out_sent (new ∷ []) refl h.sent_numbered numbered;
          again_numbered = tt;
          unsent_fresh = rw wrap fresh.1;
          again_end = omega arith;
          unsent_end = omega arith;
        },
        refl,
        numbered,
        size,
        omega arith,
      ),
    )
move_again sent con h m queue (x ∷ again) unsent e ea eu short =
    let same : m ∷ queue ≡ x ∷ (again ++ unsent) =
      sym e
      ∙ h.queue
      ∙ ap (λ (t : List Msg). t ++ h.unsent) ea
      ∙ ap (λ (t : List Msg). x ∷ (again ++ t)) eu in
    let first : m ≡ x = cc in
    let left : queue ≡ again ++ unsent = cc in
    let all : Numbered sent (h.acked + length con.out_sent) (x ∷ again) =
      rw ea at h.again_numbered in
    let one : IsNumbered sent (h.acked + length con.out_sent) m = rw (sym first) at all.0 in
    let e1 = h.again_end in
    let a0 : length h.again ≡ suc (length again) = ap length ea in
    let size = length-append con.out_sent (m ∷ []) in
    let later : h.acked + length con.out_sent + 1 ≡ h.acked + length (con.out_sent ++ m ∷ []) =
      omega arith in
    (
      moved con m queue,
      rw one.1 refl,
      (
        record {
          acked = h.acked;
          again = again;
          unsent = unsent;
          lossless = h.lossless;
          queue = left;
          sent_numbered =
              Numbered-append sent h.acked _ con.out_sent (m ∷ []) refl h.sent_numbered (one, tt);
          again_numbered = subst (λ (j : ℕ). Numbered sent j again) later all.1;
          unsent_fresh = rw eu at h.unsent_fresh;
          again_end = omega arith;
          unsent_end = omega (arith, h.unsent_end, ap length eu);
        },
        refl,
        (one, tt),
        size,
        omega arith,
      ),
    )

queue-cases :
    (ms : List Msg)
    → (no_messages ms ≡ true)
      ⊎ ((m : Msg) × (queue : List Msg) × (ms ≡ m ∷ queue) × (no_messages ms ≡ false))
queue-cases [] = inl refl
queue-cases (m ∷ ms) = inr (m, ms, refl, refl)

pub do_next-Writes :
    (sent : List ℕ) (con : Con) (h : Keeps sent con)
    → length sent < 0x8000000000000000
    → (q : Con × Written) × (do_next con ≡ ok q) × Writes sent con h q
unfolding do_next prepare_write_message prepare_write_ack
do_next-Writes sent con h short = elim (Bool-cases (is_open con.state)) [
  | inr down ↦ (
    (record con { write_pending = false }, nothing),
    rw down refl,
    (h, refl, tt, omega arith, omega arith),
  )
  | inl up ↦ elim (queue-cases con.out_queue) [
    | inr (m, queue, e, more) ↦
        let (q, run, post) = move_again sent con h m queue h.again h.unsent e refl refl short in
        (q, rw (up, more) (subst (λ (ms : List Msg). move_msg con ms ≡ ok q) (sym e) run), post)
    | inl e ↦ elim (Bool-cases (ltb con.in_seq_acked con.in_seq)) [
      | inl due ↦
          (prepare_write_ack con, rw (up, e, due) refl, (h, refl, tt, omega arith, omega arith))
      | inr none_due ↦ elim (Bool-cases con.keepalive_pending) [
        | inl alive ↦ (
          (record con { keepalive_pending = false; write_pending = true }, keepalive),
          rw (up, e, none_due, alive) refl,
          (h, refl, tt, omega arith, omega arith),
        )
        | inr idle ↦ (
          (record con { write_pending = false }, nothing),
          rw (up, e, none_due, idle) refl,
          (h, refl, tt, omega arith, omega arith),
        )
      ]
    ]
  ]
]

-- The other end: it counts the same, and its acks say no more than it counts.
abbrev pub Answers : Con → Con × Written → Type 0
Answers con q = (q.0.in_seq ≡ con.in_seq) × All (λ n. n ≤ con.in_seq) (acks_of q.1)

moved-Answers : (con : Con) (m : Msg) (queue : List Msg) → Answers con (moved con m queue)
moved-Answers con m queue = elim (Bool-cases (ltb con.in_seq_acked con.in_seq)) [
  | inl due ↦ (refl, rw due (omega arith, tt))
  | inr idle ↦ (refl, rw idle tt)
]

move_msg-Answers :
    (con : Con) (m : Msg) (queue : List Msg)
    → (q : Con × Written) × (move_msg con (m ∷ queue) ≡ ok q) × Answers con q
unfolding move_msg number_msg
move_msg-Answers con m queue = elim (Bool-cases m.needs_out_seq) [
  | inl needs ↦
      let con1 : Con = record con { out_seq = u64 (con.out_seq + 1) } in
      let new : Msg = record m { seq = u64 (con.out_seq + 1); needs_out_seq = false } in
      (moved con1 new queue, rw needs refl, moved-Answers con1 new queue)
  | inr given ↦ (moved con m queue, rw given refl, moved-Answers con m queue)
]

pub do_next-Answers : (con : Con) → (q : Con × Written) × (do_next con ≡ ok q) × Answers con q
unfolding do_next prepare_write_message prepare_write_ack
do_next-Answers con = elim (Bool-cases (is_open con.state)) [
  | inr down ↦ ((record con { write_pending = false }, nothing), rw down refl, (refl, tt))
  | inl up ↦ elim (queue-cases con.out_queue) [
    | inr (m, queue, e, more) ↦
        let (q, run, post) = move_msg-Answers con m queue in
        (q, rw (up, more) (subst (λ (ms : List Msg). move_msg con ms ≡ ok q) (sym e) run), post)
    | inl e ↦ elim (Bool-cases (ltb con.in_seq_acked con.in_seq)) [
      | inl due ↦ (prepare_write_ack con, rw (up, e, due) refl, (refl, (omega arith, tt)))
      | inr none_due ↦ elim (Bool-cases con.keepalive_pending) [
        | inl alive ↦ (
          (record con { keepalive_pending = false; write_pending = true }, keepalive),
          rw (up, e, none_due, alive) refl,
          (refl, tt),
        )
        | inr idle ↦ (
          (record con { write_pending = false }, nothing),
          rw (up, e, none_due, idle) refl,
          (refl, tt),
        )
      ]
    ]
  ]
]
