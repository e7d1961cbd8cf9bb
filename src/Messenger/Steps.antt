-- ===== src/Messenger/Steps.antt =====
-- What the steps of the two connections do, but for the reading of a message.
use kmod_ceph.Base.{
  All-append, ℕ, ◌+◌, ◌≤◌, ◌≡◌, refl, sym, subst, ap, ◌∙◌, inl, inr, true, false, not, ◌&&◌, List,
  [], ◌∷◌, ◌++◌, arith, Bool-cases, length, take, All, length-append,
}
use mathlib.Core.List.{append_assoc}
use kmod_ceph.Crush.Outcome.{Outcome, ok}
use kmod_ceph.Messenger.{
  Con, Msg, Written, no_messages, is_closed, clear_standby, enqueue, is_standby, con_send, do_next,
  unacked, process_ack, con_close_socket, rest_or_retry, requeue, con_fault,
}
use kmod_ceph.Messenger.Link.{Link, new_msg, messages_of, acks_of, broken}
use kmod_ceph.Messenger.Queues.{
  kept, Numbered, get_elem?-end, Numbered-grow, Fresh-grow, Numbered-append, Fresh-snoc,
  unacked_lem, take-grow,
}
use kmod_ceph.Messenger.Order.{
  KeepsOf, Keeps, IsOrdered, IsShort, Writes, Answers, do_next-Writes, do_next-Answers,
}

same-ok : {A : Type 0} (m : Outcome A) (a b : A) → m ≡ ok a → m ≡ ok b → a ≡ b
same-ok m a b h h' = cc

-- What the sender keeps after `con`, with the same messages acknowledged and sent.
abbrev Goes : (sent sent' : List ℕ) (con : Con) → Keeps sent con → Con → Type 0
Goes sent sent' con h con' =
    (h' : Keeps sent' con') × (h'.acked ≡ h.acked)
    × (length con'.out_sent ≡ length con.out_sent)
    × (con'.out_seq ≡ con.out_seq)

con_send-Goes :
    (sent : List ℕ) (con : Con) (body : ℕ) (h : Keeps sent con)
    → is_closed con.state ≡ false
    → Goes sent (sent ++ body ∷ []) con h (con_send con (new_msg body))
unfolding con_send enqueue clear_standby
con_send-Goes sent con body h up =
    let new : Msg = record { body = body; seq = 0; needs_out_seq = true } in
    let size = length-append sent (body ∷ []) in
    let size' = length-append h.unsent (new ∷ []) in
    let ends = h.unsent_end in
    let grown : KeepsOf (sent ++ body ∷ []) con.lossytx (con.out_queue ++ new ∷ []) con.out_sent
        con.out_seq =
      record {
        acked = h.acked;
        again = h.again;
        unsent = h.unsent ++ new ∷ [];
        lossless = h.lossless;
        queue =
            ap (λ (t : List Msg). t ++ new ∷ []) h.queue ∙ append_assoc h.again h.unsent (new ∷ []);
        sent_numbered = Numbered-grow sent body h.acked con.out_sent h.sent_numbered;
        again_numbered =
            Numbered-grow sent body (h.acked + length con.out_sent) h.again h.again_numbered;
        unsent_fresh =
            Fresh-snoc (sent ++ body ∷ []) con.out_seq (length sent) h.unsent new (omega arith)
              (Fresh-grow sent body con.out_seq h.unsent h.unsent_fresh)
              (get_elem?-end sent body, refl);
        again_end = h.again_end;
        unsent_end = omega arith;
      } in
    elim (Bool-cases (is_standby con.state)) [
      | inl idle ↦ rw (up, idle) (grown, refl, refl, refl)
      | inr busy ↦ rw (up, busy) (grown, refl, refl, refl)
    ]

-- After a fault nothing is sent any more and all that was not acknowledged is to be sent again.
con_fault-Keeps :
    (hz : ℕ) (sent : List ℕ) (con : Con) (h : Keeps sent con)
    → (h' : Keeps sent (con_fault hz con)) × (h'.acked ≡ h.acked)
      × (length (con_fault hz con).out_sent ≡ 0)
      × ((con_fault hz con).out_seq ≡ con.out_seq)
unfolding con_fault con_close_socket rest_or_retry requeue
con_fault-Keeps hz sent con h =
    let size = length-append con.out_sent h.again in
    let ends = h.again_end in
    let zero_more : h.acked ≡ h.acked + 0 = omega arith in
    let all =
      Numbered-append sent h.acked (h.acked + length con.out_sent) con.out_sent h.again refl
        h.sent_numbered h.again_numbered in
    let back : KeepsOf sent false (con.out_sent ++ con.out_queue) [] con.out_seq = record {
      acked = h.acked;
      again = con.out_sent ++ h.again;
      unsent = h.unsent;
      lossless = refl;
      queue =
          ap (λ (t : List Msg). con.out_sent ++ t) h.queue
          ∙ sym (append_assoc con.out_sent h.again h.unsent);
      sent_numbered = tt;
      again_numbered = subst (λ (j : ℕ). Numbered sent j (con.out_sent ++ h.again)) zero_more all;
      unsent_fresh = h.unsent_fresh;
      again_end = omega arith;
      unsent_end = h.unsent_end;
    } in
    elim (Bool-cases (no_messages (con.out_sent ++ con.out_queue) && not con.keepalive_pending)) [
      | inl idle ↦ rw (h.lossless, idle) (back, refl, refl, refl)
      | inr busy ↦ rw (h.lossless, busy) (back, refl, refl, refl)
    ]

con_fault-in_seq : (hz : ℕ) (con : Con) → (con_fault hz con).in_seq ≡ con.in_seq
unfolding con_fault con_close_socket rest_or_retry requeue
con_fault-in_seq hz con = elim (Bool-cases con.lossytx) [
  | inl lossy ↦ rw lossy refl
  | inr lossless ↦
      elim (Bool-cases (no_messages (con.out_sent ++ con.out_queue) && not con.keepalive_pending)) [
        | inl idle ↦ rw (lossless, idle) refl
        | inr busy ↦ rw (lossless, busy) refl
      ]
]

-- The socket breaks.
pub broken-IsOrdered : (hz : ℕ) (s : Link) → IsOrdered s → IsOrdered (broken hz s)
broken-IsOrdered hz s o =
    let (keeps, same, none_sent, count) = con_fault-Keeps hz s.sent s.sender o.keeps in
    let got = con_fault-in_seq hz s.receiver in
    let le = o.acked_le in
    let le' = o.dispatched_le in
    record {
      keeps = keeps;
      at = o.keeps.acked;
      wire_numbered = tt;
      wire_end = omega arith;
      no_gap = omega arith;
      acked_le = omega arith;
      acks_le = tt;
      counted = omega (arith, o.counted, got);
      dispatched = o.dispatched ∙ ap (λ (n : ℕ). kept s.fates (take n s.sent)) (sym got);
      dispatched_le = omega arith;
    }

-- A message is given to the sender.
pub sends-IsOrdered :
    (s : Link) (body : ℕ)
    → is_closed s.sender.state ≡ false
    → IsOrdered s
    → IsOrdered (record s { sender = con_send s.sender (new_msg body); sent = s.sent ++ body ∷ [] })
sends-IsOrdered s body up o =
    let (keeps, same, size, count) = con_send-Goes s.sent s.sender body o.keeps up in
    let ends = o.keeps.unsent_end in
    let wire_end = o.wire_end in
    let le = o.acked_le in
    let le' = o.dispatched_le in
    record {
      keeps = keeps;
      at = o.at;
      wire_numbered = Numbered-grow s.sent body o.at s.wire o.wire_numbered;
      wire_end = omega arith;
      no_gap = o.no_gap;
      acked_le = omega arith;
      acks_le = o.acks_le;
      counted = o.counted;
      dispatched =
          o.dispatched
          ∙ ap (λ t. kept s.fates t)
              (sym (take-grow s.sent (body ∷ []) s.receiver.in_seq (omega arith)));
      dispatched_le = omega arith;
    }

-- The sender writes.
pub writes-IsOrdered :
    (s : Link) (con : Con) (w : Written)
    → do_next s.sender ≡ ok (con, w)
    → IsShort s
    → IsOrdered s
    → IsOrdered (record s { sender = con; wire = s.wire ++ messages_of w })
writes-IsOrdered s con w run short o =
    let (q, run', post) = do_next-Writes s.sent s.sender o.keeps short in
    let (keeps, same, next_ones, size, count) =
      subst (λ (q : Con × Written). Writes s.sent s.sender o.keeps q)
        (same-ok (do_next s.sender) q (con, w) run' run) post in
    let wire_end = o.wire_end in
    let le = o.acked_le in
    let le' = o.dispatched_le in
    let more = length-append s.wire (messages_of w) in
    record {
      keeps = keeps;
      at = o.at;
      wire_numbered =
          Numbered-append s.sent o.at (o.keeps.acked + length s.sender.out_sent) s.wire
            (messages_of w) (sym wire_end) o.wire_numbered next_ones;
      wire_end = omega arith;
      no_gap = o.no_gap;
      acked_le = omega arith;
      acks_le = o.acks_le;
      counted = o.counted;
      dispatched = o.dispatched;
      dispatched_le = omega arith;
    }

-- The receiver writes.
pub answers-IsOrdered :
    (s : Link) (con : Con) (w : Written)
    → do_next s.receiver ≡ ok (con, w)
    → IsOrdered s
    → IsOrdered (record s { receiver = con; acks = s.acks ++ acks_of w })
answers-IsOrdered s con w run o =
    let (q, run', post) = do_next-Answers s.receiver in
    let (same, acks) =
      subst (λ (q : Con × Written). Answers s.receiver q)
        (same-ok (do_next s.receiver) q (con, w) run' run) post in
    let gap = o.no_gap in
    let le = o.acked_le in
    let le' = o.dispatched_le in
    let all = All-append (λ n. n ≤ s.receiver.in_seq) s.acks (acks_of w) o.acks_le acks in
    record {
      keeps = o.keeps;
      at = o.at;
      wire_numbered = o.wire_numbered;
      wire_end = o.wire_end;
      no_gap = omega arith;
      acked_le = omega arith;
      acks_le = rw same all;
      counted = omega (arith, o.counted, same);
      dispatched = o.dispatched ∙ ap (λ (n : ℕ). kept s.fates (take n s.sent)) (sym same);
      dispatched_le = omega arith;
    }

-- The sender reads an ack.
pub acknowledged-IsOrdered :
    (s : Link) (n : ℕ) (acks : List ℕ)
    → s.acks ≡ n ∷ acks
    → IsOrdered s
    → IsOrdered (record s { sender = process_ack s.sender n; acks = acks })
unfolding process_ack
acknowledged-IsOrdered s n acks e o =
    let k = o.keeps in
    let all : All (λ n. n ≤ s.receiver.in_seq) (n ∷ acks) = rw e at o.acks_le in
    let said = all.0 in
    let le = o.acked_le in
    let ends = k.again_end in
    let wire_end = o.wire_end in
    let (j, left, count, more, bound) =
      unacked_lem s.sent k.acked n s.sender.out_sent k.sent_numbered in
    let place : k.acked + length s.sender.out_sent ≡ j + length (unacked n s.sender.out_sent) =
      sym count in
    record {
      keeps = record {
        acked = j;
        again = k.again;
        unsent = k.unsent;
        lossless = k.lossless;
        queue = k.queue;
        sent_numbered = left;
        again_numbered = subst (λ (i : ℕ). Numbered s.sent i k.again) place k.again_numbered;
        unsent_fresh = k.unsent_fresh;
        again_end = omega arith;
        unsent_end = k.unsent_end;
      };
      at = o.at;
      wire_numbered = o.wire_numbered;
      wire_end = omega arith;
      no_gap = o.no_gap;
      acked_le = elim bound [ inl e ↦ omega arith | inr b ↦ omega arith ];
      acks_le = all.1;
      counted = o.counted;
      dispatched = o.dispatched;
      dispatched_le = o.dispatched_le;
    }
