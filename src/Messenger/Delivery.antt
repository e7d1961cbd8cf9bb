-- ===== src/Messenger/Delivery.antt =====
-- Every step of two connections keeps the order: no message is counted twice or out of turn.
use mathlib.Core.List.{append-nil}
use kmod_ceph.Base.{
  Bool, true, take, ℕ, ◌+◌, ◌≤◌, ◌<◌, ◌≡◌, refl, sym, subst, ap, ◌∙◌, ◌⊎◌, inl, inr, false, some,
  List, [], ◌∷◌, ◌++◌, arith, leb, Bool-cases, length, get_elem?, All, length-append, u64,
}
use kmod_ceph.Messenger.{
  Msg, SeqVerdict, old, next, bad, check_seq, process_message, skip_message, connect_ready,
  con_open,
}
use kmod_ceph.Messenger.Link.{
  Link, take_msg, read_msg, Event, sends, writes, reads, answers, acknowledged, breaks, reopens,
  Reaches, start, after, new_link,
}
use kmod_ceph.Messenger.Queues.{Numbered, kept, if_kept, kept-next}
use kmod_ceph.Messenger.Order.{IsOrdered, IsShort, check_seq-old, check_seq-next}
use kmod_ceph.Messenger.Steps.{
  broken-IsOrdered, sends-IsOrdered, writes-IsOrdered, answers-IsOrdered, acknowledged-IsOrdered,
}

-- What the receiver finds in the number of the next message on the wire.
abbrev pub ReadsNext : Link → List Msg → Type 0
ReadsNext s [] = Unit
ReadsNext s (m ∷ wire) =
    (check_seq s.receiver.in_seq m.seq ≡ old) × (m.seq ≤ s.receiver.in_seq)
    ⊎ (check_seq s.receiver.in_seq m.seq ≡ next)
      × (get_elem? s.sent s.receiver.in_seq ≡ some m.body)

head_cases :
    (s : Link) (m : Msg) (wire : List Msg)
    → s.wire ≡ m ∷ wire
    → IsShort s
    → (o : IsOrdered s)
    → (check_seq s.receiver.in_seq m.seq ≡ old)
        × (m.seq ≤ s.receiver.in_seq)
        × (o.at + 1 ≤ s.receiver.in_seq)
      ⊎ (check_seq s.receiver.in_seq m.seq ≡ next)
        × (get_elem? s.sent s.receiver.in_seq ≡ some m.body)
        × (o.at ≡ s.receiver.in_seq)
        × (s.receiver.in_seq + 1 ≤ s.sender.out_seq)
head_cases s m wire e short o =
    let (first, rest) : Numbered s.sent o.at (m ∷ wire) = rw e at o.wire_numbered in
    let number = first.2 in
    let size = ap length e in
    let end = o.wire_end in
    let gap = o.no_gap in
    let k1 = o.keeps.again_end in
    let k2 = o.keeps.unsent_end in
    let le = o.dispatched_le in
    elim (Bool-cases (leb m.seq s.receiver.in_seq)) [
      | inl known ↦
          let below : m.seq ≤ s.receiver.in_seq = ground arith in
          inl (check_seq-old s.receiver.in_seq m.seq (omega arith) below, below, omega arith)
      | inr new ↦
          let here : o.at ≡ s.receiver.in_seq = ground arith in
          let number' : m.seq ≡ s.receiver.in_seq + 1 = omega arith in
          let check = check_seq-next s.receiver.in_seq (omega arith) in
          inr (rw number' check, rw here at first.0, here, omega arith)
    ]

-- The message m comes next, and the rest of the wire after it.
abbrev IsNext : (s : Link) → Msg → List Msg → IsOrdered s → Type 0
IsNext s m wire o =
    Numbered s.sent (o.at + 1) wire
    × (o.at + 1 + length wire ≡ o.keeps.acked + length s.sender.out_sent)
    × (o.at ≡ s.receiver.in_seq)
    × (get_elem? s.sent s.receiver.in_seq ≡ some m.body)
    × (s.receiver.in_seq + 1 < 0x8000000000000000)
    × (s.receiver.in_seq + 1 ≤ s.sender.out_seq)

All-weaken : (a b : ℕ) (ns : List ℕ) → a ≤ b → All (λ n. n ≤ a) ns → All (λ n. n ≤ b) ns
All-weaken a b [] le h = tt
All-weaken a b (n ∷ ns) le h = let first = h.0 in (omega arith, All-weaken a b ns le h.1)

dispatched-next :
    (s : Link) (f : Bool) (b : ℕ)
    → IsOrdered s
    → s.receiver.in_seq + 1 ≤ length s.sent
    → get_elem? s.sent s.receiver.in_seq ≡ some b
    → s.delivered ++ if_kept f b ≡ kept (s.fates ++ f ∷ []) (take (s.receiver.in_seq + 1) s.sent)
dispatched-next s f b o le found =
    ap (λ (t : List ℕ). t ++ if_kept f b) o.dispatched
    ∙ sym (kept-next s.fates f s.sent s.receiver.in_seq b o.counted (omega arith) found)

-- The receiver takes the next message, which its allocation skips or not.
take_msg-IsOrdered :
    (s : Link) (skips : Bool) (m : Msg) (wire : List Msg)
    → (o : IsOrdered s) → IsNext s m wire o
    → IsOrdered (take_msg s skips m wire)
unfolding process_message skip_message
take_msg-IsOrdered s true m wire o (rest, size, here, found, small, room) =
    let wrap : u64 (s.receiver.in_seq + 1) ≡ s.receiver.in_seq + 1 = omega arith in
    let le = o.acked_le in
    let ends = length-append s.fates (false ∷ []) in
    let counted = o.counted in
    let k1 = o.keeps.unsent_end in
    record {
      keeps = o.keeps;
      at = o.at + 1;
      wire_numbered = rest;
      wire_end = omega arith;
      no_gap = omega arith;
      acked_le = omega arith;
      acks_le =
          rw wrap
            (All-weaken s.receiver.in_seq (s.receiver.in_seq + 1) s.acks (omega arith) o.acks_le);
      counted = omega arith;
      dispatched =
          rw wrap
            (sym (append-nil s.delivered) ∙ dispatched-next s false m.body o (omega arith) found);
      dispatched_le = omega arith;
    }
take_msg-IsOrdered s false m wire o (rest, size, here, found, small, room) =
    let wrap : u64 (s.receiver.in_seq + 1) ≡ s.receiver.in_seq + 1 = omega arith in
    let le = o.acked_le in
    let ends = length-append s.fates (true ∷ []) in
    let counted = o.counted in
    let k1 = o.keeps.unsent_end in
    record {
      keeps = o.keeps;
      at = o.at + 1;
      wire_numbered = rest;
      wire_end = omega arith;
      no_gap = omega arith;
      acked_le = omega arith;
      acks_le =
          rw wrap
            (All-weaken s.receiver.in_seq (s.receiver.in_seq + 1) s.acks (omega arith) o.acks_le);
      counted = omega arith;
      dispatched = rw wrap (dispatched-next s true m.body o (omega arith) found);
      dispatched_le = omega arith;
    }

-- The receiver reads a message.
reads-IsOrdered :
    (hz : ℕ) (s : Link) (skips : Bool) (m : Msg) (wire : List Msg)
    → s.wire ≡ m ∷ wire
    → IsShort s
    → IsOrdered s
    → IsOrdered (read_msg hz s skips m wire (check_seq s.receiver.in_seq m.seq))
unfolding process_message
reads-IsOrdered hz s skips m wire e short o =
    let (first, rest) : Numbered s.sent o.at (m ∷ wire) = rw e at o.wire_numbered in
    let size = ap length e in
    let end = o.wire_end in
    let gap = o.no_gap in
    let le = o.acked_le in
    let k1 = o.keeps.again_end in
    let k2 = o.keeps.unsent_end in
    elim (head_cases s m wire e short o) [
      | inl (check, known, before) ↦ rw check (record {
        keeps = o.keeps;
        at = o.at + 1;
        wire_numbered = rest;
        wire_end = omega arith;
        no_gap = before;
        acked_le = o.acked_le;
        acks_le = o.acks_le;
        counted = o.counted;
        dispatched = o.dispatched;
        dispatched_le = o.dispatched_le;
      })
      | inr (check, found, here, room) ↦
          rw check (
            take_msg-IsOrdered s skips m wire o (rest, omega arith, here, found, omega arith, room))
    ]

reopens-IsOrdered :
    (s : Link) (global_seq : ℕ)
    → IsOrdered s
    → IsOrdered (record s {
      sender = connect_ready s.sender global_seq false;
      receiver = connect_ready s.receiver global_seq false;
    })
unfolding connect_ready
reopens-IsOrdered s global_seq o = record {
  keeps = o.keeps;
  at = o.at;
  wire_numbered = o.wire_numbered;
  wire_end = o.wire_end;
  no_gap = o.no_gap;
  acked_le = o.acked_le;
  acks_le = o.acks_le;
  counted = o.counted;
  dispatched = o.dispatched;
  dispatched_le = o.dispatched_le;
}

read_msg-sent :
    (hz : ℕ) (s : Link) (skips : Bool) (m : Msg) (wire : List Msg) (v : SeqVerdict)
    → (read_msg hz s skips m wire v).sent ≡ s.sent
read_msg-sent hz s skips m wire old = refl
read_msg-sent hz s true m wire next = refl
read_msg-sent hz s false m wire next = refl
read_msg-sent hz s skips m wire bad = refl

-- No step takes back a message that was given.
Event-IsShort : (hz : ℕ) (s t : Link) → Event hz false s t → IsShort t → IsShort s
Event-IsShort hz s t (sends body up e) short =
    let size = ap (λ (u : Link). length u.sent) e in
    let size' = length-append s.sent (body ∷ []) in omega arith
Event-IsShort hz s t (writes con w run e) short = subst IsShort e short
Event-IsShort hz s t (reads skips m wire e' e) short =
    let same =
      ap (λ (u : Link). length u.sent) e
      ∙ ap length (read_msg-sent hz s skips m wire (check_seq s.receiver.in_seq m.seq)) in
    omega arith
Event-IsShort hz s t (answers con w run e) short = subst IsShort e short
Event-IsShort hz s t (acknowledged n acks e' e) short = subst IsShort e short
Event-IsShort hz s t (breaks e) short = subst IsShort e short
Event-IsShort hz s t (reopens global_seq e) short = subst IsShort e short

Event-IsOrdered : (hz : ℕ) (s t : Link) → Event hz false s t → IsShort s → IsOrdered s → IsOrdered t
Event-IsOrdered hz s t (sends body up e) short o =
    subst IsOrdered (sym e) (sends-IsOrdered s body up o)
Event-IsOrdered hz s t (writes con w run e) short o =
    subst IsOrdered (sym e) (writes-IsOrdered s con w run short o)
Event-IsOrdered hz s t (reads skips m wire e' e) short o =
    subst IsOrdered (sym e) (reads-IsOrdered hz s skips m wire e' short o)
Event-IsOrdered hz s t (answers con w run e) short o =
    subst IsOrdered (sym e) (answers-IsOrdered s con w run o)
Event-IsOrdered hz s t (acknowledged n acks e' e) short o =
    subst IsOrdered (sym e) (acknowledged-IsOrdered s n acks e' o)
Event-IsOrdered hz s t (breaks e) short o = subst IsOrdered (sym e) (broken-IsOrdered hz s o)
Event-IsOrdered hz s t (reopens global_seq e) short o =
    subst IsOrdered (sym e) (reopens-IsOrdered s global_seq o)

new_link-IsOrdered : IsOrdered new_link
unfolding con_open
new_link-IsOrdered = record {
  keeps = record {
    acked = 0;
    again = [];
    unsent = [];
    lossless = refl;
    queue = refl;
    sent_numbered = tt;
    again_numbered = tt;
    unsent_fresh = tt;
    again_end = refl;
    unsent_end = refl;
  };
  at = 0;
  wire_numbered = tt;
  wire_end = refl;
  no_gap = omega arith;
  acked_le = omega arith;
  acks_le = tt;
  counted = refl;
  dispatched = refl;
  dispatched_le = omega arith;
}

reaches-IsOrdered : (hz : ℕ) (t : Link) → Reaches hz false new_link t → IsShort t → IsOrdered t
reaches-IsOrdered hz t start short = new_link-IsOrdered
reaches-IsOrdered hz u (after {t = t} way event) short =
    let short' = Event-IsShort hz t u event short in
    Event-IsOrdered hz t u event short' (reaches-IsOrdered hz t way short')

wire-ReadsNext : (s : Link) (ms : List Msg) → s.wire ≡ ms → IsShort s → IsOrdered s → ReadsNext s ms
wire-ReadsNext s [] e short o = tt
wire-ReadsNext s (m ∷ ms) e short o = elim (head_cases s m ms e short o) [
  | inl (check, known, before) ↦ inl (check, known)
  | inr (check, found, here, room) ↦ inr (check, found)
]

-- From two new connections that no handshake declares lossy, however often the socket breaks, while
-- fewer than 2 ^ 63 messages are sent: the messages that the receiver counts are the first of those
-- sent, and those dispatched are these, in order and none twice, without exactly those that their
-- allocation skipped or that were too long for it; the sender still has every message that is not
-- acknowledged, and has dropped only messages that the receiver has counted; and the next message on
-- the wire is one that the receiver passes over since it has counted it, or the next to count, never
-- one with a bad number.
pub reaches-Delivers :
    (hz : ℕ) (t : Link) → Reaches hz false new_link t → IsShort t → IsOrdered t × ReadsNext t t.wire
reaches-Delivers hz t way short =
    let o = reaches-IsOrdered hz t way short in (o, wire-ReadsNext t t.wire refl short o)
