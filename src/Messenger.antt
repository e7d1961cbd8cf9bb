-- ===== src/Messenger.antt =====
-- A connection of net/ceph/messenger.c: its queues, its sequence numbers and what happens to them when
-- the socket breaks. A message is what identifies it, with its number; reference counts, the bytes
-- on the socket and the checksums are left out.
pub mod Link
pub mod Queues
pub mod Order
pub mod Steps
pub mod Delivery
pub mod Sock
pub mod Tests
use kmod_ceph.Base.{
  ℕ, ◌+◌, ◌-◌, ◌*◌, ◌/◌, ◌%◌, Bool, true, false, not, ◌&&◌, Option, none, some, List, [], ◌∷◌, ◌++◌,
  ltb, leb, ◌==◌, if◌then◌else◌, u64,
}
use kmod_ceph.Base.Int.{ℤ, pos, negsuc, ◌-ℤ◌, ltb_ℤ}
use kmod_ceph.Crush.Outcome.{Outcome, ok, fault, ◌>>=◌}

-- CON_STATE_*.
pub data ConState : Type 0 where
  closed preopen connecting negotiating opened standby : ConState

pub record Msg : Type 0 where
  pub body : ℕ
  pub seq : ℕ
  pub needs_out_seq : Bool

-- A flag of the code is a field.
pub record Con : Type 0 where
  pub state : ConState
  pub lossytx : Bool
  pub keepalive_pending : Bool
  pub write_pending : Bool
  pub sock_closed : Bool
  pub backoff : Bool
  pub out_queue : List Msg
  pub out_sent : List Msg
  pub out_msg : Option Msg
  pub in_msg : Option Msg
  pub out_seq : ℕ
  pub in_seq : ℕ
  pub in_seq_acked : ℕ
  pub connect_seq : ℕ
  pub peer_global_seq : ℕ
  pub delay : ℕ

abbrev pub is_closed : ConState → Bool
is_closed closed = true
is_closed _ = false

abbrev pub is_open : ConState → Bool
is_open opened = true
is_open _ = false

abbrev pub is_standby : ConState → Bool
is_standby standby = true
is_standby _ = false

abbrev pub no_messages : List Msg → Bool
no_messages [] = true
no_messages (m ∷ ms) = false

-- The WARN_ONs only print.
unfoldable pub clear_standby : Con → Con
clear_standby con =
    if is_standby con.state
    then record con { state = preopen; connect_seq = (con.connect_seq + 1) % 0x100000000 }
    else con

-- What `ceph_con_send` does when the connection is not closed.
unfoldable pub enqueue : Con → Msg → Con
enqueue con msg =
    record (clear_standby
      (record con { out_queue = con.out_queue ++ (record msg { needs_out_seq = true }) ∷ [] })) {
        write_pending = true;
      }

unfoldable pub con_send : Con → Msg → Con
con_send con msg = if is_closed con.state then con else enqueue con msg

-- What goes out at once: a message, before it an ack where one is due, or an ack alone.
pub data Written : Type 0 where
  message : Option ℕ → Msg → Written
  ack : ℕ → Written
  keepalive nothing : Written

-- `if (m->needs_out_seq)`: the connection and the message.
unfoldable pub number_msg : Con → Msg → Con × Msg
number_msg con m =
    if m.needs_out_seq
    then (
      record con { out_seq = u64 (con.out_seq + 1) },
      record m { seq = u64 (con.out_seq + 1); needs_out_seq = false },
    )
    else (con, m)

abbrev due_ack : Con → Option ℕ
due_ack con = if ltb con.in_seq_acked con.in_seq then some con.in_seq else none

-- The message m, with its number, goes to the end of `out_sent`.
abbrev pub moved : Con → Msg → List Msg → Con × Written
moved con m queue = (
  record con {
    out_queue = queue;
    out_sent = con.out_sent ++ m ∷ [];
    out_msg = some m;
    in_seq_acked = if ltb con.in_seq_acked con.in_seq then con.in_seq else con.in_seq_acked;
    write_pending = true;
  },
  message (due_ack con) m,
)

unfoldable pub move_msg : Con → List Msg → Outcome (Con × Written)
move_msg con [] = fault
move_msg con (m ∷ queue) = let p = number_msg con m in ok (moved p.0 p.1 queue)

-- The BUG_ON for an empty queue is a fault.
unfoldable pub prepare_write_message : Con → Outcome (Con × Written)
prepare_write_message con = move_msg con con.out_queue

unfoldable pub prepare_write_ack : Con → Con × Written
prepare_write_ack con =
    (record con { in_seq_acked = con.in_seq; write_pending = true }, ack con.in_seq)

-- `do_next` of `try_write`.
unfoldable pub do_next : Con → Outcome (Con × Written)
do_next con =
    if is_open con.state
    then (if not (no_messages con.out_queue)
        then prepare_write_message con
        else if ltb con.in_seq_acked con.in_seq
        then ok (prepare_write_ack con)
        else if con.keepalive_pending
        then ok (record con { keepalive_pending = false; write_pending = true }, keepalive)
        else ok (record con { write_pending = false }, nothing))
    else ok (record con { write_pending = false }, nothing)

-- The messages that `process_ack` leaves.
unfoldable pub unacked : ℕ → List Msg → List Msg
unacked n [] = []
unacked n (m ∷ ms) = let rest = unacked n ms in if ltb n m.seq then m ∷ ms else rest

unfoldable pub process_ack : Con → ℕ → Con
process_ack con n = record con { out_sent = unacked n con.out_sent }

-- A number as `s64`.
abbrev s64 : ℕ → ℤ
s64 n = if ltb n 0x8000000000000000 then pos n else negsuc (0xffffffffffffffff - n)

-- The comparison of a message's number in `read_partial_message`.
pub data SeqVerdict : Type 0 where
  old next bad : SeqVerdict

unfoldable pub check_seq : ℕ → ℕ → SeqVerdict
check_seq in_seq seq =
    if ltb_ℤ (s64 seq -ℤ s64 in_seq) (pos 1)
    then old
    else if ltb_ℤ (pos 1) (s64 seq -ℤ s64 in_seq)
    then bad
    else next

unfoldable pub process_message : Con → Con
process_message con = record con { in_msg = none; in_seq = u64 (con.in_seq + 1) }

-- `read_partial_message` when the allocation says to skip the message, or when the message is longer
-- than the one allocated: it is counted and never dispatched.
unfoldable pub skip_message : Con → Con
skip_message con = record con { in_msg = none; in_seq = u64 (con.in_seq + 1) }

-- The socket itself is left out.
unfoldable pub con_close_socket : Con → Con
con_close_socket con = record con { sock_closed = false }

-- The delay before the next try, with the ticks of a second.
unfoldable pub next_delay : ℕ → ℕ → ℕ
next_delay hz delay =
    if delay == 0 then hz / 2 else if ltb delay (5 * 60 * hz) then delay * 2 else delay

-- The state after the messages were put back.
unfoldable pub rest_or_retry : ℕ → Con → Con
rest_or_retry hz con =
    if no_messages con.out_queue && not con.keepalive_pending
    then record con { write_pending = false; state = standby }
    else record con { state = preopen; delay = next_delay hz con.delay; backoff = true }

-- `list_splice_init(&con->out_sent, &con->out_queue)`, after an incoming message is dropped.
unfoldable pub requeue : Con → Con
requeue con = record con { in_msg = none; out_queue = con.out_sent ++ con.out_queue; out_sent = [] }

unfoldable pub con_fault : ℕ → Con → Con
con_fault hz con =
    let c = con_close_socket con in
    if c.lossytx then record c { state = closed } else rest_or_retry hz (requeue c)

-- The case CEPH_MSGR_TAG_READY of `process_connect`, for a peer with the features required.
unfoldable pub connect_ready : Con → ℕ → Bool → Con
connect_ready con global_seq lossy = record con {
  state = opened;
  peer_global_seq = global_seq;
  connect_seq = (con.connect_seq + 1) % 0x100000000;
  lossytx = if lossy then true else con.lossytx;
  delay = 0;
}

unfoldable pub reset_connection : Con → Con
reset_connection con = record con {
  out_queue = [];
  out_sent = [];
  in_msg = none;
  connect_seq = 0;
  out_seq = 0;
  out_msg = none;
  in_seq = 0;
  in_seq_acked = 0;
}

unfoldable pub con_close : Con → Con
con_close con =
    con_close_socket
      (record (reset_connection (record con {
        state = closed;
        lossytx = false;
        keepalive_pending = false;
        write_pending = false;
        backoff = false;
      })) { peer_global_seq = 0 })

-- The address of the peer is left out.
unfoldable pub con_open : Con → Con
con_open con = record con { state = preopen; delay = 0 }

-- `ceph_con_init`, which clears the structure.
abbrev pub con_init : Con
con_init = record {
  state = closed;
  lossytx = false;
  keepalive_pending = false;
  write_pending = false;
  sock_closed = false;
  backoff = false;
  out_queue = [];
  out_sent = [];
  out_msg = none;
  in_msg = none;
  out_seq = 0;
  in_seq = 0;
  in_seq_acked = 0;
  connect_seq = 0;
  peer_global_seq = 0;
  delay = 0;
}
