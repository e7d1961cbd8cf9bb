-- ===== src/Messenger/Link.antt =====
-- Two connections of net/ceph/messenger.c and the socket between them. Messages go from the sender to
-- the receiver and acks come back, each in the order in which they were written, until the socket
-- breaks and what is under way is lost. The code is a client: that the accepting peer runs the same
-- code is assumed, and a handshake is one step that opens both ends; `lossy` says whether its reply
-- declares the connection lossy. An allocation that fails breaks the connection. Sessions that are reset and
-- messages that are revoked, which drop messages on purpose, are no steps here.
use kmod_ceph.Base.{ℕ, ◌≡◌, Bool, true, false, Option, none, some, List, [], ◌∷◌, ◌++◌}
use kmod_ceph.Crush.Outcome.{ok}
use kmod_ceph.Messenger.{
  Con, Msg, Written, message, ack, keepalive, nothing, SeqVerdict, old, next, bad, is_closed,
  con_send, con_open, con_init, do_next, process_ack, check_seq, process_message, skip_message,
  con_fault, connect_ready,
}

-- `sent` are the messages given to the sender, and `delivered` those that the receiver dispatched.
-- `fates` has an entry for each message that the receiver counted: whether it was dispatched, and not
-- skipped by its allocation.
pub record Link : Type 0 where
  pub sender : Con
  pub receiver : Con
  pub wire : List Msg
  pub acks : List ℕ
  pub sent : List ℕ
  pub delivered : List ℕ
  pub fates : List Bool

abbrev pub new_msg : ℕ → Msg
new_msg body = record { body = body; seq = 0; needs_out_seq = false }

-- What the sender writes on the wire, and the receiver as acks.
abbrev pub messages_of : Written → List Msg
messages_of (message a m) = m ∷ []
messages_of (ack n) = []
messages_of keepalive = []
messages_of nothing = []

abbrev list_of : Option ℕ → List ℕ
list_of none = []
list_of (some n) = n ∷ []

abbrev pub acks_of : Written → List ℕ
acks_of (message a m) = list_of a
acks_of (ack n) = n ∷ []
acks_of keepalive = []
acks_of nothing = []

-- The socket breaks.
abbrev pub broken : ℕ → Link → Link
broken hz s = record s {
  sender = con_fault hz s.sender;
  receiver = con_fault hz s.receiver;
  wire = [];
  acks = [];
}

-- The receiver takes the next message: it skips it, as its allocation says, or dispatches it.
abbrev pub take_msg : Link → Bool → Msg → List Msg → Link
take_msg s true m wire = record s {
  receiver = skip_message s.receiver;
  wire = wire;
  fates = s.fates ++ false ∷ [];
}
take_msg s false m wire = record s {
  receiver = process_message s.receiver;
  wire = wire;
  delivered = s.delivered ++ m.body ∷ [];
  fates = s.fates ++ true ∷ [];
}

-- The receiver has read the number of the message m: it passes over a message that it knows, takes
-- the next one, or gives up the connection. `skips` is what the allocation says, which the
-- connection does not decide.
abbrev pub read_msg : ℕ → Link → Bool → Msg → List Msg → SeqVerdict → Link
read_msg hz s skips m wire old = record s { wire = wire }
read_msg hz s skips m wire next = take_msg s skips m wire
read_msg hz s skips m wire bad = broken hz s

-- One step, by `hz` ticks of a second.
pub data Event (hz : ℕ) (lossy : Bool) (s t : Link) : Type 0 where
  sends :
      (body : ℕ)
      → is_closed s.sender.state ≡ false
      → t ≡ record s { sender = con_send s.sender (new_msg body); sent = s.sent ++ body ∷ [] }
      → Event hz lossy s t
  writes :
      (con : Con) (w : Written)
      → do_next s.sender ≡ ok (con, w)
      → t ≡ record s { sender = con; wire = s.wire ++ messages_of w }
      → Event hz lossy s t
  reads :
      (skips : Bool) (m : Msg) (wire : List Msg)
      → s.wire ≡ m ∷ wire
      → t ≡ read_msg hz s skips m wire (check_seq s.receiver.in_seq m.seq)
      → Event hz lossy s t
  answers :
      (con : Con) (w : Written)
      → do_next s.receiver ≡ ok (con, w)
      → t ≡ record s { receiver = con; acks = s.acks ++ acks_of w }
      → Event hz lossy s t
  acknowledged :
      (n : ℕ) (acks : List ℕ)
      → s.acks ≡ n ∷ acks
      → t ≡ record s { sender = process_ack s.sender n; acks = acks }
      → Event hz lossy s t
  breaks : t ≡ broken hz s → Event hz lossy s t
  reopens :
      (global_seq : ℕ)
      → t ≡ record s {
        sender = connect_ready s.sender global_seq lossy;
        receiver = connect_ready s.receiver global_seq lossy;
      }
      → Event hz lossy s t

pub data Reaches (hz : ℕ) (lossy : Bool) (s : Link) : Link → Type 0 where
  start : Reaches hz lossy s s
  after : {t u : Link} → Reaches hz lossy s t → Event hz lossy t u → Reaches hz lossy s u

-- Two connections that `ceph_con_open` opened.
abbrev pub new_link : Link
new_link = record {
  sender = con_open con_init;
  receiver = con_open con_init;
  wire = [];
  acks = [];
  sent = [];
  delivered = [];
  fates = [];
}
