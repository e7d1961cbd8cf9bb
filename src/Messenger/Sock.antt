-- ===== src/Messenger/Sock.antt =====
-- The socket of a connection of net/ceph/messenger.c and the states that are kept of it. The kernel's
-- socket is a parameter: a connect can fail or be in progress, and while there is a socket its
-- callback is called when the connection is established, and when it ends, as often as it likes.
pub mod Warnings
pub mod Tests
use kmod_ceph.Base.{ℕ, ◌≡◌, Bool, true, false, not, ◌&&◌, ◌||◌, ◌⊎◌, if◌then◌else◌}
use kmod_ceph.Crush.Outcome.{Outcome, ok, fault}
use kmod_ceph.Messenger.{
  ConState, closed, preopen, connecting, negotiating, opened, standby, Con, Msg, is_closed,
  con_send, con_open, con_close, con_fault, con_init, connect_ready,
}

-- CON_SOCK_STATE_*.
pub data SockState : Type 0 where
  state_new state_closed state_connecting state_connected state_closing : SockState

-- What the kernel has for the connection.
pub data Tcp : Type 0 where
  no_socket syn_sent established ended : Tcp

-- `sock` tells that there is a socket, and `warned` that a WARN_ON printed.
pub record Sock : Type 0 where
  pub con : Con
  pub sock : Bool
  pub sock_state : SockState
  pub tcp : Tcp
  pub warned : Bool

abbrev pub was_new : SockState → Bool
was_new state_new = true
was_new _ = false

abbrev pub was_closed : SockState → Bool
was_closed state_closed = true
was_closed _ = false

abbrev pub was_connecting : SockState → Bool
was_connecting state_connecting = true
was_connecting _ = false

-- The old states that `con_sock_state_closing` expects.
abbrev pub may_close : SockState → Bool
may_close state_new = false
may_close state_closed = false
may_close _ = true

-- `atomic_xchg`, and the WARN_ON for an old state that is not expected.
abbrev pub exchange : Sock → SockState → Bool → Sock
exchange s new expected = record s { sock_state = new; warned = s.warned || not expected }

unfoldable pub con_sock_state_init : Sock → Sock
con_sock_state_init s = exchange s state_closed (was_new s.sock_state)

unfoldable pub con_sock_state_connecting : Sock → Sock
con_sock_state_connecting s = exchange s state_connecting (was_closed s.sock_state)

unfoldable pub con_sock_state_connected : Sock → Sock
con_sock_state_connected s = exchange s state_connected (was_connecting s.sock_state)

unfoldable pub con_sock_state_closing : Sock → Sock
con_sock_state_closing s = exchange s state_closing (may_close s.sock_state)

unfoldable pub con_sock_state_closed : Sock → Sock
con_sock_state_closed s = exchange s state_closed (not (was_new s.sock_state))

-- TCP_CLOSE and the other states that the callback looks at.
pub data SkState : Type 0 where
  tcp_close tcp_close_wait tcp_established tcp_other : SkState

abbrev mark_closed : Sock → Sock
mark_closed s = record s { con = record s.con { sock_closed = true } }

unfoldable pub sock_state_change : Sock → SkState → Sock
sock_state_change s tcp_close = mark_closed (con_sock_state_closing s)
sock_state_change s tcp_close_wait = mark_closed (con_sock_state_closing s)
sock_state_change s tcp_established = con_sock_state_connected s
sock_state_change s tcp_other = s

pub data ConnectResult : Type 0 where
  create_failed connect_failed in_progress : ConnectResult

-- The two failures return an error.
unfoldable pub tcp_connect : Sock → ConnectResult → Outcome Sock
tcp_connect s result =
    if s.sock
    then fault
    else ok (elim result [
      | create_failed ↦ s
      | connect_failed ↦ con_sock_state_connecting s
      | in_progress ↦ record (con_sock_state_connecting s) { sock = true; tcp = syn_sent }
    ])

-- The socket's part of `con_close_socket`.
unfoldable pub close_socket : Sock → Sock
close_socket s = con_sock_state_closed (record s { sock = false; tcp = no_socket })

abbrev pub is_active : ConState → Bool
is_active connecting = true
is_active negotiating = true
is_active opened = true
is_active _ = false

-- `con_fault`, with its WARN_ON.
unfoldable pub fault_with : ℕ → Sock → Sock
fault_with hz s =
    record (close_socket (record s { warned = s.warned || not (is_active s.con.state) })) {
      con = con_fault hz s.con;
    }

-- `con_work` goes from a failed connect to `con_fault`.
abbrev pub after_connect : ℕ → ConnectResult → Sock → Sock
after_connect hz create_failed s = fault_with hz s
after_connect hz connect_failed s = fault_with hz s
after_connect hz in_progress s = s

-- The user's calls, the work of the connection and the callbacks, one at a time.
pub data Moves (hz : ℕ) (s t : Sock) : Type 0 where
  opens : s.con.state ≡ closed → t ≡ record s { con = con_open s.con } → Moves hz s t
  sends : (msg : Msg) → t ≡ record s { con = con_send s.con msg } → Moves hz s t
  connects :
      (result : ConnectResult) (u : Sock)
      → s.con.state ≡ preopen
      → tcp_connect (record s { con = record s.con { state = connecting } }) result ≡ ok u
      → t ≡ after_connect hz result u
      → Moves hz s t
  establishes :
      s.tcp ≡ syn_sent
      → t ≡ sock_state_change (record s { tcp = established }) tcp_established
      → Moves hz s t
  ends :
      (k : SkState)
      → (k ≡ tcp_close) ⊎ (k ≡ tcp_close_wait)
      → (s.tcp ≡ syn_sent) ⊎ ((s.tcp ≡ established) ⊎ (s.tcp ≡ ended))
      → t ≡ sock_state_change (record s { tcp = ended }) k
      → Moves hz s t
  negotiates :
      s.con.state ≡ connecting
      → t ≡ record s { con = record s.con { state = negotiating } }
      → Moves hz s t
  readies :
      (global_seq : ℕ) (lossy : Bool)
      → s.con.state ≡ negotiating
      → t ≡ record s { con = connect_ready s.con global_seq lossy }
      → Moves hz s t
  fails : is_active s.con.state ≡ true → t ≡ fault_with hz s → Moves hz s t
  hangs_up : s.con.sock_closed ≡ true → t ≡ fault_with hz s → Moves hz s t
  closes : t ≡ record (close_socket s) { con = con_close s.con } → Moves hz s t

pub data Comes (hz : ℕ) (s : Sock) : Sock → Type 0 where
  begin : Comes hz s s
  then_moves : {t u : Sock} → Comes hz s t → Moves hz t u → Comes hz s u

-- The structure that `ceph_con_init` clears, before `con_sock_state_init`.
abbrev pub blank : Sock
blank = record {
  con = con_init;
  sock = false;
  sock_state = state_new;
  tcp = no_socket;
  warned = false;
}
