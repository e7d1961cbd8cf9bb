-- ===== src/Messenger/Sock/Warnings.antt =====
-- The states of the socket fit those of the connection, so that no WARN_ON prints.
use kmod_ceph.Base.{◌≡◌, ◌⊎◌, true, false}
use kmod_ceph.Messenger.Sock.{
  state_closed, state_connecting, state_connected, state_closing, no_socket, syn_sent, established,
  ended, Sock, is_active,
}

-- Without a socket.
pub record IsIdle (s : Sock) : Type 0 where
  pub idle : is_active s.con.state ≡ false
  pub no_sock : s.sock ≡ false
  pub shut : s.sock_state ≡ state_closed
  pub none_left : s.tcp ≡ no_socket
  pub unmarked : s.con.sock_closed ≡ false
  pub quiet : s.warned ≡ false

-- With a socket, whose state is as the callbacks left it.
pub record IsLive (s : Sock) : Type 0 where
  pub active : is_active s.con.state ≡ true
  pub has_sock : s.sock ≡ true
  pub fits :
      (s.tcp ≡ syn_sent) × (s.sock_state ≡ state_connecting)
      ⊎ ((s.tcp ≡ established) × (s.sock_state ≡ state_connected)
          ⊎ (s.tcp ≡ ended) × (s.sock_state ≡ state_closing))
  pub quiet : s.warned ≡ false

abbrev pub Fits : Sock → Type 0
Fits s = IsIdle s ⊎ IsLive s
