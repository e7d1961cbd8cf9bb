-- ===== src/Messenger/Sock/Tests.antt =====
-- A socket that ends before the connection is established, and the theorem at this run.
use kmod_ceph.Base.{true, false}
use kmod_ceph.Messenger.{connecting, con_init, con_open}
use kmod_ceph.Messenger.Sock.{
  Sock, tcp_close, syn_sent, state_connecting, con_sock_state_init, sock_state_change, blank, ended,
}

abbrev opened_con : Sock
opened_con = record (con_sock_state_init blank) { con = con_open con_init }

abbrev trying : Sock
trying = record {
  con = record con_init { state = connecting };
  sock = true;
  sock_state = state_connecting;
  tcp = syn_sent;
  warned = false;
}

abbrev ended_early : Sock
ended_early = sock_state_change (record trying { tcp = ended }) tcp_close
