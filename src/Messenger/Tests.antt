-- ===== src/Messenger/Tests.antt =====
-- A message that is lost with its socket and sent again, and the theorem at this run.
use kmod_ceph.Base.{ℕ, ◌≡◌, refl, true, false, none, some, [], ◌∷◌, arith}
use kmod_ceph.Base.Int.{◌-ℤ◌}
use kmod_ceph.Messenger.{
  Con, Msg, message, next, opened, con_init, con_open, con_send, enqueue, clear_standby,
  connect_ready, do_next, prepare_write_message, move_msg, number_msg, check_seq, con_fault,
  skip_message, con_close_socket, rest_or_retry, requeue, next_delay,
}
use kmod_ceph.Messenger.Link.{
  Link, new_msg, broken, read_msg, Event, sends, writes, reads, breaks, reopens, start, after,
  new_link,
}
use kmod_ceph.Messenger.Order.{IsOrdered}
use kmod_ceph.Messenger.Delivery.{ReadsNext, reaches-Delivers}

abbrev first : Msg
first = record { body = 7; seq = 1; needs_out_seq = false }

abbrev ready : Link → Link
ready s = record s {
  sender = connect_ready s.sender 1 false;
  receiver = connect_ready s.receiver 1 false;
}

abbrev given : Link
given = record (ready new_link) {
  sender = con_send (ready new_link).sender (new_msg 7);
  sent = 7 ∷ [];
}

-- The sender after it wrote the message, in its n-th session.
abbrev wrote_it : ℕ → Con → Con
wrote_it n con = record con {
  state = opened;
  write_pending = true;
  out_sent = first ∷ [];
  out_msg = some first;
  out_seq = 1;
  connect_seq = n;
  peer_global_seq = 1;
}

abbrev written : Link
written = record given { sender = wrote_it 1 con_init; wire = first ∷ [] }

abbrev second_try : Link
second_try = ready (broken 100 written)

abbrev rewritten : Link
rewritten = record second_try {
  sender = wrote_it 2 (record con_init { backoff = true });
  wire = first ∷ [];
}

abbrev read_it : Link
read_it = read_msg 100 rewritten false first [] next

first_write : Event 100 false given written
unfolding connect_ready con_send enqueue clear_standby do_next prepare_write_message move_msg
    number_msg con_open
first_write = writes written.sender (message none first) refl refl

second_write : Event 100 false second_try rewritten
unfolding connect_ready con_fault con_close_socket rest_or_retry requeue next_delay do_next
    prepare_write_message move_msg number_msg
second_write = writes rewritten.sender (message none first) refl refl

the_read : Event 100 false rewritten read_it
unfolding check_seq ◌-ℤ◌ connect_ready con_fault con_close_socket rest_or_retry requeue con_open
the_read = reads false first [] refl refl

the_send : Event 100 false (ready new_link) given
unfolding connect_ready
the_send = sends 7 refl refl

-- The same message, when its allocation says to skip it.
abbrev skipped_it : Link
skipped_it = read_msg 100 rewritten true first [] next

skips_it : (skipped_it.delivered ≡ []) × (skipped_it.receiver.in_seq ≡ 1)
unfolding skip_message connect_ready con_fault con_close_socket rest_or_retry requeue con_open
skips_it = (refl, refl)

reaches-Delivers_example : IsOrdered read_it × ReadsNext read_it []
reaches-Delivers_example =
    reaches-Delivers 100 read_it
      (after
        (after
          (after
            (after (after (after (after start (reopens 1 refl)) the_send) first_write)
              (breaks refl))
            (reopens 1 refl))
          second_write)
        the_read)
      (omega arith)
