-- ===== src/Network/TcpConnAsync/Writing.antt =====
-- The sending side of source/Network/TcpConnAsync.cpp: what reaches the socket, and in which order.
pub mod Taking
use tzrpc.Prelude.{
  ℕ, ◌+◌, ◌-◌, ◌^◌, ◌≤◌, ◌<◌, ◌≡◌, refl, ap, ◌∙◌, true, none, [], ◌∷◌, ◌++◌, arith, length, take,
  drop, inl, inr, append_assoc, ◌⊎◌, min, take-append_self, take-append-drop, length-take,
  length-drop, is_empty, ==_iff, Bool-cases, ◌==◌,
}
use tzrpc.Core.Endian.{Bytes}
use tzrpc.Core.Buffer.{get_length}
use tzrpc.Core.Buffer.Queue.{consume_raw-some, get_length_small}
use tzrpc.Network.NetConn.{SendStatus, io_buffer_size}
use tzrpc.Network.TcpConnAsync.{
  ConnConf, TcpConnAsync, revoke_ops_cancel_timeout, is_sending, start_write, do_write,
  write_handler, forget_write, complete_write,
}
use tzrpc.Network.TcpConnAsync.Parsing.{IsReady}

-- A connection that is to have sent `out`: it is what went to the socket, then the buffer, in order.
-- Either one write is in progress, or none is and the buffer is empty.
pub record Owes (c : TcpConnAsync) (out : Bytes) : Type 0 where
  pub ready : IsReady c
  pub all : c.net.socket.written ++ c.send_bound.buffer.bytes ≡ out
  pub small : length c.send_bound.buffer.bytes < 2 ^ 32
  pub mode :
      ((c.send_status ≡ SendStatus.sending) × ((b : Bytes) × (c.net.socket.writes ≡ b ∷ [])))
      ⊎ ((c.send_status ≡ SendStatus.done)
          × (c.net.socket.writes ≡ [])
          × (c.send_bound.buffer.bytes ≡ []))

-- What a write puts on the socket, and what it leaves.
pub record Started (n : ℕ) (c d : TcpConnAsync) : Type 0 where
  pub stat : d.net.conn_stat ≡ c.net.conn_stat
  pub cancelled : d.was_cancelled ≡ c.was_cancelled
  pub status : d.send_status ≡ SendStatus.sending
  pub writes : d.net.socket.writes ≡ c.net.socket.writes ++ (take n c.send_bound.buffer.bytes ∷ [])
  pub written : d.net.socket.written ≡ c.net.socket.written ++ take n c.send_bound.buffer.bytes
  pub block : take n d.send_bound.io_block ≡ take n c.send_bound.buffer.bytes
  pub left : d.send_bound.buffer.bytes ≡ drop n c.send_bound.buffer.bytes

pub start_write-Started :
    (conf : ConnConf) (c : TcpConnAsync) (n : ℕ)
    → 0 < n
    → n ≤ length c.send_bound.buffer.bytes
    → Started n c (start_write conf c n)
unfolding start_write
start_write-Started conf c n some_left le = ground (
  arith,
  consume_raw-some c.send_bound.buffer c.send_bound.io_block n some_left le,
  take-append_self n (take n c.send_bound.buffer.bytes) (drop n c.send_bound.io_block),
  length-take n c.send_bound.buffer.bytes,
)

pub do_write_busy :
    (conf : ConnConf) (c : TcpConnAsync)
    → c.send_status ≡ SendStatus.sending
    → do_write conf c ≡ (true, c)
unfolding do_write
do_write_busy conf c busy = rw (ap is_sending busy)

do_write_empty :
    (conf : ConnConf) (c : TcpConnAsync)
    → IsReady c
    → c.send_status ≡ SendStatus.done
    → c.send_bound.buffer.bytes ≡ []
    → do_write conf c ≡ (true, record c { send_status = SendStatus.done })
unfolding do_write get_length
do_write_empty conf c ready idle empty = ground arith

do_write_starts :
    (conf : ConnConf) (c : TcpConnAsync)
    → IsReady c
    → c.send_status ≡ SendStatus.done
    → 0 < length c.send_bound.buffer.bytes
    → length c.send_bound.buffer.bytes < 2 ^ 32
    → do_write conf c
      ≡ (true, start_write conf c (min (length c.send_bound.buffer.bytes) io_buffer_size))
unfolding do_write
do_write_starts conf c ready idle some_left small =
    ground (arith, get_length_small c.send_bound.buffer small)

nil_of_length : (bs : Bytes) → length bs ≡ 0 → bs ≡ []
nil_of_length [] e = refl
nil_of_length (b ∷ bs) e = absurd (omega arith)

-- The debt stays, up to 2048 bytes leave the buffer, and with an empty buffer no write is started.
pub record Progress (c d : TcpConnAsync) (out : Bytes) : Type 0 where
  pub owes : Owes d out
  pub shorter : length d.send_bound.buffer.bytes ≡ length c.send_bound.buffer.bytes - io_buffer_size
  pub closed : length c.send_bound.buffer.bytes ≡ 0 → d.net.socket.writes ≡ []

-- `do_write` with nothing in progress starts a write of at most 2048 bytes, or has nothing to write.
pub do_write-Owes :
    (conf : ConnConf) (c : TcpConnAsync) (out : Bytes)
    → IsReady c
    → c.send_status ≡ SendStatus.done
    → c.net.socket.writes ≡ []
    → c.net.socket.written ++ c.send_bound.buffer.bytes ≡ out
    → length c.send_bound.buffer.bytes < 2 ^ 32
    → Progress c (do_write conf c).1 out
do_write-Owes conf c out ready idle none_open all small =
    elim (Bool-cases (length c.send_bound.buffer.bytes == 0)) [
      | inl e ↦
          let empty : c.send_bound.buffer.bytes ≡ [] = nil_of_length _ ((==_iff _ 0).0 e) in
          rw (do_write_empty conf c ready idle empty) (record {
            owes = record {
              ready = record { works = ready.works; live = ready.live };
              all = all;
              small = small;
              mode = inr (refl, none_open, empty);
            };
            shorter = omega (arith, (==_iff _ 0).0 e);
            closed = λ _. none_open;
          })
      | inr e ↦
          let b : Bytes = c.send_bound.buffer.bytes in
          let n : ℕ = min (length b) io_buffer_size in
          let some_left : 0 < length b = ground arith in
          let s = start_write-Started conf c n (omega arith) (omega arith) in
          rw (do_write_starts conf c ready idle some_left small) (record {
            owes = record {
              ready = record { works = s.stat ∙ ready.works; live = s.cancelled ∙ ready.live };
              all =
                  rw (s.written, s.left)
                    (append_assoc c.net.socket.written (take n b) (drop n b)
                      ∙ ap (◌++◌ c.net.socket.written) (take-append-drop n b)
                      ∙ all);
              small = rw (s.left) (omega (arith, length-drop n b));
              mode = inl (s.status, (take n b, s.writes ∙ rw none_open));
            };
            shorter = rw (s.left) (omega (arith, length-drop n b));
            closed = λ z. absurd (omega arith);
          })
    ]

pub complete_write-none :
    (conf : ConnConf) (c : TcpConnAsync) → c.net.socket.writes ≡ [] → complete_write conf c none ≡ c
unfolding complete_write
complete_write-none conf c none_open = ground arith

complete_write_some :
    (conf : ConnConf) (c : TcpConnAsync) (b : Bytes)
    → c.net.socket.writes ≡ b ∷ []
    → complete_write conf c none ≡ write_handler conf none (forget_write c)
unfolding complete_write
complete_write_some conf c b open_one = rw (ap is_empty open_one)

write_handler-Progress :
    (conf : ConnConf) (c : TcpConnAsync) (out : Bytes)
    → IsReady c
    → c.net.socket.writes ≡ []
    → c.net.socket.written ++ c.send_bound.buffer.bytes ≡ out
    → length c.send_bound.buffer.bytes < 2 ^ 32
    → Progress c (write_handler conf none c) out
unfolding write_handler revoke_ops_cancel_timeout
write_handler-Progress conf c out ready none_open all small =
    let ended : TcpConnAsync = record (revoke_ops_cancel_timeout c) {
      send_status = SendStatus.done;
    } in
    let p =
      do_write-Owes conf ended out (record { works = ready.works; live = ready.live }) refl
        none_open all small in
    record { owes = p.owes; shorter = p.shorter; closed = p.closed }

-- The end of a write with no error keeps the debt, and takes up to 2048 bytes off the buffer.
pub complete_write-Owes :
    (conf : ConnConf) (c : TcpConnAsync) (out : Bytes)
    → Owes c out
    → Progress c (complete_write conf c none) out
complete_write-Owes conf c out owes = by_mode owes.mode
  where
    by_mode :
        ((c.send_status ≡ SendStatus.sending) × ((b : Bytes) × (c.net.socket.writes ≡ b ∷ [])))
          ⊎ ((c.send_status ≡ SendStatus.done)
              × (c.net.socket.writes ≡ [])
              × (c.send_bound.buffer.bytes ≡ []))
        → Progress c (complete_write conf c none) out
    by_mode (inl (busy, (b, open_one))) =
        let p =
          write_handler-Progress conf (forget_write c) out
            (record { works = owes.ready.works; live = owes.ready.live }) (rw open_one) owes.all
            owes.small in
        rw (complete_write_some conf c b open_one)
          (record { owes = p.owes; shorter = p.shorter; closed = p.closed })
    by_mode (inr (idle, none_open, empty)) =
        rw (complete_write-none conf c none_open) (record {
          owes = owes;
          shorter = omega (arith, ap length empty);
          closed = λ _. none_open;
        })
