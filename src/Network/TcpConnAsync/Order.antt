-- ===== src/Network/TcpConnAsync/Order.antt =====
-- The order in which replies leave a connection of source/Network/TcpConnAsync.cpp, for every sequence
-- of sends and ends of writes. Sends that overlap are in Overlap.
use tzrpc.Prelude.{
  ℕ, zero, suc, ◌+◌, ◌*◌, ◌^◌, ◌≤◌, ◌<◌, ◌≡◌, refl, sym, ap, ◌∙◌, none, [], ◌∷◌, ◌++◌, arith,
  length, inl, inr, append-nil, ◌⊎◌, Bool-cases, ◌==◌, ==_iff,
}
use tzrpc.Prelude.Int.{pos, negsuc}
use tzrpc.Core.Endian.{Endian, Bytes}
use tzrpc.Core.Message.{Message, net_str}
use tzrpc.Network.NetConn.{SendStatus, io_buffer_size}
use tzrpc.Network.TcpConnAsync.{
  ConnConf, TcpConnAsync, async_send_message, complete_write, complete_writes,
}
use tzrpc.Network.TcpConnAsync.Parsing.{IsReady}
use tzrpc.Network.TcpConnAsync.Writing.{Owes, complete_write-Owes, complete_write-none}
use tzrpc.Network.TcpConnAsync.Writing.Taking.{async_send_message-Owes, send_refused}

-- A working connection that has not sent anything yet.
pub record IsUnused (c : TcpConnAsync) : Type 0 where
  pub ready : IsReady c
  pub idle : c.send_status ≡ SendStatus.done
  pub no_write : c.net.socket.writes ≡ []
  pub nothing_written : c.net.socket.written ≡ []
  pub nothing_queued : c.send_bound.buffer.bytes ≡ []

-- Such a connection after any sends and any ends of writes without an error; the bytes are those of
-- the messages that were taken, in the order of the calls. A send finds room in the buffer.
pub data Sent (host : Endian) (conf : ConnConf) : TcpConnAsync → Bytes → Type 0 where
  opened : (c : TcpConnAsync) → IsUnused c → Sent host conf c []
  taken :
      {c : TcpConnAsync} {out : Bytes} (m : Message)
      → Sent host conf c out
      → length c.send_bound.buffer.bytes + length (net_str host m) < 2 ^ 32
      → (async_send_message host conf c m).0 ≡ pos 0
      → Sent host conf (async_send_message host conf c m).1 (out ++ net_str host m)
  refused :
      {c : TcpConnAsync} {out : Bytes} (m : Message)
      → Sent host conf c out
      → (async_send_message host conf c m).0 ≡ negsuc 0
      → Sent host conf (async_send_message host conf c m).1 out
  ended :
      {c : TcpConnAsync} {out : Bytes}
      → Sent host conf c out
      → Sent host conf (complete_write conf c none) out

unused-Owes : (c : TcpConnAsync) → IsUnused c → Owes c []
unused-Owes c u = record {
  ready = u.ready;
  all = rw (u.nothing_written, u.nothing_queued) refl;
  small = omega (arith, ap length u.nothing_queued);
  mode = inr (u.idle, u.no_write, u.nothing_queued);
}

module _ (host : Endian) (conf : ConnConf) where
  Sent-Owes : {c : TcpConnAsync} {out : Bytes} → Sent host conf c out → Owes c out
  Sent-Owes (opened c u) = unused-Owes c u
  Sent-Owes (taken m s room e) = async_send_message-Owes host conf _ m _ (Sent-Owes s) room e
  Sent-Owes (refused m s e) = rw (send_refused host conf _ m e) (Sent-Owes s)
  Sent-Owes (ended s) = (complete_write-Owes conf _ _ (Sent-Owes s)).owes

  abbrev pub Mode : TcpConnAsync → Bytes → Type 0
  Mode c out =
      ((b : Bytes) × (c.net.socket.writes ≡ b ∷ []))
      ⊎ ((c.net.socket.writes ≡ []) × (c.net.socket.written ≡ out))

  Owes-Mode : {c : TcpConnAsync} {out : Bytes} → Owes c out → Mode c out
  Owes-Mode {c} {out} owes = by_mode owes.mode
    where
      by_mode :
          ((c.send_status ≡ SendStatus.sending) × ((b : Bytes) × (c.net.socket.writes ≡ b ∷ [])))
            ⊎ ((c.send_status ≡ SendStatus.done)
                × (c.net.socket.writes ≡ [])
                × (c.send_bound.buffer.bytes ≡ []))
          → Mode c out
      by_mode (inl (busy, one)) = inl one
      by_mode (inr (idle, e, empty)) = inr (
        e,
        sym (append-nil c.net.socket.written)
            ∙ ap (◌++◌ c.net.socket.written) (sym empty)
            ∙ owes.all,
      )

  -- On a working connection that has sent nothing before and has no errors, and in whatever order
  -- sends and ends of writes follow each other, each run to its end before the next begins, the
  -- bytes that went to the socket followed by those in the buffer are the taken messages one after
  -- the other, whole and in the order of the calls. Exactly one write is in progress, or none is
  -- and all the bytes went to the socket. Sends of several threads that overlap are not among
  -- these. Each send finds room, so that the buffer stays below 2 ^ 32 bytes.
  pub Sent-in_order :
      {c : TcpConnAsync} {out : Bytes}
      → Sent host conf c out
      → (c.net.socket.written ++ c.send_bound.buffer.bytes ≡ out)
        × (((b : Bytes) × (c.net.socket.writes ≡ b ∷ []))
            ⊎ ((c.net.socket.writes ≡ []) × (c.net.socket.written ≡ out)))
  Sent-in_order s = ((Sent-Owes s).all, Owes-Mode (Sent-Owes s))

  all_written :
      (c : TcpConnAsync) {out : Bytes}
      → c.net.socket.writes ≡ []
      → Mode c out
      → c.net.socket.written ≡ out
  all_written c none_open (inl (b, e)) = absurd (omega (arith, ap length e, ap length none_open))
  all_written c none_open (inr (e, all)) = all

  idle_writes : (k : ℕ) (c : TcpConnAsync) → c.net.socket.writes ≡ [] → complete_writes conf k c ≡ c
  unfolding complete_writes
  idle_writes zero c none_open = refl
  idle_writes (suc k) c none_open =
      ap (complete_writes conf k) (complete_write-none conf c none_open) ∙ idle_writes k c none_open

  -- Nothing stays behind: after any such sequence of sends and ends of writes, each run to its end
  -- before the next begins, as many ends of writes as the buffer has blocks of 2048 bytes, and one
  -- more, bring every byte of the taken messages to the socket and leave no write in progress.
  pub complete_writes-drains :
      (k : ℕ) {c : TcpConnAsync} {out : Bytes}
      → Sent host conf c out
      → length c.send_bound.buffer.bytes + io_buffer_size ≤ io_buffer_size * k
      → ((complete_writes conf k c).net.socket.written ≡ out)
        × ((complete_writes conf k c).net.socket.writes ≡ [])
  unfolding complete_writes
  complete_writes-drains zero s enough = absurd (omega arith)
  complete_writes-drains (suc k) {c} {out} s enough =
      let p = complete_write-Owes conf c out (Sent-Owes s) in
      let d : TcpConnAsync = complete_write conf c none in
      elim (Bool-cases (length c.send_bound.buffer.bytes == 0)) [
        | inl e ↦
            let none_open : d.net.socket.writes ≡ [] = p.closed ((==_iff _ 0).0 e) in
            rw (idle_writes k d none_open)
              (all_written d none_open (Owes-Mode (Sent-Owes (ended s))), none_open)
        | inr e ↦
            let some_left : 0 < length c.send_bound.buffer.bytes = ground arith in
            complete_writes-drains k (ended s) (omega (arith, p.shorter))
      ]
