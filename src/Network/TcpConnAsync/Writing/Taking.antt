-- ===== src/Network/TcpConnAsync/Writing/Taking.antt =====
-- The messages handed to `async_send_message` of source/Network/TcpConnAsync.cpp.
use tzrpc.Prelude.{
  ◌+◌, ◌^◌, ◌<◌, ◌≡◌, sym, ap, ◌∙◌, [], ◌∷◌, ◌++◌, arith, length, length-append, inl, inr,
  append_assoc, ◌⊎◌,
}
use tzrpc.Prelude.Int.{pos, negsuc}
use tzrpc.Core.Endian.{Endian, Bytes}
use tzrpc.Core.Message.{Message, net_str}
use tzrpc.Core.Buffer.{append}
use tzrpc.Core.Buffer.Queue.{append-net_str}
use tzrpc.Network.NetConn.{SendStatus}
use tzrpc.Network.TcpConnAsync.{ConnConf, TcpConnAsync, do_write, async_send_message}
use tzrpc.Network.TcpConnAsync.Writing.{Owes, do_write_busy, do_write-Owes}

-- A message that is taken is owed too; one that is refused changes nothing.
module _ (host : Endian) (conf : ConnConf) (c : TcpConnAsync) (m : Message) where
  abbrev queued_message : TcpConnAsync
  queued_message = record c {
    send_bound = record (c.send_bound) { buffer = (append host c.send_bound.buffer m).0 };
  }

  send_taken :
      (async_send_message host conf c m).0 ≡ pos 0
      → (async_send_message host conf c m).1 ≡ (do_write conf queued_message).1
  unfolding async_send_message
  send_taken e = ground arith

  pub send_refused :
      (async_send_message host conf c m).0 ≡ negsuc 0 → (async_send_message host conf c m).1 ≡ c
  unfolding async_send_message
  send_refused e = ground arith

  pub async_send_message-Owes :
      (out : Bytes)
      → Owes c out
      → length c.send_bound.buffer.bytes + length (net_str host m) < 2 ^ 32
      → (async_send_message host conf c m).0 ≡ pos 0
      → Owes (async_send_message host conf c m).1 (out ++ net_str host m)
  async_send_message-Owes out owes room taken = rw (send_taken taken) (by_mode owes.mode)
    where
      bytes :
          (append host c.send_bound.buffer m).0.bytes ≡ c.send_bound.buffer.bytes ++ net_str host m
      bytes = (append-net_str host c.send_bound.buffer m).0

      size : length (append host c.send_bound.buffer m).0.bytes < 2 ^ 32
      size = rw bytes (omega (arith, length-append c.send_bound.buffer.bytes (net_str host m)))

      all :
          c.net.socket.written ++ (append host c.send_bound.buffer m).0.bytes
          ≡ out ++ net_str host m
      all = rw bytes (
          sym (append_assoc c.net.socket.written c.send_bound.buffer.bytes (net_str host m))
          ∙ ap (λ (bs : Bytes). bs ++ net_str host m) owes.all)

      by_mode :
          ((c.send_status ≡ SendStatus.sending) × ((b : Bytes) × (c.net.socket.writes ≡ b ∷ [])))
            ⊎ ((c.send_status ≡ SendStatus.done)
                × (c.net.socket.writes ≡ [])
                × (c.send_bound.buffer.bytes ≡ []))
          → Owes (do_write conf queued_message).1 (out ++ net_str host m)
      by_mode (inl (busy, one)) = rw (do_write_busy conf queued_message busy) (record {
        ready = record { works = owes.ready.works; live = owes.ready.live };
        all = all;
        small = size;
        mode = inl (busy, one);
      })
      by_mode (inr (idle, none_open, empty)) =
          (do_write-Owes conf queued_message (out ++ net_str host m)
            (record { works = owes.ready.works; live = owes.ready.live }) idle none_open all
            size).owes
