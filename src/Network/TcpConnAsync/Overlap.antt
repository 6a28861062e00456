-- ===== src/Network/TcpConnAsync/Overlap.antt =====
-- Sends of source/Network/TcpConnAsync.cpp that overlap: `async_send_message` is called by the threads of
-- the executors, outside the strand, and `do_write` tests before it takes the lock.
use tzrpc.Prelude.{
  ℕ, ◌-◌, ◌^◌, ◌<◌, ◌≡◌, refl, ap, ◌∙◌, Bool, true, false, not, ◌&&◌, [], ◌∷◌, ◌++◌, arith, length,
  length-drop, take, drop, min, if◌then◌else◌,
}
use tzrpc.Core.Endian.{Endian, Bytes}
use tzrpc.Core.Message.{Message, net_str}
use tzrpc.Core.Buffer.{append}
use tzrpc.Core.Buffer.Queue.{append-net_str, get_length_small}
use tzrpc.Network.NetConn.{SendStatus, is_working, io_buffer_size}
use tzrpc.Network.TcpConnAsync.{
  ConnConf, TcpConnAsync, is_sending, over_limit, async_send_message, start_write, write_locked,
}
use tzrpc.Network.TcpConnAsync.Parsing.{IsReady}
use tzrpc.Network.TcpConnAsync.Writing.{start_write-Started}

-- The tests of `do_write` outside the lock let a call go on.
abbrev pub passes_tests : TcpConnAsync → Bool
passes_tests c = not (is_sending c.send_status) && is_working c.net.conn_stat && not c.was_cancelled

-- Two calls of `do_write` that have both made their tests before either takes the lock.
unfoldable pub overlap : ConnConf → TcpConnAsync → TcpConnAsync
overlap conf c = if passes_tests c then (write_locked conf (write_locked conf c).1).1 else c

abbrev pub queue : Endian → Message → TcpConnAsync → TcpConnAsync
queue host m c = record c {
  send_bound = record (c.send_bound) { buffer = (append host c.send_bound.buffer m).0 };
}

-- Two calls of `async_send_message` which, if neither message is over the limit, have both appended
-- theirs before they come to `do_write`.
unfoldable pub send_both : Endian → ConnConf → Message → Message → TcpConnAsync → TcpConnAsync
unfolding overlap async_send_message
send_both host conf m n c =
    if over_limit conf m
    then (async_send_message host conf c n).1
    else if over_limit conf n
    then (async_send_message host conf c m).1
    else overlap conf (queue host n (queue host m c))

write_locked_starts :
    (conf : ConnConf) (c : TcpConnAsync)
    → 0 < length c.send_bound.buffer.bytes
    → length c.send_bound.buffer.bytes < 2 ^ 32
    → (write_locked conf c).1
      ≡ start_write conf c (min (length c.send_bound.buffer.bytes) io_buffer_size)
write_locked_starts conf c some_left small =
    ground (arith, get_length_small c.send_bound.buffer small)

-- The two writes that follow each other, on a connection that could start one and has more than a block.
module _ (conf : ConnConf) (c : TcpConnAsync) (ready : IsReady c)
    (idle : c.send_status ≡ SendStatus.done)
    (long : io_buffer_size < length c.send_bound.buffer.bytes)
    (small : length c.send_bound.buffer.bytes < 2 ^ 32) where
  abbrev bytes : Bytes
  bytes = c.send_bound.buffer.bytes

  abbrev started : TcpConnAsync
  started = start_write conf c io_buffer_size

  abbrev rest : ℕ
  rest = min (length bytes - io_buffer_size) io_buffer_size

  first_started : (write_locked conf c).1 ≡ started
  first_started =
      write_locked_starts conf c (omega arith) small ∙ ap (start_write conf c) (omega arith)

  started_left : started.send_bound.buffer.bytes ≡ drop io_buffer_size bytes
  started_left = (start_write-Started conf c io_buffer_size (omega arith) (omega arith)).left

  started_length : length started.send_bound.buffer.bytes ≡ length bytes - io_buffer_size
  started_length = ap length started_left ∙ length-drop io_buffer_size bytes

  second_started : (write_locked conf started).1 ≡ start_write conf started rest
  second_started =
      write_locked_starts conf started (omega (arith, started_length))
        (omega (arith, started_length))
      ∙ ap (λ (n : ℕ). start_write conf started (min n io_buffer_size)) started_length

  passes : passes_tests c ≡ true
  passes = ground (arith, idle, ready.works, ready.live)

  overlap_lem : overlap conf c ≡ start_write conf started rest
  unfolding overlap
  overlap_lem =
      ap (λ (b : Bool). if b then (write_locked conf (write_locked conf c).1).1 else c) passes
      ∙ ap (λ (d : TcpConnAsync). (write_locked conf d).1) first_started
      ∙ second_started

  overlap-two_writes :
      c.net.socket.writes ≡ []
      → ((overlap conf c).net.socket.writes
          ≡ take io_buffer_size bytes ∷ take rest (drop io_buffer_size bytes) ∷ [])
        × (take rest (overlap conf c).send_bound.io_block ≡ take rest (drop io_buffer_size bytes))
  overlap-two_writes none_open =
      let s = start_write-Started conf c io_buffer_size (omega arith) (omega arith) in
      let t = start_write-Started conf started rest (omega arith) (omega (arith, started_length)) in
      (
        ap (λ (d : TcpConnAsync). d.net.socket.writes) overlap_lem
            ∙ t.writes
            ∙ rw (s.writes, s.left, none_open) refl,
        ap (λ (d : TcpConnAsync). take rest d.send_bound.io_block) overlap_lem
            ∙ t.block
            ∙ ap (take rest) started_left,
      )

module _ (host : Endian) (conf : ConnConf) (m n : Message) (c : TcpConnAsync) where
  send_both-bytes :
      c.send_bound.buffer.bytes ≡ []
      → (queue host n (queue host m c)).send_bound.buffer.bytes ≡ net_str host m ++ net_str host n
  send_both-bytes empty =
      (append-net_str host (append host c.send_bound.buffer m).0 n).0
      ∙ ap (λ (bs : Bytes). bs ++ net_str host n)
          ((append-net_str host c.send_bound.buffer m).0
            ∙ ap (λ (bs : Bytes). bs ++ net_str host m) empty)

  -- The bytes that two messages put on the wire.
  abbrev wire : Bytes
  wire = net_str host m ++ net_str host n

  abbrev left_over : ℕ
  left_over = min (length wire - io_buffer_size) io_buffer_size

  -- Two sends that overlap, on a working connection that has nothing to send, start two writes at
  -- once, where their messages are together longer than a block of 2048 bytes: the second write is
  -- started while the first is in progress, and its bytes are put over those of the first, in the
  -- block that both writes read from. No message is over the limit, and they are shorter than 2 ^
  -- 32 bytes.
  pub send_both-two_writes :
      over_limit conf m ≡ false
      → over_limit conf n ≡ false
      → IsReady c
      → c.send_status ≡ SendStatus.done
      → c.net.socket.writes ≡ []
      → c.send_bound.buffer.bytes ≡ []
      → io_buffer_size < length wire
      → length wire < 2 ^ 32
      → ((send_both host conf m n c).net.socket.writes
          ≡ take io_buffer_size wire ∷ take left_over (drop io_buffer_size wire) ∷ [])
        × (take left_over (send_both host conf m n c).send_bound.io_block
            ≡ take left_over (drop io_buffer_size wire))
  unfolding send_both
  send_both-two_writes m_taken n_taken ready idle none_open empty long small =
      let queued = queue host n (queue host m c) in
      let same : queued.send_bound.buffer.bytes ≡ wire = send_both-bytes empty in
      let two =
        overlap-two_writes conf queued (record { works = ready.works; live = ready.live }) idle
          (omega (arith, ap length same)) (omega (arith, ap length same)) none_open in
      rw (m_taken, n_taken) (rw⁻¹ same two)
