-- ===== src/Client/TcpConnAsync.antt =====
-- source/Client/TcpConnAsync.{h,cpp}: the client's connection for asynchronous calls.
-- As in the model of the server's connection, `do_read` and `do_read_msg` take the calls that they make
-- as `next`, and `read_loop` bounds those by fuel. `wrapper_handler` may be an empty function.
pub mod Simulation
pub mod Stream
pub mod Order
pub mod Refinement
use mathlib.Core.Option
use tzrpc.Prelude.{
  ℕ, zero, suc, ◌+◌, ◌-◌, ◌*◌, min, Bool, true, false, ◌||◌, ◌&&◌, not, Option, none, some, List,
  [], ◌∷◌, ltb, ◌==◌, if◌then◌else◌, length, drop, take, is_empty,
}
use tzrpc.Core.Endian.{Endian, Bytes}
use tzrpc.Core.Message.{
  Message, header_magic, header_version, header_size, empty_message, from_net_endian, load_header,
}
use tzrpc.Core.Buffer.{get_length, append, append_internal, consume, consume_raw}
use tzrpc.Network.NetConn.{
  NetConn, ConnStat, SendStatus, ErrorCode, IoBound, ReadOp, ShutdownType, Socket, head, body,
  is_working, async_read, async_write, sock_shutdown_and_close, empty_bound, io_buffer_size,
  fresh_socket,
}
use tzrpc.Network.TcpConnAsync.{closes_socket, is_sending}
use tzrpc.Network.TcpConnAsync.Read.{
  ParseStatus, Phase, parsed, again, failed, in_head, in_body, read_fuel,
}
use tzrpc.Client.TcpConnSync.{ClientLimits}

pub record TcpConnAsync : Type 0 where
  pub net : NetConn
  pub recv_bound : IoBound
  pub send_status : SendStatus
  pub send_bound : IoBound

-- The constructor sets the state to working.
unfoldable pub new_connection : Socket → TcpConnAsync
new_connection s = record {
  net = record { conn_stat = ConnStat.working; socket = s };
  recv_bound = empty_bound;
  send_status = SendStatus.done;
  send_bound = empty_bound;
}

unfoldable pub shutdown_and_close_socket : TcpConnAsync → TcpConnAsync
shutdown_and_close_socket c = record c { net = sock_shutdown_and_close c.net ShutdownType.both }

unfoldable pub handle_socket_ec : ErrorCode → TcpConnAsync → Bool × TcpConnAsync
handle_socket_ec ec c =
    let close_socket = closes_socket ec in
    if close_socket then (close_socket, shutdown_and_close_socket c) else (close_socket, c)

-- The block of `do_write` under the lock. `consume_raw` finds the bytes that it is asked for, so its
-- `none` does not occur.
unfoldable pub start_write : TcpConnAsync → ℕ → TcpConnAsync
start_write c to_write =
    elim (consume_raw c.send_bound.buffer (some c.send_bound.io_block) to_write) [
      | some (ok, some block, rest) ↦ record c {
        send_bound = record (c.send_bound) { io_block = block; buffer = rest };
        send_status = SendStatus.sending;
        net = record (c.net) { socket = async_write c.net.socket (take to_write block) };
      }
      | some (ok, none, rest) ↦ c
      | none ↦ c
    ]

-- A call that runs to its end before the next one begins; as in the server, the source tests outside the
-- lock.
unfoldable pub do_write : TcpConnAsync → Bool × TcpConnAsync
do_write c =
    if is_sending c.send_status
    then (true, c)
    else if not (is_working c.net.conn_stat)
    then (false, c)
    else if get_length c.send_bound.buffer == 0
    then (true, c)
    else (true, start_write c (min (get_length c.send_bound.buffer) io_buffer_size))

unfoldable pub write_handler : Option ErrorCode → TcpConnAsync → TcpConnAsync
write_handler (some ec) c = (handle_socket_ec ec c).1
write_handler none c = (do_write (record c { send_status = SendStatus.done })).1

unfoldable pub send_net_message :
    Endian → ClientLimits → TcpConnAsync → Message → Bool × TcpConnAsync
send_net_message host limits c msg =
    if not (limits.send_max_msg_size == 0) && ltb limits.send_max_msg_size msg.header.length
    then (false, c)
    else do_write (record c {
      send_bound = record (c.send_bound) { buffer = (append host c.send_bound.buffer msg).0 };
    })

-- Asio has ended the write, or the read, that was started first.
abbrev pub forget_write : TcpConnAsync → TcpConnAsync
forget_write c = record c {
  net = record (c.net) { socket = record (c.net.socket) { writes = drop 1 c.net.socket.writes } };
}

abbrev pub forget_read : TcpConnAsync → TcpConnAsync
forget_read c = record c {
  net = record (c.net) { socket = record (c.net.socket) { reads = drop 1 c.net.socket.reads } };
}

-- The handler of a write is called where one is in progress.
unfoldable pub complete_write : TcpConnAsync → Option ErrorCode → TcpConnAsync
complete_write c ec = if is_empty c.net.socket.writes then c else write_handler ec (forget_write c)

unfoldable pub complete_writes : ℕ → TcpConnAsync → TcpConnAsync
complete_writes zero c = c
complete_writes (suc k) c = complete_writes k (complete_write c none)

unfoldable pub parse_header : Endian → ClientLimits → TcpConnAsync → ParseStatus × TcpConnAsync
parse_header host limits c =
    if ltb (get_length c.recv_bound.buffer) header_size
    then (again, c)
    else let (ok, head_str, buffer) = consume c.recv_bound.buffer [] header_size in
      let header = from_net_endian host (load_header host head_str) in
      let c' = record c {
        recv_bound = record (c.recv_bound) { header = header; buffer = buffer };
      } in
      if not (header.magic == header_magic) || not (header.version == header_version)
      then (failed, c')
      else if not (limits.recv_max_msg_size == 0) && ltb limits.recv_max_msg_size header.length
      then (failed, c')
      else (parsed, c')

unfoldable pub parse_msg_body : TcpConnAsync → Message → ParseStatus × Message × TcpConnAsync
parse_msg_body c msg =
    if ltb (get_length c.recv_bound.buffer) c.recv_bound.header.length
    then (again, msg, c)
    else let (ok, msg_str, buffer) = consume c.recv_bound.buffer [] c.recv_bound.header.length in
      (
        parsed,
        record { header = c.recv_bound.header; payload = msg_str },
        record c { recv_bound = record (c.recv_bound) { buffer = buffer } },
      )

abbrev pub wait_for : ReadOp → TcpConnAsync → TcpConnAsync
wait_for op c = record c { net = record (c.net) { socket = async_read c.net.socket op } }

-- `std::string str(io_block_, bytes_transferred)` and its way into the buffer.
unfoldable pub store_received : TcpConnAsync → Bytes → TcpConnAsync
store_received c received = record c {
  recv_bound = record (c.recv_bound) {
    io_block = received;
    buffer = (append_internal c.recv_bound.buffer received).0;
  };
}

-- `W` is the state that the handler of an answer changes.
module _ (host : Endian) (limits : ClientLimits) {W : Type 0}
    (wrapper_handler : Option (W → Message → W)) where
  abbrev Outcome : Type 0
  Outcome = Option (W × TcpConnAsync)

  unfoldable pub dispatch : W → Message → W
  dispatch w msg = elim wrapper_handler [ none ↦ w | some handler ↦ handler w msg ]

  -- What follows `parse_header` in `do_read` and in `read_handler`.
  unfoldable pub after_header :
      (Phase → W → TcpConnAsync → Outcome) → W → ParseStatus × TcpConnAsync → Outcome
  after_header next w (parsed, c) = next in_body w c
  after_header next w (again, c) = next in_head w c
  after_header next w (failed, c) = some (w, shutdown_and_close_socket c)

  -- What follows `parse_msg_body` in `do_read_msg` and in `read_msg_handler`.
  unfoldable pub after_body :
      (Phase → W → TcpConnAsync → Outcome) → W → ParseStatus × Message × TcpConnAsync → Outcome
  after_body next w (parsed, msg, c) = next in_head (dispatch w msg) c
  after_body next w (again, msg, c) = next in_body w c
  after_body next w (failed, msg, c) = some (w, shutdown_and_close_socket c)

  unfoldable pub do_read : (Phase → W → TcpConnAsync → Outcome) → W → TcpConnAsync → Outcome
  do_read next w c =
      if not (is_working c.net.conn_stat)
      then some (w, c)
      else if ltb (get_length c.recv_bound.buffer) header_size
      then some (w, wait_for (head (header_size - get_length c.recv_bound.buffer)) c)
      else after_header next w (parse_header host limits c)

  unfoldable pub do_read_msg : (Phase → W → TcpConnAsync → Outcome) → W → TcpConnAsync → Outcome
  do_read_msg next w c =
      if not (is_working c.net.conn_stat)
      then some (w, c)
      else if ltb (get_length c.recv_bound.buffer) c.recv_bound.header.length
      then some (
        w,
        wait_for
            (body
              (min (c.recv_bound.header.length - get_length c.recv_bound.buffer) io_buffer_size))
            c,
      )
      else after_body next w (parse_msg_body c empty_message)

  -- The calls that `do_read` and `do_read_msg` make; `none` when there were more than the fuel.
  unfoldable pub read_loop : ℕ → Phase → W → TcpConnAsync → Outcome
  read_loop zero p w c = none
  read_loop (suc fuel) in_head w c = do_read (read_loop fuel) w c
  read_loop (suc fuel) in_body w c = do_read_msg (read_loop fuel) w c

  unfoldable pub read_handler :
      (Phase → W → TcpConnAsync → Outcome) → W → TcpConnAsync → Option ErrorCode → Bytes → Outcome
  read_handler next w c (some ec) received = some (w, (handle_socket_ec ec c).1)
  read_handler next w c none received =
      let stored = store_received c received in
      if ltb (get_length stored.recv_bound.buffer) header_size
      then next in_head w stored
      else after_header next w (parse_header host limits stored)

  unfoldable pub read_msg_handler :
      (Phase → W → TcpConnAsync → Outcome) → W → TcpConnAsync → Option ErrorCode → Bytes → Outcome
  read_msg_handler next w c (some ec) received = some (w, (handle_socket_ec ec c).1)
  read_msg_handler next w c none received =
      after_body next w (parse_msg_body (store_received c received) empty_message)

  unfoldable pub recv_net_message : W → TcpConnAsync → Outcome
  recv_net_message w c = read_loop (read_fuel (length c.recv_bound.buffer.bytes)) in_head w c

  -- The handler that the read which was started first was given.
  unfoldable pub call_handler :
      (Phase → W → TcpConnAsync → Outcome)
      → W
      → TcpConnAsync
      → Option ErrorCode
      → Bytes
      → List ReadOp
      → Outcome
  call_handler next w c ec received [] = some (w, c)
  call_handler next w c ec received (head n ∷ ops) = read_handler next w (forget_read c) ec received
  call_handler next w c ec received (body n ∷ ops) =
      read_msg_handler next w (forget_read c) ec received

  -- That read ends, with an error or with what it received.
  unfoldable pub complete_read : W → TcpConnAsync → Option ErrorCode → Bytes → Outcome
  complete_read w c ec received =
      call_handler (read_loop (read_fuel (length c.recv_bound.buffer.bytes + length received))) w c
        ec received c.net.socket.reads

  -- The handlers of successive reads without an error, over what each received.
  unfoldable pub receive_all : W → TcpConnAsync → List Bytes → Outcome
  receive_all w c [] = some (w, c)
  receive_all w c (received ∷ more) =
      let next = λ (s : W × TcpConnAsync). receive_all s.0 s.1 more in
      Option.bind (complete_read w c none received) next
