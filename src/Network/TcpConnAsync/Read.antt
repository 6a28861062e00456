-- ===== src/Network/TcpConnAsync/Read.antt =====
-- source/Network/TcpConnAsync.cpp: the receiving side of a connection of the server.
-- `do_read` and `do_read_msg` call each other and themselves; each takes those calls as `next`, and
-- `read_loop` ties the knot on fuel, which counts the calls. The bool of `do_read`, which no caller
-- reads, is left out. What the dispatcher does with a request is the parameter `handle_rpc`: its new
-- state, and the messages that it has the connection send before it returns.
use tzrpc.Prelude.{
  ℕ, zero, suc, ◌+◌, ◌-◌, ◌*◌, min, ◌||◌, ◌&&◌, not, Option, none, some, List, [], ◌∷◌, ltb, ◌==◌,
  if◌then◌else◌, length, drop,
}
use mathlib.Core.Option
use tzrpc.Core.Endian.{Endian, Bytes}
use tzrpc.Core.Message.{
  Message, header_magic, header_version, header_size, empty_message, from_net_endian, load_header,
}
use tzrpc.Core.Buffer.{get_length, append_internal, consume}
use tzrpc.Network.NetConn.{
  ConnStat, ErrorCode, ReadOp, head, body, is_working, async_read, set_conn_stat, io_buffer_size,
  fresh_socket,
}
use tzrpc.Network.TcpConnAsync.{
  ConnConf, TcpConnAsync, is_zero, to_u32, set_ops_cancel_timeout, revoke_ops_cancel_timeout,
  handle_socket_ec, shutdown_both, send_all, new_connection,
}

-- The int that the parsers return: 0, a positive number for "read again", or -1.
pub data ParseStatus : Type 0 where
  parsed again failed : ParseStatus

unfoldable pub parse_header : Endian → ConnConf → TcpConnAsync → ParseStatus × TcpConnAsync
parse_header host conf c =
    if ltb (get_length c.recv_bound.buffer) header_size
    then (again, c)
    else let (ok, head_str, buffer) = consume c.recv_bound.buffer [] header_size in
      let header = from_net_endian host (load_header host head_str) in
      let c' = record c {
        recv_bound = record (c.recv_bound) { header = header; buffer = buffer };
      } in
      if not (header.magic == header_magic) || not (header.version == header_version)
      then (failed, c')
      else if not (is_zero conf.recv_max_msg_size)
          && ltb (to_u32 conf.recv_max_msg_size) header.length
      then (failed, c')
      else (parsed, c')

unfoldable pub parse_msg_body : TcpConnAsync → Message → ParseStatus × Message × TcpConnAsync
parse_msg_body c msg =
    if ltb (get_length c.recv_bound.buffer) c.recv_bound.header.length
    then (again, msg, c)
    else let (ok, msg_str, buffer) = consume c.recv_bound.buffer [] c.recv_bound.header.length in
      (
        parsed,
        record { header = c.recv_bound.header; payload = msg_str },
        record c { recv_bound = record (c.recv_bound) { buffer = buffer } },
      )

-- The call of `async_read` with its timer.
unfoldable pub wait_for : ConnConf → ReadOp → TcpConnAsync → TcpConnAsync
unfolding set_ops_cancel_timeout
wait_for conf op c =
    let armed = set_ops_cancel_timeout conf c in
    record armed { net = record (armed.net) { socket = async_read armed.net.socket op } }

-- `std::string str(io_block_, bytes_transferred)` and its way into the buffer.
unfoldable pub store_received : TcpConnAsync → Bytes → TcpConnAsync
unfolding append_internal
store_received c received = record c {
  recv_bound = record (c.recv_bound) {
    io_block = received;
    buffer = (append_internal c.recv_bound.buffer received).0;
  };
}

pub data Phase : Type 0 where
  in_head in_body : Phase

-- Fuel for the calls on a buffer of that many bytes: each header takes bytes off it.
abbrev pub read_fuel : ℕ → ℕ
read_fuel n = 2 * n + 4

-- Asio has ended the read that was started first.
abbrev pub forget_read : TcpConnAsync → TcpConnAsync
forget_read c = record c {
  net = record (c.net) { socket = record (c.net.socket) { reads = drop 1 c.net.socket.reads } };
}

module _ (host : Endian) (conf : ConnConf) {W : Type 0}
    (handle_rpc : W → Bytes → W × List Message) where
  abbrev Outcome : Type 0
  Outcome = Option (W × TcpConnAsync)

  -- A new RpcInstance of the message goes through `Dispatcher::handle_rpc`.
  unfoldable pub dispatch : W → TcpConnAsync → Message → W × TcpConnAsync
  dispatch w c msg =
      let (w', replies) = handle_rpc w msg.payload in (w', send_all host conf c replies)

  -- What follows `parse_header` in `do_read` and in `read_handler`.
  unfoldable pub after_header :
      (Phase → W → TcpConnAsync → Outcome) → W → ParseStatus × TcpConnAsync → Outcome
  after_header next w (parsed, c) = next in_body w c
  after_header next w (again, c) = next in_head w c
  after_header next w (failed, c) = some (w, shutdown_both c)

  -- What follows `parse_msg_body` in `do_read_msg` and in `read_msg_handler`.
  unfoldable pub after_body :
      (Phase → W → TcpConnAsync → Outcome) → W → ParseStatus × Message × TcpConnAsync → Outcome
  unfolding dispatch
  after_body next w (parsed, msg, c) = next in_head (dispatch w c msg).0 (dispatch w c msg).1
  after_body next w (again, msg, c) = next in_body w c
  after_body next w (failed, msg, c) = some (w, shutdown_both c)

  unfoldable pub do_read : (Phase → W → TcpConnAsync → Outcome) → W → TcpConnAsync → Outcome
  unfolding wait_for after_header
  do_read next w c =
      if not (is_working c.net.conn_stat)
      then some (w, c)
      else if c.was_cancelled
      then some (w, c)
      else if ltb (get_length c.recv_bound.buffer) header_size
      then some (w, wait_for conf (head (header_size - get_length c.recv_bound.buffer)) c)
      else after_header next w (parse_header host conf c)

  unfoldable pub do_read_msg : (Phase → W → TcpConnAsync → Outcome) → W → TcpConnAsync → Outcome
  unfolding wait_for after_body
  do_read_msg next w c =
      if not (is_working c.net.conn_stat)
      then some (w, c)
      else if c.was_cancelled
      then some (w, c)
      else if ltb (get_length c.recv_bound.buffer) c.recv_bound.header.length
      then some (
        w,
        wait_for conf
            (body
              (min (c.recv_bound.header.length - get_length c.recv_bound.buffer) io_buffer_size))
            c,
      )
      else after_body next w (parse_msg_body c empty_message)

  -- The calls that `do_read` and `do_read_msg` make; `none` when there were more than the fuel.
  unfoldable pub read_loop : ℕ → Phase → W → TcpConnAsync → Outcome
  unfolding do_read do_read_msg
  read_loop zero p w c = none
  read_loop (suc fuel) in_head w c = do_read (read_loop fuel) w c
  read_loop (suc fuel) in_body w c = do_read_msg (read_loop fuel) w c

  unfoldable pub read_handler :
      (Phase → W → TcpConnAsync → Outcome) → W → TcpConnAsync → Option ErrorCode → Bytes → Outcome
  unfolding revoke_ops_cancel_timeout store_received after_header
  read_handler next w c (some ec) received =
      some (w, (handle_socket_ec ec (revoke_ops_cancel_timeout c)).1)
  read_handler next w c none received =
      let stored = store_received (revoke_ops_cancel_timeout c) received in
      if ltb (get_length stored.recv_bound.buffer) header_size
      then next in_head w stored
      else after_header next w (parse_header host conf stored)

  unfoldable pub read_msg_handler :
      (Phase → W → TcpConnAsync → Outcome) → W → TcpConnAsync → Option ErrorCode → Bytes → Outcome
  unfolding revoke_ops_cancel_timeout store_received after_body
  read_msg_handler next w c (some ec) received =
      some (w, (handle_socket_ec ec (revoke_ops_cancel_timeout c)).1)
  read_msg_handler next w c none received =
      after_body next w
        (parse_msg_body (store_received (revoke_ops_cancel_timeout c) received) empty_message)

  unfoldable pub start : W → TcpConnAsync → Outcome
  unfolding set_conn_stat read_loop
  start w c =
      read_loop (read_fuel (length c.recv_bound.buffer.bytes)) in_head w
        (record c { net = set_conn_stat c.net ConnStat.working })

  -- The handler that the read which was started first was given.
  unfoldable pub call_handler :
      (Phase → W → TcpConnAsync → Outcome)
      → W
      → TcpConnAsync
      → Option ErrorCode
      → Bytes
      → List ReadOp
      → Outcome
  call_handler next w c ec received [] = some (w, c)
  call_handler next w c ec received (head n ∷ ops) = read_handler next w (forget_read c) ec received
  call_handler next w c ec received (body n ∷ ops) =
      read_msg_handler next w (forget_read c) ec received

  -- That read ends, with an error or with what it received.
  unfoldable pub complete_read : W → TcpConnAsync → Option ErrorCode → Bytes → Outcome
  unfolding call_handler read_loop
  complete_read w c ec received =
      call_handler (read_loop (read_fuel (length c.recv_bound.buffer.bytes + length received))) w c
        ec received c.net.socket.reads

  -- The handlers of successive reads without an error, over what each received.
  unfoldable pub receive_all : W → TcpConnAsync → List Bytes → Outcome
  unfolding complete_read
  receive_all w c [] = some (w, c)
  receive_all w c (received ∷ more) =
      let next = λ (s : W × TcpConnAsync). receive_all s.0 s.1 more in
      Option.bind (complete_read w c none received) next

  -- A connection that starts on a fresh socket and then receives.
  unfoldable pub serve : W → List Bytes → Outcome
  unfolding start receive_all new_connection
  serve w chunks =
      Option.bind (start w (new_connection fresh_socket)) λ s. receive_all s.0 s.1 chunks
