-- ===== src/Client/TcpConnSync.antt =====
-- source/Client/TcpConnSync.{h,cpp}: the client's blocking connection.
-- What the socket answers to the reads and writes is a list of results, which the loops take in order;
-- where the list is at its end the call is still blocked.
pub mod Receive
pub mod Delivery
pub mod Send
use tzrpc.Prelude.{
  ℕ, ◌-◌, min, Bool, true, false, ◌||◌, ◌&&◌, not, Option, none, some, List, [], ◌∷◌, ◌++◌, ltb,
  ◌==◌, if◌then◌else◌, take,
}
use tzrpc.Core.Endian.{Endian, Bytes}
use tzrpc.Core.Message.{
  Message, header_magic, header_version, header_size, from_net_endian, load_header,
}
use tzrpc.Core.Buffer.{Buffer, get_length, append, append_internal, consume, consume_raw}
use tzrpc.Network.NetConn.{
  NetConn, ConnStat, ErrorCode, IoBound, ShutdownType, Socket, is_working, sock_shutdown_and_close,
  write, empty_bound, io_buffer_size,
}
use tzrpc.Network.TcpConnAsync.{closes_socket}
use tzrpc.Network.TcpConnAsync.Read.{ParseStatus, parsed, again, failed}

-- The limits of RpcClientSetting, both uint32_t.
pub record ClientLimits : Type 0 where
  pub send_max_msg_size : ℕ
  pub recv_max_msg_size : ℕ

pub record TcpConnSync : Type 0 where
  pub net : NetConn
  pub recv_bound : IoBound
  pub send_bound : IoBound

-- The constructor sets the state to working.
unfoldable pub new_connection : Socket → TcpConnSync
new_connection s = record {
  net = record { conn_stat = ConnStat.working; socket = s };
  recv_bound = empty_bound;
  send_bound = empty_bound;
}

pub data ReadResult : Type 0 where
  got : Bytes → ReadResult
  broke : ErrorCode → ReadResult

-- How a call on the connection ends: with its bool, or not yet.
pub data CallResult : Type 0 where
  returned : Bool → TcpConnSync → CallResult
  blocked : TcpConnSync → CallResult

-- How a loop of reads ends: with what is left of the results, by an error, or not yet.
pub data FillResult : Type 0 where
  filled : TcpConnSync → List ReadResult → FillResult
  closed : TcpConnSync → FillResult
  waits : TcpConnSync → FillResult

unfoldable pub shutdown_and_close_socket : TcpConnSync → TcpConnSync
shutdown_and_close_socket c = record c { net = sock_shutdown_and_close c.net ShutdownType.both }

unfoldable pub handle_socket_ec : ErrorCode → TcpConnSync → Bool × TcpConnSync
unfolding shutdown_and_close_socket
handle_socket_ec ec c =
    let close_socket = closes_socket ec in
    if close_socket then (close_socket, shutdown_and_close_socket c) else (close_socket, c)

unfoldable pub parse_header : Endian → ClientLimits → TcpConnSync → ParseStatus × TcpConnSync
parse_header host limits c =
    if ltb (get_length c.recv_bound.buffer) header_size
    then (again, c)
    else let (ok, head_str, buffer) = consume c.recv_bound.buffer [] header_size in
      let header = from_net_endian host (load_header host head_str) in
      let c' = record c {
        recv_bound = record (c.recv_bound) { header = header; buffer = buffer };
      } in
      if not (header.magic == header_magic) || not (header.version == header_version)
      then (failed, c')
      else if not (limits.recv_max_msg_size == 0) && ltb limits.recv_max_msg_size header.length
      then (failed, c')
      else (parsed, c')

unfoldable pub parse_msg_body : TcpConnSync → Message → ParseStatus × Message × TcpConnSync
parse_msg_body c msg =
    if ltb (get_length c.recv_bound.buffer) c.recv_bound.header.length
    then (again, msg, c)
    else let (ok, msg_str, buffer) = consume c.recv_bound.buffer [] c.recv_bound.header.length in
      (
        parsed,
        record { header = c.recv_bound.header; payload = msg_str },
        record c { recv_bound = record (c.recv_bound) { buffer = buffer } },
      )

abbrev pub store_received : TcpConnSync → Bytes → TcpConnSync
store_received c received = record c {
  recv_bound = record (c.recv_bound) {
    io_block = received;
    buffer = record { bytes = c.recv_bound.buffer.bytes ++ received };
  };
}

-- The loop of `do_read`: reads until the buffer holds a header.
unfoldable pub fill_header : TcpConnSync → List ReadResult → FillResult
unfolding handle_socket_ec
fill_header c [] = if ltb (get_length c.recv_bound.buffer) header_size then waits c else filled c []
fill_header c (got received ∷ more) = elim (ltb (get_length c.recv_bound.buffer) header_size) [
  | true ↦ fill_header (store_received c received) more
  | false ↦ filled c (got received ∷ more)
]
fill_header c (broke ec ∷ more) =
    if ltb (get_length c.recv_bound.buffer) header_size
    then closed (handle_socket_ec ec c).1
    else filled c (broke ec ∷ more)

-- The loop of `do_read_msg`: reads until the buffer holds the payload that the header tells.
unfoldable pub fill_body : TcpConnSync → List ReadResult → FillResult
unfolding handle_socket_ec
fill_body c [] =
    if ltb (get_length c.recv_bound.buffer) c.recv_bound.header.length then waits c else filled c []
fill_body c (got received ∷ more) =
    elim (ltb (get_length c.recv_bound.buffer) c.recv_bound.header.length) [
      | true ↦ fill_body (store_received c received) more
      | false ↦ filled c (got received ∷ more)
    ]
fill_body c (broke ec ∷ more) =
    if ltb (get_length c.recv_bound.buffer) c.recv_bound.header.length
    then closed (handle_socket_ec ec c).1
    else filled c (broke ec ∷ more)

-- The end of `do_read_msg`; the message is an out parameter, so it is returned too.
unfoldable pub after_body : ParseStatus × Message × TcpConnSync → CallResult × Message
unfolding shutdown_and_close_socket
after_body (parsed, msg, c) = (returned true c, msg)
after_body (again, msg, c) = (returned false (shutdown_and_close_socket c), msg)
after_body (failed, msg, c) = (returned false (shutdown_and_close_socket c), msg)

unfoldable pub take_body : Message → FillResult → CallResult × Message
unfolding after_body
take_body msg (waits c) = (blocked c, msg)
take_body msg (closed c) = (returned false c, msg)
take_body msg (filled c more) = after_body (parse_msg_body c msg)

unfoldable pub do_read_msg : TcpConnSync → Message → List ReadResult → CallResult × Message
unfolding fill_body take_body
do_read_msg c msg script =
    if not (is_working c.net.conn_stat)
    then (returned false c, msg)
    else take_body msg (fill_body c script)

-- The end of `do_read`.
unfoldable pub after_header :
    Message → List ReadResult → ParseStatus × TcpConnSync → CallResult × Message
unfolding do_read_msg shutdown_and_close_socket
after_header msg more (parsed, c) = do_read_msg c msg more
after_header msg more (again, c) = (returned false (shutdown_and_close_socket c), msg)
after_header msg more (failed, c) = (returned false (shutdown_and_close_socket c), msg)

module _ (host : Endian) (limits : ClientLimits) where
  unfoldable pub take_header : Message → FillResult → CallResult × Message
  unfolding after_header
  take_header msg (waits c) = (blocked c, msg)
  take_header msg (closed c) = (returned false c, msg)
  take_header msg (filled c more) = after_header msg more (parse_header host limits c)

  unfoldable pub do_read : TcpConnSync → Message → List ReadResult → CallResult × Message
  unfolding fill_header take_header
  do_read c msg script =
      if not (is_working c.net.conn_stat)
      then (returned false c, msg)
      else take_header msg (fill_header c script)

-- One round of `do_write`: the front of the buffer goes to the socket. `consume_raw` finds the bytes that
-- it is asked for, so its `none` does not occur.
unfoldable pub write_block : TcpConnSync → ℕ → TcpConnSync
write_block c to_write =
    elim (consume_raw c.send_bound.buffer (some c.send_bound.io_block) to_write) [
      | some (ok, some block, rest) ↦ record c {
        net = record (c.net) { socket = write c.net.socket (take to_write block) };
        send_bound = record (c.send_bound) { io_block = block; buffer = rest };
      }
      | some (ok, none, rest) ↦ c
      | none ↦ c
    ]

-- The loop of `do_write`, over what the socket answers to each write.
unfoldable pub write_loop : TcpConnSync → List (Option ErrorCode) → CallResult
unfolding write_block handle_socket_ec
write_loop c [] = if get_length c.send_bound.buffer == 0 then returned true c else blocked c
write_loop c (none ∷ more) = elim (get_length c.send_bound.buffer == 0) [
  | true ↦ returned true c
  | false ↦ write_loop (write_block c (min (get_length c.send_bound.buffer) io_buffer_size)) more
]
write_loop c (some ec ∷ more) =
    if get_length c.send_bound.buffer == 0
    then returned true c
    else returned false
        (handle_socket_ec ec
          (write_block c (min (get_length c.send_bound.buffer) io_buffer_size))).1

unfoldable pub do_write : TcpConnSync → List (Option ErrorCode) → CallResult
unfolding write_loop
do_write c script =
    if not (is_working c.net.conn_stat) then returned false c else write_loop c script

unfoldable pub send_net_message :
    Endian → ClientLimits → TcpConnSync → Message → List (Option ErrorCode) → CallResult
unfolding do_write
send_net_message host limits c msg script =
    if not (limits.send_max_msg_size == 0) && ltb limits.send_max_msg_size msg.header.length
    then returned false c
    else do_write
        (record c {
          send_bound = record (c.send_bound) { buffer = (append host c.send_bound.buffer msg).0 };
        })
        script

unfoldable pub recv_net_message :
    Endian → ClientLimits → TcpConnSync → Message → List ReadResult → CallResult × Message
unfolding do_read
recv_net_message host limits c msg script = do_read host limits c msg script
