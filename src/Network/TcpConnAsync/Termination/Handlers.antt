-- ===== src/Network/TcpConnAsync/Termination/Handlers.antt =====
-- The handlers of source/Network/TcpConnAsync.cpp come to an end, whatever bytes a peer sends.
use tzrpc.Prelude.{
  ℕ, ◌+◌, ◌^◌, ◌≤◌, ◌<◌, ◌≡◌, Option, none, some, List, [], ◌∷◌, arith, length, length-append, inr,
  ltb,
}
use mathlib.Core.Option
use tzrpc.Core.Endian.{Endian, Bytes}
use tzrpc.Core.Message.{Message, header_size, empty_message}
use tzrpc.Core.Buffer.{get_length, append_internal}
use tzrpc.Network.NetConn.{ErrorCode, ReadOp, head, body, ConnStat, fresh_socket, set_conn_stat}
use tzrpc.Network.TcpConnAsync.{
  ConnConf, TcpConnAsync, handle_socket_ec, revoke_ops_cancel_timeout, ops_cancel, new_connection,
}
use tzrpc.Network.TcpConnAsync.Stream.{joined}
use tzrpc.Network.TcpConnAsync.Read.{
  Phase, in_head, parse_msg_body, store_received, read_loop, read_handler, read_msg_handler,
  read_fuel, call_handler, complete_read, receive_all, start, serve, forget_read,
}
use tzrpc.Network.TcpConnAsync.Termination.{
  received_size, Ends, parse_msg_body_shrinks, ended, within, ends_if, Continues, header_ends,
  after_body_ends, read_loop_ends,
}

module _ (host : Endian) (conf : ConnConf) {W : Type 0}
    (handle_rpc : W → Bytes → W × List Message) where
  module _ (fuel : ℕ) (next : Phase → W → TcpConnAsync → Option (W × TcpConnAsync))
      (continues : Continues host conf handle_rpc fuel next) (w : W) (c : TcpConnAsync)
      (received : Bytes) (small : received_size c + length received < 2 ^ 32)
      (enough : read_fuel (received_size c + length received) ≤ fuel) where
    -- What a handler has stored, before it parses.
    abbrev stored : TcpConnAsync
    stored = store_received (revoke_ops_cancel_timeout c) received

    stored_size : received_size stored ≡ received_size c + length received
    unfolding store_received revoke_ops_cancel_timeout append_internal
    stored_size = length-append c.recv_bound.buffer.bytes received

    failed_size :
        (ec : ErrorCode)
        → received_size (handle_socket_ec ec (revoke_ops_cancel_timeout c)).1 ≡ received_size c
    unfolding handle_socket_ec revoke_ops_cancel_timeout ops_cancel
    failed_size ec = ground arith

    read_handler_ends :
        (ec : Option ErrorCode)
        → Ends
            (received_size c + length received)
            (read_handler host conf handle_rpc next w c ec received)
    unfolding read_handler
    read_handler_ends (some ec) =
        ended w (handle_socket_ec ec (revoke_ops_cancel_timeout c)).1
          (omega (arith, failed_size ec))
    read_handler_ends none =
        within
          (ends_if (ltb (get_length stored.recv_bound.buffer) header_size)
            (λ _.
              continues in_head w stored (omega (arith, stored_size, small))
                (omega (arith, stored_size, enough)))
            (header_ends host conf handle_rpc fuel next continues w stored
              (omega (arith, stored_size, small)) (omega (arith, stored_size, enough))))
          (omega (arith, stored_size))

    read_msg_handler_ends :
        (ec : Option ErrorCode)
        → Ends
            (received_size c + length received)
            (read_msg_handler host conf handle_rpc next w c ec received)
    unfolding read_msg_handler
    read_msg_handler_ends (some ec) =
        ended w (handle_socket_ec ec (revoke_ops_cancel_timeout c)).1
          (omega (arith, failed_size ec))
    read_msg_handler_ends none =
        let less = parse_msg_body_shrinks stored empty_message in
        let p = parse_msg_body stored empty_message in
        within
          (after_body_ends host conf handle_rpc fuel next continues w p.0 p.1 p.2
            (omega (arith, stored_size, less, small)) (omega (arith, stored_size, less, enough))
            (inr (omega (arith, stored_size, less, enough))))
          (omega (arith, stored_size, less))

  complete_read_ends :
      (w : W) (c : TcpConnAsync) (ec : Option ErrorCode) (received : Bytes)
      → received_size c + length received < 2 ^ 32
      → Ends
          (received_size c + length received)
          (complete_read host conf handle_rpc w c ec received)
  unfolding complete_read call_handler
  complete_read_ends w c ec received small = by_ops c.net.socket.reads
    where
      fuel : ℕ
      fuel = read_fuel (received_size c + length received)

      by_ops :
          (ops : List ReadOp)
          → Ends (received_size c + length received) (
              call_handler host conf handle_rpc
                (read_loop host conf handle_rpc fuel)
                w
                c
                ec
                received
                ops)
      by_ops [] = ended w c (omega arith)
      by_ops (head n ∷ ops) =
          read_handler_ends fuel (read_loop host conf handle_rpc fuel)
            (read_loop_ends host conf handle_rpc fuel) w (forget_read c) received small
            (omega arith) ec
      by_ops (body n ∷ ops) =
          read_msg_handler_ends fuel (read_loop host conf handle_rpc fuel)
            (read_loop_ends host conf handle_rpc fuel) w (forget_read c) received small
            (omega arith) ec

  receive_all_ends :
      (w : W) (c : TcpConnAsync) (chunks : List Bytes)
      → received_size c + length (joined chunks) < 2 ^ 32
      → Ends
          (received_size c + length (joined chunks))
          (receive_all host conf handle_rpc w c chunks)
  unfolding receive_all Option.bind
  receive_all_ends w c [] small = ended w c (omega arith)
  receive_all_ends w c (received ∷ more) small =
      let total = length-append received (joined more) in
      let e = complete_read_ends w c none received (omega (arith, total, small)) in
      let f = receive_all_ends e.state e.conn more (omega (arith, total, e.smaller, small)) in
      record {
        state = f.state;
        conn = f.conn;
        returns = rw (e.returns) f.returns;
        smaller = omega (arith, total, e.smaller, f.smaller);
      }

  start_ends : (w : W) → Ends 0 (start host conf handle_rpc w (new_connection fresh_socket))
  unfolding start new_connection
  start_ends w =
      read_loop_ends host conf handle_rpc 4 in_head w
        (record (new_connection fresh_socket) {
          net = set_conn_stat (new_connection fresh_socket).net ConnStat.working;
        })
        (omega arith) (omega arith)

  -- Whatever less than 2 ^ 32 bytes a peer sends, in whatever pieces, a connection that starts on a
  -- fresh socket comes to the end of all its handlers: the fuel of the model is always enough. It
  -- then holds no more bytes than it was sent.
  pub serve-Ends :
      (w : W) (chunks : List Bytes)
      → length (joined chunks) < 2 ^ 32
      → Ends (length (joined chunks)) (serve host conf handle_rpc w chunks)
  unfolding serve Option.bind
  serve-Ends w chunks small =
      let e = start_ends w in
      let f = receive_all_ends e.state e.conn chunks (omega (arith, e.smaller, small)) in
      record {
        state = f.state;
        conn = f.conn;
        returns = rw (e.returns) f.returns;
        smaller = omega (arith, e.smaller, f.smaller);
      }
