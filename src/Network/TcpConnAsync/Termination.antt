-- ===== src/Network/TcpConnAsync/Termination.antt =====
-- The calls of source/Network/TcpConnAsync.cpp among `do_read` and `do_read_msg` come to an end,
-- whatever bytes a peer sends.
pub mod Handlers
use tzrpc.Prelude.{
  ℕ, zero, suc, ◌+◌, ◌-◌, ◌*◌, ◌^◌, ◌≤◌, ◌<◌, ◌≡◌, ◌≢◌, refl, ap, ◌∙◌, sym, Bool, true, false, not,
  Option, none, some, List, [], ◌∷◌, ◌++◌, arith, length, length-append, length-drop, inl, inr, ◌⊎◌,
  ltb, Bool-cases, drop, if◌then◌else◌, min,
}
use tzrpc.Core.Endian.{Endian, Bytes}
use tzrpc.Core.Message.{Message, header_size, empty_message}
use tzrpc.Core.Buffer.{Buffer, get_length, consume, append_internal}
use tzrpc.Core.Buffer.Queue.{get_length_small, consume-drop}
use tzrpc.Network.NetConn.{
  ErrorCode, ReadOp, IoBound, head, body, ConnStat, fresh_socket, is_working, set_conn_stat,
  io_buffer_size,
}
use tzrpc.Network.TcpConnAsync.{
  ConnConf, TcpConnAsync, send_all, handle_socket_ec, revoke_ops_cancel_timeout,
  set_ops_cancel_timeout, ops_cancel, new_connection,
}
use tzrpc.Network.TcpConnAsync.Sending.{send_all-SameReader}
use tzrpc.Network.TcpConnAsync.Framing.{need}
use tzrpc.Network.TcpConnAsync.Stream.{joined}
use tzrpc.Network.TcpConnAsync.Read.{
  ParseStatus, parsed, again, failed, Phase, in_head, in_body, parse_header, parse_msg_body,
  wait_for, store_received, dispatch, after_header, after_body, do_read, do_read_msg, read_loop,
  read_handler, read_msg_handler, read_fuel, call_handler, complete_read, receive_all, start, serve,
  forget_read,
}

abbrev pub received_size : TcpConnAsync → ℕ
received_size c = length c.recv_bound.buffer.bytes

-- An outcome that is there, and whose connection holds at most `n` bytes.
pub record Ends {W : Type 0} (n : ℕ) (r : Option (W × TcpConnAsync)) : Type 0 where
  pub state : W
  pub conn : TcpConnAsync
  pub returns : r ≡ some (state, conn)
  pub smaller : received_size conn ≤ n

wait_for_size :
    (conf : ConnConf) (op : ReadOp) (c : TcpConnAsync)
    → received_size (wait_for conf op c) ≡ received_size c
unfolding wait_for set_ops_cancel_timeout
wait_for_size conf op c = ground arith

length-consume : (b : Buffer) (sz : ℕ) → length (consume b [] sz).2.bytes ≡ length b.bytes - sz
length-consume b sz = ap length (consume-drop b sz) ∙ length-drop sz b.bytes

parse_header_shrinks :
    (host : Endian) (conf : ConnConf) (c : TcpConnAsync)
    → header_size ≤ received_size c
    → received_size c < 2 ^ 32
    → received_size (parse_header host conf c).1 + header_size ≡ received_size c
unfolding parse_header
parse_header_shrinks host conf c enough small = ground (
  arith,
  get_length_small c.recv_bound.buffer small,
  length-consume c.recv_bound.buffer header_size,
)

parse_msg_body_shrinks :
    (c : TcpConnAsync) (m : Message) → received_size (parse_msg_body c m).2 ≤ received_size c
unfolding parse_msg_body
parse_msg_body_shrinks c m =
    ground (arith, length-consume c.recv_bound.buffer c.recv_bound.header.length)

parse_msg_body_done :
    (c : TcpConnAsync) (m : Message)
    → c.recv_bound.header.length ≤ get_length c.recv_bound.buffer
    → (parse_msg_body c m).0 ≢ again
unfolding parse_msg_body
parse_msg_body_done c m enough = ground arith

module _ {W : Type 0} where
  abbrev ended : (w : W) (c : TcpConnAsync) {n : ℕ} → received_size c ≤ n → Ends n (some (w, c))
  ended w c small = record { state = w; conn = c; returns = refl; smaller = small }

  within : {m n : ℕ} {r : Option (W × TcpConnAsync)} → Ends m r → m ≤ n → Ends n r
  within e le = record {
    state = e.state;
    conn = e.conn;
    returns = e.returns;
    smaller = omega (arith, le, e.smaller);
  }

  waiting :
      (conf : ConnConf) (w : W) (op : ReadOp) (c : TcpConnAsync)
      → Ends (received_size c) (some (w, wait_for conf op c))
  waiting conf w op c = record {
    state = w;
    conn = wait_for conf op c;
    returns = refl;
    smaller = omega (arith, wait_for_size conf op c);
  }

  ends_if :
      (t : Bool) {n : ℕ} {a b : Option (W × TcpConnAsync)}
      → (t ≡ true → Ends n a)
      → (t ≡ false → Ends n b)
      → Ends n (if t then a else b)
  ends_if true then_ else_ = then_ refl
  ends_if false then_ else_ = else_ refl

module _ (host : Endian) (conf : ConnConf) {W : Type 0}
    (handle_rpc : W → Bytes → W × List Message) where
  -- The calls of the next turn end, where the fuel is what their buffers need.
  abbrev Continues : ℕ → (Phase → W → TcpConnAsync → Option (W × TcpConnAsync)) → Type 0
  Continues fuel next =
      (p : Phase) (w : W) (c : TcpConnAsync)
      → received_size c < 2 ^ 32
      → need p (received_size c) ≤ fuel
      → Ends (received_size c) (next p w c)

  dispatch_size :
      (w : W) (c : TcpConnAsync) (m : Message)
      → received_size (dispatch host conf handle_rpc w c m).1 ≡ received_size c
  unfolding dispatch
  dispatch_size w c m =
      ap (λ (b : IoBound). length b.buffer.bytes)
        (send_all-SameReader host conf c (handle_rpc w m.payload).1).bound

  module _ (fuel : ℕ) (next : Phase → W → TcpConnAsync → Option (W × TcpConnAsync))
      (continues : Continues fuel next) where
    after_header_ends :
        (w : W) (s : ParseStatus) (c : TcpConnAsync)
        → received_size c < 2 ^ 32
        → need in_body (received_size c) ≤ fuel
        → Ends (received_size c) (after_header host conf handle_rpc next w (s, c))
    unfolding after_header
    after_header_ends w parsed c small enough = continues in_body w c small enough
    after_header_ends w again c small enough = continues in_head w c small (omega (arith, enough))
    after_header_ends w failed c small enough = ended w _ (omega arith)

    after_body_ends :
        (w : W) (s : ParseStatus) (m : Message) (c : TcpConnAsync)
        → received_size c < 2 ^ 32
        → need in_head (received_size c) ≤ fuel
        → (s ≢ again) ⊎ (need in_body (received_size c) ≤ fuel)
        → Ends (received_size c) (after_body host conf handle_rpc next w (s, m, c))
    unfolding after_body
    after_body_ends w parsed m c small enough more =
        let d = dispatch host conf handle_rpc w c m in
        let same = dispatch_size w c m in
        within
          (continues in_head d.0 d.1 (omega (arith, same, small)) (omega (arith, same, enough)))
          (omega (arith, same))
    after_body_ends w again m c small enough (inl not_again) = absurd (not_again refl)
    after_body_ends w again m c small enough (inr more) = continues in_body w c small more
    after_body_ends w failed m c small enough more = ended w _ (omega arith)

    -- A header is parsed.
    header_ends :
        (w : W) (c : TcpConnAsync)
        → received_size c < 2 ^ 32
        → need in_head (received_size c) ≤ suc fuel
        → ltb (get_length c.recv_bound.buffer) header_size ≡ false
        → Ends
            (received_size c)
            (after_header host conf handle_rpc next w (parse_header host conf c))
    header_ends w c small enough long =
        let whole : header_size ≤ received_size c =
          ground (arith, long, get_length_small c.recv_bound.buffer small) in
        let less = parse_header_shrinks host conf c whole small in
        let p = parse_header host conf c in
        within
          (after_header_ends w p.0 p.1 (omega (arith, less, small)) (omega (arith, less, enough)))
          (omega (arith, less))

    do_read_ends :
        (w : W) (c : TcpConnAsync)
        → received_size c < 2 ^ 32
        → need in_head (received_size c) ≤ suc fuel
        → Ends (received_size c) (do_read host conf handle_rpc next w c)
    unfolding do_read
    do_read_ends w c small enough =
        ends_if (not (is_working c.net.conn_stat)) (λ _. ended w c (omega arith))
          (λ _.
            ends_if c.was_cancelled (λ _. ended w c (omega arith))
              (λ _.
                ends_if (ltb (get_length c.recv_bound.buffer) header_size)
                  (λ _. waiting conf w (head (header_size - get_length c.recv_bound.buffer)) c)
                  (header_ends w c small enough)))

    do_read_msg_ends :
        (w : W) (c : TcpConnAsync)
        → received_size c < 2 ^ 32
        → need in_body (received_size c) ≤ suc fuel
        → Ends (received_size c) (do_read_msg host conf handle_rpc next w c)
    unfolding do_read_msg
    do_read_msg_ends w c small enough =
        let less = parse_msg_body_shrinks c empty_message in
        let p = parse_msg_body c empty_message in
        ends_if (not (is_working c.net.conn_stat)) (λ _. ended w c (omega arith))
          (λ _.
            ends_if c.was_cancelled (λ _. ended w c (omega arith))
              (λ _.
                ends_if (ltb (get_length c.recv_bound.buffer) c.recv_bound.header.length)
                  (λ _.
                    waiting conf w
                      (body (
                        min (c.recv_bound.header.length - get_length c.recv_bound.buffer)
                          io_buffer_size))
                      c)
                  (λ long.
                    within
                      (after_body_ends w p.0 p.1 p.2 (omega (arith, less, small))
                        (omega (arith, less, enough))
                        (inl (parse_msg_body_done c empty_message (ground (arith, long)))))
                      less)))

  read_loop_ends : (fuel : ℕ) → Continues fuel (read_loop host conf handle_rpc fuel)
  unfolding read_loop
  read_loop_ends zero in_head w c small enough = absurd (omega arith)
  read_loop_ends zero in_body w c small enough = absurd (omega arith)
  read_loop_ends (suc fuel) in_head w c small enough =
      do_read_ends fuel (read_loop host conf handle_rpc fuel) (read_loop_ends fuel) w c small enough
  read_loop_ends (suc fuel) in_body w c small enough =
      do_read_msg_ends fuel (read_loop host conf handle_rpc fuel) (read_loop_ends fuel) w c small
        enough
