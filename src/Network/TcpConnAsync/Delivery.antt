-- ===== src/Network/TcpConnAsync/Delivery.antt =====
-- The loop of `do_read` and `do_read_msg` of source/Network/TcpConnAsync.cpp over a stream of messages.
use tzrpc.Prelude.{
  ℕ, zero, suc, ◌^◌, ◌≤◌, ◌<◌, ◌≡◌, refl, ap, ◌∙◌, subst, Option, some, List, [], ◌∷◌, ◌++◌, arith,
  length, length-append, All, inl, inr, ltb, ltb→lt, ltb→le, Bool-cases,
}
use tzrpc.Core.Endian.{Endian, Bytes}
use tzrpc.Core.Message.{Message, header_size, Header, empty_message}
use tzrpc.Network.NetConn.{ReadOp, head, body}
use tzrpc.Network.TcpConnAsync.{ConnConf, TcpConnAsync, send_all}
use tzrpc.Network.TcpConnAsync.Read.{Phase, in_head, in_body, dispatch, wait_for, read_loop}
use tzrpc.Network.TcpConnAsync.Parsing.{
  IsAccepted, IsReady, stream, parse_header_lem, parse_msg_body_lem,
}
use tzrpc.Network.TcpConnAsync.Sending.{send_all-SameReader}
use tzrpc.Network.TcpConnAsync.Framing.{
  At, Reached, need, do_read_waits, do_read_parses, do_read_msg_waits, do_read_msg_parses,
}

-- Waiting adds a read and leaves the rest of the receiving side.
pub record Added (op : ReadOp) (c d : TcpConnAsync) : Type 0 where
  pub stat : d.net.conn_stat ≡ c.net.conn_stat
  pub cancelled : d.was_cancelled ≡ c.was_cancelled
  pub bound : d.recv_bound ≡ c.recv_bound
  pub reads : d.net.socket.reads ≡ c.net.socket.reads ++ (op ∷ [])

wait_for-Added :
    (conf : ConnConf) (op : ReadOp) (c : TcpConnAsync) → Added op c (wait_for conf op c)
unfolding wait_for
wait_for-Added conf op c = ground arith

module _ (peer : Endian) (conf : ConnConf) {W : Type 0}
    (handle_rpc : W → Bytes → W × List Message) where
  wait_in_head :
      (r : Option (W × TcpConnAsync)) (w : W) (c : TcpConnAsync) (ms : List Message) (rest : Bytes)
      (n : ℕ)
      → r ≡ some (w, wait_for conf (head n) c)
      → IsReady c
      → All (IsAccepted conf) ms
      → c.net.socket.reads ≡ []
      → c.recv_bound.buffer.bytes ++ rest ≡ stream peer ms
      → length c.recv_bound.buffer.bytes < header_size
      → Reached conf handle_rpc peer r w ms rest
  wait_in_head r w c ms rest n e ready ok idle at short =
      let d : TcpConnAsync = wait_for conf (head n) c in
      let a = wait_for-Added conf (head n) c in
      (
        ms,
        w,
        d,
        e,
        refl,
        record { works = a.stat ∙ ready.works; live = a.cancelled ∙ ready.live },
        ok,
        inl (n, a.reads ∙ rw idle, rw (a.bound) at, rw (a.bound) short),
      )

  wait_in_body :
      (r : Option (W × TcpConnAsync)) (w : W) (c : TcpConnAsync) (ms : List Message) (rest : Bytes)
      (n : ℕ)
      → r ≡ some (w, wait_for conf (body n) c)
      → IsReady c
      → All (IsAccepted conf) ms
      → c.net.socket.reads ≡ []
      → At peer in_body c ms rest
      → length c.recv_bound.buffer.bytes < c.recv_bound.header.length
      → Reached conf handle_rpc peer r w ms rest
  wait_in_body r w c ms rest n e ready ok idle (m, later, split, told, at) short =
      let d : TcpConnAsync = wait_for conf (body n) c in
      let a = wait_for-Added conf (body n) c in
      (
        ms,
        w,
        d,
        e,
        refl,
        record { works = a.stat ∙ ready.works; live = a.cancelled ∙ ready.live },
        ok,
        inr (
          n,
          a.reads ∙ rw idle,
          (m, later, split, rw (a.bound) told, rw (a.bound) at),
          rw (a.bound) short,
        ),
      )

module _ (host peer : Endian) (conf : ConnConf) {W : Type 0}
    (handle_rpc : W → Bytes → W × List Message) where
  -- What the loop does in a phase on enough fuel.
  abbrev Loop : ℕ → Phase → Type 0
  Loop fuel p =
      (w : W) (c : TcpConnAsync) (ms : List Message) (rest : Bytes)
      → IsReady c
      → All (IsAccepted conf) ms
      → c.net.socket.reads ≡ []
      → length c.recv_bound.buffer.bytes < 2 ^ 32
      → need p (length c.recv_bound.buffer.bytes) ≤ fuel
      → At peer p c ms rest
      → Reached conf handle_rpc peer (read_loop host conf handle_rpc fuel p w c) w ms rest

  reads_head : (fuel : ℕ) → Loop fuel in_body → Loop (suc fuel) in_head
  unfolding read_loop
  reads_head fuel next w c [] rest ready ok idle small enough at =
      wait_in_head peer conf handle_rpc _ w c [] rest _
        (do_read_waits host conf handle_rpc (read_loop host conf handle_rpc fuel) w c ready short)
        ready ok idle at short
    where
      short : length c.recv_bound.buffer.bytes < header_size
      short = omega (arith, ap length at, length-append c.recv_bound.buffer.bytes rest)
  reads_head fuel next w c (m ∷ ms) rest ready ok idle small enough at =
      elim (Bool-cases (ltb (length c.recv_bound.buffer.bytes) header_size)) [
        | inl short ↦
            wait_in_head peer conf handle_rpc _ w c (m ∷ ms) rest _
              (do_read_waits host conf handle_rpc (read_loop host conf handle_rpc fuel) w c ready
                (ltb→lt _ _ short))
              ready ok idle at (ltb→lt _ _ short)
        | inr full ↦
            let (left, e, kept, shorter) =
              parse_header_lem host peer conf c m rest (stream peer ms) ok.0 (ltb→le _ _ full) small
                at in
            rw
              (
                do_read_parses host conf handle_rpc (read_loop host conf handle_rpc fuel) w c ready
                    (ltb→le _ _ full) small,
                e,
              )
              (next w
                (record c {
                  recv_bound = record (c.recv_bound) {
                    header = m.header;
                    buffer = record { bytes = left };
                  };
                })
                (m ∷ ms) rest (record { works = ready.works; live = ready.live }) ok idle
                (omega arith) (omega arith) (m, ms, refl, refl, kept))
      ]

  reads_body : (fuel : ℕ) → Loop fuel in_head → Loop (suc fuel) in_body
  unfolding read_loop dispatch
  reads_body fuel next w c ms rest ready ok idle small enough (m, later, split, told, at) =
      elim (Bool-cases (ltb (length c.recv_bound.buffer.bytes) c.recv_bound.header.length)) [
        | inl short ↦
            wait_in_body peer conf handle_rpc _ w c ms rest _
              (do_read_msg_waits host conf handle_rpc (read_loop host conf handle_rpc fuel) w c
                ready (ltb→lt _ _ short) small)
              ready ok idle (m, later, split, told, at) (ltb→lt _ _ short)
        | inr full ↦
            let oks : All (IsAccepted conf) (m ∷ later) = subst (All (IsAccepted conf)) split ok in
            let (left, e, kept, shorter) =
              parse_msg_body_lem host peer conf c m empty_message rest (stream peer later) oks.0
                told (rw (ap (λ (h : Header). h.length) told) at (ltb→le _ _ full)) small at in
            let d : TcpConnAsync = record c {
              recv_bound = record (c.recv_bound) { buffer = record { bytes = left } };
            } in
            let replies : List Message = (handle_rpc w m.payload).1 in
            let same = send_all-SameReader host conf d replies in
            rw
              (
                do_read_msg_parses host conf handle_rpc (read_loop host conf handle_rpc fuel) w c
                    ready (ltb→le _ _ full) small,
                e,
                split,
              )
              (next (handle_rpc w m.payload).0 (send_all host conf d replies) later rest
                (record { works = same.stat ∙ ready.works; live = same.cancelled ∙ ready.live })
                oks.1 (same.reads ∙ idle) (rw (same.bound) (omega arith))
                (rw (same.bound) (omega arith)) (rw (same.bound) kept))
      ]

  pub read_loop_lem : (fuel : ℕ) (p : Phase) → Loop fuel p
  read_loop_lem zero in_head = λ w c ms rest ready ok idle small enough at. absurd (omega arith)
  read_loop_lem zero in_body = λ w c ms rest ready ok idle small enough at. absurd (omega arith)
  read_loop_lem (suc fuel) in_head = reads_head fuel (read_loop_lem fuel in_body)
  read_loop_lem (suc fuel) in_body = reads_body fuel (read_loop_lem fuel in_head)
