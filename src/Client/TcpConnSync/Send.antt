-- ===== src/Client/TcpConnSync/Send.antt =====
-- What a blocking send of source/Client/TcpConnSync.cpp puts on the socket.
use tzrpc.Prelude.{
  ℕ, zero, suc, ◌*◌, ◌^◌, ◌≤◌, ◌<◌, ◌≡◌, refl, sym, ap, ◌∙◌, true, Option, none, some, List, [],
  ◌∷◌, ◌++◌, arith, length, length-take, length-drop, take, drop, min, take-append_self,
  take-append-drop, inl, inr, ◌⊎◌, Bool-cases, ◌==◌, ==_iff, append_assoc, append-nil,
}
use tzrpc.Core.Endian.{Endian, Bytes}
use tzrpc.Core.Message.{Message, net_str}
use tzrpc.Core.Buffer.{get_length, append}
use tzrpc.Core.Buffer.Queue.{get_length_small, consume_raw-some, append-net_str}
use tzrpc.Network.NetConn.{ConnStat, ErrorCode, io_buffer_size}
use tzrpc.Client.TcpConnSync.{
  ClientLimits, TcpConnSync, CallResult, returned, write_block, write_loop, do_write,
  send_net_message,
}

-- As many writes that succeed.
abbrev pub successes : ℕ → List (Option ErrorCode)
successes zero = []
successes (suc k) = none ∷ successes k

-- `d` is `c` after the bytes `out` went to the socket.
pub record Wrote (out : Bytes) (c d : TcpConnSync) : Type 0 where
  pub stat : d.net.conn_stat ≡ c.net.conn_stat
  pub written : d.net.socket.written ≡ c.net.socket.written ++ out
  pub receives : d.recv_bound ≡ c.recv_bound

write_block-Wrote :
    (c : TcpConnSync) (n : ℕ)
    → 0 < n
    → n ≤ length c.send_bound.buffer.bytes
    → Wrote (take n c.send_bound.buffer.bytes) c (write_block c n)
      × ((write_block c n).send_bound.buffer.bytes ≡ drop n c.send_bound.buffer.bytes)
unfolding write_block
write_block-Wrote c n some_left le = ground (
  arith,
  consume_raw-some c.send_bound.buffer c.send_bound.io_block n some_left le,
  take-append_self n (take n c.send_bound.buffer.bytes) (drop n c.send_bound.io_block),
  length-take n c.send_bound.buffer.bytes,
)

write_loop_done :
    (c : TcpConnSync) (script : List (Option ErrorCode))
    → get_length c.send_bound.buffer ≡ 0
    → write_loop c script ≡ returned true c
unfolding write_loop
write_loop_done c [] empty = ground arith
write_loop_done c (none ∷ more) empty = ground arith
write_loop_done c (some ec ∷ more) empty = ground arith

write_loop_on :
    (c : TcpConnSync) (more : List (Option ErrorCode))
    → 0 < get_length c.send_bound.buffer
    → write_loop c (none ∷ more)
      ≡ write_loop (write_block c (min (get_length c.send_bound.buffer) io_buffer_size)) more
unfolding write_loop
write_loop_on c more some_left = ground arith

nil_of_length : (bs : Bytes) → length bs ≡ 0 → bs ≡ []
nil_of_length [] e = refl
nil_of_length (b ∷ bs) e = absurd (omega arith)

-- How the loop ends.
abbrev Ends : TcpConnSync → CallResult → Type 0
Ends c r =
    (d : TcpConnSync) × (r ≡ returned true d)
    × Wrote c.send_bound.buffer.bytes c d
    × (d.send_bound.buffer.bytes ≡ [])

finish_empty :
    (c : TcpConnSync) (script : List (Option ErrorCode))
    → length c.send_bound.buffer.bytes ≡ 0
    → Ends c (write_loop c script)
unfolding get_length
finish_empty c script e =
    let empty : c.send_bound.buffer.bytes ≡ [] = nil_of_length _ e in
    (
      c,
      write_loop_done c script (omega arith),
      record {
        stat = refl;
        written =
            sym (append-nil c.net.socket.written) ∙ ap (◌++◌ c.net.socket.written) (sym empty);
        receives = refl;
      },
      empty,
    )

-- One block, and what a loop from there does.
finish_on :
    (c : TcpConnSync) (more : List (Option ErrorCode))
    → 0 < length c.send_bound.buffer.bytes
    → length c.send_bound.buffer.bytes < 2 ^ 32
    → Ends
        (write_block c (min (length c.send_bound.buffer.bytes) io_buffer_size))
        (write_loop (write_block c (min (length c.send_bound.buffer.bytes) io_buffer_size)) more)
    → Ends c (write_loop c (none ∷ more))
finish_on c more some_left small (d, run, wrote, empty) =
    let b : Bytes = c.send_bound.buffer.bytes in
    let n : ℕ = min (length b) io_buffer_size in
    let exact = get_length_small c.send_bound.buffer small in
    let (first, left) = write_block-Wrote c n (omega arith) (omega arith) in
    (
      d,
      write_loop_on c more (omega (arith, exact))
          ∙ ap (λ (l : ℕ). write_loop (write_block c (min l io_buffer_size)) more) exact
          ∙ run,
      record {
        stat = wrote.stat ∙ first.stat;
        written =
            wrote.written
            ∙ rw (first.written, left)
                (append_assoc c.net.socket.written (take n b) (drop n b)
                  ∙ ap (◌++◌ c.net.socket.written) (take-append-drop n b));
        receives = wrote.receives ∙ first.receives;
      },
      empty,
    )

write_loop_lem :
    (k : ℕ) (c : TcpConnSync)
    → length c.send_bound.buffer.bytes < 2 ^ 32
    → length c.send_bound.buffer.bytes ≤ io_buffer_size * k
    → Ends c (write_loop c (successes k))
write_loop_lem zero c small enough = finish_empty c [] (omega arith)
write_loop_lem (suc k) c small enough = elim (Bool-cases (length c.send_bound.buffer.bytes == 0)) [
  | inl e ↦ finish_empty c (none ∷ successes k) ((==_iff _ 0).0 e)
  | inr e ↦
      let b : Bytes = c.send_bound.buffer.bytes in
      let n : ℕ = min (length b) io_buffer_size in
      let some_left : 0 < length b = ground arith in
      let (first, left) = write_block-Wrote c n (omega arith) (omega arith) in
      let size = ap length left in
      finish_on c (successes k) some_left small (
        write_loop_lem k (write_block c n) (omega (arith, size, length-drop n b))
          (omega (arith, size, length-drop n b)))
]

-- On a working connection with nothing left over, a blocking send of a message within the limit and
-- of less than 2 ^ 32 bytes, whose writes all succeed, returns true and has put exactly the bytes
-- of the message on the socket: it takes at most one write for each block of 2048 bytes. The
-- receiving side is as it was.
pub send_net_message-net_str :
    (host : Endian) (limits : ClientLimits) (c : TcpConnSync) (m : Message) (k : ℕ)
    → c.net.conn_stat ≡ ConnStat.working
    → c.send_bound.buffer.bytes ≡ []
    → (limits.send_max_msg_size ≡ 0) ⊎ (m.header.length ≤ limits.send_max_msg_size)
    → length (net_str host m) < 2 ^ 32
    → length (net_str host m) ≤ io_buffer_size * k
    → (d : TcpConnSync) × (send_net_message host limits c m (successes k) ≡ returned true d)
      × Wrote (net_str host m) c d
      × (d.send_bound.buffer.bytes ≡ [])
unfolding send_net_message do_write
send_net_message-net_str host limits c m k works fresh within small enough =
    let q : TcpConnSync = record c {
      send_bound = record (c.send_bound) { buffer = (append host c.send_bound.buffer m).0 };
    } in
    let bytes : q.send_bound.buffer.bytes ≡ net_str host m =
      (append-net_str host c.send_bound.buffer m).0
      ∙ ap (λ (bs : Bytes). bs ++ net_str host m) fresh in
    let size = ap length bytes in
    let (d, run, wrote, empty) = write_loop_lem k q (omega (arith, size)) (omega (arith, size)) in
    (
      d,
      ground (arith, run, works, within),
      record {
        stat = wrote.stat;
        written = wrote.written ∙ ap (◌++◌ c.net.socket.written) bytes;
        receives = wrote.receives;
      },
      empty,
    )
