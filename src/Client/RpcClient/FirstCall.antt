-- ===== src/Client/RpcClient/FirstCall.antt =====
-- The first call on a client that a constructor of source/Client/RpcClient.cpp made.
use tzrpc.Prelude.{
  ℕ, ◌*◌, ◌^◌, ◌≤◌, ◌<◌, ◌≡◌, refl, ◌∙◌, true, false, Option, none, some, List, inl, length, arith,
}
use tzrpc.Core.Endian.{Endian, Bytes, IsU16}
use tzrpc.Core.Message.{Message, net_str}
use tzrpc.Network.NetConn.{io_buffer_size}
use tzrpc.Network.NetConf.{found_or}
use tzrpc.Network.TcpConnAsync.Stream.{joined}
use tzrpc.Client.RpcClientStatus.{ok}
use tzrpc.Client.TcpConnSync.{ClientLimits, new_connection}
use tzrpc.Client.TcpConnSync.Receive.{IsAnswer}
use tzrpc.Client.TcpConnAsync.Order.{IsWithin}
use tzrpc.Client.TcpConnAsync.Simulation.{IsLimits}
use tzrpc.Client.RpcClientImpl.{RpcClientImpl, new_client}
use tzrpc.Client.RpcClientImpl.Exchange.{IsIdle, connection, reply, healthy, call_rpc-of_reply}
use tzrpc.Client.RpcClientImpl.Async.Pending.{IsOpen, request_message, call_rpc_async-IsOpen}
use tzrpc.Client.RpcClient.{ClientConf, RpcClient, answered, from_conf, call_rpc, call_rpc_async}
use tzrpc.Client.RpcClient.Setup.{is_valid, settled, ready_client, from_conf_lem}

-- The limits that a client takes from its settings.
abbrev pub limits_in : ClientConf → ClientLimits
limits_in conf = record {
  send_max_msg_size = found_or conf.send_max_msg_size 0;
  recv_max_msg_size = found_or conf.recv_max_msg_size 0;
}

new_client-IsIdle : (limits : ClientLimits) → IsIdle (connection (new_client limits))
unfolding new_client new_connection
new_client-IsIdle limits = record { works = refl; unsent = refl; unread = refl }

module _ (host : Endian) (service opcode : ℕ) (payload : Bytes) (sec : ℕ) where
  abbrev pub asked : Message
  asked = request_message host service opcode payload

  module _ {W : Type 0} (handler : Option (W → ℕ → ℕ → ℕ → Bytes → W)) (conf : ClientConf) where
    abbrev pub made : RpcClient W
    made = ready_client handler (settled handler conf)

    made_lem : is_valid conf ≡ true → from_conf true conf handler ≡ some made
    made_lem valid = from_conf_lem handler true conf ∙ ground (arith, valid)

    module _ (peer : Endian) (bytes respload : Bytes) (k : ℕ) (chunks : List Bytes) where
      abbrev pub answer : Message
      answer = reply host peer service opcode payload bytes respload k chunks

      -- A client that is made of valid settings answers its first synchronous call with OK and the
      -- response that the service gave, where the network connects, takes the writes of the request
      -- and delivers the server's reply in any pieces; it has put exactly the request on the
      -- socket. The ids are 16 bits wide, the request and the reply are within the limits of the
      -- settings, and the request takes at most `k` writes and is shorter than 2 ^ 32 bytes. The
      -- server's address is one, and no timer runs out during the call, whatever its timeout.
      pub from_conf-call_rpc :
          is_valid conf ≡ true
          → IsU16 service
          → IsU16 opcode
          → IsWithin (limits_in conf) asked
          → length (net_str host asked) < 2 ^ 32
          → length (net_str host asked) ≤ io_buffer_size * k
          → IsAnswer (limits_in conf) answer
          → joined chunks ≡ net_str peer answer
          → (c : RpcClient W) × (from_conf true conf handler ≡ some c)
            × ((impl : RpcClientImpl) × (call_rpc host
                    (healthy k chunks)
                    service
                    opcode
                    payload
                    respload
                    sec
                    c
                  ≡ answered ok bytes (record c { impl = some impl }))
                × ((connection impl).net.socket.written ≡ net_str host asked))
      unfolding call_rpc new_client new_connection
      from_conf-call_rpc valid s o within small enough is_answer sent =
          let limits : ClientLimits = limits_in conf in
          let (impl, run, same, kept, idle, wrote) =
            call_rpc-of_reply host peer service opcode payload bytes respload k chunks sec
              (new_client limits) s o (new_client-IsIdle limits) within small enough is_answer
              sent in
          (made, made_lem valid, (impl, rw run refl, wrote))

  -- A client that is made of valid settings with a handler answers its first asynchronous call with OK
  -- and leaves a connection that waits for answers and from which the request goes. The limits are of
  -- type uint32_t, the request is within them and shorter than 2 ^ 32 bytes, the connection is made, and
  -- the call's timer does not run out meanwhile.
  pub from_conf-call_rpc_async :
      {W : Type 0} (h : W → ℕ → ℕ → ℕ → Bytes → W) (conf : ClientConf) (w : W)
      → is_valid conf ≡ true
      → IsLimits (limits_in conf)
      → IsWithin (limits_in conf) asked
      → length (net_str host asked) < 2 ^ 32
      → (c : RpcClient W) × (from_conf true conf (some h) ≡ some c)
        × ((impl : RpcClientImpl) × (call_rpc_async host none false service opcode payload sec w c
              ≡ some (ok, w, record c { impl = some impl }))
            × IsOpen host impl (net_str host asked))
  unfolding call_rpc_async new_client
  from_conf-call_rpc_async h conf w valid limited within small =
      let (impl, run, same, is_open) =
        call_rpc_async-IsOpen host service opcode payload sec (some h) w
          (new_client (limits_in conf)) limited (inl (refl, refl)) (omega (arith, small)) within in
      (made (some h) conf, made_lem (some h) conf valid, (impl, rw run refl, is_open))
