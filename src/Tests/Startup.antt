-- ===== src/Tests/Startup.antt =====
-- The start of a client of source/Client/RpcClient.cpp.
use tzrpc.Prelude.{
  ℕ, ◌≡◌, refl, true, if◌then◌else◌, none, some, List, [], ◌∷◌, arith, length, inl, inr,
}
use tzrpc.Core.Endian.{little, big, Bytes, htobe16, htobe32, mem16, mem32}
use tzrpc.Core.Message.{Message, of_data, net_str}
use tzrpc.Core.Message.Codec.{of_data-IsHeader}
use tzrpc.Network.TcpConnAsync.Stream.{joined}
use tzrpc.Rpc.Request
use tzrpc.Rpc.Request.{of_call}
use tzrpc.Rpc.Response
use tzrpc.Rpc.Response.{of_reply, status_code}
use tzrpc.Client.RpcClientStatus.{ok}
use tzrpc.Client.TcpConnSync.Receive.{IsAnswer}
use tzrpc.Client.RpcClientImpl.{RpcClientImpl}
use tzrpc.Client.RpcClientImpl.Exchange.{connection, healthy}
use tzrpc.Client.RpcClient.{ClientConf, client, RpcClient, from_file, from_conf, call_rpc, answered}
use tzrpc.Client.RpcClient.Setup.{valid_in, ready_client, settled, from_file_lem}
use tzrpc.Client.RpcClient.FirstCall.{limits_in, asked, from_conf-call_rpc}

-- The user's handler does nothing.
abbrev ignore : ℕ → ℕ → ℕ → ℕ → Bytes → ℕ
ignore w status service_id opcode bytes = w

-- An address, a port that is too large for a uint16_t, and a limit for what is received.
abbrev client_conf : ClientConf
client_conf = record {
  serv_addr = some (49 ∷ []);
  serv_port = some 73616;
  send_max_msg_size = none;
  recv_max_msg_size = some 1000;
  log_level = some 5;
}

from_file_lem_example : from_file true (client client_conf) (some ignore) ≡ (
    if true
    then elim (valid_in (client client_conf)) [
      | none ↦ none
      | some conf ↦ some (ready_client (some ignore) (settled (some ignore) conf))
    ]
    else none)
from_file_lem_example = from_file_lem (some ignore) true (client client_conf)

-- The port of that client is 8080.
port_truncated : (settled (some ignore) client_conf).serv_port ≡ 8080
port_truncated = refl

abbrev reply_pieces : List Bytes
reply_pieces =
    (0x74 ∷ 0x6b ∷ 0 ∷ 1 ∷ 0 ∷ [])
    ∷ (0 ∷ 0 ∷ 18 ∷ 0 ∷ 0 ∷ 0 ∷ 0 ∷ 0 ∷ 0 ∷ 0 ∷ 0 ∷ 0 ∷ 0x74 ∷ 0x72 ∷ 0 ∷ 1 ∷ 0 ∷ 1 ∷ 0 ∷ 2 ∷ 0 ∷ 0
        ∷ 0 ∷ 0 ∷ 0 ∷ 0 ∷ 0 ∷ 0 ∷ 9 ∷ [])
    ∷ []

abbrev first_answer : Message
first_answer = of_data (Response.net_str big (of_reply 1 2 (9 ∷ [])))

reply_pieces-answer : joined reply_pieces ≡ net_str big first_answer
unfolding of_data net_str Response.net_str of_reply status_code htobe16 htobe32 mem16 mem32
reply_pieces-answer = refl

first_answer-IsAnswer : IsAnswer (limits_in client_conf) first_answer
unfolding of_data Response.net_str of_reply htobe16 mem16 mem32
first_answer-IsAnswer = record {
  header = of_data-IsHeader (Response.net_str big (of_reply 1 2 (9 ∷ [])));
  magic = refl;
  version = refl;
  measured = refl;
  fits = omega arith;
  within = inr (omega arith);
}

first_size : length (net_str little (asked little 1 2 (7 ∷ 8 ∷ []) 30)) ≡ 34
unfolding of_data net_str Request.net_str of_call htobe16 htobe32 mem16 mem32
first_size = refl

from_conf-call_rpc_example :
    (c : RpcClient ℕ) × (from_conf true client_conf (some ignore) ≡ some c)
    × ((impl : RpcClientImpl) × (call_rpc little (healthy 1 reply_pieces) 1 2 (7 ∷ 8 ∷ []) [] 30 c
          ≡ answered ok (9 ∷ []) (record c { impl = some impl }))
        × ((connection impl).net.socket.written
            ≡ net_str little (asked little 1 2 (7 ∷ 8 ∷ []) 30)))
from_conf-call_rpc_example =
    from_conf-call_rpc little 1 2 (7 ∷ 8 ∷ []) 30 (some ignore) client_conf big (9 ∷ []) [] 1
      reply_pieces refl (omega arith) (omega arith) (inl refl) (omega (arith, first_size))
      (omega (arith, first_size)) first_answer-IsAnswer reply_pieces-answer
