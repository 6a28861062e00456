-- ===== src/Tests/Echo.antt =====
-- An echo between a client and a server of different byte orders.
use tzrpc.Prelude.{
  ◌≡◌, ◌≢◌, refl, ap, true, Option, none, some, [], ◌∷◌, ◌++◌, append-nil, arith, length, inl, inr,
}
use tzrpc.Prelude.Int.{pos}
use tzrpc.Core.Endian.{little, big, Bytes, htobe16, htobe32, mem16, mem32}
use tzrpc.Core.Message.{Message, of_data, net_str}
use tzrpc.Core.Message.Codec.{of_data-IsHeader}
use tzrpc.Network.NetConn.{ConnStat, fresh_socket}
use tzrpc.Network.NetConf.{found_or}
use tzrpc.Network.TcpConnAsync.{ConnConf, TcpConnAsync, new_connection, complete_writes}
use tzrpc.Network.TcpConnAsync.Order.{IsUnused}
use tzrpc.Rpc.Request
use tzrpc.Rpc.Request.{of_call}
use tzrpc.Rpc.Response
use tzrpc.Rpc.Response.{of_reply, status_code}
use tzrpc.Rpc.RpcInstance.Validate.{IsRequest, holding}
use tzrpc.Rpc.Executor
use tzrpc.Rpc.Executor.{Executor, service_turn}
use tzrpc.Rpc.Dispatcher.{Dispatcher, find}
use tzrpc.Protocol.XtraTaskService.{ReadRequest, ReadResponse, echo_prefix}
use tzrpc.Protocol.XtraTaskService.Answers.{echoed}
use tzrpc.Protocol.XtraTaskService.Echo.{answer, on_request, answered_echo, call_rpc-echo}
use tzrpc.Client.RpcClientStatus.{ok}
use tzrpc.Client.TcpConnSync as Client_sync
use tzrpc.Client.TcpConnSync.Receive.{IsAnswer}
use tzrpc.Client.RpcClientImpl.{RpcClientImpl, new_client, call_rpc, finished}
use tzrpc.Client.RpcClientImpl.Exchange.{IsIdle, connection, healthy}
use tzrpc.Client.RpcClientImpl.Async.Pending.{request_message}

-- Every payload decodes to its echo, and a response is encoded as its echoed text alone.
abbrev unmarshal : Bytes → Option ReadRequest
unmarshal bytes = some (record { ping = none; gets = none; echo = some bytes; timeout = none })

abbrev marshal : ReadResponse → Bytes
marshal response = found_or response.echo []

abbrev conf : ConnConf
conf = record {
  ops_cancel_time_out = pos 10;
  send_max_msg_size = pos 1000;
  recv_max_msg_size = pos 1000;
}

abbrev hi : Bytes
hi = 104 ∷ 105 ∷ []

abbrev working : TcpConnAsync
working = record (new_connection fresh_socket) {
  net = record { conn_stat = ConnStat.working; socket = fresh_socket };
}

working-IsUnused : IsUnused working
unfolding new_connection
working-IsUnused = record {
  ready = record { works = refl; live = refl };
  idle = refl;
  no_write = refl;
  nothing_written = refl;
  nothing_queued = refl;
}

abbrev executor : Executor TcpConnAsync
executor = record {
  service_impl = working;
  rpc_queue = [];
  conf = record {
    exec_thread_number = pos 1;
    exec_thread_number_hard = pos 1;
    exec_thread_step_size = pos 0;
  };
  threads = pos 1;
}

abbrev dispatcher : Dispatcher (Executor TcpConnAsync)
dispatcher = record { initialized = true; services = (1, executor) ∷ [] }

registered : find 1 dispatcher.services ≡ some executor
unfolding find
registered = refl

call-IsRequest : IsRequest (of_call 1 1 hi)
unfolding of_call
call-IsRequest = record {
  header = record {
    magic_fits = omega arith;
    version_fits = omega arith;
    service_fits = omega arith;
    opcode_fits = omega arith;
    rev1_zero = refl;
    rev2_zero = refl;
  };
  magic = refl;
  version = refl;
  fits = omega arith;
}

hi_not_empty : hi ≢ []
hi_not_empty e = absurd (omega (arith, ap length e))

-- The connection once it has sent the answer.
abbrev done : TcpConnAsync
done =
    complete_writes conf 2
      (service_turn (on_request little unmarshal marshal conf 5) (
        Executor.handle_rpc executor
          (holding 5 (of_call 1 1 hi) (Request.net_str big (of_call 1 1 hi))))).service_impl

abbrev echo : Message
echo = answer little unmarshal marshal conf 5 1 hi

echo_length : echo.header.length ≡ 24
unfolding of_data Response.net_str of_reply htobe16 mem16 mem32
echo_length = refl

echo_size : length (net_str little echo) ≡ 40
unfolding of_data net_str Response.net_str of_reply htobe16 htobe32 mem16 mem32
echo_size = refl

call_size : length (net_str big (request_message big 1 1 hi)) ≡ 34
unfolding of_data net_str Request.net_str of_call htobe16 htobe32 mem16 mem32
call_size = refl

abbrev fresh_client : RpcClientImpl
fresh_client = new_client (record { send_max_msg_size = 0; recv_max_msg_size = 1000 })

fresh_client-IsIdle : IsIdle (connection fresh_client)
unfolding new_client Client_sync.new_connection
fresh_client-IsIdle = record { works = refl; unsent = refl; unread = refl }

echo-IsAnswer : IsAnswer fresh_client.limits echo
unfolding of_data Response.net_str of_reply htobe16 mem16 mem32 new_client
echo-IsAnswer = record {
  header = of_data-IsHeader (Response.net_str little (of_reply 1 1 (echo_prefix ++ hi)));
  magic = refl;
  version = refl;
  measured = refl;
  fits = omega arith;
  within = inr (omega arith);
}

call_rpc-echo_example :
    (impl' : RpcClientImpl) × (call_rpc big
        (healthy 1 (done.net.socket.written ∷ []))
        1
        1
        hi
        []
        30
        fresh_client
      ≡ finished ok (echoed little unmarshal marshal hi) impl')
    × IsIdle (connection impl')
unfolding new_client
call_rpc-echo_example =
    call_rpc-echo little unmarshal marshal conf 5 big 1 hi hi 2 1 30 dispatcher executor [] done
      (done.net.socket.written ∷ []) fresh_client registered call-IsRequest hi_not_empty refl
      working-IsUnused refl (inr (omega (arith, echo_length))) (omega (arith, echo_size))
      fresh_client-IsIdle (inl refl) (omega (arith, call_size)) (omega (arith, call_size))
      echo-IsAnswer
      (answered_echo little unmarshal marshal conf 5 big 1 hi hi 2 dispatcher executor registered
        call-IsRequest hi_not_empty)
      (append-nil done.net.socket.written)
