-- ===== src/Tests/Pipeline.antt =====
-- Two asynchronous calls on their way to a service that counts requests.
use tzrpc.Prelude.{
  ℕ, ◌+◌, ◌≤◌, ◌≡◌, ◌≢◌, refl, ap, true, some, List, [], ◌∷◌, ◌++◌, append-nil, map, foldl, take,
  drop, arith, length, inr,
}
use tzrpc.Prelude.Int.{pos}
use tzrpc.Core.Endian.{little, big, Bytes, htobe16, htobe32, mem16, mem32}
use tzrpc.Core.Message.{of_data, net_str}
use tzrpc.Core.Message.Codec.{of_data-IsHeader}
use tzrpc.Network.TcpConnAsync as Server
use tzrpc.Network.TcpConnAsync.{ConnConf}
use tzrpc.Network.TcpConnAsync.Parsing.{IsAccepted, stream}
use tzrpc.Network.TcpConnAsync.Stream.{joined}
use tzrpc.Network.TcpConnAsync.Read.{serve}
use tzrpc.Rpc.Request
use tzrpc.Rpc.Request.{of_call}
use tzrpc.Rpc.RpcInstance.{RpcInstance}
use tzrpc.Rpc.Executor.{Executor, ThreadStatus, running, terminating, executor_service_run}
use tzrpc.Rpc.Executor.Order.{working, told}
use tzrpc.Rpc.Dispatcher.{Dispatcher, find}
use tzrpc.Client.TcpConnSync.{ClientLimits}
use tzrpc.Client.TcpConnAsync.{TcpConnAsync, complete_writes}
use tzrpc.Client.TcpConnAsync.Simulation.{IsLimits}
use tzrpc.Client.RpcClientImpl.{RpcClientImpl, new_client}
use tzrpc.Client.RpcClientImpl.Async.Calls.{Call, message_of, call_all}
use tzrpc.Pipeline.{IsCallOf, instance_of, take_payload, messages, call_all-executor_service_run}

abbrev limits : ClientLimits
limits = record { send_max_msg_size = 1000; recv_max_msg_size = 1000 }

limits-IsLimits : IsLimits limits
limits-IsLimits = record { sends = omega arith; recvs = omega arith }

-- The user's handler notes what every call answers.
abbrev noted : List (ℕ × ℕ × ℕ × Bytes) → ℕ → ℕ → ℕ → Bytes → List (ℕ × ℕ × ℕ × Bytes)
noted seen status service opcode bytes = seen ++ ((status, service, opcode, bytes) ∷ [])

abbrev ask : Call
ask = record { service = 1; opcode = 2; payload = 7 ∷ 8 ∷ []; timeout_sec = 30 }

abbrev again : Call
again = record { service = 1; opcode = 3; payload = 5 ∷ []; timeout_sec = 0 }

abbrev calls : List Call
calls = ask ∷ again ∷ []

abbrev conf : ConnConf
conf = record {
  ops_cancel_time_out = pos 10;
  send_max_msg_size = pos 1000;
  recv_max_msg_size = pos 1000;
}

abbrev count : ℕ → RpcInstance → ℕ
count n i = n + 1

abbrev idle : Executor ℕ
idle = record {
  service_impl = 0;
  rpc_queue = [];
  conf = record {
    exec_thread_number = pos 1;
    exec_thread_number_hard = pos 1;
    exec_thread_step_size = pos 0;
  };
  threads = pos 1;
}

abbrev dispatcher : Dispatcher (Executor ℕ)
dispatcher = record { initialized = true; services = (1, idle) ∷ [] }

registered : find 1 dispatcher.services ≡ some idle
unfolding find
registered = refl

abbrev asked : Bytes
asked = stream little (messages big little count 5 1 (some noted) calls)

asked_size : length asked ≡ 67
unfolding of_data net_str Request.net_str of_call htobe16 htobe32 mem16 mem32
asked_size = refl

ask-within : (message_of little (some noted) ask).header.length ≤ 1000
unfolding of_data Request.net_str of_call htobe16 mem16 mem32
ask-within = omega arith

again-within : (message_of little (some noted) again).header.length ≤ 1000
unfolding of_data Request.net_str of_call htobe16 mem16 mem32
again-within = omega arith

ask-IsAccepted : IsAccepted conf (message_of little (some noted) ask)
unfolding of_data Request.net_str of_call htobe16 mem16 mem32
ask-IsAccepted = record {
  header = of_data-IsHeader (Request.net_str little (of_call 1 2 (7 ∷ 8 ∷ [])));
  magic = refl;
  version = refl;
  measured = refl;
  fits = omega arith;
  within = inr (omega arith);
}

again-IsAccepted : IsAccepted conf (message_of little (some noted) again)
unfolding of_data Request.net_str of_call htobe16 mem16 mem32
again-IsAccepted = record {
  header = of_data-IsHeader (Request.net_str little (of_call 1 3 (5 ∷ [])));
  magic = refl;
  version = refl;
  measured = refl;
  fits = omega arith;
  within = inr (omega arith);
}

some_byte : (b : ℕ) (bs : Bytes) → (b ∷ bs) ≢ []
some_byte b bs e = absurd (omega (arith, ap length e))

ask-IsCallOf : IsCallOf 1 ask
unfolding of_call
ask-IsCallOf = record {
  asked = refl;
  request = record {
    header = record {
      magic_fits = omega arith;
      version_fits = omega arith;
      service_fits = omega arith;
      opcode_fits = omega arith;
      rev1_zero = refl;
      rev2_zero = refl;
    };
    magic = refl;
    version = refl;
    fits = omega arith;
  };
  some_payload = some_byte 7 (8 ∷ []);
}

again-IsCallOf : IsCallOf 1 again
unfolding of_call
again-IsCallOf = record {
  asked = refl;
  request = record {
    header = record {
      magic_fits = omega arith;
      version_fits = omega arith;
      service_fits = omega arith;
      opcode_fits = omega arith;
      rev1_zero = refl;
      rev2_zero = refl;
    };
    magic = refl;
    version = refl;
    fits = omega arith;
  };
  some_payload = some_byte 5 [];
}

-- The thread works once and is told to terminate, so that the second request stays in the queue.
abbrev statuses : List ThreadStatus
statuses = running ∷ terminating ∷ []

call_all-executor_service_run_example :
    (impl' : RpcClientImpl) × (c : TcpConnAsync) × (d' : Dispatcher (Executor ℕ)) × (e' : Executor
      ℕ)
    × (conn : Server.TcpConnAsync) × (call_all little (some noted) calls [] (new_client limits)
        ≡ some ([], impl'))
    × (impl'.conn_async ≡ some c)
    × ((complete_writes (length (joined (asked ∷ [])) + 1) c).net.socket.written
        ≡ joined (asked ∷ []))
    × (serve big conf (take_payload big little count 5 1 (some noted)) dispatcher (asked ∷ [])
        ≡ some (d', conn))
    × (find 1 d'.services ≡ some e')
    × (executor_service_run count statuses e' ≡ (
      told statuses,
      record idle {
        service_impl = foldl count 0 (take (working statuses) (map (instance_of little 5) calls));
        rpc_queue = drop (working statuses) (map (instance_of little 5) calls);
      },
    ))
unfolding new_client
call_all-executor_service_run_example =
    call_all-executor_service_run big little count 5 1 (some noted) conf dispatcher idle statuses
      ask (again ∷ []) [] (new_client limits) (asked ∷ []) limits-IsLimits refl
      (inr ask-within, (inr again-within, tt)) (omega (arith, asked_size))
      (ask-IsAccepted, (again-IsAccepted, tt)) (ask-IsCallOf, (again-IsCallOf, tt)) registered refl
      (omega (arith, asked_size), tt) (append-nil asked)
