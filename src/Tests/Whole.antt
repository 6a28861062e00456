-- ===== src/Tests/Whole.antt =====
-- A server with two connections, at concrete events.
use tzrpc.Prelude.{none, ◌+◌, ◌≡◌, refl, true, Option, some, none, List, [], ◌∷◌}
use tzrpc.Prelude.Int.{pos}
use tzrpc.Core.Endian.{Bytes, little, big}
use tzrpc.Network.NetConf.{found_or}
use tzrpc.Rpc.Request
use tzrpc.Rpc.Request.{of_call}
use tzrpc.Rpc.Executor.{Executor}
use tzrpc.Protocol.XtraTaskService.{ReadRequest, ReadResponse, XtraTaskService}
use tzrpc.Protocol.XtraTaskService as XtraTaskService
use tzrpc.Protocol.XtraTaskService.Answers.{length-handle_rpc}
use tzrpc.Rpc.RpcInstance.{RpcInstance}
use tzrpc.Core.Message.{Message}
use tzrpc.Server.{Server, Event, arrives, takes, finishes, leaves, run}
use tzrpc.Server.Counting.{accounted, requests, handed_by}
use tzrpc.Server.Draining.{work_off}
use tzrpc.Server.Completion.{run-work_off}
use tzrpc.Server.Answering.{accounted-run}
use tzrpc.Server.Alone.{alone}
use tzrpc.Server.Isolation.{own_events, received, received_by, alone-run}

abbrev unmarshal : Bytes → Option ReadRequest
unmarshal bytes = some (record { ping = none; gets = none; echo = some bytes; timeout = none })

abbrev marshal : ReadResponse → Bytes
marshal response = found_or response.echo []

abbrev service : RpcInstance → List Message
service = XtraTaskService.handle_rpc little unmarshal marshal

abbrev executor : Executor XtraTaskService
executor = record {
  service_impl = record { instance_name = []; conf_ptr = none };
  rpc_queue = [];
  conf = record {
    exec_thread_number = pos 1;
    exec_thread_number_hard = pos 1;
    exec_thread_step_size = pos 0;
  };
  threads = pos 1;
}

abbrev server : Server
server = record {
  dispatcher = record { initialized = true; services = (1, executor) ∷ [] };
  taken = [];
  handed = [];
  gone = [];
}

-- A request of connection 7 and one of connection 9 are in the hands of two threads when connection 9
-- ends; the second thread is done first. The last request of connection 7 waits.
abbrev events : List Event
events =
    arrives 7 (Request.net_str big (of_call 1 1 (104 ∷ 105 ∷ [])))
    ∷ arrives 9 (Request.net_str little (of_call 1 1 (5 ∷ [])))
    ∷ arrives 9 (1 ∷ 2 ∷ [])
    ∷ takes 1
    ∷ takes 1
    ∷ leaves 9
    ∷ finishes 1
    ∷ finishes 0
    ∷ arrives 9 (3 ∷ [])
    ∷ arrives 7 (Request.net_str big (of_call 1 2 (6 ∷ [])))
    ∷ []

accounted-run_example :
    accounted 7 (run little service events server) ≡ accounted 7 server + requests 7 events
accounted-run_example =
    accounted-run little service (length-handle_rpc little unmarshal marshal) 7 events server refl
      refl

run-work_off_example :
    handed_by 7
      (run little service
        (work_off (run little service events server))
        (run little service events server)).handed
    ≡ accounted 7 server + requests 7 events
run-work_off_example =
    run-work_off little service (length-handle_rpc little unmarshal marshal) 7 events server
      (refl, tt) refl refl

alone-run_example :
    (alone 7 (run little service events server)
      ≡ run little service (own_events little service 7 server events) (alone 7 server))
    × (received (own_events little service 7 server events) ≡ received_by 7 events)
alone-run_example = alone-run little service 7 events server
