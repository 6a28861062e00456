-- ===== src/Protocol/XtraTaskService.antt =====
-- source/Protocol/ServiceImpl/XtraTaskService.{h,cpp}: a service of the repository, its settings and its
-- two operations. The messages that protobuf generates are records of what is set, and its encoding and
-- decoding are arguments; sleeping and the log are left out.
pub mod Answers
pub mod Echo
use tzrpc.Prelude.{
  ℕ, Bool, true, false, not, Option, none, some, List, [], ◌∷◌, ◌++◌, ◌==◌, is_empty, if◌then◌else◌,
}
use tzrpc.Prelude.Int.{ℤ, pos, negsuc, eqb_ℤ}
use tzrpc.Core.Endian.{Endian, Bytes}
use tzrpc.Core.Message.{Message}
use tzrpc.Rpc.Response.{RpcResponseStatus}
use tzrpc.Rpc.RpcInstance.{RpcInstance, reply_rpc_message, reject}
use tzrpc.Rpc.Executor
use tzrpc.Rpc.Executor.{ExecutorConf, ServiceSetting}
use tzrpc.Network.NetConf.{found_or, same_bytes}

-- `conf_ptr` is the pointer to the settings, if it is set.
pub record XtraTaskService : Type 0 where
  pub instance_name : Bytes
  pub conf_ptr : Option ExecutorConf

unfoldable pub new_service : Bytes → XtraTaskService
new_service name = record { instance_name = name; conf_ptr = none }

-- `new ServiceConf()`
abbrev pub zero_conf : ExecutorConf
zero_conf = record {
  exec_thread_number = pos 0;
  exec_thread_number_hard = pos 0;
  exec_thread_step_size = pos 0;
}

-- `unset` is what the local variable `conf` holds, which nothing sets. The error path returns -1, which
-- is true.
unfoldable pub handle_rpc_service_conf :
    ExecutorConf → ServiceSetting → XtraTaskService → Bool × XtraTaskService
handle_rpc_service_conf unset setting s =
    let made = record s { conf_ptr = some (found_or s.conf_ptr zero_conf) } in
    let (ret, conf) = Executor.handle_rpc_service_conf setting unset in
    if not (eqb_ℤ ret (pos 0)) then (true, made) else (true, record made { conf_ptr = some conf })

-- The loop of `init`; the first service of the same name decides.
unfoldable pub init_from :
    ExecutorConf → List ServiceSetting → XtraTaskService → Bool × XtraTaskService
unfolding handle_rpc_service_conf
init_from unset [] s = (false, s)
init_from unset (service ∷ rest) s =
    let next = init_from unset rest s in
    let name : Bytes = found_or service.instance_name [] in
    if is_empty name
    then next
    else if same_bytes name s.instance_name
    then handle_rpc_service_conf unset service s
    else next

-- `rpc_services` is what stands under `rpc.services`, if it is there.
unfoldable pub init :
    ExecutorConf → Option (List ServiceSetting) → XtraTaskService → Bool × XtraTaskService
unfolding init_from
init unset none s = (false, s)
init unset (some rpc_services) s = init_from unset rpc_services s

-- Without settings the source goes through a null pointer, which is the `none`.
unfoldable pub get_executor_conf : XtraTaskService → Option ExecutorConf
get_executor_conf s = s.conf_ptr

-- The result is a bool of which 0 is success; the caller makes an int of it.
unfoldable pub handle_rpc_service_runtime_conf :
    ExecutorConf → ServiceSetting → XtraTaskService → Bool × XtraTaskService
handle_rpc_service_runtime_conf unset setting s =
    let (ret, conf) = Executor.handle_rpc_service_conf setting unset in
    if not (eqb_ℤ ret (pos 0)) then (true, s) else (false, record s { conf_ptr = some conf })

unfoldable pub runtime_from :
    ExecutorConf → List ServiceSetting → XtraTaskService → ℤ × XtraTaskService
unfolding handle_rpc_service_runtime_conf
runtime_from unset [] s = (negsuc 0, s)
runtime_from unset (service ∷ rest) s =
    let next = runtime_from unset rest s in
    if same_bytes (found_or service.instance_name []) s.instance_name
    then (let (failed, s') = handle_rpc_service_runtime_conf unset service s in
        (if failed then pos 1 else pos 0, s'))
    else next

-- `rpc_services` is what stands under `rpc_services`, which is not the path that `init` reads.
unfoldable pub module_runtime :
    ExecutorConf → Option (List ServiceSetting) → XtraTaskService → ℤ × XtraTaskService
unfolding runtime_from
module_runtime unset none s = (negsuc 0, s)
module_runtime unset (some rpc_services) s = runtime_from unset rpc_services s

-- The fields of XtraReadOps.Request and XtraReadOps.Response that are set.
pub record ReadRequest : Type 0 where
  pub ping : Option Bytes
  pub gets : Option Bytes
  pub echo : Option Bytes
  pub timeout : Option ℤ

pub record ReadResponse : Type 0 where
  pub code : ℤ
  pub msg : Bytes
  pub ping : Option Bytes
  pub gets : Option Bytes
  pub echo : Option Bytes
  pub timeout : Option Bytes

-- "OK", "参数错误", "[[[pong]]]", "echo:", "you should not see this." and "nicol_write_reply".
abbrev pub msg_ok : Bytes
msg_ok = 79 ∷ 75 ∷ []

abbrev pub msg_bad_argument : Bytes
msg_bad_argument = 229 ∷ 143 ∷ 130 ∷ 230 ∷ 149 ∷ 176 ∷ 233 ∷ 148 ∷ 153 ∷ 232 ∷ 175 ∷ 175 ∷ []

abbrev pub pong : Bytes
pong = 91 ∷ 91 ∷ 91 ∷ 112 ∷ 111 ∷ 110 ∷ 103 ∷ 93 ∷ 93 ∷ 93 ∷ []

abbrev pub echo_prefix : Bytes
echo_prefix = 101 ∷ 99 ∷ 104 ∷ 111 ∷ 58 ∷ []

abbrev pub timeout_text : Bytes
timeout_text =
    121 ∷ 111 ∷ 117 ∷ 32 ∷ 115 ∷ 104 ∷ 111 ∷ 117 ∷ 108 ∷ 100 ∷ 32 ∷ 110 ∷ 111 ∷ 116 ∷ 32 ∷ 115 ∷ 101
    ∷ 101 ∷ 32 ∷ 116 ∷ 104 ∷ 105 ∷ 115 ∷ 46 ∷ []

abbrev pub write_reply : Bytes
write_reply =
    110 ∷ 105 ∷ 99 ∷ 111 ∷ 108 ∷ 95 ∷ 119 ∷ 114 ∷ 105 ∷ 116 ∷ 101 ∷ 95 ∷ 114 ∷ 101 ∷ 112 ∷ 108 ∷ 121
    ∷ []

abbrev pub cmd_read : ℕ
cmd_read = 1

abbrev pub cmd_write : ℕ
cmd_write = 2

abbrev pub ok_response : ReadResponse
ok_response = record {
  code = pos 0;
  msg = msg_ok;
  ping = none;
  gets = none;
  echo = none;
  timeout = none;
}

-- The response to a request that could be decoded; `none` where no field of it is set.
unfoldable pub respond : ReadRequest → Option ReadResponse
respond request = elim (request.ping) [
  | some msg ↦ some (record ok_response { ping = some pong })
  | none ↦ elim (request.gets) [
    | some key ↦ some (record ok_response { gets = some pong })
    | none ↦ elim (request.echo) [
      | some msg ↦ some (record ok_response { echo = some (echo_prefix ++ msg) })
      | none ↦ elim (request.timeout) [
        | some sec ↦ some (record ok_response { timeout = some timeout_text })
        | none ↦ none
      ]
    ]
  ]
]

module _ (host : Endian) (unmarshal : Bytes → Option ReadRequest)
    (marshal : ReadResponse → Bytes) where
  unfoldable pub read_ops_impl : RpcInstance → List Message
  unfolding respond
  read_ops_impl i =
      if not (i.rpc_request_message.header.opcode == cmd_read)
      then reject host i RpcResponseStatus.invalid_request
      else elim (unmarshal i.rpc_request_message.payload) [
        | none ↦
            reply_rpc_message host i
              (marshal (record ok_response { code = negsuc 0; msg = msg_bad_argument }))
        | some request ↦ elim (respond request) [
          | none ↦ reject host i RpcResponseStatus.invalid_request
          | some response ↦ reply_rpc_message host i (marshal response)
        ]
      ]

  unfoldable pub write_ops_impl : RpcInstance → List Message
  write_ops_impl i = reply_rpc_message host i write_reply

  unfoldable pub handle_rpc : RpcInstance → List Message
  unfolding read_ops_impl write_ops_impl
  handle_rpc i =
      if i.opcode == cmd_read
      then read_ops_impl i
      else if i.opcode == cmd_write
      then write_ops_impl i
      else reject host i RpcResponseStatus.invalid_request
