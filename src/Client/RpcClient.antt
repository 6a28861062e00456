-- ===== src/Client/RpcClient.antt =====
-- source/Client/RpcClient.cpp and source/Client/include/RpcClient.h: the client that an application
-- makes. What libconfig finds, and whether an I/O service can be had, are arguments; the log is left out.
-- `W` is the state that the user's handler changes.
pub mod FirstCall
pub mod Setup
use tzrpc.Prelude.{
  ℕ, ◌%◌, ◌^◌, Bool, true, false, not, ◌||◌, Option, none, some, [], ◌==◌, ltb, is_empty,
  if◌then◌else◌,
}
use tzrpc.Core.Endian.{Endian, Bytes}
use tzrpc.Network.NetConn.{ErrorCode}
use tzrpc.Network.NetConf.{found_or}
use tzrpc.Client.RpcClientStatus.{network_before_error}
use tzrpc.Client.TcpConnSync.{ClientLimits}
use tzrpc.Client.RpcClientImpl as Impl
use tzrpc.Client.RpcClientImpl.{RpcClientImpl, Env, CallOutcome, new_client}
use tzrpc.Client.RpcClientImpl.Async as Impl_async

-- What `lookupValue` finds of a setting; the numbers are of type uint32_t.
pub record ClientConf : Type 0 where
  pub serv_addr : Option Bytes
  pub serv_port : Option ℕ
  pub send_max_msg_size : Option ℕ
  pub recv_max_msg_size : Option ℕ
  pub log_level : Option ℕ

-- What becomes of `readFile` and of the lookup of `rpc.client`.
pub data ConfigFile : Type 0 where
  file_io_exception : ConfigFile
  parse_exception : ConfigFile
  other_exception : ConfigFile
  client : ClientConf → ConfigFile

pub record RpcClientSetting (W : Type 0) : Type 0 where
  pub serv_addr : Bytes
  pub serv_port : ℕ
  pub send_max_msg_size : ℕ
  pub recv_max_msg_size : ℕ
  pub log_level : ℕ
  pub handler : Option (W → ℕ → ℕ → ℕ → Bytes → W)
  pub io_service : Bool

pub record RpcClient (W : Type 0) : Type 0 where
  pub initialized : Bool
  pub client_setting : RpcClientSetting W
  pub impl : Option RpcClientImpl

-- How a synchronous call ends.
pub data ClientOutcome (W : Type 0) : Type 0 where
  answered : ℕ → Bytes → RpcClient W → ClientOutcome W
  blocks : RpcClient W → ClientOutcome W
  throws crashes : ClientOutcome W

module _ {W : Type 0} where
  abbrev pub default_setting : RpcClientSetting W
  default_setting = record {
    serv_addr = [];
    serv_port = 0;
    send_max_msg_size = 0;
    recv_max_msg_size = 0;
    log_level = 7;
    handler = none;
    io_service = false;
  }

  abbrev pub client_of : RpcClientSetting W → RpcClient W
  client_of setting = record { initialized = false; client_setting = setting; impl = none }

  abbrev pub limits_of : RpcClientSetting W → ClientLimits
  limits_of setting = record {
    send_max_msg_size = setting.send_max_msg_size;
    recv_max_msg_size = setting.recv_max_msg_size;
  }

  -- `roo` tells whether an I/O service of Roo's can be set up.
  module _ (roo : Bool) where
    unfoldable pub init_addr : Bytes → ℕ → RpcClient W → Bool × RpcClient W
    init_addr addr port c =
        if c.initialized
        then (true, c)
        else (let setting = record (c.client_setting) { serv_addr = addr; serv_port = port } in
            let made = record c {
              client_setting = setting;
              impl = some (new_client (limits_of setting));
            } in
            if Impl.init setting.io_service roo
            then (true, record made { initialized = true })
            else (false, made))

    -- The port is cast to a uint16_t for the other overload.
    unfoldable pub init_limits : ClientConf → RpcClient W → Bool × RpcClient W
    unfolding init_addr
    init_limits conf c =
        let setting = record (c.client_setting) {
          send_max_msg_size = found_or conf.send_max_msg_size c.client_setting.send_max_msg_size;
          recv_max_msg_size = found_or conf.recv_max_msg_size c.client_setting.recv_max_msg_size;
          log_level = found_or conf.log_level c.client_setting.log_level;
        } in
        let set = record c { client_setting = setting } in
        if elim (conf.log_level) [ none ↦ false | some level ↦ ltb 7 level ]
        then (false, set)
        else init_addr setting.serv_addr (setting.serv_port % 2 ^ 16) set

    -- The checks that a uint32_t is below 0 are never true.
    unfoldable pub init_setting : ClientConf → RpcClient W → Bool × RpcClient W
    unfolding init_limits
    init_setting conf c = elim (conf.serv_addr) [
      | none ↦ (false, c)
      | some addr ↦
          let with_addr = record c {
            client_setting = record (c.client_setting) { serv_addr = addr };
          } in
          elim (conf.serv_port) [
            | none ↦ (false, with_addr)
            | some port ↦
                let with_port = record c {
                  client_setting = record (c.client_setting) { serv_addr = addr; serv_port = port };
                } in
                if is_empty addr || port == 0
                then (false, with_port)
                else init_limits conf with_port
          ]
    ]

    unfoldable pub init_file : ConfigFile → RpcClient W → Bool × RpcClient W
    unfolding init_setting
    init_file file_io_exception c = (false, c)
    init_file parse_exception c = (false, c)
    init_file other_exception c = (false, c)
    init_file (client conf) c = init_setting conf c

    -- A constructor that throws makes no client.
    unfoldable pub constructed : Bool × RpcClient W → Option (RpcClient W)
    constructed (true, c) = some c
    constructed (false, c) = none

    abbrev pub with_handler : Option (W → ℕ → ℕ → ℕ → Bytes → W) → RpcClient W
    with_handler handler = client_of (record default_setting { handler = handler })

    unfoldable pub from_addr : Bytes → ℕ → Option (W → ℕ → ℕ → ℕ → Bytes → W) → Option (RpcClient W)
    unfolding init_addr constructed
    from_addr addr port handler = constructed (init_addr addr port (with_handler handler))

    unfoldable pub from_file :
        ConfigFile → Option (W → ℕ → ℕ → ℕ → Bytes → W) → Option (RpcClient W)
    unfolding init_file constructed
    from_file file handler = constructed (init_file file (with_handler handler))

    unfoldable pub from_conf :
        ClientConf → Option (W → ℕ → ℕ → ℕ → Bytes → W) → Option (RpcClient W)
    unfolding init_setting constructed
    from_conf conf handler = constructed (init_setting conf (with_handler handler))

    unfoldable pub from_setting : RpcClientSetting W → Option (RpcClient W)
    unfolding init_addr constructed
    from_setting setting =
        constructed (init_addr setting.serv_addr (setting.serv_port % 2 ^ 16) (client_of setting))

  abbrev pub outcome_of : RpcClient W → CallOutcome → ClientOutcome W
  outcome_of c (Impl.finished status respload impl) =
      answered status respload (record c { impl = some impl })
  outcome_of c (Impl.hangs impl) = blocks (record c { impl = some impl })
  outcome_of c Impl.throws = throws
  outcome_of c Impl.crashes = crashes

  unfoldable pub call_rpc : Endian → Env → ℕ → ℕ → Bytes → Bytes → ℕ → RpcClient W → ClientOutcome W
  call_rpc host env service_id opcode payload respload timeout_sec c =
      if not c.initialized then answered network_before_error respload c else elim (c.impl) [
        | none ↦ answered network_before_error respload c
        | some impl ↦
            outcome_of c
              (Impl.call_rpc host env service_id opcode payload respload timeout_sec impl)
      ]

  unfoldable pub call_rpc_async :
      Endian
      → Option ErrorCode
      → Bool
      → ℕ
      → ℕ
      → Bytes
      → ℕ
      → W
      → RpcClient W
      → Option (ℕ × W × RpcClient W)
  call_rpc_async host connect expires service_id opcode payload timeout_sec w c =
      if not c.initialized then some (network_before_error, w, c) else elim (c.impl) [
        | none ↦ some (network_before_error, w, c)
        | some impl ↦ elim (c.client_setting.handler) [
          | none ↦ some (network_before_error, w, c)
          | some h ↦
              elim (Impl_async.call_rpc_async host (some h) connect expires service_id opcode
                payload timeout_sec w impl) [
                  | none ↦ none
                  | some (status, w', impl') ↦ some (status, w', record c { impl = some impl' })
                ]
        ]
      ]
