-- ===== src/Client/RpcClient/Setup.antt =====
-- The clients that the constructors of source/Client/RpcClient.cpp make, and the calls on them.
use tzrpc.Prelude.{
  ℕ, ◌%◌, ◌^◌, ◌≡◌, Bool, true, false, not, ◌&&◌, Option, none, some, [], ◌==◌, ltb, is_empty,
  arith, if◌then◌else◌,
}
use tzrpc.Core.Endian.{Bytes}
use tzrpc.Network.NetConf.{found_or}
use tzrpc.Client.RpcClientImpl as Impl
use tzrpc.Client.RpcClientImpl.{RpcClientImpl, Env, new_client}
use tzrpc.Client.RpcClient.{
  ClientConf, RpcClientSetting, RpcClient, limits_of, ConfigFile, file_io_exception,
  parse_exception, other_exception, client, init_addr, init_limits, init_setting, init_file,
  constructed, from_conf, from_file,
}

-- The settings that a client takes: an address that is not empty, a port that is not 0, and a log level
-- of at most 7 if there is one.
abbrev pub is_valid : ClientConf → Bool
is_valid conf =
    elim (conf.serv_addr) [ none ↦ false | some addr ↦ not (is_empty addr) ]
    && elim (conf.serv_port) [ none ↦ false | some port ↦ not (port == 0) ]
    && elim (conf.log_level) [ none ↦ true | some level ↦ not (ltb 7 level) ]

-- The settings in a file, if there are any and they are valid.
abbrev pub valid_in : ConfigFile → Option ClientConf
valid_in file_io_exception = none
valid_in parse_exception = none
valid_in other_exception = none
valid_in (client conf) = if is_valid conf then some conf else none

module _ {W : Type 0} (handler : Option (W → ℕ → ℕ → ℕ → Bytes → W)) where
  -- The settings of the client that is made of them.
  abbrev pub settled : ClientConf → RpcClientSetting W
  settled conf = record {
    serv_addr = found_or conf.serv_addr [];
    serv_port = found_or conf.serv_port 0 % 2 ^ 16;
    send_max_msg_size = found_or conf.send_max_msg_size 0;
    recv_max_msg_size = found_or conf.recv_max_msg_size 0;
    log_level = found_or conf.log_level 7;
    handler = handler;
    io_service = false;
  }

  -- An initialized client with these settings and no connection.
  abbrev pub ready_client : RpcClientSetting W → RpcClient W
  ready_client setting = record {
    initialized = true;
    client_setting = setting;
    impl = some (new_client (limits_of setting));
  }

  pub from_conf_lem :
      (roo : Bool) (conf : ClientConf)
      → from_conf roo conf handler
        ≡ (if is_valid conf && roo then some (ready_client (settled conf)) else none)
  unfolding from_conf init_setting init_limits init_addr constructed Impl.init
  from_conf_lem roo conf = ground arith

  -- A client is made of a configuration file exactly where the file can be read and holds an
  -- address that is not empty, a port that is not 0 and, if any, a log level of at most 7, and an
  -- I/O service can be had; otherwise the constructor throws. The client is initialized with these
  -- settings, the port taken modulo 2 ^ 16, no limit where the file sets none, and no connection
  -- yet.
  pub from_file_lem :
      (roo : Bool) (file : ConfigFile)
      → from_file roo file handler ≡ (
          if roo
          then elim (valid_in file) [ none ↦ none | some conf ↦ some (ready_client (settled conf)) ]
          else none)
  unfolding from_file init_file init_setting init_limits init_addr constructed Impl.init
  from_file_lem roo file = ground (arith, file)
