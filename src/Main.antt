-- ===== src/Main.antt =====
-- main.cpp: the program, its options and the order of its start.
-- The options that getopt finds, and whether the set-up of SSL and the call of daemon succeed, are
-- arguments; the settings that stand in a file are those that `world` gives. The text that is printed, the
-- pid file, the signals and the time are left out.
use tzrpc.Prelude.{
  ℕ, ◌≡◌, Bool, true, false, not, ◌&&◌, Option, none, some, List, [], ◌∷◌, ◌++◌, take, arith,
  Bool-cases, inl, inr, if◌then◌else◌,
}
use tzrpc.Core.Endian.{Bytes}
use tzrpc.Rpc.Executor.{Executor, ExecutorConf}
use tzrpc.Protocol.XtraTaskService.{XtraTaskService}
use tzrpc.Captain
use tzrpc.Captain.{Captain, World, new_captain}
use tzrpc.Captain.Startup.{can_start, names_address, init-serves, init-refuses}

-- -c with its argument, -d, -v, -h, and any other.
pub data CommandOption : Type 0 where
  conf_file : Bytes → CommandOption
  daemon version help unknown : CommandOption

pub record Flags : Type 0 where
  pub cfg_file : Bytes
  pub daemonize : Bool

-- PATH_MAX of <linux/limits.h>, and ".conf".
abbrev pub path_max : ℕ
path_max = 4096

abbrev pub conf_suffix : Bytes
conf_suffix = 46 ∷ 99 ∷ 111 ∷ 110 ∷ 102 ∷ []

abbrev pub default_flags : Bytes → Flags
default_flags name = record { cfg_file = name ++ conf_suffix; daemonize = false }

-- The loop over the options; `none` where it exits with EXIT_SUCCESS.
unfoldable pub parse_options : List CommandOption → Flags → Option Flags
parse_options [] f = some f
parse_options (conf_file arg ∷ rest) f =
    parse_options rest (record f { cfg_file = take path_max arg })
parse_options (daemon ∷ rest) f = parse_options rest (record f { daemonize = true })
parse_options (version ∷ rest) f = none
parse_options (help ∷ rest) f = none
parse_options (unknown ∷ rest) f = none

-- How the program ends its start: it exits with a status, an exception ends it, or it serves.
pub data Ending : Type 0 where
  exits : ℕ → Ending
  throws : Ending
  serves : Captain → Ending

module _ (split : Bytes → List Bytes) (trim_copy : Bytes → Bytes) (unset : ExecutorConf)
    (executor_start : Executor XtraTaskService → Executor XtraTaskService) (world : Bytes → World)
    (ssl_setup daemon_call : Bool) where
  -- From the set-up of SSL on. EXIT_FAILURE is 1.
  unfoldable pub start : Flags → Ending
  start f =
      if not ssl_setup
      then exits 1
      else if f.daemonize && not daemon_call
      then exits 1
      else elim (Captain.init split trim_copy unset executor_start (world f.cfg_file) new_captain) [
        | none ↦ throws
        | some (ok, c) ↦ if ok then serves c else exits 1
      ]

  unfoldable pub main : Bytes → List CommandOption → Ending
  unfolding parse_options start
  main name options = elim (parse_options options (default_flags name)) [
    | none ↦ exits 0
    | some f ↦ start f
  ]

  -- Where the options are taken and SSL and, if asked for, the daemon are set up, the program serves
  -- exactly if the Captain can start with the file of the last -c, or of the program's name, and the
  -- acceptor listens, the address to listen at being one; where the Captain cannot start it exits with
  -- EXIT_FAILURE.
  pub main-serves :
      (name : Bytes) (options : List CommandOption) (f : Flags)
      → parse_options options (default_flags name) ≡ some f
      → ssl_setup ≡ true
      → f.daemonize && not daemon_call ≡ false
      → (world f.cfg_file).listens ≡ true
      → names_address split trim_copy unset executor_start (world f.cfg_file) ≡ true
      → (c : Captain) × (main name options ≡ (
          if can_start split trim_copy unset executor_start (world f.cfg_file)
          then serves c
          else exits 1))
  unfolding main start
  main-serves name options f parsed ssl daemons listens address =
      elim (Bool-cases (can_start split trim_copy unset executor_start (world f.cfg_file))) [
        | inl can ↦
            let up =
              init-serves split trim_copy unset executor_start (world f.cfg_file) can listens in
            (up.0, ground (arith, parsed, ssl, daemons, can, up.1))
        | inr cannot ↦
            let down =
              init-refuses split trim_copy unset executor_start (world f.cfg_file) cannot address in
            (new_captain, ground (arith, parsed, ssl, daemons, cannot, down.0))
      ]
