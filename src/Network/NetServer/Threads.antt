-- ===== src/Network/NetServer/Threads.antt =====
-- source/Network/NetServer.{h,cpp}: the threads that run the handlers of all connections.
-- The io_service is boost's and the pool is Roo's, so what a thread finds in each round is an argument.
use tzrpc.Prelude.{
  ℕ, suc, ◌≡◌, refl, Bool, true, false, Option, none, some, List, [], ◌∷◌, ◌++◌, arith,
}
use tzrpc.Network.NetConn.{ErrorCode}
use tzrpc.Rpc.Executor.{ThreadStatus, terminating, suspend, running}

-- A round of the loop: the status of the thread, and how `io_service_.run` ends if it is called.
pub record IoRound : Type 0 where
  pub status : ThreadStatus
  pub run : Option ErrorCode

-- How often `run` was called, and whether the thread has left the loop and is dead.
pub record IoThread : Type 0 where
  pub runs : ℕ
  pub dead : Bool

abbrev pub leave : ℕ → IoThread
leave n = record { runs = n; dead = true }

abbrev pub after_run : Option ErrorCode → IoThread → IoThread → IoThread
after_run none goes_on stopped = goes_on
after_run (some ec) goes_on stopped = stopped

-- The rounds in which the loop goes on are the suspended ones and those without an error.
unfoldable pub io_service_run : List IoRound → ℕ → IoThread
io_service_run [] n = record { runs = n; dead = false }
io_service_run (round ∷ rest) n = elim (round.status) [
  | terminating ↦ leave n
  | suspend ↦ io_service_run rest n
  | running ↦ after_run (round.run) (io_service_run rest (suc n)) (leave (suc n))
]

-- A thread that is told to terminate ends, whatever its rounds before were.
pub io_service_run-dead :
    (before after : List IoRound) (run : Option ErrorCode) (n : ℕ)
    → (io_service_run (before ++ (record { status = terminating; run = run } ∷ after)) n).dead
      ≡ true
unfolding io_service_run
io_service_run-dead [] after run n = refl
io_service_run-dead (round ∷ rest) after run n =
    ground (arith, io_service_run-dead rest after run n, io_service_run-dead rest after run (suc n))
