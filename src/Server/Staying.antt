-- ===== src/Server/Staying.antt =====
-- How long a connection of the server is there.
use tzrpc.Prelude.{ℕ, ◌≡◌, ap, ◌∙◌, true, false, List, [], ◌∷◌, ◌==◌, arith}
use tzrpc.Core.Endian.{Endian, Bytes}
use tzrpc.Core.Message.{Message}
use tzrpc.Rpc.RpcInstance.{RpcInstance}
use tzrpc.Server.{
  Server, has_number, Event, arrives, takes, finishes, leaves, take_request, arrive, finish, step,
  run,
}
use tzrpc.Server.Counting.{stays}

-- Only its end makes a connection go.
module _ (host : Endian) (service : RpcInstance → List Message) (k : ℕ) where
  pub arrive-gone :
      (conn : ℕ) (payload : Bytes) (srv : Server)
      → (arrive host service conn payload srv).gone ≡ srv.gone
  unfolding arrive
  arrive-gone conn payload srv = ground arith

  pub take_request-gone : (id : ℕ) (srv : Server) → (take_request id srv).gone ≡ srv.gone
  unfolding take_request
  take_request-gone id srv = ground arith

  pub finish-gone : (n : ℕ) (srv : Server) → (finish host service n srv).gone ≡ srv.gone
  unfolding finish
  finish-gone n srv = ground arith

  pub run-gone :
      (events : List Event) (srv : Server)
      → has_number k srv.gone ≡ false
      → stays k events ≡ true
      → has_number k (run host service events srv).gone ≡ false
  unfolding run step
  run-gone [] srv there stay = there
  run-gone (arrives conn payload ∷ rest) srv there stay =
      run-gone rest (arrive host service conn payload srv)
        (ap (has_number k) (arrive-gone conn payload srv) ∙ there) stay
  run-gone (takes id ∷ rest) srv there stay =
      run-gone rest (take_request id srv) (ap (has_number k) (take_request-gone id srv) ∙ there)
        stay
  run-gone (finishes n ∷ rest) srv there stay =
      run-gone rest (finish host service n srv) (ap (has_number k) (finish-gone n srv) ∙ there) stay
  run-gone (leaves conn ∷ rest) srv there stay =
      let other : (conn == k) ≡ false = ground (arith, stay) in
      run-gone rest (record srv { gone = conn ∷ srv.gone }) (ground (arith, other, there))
        (rw other at stay)
