-- ===== src/Client/TcpConnAsync/Refinement.antt =====
-- A whole run of a connection of source/Client/TcpConnAsync.cpp against that of
-- source/Network/TcpConnAsync.cpp.
use mathlib.Core.Option
use tzrpc.Prelude.{◌≡◌, refl, ap, ◌∙◌, Option, none, some, List, [], ◌∷◌}
use tzrpc.Core.Endian.{Endian, Bytes}
use tzrpc.Core.Message.{Message}
use tzrpc.Network.TcpConnAsync as Server
use tzrpc.Network.TcpConnAsync.{ConnConf}
use tzrpc.Network.TcpConnAsync.Read as Server_read
use tzrpc.Client.TcpConnSync.{ClientLimits}
use tzrpc.Client.TcpConnAsync as Client
use tzrpc.Client.TcpConnAsync.{TcpConnAsync}
use tzrpc.Client.TcpConnAsync.Simulation.{
  as_server, server_conf, IsLimits, lift, bind-lift, silent, on_payload, send_net_message-as_server,
  complete_write-as_server,
}
use tzrpc.Client.TcpConnAsync.Simulation.Reading.{complete_read-as_server}

-- What happens to a connection without an error of the socket: the user sends a message, a write has
-- ended, or a read has.
pub data Event : Type 0 where
  sends : Message → Event
  write_ends : Event
  read_ends : Bytes → Event

module _ {W : Type 0} (host : Endian) where
  unfoldable pub client_step :
      ClientLimits → (W → Bytes → W) → Event → W × TcpConnAsync → Option (W × TcpConnAsync)
  client_step limits handler (sends m) s = some (s.0, (Client.send_net_message host limits s.1 m).1)
  client_step limits handler write_ends s = some (s.0, Client.complete_write s.1 none)
  client_step limits handler (read_ends bytes) s =
      Client.complete_read host limits (on_payload handler) s.0 s.1 none bytes

  unfoldable pub client_run :
      ClientLimits → (W → Bytes → W) → List Event → W × TcpConnAsync → Option (W × TcpConnAsync)
  unfolding client_step
  client_run limits handler [] s = some s
  client_run limits handler (e ∷ rest) s =
      Option.bind (client_step limits handler e s) (client_run limits handler rest)

  unfoldable pub server_step :
      ConnConf
      → (W → Bytes → W × List Message)
      → Event
      → W × Server.TcpConnAsync
      → Option (W × Server.TcpConnAsync)
  server_step conf handle_rpc (sends m) s =
      some (s.0, (Server.async_send_message host conf s.1 m).1)
  server_step conf handle_rpc write_ends s = some (s.0, Server.complete_write conf s.1 none)
  server_step conf handle_rpc (read_ends bytes) s =
      Server_read.complete_read host conf handle_rpc s.0 s.1 none bytes

  unfoldable pub server_run :
      ConnConf
      → (W → Bytes → W × List Message)
      → List Event
      → W × Server.TcpConnAsync
      → Option (W × Server.TcpConnAsync)
  unfolding server_step
  server_run conf handle_rpc [] s = some s
  server_run conf handle_rpc (e ∷ rest) s =
      Option.bind (server_step conf handle_rpc e s) (server_run conf handle_rpc rest)

  module _ (limits : ClientLimits) (v : IsLimits limits) (handler : W → Bytes → W) where
    step-as_server :
        (e : Event) (w : W) (c : TcpConnAsync)
        → server_step (server_conf limits) (silent handler) e (w, as_server c)
          ≡ lift (client_step limits handler e (w, c))
    unfolding server_step client_step
    step-as_server (sends m) w c =
        ap (λ (d : Server.TcpConnAsync). some (w, d)) (send_net_message-as_server host limits c m v)
    step-as_server write_ends w c =
        ap (λ (d : Server.TcpConnAsync). some (w, d)) (complete_write-as_server limits c)
    step-as_server (read_ends bytes) w c = complete_read-as_server host limits v handler w c bytes

    -- The client's connection refines the server's with its limits and without a timer. Whatever
    -- sends, ends of writes and ends of reads with whatever bytes follow each other, as long as the
    -- socket has no error, both give their handlers the same payloads and end in the same state:
    -- the same bytes on the socket and in the buffers, and the same reads and writes in progress.
    -- The limits are of type uint32_t.
    pub client_run-as_server :
        (events : List Event) (w : W) (c : TcpConnAsync)
        → server_run (server_conf limits) (silent handler) events (w, as_server c)
          ≡ lift (client_run limits handler events (w, c))
    unfolding server_run client_run
    client_run-as_server [] w c = refl
    client_run-as_server (e ∷ rest) w c =
        ap
          (λ (r : Option (W × Server.TcpConnAsync)).
            Option.bind r (server_run (server_conf limits) (silent handler) rest))
          (step-as_server e w c)
        ∙ bind-lift (client_step limits handler e (w, c)) (client_run limits handler rest)
            (server_run (server_conf limits) (silent handler) rest) (client_run-as_server rest)
