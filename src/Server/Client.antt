-- ===== src/Server/Client.antt =====
-- rtmpserver.cpp, clientCycle and main: what the thread of a client runs, with the actor that createActor
-- makes for it.
--
-- An Environment's actor is replaced by the one that Init and createActor give.
use tvie_rtmp.Base.{ℕ, ◌≡◌, Bool, false, List, Option, none, some}
use tvie_rtmp.Base.Text.{codes}
use tvie_rtmp.Exception.{Thrown, Result, ok, err}
use tvie_rtmp.Connection.{Connection, Environment, new_connection}
use tvie_rtmp.Connection.Receive.{HandleClient}
use tvie_rtmp.Server.{Sockets, Arrival, RtmpServer, new_server, start}
use tvie_rtmp.LiveReceiver.{LiveReceiverActor, live_receiver}
use tvie_rtmp.LiveReceiver.Statics.{Statics, no_statics, init, create_actor}

-- ~RtmpConnection, at the end of clientCycle: the socket is closed.
unfoldable pub destroy_connection : {A : Type 0} → Connection A → Connection A
destroy_connection c = record c { socket_open = false }

-- main: what Init leaves, and the run of the server.
unfoldable pub main_statics : Statics
main_statics = init (codes "http://10.33.0.56:10080/live") (codes ".ismv") no_statics

unfoldable pub main : {T : Type 0} → Sockets → List (Arrival T) → Result (Unit {0}) × RtmpServer T
main s arrivals = start s arrivals new_server

module _ (opens has_format : List ℕ → Bool) (env : Environment LiveReceiverActor) where
  abbrev pub environment : Statics → Environment LiveReceiverActor
  environment s = record env { methods = live_receiver s.url_prefix s.fmt opens has_format }

  -- How clientCycle can end, when `recv` gives these pieces.
  pub data ClientCycle (s : Statics) (ds : List (List ℕ))
      : Result (Unit {0}) × Option (Connection LiveReceiverActor) → Type 0 where
    no_actor :
        {r : Result (Unit {0}) × Option (Connection LiveReceiverActor)} (e : Thrown)
        → create_actor s ≡ err e
        → r ≡ (err e, none)
        → ClientCycle s ds r
    returned :
        {r : Result (Unit {0}) × Option (Connection LiveReceiverActor)} (actor : LiveReceiverActor)
        (c : Connection LiveReceiverActor)
        → create_actor s ≡ ok actor
        → HandleClient (environment s) ds (new_connection actor) (ok tt, c)
        → r ≡ (ok tt, some (destroy_connection c))
        → ClientCycle s ds r
    -- An exception that leaves the function of a thread ends the process, and nothing is destroyed.
    escaped :
        {r : Result (Unit {0}) × Option (Connection LiveReceiverActor)} (actor : LiveReceiverActor)
        (e : Thrown) (c : Connection LiveReceiverActor)
        → create_actor s ≡ ok actor
        → HandleClient (environment s) ds (new_connection actor) (err e, c)
        → r ≡ (err e, some c)
        → ClientCycle s ds r
