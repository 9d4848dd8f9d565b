-- ===== src/Tests/Server.antt =====
-- Three clients of the server, the first of which has left when the second comes.
use tvie_rtmp.Base.{ℕ, ◌≡◌, refl, true, false, List, [], ◌∷◌, ◌==◌}
use tvie_rtmp.Base.Int.{pos}
use tvie_rtmp.Exception.{internal_error, ok, err}
use tvie_rtmp.Message.{minus_one}
use tvie_rtmp.Server.{Sockets, RtmpServer, Arrival, new_server, start}
use tvie_rtmp.Server.Threads.{start-survivors}

abbrev sockets : Sockets
sockets = record { socket = pos 3; setsockopt = pos 0; bind = pos 0; listen = pos 0 }

abbrev arrivals : List (Arrival ℕ)
arrivals =
    record { client_sock = pos 4; finished = λ t. false; thread = 1 }
    ∷ record { client_sock = pos 5; finished = λ t. t == 1; thread = 2 }
    ∷ record { client_sock = pos 4; finished = λ t. false; thread = 3 }
    ∷ []

abbrev failed : Arrival ℕ
failed = record { client_sock = minus_one; finished = λ t. true; thread = 4 }

abbrev held : RtmpServer ℕ
held = record { server_sock = pos 3; client_threads = 2 ∷ 3 ∷ [] }

start-survivors_example :
    (start sockets arrivals new_server ≡ (ok tt, held))
    × (start sockets
          (record { client_sock = pos 4; finished = λ t. false; thread = 1 }
            ∷ record { client_sock = pos 5; finished = λ t. t == 1; thread = 2 }
            ∷ record { client_sock = pos 4; finished = λ t. false; thread = 3 }
            ∷ failed
            ∷ [])
          new_server
        ≡ (err internal_error, held))
start-survivors_example =
    start-survivors sockets arrivals failed []
      (record { socket = refl; setsockopt = refl; bind = refl; listen = refl })
      (refl, (refl, (refl, tt))) refl
