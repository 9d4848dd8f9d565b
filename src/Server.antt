-- ===== src/Server.antt =====
-- rtmpserver.h and rtmpserver.cpp: the socket that clients connect to, and the threads of the clients.
--
-- The calls of the system are parameters: `Sockets` holds what they return, and an `Arrival` is what one
-- round of the accepting loop meets. A thread is any value; whether it has finished is what timed_join
-- answers in that round.
pub mod Threads
pub mod Client
use tvie_rtmp.Base.{
  ℕ, ◌≡◌, refl, sym, ap, ◌∙◌, Bool, true, false, not, ◌&&◌, List, [], ◌∷◌, ◌++◌, append-nil,
  append_assoc, if◌then◌else◌, Bool-cases, inl, inr, arith,
}
use tvie_rtmp.Base.Int.{ℤ, eq_ℤ}
use tvie_rtmp.Exception.{
  internal_error, Result, ok, err, M, pure, throw_if, modify, ◌>>=◌, ◌>>◌, >>=-ok, >>=-err, then_do,
}
use tvie_rtmp.Message.{minus_one}

-- What socket, setsockopt, bind and listen return.
pub record Sockets : Type 0 where
  pub socket : ℤ
  pub setsockopt : ℤ
  pub bind : ℤ
  pub listen : ℤ

pub record RtmpServer (T : Type 0) : Type 0 where
  pub server_sock : ℤ
  pub client_threads : List T

-- accept's result, the threads that timed_join finds finished then, and the thread that is started.
pub record Arrival (T : Type 0) : Type 0 where
  pub client_sock : ℤ
  pub finished : T → Bool
  pub thread : T

module _ {T : Type 0} where
  unfoldable pub new_server : RtmpServer T
  new_server = record { server_sock = minus_one; client_threads = [] }

  unfoldable pub prepare : Sockets → M (RtmpServer T) (Unit {0})
  prepare s = do
    modify (λ r. record r { server_sock = s.socket })
    throw_if (eq_ℤ s.socket minus_one) internal_error
    throw_if (eq_ℤ s.setsockopt minus_one) internal_error
    throw_if (eq_ℤ s.bind minus_one) internal_error
    throw_if (eq_ℤ s.listen minus_one) internal_error

  -- The loop of cleanClientThread.
  unfoldable pub erase_finished : (T → Bool) → List T → List T
  erase_finished finished [] = []
  erase_finished finished (t ∷ ts) =
      let rest = erase_finished finished ts in if finished t then rest else t ∷ rest

  unfoldable pub clean_client_thread : (T → Bool) → M (RtmpServer T) (Unit {0})
  clean_client_thread finished =
      modify (λ r. record r { client_threads = erase_finished finished r.client_threads })

  -- A round of the loop of start.
  unfoldable pub accept_client : Arrival T → M (RtmpServer T) (Unit {0})
  accept_client a = do
    throw_if (eq_ℤ a.client_sock minus_one) internal_error
    clean_client_thread a.finished
    modify (λ r. record r { client_threads = r.client_threads ++ (a.thread ∷ []) })

  -- The first rounds of the loop, which has no end but an exception.
  unfoldable pub accept_clients : List (Arrival T) → M (RtmpServer T) (Unit {0})
  accept_clients [] = pure tt
  accept_clients (a ∷ later) = do accept_client a; accept_clients later

  -- The destructor.
  unfoldable pub destroy_server : M (RtmpServer T) (Unit {0})
  destroy_server = modify (λ r. record r { server_sock = minus_one })

  unfoldable pub start : Sockets → List (Arrival T) → M (RtmpServer T) (Unit {0})
  start s arrivals = do prepare s; accept_clients arrivals
