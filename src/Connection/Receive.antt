-- ===== src/Connection/Receive.antt =====
-- rtmpconnection.cpp, handleClient and handleRead: from the bytes of one `recv` to the moves.
--
-- The loops of handleRead and handleClient need not end, so they are relations between the connection
-- before and how the loop ends.
pub mod Counters
use tvie_rtmp.Base.{
  ℕ, suc, ◌+◌, ◌-◌, ◌/◌, ◌%◌, ◌^◌, ◌<◌, ◌≡◌, ◌⊎◌, Bool, true, false, not, ◌&&◌, List, [], ◌∷◌, ltb,
  leb, if◌then◌else◌, length,
}
use tvie_rtmp.Base.Int.{ℤ, pos, negsuc, eq_ℤ}
use tvie_rtmp.Exception.{
  Thrown, no_enough_data, bad_protocal_data, not_supported, bad_state, internal_error, Result, ok,
  err, M, pure, throw, gets, modify, ◌>>=◌, ◌>>◌,
}
use tvie_rtmp.ReadBuffer.{append_data, snap_start, snap_clear}
use tvie_rtmp.Message.{minus_one}
use tvie_rtmp.Parser.{save_context}
use tvie_rtmp.Parser.Transaction.{take_back}
use tvie_rtmp.Connection.{
  Connection, Environment, RtmpConnectionState, on_parser, on_rb, unread_bytes, disconnect,
}
use tvie_rtmp.Connection.Output.{send_acknowledgement}
use tvie_rtmp.Connection.Handshake.{handshake}
use tvie_rtmp.Connection.Exchange.{normal_exchange}

abbrev pub word : ℕ → ℕ
word n = n % 2 ^ 32

-- bytesReceived_ and ackBytes_ behind the first two statements. They are uint32_t.
unfoldable pub count_bytes : {A : Type 0} → ℕ → Connection A → Connection A
count_bytes n c =
    let received : ℕ = word (c.bytes_received + n) in
    if ltb received c.ack_bytes
    then record c { bytes_received = word (received + (2 ^ 32 - 1 - c.ack_bytes)); ack_bytes = 0 }
    else record c { bytes_received = received }

-- windowAckSize_ / 2 towards 0, converted to uint32_t.
abbrev pub half_window : ℤ → ℕ
half_window (pos n) = n / 2
half_window (negsuc n) = word (2 ^ 32 - suc n / 2)

-- The test for an acknowledgement.
abbrev pub ack_due : {A : Type 0} → Connection A → Bool
ack_due c =
    not (eq_ℤ c.window_ack_size minus_one)
    && leb (half_window c.window_ack_size) (word (c.bytes_received + 2 ^ 32 - c.ack_bytes))

module _ {A : Type 0} (env : Environment A) where
  unfoldable pub acknowledge : M (Connection A) (Unit {0})
  acknowledge = do
    due ← gets ack_due
    n ← gets (λ c. c.bytes_received)
    let send = (do
      send_acknowledgement env n
      modify (λ c. record c { ack_bytes = word (c.ack_bytes + half_window c.window_ack_size) }))
    if due then send else pure tt

  -- What handleRead does in front of its loop.
  unfoldable pub take_in : List ℕ → M (Connection A) (Unit {0})
  take_in d = do modify (count_bytes (length d)); acknowledge; on_rb (append_data d)

  -- nextMove, by rcs_state_
  unfoldable pub move_in : RtmpConnectionState → M (Connection A) (Unit {0})
  move_in RtmpConnectionState.uninitialized = handshake env
  move_in RtmpConnectionState.hand_shake = handshake env
  move_in RtmpConnectionState.normal_exchange = normal_exchange env
  move_in RtmpConnectionState.closed = pure tt

  unfoldable pub next_move : M (Connection A) (Unit {0})
  next_move = do s ← gets (λ c. c.rcs_state); move_in s

  -- The body of the loop.
  unfoldable pub pass : M (Connection A) (Unit {0})
  pass = do on_rb snap_start; on_parser (modify save_context); next_move; on_rb (modify snap_clear)

  -- The catch clauses.
  unfoldable pub caught_in_read : Thrown → M (Connection A) (Unit {0})
  caught_in_read bad_protocal_data = disconnect env
  caught_in_read not_supported = disconnect env
  caught_in_read bad_state = disconnect env
  caught_in_read internal_error = disconnect env
  caught_in_read no_enough_data = on_parser (modify take_back)
  caught_in_read e = throw e

  -- while(rb_.getUnReadSize() > 0) { … }: how it can end.
  pub data Loop : Connection A → Result (Unit {0}) × Connection A → Type 0 where
    read_all :
        {c : Connection A} {r : Result (Unit {0}) × Connection A}
        → unread_bytes c ≡ 0
        → r ≡ (ok tt, c)
        → Loop c r
    again :
        {c c' : Connection A} {r : Result (Unit {0}) × Connection A}
        → 0 < unread_bytes c
        → pass c ≡ (ok tt, c')
        → Loop c' r
        → Loop c r
    thrown :
        {c c' : Connection A} {r : Result (Unit {0}) × Connection A} (e : Thrown)
        → 0 < unread_bytes c
        → pass c ≡ (err e, c')
        → r ≡ caught_in_read e c'
        → Loop c r

  -- handleRead, when `d` has been received.
  pub data HandleRead (d : List ℕ) (c : Connection A) (r : Result (Unit {0}) × Connection A)
      : Type 0 where
    not_taken :
        (e : Thrown) (c' : Connection A)
        → take_in d c ≡ (err e, c')
        → r ≡ (err e, c')
        → HandleRead d c r
    taken : (c' : Connection A) → take_in d c ≡ (ok tt, c') → Loop c' r → HandleRead d c r

  -- handleClient: `recv` gives the pieces one after the other, and fails at the end or when the socket
  -- is closed.
  pub data HandleClient
      : List (List ℕ) → Connection A → Result (Unit {0}) × Connection A → Type 0 where
    ended :
        {ds : List (List ℕ)} {c : Connection A} {r : Result (Unit {0}) × Connection A}
        → ((ds ≡ []) ⊎ (c.socket_open ≡ false))
        → r ≡ disconnect env c
        → HandleClient ds c r
    received :
        {d : List ℕ} {ds : List (List ℕ)} {c c' : Connection A}
        {r : Result (Unit {0}) × Connection A}
        → c.socket_open ≡ true
        → HandleRead d c (ok tt, c')
        → HandleClient ds c' r
        → HandleClient (d ∷ ds) c r
    escaped :
        {d : List ℕ} {ds : List (List ℕ)} {c c' : Connection A}
        {r : Result (Unit {0}) × Connection A} (e : Thrown)
        → c.socket_open ≡ true
        → HandleRead d c (err e, c')
        → r ≡ (err e, c')
        → HandleClient (d ∷ ds) c r
