-- ===== src/Connection/Handshake.antt =====
-- rtmpconnection.cpp, handshake: a version, a packet and an echo in each direction.
pub mod Exact
pub mod Version
use tvie_rtmp.Base.{ℕ, ◌+◌, Bool, true, false, not, List, ltb, ◌==◌, if◌then◌else◌, length}
use tvie_rtmp.Base.Int.{ℤ, pos}
use tvie_rtmp.Exception.{bad_protocal_data, M, pure, throw_if, gets, modify, ◌>>=◌, ◌>>◌}
use tvie_rtmp.ReadBuffer.{big, read_byte, read_bytes, read_all, skip}
use tvie_rtmp.WriteBuffer.{write_byte, write_b, write_bytes}
use tvie_rtmp.Connection.{
  Connection, Environment, RtmpConnectionState, HandshakeState, random_data_size, on_rb, send_new,
  unread_bytes,
}

abbrev pub set_hss : {A : Type 0} → HandshakeState → M (Connection A) (Unit {0})
set_hss s = modify (λ c. record c { hss_state = s })

unfoldable pub handle_c2 : {A : Type 0} → M (Connection A) (Unit {0})
handle_c2 = do
  timestamp ← on_rb (read_all 4 big)
  on_rb (skip 4)
  random ← on_rb (read_bytes (pos random_data_size))
  modify (λ c. record c {
    hss_state = HandshakeState.handshake_done;
    rcs_state = RtmpConnectionState.normal_exchange;
  })

-- `rb_.getUnReadSize() > 4 + 4 + RANDOM_DATA_SIZE`
abbrev pub more_than_one_packet : {A : Type 0} → Connection A → Bool
more_than_one_packet c = ltb (4 + 4 + random_data_size) (unread_bytes c)

module _ {A : Type 0} (env : Environment A) where
  unfoldable pub handle_c1 : M (Connection A) (Unit {0})
  handle_c1 = do
    timestamp ← on_rb (read_all 4 big)
    on_rb (read_all 4 big)
    random ← on_rb (read_bytes (pos random_data_size))
    now ← gets (λ c. env.timestamp (length c.sent))
    send_new env (do write_b 4 timestamp; write_b 4 now; write_bytes random)
    set_hss HandshakeState.ack_sent
    more ← gets more_than_one_packet
    if more then handle_c2 else pure tt

  unfoldable pub handle_c0 : M (Connection A) (Unit {0})
  handle_c0 = do
    nothing ← gets (λ c. ltb (unread_bytes c) 1)
    throw_if nothing bad_protocal_data
    version ← on_rb read_byte
    throw_if (not (version == 3)) bad_protocal_data
    send_new env (write_byte version)
    send_new env (do write_b 4 0; write_b 4 0; write_bytes env.random_data)
    set_hss HandshakeState.version_sent
    more ← gets more_than_one_packet
    let at_once = (do handle_c1; set_hss HandshakeState.version_sent_c1_read)
    if more then at_once else pure tt

  -- The switch of handshake.
  unfoldable pub handshake_move : HandshakeState → M (Connection A) (Unit {0})
  handshake_move HandshakeState.uninitialized = handle_c0
  handshake_move HandshakeState.version_sent = handle_c1
  handshake_move HandshakeState.ack_sent = handle_c2
  handshake_move HandshakeState.version_sent_c1_read = pure tt
  handshake_move HandshakeState.handshake_done = pure tt

  unfoldable pub handshake : M (Connection A) (Unit {0})
  handshake = do
    modify (λ c. record c { rcs_state = RtmpConnectionState.hand_shake })
    s ← gets (λ c. c.hss_state)
    handshake_move s
