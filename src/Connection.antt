-- ===== src/Connection.antt =====
-- rtmpconnection.h and rtmpconnection.cpp: a client's connection, from its bytes to the actor and back.
--
-- What `send` was given is kept in `sent`; that it may take fewer bytes the code does not look at.
-- `c1_handled` and `nes_state_` are never read and `s1Timestamp_` is always 0; they are left out. The
-- actor is never null, since createActor returns a new one.
pub mod Output
pub mod Handshake
pub mod Exchange
pub mod Receive
pub mod Along
pub mod Phase
use tvie_rtmp.Base.{
  ℕ, ◌+◌, ◌-◌, ◌*◌, ◌/◌, ◌%◌, ◌^◌, Bool, true, false, not, ◌&&◌, Option, none, some, List, [], ◌∷◌,
  ◌++◌, ltb, ◌==◌, if◌then◌else◌, length,
}
use tvie_rtmp.Base.Int.{ℤ, pos, negsuc}
use tvie_rtmp.Exception.{
  Thrown, internal_error, Result, ok, err, M, pure, throw, gets, modify, ◌>>=◌, ◌>>◌, on, on_local,
}
use tvie_rtmp.ReadBuffer
use tvie_rtmp.ReadBuffer.{ReadBuffer, unread_size}
use tvie_rtmp.WriteBuffer
use tvie_rtmp.WriteBuffer.{WriteBuffer, re_init, get_buffer}
use tvie_rtmp.Message.{RtmpMsgHeader, ConnectCmd, MetaDataMsg, minus_one}
use tvie_rtmp.Parser.{RtmpParser, rd}
use tvie_rtmp.RtmpActor.{RtmpActor}

pub data RtmpConnectionState : Type 0 where
  uninitialized hand_shake normal_exchange closed : RtmpConnectionState

pub data HandshakeState : Type 0 where
  uninitialized version_sent version_sent_c1_read ack_sent handshake_done : HandshakeState

pub data ConnectState : Type 0 where
  wait_connect windows_ack_size_sent set_peer_band_width_sent set_chunk_size_sent success_sent :
      ConnectState
  wait_window_ack_size done : ConnectState

pub record Connection (A : Type 0) : Type 0 where
  pub parser : RtmpParser
  pub wb : WriteBuffer
  pub sent : List (List ℕ)
  pub socket_open : Bool
  pub is_disconnected : Bool
  pub chunk_size : ℤ
  pub window_ack_size : ℤ
  pub out_chunk_size : ℕ
  pub stream_index : ℕ
  pub bytes_received : ℕ
  pub ack_bytes : ℕ
  pub ccp : Option ConnectCmd
  pub rcs_state : RtmpConnectionState
  pub hss_state : HandshakeState
  pub cs_state : ConnectState
  pub actor : A
  pub is_connected : Bool

-- What the connection finds outside of the code: the actor's methods, whether the `n`-th send fails,
-- the clock of getTimestamp at that time, what `new` left in the memory of the random data, boost's
-- iequals and the formatting of a double.
pub record Environment (A : Type 0) : Type 0 where
  pub methods : RtmpActor A
  pub send_fails : ℕ → Bool
  pub timestamp : ℕ → ℕ
  pub random_data : List ℕ
  pub iequals : List ℕ → List ℕ → Bool
  pub num_to_str : ℕ → List ℕ

abbrev pub random_data_size : ℕ
random_data_size = 1528

abbrev pub new_parser : RtmpParser
new_parser = record {
  rb = ReadBuffer.empty 1024;
  stream_contexts = [];
  saved_stream_contexts = [];
  msgs_buffer = [];
  saved_msgs_buffer = [];
  open_msgs = [];
}

-- The constructor.
unfoldable pub new_connection : {A : Type 0} → A → Connection A
new_connection actor = record {
  parser = new_parser;
  wb = WriteBuffer.empty 1024;
  sent = [];
  socket_open = true;
  is_disconnected = false;
  chunk_size = pos 128;
  window_ack_size = minus_one;
  out_chunk_size = 128;
  stream_index = 1;
  bytes_received = 0;
  ack_bytes = 0;
  ccp = none;
  rcs_state = RtmpConnectionState.uninitialized;
  hss_state = HandshakeState.uninitialized;
  cs_state = ConnectState.wait_connect;
  actor = actor;
  is_connected = false;
}

module _ {A B : Type 0} where
  -- A call on parser_, on rb_, on wb_ and on actor_.
  unfoldable pub on_parser : M RtmpParser B → M (Connection A) B
  on_parser = on (λ c. c.parser) (λ p c. record c { parser = p })

  unfoldable pub on_rb : M ReadBuffer B → M (Connection A) B
  unfolding on_parser
  on_rb m = on_parser (rd m)

  unfoldable pub on_wb : M WriteBuffer B → M (Connection A) B
  on_wb = on (λ c. c.wb) (λ w c. record c { wb = w })

  unfoldable pub on_actor : M A B → M (Connection A) B
  on_actor = on (λ c. c.actor) (λ a c. record c { actor = a })

  -- What a parse of a message's body returns or throws.
  abbrev pub from_result : Result B → M (Connection A) B
  from_result r c = (r, c)

abbrev pub unread_bytes : {A : Type 0} → Connection A → ℕ
unread_bytes c = unread_size c.parser.rb

module _ {A : Type 0} (env : Environment A) where
  -- writeData
  unfoldable pub write_data : List ℕ → M (Connection A) (Unit {0})
  write_data d c =
      if c.socket_open && not (env.send_fails (length c.sent))
      then (ok tt, record c { sent = c.sent ++ (d ∷ []) })
      else (err internal_error, c)

  -- writeData(wb_.getBuffer(), wb_.getBufferCount(), true)
  unfoldable pub send_written : M (Connection A) (Unit {0})
  unfolding write_data
  send_written = do d ← gets (λ c. get_buffer c.wb); write_data d

  -- wb_.reInit(), what is written, and its sending.
  unfoldable pub send_new : M WriteBuffer (Unit {0}) → M (Connection A) (Unit {0})
  unfolding on_wb send_written
  send_new m = do on_wb (modify re_init); on_wb m; send_written

  unfoldable pub disconnect : M (Connection A) (Unit {0})
  unfolding on_actor
  disconnect = do
    c ← gets (λ c. c)
    let whole = (do
      on_actor env.methods.on_disconnect
      modify (λ c. record c { socket_open = false; is_disconnected = true }))
    if c.is_disconnected then pure tt else whole
