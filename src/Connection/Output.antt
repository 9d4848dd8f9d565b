-- ===== src/Connection/Output.antt =====
-- rtmpconnection.cpp: the messages that the server sends, in chunks.
pub mod Header
pub mod Pieces
use tvie_rtmp.Base.{
  ℕ, zero, suc, ◌+◌, ◌-◌, ◌*◌, ◌/◌, ◌%◌, ◌^◌, Bool, true, false, not, ◌&&◌, Option, none, some,
  List, [], ◌∷◌, ◌++◌, ltb, leb, ◌==◌, if◌then◌else◌, length, take, drop,
}
use tvie_rtmp.Base.Int.{ℤ, pos, negsuc, ◌-ℤ◌, ltb_ℤ, eq_ℤ, pattern32}
use tvie_rtmp.Base.Text.{codes}
use tvie_rtmp.Exception.{
  internal_error, fault, hang, M, pure, throw, throw_if, gets, modify, ◌>>=◌, ◌>>◌, on_local,
}
use tvie_rtmp.WriteBuffer
use tvie_rtmp.WriteBuffer.{
  WriteBuffer, write_byte, write_b, write_b_bits, write_l_bits, write_bytes, get_buffer,
}
use tvie_rtmp.Message.{
  RtmpMsgHeader, new_header, minus_one, set_chunk_size, acknowledgement, wnd_ack_size,
  set_peer_bandwidth, cmd_amf0,
}
use tvie_rtmp.Amf.{
  write_string, write_number, write_null, write_undefined, write_object_start, write_object_end,
  write_object_key,
}
use tvie_rtmp.Connection.{Connection, Environment, ConnectState, on_wb, send_new}

-- The bits of an int64_t.
abbrev pub pattern64 : ℤ → ℕ
pattern64 (pos n) = n % 2 ^ 64
pattern64 (negsuc n) = 2 ^ 64 - 1 - n % 2 ^ 64

-- The id of the chunk stream behind the chunk type.
unfoldable pub write_chunk_stream_id : ℕ → M WriteBuffer (Unit {0})
write_chunk_stream_id id =
    if ltb id 64
    then write_b_bits 4 id 6
    else (if leb id 319
        then (write_b_bits 4 0 6 >> write_b_bits 4 (id - 64) 8)
        else (if leb id 65599
            then (write_b_bits 4 1 6 >> write_l_bits (id - 64) 16)
            else throw internal_error))

-- A field that is left out where the test fails.
abbrev pub written_if : Bool → M WriteBuffer (Unit {0}) → M WriteBuffer (Unit {0})
written_if b m = if b then m else pure tt

-- writeHeader
unfoldable pub write_header : RtmpMsgHeader → M WriteBuffer (Unit {0})
write_header hd = do
  write_b_bits 1 hd.chunk_type 2
  write_chunk_stream_id hd.chunk_stream_id
  written_if (not (eq_ℤ hd.timestamp minus_one) && ltb_ℤ hd.timestamp (pos 0x00ffffff))
      (write_b_bits 8 (pattern64 hd.timestamp) 24)
  write_b_bits 4 (pattern32 hd.length) 24
  write_b_bits 1 hd.type_id 8
  written_if (not (eq_ℤ hd.stream_id minus_one)) (write_l_bits (pattern32 hd.stream_id) 32)
  written_if (not (eq_ℤ hd.timestamp minus_one) && ltb_ℤ (pos 0x00ffffff) hd.timestamp)
      (write_b_bits 8 (pattern64 (hd.timestamp -ℤ pos 0x00ffffff)) 32)

-- The loop of chunkedSentMsg over what is left of the body.
unfoldable pub write_chunks : ℕ → ℕ → List ℕ → M WriteBuffer (Unit {0})
write_chunks zero size left = throw hang
write_chunks (suc fuel) size [] = pure tt
write_chunks (suc fuel) size (b ∷ bs) = do
  write_bytes (take size (b ∷ bs))
  written_if (ltb size (length (b ∷ bs))) (write_byte 0xc3)
  write_chunks fuel size (drop size (b ∷ bs))

-- What chunkedSentMsg writes. `body` is the message's, of its length.
unfoldable pub write_message : ℕ → RtmpMsgHeader → List ℕ → M WriteBuffer (Unit {0})
write_message size hd body = do write_header hd; write_chunks (suc (length body)) size body

-- A header of type 0, as all messages of the server have it.
abbrev pub message_header : ℕ → ℕ → ℕ → ℤ → RtmpMsgHeader
message_header id len type stream = record new_header {
  chunk_type = 0;
  chunk_stream_id = id;
  timestamp = pos 0;
  length = pos len;
  type_id = type;
  stream_id = stream;
}

-- The bits of the double with the value `n`: the exponent is counted down to the leading bit.
unfoldable pub leading_bit : ℕ → ℕ → ℕ
leading_bit zero n = 0
leading_bit (suc e) n = let lower = leading_bit e n in if leb (2 ^ suc e) n then suc e else lower

-- An int as a double.
unfoldable pub int_to_double : ℤ → ℕ
int_to_double (pos zero) = 0
int_to_double (pos (suc n)) =
    let e : ℕ = leading_bit 31 (suc n) in (1023 + e) * 2 ^ 52 + (suc n - 2 ^ e) * 2 ^ (52 - e)
int_to_double (negsuc n) =
    let e : ℕ = leading_bit 31 (suc n) in
    2 ^ 63 + (1023 + e) * 2 ^ 52 + (suc n - 2 ^ e) * 2 ^ (52 - e)

-- `name: text` in an object.
abbrev pub write_text_field : List ℕ → List ℕ → M WriteBuffer (Unit {0})
write_text_field name text = write_object_key name >> write_string text

abbrev pub write_number_field : List ℕ → ℕ → M WriteBuffer (Unit {0})
write_number_field name n = write_object_key name >> write_number (int_to_double (pos n))

-- The bodies of the answers. A transaction id is a double's bits.
unfoldable pub write_result : ℕ → M WriteBuffer (Unit {0})
write_result id = do write_string (codes "_result"); write_number id; write_null; write_undefined

unfoldable pub write_stream_result : ℕ → ℕ → M WriteBuffer (Unit {0})
write_stream_result id stream = do
  write_string (codes "_result")
  write_number id
  write_null
  write_number (int_to_double (pos stream))

unfoldable pub write_on_bw_done : M WriteBuffer (Unit {0})
write_on_bw_done = do
  write_string (codes "onBWDone")
  write_number (int_to_double (pos 0))
  write_null

unfoldable pub write_on_status : ℤ → List ℕ → List ℕ → List ℕ → M WriteBuffer (Unit {0})
write_on_status id code description client = do
  write_string (codes "onStatus")
  write_number (int_to_double id)
  write_null
  write_object_start
  write_text_field (codes "level") (codes "status")
  write_text_field (codes "code") code
  write_text_field (codes "description") description
  write_text_field (codes "clientid") client
  write_object_end

unfoldable pub write_connect_success : M WriteBuffer (Unit {0})
write_connect_success = do
  write_string (codes "_result")
  write_number (int_to_double (pos 1))
  write_object_start
  write_text_field (codes "fmsVer") (codes "TVie Rtmp/1,0,0,0")
  write_number_field (codes "capalilities") 255
  write_number_field (codes "mode") 1
  write_object_end
  write_object_start
  write_text_field (codes "level") (codes "status")
  write_text_field (codes "code") (codes "NetConnection.Connect.Success")
  write_text_field (codes "description") (codes "connection succeeded")
  write_number_field (codes "objectEncoding") 0
  write_object_end

-- The body that is written into `WriteBuffer(chunkSize_)`, whose size the client has set.
unfoldable pub body_of : {A : Type 0} → M WriteBuffer (Unit {0}) → M (Connection A) (List ℕ)
body_of m = do
  size ← gets (λ c. c.chunk_size)
  wp ← WriteBuffer.create size
  on_local wp (m >> gets get_buffer)

abbrev pub set_cs : {A : Type 0} → ConnectState → M (Connection A) (Unit {0})
set_cs s = modify (λ c. record c { cs_state = s })

module _ {A : Type 0} (env : Environment A) where
  unfoldable pub chunked_sent_msg : RtmpMsgHeader → List ℕ → M (Connection A) (Unit {0})
  chunked_sent_msg hd body = do
    size ← gets (λ c. c.out_chunk_size)
    send_new env (write_message size hd body)

  -- An AMF0 answer: its body, and its sending on the chunk stream `id`.
  unfoldable pub answer : ℕ → ℤ → M WriteBuffer (Unit {0}) → M (Connection A) (Unit {0})
  answer id stream m = do
    body ← body_of m
    chunked_sent_msg (message_header id (length body) cmd_amf0 stream) body

  unfoldable pub sent_chunk_size : ℕ → M (Connection A) (Unit {0})
  sent_chunk_size n = do
    send_new env (write_header (message_header 2 4 set_chunk_size (pos 0)) >> write_b 4 n)
    set_cs ConnectState.set_chunk_size_sent

  unfoldable pub send_acknowledgement : ℕ → M (Connection A) (Unit {0})
  send_acknowledgement n =
      send_new env (write_header (message_header 2 4 acknowledgement (pos 0)) >> write_b 4 n)

  unfoldable pub sent_wnd_ack_size : ℕ → M (Connection A) (Unit {0})
  sent_wnd_ack_size n = do
    send_new env (write_header (message_header 2 4 wnd_ack_size (pos 0)) >> write_b 4 n)
    set_cs ConnectState.windows_ack_size_sent

  unfoldable pub sent_set_peer_bandwidth : ℕ → ℕ → M (Connection A) (Unit {0})
  sent_set_peer_bandwidth n limit = do
    send_new env (do
      write_header (message_header 2 5 set_peer_bandwidth (pos 0))
      write_b 4 n
      write_b 1 limit)
    set_cs ConnectState.set_peer_band_width_sent

  unfoldable pub sent_net_connect_connect_success : M (Connection A) (Unit {0})
  sent_net_connect_connect_success = do
    answer 3 (pos 0) write_connect_success
    set_cs ConnectState.success_sent

  unfoldable pub sent_on_bw_done : M (Connection A) (Unit {0})
  sent_on_bw_done = do answer 3 (pos 0) write_on_bw_done; set_cs ConnectState.done

  unfoldable pub send_on_status :
      RtmpMsgHeader → ℤ → List ℕ → List ℕ → List ℕ → M (Connection A) (Unit {0})
  send_on_status mh id code description client =
      answer mh.chunk_stream_id mh.stream_id (write_on_status id code description client)
