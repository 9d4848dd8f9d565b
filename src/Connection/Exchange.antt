-- ===== src/Connection/Exchange.antt =====
-- rtmpconnection.cpp, normalExchange: what the connection does on each message.
pub mod Answers
pub mod CreateStream
pub mod Media
use tvie_rtmp.Base.{ℕ, ◌+◌, Bool, true, false, not, some, List, [], ◌∷◌, ◌++◌, ◌==◌, if◌then◌else◌}
use tvie_rtmp.Base.Int.{ℤ, pos, signed32}
use tvie_rtmp.Base.Text.{codes}
use tvie_rtmp.Exception.{
  Thrown, not_supported, bad_state, internal_error, M, pure, throw, throw_if, gets, modify, ◌>>=◌,
  ◌>>◌, try_catch,
}
use tvie_rtmp.ReadBuffer.{big, read_all}
use tvie_rtmp.Message.{
  RtmpMsgHeader, Amf0Command, set_chunk_size, wnd_ack_size, audio, video, cmd_amf0, cmd_amf3,
  data_amf0,
}
use tvie_rtmp.Parser.Chunk.{parse_msg_header}
use tvie_rtmp.Parser.Commands.{
  on_body, parse_window_ack_size_msg, peek_amf0_cmd, peek_amf0_data_type, parse_release_stream_cmd,
  parse_fc_publish_cmd, parse_create_stream_cmd, parse_publish_cmd, parse_connect_cmd,
  double_to_int,
}
use tvie_rtmp.Parser.MetaData.{parse_meta_data}
use tvie_rtmp.Connection.{Connection, Environment, on_parser, on_actor, from_result}
use tvie_rtmp.Connection.Output.{
  answer, write_result, write_stream_result, sent_wnd_ack_size, sent_set_peer_bandwidth,
  sent_chunk_size, sent_net_connect_connect_success, sent_on_bw_done, send_on_status,
}

-- `if(!actor_->…) throw RtmpInternalError(…)`
unfoldable pub agreed : {A : Type 0} → M (Connection A) Bool → M (Connection A) (Unit {0})
agreed m = do b ← m; throw_if (not b) internal_error

-- The name without what stands behind a question mark.
abbrev pub before_question : List ℕ → List ℕ
before_question [] = []
before_question (x ∷ xs) = if x == 63 then [] else x ∷ before_question xs

abbrev pub set_chunk : {A : Type 0} → ℤ → M (Connection A) (Unit {0})
set_chunk n = modify (λ c. record c { chunk_size = n })

unfoldable pub on_set_chunk_size : {A : Type 0} → RtmpMsgHeader → M (Connection A) (Unit {0})
on_set_chunk_size mh = do v ← from_result (on_body mh (read_all 4 big)); set_chunk (signed32 v)

module _ {A : Type 0} (env : Environment A) where
  unfoldable pub on_read_connect : RtmpMsgHeader → M (Connection A) (Unit {0})
  on_read_connect mh = do
    again ← gets (λ c. c.is_connected)
    throw_if again bad_state
    cmd ← from_result (parse_connect_cmd env.iequals mh)
    modify (λ c. record c { ccp = some cmd })
    agreed (on_actor (env.methods.on_connect cmd))
    sent_wnd_ack_size env 2500000
    sent_set_peer_bandwidth env 2500000 2
    modify (λ c. record c { out_chunk_size = 1024 })
    sent_chunk_size env 1024
    sent_net_connect_connect_success env
    modify (λ c. record c { is_connected = true })
    _ ← on_actor (env.methods.on_connect cmd)
    pure tt

  unfoldable pub on_read_wnd_ack_size : RtmpMsgHeader → M (Connection A) (Unit {0})
  on_read_wnd_ack_size mh = do
    size ← from_result (parse_window_ack_size_msg mh)
    modify (λ c. record c { window_ack_size = size })
    sent_on_bw_done env

  unfoldable pub on_receive : Bool → RtmpMsgHeader → M (Connection A) (Unit {0})
  on_receive is_video mh =
      agreed (on_actor (env.methods.on_receive_stream mh.stream_id is_video mh))

  unfoldable pub on_read_amf0_data_set_data_frame : RtmpMsgHeader → M (Connection A) (Unit {0})
  on_read_amf0_data_set_data_frame mh = do
    request ← from_result (parse_meta_data env.num_to_str mh)
    agreed (
        on_actor
          (env.methods.on_meta_data mh.stream_id (record request { timestamp = mh.timestamp })))

  unfoldable pub on_read_publish : RtmpMsgHeader → M (Connection A) (Unit {0})
  on_read_publish mh = do
    request ← from_result (parse_publish_cmd mh)
    let name = before_question request.publishing_name
    agreed (on_actor (env.methods.on_publish mh.stream_id name))
    send_on_status env mh (double_to_int request.transaction_id) (codes "NetStream.Publish.Start")
        (name ++ codes " is now published") (codes "oAAQAAAA")

  unfoldable pub on_read_release_stream : RtmpMsgHeader → M (Connection A) (Unit {0})
  on_read_release_stream mh = do
    request ← from_result (parse_release_stream_cmd mh)
    answer env 3 (pos 0) (write_result request.transaction_id)

  unfoldable pub on_read_fc_publish : RtmpMsgHeader → M (Connection A) (Unit {0})
  on_read_fc_publish mh = do
    request ← from_result (parse_fc_publish_cmd mh)
    answer env 3 (pos 0) (write_result request.transaction_id)

  unfoldable pub on_read_create_stream : RtmpMsgHeader → M (Connection A) (Unit {0})
  on_read_create_stream mh = do
    request ← from_result (parse_create_stream_cmd mh)
    index ← gets (λ c. c.stream_index)
    agreed (on_actor (env.methods.on_create_stream index))
    answer env 3 (pos 0) (write_stream_result request.transaction_id index)
    modify (λ c. record c { stream_index = c.stream_index + 1 })

  -- The switch over the commands.
  unfoldable pub on_command : Amf0Command → RtmpMsgHeader → M (Connection A) (Unit {0})
  on_command Amf0Command.connect mh = on_read_connect mh
  on_command Amf0Command.publish mh = on_read_publish mh
  on_command Amf0Command.release_stream mh = on_read_release_stream mh
  on_command Amf0Command.fc_publish mh = on_read_fc_publish mh
  on_command Amf0Command.create_stream mh = on_read_create_stream mh

  unfoldable pub on_amf0_command : RtmpMsgHeader → M (Connection A) (Unit {0})
  on_amf0_command mh = do cmd ← from_result (peek_amf0_cmd mh); on_command cmd mh

  -- catch(RtmpNotSupported& e)
  unfoldable pub unsupported_data : Thrown → M (Connection A) (Unit {0})
  unsupported_data not_supported = pure tt
  unsupported_data e = throw e

  unfoldable pub on_amf0_data : RtmpMsgHeader → M (Connection A) (Unit {0})
  on_amf0_data mh =
      try_catch (do from_result (peek_amf0_data_type mh); on_read_amf0_data_set_data_frame mh)
        unsupported_data

  -- normalExchange(mh). The test `mh->typeId = MST_WndAckSize` is an assignment and always true.
  unfoldable pub normal_exchange_msg : RtmpMsgHeader → M (Connection A) (Unit {0})
  normal_exchange_msg mh =
      if mh.type_id == cmd_amf0
      then on_amf0_command mh
      else (if mh.type_id == cmd_amf3
          then throw internal_error
          else (if mh.type_id == data_amf0
              then on_amf0_data mh
              else (if mh.type_id == set_chunk_size
                  then on_set_chunk_size mh
                  else (if mh.type_id == audio
                      then on_receive false mh
                      else (if mh.type_id == video
                          then on_receive true mh
                          else on_read_wnd_ack_size (record mh { type_id = wnd_ack_size }))))))

  -- normalExchange()
  unfoldable pub normal_exchange : M (Connection A) (Unit {0})
  normal_exchange = do
    size ← gets (λ c. c.chunk_size)
    mh ← on_parser (parse_msg_header size)
    normal_exchange_msg mh
