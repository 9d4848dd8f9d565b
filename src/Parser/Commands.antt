-- ===== src/Parser/Commands.antt =====
-- rtmpparser.cpp: the AMF0 commands in the bodies of messages.
--
-- A parse of a body leaves nothing behind but its result, so it is a `Result`. Boost's
-- case-insensitive comparison is the parameter `iequals`.
pub mod Errors
pub mod Body
pub mod RoundTrip
pub mod Peek
pub mod Ends
use tvie_rtmp.Base.{
  ℕ, ◌+◌, ◌-◌, ◌*◌, ◌/◌, ◌%◌, ◌^◌, Bool, true, false, not, Option, none, some, List, [], ◌∷◌,
  bytes_eq, ltb, leb, ◌==◌, if◌then◌else◌, length, zero, suc,
}
use tvie_rtmp.Base.Int.{ℤ, pos, negsuc, signed32, to_int32}
use tvie_rtmp.Base.Text.{codes}
use tvie_rtmp.Exception.{
  Thrown, no_enough_data, bad_protocal_data, not_supported, invalid_amf_data, fault, hang, Result,
  ok, err, M, pure, throw, throw_if, gets, ◌>>=◌, ◌>>◌, try_catch,
}
use tvie_rtmp.ReadBuffer.{ReadBuffer, empty, append_data, big, read_all, unread_size}
use tvie_rtmp.Message.{
  RtmpMsgHeader, ConnectCmd, ConnectCmdObjKey, StreamCmd, CreateStreamCmd, PublishCmd, Amf0Command,
}
use tvie_rtmp.Amf.{
  parse_as_string, parse_as_number, parse_as_bool, parse_object_key, parse_null, get_next_type,
  skip_type, skip_object_start, skip_object_end, is_finished,
}
use tvie_rtmp.Amf.Amf0Type

-- A method that works on `ReadBuffer(mh->length)` with the body in it.
unfoldable pub on_body : {A : Type 0} → RtmpMsgHeader → M ReadBuffer A → Result A
on_body mh m = elim mh.body [
  | none ↦ err fault
  | some bytes ↦ ((append_data bytes >> m) (empty (length bytes))).0
]

-- Two catch clauses, for the parsers whose try block ends with them.
unfoldable pub corrupted : Thrown → Thrown
corrupted no_enough_data = bad_protocal_data
corrupted invalid_amf_data = bad_protocal_data
corrupted e = e

unfoldable pub guarded : {A : Type 0} → M ReadBuffer A → M ReadBuffer A
guarded m = try_catch m (λ e. throw (corrupted e))

-- `if(mh->length < 0) throw RtmpBadProtocalData(…)`, then the body. Each parser has its own try block.
unfoldable pub parse_command : {A : Type 0} → RtmpMsgHeader → M ReadBuffer A → Result A
parse_command mh m = elim mh.length [ negsuc _ ↦ err bad_protocal_data | pos _ ↦ on_body mh m ]

unfoldable pub parse_window_ack_size_msg : RtmpMsgHeader → Result ℤ
parse_window_ack_size_msg mh = on_body mh (do v ← read_all 4 big; pure (signed32 v))

unfoldable pub command_of : List ℕ → M ReadBuffer Amf0Command
command_of cmd =
    if bytes_eq cmd (codes "releaseStream")
    then pure Amf0Command.release_stream
    else (if bytes_eq cmd (codes "FCPublish")
        then pure Amf0Command.fc_publish
        else (if bytes_eq cmd (codes "createStream")
            then pure Amf0Command.create_stream
            else (if bytes_eq cmd (codes "publish")
                then pure Amf0Command.publish
                else (if bytes_eq cmd (codes "connect")
                    then pure Amf0Command.connect
                    else throw not_supported))))

unfoldable pub peek_amf0_cmd : RtmpMsgHeader → Result Amf0Command
peek_amf0_cmd mh = parse_command mh (guarded (do cmd ← parse_as_string; command_of cmd))

-- The one AMF0DataTypes is AMF0_DATA_SetDataFrame.
unfoldable pub peek_amf0_data_type : RtmpMsgHeader → Result (Unit {0})
peek_amf0_data_type mh = parse_command mh (
    guarded (do
      cmd ← parse_as_string
      throw_if (not (bytes_eq cmd (codes "@setDataFrame"))) not_supported))

-- The name that a command's body begins with.
unfoldable pub expect_name : List ℕ → M ReadBuffer (Unit {0})
expect_name name = do
  command_name ← parse_as_string
  throw_if (not (bytes_eq command_name name)) bad_protocal_data

-- A null or an object in front of the arguments is passed over, anything else is left.
unfoldable pub skip_command_object : M ReadBuffer (Unit {0})
skip_command_object = do
  t ← get_next_type false
  if t == Amf0Type.null then parse_null else (if t == Amf0Type.object then skip_type t else pure tt)

unfoldable pub stream_cmd : List ℕ → M ReadBuffer StreamCmd
stream_cmd name = do
  expect_name name
  id ← parse_as_number
  skip_command_object
  stream ← parse_as_string
  pure (record { transaction_id = id; stream_name = stream })

unfoldable pub parse_release_stream_cmd : RtmpMsgHeader → Result StreamCmd
parse_release_stream_cmd mh = parse_command mh (guarded (stream_cmd (codes "releaseStream")))

unfoldable pub parse_fc_publish_cmd : RtmpMsgHeader → Result StreamCmd
parse_fc_publish_cmd mh = parse_command mh (guarded (stream_cmd (codes "FCPublish")))

unfoldable pub create_stream_cmd : M ReadBuffer CreateStreamCmd
create_stream_cmd = do
  expect_name (codes "createStream")
  id ← parse_as_number
  skip_command_object
  pure (record { transaction_id = id })

unfoldable pub parse_create_stream_cmd : RtmpMsgHeader → Result CreateStreamCmd
parse_create_stream_cmd mh = parse_command mh (guarded create_stream_cmd)

unfoldable pub publish_cmd : M ReadBuffer PublishCmd
publish_cmd = do
  expect_name (codes "publish")
  id ← parse_as_number
  parse_null
  name ← parse_as_string
  kind ← parse_as_string
  pure (record { transaction_id = id; publishing_name = name; publishing_type = kind })

unfoldable pub parse_publish_cmd : RtmpMsgHeader → Result PublishCmd
parse_publish_cmd mh = parse_command mh (guarded publish_cmd)

-- The magnitude of a double without its fraction, and `(int)` of it. Beyond the range of int the
-- conversion is undefined; here it wraps.
abbrev pub double_magnitude : ℕ → ℕ
double_magnitude v =
    let exponent : ℕ = v / 2 ^ 52 % 2048 in
    let mantissa : ℕ = 2 ^ 52 + v % 2 ^ 52 in
    if exponent == 0
    then 0
    else (if leb 1075 exponent
        then mantissa * 2 ^ (exponent - 1075)
        else mantissa / 2 ^ (1075 - exponent))

abbrev pub negate : ℕ → ℤ
negate zero = pos 0
negate (suc n) = negsuc n

unfoldable pub double_to_int : ℕ → ℤ
double_to_int v =
    to_int32 (if leb (2 ^ 63) v then negate (double_magnitude v) else pos (double_magnitude v))

-- The double 1.
abbrev pub double_one : ℕ
double_one = 0x3ff0000000000000

abbrev pub new_connect_cmd : ConnectCmd
new_connect_cmd = record {
  transaction_id = 0;
  app = [];
  flashver = [];
  swf_url = [];
  tc_url = [];
  type = [];
  fpad = false;
  audio_codecs = pos 0x0fff;
  video_codecs = pos 0x00ff;
  page_url = [];
  object_encoding = pos 0xff;
}

module _ (iequals : List ℕ → List ℕ → Bool) where
  unfoldable pub cmd_connect_is_key_valid : List ℕ → ConnectCmdObjKey
  cmd_connect_is_key_valid key =
      if iequals key (codes "app")
      then ConnectCmdObjKey.app
      else (if iequals key (codes "flashver")
          then ConnectCmdObjKey.flashver
          else (if iequals key (codes "swfUrl")
              then ConnectCmdObjKey.swf_url
              else (if iequals key (codes "tcUrl")
                  then ConnectCmdObjKey.tc_url
                  else (if iequals key (codes "type")
                      then ConnectCmdObjKey.type
                      else (if iequals key (codes "fpad")
                          then ConnectCmdObjKey.fpad
                          else (if iequals key (codes "audioCodecs")
                              then ConnectCmdObjKey.audio_codecs
                              else (if iequals key (codes "videoCodecs")
                                  then ConnectCmdObjKey.video_codecs
                                  else (if iequals key (codes "pageUrl")
                                      then ConnectCmdObjKey.page_url
                                      else (if iequals key (codes "objectEncoding")
                                          then ConnectCmdObjKey.object_encoding
                                          else ConnectCmdObjKey.unknown)))))))))

-- The switch over the key of a value of the command object, whose type is `t`.
unfoldable pub connect_value : ConnectCmdObjKey → ℕ → ConnectCmd → M ReadBuffer ConnectCmd
connect_value ConnectCmdObjKey.app t mp = do s ← parse_as_string; pure (record mp { app = s })
connect_value ConnectCmdObjKey.flashver t mp = do
  s ← parse_as_string
  pure (record mp { flashver = s })
connect_value ConnectCmdObjKey.swf_url t mp = do
  s ← parse_as_string
  pure (record mp { swf_url = s })
connect_value ConnectCmdObjKey.tc_url t mp = do s ← parse_as_string; pure (record mp { tc_url = s })
connect_value ConnectCmdObjKey.type t mp = do s ← parse_as_string; pure (record mp { type = s })
connect_value ConnectCmdObjKey.fpad t mp = do b ← parse_as_bool; pure (record mp { fpad = b })
connect_value ConnectCmdObjKey.audio_codecs t mp = do
  v ← parse_as_number
  pure (record mp { audio_codecs = double_to_int v })
connect_value ConnectCmdObjKey.video_codecs t mp = do
  v ← parse_as_number
  pure (record mp { video_codecs = double_to_int v })
connect_value ConnectCmdObjKey.page_url t mp = do
  s ← parse_as_string
  pure (record mp { page_url = s })
connect_value ConnectCmdObjKey.object_encoding t mp = do
  v ← parse_as_number
  pure (record mp { object_encoding = double_to_int v })
connect_value ConnectCmdObjKey.unknown t mp = do skip_type t; pure mp

module _ (iequals : List ℕ → List ℕ → Bool) where
  -- The loop over the command object: `parse_key` and `key` are its variables. `hang`: out of fuel.
  unfoldable pub connect_loop : ℕ → Bool → ConnectCmdObjKey → ConnectCmd → M ReadBuffer ConnectCmd
  connect_loop zero parse_key key mp = throw hang
  connect_loop (suc fuel) parse_key key mp = do
    finished ← gets is_finished
    let item = (do
      t ← get_next_type true
      let on_key = (do
        name ← parse_object_key
        connect_loop fuel false (cmd_connect_is_key_valid iequals name) mp)
      let on_value = (do mp' ← connect_value key t mp; connect_loop fuel true key mp')
      if t == Amf0Type.object_end
          then (do skip_object_end; pure mp)
          else (if parse_key then on_key else on_value))
    if finished then pure mp else item

  unfoldable pub connect_cmd : M ReadBuffer ConnectCmd
  connect_cmd = do
    expect_name (codes "connect")
    id ← parse_as_number
    throw_if (not (id == double_one)) bad_protocal_data
    t ← get_next_type false
    throw_if (not (t == Amf0Type.object)) bad_protocal_data
    skip_object_start
    n ← gets unread_size
    connect_loop (suc n) true ConnectCmdObjKey.unknown
        (record new_connect_cmd { transaction_id = id })

  unfoldable pub parse_connect_cmd : RtmpMsgHeader → Result ConnectCmd
  parse_connect_cmd mh = parse_command mh (guarded connect_cmd)
