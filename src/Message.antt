-- ===== src/Message.antt =====
-- rtmpmsg.h: messages, message types and what the commands carry.
use tvie_rtmp.Base.{ℕ, Bool, Option, none, List}
use tvie_rtmp.Base.Int.{ℤ, negsuc}

-- RtmpMsgHeader. Its chain of `prevMsgHeader` is a list of the parser. The constructor's -1 for
-- `chunkStreamId` is overwritten before anything reads it; here it is 0.
pub record RtmpMsgHeader : Type 0 where
  pub chunk_type : ℕ
  pub chunk_stream_id : ℕ
  pub timestamp : ℤ
  pub length : ℤ
  pub type_id : ℕ
  pub stream_id : ℤ
  pub body : Option (List ℕ)
  pub extendted_timestamp : ℤ
  pub un_parsed_size : ℤ

abbrev pub minus_one : ℤ
minus_one = negsuc 0

abbrev pub new_header : RtmpMsgHeader
new_header = record {
  chunk_type = 0;
  chunk_stream_id = 0;
  timestamp = minus_one;
  length = minus_one;
  type_id = 0;
  stream_id = minus_one;
  body = none;
  extendted_timestamp = minus_one;
  un_parsed_size = minus_one;
}

-- enum RtmpMsgType, as far as the code names it
abbrev pub set_chunk_size : ℕ
set_chunk_size = 1

abbrev pub acknowledgement : ℕ
acknowledgement = 3

abbrev pub user_control_msg : ℕ
user_control_msg = 4

abbrev pub wnd_ack_size : ℕ
wnd_ack_size = 5

abbrev pub set_peer_bandwidth : ℕ
set_peer_bandwidth = 6

abbrev pub audio : ℕ
audio = 8

abbrev pub video : ℕ
video = 9

abbrev pub cmd_amf3 : ℕ
cmd_amf3 = 17

abbrev pub data_amf0 : ℕ
data_amf0 = 18

abbrev pub cmd_amf0 : ℕ
cmd_amf0 = 20

-- enum ConnectCmdObjKey
pub data ConnectCmdObjKey : Type 0 where
  app flashver swf_url tc_url type fpad audio_codecs video_codecs page_url object_encoding :
      ConnectCmdObjKey
  unknown : ConnectCmdObjKey

-- ConnectCmd. A double is its bit pattern; the enums are ints.
pub record ConnectCmd : Type 0 where
  pub transaction_id : ℕ
  pub app : List ℕ
  pub flashver : List ℕ
  pub swf_url : List ℕ
  pub tc_url : List ℕ
  pub type : List ℕ
  pub fpad : Bool
  pub audio_codecs : ℤ
  pub video_codecs : ℤ
  pub page_url : List ℕ
  pub object_encoding : ℤ

-- ReleaseStreamCmd and FCPublishCmd
pub record StreamCmd : Type 0 where
  pub transaction_id : ℕ
  pub stream_name : List ℕ

pub record CreateStreamCmd : Type 0 where
  pub transaction_id : ℕ

pub record PublishCmd : Type 0 where
  pub transaction_id : ℕ
  pub publishing_name : List ℕ
  pub publishing_type : List ℕ

-- enum AMF0Commands
pub data Amf0Command : Type 0 where
  connect release_stream fc_publish create_stream publish : Amf0Command

-- MetaDataMsg. The ints that its constructor leaves uninitialised are `none` until they are set.
pub record MetaDataMsg : Type 0 where
  pub author : List ℕ
  pub copyright : List ℕ
  pub description : List ℕ
  pub keywords : List ℕ
  pub rating : List ℕ
  pub title : List ℕ
  pub presetname : List ℕ
  pub creationdate : List ℕ
  pub videodevice : List ℕ
  pub framerate : Option ℤ
  pub width : ℕ
  pub height : Option ℕ
  pub videocodecid : List ℕ
  pub videodatarate : Option ℕ
  pub avclevel : Option ℤ
  pub avcprofile : Option ℤ
  pub videokeyframe_frequency : Option ℤ
  pub audiodevice : List ℕ
  pub audiosamplerate : ℕ
  pub audiochannels : Option ℤ
  pub audioinputvolume : Option ℤ
  pub audiocodecid : List ℕ
  pub audiodatarate : Option ℕ
  pub metadata : List ℕ
  pub metadata_size : ℕ
  pub timestamp : ℤ
