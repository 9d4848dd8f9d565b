-- ===== src/Parser/MetaData.antt =====
-- rtmpparser.cpp, parseMetaData: the onMetaData of a @setDataFrame message. The formatting of a
-- double by std::ostringstream is the parameter `num_to_str`.
pub mod Ends
use tvie_rtmp.Base.{
  ℕ, zero, suc, Bool, true, false, none, some, List, [], bytes_eq, ◌==◌, if◌then◌else◌,
}
use tvie_rtmp.Base.Int.{pos}
use tvie_rtmp.Base.Text.{codes}
use tvie_rtmp.Exception.{bad_protocal_data, hang, Result, M, pure, throw, gets, ◌>>=◌, ◌>>◌}
use tvie_rtmp.ReadBuffer.{ReadBuffer, unread_buffer, unread_size}
use tvie_rtmp.Message.{RtmpMsgHeader, MetaDataMsg}
use tvie_rtmp.Amf.{
  parse_as_string, parse_as_number, parse_object_key, get_next_type, skip_type, skip_object_start,
  skip_object_end, skip_ecma_array_start, is_finished,
}
use tvie_rtmp.Amf.Amf0Type
use tvie_rtmp.Parser.Commands.{guarded, parse_command, expect_name, double_to_int}

-- The double -1, which marks a missing width or sample rate.
abbrev pub double_minus_one : ℕ
double_minus_one = 0xbff0000000000000

abbrev pub new_meta_data : MetaDataMsg
new_meta_data = record {
  author = [];
  copyright = [];
  description = [];
  keywords = [];
  rating = [];
  title = [];
  presetname = [];
  creationdate = [];
  videodevice = [];
  framerate = none;
  width = double_minus_one;
  height = none;
  videocodecid = [];
  videodatarate = none;
  avclevel = none;
  avcprofile = none;
  videokeyframe_frequency = none;
  audiodevice = [];
  audiosamplerate = double_minus_one;
  audiochannels = none;
  audioinputvolume = none;
  audiocodecid = [];
  audiodatarate = none;
  metadata = [];
  metadata_size = 0;
  timestamp = pos 0;
}

abbrev with_string : (List ℕ → MetaDataMsg) → M ReadBuffer MetaDataMsg
with_string f = do s ← parse_as_string; pure (f s)

abbrev with_number : (ℕ → MetaDataMsg) → M ReadBuffer MetaDataMsg
with_number f = do v ← parse_as_number; pure (f v)

module _ (num_to_str : ℕ → List ℕ) where
  -- A codec id comes as a number or as a string.
  unfoldable pub parse_codec_id : ℕ → M ReadBuffer (List ℕ)
  parse_codec_id t =
      if t == Amf0Type.number
      then (do v ← parse_as_number; pure (num_to_str v))
      else parse_as_string

  -- The second half of the ladder over the key of a value of type `t`.
  unfoldable pub video_audio_value : List ℕ → ℕ → MetaDataMsg → M ReadBuffer MetaDataMsg
  video_audio_value key t mp =
      if bytes_eq key (codes "videocodecid")
      then (do s ← parse_codec_id t; pure (record mp { videocodecid = s }))
      else (if bytes_eq key (codes "videodatarate")
          then with_number (λ v. record mp { videodatarate = some v })
          else (if bytes_eq key (codes "avclevel")
              then with_number (λ v. record mp { avclevel = some (double_to_int v) })
              else (if bytes_eq key (codes "avcprofile")
                  then with_number (λ v. record mp { avcprofile = some (double_to_int v) })
                  else (if bytes_eq key (codes "videokeyframe_frequency")
                      then with_number
                          (λ v. record mp { videokeyframe_frequency = some (double_to_int v) })
                      else (if bytes_eq key (codes "audiodevice")
                          then with_string (λ s. record mp { audiodevice = s })
                          else (if bytes_eq key (codes "audiosamplerate")
                              then with_number (λ v. record mp { audiosamplerate = v })
                              else (if bytes_eq key (codes "audiochannels")
                                  then with_number
                                      (λ v. record mp { audiochannels = some (double_to_int v) })
                                  else (if bytes_eq key (codes "audioinputvolume")
                                      then with_number (λ v. record mp {
                                        audioinputvolume = some (double_to_int v);
                                      })
                                      else (if bytes_eq key (codes "audiocodecid")
                                          then (do
                                            s ← parse_codec_id t
                                            pure (record mp { audiocodecid = s }))
                                          else (if bytes_eq key (codes "audiodatarate")
                                              then with_number
                                                  (λ v. record mp { audiodatarate = some v })
                                              else (do skip_type t; pure mp)))))))))))

  -- One value of the object, by its key.
  unfoldable pub meta_value : List ℕ → ℕ → MetaDataMsg → M ReadBuffer MetaDataMsg
  meta_value key t mp =
      if bytes_eq key (codes "author")
      then with_string (λ s. record mp { author = s })
      else (if bytes_eq key (codes "copyright")
          then with_string (λ s. record mp { copyright = s })
          else (if bytes_eq key (codes "description")
              then with_string (λ s. record mp { description = s })
              else (if bytes_eq key (codes "keywords")
                  then with_string (λ s. record mp { keywords = s })
                  else (if bytes_eq key (codes "rating")
                      then with_string (λ s. record mp { rating = s })
                      else (if bytes_eq key (codes "title")
                          then with_string (λ s. record mp { title = s })
                          else (if bytes_eq key (codes "presetname")
                              then with_string (λ s. record mp { presetname = s })
                              else (if bytes_eq key (codes "creationdate")
                                  then with_string (λ s. record mp { creationdate = s })
                                  else (if bytes_eq key (codes "videodevice")
                                      then with_string (λ s. record mp { videodevice = s })
                                      else (if bytes_eq key (codes "framerate")
                                          then with_number (λ v. record mp {
                                            framerate = some (double_to_int v);
                                          })
                                          else (if bytes_eq key (codes "width")
                                              then with_number (λ v. record mp { width = v })
                                              else (if bytes_eq key (codes "height")
                                                  then with_number
                                                      (λ v. record mp { height = some v })
                                                  else video_audio_value key t mp)))))))))))

  -- The loop over the object. `hang`: out of fuel.
  unfoldable pub meta_loop : ℕ → Bool → List ℕ → MetaDataMsg → M ReadBuffer MetaDataMsg
  meta_loop zero parse_key key mp = throw hang
  meta_loop (suc fuel) parse_key key mp = do
    finished ← gets is_finished
    let item = (do
      t ← get_next_type true
      let on_key = (do name ← parse_object_key; meta_loop fuel false name mp)
      let on_value = (do mp' ← meta_value key t mp; meta_loop fuel true key mp')
      if t == Amf0Type.object_end
          then (do skip_object_end; pure mp)
          else (if parse_key then on_key else on_value))
    if finished then pure mp else item

  unfoldable pub object_or_array : ℕ → M ReadBuffer (Unit {0})
  object_or_array t =
      if t == Amf0Type.object
      then skip_object_start
      else (if t == Amf0Type.ecma_array then skip_ecma_array_start else throw bad_protocal_data)

  unfoldable pub meta_data : M ReadBuffer MetaDataMsg
  meta_data = do
    expect_name (codes "@setDataFrame")
    raw ← unread_buffer
    size ← gets unread_size
    expect_name (codes "onMetaData")
    t ← get_next_type false
    object_or_array t
    n ← gets unread_size
    meta_loop (suc n) true [] (record new_meta_data { metadata = raw; metadata_size = size })

  unfoldable pub parse_meta_data : RtmpMsgHeader → Result MetaDataMsg
  parse_meta_data mh = parse_command mh (guarded meta_data)
