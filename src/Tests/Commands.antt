-- ===== src/Tests/Commands.antt =====
-- Values of the AMF0 format, and commands in the bodies of messages.
use tvie_rtmp.Base.{ℕ, ◌≡◌, refl, true, false, some, List, [], ◌∷◌, ◌++◌, inr, length, arith}
use tvie_rtmp.Base.Int.{pos}
use tvie_rtmp.Base.Text.{codes}
use tvie_rtmp.Exception.{ok, err, fault}
use tvie_rtmp.ReadBuffer.{ReadBuffer}
use tvie_rtmp.ReadBuffer.Snap.{number}
use tvie_rtmp.Message.{RtmpMsgHeader, new_header}
use tvie_rtmp.Amf.{parse_as_string, skip_type}
use tvie_rtmp.Amf.Format.{Value, number, string, object, null, end, field, encode}
use tvie_rtmp.Amf.RoundTrip.{parse_as_string_round_trip}
use tvie_rtmp.Amf.NextType.{IsPlain}
use tvie_rtmp.Amf.Exact.{skip_type_takes}
use tvie_rtmp.Base.{bytes_eq}
use tvie_rtmp.Parser.Commands.{
  parse_release_stream_cmd, parse_fc_publish_cmd, parse_publish_cmd, peek_amf0_cmd,
  peek_amf0_data_type, parse_create_stream_cmd, parse_connect_cmd,
}
use tvie_rtmp.Parser.Commands.Errors.{ends_settled, parsers-ends_settled}
use tvie_rtmp.Parser.MetaData.{parse_meta_data}
use tvie_rtmp.Parser.Commands.RoundTrip.{
  command, parse_stream_cmds_round_trip, parse_publish_cmd_round_trip,
}

abbrev name : List ℕ
name = codes "live"

abbrev kind : List ℕ
kind = codes "record"

abbrev one : ℕ
one = 0x3ff0000000000000

abbrev profile : Value
profile = object (field (codes "app") (string name) (field (codes "fpad") (number one) end))

-- A string of two characters, of which the second is 0, and one byte behind it.
abbrev text_buffer : ReadBuffer
text_buffer = record {
  buffer = 2 ∷ 0 ∷ 2 ∷ 97 ∷ 0 ∷ 5 ∷ [];
  capacity = 6;
  cout = 6;
  bi = 0;
  in_snap = false;
  snap_bi = 0;
}

parse_as_string_round_trip_example :
    parse_as_string text_buffer ≡ (ok (97 ∷ []), record text_buffer { bi = 5 })
unfolding encode
parse_as_string_round_trip_example =
    parse_as_string_round_trip (97 ∷ 0 ∷ []) (5 ∷ []) text_buffer (omega arith)
      (record { read_le = omega arith; fits = omega arith; sized = refl }) refl

profile-IsPlain : IsPlain profile
unfolding IsPlain
profile-IsPlain = (
  omega arith,
  omega arith,
  λ e. omega arith,
  omega arith,
  (omega arith, omega arith, λ e. omega arith, (omega arith, λ e. omega arith), tt),
)

-- A buffer that the encoded object fills.
abbrev profile_buffer : ReadBuffer
unfolding encode
profile_buffer = record {
  buffer = encode profile;
  capacity = length (encode profile);
  cout = length (encode profile);
  bi = 0;
  in_snap = false;
  snap_bi = 0;
}

skip_type_takes_example :
    skip_type 3 profile_buffer ≡ (ok tt, record profile_buffer { bi = length (encode profile) })
unfolding encode
skip_type_takes_example =
    skip_type_takes profile profile_buffer [] profile-IsPlain
      (record { read_le = omega arith; fits = omega arith; sized = refl }) refl
      (λ e. absurd (omega arith))

abbrev message : List ℕ → RtmpMsgHeader
message content = record new_header { length = pos (length content); body = some content }

parsers-ends_settled_example :
    (ends_settled (peek_amf0_cmd (message (2 ∷ 0 ∷ []))) ≡ true)
    × (ends_settled (peek_amf0_data_type (message (2 ∷ 0 ∷ []))) ≡ true)
    × (ends_settled (parse_release_stream_cmd (message (2 ∷ 0 ∷ []))) ≡ true)
    × (ends_settled (parse_publish_cmd (message (2 ∷ 0 ∷ []))) ≡ true)
    × (ends_settled (parse_fc_publish_cmd (message (2 ∷ 0 ∷ []))) ≡ true)
    × (ends_settled (parse_create_stream_cmd (message (2 ∷ 0 ∷ []))) ≡ true)
    × (ends_settled (parse_connect_cmd bytes_eq (message (2 ∷ 0 ∷ []))) ≡ true)
    × (ends_settled (parse_meta_data (λ v. []) (message (2 ∷ 0 ∷ []))) ≡ true)
parsers-ends_settled_example = parsers-ends_settled bytes_eq (λ v. []) (message (2 ∷ 0 ∷ []))

abbrev stream_bytes : List ℕ → List ℕ
stream_bytes cmd = command cmd one (encode profile ++ encode (string name)) ++ (5 ∷ [])

parse_stream_cmds_round_trip_example :
    (parse_release_stream_cmd (message (stream_bytes (codes "releaseStream")))
      ≡ ok (record { transaction_id = one; stream_name = name }))
    × (parse_fc_publish_cmd (message (stream_bytes (codes "FCPublish")))
        ≡ ok (record { transaction_id = one; stream_name = name }))
parse_stream_cmds_round_trip_example =
    parse_stream_cmds_round_trip (message (stream_bytes (codes "releaseStream")))
      (message (stream_bytes (codes "FCPublish"))) one profile name (5 ∷ []) (omega arith)
      (profile-IsPlain, inr refl) (omega arith) (refl, refl) (refl, refl)

abbrev create_bytes : List ℕ
create_bytes = command (codes "createStream") one (encode null) ++ []

abbrev publish_bytes : List ℕ
publish_bytes =
    command (codes "publish") one (encode null ++ (encode (string name) ++ encode (string kind)))
    ++ []

parse_publish_cmd_round_trip_example : parse_publish_cmd (message publish_bytes) ≡ err fault
parse_publish_cmd_round_trip_example =
    parse_publish_cmd_round_trip (message publish_bytes) one (omega arith) name kind []
      (omega arith) (omega arith) (refl, refl)
