-- ===== src/Tests/Times.antt =====
-- The times of an audio stream, with a message of another chunk stream in between.
use tvie_rtmp.Base.{ℕ, ◌≡◌, refl, List, [], ◌∷◌}
use tvie_rtmp.Base.Int.{pos, ◌+ℤ◌}
use tvie_rtmp.Exception.{ok}
use tvie_rtmp.Message.{RtmpMsgHeader, new_header, audio, cmd_amf0}
use tvie_rtmp.Parser.{RtmpParser}
use tvie_rtmp.Parser.Times.{parse_headers, times_on}
use tvie_rtmp.Parser.Times.Follow.{parse_headers-times}
use tvie_rtmp.Tests.Chunks.{at_bytes}

abbrev chunk : ℕ → ℕ → ℕ → ℕ → RtmpMsgHeader
chunk kind id timestamp type = record new_header {
  chunk_type = kind;
  chunk_stream_id = id;
  timestamp = pos timestamp;
  type_id = type;
}

abbrev chunks : List RtmpMsgHeader
chunks = chunk 3 4 0 0 ∷ chunk 1 4 20 audio ∷ chunk 0 3 7 cmd_amf0 ∷ chunk 3 4 0 0 ∷ []

parse_headers-times_example :
    (ms : List RtmpMsgHeader) × (q : RtmpParser) × (parse_headers
        (chunk 0 4 5 audio ∷ chunks)
        (at_bytes [])
      ≡ (ok ms, q))
    × (times_on 4 ms ≡ pos 5 ∷ pos 10 ∷ pos 30 ∷ pos 50 ∷ [])
unfolding ◌+ℤ◌
parse_headers-times_example =
    parse_headers-times 4 (chunk 0 4 5 audio) chunks (at_bytes []) refl refl refl
      (refl, (refl, (refl, (refl, tt))))
