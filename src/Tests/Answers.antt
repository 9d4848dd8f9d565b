-- ===== src/Tests/Answers.antt =====
-- The answer to a createStream command.
use tvie_rtmp.Base.{ℕ, List, [], ◌∷◌, ◌++◌}
use tvie_rtmp.WriteBuffer.{WriteBuffer}
use tvie_rtmp.Message.{cmd_amf0}
use tvie_rtmp.Amf.Format.{null}
use tvie_rtmp.Parser.Header.{header_bytes}
use tvie_rtmp.Connection.Exchange.CreateStream.{create_stream_body}

-- The command with the transaction id 2 on the chunk stream 3, and one byte of the next message.
abbrev question : List ℕ
question =
    header_bytes 3 0 25 cmd_amf0 (0 ∷ 0 ∷ 0 ∷ 0 ∷ [])
    ++ (create_stream_body 0x4000000000000000 null ++ 9 ∷ [])
