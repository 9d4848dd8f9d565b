-- ===== src/Connection/Exchange/CreateStream.antt =====
-- rtmpconnection.cpp, normalExchange at a createStream command: from the client's bytes to the answer's.
use tvie_rtmp.Base.{ℕ, List}
use tvie_rtmp.Base.Text.{codes}
use tvie_rtmp.WriteBuffer.{WriteBuffer}
use tvie_rtmp.Amf.Format.{Value, encode}
use tvie_rtmp.Parser.Commands.RoundTrip.{command}
use tvie_rtmp.Connection.{Connection}

-- The message of a createStream command.
abbrev pub create_stream_body : ℕ → Value → List ℕ
create_stream_body id obj = command (codes "createStream") id (encode obj)
