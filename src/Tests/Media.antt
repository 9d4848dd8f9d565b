-- ===== src/Tests/Media.antt =====
-- An audio message in two chunks, from the client's bytes to the stream's.
use tvie_rtmp.Base.{ℕ, ◌≡◌, refl, true, false, List, [], ◌∷◌, ◌++◌, arith}
use tvie_rtmp.Base.Int.{pos}
use tvie_rtmp.Exception.{ok}
use tvie_rtmp.ReadBuffer.View.{unread}
use tvie_rtmp.Parser.{RtmpParser, get_stream_context}
use tvie_rtmp.LiveReceiver.{LiveReceiverActor}
use tvie_rtmp.LiveReceiver.StreamSetup.{StreamSetupInfo, new_stream}
use tvie_rtmp.LiveReceiver.Tags.{tag, IsOpen}
use tvie_rtmp.Connection.{Connection, new_connection}
use tvie_rtmp.Connection.Handshake.Exact.{Holds}
use tvie_rtmp.Connection.Exchange.{normal_exchange}
use tvie_rtmp.Connection.Exchange.Media.{IsReceiving, normal_exchange_forwards}
use tvie_rtmp.Tests.Client.{server, client_of, client_of-Holds}
use tvie_rtmp.Tests.Stream.{first_stream, first_stream-IsOpen, fits, receiver}

abbrev begun : StreamSetupInfo
begun = record first_stream { flv_header_written = true }

begun-IsOpen : IsOpen begun
begun-IsOpen = record {
  valid = first_stream-IsOpen.valid;
  no_snap = first_stream-IsOpen.no_snap;
  has_room = first_stream-IsOpen.has_room;
  doublings = first_stream-IsOpen.doublings;
  sized = first_stream-IsOpen.sized;
}

abbrev receiving : LiveReceiverActor
receiving = record receiver { streams = begun ∷ []; thread_started = true }

-- Three bytes of sound on the chunk stream 4 and the stream 1, and one byte of the next message.
abbrev chunks : List ℕ
chunks = 4 ∷ 0 ∷ 0 ∷ 7 ∷ 0 ∷ 0 ∷ 3 ∷ 8 ∷ 1 ∷ 0 ∷ 0 ∷ 0 ∷ 175 ∷ 1 ∷ 196 ∷ 33 ∷ 9 ∷ []

abbrev publisher : Connection LiveReceiverActor
publisher = record (client_of chunks) { actor = receiving; chunk_size = pos 2 }

publisher-Holds : Holds publisher chunks
publisher-Holds = let h = client_of-Holds chunks in record { valid = h.valid; bytes = h.bytes }

receiving-IsReceiving : IsReceiving receiving begun []
receiving-IsReceiving = record {
  running = refl;
  first = refl;
  written = refl;
  is_open = begun-IsOpen;
}

normal_exchange_forwards_example :
    (q : RtmpParser) × (i' : StreamSetupInfo) × (normal_exchange server publisher ≡ (
      ok tt,
      record publisher {
        parser = q;
        actor = record receiving { streams = i' ∷ []; thread_started = true };
      },
    ))
    × (unread q.rb ≡ 9 ∷ [])
    × IsOpen i'
    × (unread i'.rb ≡ unread begun.rb ++ tag 8 7 (175 ∷ 1 ∷ 33 ∷ []))
unfolding new_connection new_stream get_stream_context
normal_exchange_forwards_example =
    normal_exchange_forwards server 1 0 0 0
      (omega arith, (omega arith, (omega arith, (omega arith, tt)))) false 2 4 7 (175 ∷ 1 ∷ [])
      ((33 ∷ []) ∷ []) (9 ∷ []) publisher begun [] refl (omega arith) (omega arith) (omega arith)
      (omega arith) (refl, (omega arith, omega arith)) fits refl tt refl publisher-Holds
      receiving-IsReceiving refl
