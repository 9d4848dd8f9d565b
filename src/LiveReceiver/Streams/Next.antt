-- ===== src/LiveReceiver/Streams/Next.antt =====
-- livereceiveractor.cpp, onReceiveStream behind the first message.
use tvie_rtmp.Base.{◌≡◌, refl, ap, ◌∙◌, Bool, true, false, List, ◌∷◌, ◌++◌, if◌then◌else◌}
use tvie_rtmp.Base.Int.{ℤ, eq_ℤ}
use tvie_rtmp.Exception.{ok, pure, gets, >>=-ok, ◌>>◌}
use tvie_rtmp.ReadBuffer.View.{unread}
use tvie_rtmp.Message.{RtmpMsgHeader}
use tvie_rtmp.LiveReceiver.{LiveReceiverActor, write_start, on_receive_stream}
use tvie_rtmp.LiveReceiver.StreamSetup.{StreamSetupInfo, write_flv_header, write_meta_data}
use tvie_rtmp.LiveReceiver.Fifo.{tag_of, IsWhole}
use tvie_rtmp.LiveReceiver.Fifo.Order.{write_data-Represents}
use tvie_rtmp.LiveReceiver.Wait.{queue_of, queue_of-Represents}
use tvie_rtmp.LiveReceiver.Tags.{IsOpen}
use tvie_rtmp.LiveReceiver.Streams.{receive_first_ok}

-- A message for the first stream, whose header is written: its tag goes behind the stream's bytes.
pub on_receive_stream_next :
    (id : ℤ) (is_video : Bool) (msg : RtmpMsgHeader) (a : LiveReceiverActor) (i : StreamSetupInfo)
    (is : List StreamSetupInfo)
    → a.push_thread_done ≡ false
    → a.streams ≡ i ∷ is
    → eq_ℤ i.stream_id id ≡ true
    → i.flv_header_written ≡ true
    → IsWhole msg
    → IsOpen i
    → (i' : StreamSetupInfo) × (on_receive_stream id is_video msg a
        ≡ (ok true, record a { streams = i' ∷ is; thread_started = true }))
      × IsOpen i'
      × (unread i'.rb ≡ unread i.rb ++ tag_of msg)
unfolding write_start
on_receive_stream_next id is_video msg a i is running first mine written whole o =
    let (l, e, pl) = write_data-Represents msg i (queue_of i) whole (queue_of-Represents i o) in
    let started : write_start a.meta_data i ≡ (ok tt, i) =
      >>=-ok (gets (λ i. i.flv_header_written)) _ i refl
      ∙ ap (λ b. (if b then pure tt else (write_flv_header >> write_meta_data a.meta_data)) i)
          written in
    (
      l,
      receive_first_ok id is_video msg a i i l is running first mine started e,
      pl.is_open,
      pl.same,
    )
