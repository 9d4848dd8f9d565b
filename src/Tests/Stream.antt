-- ===== src/Tests/Stream.antt =====
-- The theorems about the live receive actor at concrete inputs.
use tvie_rtmp.Base.{ℕ, ◌≡◌, refl, true, false, some, none, List, [], ◌∷◌, ◌++◌, arith}
use tvie_rtmp.Base.Int.{ℤ, pos}
use tvie_rtmp.Exception.{ok, err, fault}
use tvie_rtmp.ReadBuffer.View.{unread}
use tvie_rtmp.ReadBuffer.Append.{empty-IsValid}
use tvie_rtmp.ReadBuffer.Number.{pow-pos}
use tvie_rtmp.Message.{RtmpMsgHeader, new_header}
use tvie_rtmp.Parser.MetaData.{new_meta_data}
use tvie_rtmp.LiveReceiver.{LiveReceiverActor, on_create_stream, on_receive_stream}
use tvie_rtmp.LiveReceiver.StreamSetup.{
  StreamSetupInfo, new_stream, write_tag, feed_data, Fed, returns, flv_flags,
}
use tvie_rtmp.LiveReceiver.Tags.{tag, FitsTag, IsOpen, Appended, write_tag-Appended}
use tvie_rtmp.LiveReceiver.Fifo.{
  Action, write, finish, feed, perform_all, all_answers, after_all, Represents, IsWhole,
  CanPerformAll, bytes_of, tags_of, tag_of,
}
use tvie_rtmp.LiveReceiver.Fifo.Order.{perform_all-Represents, perform_all_keeps_order}
use tvie_rtmp.LiveReceiver.Wait.{queue_of, queue_of-Represents, feed_data-returns}
use tvie_rtmp.LiveReceiver.FlvHeader.{flv_header}
use tvie_rtmp.LiveReceiver.Streams.{
  on_create_stream_bound, on_receive_stream_first, on_receive_stream_no_metadata,
}

abbrev pub first_stream : StreamSetupInfo
first_stream = new_stream (pos 1)

pub first_stream-IsOpen : IsOpen first_stream
unfolding new_stream
first_stream-IsOpen = record {
  valid = empty-IsValid 1024;
  no_snap = refl;
  has_room = omega arith;
  doublings = 0;
  sized = refl;
}

abbrev sound : RtmpMsgHeader
sound = record new_header {
  type_id = 8;
  length = pos 3;
  body = some (175 ∷ 1 ∷ 33 ∷ []);
  timestamp = pos 70000;
  stream_id = pos 1;
}

pub fits : FitsTag 32 (175 ∷ 1 ∷ 33 ∷ [])
fits = ((λ m e. absurd (omega (arith, e, pow-pos m))), omega arith)

sound-IsWhole : IsWhole sound
sound-IsWhole = record {
  content = 175 ∷ 1 ∷ 33 ∷ [];
  has_body = refl;
  has_length = refl;
  has_type = omega arith;
  fits = fits;
}

abbrev actions : List Action
actions = write sound ∷ feed 10 ∷ write sound ∷ finish ∷ feed 100 ∷ feed 1 ∷ []

actions-CanPerformAll : CanPerformAll actions
actions-CanPerformAll = (sound-IsWhole, (tt, (sound-IsWhole, (tt, (tt, (tt, tt))))))

perform_all-Represents_example :
    (i' : StreamSetupInfo) × (perform_all actions first_stream
      ≡ (ok (all_answers actions (queue_of first_stream)), i'))
    × Represents i' (after_all actions (queue_of first_stream))
perform_all-Represents_example =
    perform_all-Represents actions first_stream (queue_of first_stream) actions-CanPerformAll
      (queue_of-Represents first_stream first_stream-IsOpen)

perform_all_keeps_order_example :
    (fs : List Fed) × (i' : StreamSetupInfo) × (perform_all actions first_stream ≡ (ok fs, i'))
    × IsOpen i'
    × (bytes_of fs ++ unread i'.rb ≡ unread first_stream.rb ++ tags_of actions)
perform_all_keeps_order_example =
    perform_all_keeps_order actions first_stream actions-CanPerformAll first_stream-IsOpen

write_tag-Appended_example :
    (i' : StreamSetupInfo) × (write_tag 8 3 (pos 70000) (175 ∷ 1 ∷ 33 ∷ []) first_stream
      ≡ (ok tt, i'))
    × Appended first_stream i' (tag 8 70000 (175 ∷ 1 ∷ 33 ∷ []))
write_tag-Appended_example =
    write_tag-Appended 8 (pos 70000) (175 ∷ 1 ∷ 33 ∷ []) first_stream (omega arith)
      first_stream-IsOpen fits

-- The other thread does nothing.
idle-IsOpen : (k : ℕ) (i : StreamSetupInfo) → IsOpen i → IsOpen i
idle-IsOpen k i o = o

feed_data-returns_example :
    (m : ℤ) × (d : List ℕ) × (j : StreamSetupInfo) × (feed_data (λ k i. i) 100 first_stream
      ≡ (ok (returns m d), j))
    × IsOpen j
feed_data-returns_example =
    feed_data-returns (λ k i. i) idle-IsOpen 100 first_stream first_stream-IsOpen

abbrev pub receiver : LiveReceiverActor
receiver = record {
  connect_info = none;
  streams = first_stream ∷ [];
  output_url = [];
  thread_started = false;
  meta_data = some (record new_meta_data { metadata = 175 ∷ 1 ∷ 33 ∷ []; metadata_size = 3 });
  push_thread_done = false;
  has_output = true;
}

on_create_stream_bound_example :
    on_create_stream 2 receiver
    ≡ (ok true, record receiver { streams = first_stream ∷ new_stream (pos 2) ∷ [] })
on_create_stream_bound_example = on_create_stream_bound 2 receiver

on_receive_stream_first_example :
    (i' : StreamSetupInfo) × (on_receive_stream (pos 1) false sound receiver
      ≡ (ok true, record receiver { streams = i' ∷ []; thread_started = true }))
    × IsOpen i'
    × (unread i'.rb
        ≡ unread first_stream.rb
          ++ (flv_header (flv_flags false false)
              ++ (tag 0x12 0 (175 ∷ 1 ∷ 33 ∷ []) ++ tag_of sound)))
unfolding new_stream
on_receive_stream_first_example =
    on_receive_stream_first (pos 1) false sound receiver first_stream []
      (record new_meta_data { metadata = 175 ∷ 1 ∷ 33 ∷ []; metadata_size = 3 }) refl refl refl refl
      refl refl fits sound-IsWhole first_stream-IsOpen

on_receive_stream_no_metadata_example :
    (on_receive_stream (pos 1) false sound (record receiver { meta_data = none })).0 ≡ err fault
unfolding new_stream
on_receive_stream_no_metadata_example =
    on_receive_stream_no_metadata (pos 1) false sound (record receiver { meta_data = none })
      first_stream [] refl refl refl refl refl first_stream-IsOpen
