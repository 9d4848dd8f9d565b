-- ===== src/Tests/Push.antt =====
-- The push thread on an input with a video and an audio stream and a stream of subtitles.
use tvie_rtmp.Base.{
  ℕ, zero, suc, ◌+◌, ◌<◌, ◌≡◌, refl, true, false, inl, List, [], ◌∷◌, length, ltb, ◌==◌,
  if◌then◌else◌, arith,
}
use tvie_rtmp.Base.Int.{pos, ◌-ℤ◌}
use tvie_rtmp.Exception.{fault, err}
use tvie_rtmp.LiveReceiver.{LiveReceiverActor, new_actor}
use tvie_rtmp.LiveReceiver.StreamSetup.{new_stream}
use tvie_rtmp.LiveReceiver.Media.{
  MediaType, video, audio, other, Codec, Stream, Packet, Reading, ended, again, frame, Library,
}
use tvie_rtmp.LiveReceiver.Push.{Pusher, new_pusher, pick_streams, to_int64, push_thread}
use tvie_rtmp.LiveReceiver.Push.Output.{HasBoth, ready_pusher}
use tvie_rtmp.LiveReceiver.Push.Thread.{CanStart}
use tvie_rtmp.LiveReceiver.Push.Unmapped.{IsOurs, push_thread_unmapped}

abbrev codec : MediaType → Codec
codec kind = record {
  codec_type = kind;
  bits_per_raw_sample = pos 0;
  chroma_sample_location = 0;
  codec_id = 7;
  codec_tag = 0;
  extradata = 1 ∷ [];
  time_base = (pos 1, pos 1000);
  pix_fmt = pos 0;
  width = pos 64;
  height = pos 48;
  has_b_frames = pos 0;
  channel_layout = 0;
  sample_rate = pos 0;
  channels = pos 0;
  frame_size = pos 0;
  block_align = pos 0;
  global_header = false;
}

abbrev stream : ℕ → MediaType → Stream
stream i kind = record {
  index = i;
  disposition = pos 0;
  time_base = (pos 1, pos 1000);
  codec = codec kind;
}

-- A library with one time base, whose output is full behind two packets.
abbrev library : Library
library = record {
  alloc_context = true;
  alloc_buffer = true;
  alloc_io_context = true;
  opens_input = true;
  adds_stream = λ k. true;
  fresh_stream = λ k. stream k other;
  has_tags = false;
  get_id = λ k. k;
  get_tag = λ k. k;
  wants_global_header = true;
  rescale = λ t from to. t;
  out_time_base = λ k. (pos 1, pos 1000);
  takes = λ before x. ltb (length before) 2;
}

abbrev inputs : List Stream
inputs = stream 0 audio ∷ stream 1 video ∷ stream 2 other ∷ []

abbrev packet : ℕ → ℕ → Packet
packet i t = record { stream_index = i; pts = pos (10 + t); dts = pos t; duration = pos 1 }

abbrev frames : ℕ → Reading
frames n = elim n [
  | zero ↦ again
  | suc m ↦ elim m [
    | zero ↦ frame (packet 1 40)
    | suc k ↦ elim k [
      | zero ↦ frame (packet 0 42)
      | suc j ↦ if j == 0 then frame (packet 1 43) else ended
    ]
  ]
]

-- The actor behind onCreateStream, onPublish and its first message.
abbrev actor : LiveReceiverActor
actor = record new_actor {
  streams = new_stream (pos 1) ∷ [];
  thread_started = true;
  has_output = true;
}

abbrev after_frames : Pusher
after_frames = record (ready_pusher library (stream 1 video) (stream 0 audio) actor) {
  header_written = true;
  start_time = pos 40;
  written =
      record {
        stream_index = 0;
        pts = to_int64 (pos 50 -ℤ pos 40);
        dts = to_int64 (pos 40 -ℤ pos 40);
        duration = pos 1;
      }
      ∷ record {
        stream_index = 1;
        pts = to_int64 (pos 52 -ℤ pos 40);
        dts = to_int64 (pos 42 -ℤ pos 40);
        duration = pos 1;
      }
      ∷ [];
  actor = record actor { push_thread_done = true };
}

-- An output that is never full.
abbrev unbounded : Library
unbounded = record library { takes = λ before x. true }

unbounded-HasBoth : HasBoth unbounded inputs (stream 1 video) (stream 0 audio)
unfolding pick_streams
unbounded-HasBoth = record {
  picked = refl;
  video_low = omega arith;
  audio_low = omega arith;
  apart = λ e. omega (arith, e);
  adds_video = refl;
  adds_audio = refl;
  video_at = refl;
  audio_at = refl;
}

unbounded-CanStart : CanStart unbounded actor
unbounded-CanStart = record {
  context = refl;
  buffer = refl;
  io_context = refl;
  opens_input = refl;
  has_output = refl;
  has_stream = refl;
}

-- A frame of the video, and then one of the subtitles.
abbrev with_subtitles : ℕ → Reading
with_subtitles n = elim n [ zero ↦ frame (packet 1 40) | suc m ↦ frame (packet 2 41) ]

first-IsOurs :
    (j : ℕ)
    → j < 1
    → IsOurs unbounded inputs (stream 1 video) (stream 0 audio) unbounded-HasBoth (with_subtitles j)
first-IsOurs zero h = inl refl
first-IsOurs (suc j) h = absurd (omega arith)

push_thread_unmapped_example :
    (push_thread unbounded inputs with_subtitles 9 (new_pusher actor)).0 ≡ err fault
push_thread_unmapped_example =
    push_thread_unmapped unbounded inputs (stream 1 video) (stream 0 audio) unbounded-HasBoth
      (packet 2 41) (stream 2 other) refl (omega arith) (λ e. omega (arith, e))
      (λ e. omega (arith, e)) with_subtitles 1 9 actor unbounded-CanStart (λ w y. refl)
      (omega arith) first-IsOurs refl
