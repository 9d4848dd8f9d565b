-- ===== src/LiveReceiver/Push.antt =====
-- livereceiveractor.cpp, createInput, setOutputCtx and pushThread: the thread that moves the frames of the
-- first stream to the output.
--
-- The media library is a parameter: `Library` holds what its calls return, the list of input streams is
-- what the context has behind avformat_find_stream_info, whether that succeeded or not, and a function
-- says what each call of av_read_frame returns. The loop has as much fuel as calls are looked at: `hang`
-- where none of them ended it. The thread goes on whatever avformat_write_header returns. A null context
-- is a `fault`: avformat_open_input that failed leaves one, and ctx_ is null before onPublish.
-- An entry of streamMap_ that was never written is not initialised: reading it is a `fault`, as is an
-- access outside of the array.
pub mod Times
pub mod Output
pub mod Thread
pub mod Unmapped
use tvie_rtmp.Base.{
  ℕ, zero, suc, ◌+◌, ◌-◌, ◌^◌, Bool, true, false, not, ◌&&◌, ◌||◌, Option, none, some, List, [],
  ◌∷◌, ◌++◌, ltb, leb, ◌==◌, if◌then◌else◌, length, get_elem?, set, replicate,
}
use tvie_rtmp.Base.Int.{ℤ, pos, negsuc, ◌-ℤ◌, eq_ℤ}
use tvie_rtmp.Exception.{
  internal_error, fault, hang, Result, ok, err, M, pure, throw, throw_if, gets, modify, ◌>>=◌, ◌>>◌,
  on,
}
use tvie_rtmp.Message.{minus_one}
use tvie_rtmp.Connection.Output.{pattern64}
use tvie_rtmp.LiveReceiver.Media.{
  MediaType, video, audio, Stream, Packet, Reading, ended, again, frame, Library, is_video,
  is_audio, of_type, copy_streams,
}
use tvie_rtmp.LiveReceiver.{LiveReceiverActor, stream_count, notify_push_thread_done}

-- The members that only the push thread uses, and the actor. `written` is what the output has taken.
pub record Pusher : Type 0 where
  pub stream_map : List (Option ℕ)
  pub out_streams : List Stream
  pub header_written : Bool
  pub start_time : ℤ
  pub written : List Packet
  pub actor : LiveReceiverActor

unfoldable pub new_pusher : LiveReceiverActor → Pusher
new_pusher a = record {
  stream_map = replicate stream_count none;
  out_streams = [];
  header_written = false;
  start_time = minus_one;
  written = [];
  actor = a;
}

-- The last video and the last audio stream of the input.
unfoldable pub pick_streams :
    Option Stream → Option Stream → List Stream → Option Stream × Option Stream
pick_streams v a [] = (v, a)
pick_streams v a (s ∷ ss) =
    if is_video s.codec.codec_type
    then pick_streams (some s) a ss
    else (if is_audio s.codec.codec_type then pick_streams v (some s) ss else pick_streams v a ss)

-- streamMap_[i] = k
unfoldable pub set_map : ℕ → ℕ → M Pusher (Unit {0})
set_map i k p =
    if ltb i (length p.stream_map)
    then (ok tt, record p { stream_map = set p.stream_map i (some k) })
    else (err fault, p)

-- ctx_->streams[k]
unfoldable pub out_stream : ℕ → M Pusher Stream
out_stream k p = elim (get_elem? p.out_streams k) [ none ↦ (err fault, p) | some s ↦ (ok s, p) ]

unfoldable pub put_out_stream : ℕ → Stream → M Pusher (Unit {0})
put_out_stream k s = modify (λ p. record p { out_streams = set p.out_streams k s })

-- The int64_t of a difference of two. Overflow is undefined; here it wraps.
unfoldable pub to_int64 : ℤ → ℤ
to_int64 z = let w : ℕ = pattern64 z in if ltb w (2 ^ 63) then pos w else negsuc (2 ^ 64 - w - 1)

unfoldable pub copy_all : Library → Option Stream → Option Stream → M Pusher (Unit {0})
copy_all lib v a p = elim (copy_streams lib v a p.out_streams) [
  | err e ↦ (err e, p)
  | ok outs ↦ (ok tt, record p { out_streams = outs })
]

module _ (lib : Library) where
  unfoldable pub create_input : M Pusher (Unit {0})
  create_input = do
    throw_if (not lib.alloc_context) internal_error
    throw_if (not lib.alloc_buffer) internal_error
    throw_if (not lib.alloc_io_context) internal_error

  -- av_new_stream, where it succeeds, and the entries for the new stream.
  unfoldable pub new_out_stream : MediaType → Stream → ℕ → M Pusher (Option ℕ)
  new_out_stream kind inp k = do
    n ← gets (λ p. length p.out_streams)
    modify (λ p. record p { out_streams = p.out_streams ++ (lib.fresh_stream n ∷ []) })
    set_map inp.index k
    out ← out_stream k
    put_out_stream k (of_type kind out)
    pure (some (suc k))

  -- The output stream for an input stream, if there is one: the next index, or none on a failure.
  unfoldable pub add_stream : MediaType → Option Stream → ℕ → M Pusher (Option ℕ)
  add_stream kind none k = pure (some k)
  add_stream kind (some inp) k =
      let added = new_out_stream kind inp k in if lib.adds_stream k then added else pure none

  unfoldable pub after_audio : Option Stream → Option Stream → Option ℕ → M Pusher Bool
  after_audio v a none = pure false
  after_audio v a (some k) = do copy_all lib v a; pure true

  unfoldable pub after_video : Option Stream → Option Stream → Option ℕ → M Pusher Bool
  after_video v a none = pure false
  after_video v a (some k) = do next ← add_stream audio a k; after_audio v a next

  unfoldable pub set_output_ctx : List Stream → M Pusher Bool
  set_output_ctx ins = do
    let (v, a) = pick_streams none none ins
    next ← add_stream video v 0
    after_video v a next

  -- streamMap_[i]
  unfoldable pub mapped : ℕ → M Pusher ℕ
  mapped i p = elim (get_elem? p.stream_map i) [
    | none ↦ (err fault, p)
    | some none ↦ (err fault, p)
    | some (some k) ↦ (ok k, p)
  ]

  -- context->streams[i]
  unfoldable pub in_stream : List Stream → ℕ → M Pusher Stream
  in_stream ins i p = elim (get_elem? ins i) [ none ↦ (err fault, p) | some s ↦ (ok s, p) ]

  abbrev pub retime : ℤ × ℤ → ℕ → ℤ → Packet → Packet
  retime base k start x = record {
    stream_index = k;
    pts = to_int64 (lib.rescale x.pts base (lib.out_time_base k) -ℤ start);
    dts = to_int64 (lib.rescale x.dts base (lib.out_time_base k) -ℤ start);
    duration = lib.rescale x.duration base (lib.out_time_base k);
  }

  -- av_interleaved_write_frame: whether it takes the packet.
  unfoldable pub write_frame : Packet → M Pusher Bool
  write_frame x = do
    taken ← gets (λ p. lib.takes p.written x)
    modify (λ p. record p { written = if taken then p.written ++ (x ∷ []) else p.written })
    pure taken

  -- A round of the loop with a frame: whether the loop goes on.
  unfoldable pub push_frame : List Stream → Packet → M Pusher Bool
  push_frame ins x = do
    inp ← in_stream ins x.stream_index
    k ← mapped x.stream_index
    out ← out_stream k
    modify (λ p. record p {
      start_time =
          if eq_ℤ p.start_time minus_one
          then lib.rescale x.dts inp.time_base (lib.out_time_base k)
          else p.start_time;
    })
    start ← gets (λ p. p.start_time)
    write_frame (retime inp.time_base k start x)

  -- A round of the loop: `next` is what comes behind it, if it does not break.
  unfoldable pub push_from : List Stream → Reading → M Pusher (Unit {0}) → M Pusher (Unit {0})
  push_from ins ended next = pure tt
  push_from ins again next = next
  push_from ins (frame x) next = do more ← push_frame ins x; if more then next else pure tt

  -- The loop from the call `i` of av_read_frame on, for at most `fuel` calls.
  unfoldable pub push_frames : List Stream → (ℕ → Reading) → ℕ → ℕ → M Pusher (Unit {0})
  push_frames ins reads zero i = throw hang
  push_frames ins reads (suc fuel) i = push_from ins (reads i) (push_frames ins reads fuel (suc i))

  -- streamInfos_[0], which is there if onCreateStream has been called.
  unfoldable pub needs_stream : M Pusher (Unit {0})
  needs_stream = do throw_if ((← gets (λ p. length p.actor.streams)) == 0) fault

  -- pushThread, with `calls` calls of av_read_frame at most.
  unfoldable pub push_thread : List Stream → (ℕ → Reading) → ℕ → M Pusher (Unit {0})
  push_thread ins reads calls = do
    needs_stream
    create_input
    throw_if (not lib.opens_input) fault
    throw_if (not (← gets (λ p. p.actor.has_output))) fault
    set_output_ctx ins
    modify (λ p. record p { header_written = true })
    push_frames ins reads calls 0
    on (λ p. p.actor) (λ a p. record p { actor = a }) notify_push_thread_done
