-- ===== src/LiveReceiver/Push/Output.antt =====
-- livereceiveractor.cpp, setOutputCtx: the output streams and the stream map.
use tvie_rtmp.Base.{
  ℕ, zero, suc, ◌<◌, ◌≡◌, ◌≢◌, refl, sym, ap, ◌∙◌, true, none, some, Option, List, [], ◌∷◌, lt→ltb,
  length, length-set, get_elem?, set, replicate, arith,
}
use tvie_rtmp.Exception.{ok, ◌>>=◌, then_do}
use tvie_rtmp.LiveReceiver.{LiveReceiverActor, stream_count}
use tvie_rtmp.LiveReceiver.Media.{video, audio, Stream, Library, of_type, copy_codec, copy_streams}
use tvie_rtmp.LiveReceiver.Push.{
  Pusher, new_pusher, pick_streams, set_map, out_stream, put_out_stream, copy_all, new_out_stream,
  add_stream, after_audio, after_video, set_output_ctx,
}

get_elem?-set :
    {A : Type 0} (xs : List A) (i : ℕ) (x : A) → i < length xs → get_elem? (set xs i x) i ≡ some x
get_elem?-set [] i x h = absurd (omega arith)
get_elem?-set (y ∷ ys) zero x h = refl
get_elem?-set (y ∷ ys) (suc i) x h = get_elem?-set ys i x (omega arith)

get_elem?-set_other :
    {A : Type 0} (xs : List A) (i j : ℕ) (x : A) → i ≢ j → get_elem? (set xs i x) j ≡ get_elem? xs j
get_elem?-set_other [] i j x h = refl
get_elem?-set_other (y ∷ ys) zero zero x h = absurd (h refl)
get_elem?-set_other (y ∷ ys) zero (suc j) x h = refl
get_elem?-set_other (y ∷ ys) (suc i) zero x h = refl
get_elem?-set_other (y ∷ ys) (suc i) (suc j) x h = get_elem?-set_other ys i j x (λ e. h (ap suc e))

get_elem?-replicate : {A : Type 0} (n i : ℕ) (x : A) → i < n → get_elem? (replicate n x) i ≡ some x
get_elem?-replicate zero i x h = absurd (omega arith)
get_elem?-replicate (suc n) zero x h = refl
get_elem?-replicate (suc n) (suc i) x h = get_elem?-replicate n i x (omega arith)

set_map_inside :
    (i k : ℕ) (p : Pusher)
    → i < length p.stream_map
    → set_map i k p ≡ (ok tt, record p { stream_map = set p.stream_map i (some k) })
unfolding set_map
set_map_inside i k p h = rw (lt→ltb _ _ h) refl

-- The input has a video and an audio stream with places in the stream map, the last of their kinds, and
-- the library adds both output streams.
pub record HasBoth (lib : Library) (ins : List Stream) (v a : Stream) : Type 0 where
  pub picked : pick_streams none none ins ≡ (some v, some a)
  pub video_low : v.index < stream_count
  pub audio_low : a.index < stream_count
  pub apart : v.index ≢ a.index
  pub adds_video : lib.adds_stream 0 ≡ true
  pub adds_audio : lib.adds_stream 1 ≡ true
  pub video_at : get_elem? ins v.index ≡ some v
  pub audio_at : get_elem? ins a.index ≡ some a

module _ (lib : Library) (v a : Stream) where
  abbrev pub map_of : List (Option ℕ)
  map_of = set (set (replicate stream_count none) v.index (some 0)) a.index (some 1)

  abbrev pub out_streams_of : List Stream
  out_streams_of =
      copy_codec lib v (of_type video (lib.fresh_stream 0))
      ∷ copy_codec lib a (of_type audio (lib.fresh_stream 1))
      ∷ []

  abbrev pub ready_pusher : LiveReceiverActor → Pusher
  ready_pusher actor = record (new_pusher actor) {
    stream_map = map_of;
    out_streams = out_streams_of;
  }

  -- setOutputCtx maps the video stream to the output stream 0 and the audio stream to 1.
  pub set_output_ctx_both :
      (ins : List Stream) (actor : LiveReceiverActor)
      → HasBoth lib ins v a
      → set_output_ctx lib ins (new_pusher actor) ≡ (ok true, ready_pusher actor)
  unfolding set_output_ctx add_stream new_out_stream after_video after_audio copy_all copy_streams
      out_stream put_out_stream new_pusher ◌>>=◌ then_do
  set_output_ctx_both ins actor h =
      let fresh : List (Option ℕ) = replicate stream_count none in
      let one : Pusher = record (new_pusher actor) { out_streams = lib.fresh_stream 0 ∷ [] } in
      let two : Pusher = record (new_pusher actor) {
        stream_map = set fresh v.index (some 0);
        out_streams = of_type video (lib.fresh_stream 0) ∷ lib.fresh_stream 1 ∷ [];
      } in
      let audio_inside : a.index < length (set fresh v.index (some 0)) =
        omega (arith, h.audio_low, length-set fresh v.index (some 0)) in
      rw (h.picked, h.adds_video)
        (rw (set_map_inside v.index 0 one h.video_low, then_do)
          (rw h.adds_audio (rw (set_map_inside a.index 1 two audio_inside, then_do) refl)))

  -- Where the two streams go, and that no other stream has a place.
  pub map_of-video :
      {ins : List Stream} → HasBoth lib ins v a → get_elem? map_of v.index ≡ some (some 0)
  map_of-video h =
      get_elem?-set_other (set (replicate stream_count none) v.index (some 0)) a.index v.index
        (some 1) (λ e. h.apart (sym e))
      ∙ get_elem?-set (replicate stream_count none) v.index (some 0) h.video_low

  pub map_of-audio :
      {ins : List Stream} → HasBoth lib ins v a → get_elem? map_of a.index ≡ some (some 1)
  map_of-audio h =
      get_elem?-set (set (replicate stream_count none) v.index (some 0)) a.index (some 1) (
        omega (
          arith,
          h.audio_low,
          length-set {A = Option ℕ} (replicate stream_count none) v.index (some 0),
        ))

  pub map_of-other :
      (i : ℕ) → v.index ≢ i → a.index ≢ i → i < stream_count → get_elem? map_of i ≡ some none
  map_of-other i not_video not_audio low =
      get_elem?-set_other (set (replicate stream_count none) v.index (some 0)) a.index i (some 1)
        not_audio
      ∙ get_elem?-set_other (replicate stream_count none) v.index i (some 0) not_video
      ∙ get_elem?-replicate stream_count i none low
