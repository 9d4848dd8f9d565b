-- ===== src/LiveReceiver/Push/Thread.antt =====
-- livereceiveractor.cpp, pushThread as a whole.
use tvie_rtmp.Base.{
  ℕ, ◌≡◌, ◌⊎◌, refl, ap, ◌∙◌, true, false, not, inl, inr, List, [], ◌∷◌, if◌then◌else◌, ◌==◌,
  get_elem?, length, arith,
}
use tvie_rtmp.Exception.{
  internal_error, fault, ok, M, throw_if, gets, modify, ◌>>=◌, ◌>>◌, >>=-ok, then_do, on,
}
use tvie_rtmp.LiveReceiver.{LiveReceiverActor, notify_push_thread_done}
use tvie_rtmp.LiveReceiver.Media.{Stream, Packet, Reading, Library}
use tvie_rtmp.LiveReceiver.Push.{
  Pusher, new_pusher, create_input, needs_stream, set_output_ctx, push_frames, push_thread,
}
use tvie_rtmp.LiveReceiver.Push.Output.{
  HasBoth, map_of, out_streams_of, ready_pusher, set_output_ctx_both, map_of-video, map_of-audio,
}
use tvie_rtmp.LiveReceiver.Push.Times.{taken_of, Route, HasRoute, retimed_all, start_of}

-- The allocations succeed, avformat_open_input too, and onCreateStream and onPublish have been called.
pub record CanStart (lib : Library) (actor : LiveReceiverActor) : Type 0 where
  pub context : lib.alloc_context ≡ true
  pub buffer : lib.alloc_buffer ≡ true
  pub io_context : lib.alloc_io_context ≡ true
  pub opens_input : lib.opens_input ≡ true
  pub has_output : actor.has_output ≡ true
  pub has_stream : (length actor.streams == 0) ≡ false

created :
    (lib : Library) (p : Pusher) (actor : LiveReceiverActor)
    → CanStart lib actor
    → create_input lib p ≡ (ok tt, p)
unfolding create_input ◌>>=◌ then_do
created lib p actor can =
    ap
      (λ b.
        (throw_if (not b) internal_error
            >> (throw_if (not lib.alloc_buffer) internal_error
                >> throw_if (not lib.alloc_io_context) internal_error))
          p)
      can.context
    ∙ ap
        (λ b.
          (throw_if (not b) internal_error >> throw_if (not lib.alloc_io_context) internal_error) p)
        can.buffer
    ∙ ap (λ b. throw_if (not b) internal_error p) can.io_context

abbrev pub video_route : Stream → Route
video_route v = record { base = v.time_base; target = 0 }

abbrev pub audio_route : Stream → Route
audio_route a = record { base = a.time_base; target = 1 }

abbrev pub route_of : Stream → Stream → Packet → Route
route_of v a x = if x.stream_index == v.index then video_route v else audio_route a

new_pusher-actor : (actor : LiveReceiverActor) → (new_pusher actor).actor ≡ actor
unfolding new_pusher
new_pusher-actor actor = refl

abbrev pub AllOf : Stream → Stream → List Packet → Type 0
AllOf v a [] = Unit
AllOf v a (x ∷ xs) = ((x.stream_index ≡ v.index) ⊎ (x.stream_index ≡ a.index)) × AllOf v a xs

module _ (lib : Library) (ins : List Stream) (v a : Stream) (both : HasBoth lib ins v a) where
  pub one-HasRoute :
      (x : Packet)
      → (x.stream_index ≡ v.index) ⊎ (x.stream_index ≡ a.index)
      → HasRoute ins (map_of lib v a) (out_streams_of lib v a) (route_of v a x) x
  one-HasRoute x (inl e) =
      let here : (x.stream_index == v.index) ≡ true = ground arith in
      rw here (record {
        inp = v;
        out = _;
        in_at = ap (λ i. get_elem? ins i) e ∙ both.video_at;
        map_at = ap (λ i. get_elem? (map_of lib v a) i) e ∙ map_of-video lib v a both;
        out_at = refl;
        base_of = refl;
      })
  one-HasRoute x (inr e) =
      let there : (x.stream_index == v.index) ≡ false = ground (arith, both.apart) in
      rw there (record {
        inp = a;
        out = _;
        in_at = ap (λ i. get_elem? ins i) e ∙ both.audio_at;
        map_at = ap (λ i. get_elem? (map_of lib v a) i) e ∙ map_of-audio lib v a both;
        out_at = refl;
        base_of = refl;
      })

  -- The thread up to its loop.
  abbrev pub looping : LiveReceiverActor → Pusher
  looping actor = record (ready_pusher lib v a actor) { header_written = true }

  abbrev pub done_notified : M Pusher (Unit {0})
  done_notified = on (λ p. p.actor) (λ x p. record p { actor = x }) notify_push_thread_done

  pub up_to_loop :
      (reads : ℕ → Reading) (calls : ℕ) (actor : LiveReceiverActor)
      → CanStart lib actor
      → push_thread lib ins reads calls (new_pusher actor)
        ≡ (push_frames lib ins reads calls 0 >> done_notified) (looping actor)
  unfolding push_thread needs_stream ◌>>=◌ then_do
  up_to_loop reads calls actor can =
      let p : Pusher = new_pusher actor in
      let loop : M Pusher (Unit {0}) = push_frames lib ins reads calls 0 >> done_notified in
      let opened : M Pusher (Unit {0}) =
        set_output_ctx lib ins >> (modify (λ p. record p { header_written = true }) >> loop) in
      >>=-ok (needs_stream lib) _ p (
        ap (λ a. throw_if {S = Pusher} (length a.streams == 0) fault p) (new_pusher-actor actor)
        ∙ ap (λ b. throw_if {S = Pusher} b fault p) can.has_stream)
      ∙ >>=-ok (create_input lib) _ p (created lib p actor can)
      ∙ >>=-ok (throw_if (not lib.opens_input) fault) _ p
          (ap (λ b. throw_if {S = Pusher} (not b) fault p) can.opens_input)
      ∙ >>=-ok (gets (λ p. p.actor.has_output)) (λ b. throw_if (not b) fault >> opened) p refl
      ∙ >>=-ok (throw_if (not p.actor.has_output) fault) (λ _. opened) p
          (ap (λ a. throw_if {S = Pusher} (not a.has_output) fault p) (new_pusher-actor actor)
            ∙ ap (λ b. throw_if {S = Pusher} (not b) fault p) can.has_output)
      ∙ >>=-ok (set_output_ctx lib ins)
          (λ _. modify (λ p. record p { header_written = true }) >> loop) p
          (set_output_ctx_both lib v a ins actor both)
      ∙ >>=-ok (modify (λ p. record p { header_written = true })) (λ _. loop)
          (ready_pusher lib v a actor) refl

  abbrev pub pushed : List Packet → LiveReceiverActor → Pusher
  pushed xs actor =
      let start = start_of lib ins (route_of v a) xs in
      record (ready_pusher lib v a actor) {
        header_written = true;
        start_time = start;
        written = taken_of lib.takes [] (retimed_all lib ins (route_of v a) start xs);
        actor = record actor { push_thread_done = true };
      }
