-- ===== src/LiveReceiver/Push/Unmapped.antt =====
-- livereceiveractor.cpp, pushThread at a frame of a stream that setOutputCtx has given no place.
use tvie_rtmp.Base.{
  ℕ, zero, suc, ◌+◌, ◌<◌, ◌≡◌, ◌≢◌, ◌⊎◌, refl, sym, ap, subst, ◌∙◌, true, none, some, List,
  get_elem?, arith,
}
use tvie_rtmp.Exception.{fault, Result, ok, err, M, ◌>>=◌, then_do}
use tvie_rtmp.LiveReceiver.{LiveReceiverActor, stream_count}
use tvie_rtmp.LiveReceiver.Media.{Stream, Packet, Reading, ended, again, frame, Library}
use tvie_rtmp.LiveReceiver.Push.{
  Pusher, new_pusher, mapped, in_stream, push_frame, push_from, push_frames, push_thread,
}
use tvie_rtmp.LiveReceiver.Push.Output.{HasBoth, map_of, out_streams_of, map_of-other}
use tvie_rtmp.LiveReceiver.Push.Times.{HasRoute, push_from-goes_on}
use tvie_rtmp.LiveReceiver.Push.Thread.{
  CanStart, route_of, one-HasRoute, looping, done_notified, up_to_loop,
}

>>=-fault :
    {A B : Type 0} (m : M Pusher A) (f : A → M Pusher B) (p : Pusher)
    → (m p).0 ≡ err fault
    → ((m >>= f) p).0 ≡ err fault
unfolding ◌>>=◌ then_do
>>=-fault {A} m f p h = go (m p) h
  where
    go : (r : Result A × Pusher) → r.0 ≡ err fault → (then_do f r).0 ≡ err fault
    go (ok x, q) e = cc
    go (err x, q) e = cc

module _ (lib : Library) (ins : List Stream) (v a : Stream) (both : HasBoth lib ins v a) where
  -- EAGAIN, or a frame of one of the two streams.
  abbrev pub IsOurs : Reading → Type 0
  IsOurs ended = ⊥
  IsOurs again = Unit {0}
  IsOurs (frame x) = (x.stream_index ≡ v.index) ⊎ (x.stream_index ≡ a.index)

  push_frames-suc :
      (reads : ℕ → Reading) (fuel i : ℕ)
      → push_frames lib ins reads (suc fuel) i
        ≡ push_from lib ins (reads i) (push_frames lib ins reads fuel (suc i))
  unfolding push_frames
  push_frames-suc reads fuel i = refl

  -- The loop ends with an access to what is not there.
  abbrev Faults : M Pusher (Unit {0}) → Type 0
  Faults m =
      (p : Pusher)
      → p.stream_map ≡ map_of lib v a
      → p.out_streams ≡ out_streams_of lib v a
      → (m p).0 ≡ err fault

  again_Faults : (next : M Pusher (Unit {0})) → Faults next → Faults (push_from lib ins again next)
  unfolding push_from
  again_Faults next faults = faults

  push_from-Faults :
      (r : Reading) (next : M Pusher (Unit {0}))
      → ((w : List Packet) (y : Packet) → lib.takes w y ≡ true)
      → IsOurs r
      → Faults next
      → Faults (push_from lib ins r next)
  push_from-Faults ended next takes_all ours faults = absurd ours
  push_from-Faults again next takes_all ours faults = again_Faults next faults
  push_from-Faults (frame x) next takes_all ours faults = λ p places outs.
      let h : HasRoute ins p.stream_map p.out_streams (route_of v a x) x =
        subst (λ o. HasRoute ins p.stream_map o (route_of v a x) x) (sym outs)
          (subst (λ m. HasRoute ins m (out_streams_of lib v a) (route_of v a x) x) (sym places)
            (one-HasRoute lib ins v a both x ours)) in
      let (q, on, same_map, same_outs) =
        push_from-goes_on lib ins (route_of v a x) x next p h takes_all in
      ap (λ r. r.0) on ∙ faults q (same_map ∙ places) (same_outs ∙ outs)

  -- The frame that has no place in streamMap_.
  module _ (x : Packet) (inp : Stream) (here : get_elem? ins x.stream_index ≡ some inp)
      (low : x.stream_index < stream_count) (not_video : v.index ≢ x.stream_index)
      (not_audio : a.index ≢ x.stream_index) where
    unmapped-Faults : (next : M Pusher (Unit {0})) → Faults (push_from lib ins (frame x) next)
    unfolding push_from push_frame in_stream mapped ◌>>=◌ then_do
    unmapped-Faults next p places outs =
        let none_there : get_elem? p.stream_map x.stream_index ≡ some none =
          ap (λ m. get_elem? m x.stream_index) places
          ∙ map_of-other lib v a x.stream_index not_video not_audio low in
        rw (here, in_stream) (rw (none_there, mapped) refl)

    push_frames-Faults :
        (reads : ℕ → Reading) (k fuel i t : ℕ)
        → ((w : List Packet) (y : Packet) → lib.takes w y ≡ true)
        → t ≡ i + k
        → k < fuel
        → ((j : ℕ) → j < t → IsOurs (reads j))
        → reads t ≡ frame x
        → Faults (push_frames lib ins reads fuel i)
    push_frames-Faults reads k zero i t takes_all at enough ours found = absurd (omega arith)
    push_frames-Faults reads zero (suc fuel) i t takes_all at enough ours found =
        let here_it_is : reads i ≡ frame x = ap reads (omega arith) ∙ found in
        subst Faults (sym (push_frames-suc reads fuel i)) (
          subst (λ r. Faults (push_from lib ins r (push_frames lib ins reads fuel (suc i))))
            (sym here_it_is) (unmapped-Faults (push_frames lib ins reads fuel (suc i))))
    push_frames-Faults reads (suc k) (suc fuel) i t takes_all at enough ours found =
        subst Faults (sym (push_frames-suc reads fuel i)) (
          push_from-Faults (reads i) (push_frames lib ins reads fuel (suc i)) takes_all
            (ours i (omega arith))
            (push_frames-Faults reads k fuel (suc i) t takes_all (omega arith) (omega arith) ours
              found))

    -- On an input as in push_thread_retimes, with an output that refuses nothing: if av_read_frame
    -- returns EAGAIN and frames of the last video and the last audio stream for a while, and then, in a
    -- call that pushThread makes, a frame of another input stream with an index below ten, pushThread
    -- reads that stream's entry of streamMap_, which nobody has written.
    pub push_thread_unmapped :
        (reads : ℕ → Reading) (k calls : ℕ) (actor : LiveReceiverActor)
        → CanStart lib actor
        → ((w : List Packet) (y : Packet) → lib.takes w y ≡ true)
        → k < calls
        → ((j : ℕ) → j < k → IsOurs (reads j))
        → reads k ≡ frame x
        → (push_thread lib ins reads calls (new_pusher actor)).0 ≡ err fault
    push_thread_unmapped reads k calls actor can takes_all enough ours found =
        ap (λ r. r.0) (up_to_loop lib ins v a both reads calls actor can)
        ∙ >>=-fault (push_frames lib ins reads calls 0) (λ _. done_notified lib ins v a both)
            (looping lib ins v a both actor)
            (push_frames-Faults reads k calls 0 k takes_all (omega arith) enough ours found
              (looping lib ins v a both actor) refl refl)
