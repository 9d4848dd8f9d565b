-- ===== src/LiveReceiver/Push/Times.antt =====
-- livereceiveractor.cpp, pushThread: the packets that the output takes, and their times.
use tvie_rtmp.Base.{
  ℕ, zero, suc, ◌≡◌, ◌≢◌, refl, sym, ap, ◌∙◌, Bool, true, false, Bool-cases, inl, inr, Option, some,
  List, [], ◌∷◌, ◌++◌, if◌then◌else◌, get_elem?,
}
use tvie_rtmp.Base.Int.{ℤ, eq_ℤ}
use tvie_rtmp.Exception.{ok, M, pure, ◌>>=◌, >>=-ok, then_do}
use tvie_rtmp.Message.{minus_one}
use tvie_rtmp.LiveReceiver.Media.{Stream, Packet, Reading, ended, again, frame, Library}
use tvie_rtmp.LiveReceiver.Push.{
  Pusher, mapped, in_stream, out_stream, retime, write_frame, push_frame, push_from, push_frames,
}

abbrev pub packets_from : Reading → List Packet → List Packet
packets_from ended xs = []
packets_from again xs = xs
packets_from (frame x) xs = x ∷ xs

-- The frames that `n` calls of av_read_frame give from the call `i` on, up to the first that ends them.
abbrev pub packets_of : (ℕ → Reading) → ℕ → ℕ → List Packet
packets_of reads zero i = []
packets_of reads (suc n) i = packets_from (reads i) (packets_of reads n (suc i))

abbrev pub ends_from : Reading → Bool → Bool
ends_from ended b = true
ends_from again b = b
ends_from (frame x) b = b

-- Whether one of these calls returns the end of the file or an error.
abbrev pub ends_within : (ℕ → Reading) → ℕ → ℕ → Bool
ends_within reads zero i = false
ends_within reads (suc n) i = ends_from (reads i) (ends_within reads n (suc i))

-- What an output has taken of packets, behind what it had, until it refuses one.
abbrev pub taken_of : (List Packet → Packet → Bool) → List Packet → List Packet → List Packet
taken_of takes w [] = w
taken_of takes w (x ∷ xs) = if takes w x then taken_of takes (w ++ (x ∷ [])) xs else w

-- The time base of the input stream of a packet and the index of its output stream.
pub record Route : Type 0 where
  pub base : ℤ × ℤ
  pub target : ℕ

-- The packet's streams are there.
pub record HasRoute (ins : List Stream) (places : List (Option ℕ)) (outs : List Stream)
    (route : Route) (x : Packet) : Type 0 where
  pub inp : Stream
  pub out : Stream
  pub in_at : get_elem? ins x.stream_index ≡ some inp
  pub map_at : get_elem? places x.stream_index ≡ some (some route.target)
  pub out_at : get_elem? outs route.target ≡ some out
  pub base_of : inp.time_base ≡ route.base

true_not_false : true ≢ false
true_not_false = λ e. cc

module _ (lib : Library) (ins : List Stream) where
  abbrev pub retimed : (Packet → Route) → ℤ → Packet → Packet
  retimed route start x = retime lib (route x).base (route x).target start x

  abbrev pub retimed_all : (Packet → Route) → ℤ → List Packet → List Packet
  retimed_all route start [] = []
  retimed_all route start (x ∷ xs) = retimed route start x ∷ retimed_all route start xs

  abbrev pub AllRoute : (Packet → Route) → List (Option ℕ) → List Stream → List Packet → Type 0
  AllRoute route places outs [] = Unit
  AllRoute route places outs (x ∷ xs) =
      HasRoute ins places outs (route x) x × AllRoute route places outs xs

  -- The first packet's time, where none is set.
  abbrev start_at : Route → Packet → Pusher → ℤ
  start_at r x p =
      if eq_ℤ p.start_time minus_one
      then lib.rescale x.dts r.base (lib.out_time_base r.target)
      else p.start_time

  abbrev offered : Packet → Pusher → Pusher
  offered y p = record p {
    written = if lib.takes p.written y then p.written ++ (y ∷ []) else p.written;
  }

  push_frame_step :
      (r : Route) (x : Packet) (p : Pusher)
      → HasRoute ins p.stream_map p.out_streams r x
      → let start = start_at r x p in
        let y = retime lib r.base r.target start x in
        push_frame lib ins x p
        ≡ (ok (lib.takes p.written y), record (offered y p) { start_time = start })
  unfolding push_frame mapped in_stream out_stream write_frame ◌>>=◌ then_do
  push_frame_step r x p h =
      rw (h.in_at, in_stream)
        (rw (h.map_at, mapped) (rw (h.out_at, out_stream) (rw h.base_of refl)))

  push_frame_known :
      (r : Route) (x : Packet) (p : Pusher)
      → eq_ℤ p.start_time minus_one ≡ false
      → HasRoute ins p.stream_map p.out_streams r x
      → let y = retime lib r.base r.target p.start_time x in
        push_frame lib ins x p ≡ (ok (lib.takes p.written y), offered y p)
  push_frame_known r x p known h =
      let same : start_at r x p ≡ p.start_time = rw known refl in
      push_frame_step r x p h
      ∙ ap
          (λ s.
            let y = retime lib r.base r.target s x in
            (ok (lib.takes p.written y), record (offered y p) { start_time = s }))
          same

  -- The first packet's time.
  abbrev pub start_of : (Packet → Route) → List Packet → ℤ
  start_of route [] = minus_one
  start_of route (x ∷ xs) = lib.rescale x.dts (route x).base (lib.out_time_base (route x).target)

  -- A loop that offers the packets to the output, where the time is set.
  abbrev Taken : (Packet → Route) → List Packet → M Pusher (Unit {0}) → Type 0
  Taken route xs m =
      (p : Pusher)
      → eq_ℤ p.start_time minus_one ≡ false
      → AllRoute route p.stream_map p.out_streams xs
      → m p ≡ (
        ok tt,
        record p { written = taken_of lib.takes p.written (retimed_all route p.start_time xs) },
      )

  -- The same where no time is set.
  abbrev First : (Packet → Route) → List Packet → M Pusher (Unit {0}) → Type 0
  First route xs m =
      (p : Pusher)
      → p.start_time ≡ minus_one
      → eq_ℤ (start_of route xs) minus_one ≡ false
      → AllRoute route p.stream_map p.out_streams xs
      → m p ≡ (
        ok tt,
        record p {
          start_time = start_of route xs;
          written = taken_of lib.takes p.written (retimed_all route (start_of route xs) xs);
        },
      )

  module _ (route : Packet → Route) (xs : List Packet) (b : Bool) (next : M Pusher (Unit {0}))
      (later : b ≡ true → Taken route xs next) where
    push_from-Taken :
        (r : Reading)
        → ends_from r b ≡ true
        → Taken route (packets_from r xs) (push_from lib ins r next)
    unfolding push_from
    push_from-Taken ended e p known h = refl
    push_from-Taken again e p known h = later e p known h
    push_from-Taken (frame x) e p known h =
        let y : Packet = retimed route p.start_time x in
        >>=-ok (push_frame lib ins x) (λ more. if more then next else pure tt) p
          (push_frame_known (route x) x p known h.0)
        ∙ elim (Bool-cases (lib.takes p.written y)) [
          | inl t ↦ rw t (later e (record p { written = p.written ++ (y ∷ []) }) known h.1)
          | inr t ↦ rw t refl
        ]

    push_from-First :
        (r : Reading)
        → (b ≡ true → First route xs next)
        → ends_from r b ≡ true
        → First route (packets_from r xs) (push_from lib ins r next)
    unfolding push_from
    push_from-First ended first e p unset known h =
        let clash : true ≡ false = known in absurd (true_not_false clash)
    push_from-First again first e p unset known h = first e p unset known h
    push_from-First (frame x) first e p unset known h =
        let start : ℤ = start_of route (x ∷ xs) in
        let y : Packet = retimed route start x in
        let same : start_at (route x) x p ≡ start = rw unset refl in
        let started : push_frame lib ins x p
            ≡ (ok (lib.takes p.written y), record (offered y p) { start_time = start }) =
          push_frame_step (route x) x p h.0
          ∙ ap
              (λ s.
                let y = retimed route s x in
                (ok (lib.takes p.written y), record (offered y p) { start_time = s }))
              same in
        >>=-ok (push_frame lib ins x) (λ more. if more then next else pure tt) p started
        ∙ elim (Bool-cases (lib.takes p.written y)) [
          | inl t ↦
              rw t (
                later e (record p { start_time = start; written = p.written ++ (y ∷ []) }) known
                  h.1)
          | inr t ↦ rw t refl
        ]

  push_frames-Taken :
      (route : Packet → Route) (reads : ℕ → Reading) (n i : ℕ)
      → ends_within reads n i ≡ true
      → Taken route (packets_of reads n i) (push_frames lib ins reads n i)
  unfolding push_frames
  push_frames-Taken route reads zero i e =
      let clash : false ≡ true = e in absurd (true_not_false (sym clash))
  push_frames-Taken route reads (suc n) i e =
      push_from-Taken route (packets_of reads n (suc i)) (ends_within reads n (suc i))
        (push_frames lib ins reads n (suc i)) (push_frames-Taken route reads n (suc i)) (reads i) e

  pub push_frames-First :
      (route : Packet → Route) (reads : ℕ → Reading) (n i : ℕ)
      → ends_within reads n i ≡ true
      → First route (packets_of reads n i) (push_frames lib ins reads n i)
  unfolding push_frames
  push_frames-First route reads zero i e =
      let clash : false ≡ true = e in absurd (true_not_false (sym clash))
  push_frames-First route reads (suc n) i e =
      push_from-First route (packets_of reads n (suc i)) (ends_within reads n (suc i))
        (push_frames lib ins reads n (suc i)) (push_frames-Taken route reads n (suc i)) (reads i)
        (push_frames-First route reads n (suc i)) e

  -- A frame whose streams are there does not touch what the later ones need, and the loop goes on where
  -- the output takes it.
  pub push_from-goes_on :
      (r : Route) (x : Packet) (next : M Pusher (Unit {0})) (p : Pusher)
      → HasRoute ins p.stream_map p.out_streams r x
      → ((w : List Packet) (y : Packet) → lib.takes w y ≡ true)
      → (q : Pusher) × (push_from lib ins (frame x) next p ≡ next q)
        × (q.stream_map ≡ p.stream_map)
        × (q.out_streams ≡ p.out_streams)
  unfolding push_from
  push_from-goes_on r x next p h takes_all =
      let start : ℤ = start_at r x p in
      let y : Packet = retime lib r.base r.target start x in
      (
        record (offered y p) { start_time = start },
        >>=-ok (push_frame lib ins x) (λ more. if more then next else pure tt) p
              (push_frame_step r x p h)
            ∙ ap (λ b. (if b then next else pure tt) (record (offered y p) { start_time = start }))
                (takes_all p.written y),
        refl,
        refl,
      )
