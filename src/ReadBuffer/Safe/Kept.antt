-- ===== src/ReadBuffer/Safe/Kept.antt =====
-- readbuffer.h and readbuffer.cpp: what every use of a buffer keeps.
use tvie_rtmp.Base.{
  ℕ, ◌+◌, ◌-◌, ◌≤◌, ◌<◌, ◌≡◌, ◌≢◌, refl, sym, ap, subst, ◌∙◌, ◌⊎◌, inl, inr, true, false, not,
  Bool-cases, Option-cases, List, [], ◌∷◌, arith, ltb, length, memcpy, if◌then◌else◌,
}
use tvie_rtmp.Exception.{
  not_supported, invalid_arg, Result, ok, err, throw_if, gets, then_do, ◌>>=◌, ◌>>◌, >>=-ok,
  >>=-err,
}
use tvie_rtmp.ReadBuffer.{
  ReadBuffer, empty, reset, compact, put, make_room, append_data, snap_start, snap_stop, snap_clear,
}
use tvie_rtmp.ReadBuffer.View.{IsValid}
use tvie_rtmp.ReadBuffer.Append.{grow_enough, append_data-unread, empty-IsValid}
use tvie_rtmp.ReadBuffer.Snap.{
  Call, byte, bytes, chars, over, number, number_at, look, after, after-Moved,
}
use tvie_rtmp.ReadBuffer.Safe.{
  is_sound, read_byte-Safe, read_bytes-Safe, read_chars-IsFine, read-Safe, skip-Safe, peek-Safe,
  peek_count-Safe,
}
use tvie_rtmp.ReadBuffer.Safe.Uses.{
  Use, arrive, call, start, stop, clear, empty_it, call_is_sound, use_is_sound, after_use,
  reads_inside, is_orderly, AllOrderly, after_uses, AllSound, IsUsable,
}

true_not_false : true ≢ false
true_not_false = λ e. cc

call-fine :
    (c : Call) (rb : ReadBuffer)
    → IsValid rb
    → reads_inside c rb ≡ true
    → IsValid (after c rb) × ((after c rb).cout ≡ rb.cout) × (call_is_sound c rb ≡ true)
call-fine byte rb v o =
    let f = (read_byte-Safe {k = 0}).at rb v (omega arith) in (f.valid, f.same, f.sound)
call-fine (bytes n) rb v o =
    let f = (read_bytes-Safe {k = 0} n).at rb v (omega arith) in (f.valid, f.same, f.sound)
call-fine (chars n) rb v o = let f = read_chars-IsFine n rb v o in (f.valid, f.same, f.sound)
call-fine (over n) rb v o =
    let f = (skip-Safe {k = 0} n).at rb v (omega arith) in (f.valid, f.same, f.sound)
call-fine (number w mode n) rb v o =
    let f = (read-Safe {k = 0} w mode n).at rb v (omega arith) in (f.valid, f.same, f.sound)
call-fine (number_at w mode n) rb v o =
    let f = (peek_count-Safe {k = 0} w mode n).at rb v (omega arith) in (f.valid, f.same, f.sound)
call-fine (look w mode) rb v o =
    let f = (peek-Safe {k = 0} w mode).at rb v (omega arith) in (f.valid, f.same, f.sound)

-- A reading call does not touch the snapshot and the capacity.
call-IsUsable :
    (c : Call) (rb : ReadBuffer) → reads_inside c rb ≡ true → IsUsable rb → IsUsable (after c rb)
call-IsUsable c rb o u =
    let moved = after-Moved c rb in
    let (v, same, _) = call-fine c rb u.valid o in
    record {
      valid = v;
      has_capacity = omega (arith, u.has_capacity, ap {A = ReadBuffer} (λ r. r.capacity) moved);
      snapped = elim u.snapped [
        | inl out ↦ inl (ap {A = ReadBuffer} (λ r. r.in_snap) moved ∙ out)
        | inr le ↦ inr (omega (arith, le, same, ap {A = ReadBuffer} (λ r. r.snap_bi) moved))
      ];
    }

make_room-capacity :
    (n : ℕ) (rb : ReadBuffer) → 0 < rb.capacity → rb.capacity ≤ (make_room n rb).1.capacity
unfolding make_room compact
make_room-capacity n rb positive = elim (Bool-cases (ltb rb.capacity (rb.cout + n))) [
  | inr fits ↦ rw (fits, make_room) (omega arith)
  | inl full ↦
      let need : ℕ = rb.cout - rb.bi + n in
      let (c, grown, enough, le) = grow_enough need need rb.capacity positive (omega arith) in
      rw (full, make_room) (rw (grown, make_room) le)
]

put-capacity : (d : List ℕ) (rb : ReadBuffer) → (put d rb).1.capacity ≡ rb.capacity
unfolding put
put-capacity d rb = elim (Option-cases (memcpy rb.buffer rb.cout d)) [
  | inl e ↦ rw (e, put) refl
  | inr (b, e) ↦ rw (e, put) refl
]

append_data_out :
    (d : List ℕ) (rb : ReadBuffer)
    → rb.in_snap ≡ false
    → append_data d rb ≡ (make_room (length d) >> put d) rb
unfolding append_data
append_data_out d rb out =
    >>=-ok (gets (λ r. r.in_snap)) _ rb refl
    ∙ >>=-ok (throw_if rb.in_snap not_supported) _ rb
        (ap (λ b. (if b then err not_supported else ok tt, rb)) out)

append_data_in_snap :
    (d : List ℕ) (rb : ReadBuffer) → rb.in_snap ≡ true → append_data d rb ≡ (err not_supported, rb)
unfolding append_data
append_data_in_snap d rb snap =
    >>=-ok (gets (λ r. r.in_snap)) _ rb refl
    ∙ >>=-err (throw_if rb.in_snap not_supported) _ rb
        (ap (λ b. (if b then err not_supported else ok tt, rb)) snap)

append_data-capacity :
    (d : List ℕ) (rb : ReadBuffer)
    → 0 < rb.capacity
    → rb.in_snap ≡ false
    → rb.capacity ≤ (append_data d rb).1.capacity
unfolding ◌>>=◌ then_do
append_data-capacity d rb positive out =
    subst (λ r. rb.capacity ≤ r.1.capacity) (sym (append_data_out d rb out))
      (go (make_room (length d) rb) (make_room-capacity (length d) rb positive))
  where
    go :
        (r : Result (Unit {0}) × ReadBuffer)
        → rb.capacity ≤ r.1.capacity
        → rb.capacity ≤ (then_do (λ _. put d) r).1.capacity
    go (ok x, rb') h = omega (arith, h, put-capacity d rb')
    go (err e, rb') h = h

arrive-fine :
    (d : List ℕ) (rb : ReadBuffer)
    → IsUsable rb
    → IsUsable (append_data d rb).1 × (is_sound (append_data d rb).0 ≡ true)
arrive-fine d rb u = elim (Bool-cases rb.in_snap) [
  | inl snap ↦
      let e = append_data_in_snap d rb snap in
      (subst IsUsable (sym (ap (λ r. r.1) e)) u, ap (λ r. is_sound r.0) e)
  | inr out ↦
      let (rb', e, v, _, s) = append_data-unread d rb u.valid out (inl u.has_capacity) in
      let larger = append_data-capacity d rb u.has_capacity out in
      (
        record {
          valid = subst IsValid (sym (ap (λ r. r.1) e)) v;
          has_capacity = omega (arith, larger, u.has_capacity);
          snapped = inl (ap (λ r. r.1.in_snap) e ∙ s);
        },
        ap (λ r. is_sound r.0) e,
      )
]

use-fine :
    (u : Use) (rb : ReadBuffer)
    → is_orderly u rb ≡ true
    → IsUsable rb
    → IsUsable (after_use u rb) × (use_is_sound u rb ≡ true)
unfolding snap_start snap_stop snap_clear reset
use-fine (arrive d) rb o u = arrive-fine d rb u
use-fine (call c) rb o u = (call-IsUsable c rb o u, (call-fine c rb u.valid o).2)
use-fine start rb o u = elim (Bool-cases rb.in_snap) [
  | inl snap ↦
      let e : snap_start rb ≡ (err invalid_arg, rb) =
        ap (λ b. if b then (err invalid_arg, rb) else started rb) snap in
      (subst IsUsable (sym (ap (λ r. r.1) e)) u, ap (λ r. is_sound r.0) e)
  | inr out ↦
      let e : snap_start rb ≡ started rb =
        ap (λ b. if b then (err invalid_arg, rb) else started rb) out in
      (
        subst IsUsable (sym (ap (λ r. r.1) e)) (record {
          valid = record { read_le = u.valid.read_le; fits = u.valid.fits; sized = u.valid.sized };
          has_capacity = u.has_capacity;
          snapped = inr u.valid.read_le;
        }),
        ap (λ r. is_sound r.0) e,
      )
]
  where
    started : ReadBuffer → Result (Unit {0}) × ReadBuffer
    started rb = (ok tt, record rb { in_snap = true; snap_bi = rb.bi })
use-fine stop rb o u = (
  record {
    valid = record { read_le = in_received u.snapped; fits = u.valid.fits; sized = u.valid.sized };
    has_capacity = u.has_capacity;
    snapped = inl refl;
  },
  refl,
)
  where
    in_received : (rb.in_snap ≡ false) ⊎ (rb.snap_bi ≤ rb.cout) → rb.snap_bi ≤ rb.cout
    in_received (inl out) = let clash : true ≡ false = sym o ∙ out in absurd (true_not_false clash)
    in_received (inr le) = le
use-fine clear rb o u = (
  record {
    valid = record { read_le = u.valid.read_le; fits = u.valid.fits; sized = u.valid.sized };
    has_capacity = u.has_capacity;
    snapped = inl refl;
  },
  refl,
)
use-fine empty_it rb o u = (
  record {
    valid = record { read_le = omega arith; fits = omega arith; sized = u.valid.sized };
    has_capacity = u.has_capacity;
    snapped = elim (Bool-cases rb.in_snap) [
      | inl snap ↦
          let clash : false ≡ true = sym (ap not snap) ∙ o in absurd (true_not_false (sym clash))
      | inr out ↦ inl out
    ];
  },
  refl,
)

uses-fine :
    (us : List Use) (rb : ReadBuffer)
    → AllOrderly us rb
    → IsUsable rb
    → IsUsable (after_uses us rb) × AllSound us rb
uses-fine [] rb o u = (u, tt)
uses-fine (x ∷ us) rb o u =
    let (next, sound) = use-fine x rb o.0 u in
    let (last, all_sound) = uses-fine us (after_use x rb) o.1 next in (last, (sound, all_sound))

-- A buffer that is made with a capacity, and then used in any way in which snapStop only goes back to a
-- snapshot that is there, reset is only called without one, and readChars throws or has one byte more of
-- the allocation behind its characters: whatever arrives, is read and throws, the buffer stays well
-- formed, with a capacity and a snapshot of received bytes, no call accesses anything outside of the
-- allocation and none loops for ever.
pub after_uses-empty :
    (n : ℕ) (us : List Use)
    → 0 < n
    → AllOrderly us (empty n)
    → IsUsable (after_uses us (empty n)) × AllSound us (empty n)
after_uses-empty n us positive o =
    uses-fine us (empty n) o
      (record { valid = empty-IsValid n; has_capacity = positive; snapped = inl refl })
