-- ===== src/ReadBuffer/Safe/Uses.antt =====
-- readbuffer.h and readbuffer.cpp: any use of a buffer, from its constructor on.
use tvie_rtmp.Base.{ℕ, ◌≤◌, ◌<◌, ◌≡◌, ◌⊎◌, Bool, true, false, not, List, [], ◌∷◌}
use tvie_rtmp.ReadBuffer.{
  ReadBuffer, reset, append_data, read_byte, read_bytes, read_chars, skip, read, peek, peek_count,
  snap_start, snap_stop, snap_clear,
}
use tvie_rtmp.ReadBuffer.View.{IsValid}
use tvie_rtmp.ReadBuffer.Snap.{Call, byte, bytes, chars, over, number, number_at, look, after}
use tvie_rtmp.ReadBuffer.Safe.{is_sound, has_byte_behind}

-- What the owner of a buffer does with it: bytes that arrive, reading calls, and snapshots.
pub data Use : Type 0 where
  arrive : List ℕ → Use
  call : Call → Use
  start stop clear empty_it : Use

-- Whether a reading call ended soundly.
abbrev pub call_is_sound : Call → ReadBuffer → Bool
call_is_sound byte rb = is_sound (read_byte rb).0
call_is_sound (bytes n) rb = is_sound (read_bytes n rb).0
call_is_sound (chars n) rb = is_sound (read_chars n rb).0
call_is_sound (over n) rb = is_sound (skip n rb).0
call_is_sound (number w mode n) rb = is_sound (read w mode n rb).0
call_is_sound (number_at w mode n) rb = is_sound (peek_count w mode n rb).0
call_is_sound (look w mode) rb = is_sound (peek w mode rb).0

abbrev pub use_is_sound : Use → ReadBuffer → Bool
use_is_sound (arrive d) rb = is_sound (append_data d rb).0
use_is_sound (call c) rb = call_is_sound c rb
use_is_sound start rb = is_sound (snap_start rb).0
use_is_sound stop rb = true
use_is_sound clear rb = true
use_is_sound empty_it rb = true

-- The buffer afterwards, whether the call returned or threw.
abbrev pub after_use : Use → ReadBuffer → ReadBuffer
after_use (arrive d) rb = (append_data d rb).1
after_use (call c) rb = after c rb
after_use start rb = (snap_start rb).1
after_use stop rb = snap_stop rb
after_use clear rb = snap_clear rb
after_use empty_it rb = reset rb

-- readChars copies the byte behind its characters too.
abbrev pub reads_inside : Call → ReadBuffer → Bool
reads_inside byte rb = true
reads_inside (bytes n) rb = true
reads_inside (chars n) rb = has_byte_behind n rb
reads_inside (over n) rb = true
reads_inside (number w mode n) rb = true
reads_inside (number_at w mode n) rb = true
reads_inside (look w mode) rb = true

-- snapStop goes back to a snapshot that is there; reset is for a buffer without one; readChars throws or
-- has a byte of the allocation behind its characters.
abbrev pub is_orderly : Use → ReadBuffer → Bool
is_orderly (arrive d) rb = true
is_orderly (call c) rb = reads_inside c rb
is_orderly start rb = true
is_orderly stop rb = rb.in_snap
is_orderly clear rb = true
is_orderly empty_it rb = not rb.in_snap

abbrev pub AllOrderly : List Use → ReadBuffer → Type 0
AllOrderly [] rb = Unit
AllOrderly (u ∷ us) rb = (is_orderly u rb ≡ true) × AllOrderly us (after_use u rb)

abbrev pub after_uses : List Use → ReadBuffer → ReadBuffer
after_uses [] rb = rb
after_uses (u ∷ us) rb = after_uses us (after_use u rb)

abbrev pub AllSound : List Use → ReadBuffer → Type 0
AllSound [] rb = Unit
AllSound (u ∷ us) rb = (use_is_sound u rb ≡ true) × AllSound us (after_use u rb)

-- Well formed, with a capacity that can be doubled and a snapshot of received bytes.
pub record IsUsable (rb : ReadBuffer) : Type 0 where
  pub valid : IsValid rb
  pub has_capacity : 0 < rb.capacity
  pub snapped : (rb.in_snap ≡ false) ⊎ (rb.snap_bi ≤ rb.cout)
