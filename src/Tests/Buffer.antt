-- ===== src/Tests/Buffer.antt =====
-- A buffer of two bytes that grows, and goes back when a number is not there as a whole.
use tvie_rtmp.Base.{refl, List, [], ◌∷◌, arith}
use tvie_rtmp.Base.Int.{pos}
use tvie_rtmp.Exception.{◌>>=◌, then_do}
use tvie_rtmp.ReadBuffer.{
  big, empty, reset, grow, compact, put, make_room, append_data, read_byte, copy_out, read_chars,
  read_loop, read, snap_start, snap_stop,
}
use tvie_rtmp.ReadBuffer.Snap.{byte, chars, number}
use tvie_rtmp.ReadBuffer.Safe.Uses.{
  Use, arrive, call, start, stop, empty_it, AllOrderly, after_uses, AllSound, IsUsable,
}
use tvie_rtmp.ReadBuffer.Safe.Kept.{after_uses-empty}

abbrev uses : List Use
uses =
    arrive (1 ∷ 2 ∷ 3 ∷ [])
    ∷ call byte
    ∷ start
    ∷ call (number 4 big (pos 4))
    ∷ arrive (4 ∷ [])
    ∷ stop
    ∷ arrive (4 ∷ 5 ∷ [])
    ∷ call (number 4 big (pos 4))
    ∷ arrive (6 ∷ 7 ∷ 8 ∷ [])
    ∷ call (chars 2)
    ∷ call (chars 3)
    ∷ empty_it
    ∷ []

uses-AllOrderly : AllOrderly uses (empty 2)
unfolding reset grow compact put make_room append_data read_byte copy_out read_chars read_loop read
    snap_start snap_stop ◌>>=◌ then_do
uses-AllOrderly = (
  refl,
  (refl, (refl, (refl, (refl, (refl, (refl, (refl, (refl, (refl, (refl, (refl, tt))))))))))),
)

after_uses-empty_example : IsUsable (after_uses uses (empty 2)) × AllSound uses (empty 2)
after_uses-empty_example = after_uses-empty 2 uses (omega arith) uses-AllOrderly
