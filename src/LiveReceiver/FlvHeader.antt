-- ===== src/LiveReceiver/FlvHeader.antt =====
-- livereceiveractor.cpp, writeFlvHeader: the beginning of a stream.
use tvie_rtmp.Base.{
  ℕ, ◌<◌, ◌≡◌, refl, ap, ◌∙◌, inl, true, List, [], ◌∷◌, ◌++◌, append_assoc, arith, length,
  length-append,
}
use tvie_rtmp.Exception.{ok, gets, >>=-ok, on, on-ok}
use tvie_rtmp.ReadBuffer.{append_data}
use tvie_rtmp.ReadBuffer.View.{unread, length-unread}
use tvie_rtmp.ReadBuffer.Append.{append_data-unread}
use tvie_rtmp.WriteBuffer.{write_b}
use tvie_rtmp.WriteBuffer.Words.{big_bytes}
use tvie_rtmp.WriteBuffer.Growth.{write_b-Grows, grown_le}
use tvie_rtmp.LiveReceiver.StreamSetup.{
  StreamSetupInfo, on_read, flv_flags, write_tag_size, write_flv_header,
}
use tvie_rtmp.LiveReceiver.Tags.{IsOpen, Appended, written-Appended}

-- The header of an FLV file, and the size of the tag in front of the first.
abbrev pub flv_header : ℕ → List ℕ
flv_header flags = 70 ∷ 76 ∷ 86 ∷ 1 ∷ flags ∷ 0 ∷ 0 ∷ 0 ∷ 9 ∷ big_bytes 4 0

write_tag_size-holding :
    (i : StreamSetupInfo)
    → IsOpen i
    → (i' : StreamSetupInfo) × (write_tag_size 0 i ≡ (ok tt, i')) × Appended i i' (big_bytes 4 0)
unfolding write_tag_size
write_tag_size-holding i o = written-Appended (write_b 4 0) (big_bytes 4 0) i o (omega arith) (
    write_b-Grows 4 0 [] i.wb.size (omega arith) (omega arith)
      (omega (arith, grown_le 32 o.doublings, o.sized)))

pub write_flv_header-IsOpen :
    (i : StreamSetupInfo)
    → IsOpen i
    → (i' : StreamSetupInfo) × (write_flv_header i ≡ (ok tt, i'))
      × IsOpen i'
      × (unread i'.rb ≡ unread i.rb ++ flv_header (flv_flags i.has_video i.has_audio))
      × (i' ≡ record i { rb = i'.rb; wb = i'.wb; flv_header_written = true })
unfolding write_flv_header on_read
write_flv_header-IsOpen i o =
    let front : List ℕ =
      70 ∷ 76 ∷ 86 ∷ 1 ∷ flv_flags i.has_video i.has_audio ∷ 0 ∷ 0 ∷ 0 ∷ 9 ∷ [] in
    let (r, e, v, u, s) = append_data-unread front i.rb o.valid o.no_snap (inl o.has_room) in
    let cap : 0 < r.capacity = omega (
      arith,
      length-unread r v,
      ap (λ (l : List ℕ). length l) u,
      length-append {0} (unread i.rb) front,
    ) in
    let (j, e', a) =
      write_tag_size-holding (record i { rb = r })
        (record {
          valid = v;
          no_snap = s;
          has_room = cap;
          doublings = o.doublings;
          sized = o.sized;
        }) in
    (
      record j { flv_header_written = true },
      >>=-ok (gets (λ i. flv_flags i.has_video i.has_audio)) _ i refl
          ∙ >>=-ok (on (λ i. i.rb) (λ r i. record i { rb = r }) (append_data front)) _ i
              (on-ok (λ i. i.rb) (λ r i. record i { rb = r }) (append_data front) i e)
          ∙ >>=-ok (write_tag_size 0) _ (record i { rb = r }) e',
      record {
        valid = a.stays.valid;
        no_snap = a.stays.no_snap;
        has_room = a.stays.has_room;
        doublings = a.stays.doublings;
        sized = a.stays.sized;
      },
      a.bytes ∙ ap (λ l. l ++ big_bytes 4 0) u ∙ append_assoc (unread i.rb) front (big_bytes 4 0),
      ap {A = StreamSetupInfo} (λ i. record i { flv_header_written = true }) a.rest,
    )
