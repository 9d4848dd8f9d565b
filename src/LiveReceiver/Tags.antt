-- ===== src/LiveReceiver/Tags.antt =====
-- livereceiveractor.cpp, writeData and writeMetaData: the tag that a message becomes.
use tvie_rtmp.Base.{
  ℕ, ◌+◌, ◌*◌, ◌/◌, ◌%◌, ◌^◌, ◌≤◌, ◌<◌, ◌≡◌, refl, sym, ap, subst, ◌∙◌, false, inl, List, [], ◌∷◌,
  ◌++◌, arith, length, length-append,
}
use tvie_rtmp.Base.Int.{ℤ}
use tvie_rtmp.Exception.{ok, M, gets, modify, ◌>>◌, >>=-ok, >>-assoc, on, on-ok}
use tvie_rtmp.ReadBuffer.{ReadBuffer, append_data}
use tvie_rtmp.ReadBuffer.View.{IsValid, unread, length-unread}
use tvie_rtmp.ReadBuffer.Append.{append_data-unread}
use tvie_rtmp.WriteBuffer.{WriteBuffer, re_init, write_b_bits, write_b, write_bytes, get_buffer}
use tvie_rtmp.WriteBuffer.Bytes.{holding, Writes, Writes->>, re_init-holding, get_buffer-holding}
use tvie_rtmp.WriteBuffer.Words.{big_bytes, write_b_bits-Writes}
use tvie_rtmp.WriteBuffer.Parts.{write_parts}
use tvie_rtmp.WriteBuffer.Growth.{
  NeverOneShort, Grows, Grows->>, Grows-size, Grows-NeverOneShort, Writes-Grows, write_bytes-Grows,
  write_b-Grows, power_sum, NeverOneShort-power, grown_le,
}
use native.Mathlib.Nat.{mod-eq_of_lt}
use tvie_rtmp.Connection.Output.{pattern64}
use tvie_rtmp.LiveReceiver.StreamSetup.{
  StreamSetupInfo, on_read, on_write, append_written, write_tag_header, write_tag,
}

-- The first eleven bytes of a tag of FLV: type, size, timestamp with its highest byte last, stream 0.
abbrev pub tag_header : ℕ → ℕ → ℕ → List ℕ
tag_header type n timestamp =
    type ∷ big_bytes 3 (n % 2 ^ 24)
    ++ (big_bytes 3 (timestamp % 2 ^ 24)
        ++ (big_bytes 1 (timestamp / 2 ^ 24 % 2 ^ 8) ++ big_bytes 3 0))

abbrev pub tag : ℕ → ℕ → List ℕ → List ℕ
tag type timestamp content =
    tag_header type (length content) timestamp ++ (content ++ big_bytes 4 (length content + 11))

write_tag_header-Writes :
    (type n : ℕ) (timestamp : ℤ)
    → type < 32
    → Writes (write_tag_header type n timestamp) (tag_header type n (pattern64 timestamp))
unfolding write_tag_header
write_tag_header-Writes type n timestamp h =
    let t : ℕ = pattern64 timestamp in
    subst (λ m. Writes m (tag_header type n t))
      (sym (>>-assoc (write_b_bits 4 0 3) (write_b_bits 4 type 5) _))
      (Writes->> (type ∷ []) _
        (write_parts 4 4 type 3 5 refl (omega arith) (omega arith) (omega arith) (omega arith) h
          (omega arith))
        (Writes->> (big_bytes 3 (n % 2 ^ 24)) _
          (write_b_bits-Writes 3 4 n (omega arith) (omega arith))
          (Writes->> (big_bytes 3 (t % 2 ^ 24)) _
            (write_b_bits-Writes 3 8 t (omega arith) (omega arith))
            (Writes->> (big_bytes 1 (t / 2 ^ 24 % 2 ^ 8)) (big_bytes 3 0)
              (write_b_bits-Writes 1 8 (t / 2 ^ 24) (omega arith) (omega arith))
              (write_b_bits-Writes 3 4 0 (omega arith) (omega arith))))))

-- The tag fits, and does not end one byte behind a buffer of `size` bytes that is doubled as needed.
abbrev pub FitsTag : ℕ → List ℕ → Type 0
FitsTag size content = NeverOneShort size (11 + length content) × (length content + 11 < 2 ^ 32)

-- What writeData and writeMetaData write into the buffer.
pub tag-Grows :
    (type size : ℕ) (timestamp : ℤ) (content : List ℕ)
    → type < 32
    → 32 ≤ size
    → FitsTag size content
    → Grows
        (write_tag_header type (length content) timestamp
          >> (write_bytes content >> write_b 4 ((length content + 11) % 2 ^ 32)))
        []
        size
        (tag type (pattern64 timestamp) content)
tag-Grows type size timestamp content h big (lucky, small) =
    let t : ℕ = pattern64 timestamp in
    let n : ℕ = length content in
    let front : List ℕ = tag_header type n t in
    let same : 0 + size ≡ size = omega arith in
    let first : Grows (write_tag_header type n timestamp) [] size front =
      Writes-Grows [] size (write_tag_header-Writes type n timestamp h) (omega arith) in
    let second : Grows (write_bytes content) front first.room content =
      write_bytes-Grows content front first.room (omega (arith, Grows-size first)) (
        Grows-NeverOneShort first (11 + n)
          (subst (λ s. NeverOneShort s (11 + n)) (sym same) lucky)) in
    let third : Grows (write_b 4 ((n + 11) % 2 ^ 32)) (front ++ content) second.room
        (big_bytes 4 (n + 11)) =
      rw (mod-eq_of_lt small) (
        write_b-Grows 4 (n + 11) (front ++ content) second.room (omega arith) small
          (omega (arith, Grows-size first, Grows-size second))) in
    Grows->> [] size front _ first (Grows->> front first.room content _ second third)

-- A stream on which tags can be written: its reading buffer is well formed and has a capacity to double.
pub record IsOpen (i : StreamSetupInfo) : Type 0 where
  pub valid : IsValid i.rb
  pub no_snap : i.rb.in_snap ≡ false
  pub has_room : 0 < i.rb.capacity
  pub doublings : ℕ
  pub sized : i.wb.size ≡ 32 * 2 ^ doublings

-- What was written goes behind the unread bytes.
append_written-holding :
    (i : StreamSetupInfo) (bs : List ℕ) (k : ℕ)
    → IsValid i.rb
    → i.rb.in_snap ≡ false
    → 0 < i.rb.capacity
    → 0 < length bs
    → (r : ReadBuffer) × (append_written (record i { wb = holding bs k })
        ≡ (ok tt, record i { rb = r; wb = holding bs k }))
      × IsValid r
      × (unread r ≡ unread i.rb ++ bs)
      × (r.in_snap ≡ false)
      × (0 < r.capacity)
unfolding append_written on_read
append_written-holding i bs k v s cap some_bytes =
    let (r, e, v', u, s') = append_data-unread bs i.rb v s (inl cap) in
    (
      r,
      >>=-ok (gets (λ i. get_buffer i.wb)) _ (record i { wb = holding bs k }) refl
          ∙ ap
              (λ d.
                on (λ i. i.rb) (λ r i. record i { rb = r }) (append_data d)
                  (record i { wb = holding bs k }))
              (get_buffer-holding bs k)
          ∙ on-ok (λ i. i.rb) (λ r i. record i { rb = r }) (append_data bs)
              (record i { wb = holding bs k }) e,
      v',
      u,
      s',
      omega (
        arith,
        length-unread r v',
        ap (λ (l : List ℕ). length l) u,
        length-append {0} (unread i.rb) bs,
      ),
    )

-- A tag behind the unread bytes, in a stream that is otherwise the same.
pub record Appended (i i' : StreamSetupInfo) (bs : List ℕ) : Type 0 where
  pub stays : IsOpen i'
  pub bytes : unread i'.rb ≡ unread i.rb ++ bs
  pub rest : i' ≡ record i { rb = i'.rb; wb = i'.wb }

-- wb_.reInit(), what is written, and its way behind the unread bytes.
pub written-Appended :
    (m : M WriteBuffer (Unit {0})) (bs : List ℕ) (i : StreamSetupInfo)
    → IsOpen i
    → 0 < length bs
    → Grows m [] i.wb.size bs
    → (i' : StreamSetupInfo) × ((on_write (modify re_init) >> (on_write m >> append_written)) i
        ≡ (ok tt, i'))
      × Appended i i' bs
unfolding on_write
written-Appended m bs i o some_bytes g =
    let size : ℕ = i.wb.size in
    let start : 0 + size ≡ 32 * 2 ^ o.doublings = omega (arith, o.sized) in
    let (r, e, v, u, s, cap) =
      append_written-holding i bs g.room o.valid o.no_snap o.has_room some_bytes in
    (
      record i { rb = r; wb = holding bs g.room },
      >>=-ok (on (λ i. i.wb) (λ w i. record i { wb = w }) (modify re_init)) _ i (
            on-ok (λ i. i.wb) (λ w i. record i { wb = w }) (modify re_init) i
              (ap (λ w. (ok tt, w)) (re_init-holding i.wb)))
          ∙ >>=-ok (on (λ i. i.wb) (λ w i. record i { wb = w }) m) _
              (record i { wb = holding [] size })
              (on-ok (λ i. i.wb) (λ w i. record i { wb = w }) m (record i { wb = holding [] size })
                g.run)
          ∙ e,
      record {
        stays = record {
          valid = v;
          no_snap = s;
          has_room = cap;
          doublings = o.doublings + g.doublings;
          sized =
              g.sized ∙ ap (λ x. x * 2 ^ g.doublings) start ∙ power_sum 32 o.doublings g.doublings;
        };
        bytes = u;
        rest = refl;
      },
    )

-- writeData and writeMetaData on an open stream put the tag behind the unread bytes, change nothing but
-- the two buffers and leave the stream open. The type has five bits, the content with its tag is shorter
-- than 2 ^ 32, and the eleven bytes of the header and the content do not end one byte behind a doubling
-- of 32.
pub write_tag-Appended :
    (type : ℕ) (timestamp : ℤ) (content : List ℕ) (i : StreamSetupInfo)
    → type < 32
    → IsOpen i
    → FitsTag 32 content
    → (i' : StreamSetupInfo) × (write_tag type (length content) timestamp content i ≡ (ok tt, i'))
      × Appended i i' (tag type (pattern64 timestamp) content)
unfolding write_tag
write_tag-Appended type timestamp content i h o (lucky, small) =
    let here : NeverOneShort i.wb.size (11 + length content) =
      subst (λ s. NeverOneShort s (11 + length content)) (sym o.sized)
        (NeverOneShort-power 32 o.doublings (11 + length content) lucky) in
    written-Appended _ (tag type (pattern64 timestamp) content) i o (omega arith) (
      tag-Grows type i.wb.size timestamp content h (omega (arith, grown_le 32 o.doublings, o.sized))
        (here, small))
