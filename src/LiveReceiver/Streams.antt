-- ===== src/LiveReceiver/Streams.antt =====
-- livereceiveractor.cpp: the table of streams, and the first message of the stream that is handed on.
pub mod Next
use tvie_rtmp.Base.{
  ℕ, ◌≡◌, refl, ap, ◌∙◌, inl, inr, Bool, Bool-cases, true, false, Option, none, some, List, [], ◌∷◌,
  ◌++◌, append_assoc, arith, ltb, length, ◌==◌, if◌then◌else◌,
}
use tvie_rtmp.Base.Int.{ℤ, pos, eq_ℤ}
use tvie_rtmp.Exception.{
  ok, err, fault, internal_error, Result, M, pure, gets, modify, throw_if, ◌>>=◌, ◌>>◌, then_do,
  >>=-ok, >>=-err,
}
use tvie_rtmp.ReadBuffer.View.{unread}
use tvie_rtmp.Message.{RtmpMsgHeader, MetaDataMsg}
use tvie_rtmp.Connection.Output.{pattern64}
use tvie_rtmp.LiveReceiver.{
  LiveReceiverActor, find_stream, store_stream, on_create_stream, the_stream, put_first, on_first,
  write_start, receive_first, on_receive_stream,
}
use tvie_rtmp.LiveReceiver.StreamSetup.{
  StreamSetupInfo, new_stream, flv_flags, write_flv_header, write_tag, write_data, write_meta_data,
}
use tvie_rtmp.LiveReceiver.Fifo.{tag_of, IsWhole}
use tvie_rtmp.LiveReceiver.Fifo.Order.{write_data-Represents}
use tvie_rtmp.LiveReceiver.Wait.{queue_of, queue_of-Represents}
use tvie_rtmp.LiveReceiver.Tags.{tag, FitsTag, IsOpen, write_tag-Appended}
use tvie_rtmp.LiveReceiver.FlvHeader.{flv_header, write_flv_header-IsOpen}

-- onCreateStream: up to nine streams one more is added; with ten the eleventh is written behind the
-- end of the array; only with more does it throw.
pub on_create_stream_bound :
    (id : ℕ) (a : LiveReceiverActor)
    → on_create_stream id a ≡ (
        if ltb (length a.streams) 10
        then (ok true, record a { streams = a.streams ++ (new_stream (pos id) ∷ []) })
        else (if length a.streams == 10 then (err fault, a) else (err internal_error, a)))
unfolding on_create_stream store_stream ◌>>=◌ then_do
on_create_stream_bound id a = elim (Bool-cases (ltb (length a.streams) 10)) [
  | inl less ↦
      let bound : ltb 10 (length a.streams) ≡ false = ground arith in rw (bound, then_do) (rw less)
  | inr no_less ↦ elim (Bool-cases (length a.streams == 10)) [
    | inl full ↦
        let bound : ltb 10 (length a.streams) ≡ false = ground arith in
        rw (bound, then_do) (rw (no_less, then_do) (rw full))
    | inr more ↦
        let bound : ltb 10 (length a.streams) ≡ true = ground arith in
        rw (bound, then_do) (rw (no_less, more))
  ]
]

on_first-streams :
    (m : M StreamSetupInfo (Unit {0})) {r : Result (Unit {0})} {i i' : StreamSetupInfo}
    {is : List StreamSetupInfo} (a : LiveReceiverActor)
    → a.streams ≡ i ∷ is
    → m i ≡ (r, i')
    → on_first m a ≡ (r, record a { streams = i' ∷ is })
unfolding on_first put_first
on_first-streams m a first e = rw (first, on_first) (rw (e, put_first))

the_stream_first :
    (id : ℤ) (a : LiveReceiverActor) (i : StreamSetupInfo) (is : List StreamSetupInfo)
    → a.streams ≡ i ∷ is
    → eq_ℤ i.stream_id id ≡ true
    → the_stream id a ≡ (ok 0, a)
unfolding the_stream find_stream
the_stream_first id a i is first mine =
    let at_first : find_stream id (i ∷ is) ≡ some 0 = rw mine in
    ap
      (λ (found : Option ℕ). elim found as (λ _. Result ℕ × LiveReceiverActor) [
        | none ↦ (err internal_error, a)
        | some n ↦ (ok n, a)
      ])
      (ap (λ l. find_stream id l) first ∙ at_first)

write_start_fresh :
    (meta : MetaDataMsg) (i j k : StreamSetupInfo)
    → i.flv_header_written ≡ false
    → write_flv_header i ≡ (ok tt, j)
    → write_meta_data (some meta) j ≡ (ok tt, k)
    → write_start (some meta) i ≡ (ok tt, k)
unfolding write_start
write_start_fresh meta i j k fresh e e' =
    >>=-ok (gets (λ i. i.flv_header_written)) _ i refl
    ∙ ap (λ b. (if b then pure tt else (write_flv_header >> write_meta_data (some meta))) i) fresh
    ∙ >>=-ok write_flv_header (λ _. write_meta_data (some meta)) i e
    ∙ e'

write_start_unknown :
    (i j : StreamSetupInfo)
    → i.flv_header_written ≡ false
    → write_flv_header i ≡ (ok tt, j)
    → write_start none i ≡ (err fault, j)
unfolding write_start write_meta_data
write_start_unknown i j fresh e =
    >>=-ok (gets (λ i. i.flv_header_written)) _ i refl
    ∙ ap (λ b. (if b then pure tt else (write_flv_header >> write_meta_data none)) i) fresh
    ∙ >>=-ok write_flv_header (λ _. write_meta_data none) i e

-- The calls of onReceiveStream, in their order.
receive_first_ok :
    (id : ℤ) (is_video : Bool) (msg : RtmpMsgHeader) (a : LiveReceiverActor)
    (i k l : StreamSetupInfo) (is : List StreamSetupInfo)
    → a.push_thread_done ≡ false
    → a.streams ≡ i ∷ is
    → eq_ℤ i.stream_id id ≡ true
    → write_start a.meta_data i ≡ (ok tt, k)
    → write_data msg k ≡ (ok tt, l)
    → on_receive_stream id is_video msg a
      ≡ (ok true, record a { streams = l ∷ is; thread_started = true })
unfolding on_receive_stream receive_first
receive_first_ok id is_video msg a i k l is running first mine e e' =
    >>=-ok (gets (λ a. a.push_thread_done)) _ a refl
    ∙ >>=-ok (throw_if a.push_thread_done internal_error) _ a (rw running)
    ∙ >>=-ok (the_stream id) _ a (the_stream_first id a i is first mine)
    ∙ >>=-ok (gets (λ a. a.meta_data)) _ a refl
    ∙ >>=-ok (on_first (write_start a.meta_data)) _ a
        (on_first-streams (write_start a.meta_data) a first e)
    ∙ >>=-ok (modify (λ a. record a { thread_started = true })) _ (record a { streams = k ∷ is })
        refl
    ∙ >>=-ok (on_first (write_data msg)) _ (record a { streams = k ∷ is; thread_started = true })
        (on_first-streams (write_data msg) (record a { streams = k ∷ is; thread_started = true })
          refl e')

-- The first message that is received for the first stream, in an open stream that has no FLV header yet,
-- whose metadata is known with its right size, and where no push thread has ended: the FLV header, the
-- tag of the metadata and the tag of the message go behind its bytes, and the push thread is started. The
-- message has its body with the length that its header says and a type of five bits; body and metadata are
-- shorter than 2 ^ 32 - 11, and with a tag's eleven bytes neither ends one byte behind a doubling of 32.
pub on_receive_stream_first :
    (id : ℤ) (is_video : Bool) (msg : RtmpMsgHeader) (a : LiveReceiverActor) (i : StreamSetupInfo)
    (is : List StreamSetupInfo) (meta : MetaDataMsg)
    → a.push_thread_done ≡ false
    → a.streams ≡ i ∷ is
    → eq_ℤ i.stream_id id ≡ true
    → i.flv_header_written ≡ false
    → a.meta_data ≡ some meta
    → meta.metadata_size ≡ length meta.metadata
    → FitsTag 32 meta.metadata
    → IsWhole msg
    → IsOpen i
    → (i' : StreamSetupInfo) × (on_receive_stream id is_video msg a
        ≡ (ok true, record a { streams = i' ∷ is; thread_started = true }))
      × IsOpen i'
      × (unread i'.rb
          ≡ unread i.rb
            ++ (flv_header (flv_flags i.has_video i.has_audio)
                ++ (tag 0x12 (pattern64 meta.timestamp) meta.metadata ++ tag_of msg)))
on_receive_stream_first id is_video msg a i is meta running first mine fresh known size fits whole
      o =
    let (j, e, oj, uj, rj) = write_flv_header-IsOpen i o in
    let (k, e', ak) =
      write_tag-Appended 0x12 meta.timestamp meta.metadata j (omega arith) oj fits in
    let (l, e'', pl) =
      write_data-Represents msg k (queue_of k) whole (queue_of-Represents k ak.stays) in
    (
      l,
      receive_first_ok id is_video msg a i k l is running first mine
          (ap (λ m. write_start m i) known
            ∙ (write_start_fresh meta i j k fresh e (
                unfold write_meta_data in
                (ap (λ n. write_tag 0x12 n meta.timestamp meta.metadata j) size ∙ e'))))
          e'',
      pl.is_open,
      pl.same
          ∙ ap (λ b. b ++ tag_of msg)
              (ak.bytes ∙ ap (λ b. b ++ tag 0x12 (pattern64 meta.timestamp) meta.metadata) uj)
          ∙ append_assoc (unread i.rb ++ flv_header (flv_flags i.has_video i.has_audio))
              (tag 0x12 (pattern64 meta.timestamp) meta.metadata) (tag_of msg)
          ∙ append_assoc (unread i.rb) (flv_header (flv_flags i.has_video i.has_audio)) _,
    )

-- The same where no metadata has come: the header is written, and the null pointer is read.
pub on_receive_stream_no_metadata :
    (id : ℤ) (is_video : Bool) (msg : RtmpMsgHeader) (a : LiveReceiverActor) (i : StreamSetupInfo)
    (is : List StreamSetupInfo)
    → a.push_thread_done ≡ false
    → a.streams ≡ i ∷ is
    → eq_ℤ i.stream_id id ≡ true
    → i.flv_header_written ≡ false
    → a.meta_data ≡ none
    → IsOpen i
    → (on_receive_stream id is_video msg a).0 ≡ err fault
unfolding on_receive_stream receive_first
on_receive_stream_no_metadata id is_video msg a i is running first mine fresh unknown o =
    let (j, e, oj, uj, rj) = write_flv_header-IsOpen i o in
    ap (λ r. r.0)
      (>>=-ok (gets (λ a. a.push_thread_done)) _ a refl
        ∙ >>=-ok (throw_if a.push_thread_done internal_error) _ a (rw running)
        ∙ >>=-ok (the_stream id) _ a (the_stream_first id a i is first mine)
        ∙ >>=-ok (gets (λ a. a.meta_data)) _ a refl
        ∙ >>=-err (on_first (write_start a.meta_data)) _ a (
            on_first-streams (write_start a.meta_data) a first
              (ap (λ m. write_start m i) unknown ∙ write_start_unknown i j fresh e)))
