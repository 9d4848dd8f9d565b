-- ===== src/LiveReceiver/StreamSetup.antt =====
-- livereceiveractor.cpp, StreamSetupInfo: a stream's bytes on their way to the media library.
--
-- The connection's thread writes, the push thread reads; each holds the mutex for a whole write and for
-- a whole round of feedData, so these are the steps that interleave. The members of the media library
-- are left out. Bytes of messages and metadata are as many as their length fields say.
use tvie_rtmp.Base.{
  ℕ, zero, suc, ◌+◌, ◌/◌, ◌%◌, ◌^◌, Bool, true, false, Option, none, some, List, [], ◌∷◌, ltb, ◌==◌,
  if◌then◌else◌,
}
use tvie_rtmp.Base.Int.{ℤ, pos, pattern32}
use tvie_rtmp.Exception.{fault, M, pure, throw, gets, modify, ◌>>=◌, ◌>>◌, on}
use tvie_rtmp.ReadBuffer
use tvie_rtmp.ReadBuffer.{ReadBuffer, unread_size, append_data, copy_out, reset, skip}
use tvie_rtmp.WriteBuffer
use tvie_rtmp.WriteBuffer.{WriteBuffer, re_init, write_b_bits, write_b, write_bytes, get_buffer}
use tvie_rtmp.Message.{RtmpMsgHeader, MetaDataMsg, minus_one}
use tvie_rtmp.Connection.Output.{pattern64}

pub record StreamSetupInfo : Type 0 where
  pub stream_id : ℤ
  pub has_video : Bool
  pub has_audio : Bool
  pub flv_header_written : Bool
  pub rb : ReadBuffer
  pub wb : WriteBuffer
  pub end_of_file : Bool
  pub error : Bool

unfoldable pub new_stream : ℤ → StreamSetupInfo
new_stream id = record {
  stream_id = id;
  has_video = false;
  has_audio = false;
  flv_header_written = false;
  rb = ReadBuffer.empty 1024;
  wb = WriteBuffer.empty 32;
  end_of_file = false;
  error = false;
}

-- A call on rb_ and on wb_.
unfoldable pub on_read : {B : Type 0} → M ReadBuffer B → M StreamSetupInfo B
on_read = on (λ i. i.rb) (λ r i. record i { rb = r })

unfoldable pub on_write : {B : Type 0} → M WriteBuffer B → M StreamSetupInfo B
on_write = on (λ i. i.wb) (λ w i. record i { wb = w })

-- rb_.appendData(wb_.getBufferPtr(), wb_.getBufferCount())
unfoldable pub append_written : M StreamSetupInfo (Unit {0})
append_written = do d ← gets (λ i. get_buffer i.wb); on_read (append_data d)

unfoldable pub write_tag_size : ℕ → M StreamSetupInfo (Unit {0})
write_tag_size n = do on_write (modify re_init); on_write (write_b 4 n); append_written

-- `flag`
abbrev pub flv_flags : Bool → Bool → ℕ
flv_flags video audio = (if video then 1 else 0) + (if audio then 4 else 0)

unfoldable pub write_flv_header : M StreamSetupInfo (Unit {0})
write_flv_header = do
  flags ← gets (λ i. flv_flags i.has_video i.has_audio)
  on_read (append_data (70 ∷ 76 ∷ 86 ∷ 1 ∷ flags ∷ 0 ∷ 0 ∷ 0 ∷ 9 ∷ []))
  write_tag_size 0
  modify (λ i. record i { flv_header_written = true })

-- What writeData and writeMetaData write in front of the content. The bits that `>> 24` brings in from
-- the left are cut off.
unfoldable pub write_tag_header : ℕ → ℕ → ℤ → M WriteBuffer (Unit {0})
write_tag_header type size timestamp = do
  write_b_bits 4 0 3
  write_b_bits 4 type 5
  write_b_bits 4 size 24
  write_b_bits 8 (pattern64 timestamp) 24
  write_b_bits 8 (pattern64 timestamp / 2 ^ 24) 8
  write_b_bits 4 0 24

-- What they have in common: a tag of the size `n`.
unfoldable pub write_tag : ℕ → ℕ → ℤ → List ℕ → M StreamSetupInfo (Unit {0})
write_tag type n timestamp content = do
  on_write (modify re_init)
  on_write
      (do write_tag_header type n timestamp; write_bytes content; write_b 4 ((n + 11) % 2 ^ 32))
  append_written

-- A body is there once the message is whole.
unfoldable pub write_data : RtmpMsgHeader → M StreamSetupInfo (Unit {0})
write_data msg = elim msg.body [
  | none ↦ throw fault
  | some content ↦ write_tag msg.type_id (pattern32 msg.length) msg.timestamp content
]

-- metaData_ may be null still.
unfoldable pub write_meta_data : Option MetaDataMsg → M StreamSetupInfo (Unit {0})
write_meta_data none = throw fault
write_meta_data (some meta) = write_tag 0x12 meta.metadata_size meta.timestamp meta.metadata

unfoldable pub set_end_of_file : M StreamSetupInfo (Unit {0})
set_end_of_file = modify (λ i. record i { end_of_file = true })

-- How a round of feedData ends: it goes on waiting, or returns a number, after it copied some bytes.
pub data Fed : Type 0 where
  waits : Fed
  returns : ℤ → List ℕ → Fed

-- A round with nothing to read.
unfoldable pub feed_nothing : M StreamSetupInfo Fed
feed_nothing = do
  i ← gets (λ i. i)
  pure (
      if i.error
      then returns minus_one []
      else (if i.end_of_file then returns (pos 0) [] else waits))

-- A round of feedData that gives everything.
unfoldable pub feed_all : ℕ → M StreamSetupInfo Fed
feed_all size = do d ← on_read (copy_out size); on_read (modify reset); pure (returns (pos size) d)

-- A round of feedData that fills the buffer.
unfoldable pub feed_some : ℕ → M StreamSetupInfo Fed
feed_some size = do d ← on_read (copy_out size); on_read (skip size); pure (returns (pos size) d)

unfoldable pub feed_round : ℕ → M StreamSetupInfo Fed
feed_round buf_size = do
  size ← gets (λ i. unread_size i.rb)
  if size == 0
      then feed_nothing
      else (if ltb size buf_size then feed_all size else feed_some buf_size)

-- feedData: 10 microseconds between two rounds, in which `other k` is what the other thread does, and
-- an end once they are more than ten seconds. `left` counts the waits that are left.
unfoldable pub feed_loop : ℕ → (ℕ → StreamSetupInfo → StreamSetupInfo) → ℕ → M StreamSetupInfo Fed
feed_loop zero other buf_size = pure (returns minus_one [])
feed_loop (suc left) other buf_size = do
  r ← feed_round buf_size
  let rest = modify (other left) >> feed_loop left other buf_size
  elim r [ waits ↦ rest | returns n d ↦ pure (returns n d) ]

unfoldable pub feed_data : (ℕ → StreamSetupInfo → StreamSetupInfo) → ℕ → M StreamSetupInfo Fed
feed_data other buf_size = feed_loop 1000001 other buf_size
