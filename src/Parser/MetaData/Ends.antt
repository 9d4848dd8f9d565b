-- ===== src/Parser/MetaData/Ends.antt =====
-- rtmpparser.cpp, parseMetaData: the loop over the object or array of the metadata.
use tvie_rtmp.Base.{
  ℕ, zero, suc, ◌≤◌, ◌<◌, Bool, true, false, List, [], arith, bytes_eq, ◌==◌, if◌then◌else◌,
}
use tvie_rtmp.Base.Text.{codes}
use tvie_rtmp.Exception.{M, pure, gets, then_do, ◌>>=◌, ◌>>◌}
use tvie_rtmp.ReadBuffer.{ReadBuffer, unread_size, copy_out, read_bytes, skip, unread_buffer}
use tvie_rtmp.Amf.{get_next_type, parse_object_key, is_finished, skip_object_end}
use tvie_rtmp.Amf.Ends.{
  Ends, Spends, Ends->>=, Spends->>=, pure-Spends, gets-Spends, skip-Spends, get_next_type-Spends,
  parse_object_key-Spends, parse_as_string-Spends, parse_as_number-Spends, skip_type-Ends,
}
use tvie_rtmp.Message.{MetaDataMsg}
use tvie_rtmp.Parser.Commands.Ends.{kept-Spends, expect_name-Spends}
use tvie_rtmp.Parser.MetaData.{
  with_string, with_number, parse_codec_id, video_audio_value, meta_value, meta_loop,
  object_or_array, meta_data, new_meta_data,
}

-- A method that throws or takes a byte at least.
record TakesOne {A : Type 0} (m : M ReadBuffer A) : Type 0 where
  spends : Spends 1 m

if-TakesOne :
    {A : Type 0} (b : Bool) (m n : M ReadBuffer A)
    → TakesOne m
    → TakesOne n
    → TakesOne (if b then m else n)
if-TakesOne true m n p q = p
if-TakesOne false m n p q = q

kept-TakesOne :
    {A B : Type 0} (m : M ReadBuffer A) (f : A → B) → Spends 1 m → TakesOne (m >>= λ a. pure (f a))
kept-TakesOne m f p = record { spends = kept-Spends m f p }

string-TakesOne : (f : List ℕ → MetaDataMsg) → TakesOne (with_string f)
string-TakesOne f = kept-TakesOne _ f parse_as_string-Spends

number-TakesOne : (f : ℕ → MetaDataMsg) → TakesOne (with_number f)
number-TakesOne f = kept-TakesOne _ f parse_as_number-Spends

unread_buffer-Spends : Spends 0 unread_buffer
unfolding unread_buffer read_bytes copy_out ◌>>=◌ then_do
unread_buffer-Spends rb h = ground arith

five_Spends : Spends 1 (skip 5)
unfolding skip
five_Spends rb h = ground arith

module _ (num_to_str : ℕ → List ℕ) where
  object_or_array-TakesOne : (t : ℕ) → TakesOne (object_or_array num_to_str t)
  unfolding object_or_array
  object_or_array-TakesOne t =
      if-TakesOne (t == 3) _ _ (record { spends = skip-Spends 1 })
        (if-TakesOne (t == 8) _ _ (record { spends = five_Spends })
          (record { spends = λ rb h e. cc }))

  parse_codec_id-Spends : (t : ℕ) → Spends 1 (parse_codec_id num_to_str t)
  unfolding parse_codec_id
  parse_codec_id-Spends t =
      (if-TakesOne (t == 0) _ _ (kept-TakesOne _ num_to_str parse_as_number-Spends)
        (record { spends = parse_as_string-Spends })).spends

  video_audio_value-TakesOne :
      (key : List ℕ) (t : ℕ) (mp : MetaDataMsg) → TakesOne (video_audio_value num_to_str key t mp)
  unfolding video_audio_value
  video_audio_value-TakesOne key t mp =
      if-TakesOne (bytes_eq key (codes "videocodecid")) _ _
        (kept-TakesOne _ _ (parse_codec_id-Spends t))
        (if-TakesOne (bytes_eq key (codes "videodatarate")) _ _ (number-TakesOne _) (
          if-TakesOne (bytes_eq key (codes "avclevel")) _ _ (number-TakesOne _) (
            if-TakesOne (bytes_eq key (codes "avcprofile")) _ _ (number-TakesOne _) (
              if-TakesOne (bytes_eq key (codes "videokeyframe_frequency")) _ _ (number-TakesOne _) (
                if-TakesOne (bytes_eq key (codes "audiodevice")) _ _ (string-TakesOne _) (
                  if-TakesOne (bytes_eq key (codes "audiosamplerate")) _ _ (number-TakesOne _) (
                    if-TakesOne (bytes_eq key (codes "audiochannels")) _ _ (number-TakesOne _) (
                      if-TakesOne (bytes_eq key (codes "audioinputvolume")) _ _ (number-TakesOne _)
                        (if-TakesOne (bytes_eq key (codes "audiocodecid")) _ _
                          (kept-TakesOne _ _ (parse_codec_id-Spends t))
                          (if-TakesOne (bytes_eq key (codes "audiodatarate")) _ _
                            (number-TakesOne _)
                            (kept-TakesOne _ (λ _. mp) (λ rb h. skip_type-Ends t rb h))))))))))))

  meta_value-TakesOne :
      (key : List ℕ) (t : ℕ) (mp : MetaDataMsg) → TakesOne (meta_value num_to_str key t mp)
  unfolding meta_value
  meta_value-TakesOne key t mp =
      if-TakesOne (bytes_eq key (codes "author")) _ _ (string-TakesOne _) (
        if-TakesOne (bytes_eq key (codes "copyright")) _ _ (string-TakesOne _) (
          if-TakesOne (bytes_eq key (codes "description")) _ _ (string-TakesOne _) (
            if-TakesOne (bytes_eq key (codes "keywords")) _ _ (string-TakesOne _) (
              if-TakesOne (bytes_eq key (codes "rating")) _ _ (string-TakesOne _) (
                if-TakesOne (bytes_eq key (codes "title")) _ _ (string-TakesOne _) (
                  if-TakesOne (bytes_eq key (codes "presetname")) _ _ (string-TakesOne _) (
                    if-TakesOne (bytes_eq key (codes "creationdate")) _ _ (string-TakesOne _) (
                      if-TakesOne (bytes_eq key (codes "videodevice")) _ _ (string-TakesOne _) (
                        if-TakesOne (bytes_eq key (codes "framerate")) _ _ (number-TakesOne _) (
                          if-TakesOne (bytes_eq key (codes "width")) _ _ (number-TakesOne _) (
                            if-TakesOne (bytes_eq key (codes "height")) _ _ (number-TakesOne _)
                              (video_audio_value-TakesOne key t mp))))))))))))

  -- The loop with this fuel ends on every buffer with fewer unread bytes.
  abbrev LoopEnds : ℕ → Type 0
  LoopEnds fuel =
      (k : Bool) (key : List ℕ) (mp : MetaDataMsg) (r : ReadBuffer)
      → r.bi ≤ r.cout
      → unread_size r < fuel
      → Ends 0 r (meta_loop num_to_str fuel k key mp r)

  -- A key or a value, and the rest of the loop.
  item-Ends :
      (fuel : ℕ) (parse_key : Bool) (key : List ℕ) (t : ℕ) (mp : MetaDataMsg) (rb : ReadBuffer)
      → LoopEnds fuel
      → rb.bi ≤ rb.cout
      → unread_size rb < suc fuel
      → Ends 0 rb (
          (if parse_key
              then (parse_object_key >>= λ name. meta_loop num_to_str fuel false name mp)
              else (meta_value num_to_str key t mp >>= λ mp'.
                  meta_loop num_to_str fuel true key mp'))
            rb)
  item-Ends fuel true key t mp rb ih h f =
      Ends->>= _ _ rb 1 0 0 (omega arith) (parse_object_key-Spends rb h)
        λ name rb1 e1. ih false name mp rb1 e1.2 (omega arith)
  item-Ends fuel false key t mp rb ih h f =
      Ends->>= _ _ rb 1 0 0 (omega arith) ((meta_value-TakesOne key t mp).spends rb h)
        λ mp' rb1 e1. ih true key mp' rb1 e1.2 (omega arith)

  -- The end mark or an item.
  typed-Ends :
      (fuel : ℕ) (at_end parse_key : Bool) (key : List ℕ) (t : ℕ) (mp : MetaDataMsg)
      (rb : ReadBuffer)
      → LoopEnds fuel
      → rb.bi ≤ rb.cout
      → unread_size rb < suc fuel
      → Ends 0 rb (
          (if at_end
              then (skip_object_end >> pure mp)
              else (if parse_key
                  then (parse_object_key >>= λ name. meta_loop num_to_str fuel false name mp)
                  else (meta_value num_to_str key t mp >>= λ mp'.
                      meta_loop num_to_str fuel true key mp')))
            rb)
  typed-Ends fuel true parse_key key t mp rb ih h f =
      Ends->>= _ _ rb 3 0 0 (omega arith) (skip-Spends 3 rb h) λ _ rb1 e1. pure-Spends mp rb1 e1.2
  typed-Ends fuel false parse_key key t mp rb ih h f = item-Ends fuel parse_key key t mp rb ih h f

  round-Ends :
      (fuel : ℕ) (finished parse_key : Bool) (key : List ℕ) (mp : MetaDataMsg) (rb : ReadBuffer)
      → LoopEnds fuel
      → rb.bi ≤ rb.cout
      → unread_size rb < suc fuel
      → Ends 0 rb (
          (if finished
              then pure mp
              else (get_next_type true >>= λ t.
                  if t == 9
                  then (skip_object_end >> pure mp)
                  else (if parse_key
                      then (parse_object_key >>= λ name. meta_loop num_to_str fuel false name mp)
                      else (meta_value num_to_str key t mp >>= λ mp'.
                          meta_loop num_to_str fuel true key mp'))))
            rb)
  round-Ends fuel true parse_key key mp rb ih h f = pure-Spends mp rb h
  round-Ends fuel false parse_key key mp rb ih h f =
      Ends->>= _ _ rb 0 0 0 (omega arith) (get_next_type-Spends true rb h)
        λ t rb1 e1. typed-Ends fuel (t == 9) parse_key key t mp rb1 ih e1.2 (omega arith)

  meta_loop-Ends : (fuel : ℕ) → LoopEnds fuel
  unfolding meta_loop
  meta_loop-Ends zero parse_key key mp rb h f = absurd (omega arith)
  meta_loop-Ends (suc fuel) parse_key key mp rb h f =
      Ends->>= _ _ rb 0 0 0 (omega arith) (gets-Spends is_finished rb h) λ finished rb1 e1.
        round-Ends fuel finished parse_key key mp rb1 (meta_loop-Ends fuel) e1.2 (omega arith)

  -- The parse of metadata ends on every buffer whose read position is not past its count, however the
  -- double of a codec id is printed: it returns the metadata or throws, whatever the keys and values of
  -- its object or array are.
  pub meta_data-Ends : (rb : ReadBuffer) → rb.bi ≤ rb.cout → Ends 0 rb (meta_data num_to_str rb)
  unfolding meta_data ◌>>=◌
  meta_data-Ends =
      Spends->>= _ _ 1 0 0 (omega arith) (expect_name-Spends (codes "@setDataFrame")) λ _.
        Spends->>= _ _ 0 0 0 (omega arith) unread_buffer-Spends λ raw.
          Spends->>= (gets unread_size) _ 0 0 0 (omega arith) (gets-Spends unread_size) λ size.
            Spends->>= _ _ 1 0 0 (omega arith) (expect_name-Spends (codes "onMetaData")) λ _.
              Spends->>= _ _ 0 0 0 (omega arith) (get_next_type-Spends false) λ t.
                Spends->>= _ _ 1 0 0 (omega arith) ((object_or_array-TakesOne t).spends) λ _ rb h.
                  meta_loop-Ends (suc (unread_size rb)) true []
                    (record new_meta_data { metadata = raw; metadata_size = size }) rb h
                    (omega arith)
