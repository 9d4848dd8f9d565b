-- ===== src/LiveReceiver/Media.antt =====
-- livereceiveractor.cpp, what setOutputCtx and pushThread use of the media library: its structs, what its
-- calls return (the parameter `Library`), and what an output stream takes over from its input stream.
use tvie_rtmp.Base.{
  ℕ, Bool, true, false, not, ◌&&◌, ◌||◌, Option, none, some, List, [], ◌∷◌, ltb, leb, ◌==◌,
  if◌then◌else◌, length,
}
use tvie_rtmp.Base.Int.{ℤ}
use tvie_rtmp.Exception.{fault, Result, ok, err}

-- AVMEDIA_TYPE_VIDEO, AVMEDIA_TYPE_AUDIO and the others.
pub data MediaType : Type 0 where
  video audio other : MediaType

abbrev pub is_video : MediaType → Bool
is_video video = true
is_video audio = false
is_video other = false

abbrev pub is_audio : MediaType → Bool
is_audio video = false
is_audio audio = true
is_audio other = false

-- The fields of AVCodecContext that setOutputCtx names. A rational is its numerator and denominator.
pub record Codec : Type 0 where
  pub codec_type : MediaType
  pub bits_per_raw_sample : ℤ
  pub chroma_sample_location : ℕ
  pub codec_id : ℕ
  pub codec_tag : ℕ
  pub extradata : List ℕ
  pub time_base : ℤ × ℤ
  pub pix_fmt : ℤ
  pub width : ℤ
  pub height : ℤ
  pub has_b_frames : ℤ
  pub channel_layout : ℕ
  pub sample_rate : ℤ
  pub channels : ℤ
  pub frame_size : ℤ
  pub block_align : ℤ
  pub global_header : Bool

-- AVStream
pub record Stream : Type 0 where
  pub index : ℕ
  pub disposition : ℤ
  pub time_base : ℤ × ℤ
  pub codec : Codec

-- AVPacket
pub record Packet : Type 0 where
  pub stream_index : ℕ
  pub pts : ℤ
  pub dts : ℤ
  pub duration : ℤ

-- What a call of av_read_frame returns: the end of the file or an error, EAGAIN, or a frame.
pub data Reading : Type 0 where
  ended again : Reading
  frame : Packet → Reading

pub record Library : Type 0 where
  -- whether the three allocations of createInput succeed
  pub alloc_context : Bool
  pub alloc_buffer : Bool
  pub alloc_io_context : Bool
  -- whether avformat_open_input succeeds
  pub opens_input : Bool
  -- av_new_stream: whether it succeeds with so many streams, and the stream
  pub adds_stream : ℕ → Bool
  pub fresh_stream : ℕ → Stream
  -- the output format: whether it has a table of tags, what the table says, and AVFMT_GLOBALHEADER
  pub has_tags : Bool
  pub get_id : ℕ → ℕ
  pub get_tag : ℕ → ℕ
  pub wants_global_header : Bool
  -- av_rescale_q, and the time base of an output stream
  pub rescale : ℤ → ℤ × ℤ → ℤ × ℤ → ℤ
  pub out_time_base : ℕ → ℤ × ℤ
  -- whether av_interleaved_write_frame takes a packet behind those it has taken
  pub takes : List Packet → Packet → Bool

abbrev pub of_type : MediaType → Stream → Stream
of_type kind s = record s { codec = record (s.codec) { codec_type = kind } }

-- Whether the output's tag is taken over from the input.
unfoldable pub takes_tag : Library → Codec → Codec → Bool
takes_tag lib out inp =
    (out.codec_tag == 0)
    && (not lib.has_tags
        || lib.get_id inp.codec_tag == out.codec_id
        || leb (lib.get_tag inp.codec_id) 0)

-- `if(inCodecCtx->extradata_size > 0)`
abbrev pub copy_extradata : Stream → Codec → Codec
copy_extradata inp out =
    if ltb 0 (length inp.codec.extradata)
    then record out { extradata = inp.codec.extradata; time_base = inp.time_base }
    else out

abbrev pub copy_kind : Codec → Codec → Codec
copy_kind inp out = elim out.codec_type [
  | video ↦ record out {
    pix_fmt = inp.pix_fmt;
    width = inp.width;
    height = inp.height;
    has_b_frames = inp.has_b_frames;
  }
  | audio ↦ record out {
    channel_layout = inp.channel_layout;
    sample_rate = inp.sample_rate;
    channels = inp.channels;
    frame_size = inp.frame_size;
    block_align = inp.block_align;
  }
  | other ↦ out
]

abbrev pub set_global_header : Library → Codec → Codec
set_global_header lib out = record out {
  global_header = out.global_header || lib.wants_global_header;
}

abbrev pub copy_ids : Library → Codec → Codec → Codec
copy_ids lib inp out =
    let named = record out {
      bits_per_raw_sample = inp.bits_per_raw_sample;
      chroma_sample_location = inp.chroma_sample_location;
      codec_id = inp.codec_id;
    } in
    record named { codec_tag = if takes_tag lib named inp then inp.codec_tag else named.codec_tag }

-- What an output stream takes over from its input stream.
unfoldable pub copy_codec : Library → Stream → Stream → Stream
copy_codec lib inp out = record out {
  disposition = inp.disposition;
  codec =
      set_global_header lib
        (copy_kind inp.codec (copy_extradata inp (copy_ids lib inp.codec out.codec)));
}

-- The loop over the output streams. `inStream` may be null.
unfoldable pub copy_streams :
    Library → Option Stream → Option Stream → List Stream → Result (List Stream)
copy_streams lib v a [] = ok []
copy_streams lib v a (out ∷ outs) = elim (if is_video out.codec.codec_type then v else a) [
  | none ↦ err fault
  | some inp ↦ elim (copy_streams lib v a outs) [
    | err e ↦ err e
    | ok outs' ↦ ok (copy_codec lib inp out ∷ outs')
  ]
]
