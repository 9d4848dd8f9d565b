-- ===== src/Parser/Commands/Errors.antt =====
-- What the parsers of command bodies throw.
use tvie_rtmp.Base.{◌≡◌, Bool, true, refl, false, List, ℕ, Option-cases, inl, inr}
use tvie_rtmp.Base.Int.{ℤ, pos, negsuc}
use tvie_rtmp.Exception.{
  Thrown, no_enough_data, bad_protocal_data, invalid_amf_data, Result, ok, err, M, caught,
  try_catch, throw, then_do, ◌>>=◌,
}
use tvie_rtmp.ReadBuffer.{ReadBuffer}
use tvie_rtmp.ReadBuffer.Append.{append_data-empty}
use tvie_rtmp.Message.{RtmpMsgHeader}
use tvie_rtmp.Parser.Commands.{
  on_body, corrupted, guarded, parse_command, peek_amf0_cmd, peek_amf0_data_type,
  parse_release_stream_cmd, parse_fc_publish_cmd, parse_create_stream_cmd, parse_publish_cmd,
  parse_connect_cmd,
}
use tvie_rtmp.Parser.MetaData.{parse_meta_data}

-- Neither RtmpNoEnoughData, by which handleRead waits for more bytes, nor RtmpInvalidAMFData, which
-- it does not catch.
abbrev pub is_settled : Thrown → Bool
is_settled no_enough_data = false
is_settled invalid_amf_data = false
is_settled e = true

abbrev pub ends_settled : {A : Type 0} → Result A → Bool
ends_settled (ok a) = true
ends_settled (err e) = is_settled e

is_settled-corrupted : (e : Thrown) → is_settled (corrupted e) ≡ true
unfolding corrupted
is_settled-corrupted e = elim e as (λ x. is_settled (corrupted x) ≡ true) [
  | no_enough_data ↦ refl
  | other ↦ refl
]

ends_settled-guarded :
    {A : Type 0} (m : M ReadBuffer A) (rb : ReadBuffer) → ends_settled (guarded m rb).0 ≡ true
unfolding guarded try_catch caught
ends_settled-guarded {A = A} m rb = go (m rb)
  where
    go : (r : Result A × ReadBuffer) → ends_settled (caught (λ e. throw (corrupted e)) r).0 ≡ true
    go (ok a, rb') = refl
    go (err e, rb') = is_settled-corrupted e

ends_settled-on_body :
    {A : Type 0} (mh : RtmpMsgHeader) (m : M ReadBuffer A)
    → ends_settled (on_body mh (guarded m)) ≡ true
unfolding on_body ◌>>=◌ then_do
ends_settled-on_body mh m = elim (Option-cases mh.body) [
  | inl e ↦ rw (e, on_body)
  | inr (bytes, e) ↦
      let (rb, made, _, _, _) = append_data-empty bytes in
      rw (e, on_body) (rw (made, then_do) (ends_settled-guarded m rb))
]

ends_settled-parse_command :
    {A : Type 0} (mh : RtmpMsgHeader) (m : M ReadBuffer A)
    → ends_settled (parse_command mh (guarded m)) ≡ true
unfolding parse_command
ends_settled-parse_command mh m = go mh.length
  where
    go :
        (len : ℤ)
        → ends_settled
            (elim len [ negsuc _ ↦ err bad_protocal_data | pos _ ↦ on_body mh (guarded m) ])
          ≡ true
    go (negsuc n) = refl
    go (pos n) = ends_settled-on_body mh m

-- Whatever the message is, none of the eight parsers of command and data bodies throws
-- RtmpNoEnoughData or RtmpInvalidAMFData: a body that ends too early or is no AMF0 is reported as
-- something else.
pub parsers-ends_settled :
    (iequals : List ℕ → List ℕ → Bool) (num_to_str : ℕ → List ℕ) (mh : RtmpMsgHeader)
    → (ends_settled (peek_amf0_cmd mh) ≡ true)
      × (ends_settled (peek_amf0_data_type mh) ≡ true)
      × (ends_settled (parse_release_stream_cmd mh) ≡ true)
      × (ends_settled (parse_publish_cmd mh) ≡ true)
      × (ends_settled (parse_fc_publish_cmd mh) ≡ true)
      × (ends_settled (parse_create_stream_cmd mh) ≡ true)
      × (ends_settled (parse_connect_cmd iequals mh) ≡ true)
      × (ends_settled (parse_meta_data num_to_str mh) ≡ true)
unfolding peek_amf0_cmd peek_amf0_data_type parse_release_stream_cmd parse_publish_cmd
    parse_fc_publish_cmd parse_create_stream_cmd parse_connect_cmd parse_meta_data
parsers-ends_settled iequals num_to_str mh = (
  ends_settled-parse_command mh _,
  ends_settled-parse_command mh _,
  ends_settled-parse_command mh _,
  ends_settled-parse_command mh _,
  ends_settled-parse_command mh _,
  ends_settled-parse_command mh _,
  ends_settled-parse_command mh _,
  ends_settled-parse_command mh _,
)
