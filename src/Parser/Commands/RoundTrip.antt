-- ===== src/Parser/Commands/RoundTrip.antt =====
-- rtmpparser.cpp: the parsers of command bodies, at a command in the AMF0 format.
use tvie_rtmp.Base.{
  ℕ, ◌+◌, ◌*◌, ◌^◌, ◌<◌, ◌≡◌, refl, ap, ◌∙◌, Bool, true, false, not, ◌&&◌, ◌⊎◌, List, [], ◌∷◌, ◌++◌,
  length-append, arith, length, ltb, bytes_eq, bytes_eq_refl,
}
use tvie_rtmp.Base.Text.{codes}
use tvie_rtmp.Exception.{ok, M, ◌>>=◌, >>=-ok}
use tvie_rtmp.ReadBuffer.{ReadBuffer, big, peek}
use tvie_rtmp.ReadBuffer.View.{IsValid, unread, Reads, Reads->>=, Reads-last, Reads-pure}
use tvie_rtmp.ReadBuffer.Inside.{
  ReadsInside, Reads-ReadsInside, ReadsInside->>=, ReadsInside->>=-Reads, ReadsInside-last,
  Overruns, Overruns-first, Overruns->>=,
}
use tvie_rtmp.ReadBuffer.Number.{peek_big}
use tvie_rtmp.Message.{RtmpMsgHeader}
use tvie_rtmp.Amf.{c_string, expect, parse_as_number, get_next_type}
use tvie_rtmp.Amf.Format.{
  Value, number, boolean, string, object, null, undefined, encode, IsText, c_string-IsText,
}
use tvie_rtmp.Amf.RoundTrip.{
  expect-Reads, throw_if-Reads, parse_as_string-ReadsInside, parse_as_string-Overruns,
  parse_as_number-Reads,
}
use tvie_rtmp.Amf.NextType.{IsPlain, type_of}
use tvie_rtmp.Amf.Exact.{skip_type_takes}
use tvie_rtmp.Parser.Commands.Body.{Carries, if_followed, parse_command-Reads, parse_command-last}
use tvie_rtmp.Parser.Commands.{
  guarded, parse_command, expect_name, skip_command_object, stream_cmd, parse_release_stream_cmd,
  parse_fc_publish_cmd, create_stream_cmd, parse_create_stream_cmd, publish_cmd, parse_publish_cmd,
}

abbrev pub is_text : List ℕ → Bool
is_text [] = true
is_text (c ∷ cs) = ltb 0 c && (ltb c 256 && is_text cs)

pub is_text→IsText : (s : List ℕ) → is_text s ≡ true → IsText s
is_text→IsText [] h = tt
is_text→IsText (c ∷ cs) h = (ground arith, ground arith, is_text→IsText cs (ground arith))

expect_name-ReadsInside :
    (name : List ℕ)
    → IsText name
    → length name < 2 ^ 16
    → ReadsInside (expect_name name) (encode (string name)) tt
unfolding expect_name
expect_name-ReadsInside name h len =
    let same : not (bytes_eq (c_string name) name) ≡ false =
      ap (λ s. not (bytes_eq s name)) (c_string-IsText name h) ∙ ap not (bytes_eq_refl name) in
    ReadsInside-last _ (parse_as_string-ReadsInside name len) (throw_if-Reads _ _ same)

-- getNextType(false) returns the next byte.
next_type_any :
    (p : ℕ) (rest : List ℕ) (rb : ReadBuffer)
    → IsValid rb
    → p < 256
    → unread rb ≡ p ∷ rest
    → get_next_type false rb ≡ (ok p, rb)
unfolding get_next_type
next_type_any p rest rb v h e =
    let same : 0 * 256 + p ≡ p = omega arith in
    >>=-ok (peek 1 big) _ rb (peek_big (p ∷ []) rest rb v (h, tt) e) ∙ rw same

-- What may stand between the transaction id and the arguments: null or an object.
abbrev pub IsCommandObject : Value → Type 0
IsCommandObject v = IsPlain v × ((type_of v ≡ 5) ⊎ (type_of v ≡ 3))

skip_command_object-Reads :
    (v : Value) → IsCommandObject v → Reads skip_command_object (encode v) tt
unfolding skip_command_object encode IsPlain
skip_command_object-Reads (object fs) h = record {
  run = λ rb rest v e.
      >>=-ok (get_next_type false) _ rb (next_type_any 3 _ rb v (omega arith) e)
      ∙ skip_type_takes (object fs) rb rest h.0 v e (λ q. absurd (omega arith));
}
skip_command_object-Reads null h = record {
  run = λ rb rest v e.
      >>=-ok (get_next_type false) _ rb (next_type_any 5 _ rb v (omega arith) e)
      ∙ (expect-Reads 5).run rb rest v e;
}
skip_command_object-Reads (number n) h = absurd (omega arith)
skip_command_object-Reads (boolean b) h = absurd (omega arith)
skip_command_object-Reads (string s) h = absurd (omega arith)
skip_command_object-Reads undefined h = absurd (omega arith)

-- The bytes of a command: its name and the transaction id, and what follows them.
abbrev pub command : List ℕ → ℕ → List ℕ → List ℕ
command name id args = encode (string name) ++ (encode (number id) ++ args)

-- The name of the command and its transaction id.
module _ {A : Type 0} (name : List ℕ) (id : ℕ) (f : ℕ → M ReadBuffer A) (args : List ℕ)
    (text : IsText name) (short : length name < 2 ^ 16) (hi : id < 2 ^ 64) where
  number_length : length (encode (number id) ++ args) ≡ 9 + length args
  unfolding encode
  number_length = omega arith

  command-Reads :
      (a : A)
      → Reads (f id) args a
      → Reads (expect_name name >>= λ _. parse_as_number >>= f) (command name id args) a
  command-Reads a p =
      ReadsInside->>=-Reads _ _ (omega (arith, number_length))
        (expect_name-ReadsInside name text short) (Reads->>= _ _ (parse_as_number-Reads id hi) p)

  command-ReadsInside :
      (a : A)
      → ReadsInside (f id) args a
      → ReadsInside (expect_name name >>= λ _. parse_as_number >>= f) (command name id args) a
  command-ReadsInside a p =
      ReadsInside->>= _ _ (expect_name-ReadsInside name text short)
        (ReadsInside->>= _ _ (Reads-ReadsInside (parse_as_number-Reads id hi)) p)

  command-Overruns :
      0 < length args
      → Overruns (f id) args
      → Overruns (expect_name name >>= λ _. parse_as_number >>= f) (command name id args)
  command-Overruns more p =
      Overruns->>= _ _ (omega (arith, number_length)) (expect_name-ReadsInside name text short)
        (Overruns->>= _ _ more (Reads-ReadsInside (parse_as_number-Reads id hi)) p)

parse_null-Reads : Reads (expect 5) (encode null) tt
unfolding encode
parse_null-Reads = expect-Reads 5

string_length : (s : List ℕ) → 0 < length (encode (string s))
unfolding encode
string_length s = omega arith

-- What follows a command's name.
pub arguments_length : (id : ℕ) (args : List ℕ) → 0 < length (encode (number id) ++ args)
unfolding encode
arguments_length id args = omega arith

-- releaseStream and FCPublish, behind the transaction id.
module _ (name : List ℕ) (id : ℕ) (obj : Value) (stream rest : List ℕ) (text : IsText name)
    (short : length name < 2 ^ 16) (hi : id < 2 ^ 64) (ho : IsCommandObject obj)
    (len : length stream < 2 ^ 16) where
  stream_cmd-if_followed :
      (mh : RtmpMsgHeader)
      → Carries mh (command name id (encode obj ++ encode (string stream)) ++ rest)
      → parse_command mh (guarded (stream_cmd name))
        ≡ if_followed rest (record { transaction_id = id; stream_name = c_string stream })
  unfolding stream_cmd
  stream_cmd-if_followed mh c =
      parse_command-last mh _ rest _ _ c
        (command-ReadsInside name id _ _ text short hi _ (
          ReadsInside->>= _ _ (Reads-ReadsInside (skip_command_object-Reads obj ho))
            (ReadsInside-last _ (parse_as_string-ReadsInside stream len) (Reads-pure _))))
        (command-Overruns name id _ _ text short hi
          (omega
            (arith, string_length stream, length-append {0} (encode obj) (encode (string stream))))
          (Overruns->>= _ _ (string_length stream)
            (Reads-ReadsInside (skip_command_object-Reads obj ho))
            (Overruns-first _ (parse_as_string-Overruns stream len))))

-- releaseStream and FCPublish commands in the format, with a stream name of up to 65535 characters, and
-- with null or an object in which nothing is mistaken for an end mark (IsPlain): where at least one byte
-- follows the name in the body, they are parsed to their transaction id and the name's characters before
-- the first 0; where the body ends with the name, the parser reads past the end of the body's buffer.
pub parse_stream_cmds_round_trip :
    (released published : RtmpMsgHeader) (id : ℕ) (obj : Value) (stream rest : List ℕ)
    → id < 2 ^ 64
    → IsCommandObject obj
    → length stream < 2 ^ 16
    → Carries released
        (command (codes "releaseStream") id (encode obj ++ encode (string stream)) ++ rest)
    → Carries published
        (command (codes "FCPublish") id (encode obj ++ encode (string stream)) ++ rest)
    → (parse_release_stream_cmd released
        ≡ if_followed rest (record { transaction_id = id; stream_name = c_string stream }))
      × (parse_fc_publish_cmd published
          ≡ if_followed rest (record { transaction_id = id; stream_name = c_string stream }))
unfolding parse_release_stream_cmd parse_fc_publish_cmd
parse_stream_cmds_round_trip released published id obj stream rest hi ho len c d = (
  stream_cmd-if_followed (codes "releaseStream") id obj stream rest
      (is_text→IsText (codes "releaseStream") refl) (omega arith) hi ho len released c,
  stream_cmd-if_followed (codes "FCPublish") id obj stream rest
      (is_text→IsText (codes "FCPublish") refl) (omega arith) hi ho len published d,
)

module _ (mh : RtmpMsgHeader) (id : ℕ) (hi : id < 2 ^ 64) where
  -- A createStream command in the format is parsed to its transaction id.
  pub parse_create_stream_cmd_round_trip :
      (obj : Value) (rest : List ℕ)
      → IsCommandObject obj
      → Carries mh (command (codes "createStream") id (encode obj) ++ rest)
      → parse_create_stream_cmd mh ≡ ok (record { transaction_id = id })
  unfolding parse_create_stream_cmd create_stream_cmd
  parse_create_stream_cmd_round_trip obj rest ho c = parse_command-Reads mh _ rest _ c _ (
      command-Reads (codes "createStream") id _ _ (is_text→IsText (codes "createStream") refl)
        (omega arith) hi _ (Reads-last _ (skip_command_object-Reads obj ho) (Reads-pure _)))

  -- A publish command in the format, with a publishing name and a publishing type of up to 65535
  -- characters: where at least one byte follows the type in the body, it is parsed to its transaction id
  -- and the characters before the first 0 of the name and of the type; where the body ends with the type,
  -- the parser reads past the end of the body's buffer.
  pub parse_publish_cmd_round_trip :
      (name kind rest : List ℕ)
      → length name < 2 ^ 16
      → length kind < 2 ^ 16
      → Carries mh (
          command
            (codes "publish")
            id
            (encode null ++ (encode (string name) ++ encode (string kind)))
          ++ rest)
      → parse_publish_cmd mh
        ≡ if_followed rest (record {
          transaction_id = id;
          publishing_name = c_string name;
          publishing_type = c_string kind;
        })
  unfolding parse_publish_cmd publish_cmd
  parse_publish_cmd_round_trip name kind rest ln lk c =
      let sum : length (encode (string name) ++ encode (string kind))
          ≡ length (encode (string name)) + length (encode (string kind)) =
        length-append (encode (string name)) (encode (string kind)) in
      let more : 0 < length (encode (string name) ++ encode (string kind)) =
        omega (arith, string_length kind, sum) in
      parse_command-last mh _ rest _ _ c
        (command-ReadsInside (codes "publish") id _ _ (is_text→IsText (codes "publish") refl)
          (omega arith) hi _
          (ReadsInside->>= _ _ (Reads-ReadsInside parse_null-Reads) (
            ReadsInside->>= _ _ (parse_as_string-ReadsInside name ln)
              (ReadsInside-last _ (parse_as_string-ReadsInside kind lk) (Reads-pure _)))))
        (command-Overruns (codes "publish") id _ _ (is_text→IsText (codes "publish") refl)
          (omega arith) hi
          (omega (
            arith,
            length-append {0} (encode null) (encode (string name) ++ encode (string kind)),
            more,
          ))
          (Overruns->>= _ _ more (Reads-ReadsInside parse_null-Reads) (
            Overruns->>= _ _ (string_length kind) (parse_as_string-ReadsInside name ln)
              (Overruns-first _ (parse_as_string-Overruns kind lk)))))
