-- ===== src/Parser/Commands/Peek.antt =====
-- rtmpparser.cpp, peekAMF0Cmd: the commands by their names.
use tvie_rtmp.Base.{ℕ, ◌^◌, ◌<◌, ◌≡◌, refl, sym, subst, true, List, [], ◌++◌, arith, length}
use tvie_rtmp.Base.Text.{codes}
use tvie_rtmp.Exception.{ok}
use tvie_rtmp.ReadBuffer.View.{Reads, Reads-pure}
use tvie_rtmp.ReadBuffer.Inside.{ReadsInside-last}
use tvie_rtmp.Message.{RtmpMsgHeader, Amf0Command}
use tvie_rtmp.Amf.Format.{string, encode, IsText, c_string-IsText}
use tvie_rtmp.Amf.RoundTrip.{parse_as_string-ReadsInside}
use tvie_rtmp.Parser.Commands.Body.{Carries, parse_command-followed}
use tvie_rtmp.Parser.Commands.{command_of, peek_amf0_cmd}
use tvie_rtmp.Parser.Commands.RoundTrip.{is_text, is_text→IsText}

-- The names of the commands.
abbrev pub name_of : Amf0Command → List ℕ
name_of Amf0Command.connect = codes "connect"
name_of Amf0Command.release_stream = codes "releaseStream"
name_of Amf0Command.fc_publish = codes "FCPublish"
name_of Amf0Command.create_stream = codes "createStream"
name_of Amf0Command.publish = codes "publish"

-- peekAMF0Cmd finds each command by the name at the front of the body, which is not all of it.
pub peek_amf0_cmd-name_of :
    (cmd : Amf0Command) (mh : RtmpMsgHeader) (rest : List ℕ)
    → 0 < length rest
    → Carries mh (encode (string (name_of cmd)) ++ rest)
    → peek_amf0_cmd mh ≡ ok cmd
unfolding peek_amf0_cmd command_of
peek_amf0_cmd-name_of cmd mh rest more c = parse_command-followed mh _ rest _ c cmd more (
    ReadsInside-last command_of (parse_as_string-ReadsInside (name_of cmd) short) (
      subst (λ s. Reads (command_of s) [] cmd) (sym (c_string-IsText (name_of cmd) text))
        (found cmd)))
  where
    text : IsText (name_of cmd)
    text = is_text→IsText (name_of cmd) (elim cmd as (λ c. is_text (name_of c) ≡ true) [
      | Amf0Command.connect ↦ refl
      | other ↦ refl
    ])

    short : length (name_of cmd) < 2 ^ 16
    short = elim cmd as (λ c. length (name_of c) < 2 ^ 16) [
      | Amf0Command.connect ↦ omega arith
      | other ↦ omega arith
    ]

    found : (c : Amf0Command) → Reads (command_of (name_of c)) [] c
    found c = elim c as (λ x. Reads (command_of (name_of x)) [] x) [
      | Amf0Command.connect ↦ Reads-pure _
      | other ↦ Reads-pure _
    ]
