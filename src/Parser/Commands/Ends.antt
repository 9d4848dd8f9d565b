-- ===== src/Parser/Commands/Ends.antt =====
-- rtmpparser.cpp, parseConnectCmd: the loop over the command object.
use tvie_rtmp.Base.{
  ℕ, zero, suc, ◌≤◌, ◌<◌, Bool, true, false, not, List, arith, ◌==◌, if◌then◌else◌,
}
use tvie_rtmp.Base.Text.{codes}
use tvie_rtmp.Exception.{bad_protocal_data, ok, M, pure, ◌>>=◌, ◌>>◌}
use tvie_rtmp.ReadBuffer.{ReadBuffer, unread_size}
use tvie_rtmp.Amf.{get_next_type, parse_object_key, is_finished, skip_object_end}
use tvie_rtmp.Amf.Ends.{
  Ends, Spends, Ends->>=, Spends->>=, throw_if-Spends, pure-Spends, gets-Spends, skip-Spends,
  get_next_type-Spends, parse_object_key-Spends, parse_as_string-Spends, parse_as_bool-Spends,
  parse_as_number-Spends, skip_type-Ends,
}
use tvie_rtmp.Message.{ConnectCmd, ConnectCmdObjKey}
use tvie_rtmp.Parser.Commands.{
  cmd_connect_is_key_valid, connect_value, connect_loop, connect_cmd, expect_name, double_one,
}

-- A value of the object takes a byte at least.
pub kept-Spends :
    {A B : Type 0} (m : M ReadBuffer A) (f : A → B) → Spends 1 m → Spends 1 (m >>= λ a. pure (f a))
kept-Spends m f h = Spends->>= _ _ 1 0 1 (omega arith) h λ a. pure-Spends (f a)

pub expect_name-Spends : (name : List ℕ) → Spends 1 (expect_name name)
unfolding expect_name
expect_name-Spends name =
    Spends->>= _ _ 1 0 1 (omega arith) parse_as_string-Spends
      λ s. throw_if-Spends _ bad_protocal_data (λ e. cc)

connect_value-Spends :
    (key : ConnectCmdObjKey) (t : ℕ) (mp : ConnectCmd) → Spends 1 (connect_value key t mp)
unfolding connect_value
connect_value-Spends ConnectCmdObjKey.app t mp = kept-Spends _ _ parse_as_string-Spends
connect_value-Spends ConnectCmdObjKey.flashver t mp = kept-Spends _ _ parse_as_string-Spends
connect_value-Spends ConnectCmdObjKey.swf_url t mp = kept-Spends _ _ parse_as_string-Spends
connect_value-Spends ConnectCmdObjKey.tc_url t mp = kept-Spends _ _ parse_as_string-Spends
connect_value-Spends ConnectCmdObjKey.type t mp = kept-Spends _ _ parse_as_string-Spends
connect_value-Spends ConnectCmdObjKey.fpad t mp = kept-Spends _ _ parse_as_bool-Spends
connect_value-Spends ConnectCmdObjKey.audio_codecs t mp = kept-Spends _ _ parse_as_number-Spends
connect_value-Spends ConnectCmdObjKey.video_codecs t mp = kept-Spends _ _ parse_as_number-Spends
connect_value-Spends ConnectCmdObjKey.page_url t mp = kept-Spends _ _ parse_as_string-Spends
connect_value-Spends ConnectCmdObjKey.object_encoding t mp = kept-Spends _ _ parse_as_number-Spends
connect_value-Spends ConnectCmdObjKey.unknown t mp = kept-Spends _ _ (λ rb h. skip_type-Ends t rb h)

module _ (iequals : List ℕ → List ℕ → Bool) where
  connect_loop-Ends :
      (fuel : ℕ) (parse_key : Bool) (key : ConnectCmdObjKey) (mp : ConnectCmd) (rb : ReadBuffer)
      → rb.bi ≤ rb.cout
      → unread_size rb < fuel
      → Ends 0 rb (connect_loop iequals fuel parse_key key mp rb)
  unfolding connect_loop
  connect_loop-Ends zero parse_key key mp rb h f = absurd (omega arith)
  connect_loop-Ends (suc fuel) parse_key key mp rb h f =
      Ends->>= _ _ rb 0 0 0 (omega arith) (gets-Spends is_finished rb h)
        λ finished rb0 e0. last (connect_loop-Ends fuel) finished rb0 e0
    where
      ended : (rb1 : ReadBuffer) → rb1.bi ≤ rb1.cout → Ends 0 rb1 ((skip_object_end >> pure mp) rb1)
      ended = Spends->>= _ _ 3 0 0 (omega arith) (skip-Spends 3) λ _. pure-Spends mp

      on :
          ((k : Bool) (w : ConnectCmdObjKey) (c : ConnectCmd) (r : ReadBuffer)
            → r.bi ≤ r.cout
            → unread_size r < fuel
            → Ends 0 r (connect_loop iequals fuel k w c r))
          → (k : Bool) (t : ℕ) (rb1 : ReadBuffer) → Ends {A = ℕ} 0 rb (ok t, rb1)
          → Ends 0 rb1 (
              (if k
                  then (parse_object_key >>= λ name.
                      connect_loop iequals fuel false (cmd_connect_is_key_valid iequals name) mp)
                  else (connect_value key t mp >>= λ mp'. connect_loop iequals fuel true key mp'))
                rb1)
      on ih true t rb1 e1 =
          Ends->>= _ _ rb1 1 0 0 (omega arith) (parse_object_key-Spends rb1 e1.2) λ name rb2 e2.
            ih false (cmd_connect_is_key_valid iequals name) mp rb2 e2.2 (omega arith)
      on ih false t rb1 e1 =
          Ends->>= _ _ rb1 1 0 0 (omega arith) (connect_value-Spends key t mp rb1 e1.2)
            λ mp' rb2 e2. ih true key mp' rb2 e2.2 (omega arith)

      last :
          ((k : Bool) (w : ConnectCmdObjKey) (c : ConnectCmd) (r : ReadBuffer)
            → r.bi ≤ r.cout
            → unread_size r < fuel
            → Ends 0 r (connect_loop iequals fuel k w c r))
          → (finished : Bool) (rb0 : ReadBuffer) → Ends {A = Bool} 0 rb (ok finished, rb0)
          → Ends 0 rb0 (
              (if finished
                  then pure mp
                  else (get_next_type true >>= λ t.
                      if t == 9
                      then (skip_object_end >> pure mp)
                      else (if parse_key
                          then (parse_object_key >>= λ name.
                              connect_loop iequals fuel false
                                (cmd_connect_is_key_valid iequals name)
                                mp)
                          else (connect_value key t mp >>= λ mp'.
                              connect_loop iequals fuel true key mp'))))
                rb0)
      last ih true rb0 e0 = pure-Spends mp rb0 e0.2
      last ih false rb0 e0 =
          Ends->>= _ _ rb0 0 0 0 (omega arith) (get_next_type-Spends true rb0 e0.2)
            λ t rb1 e1. pick ih t rb1 e1 (t == 9)
        where
          pick :
              ((k : Bool) (w : ConnectCmdObjKey) (c : ConnectCmd) (r : ReadBuffer)
                → r.bi ≤ r.cout
                → unread_size r < fuel
                → Ends 0 r (connect_loop iequals fuel k w c r))
              → (t : ℕ) (rb1 : ReadBuffer) → Ends {A = ℕ} 0 rb0 (ok t, rb1)
              → (b : Bool)
              → Ends 0 rb1 (
                  (if b
                      then (skip_object_end >> pure mp)
                      else (if parse_key
                          then (parse_object_key >>= λ name.
                              connect_loop iequals fuel false
                                (cmd_connect_is_key_valid iequals name)
                                mp)
                          else (connect_value key t mp >>= λ mp'.
                              connect_loop iequals fuel true key mp')))
                    rb1)
          pick ih t rb1 e1 true = ended rb1 e1.2
          pick ih t rb1 e1 false = on ih parse_key t rb1 (omega arith)

  -- The parse of a connect command ends on every buffer whose read position is not past its count: it
  -- returns a command or throws, whatever the keys and values of its command object are.
  pub connect_cmd-Ends : (rb : ReadBuffer) → rb.bi ≤ rb.cout → Ends 0 rb (connect_cmd iequals rb)
  unfolding connect_cmd ◌>>=◌
  connect_cmd-Ends = Spends->>= _ _ 1 0 0 (omega arith) (expect_name-Spends (codes "connect")) λ _.
      Spends->>= _ _ 1 0 0 (omega arith) parse_as_number-Spends λ id.
        Spends->>= _ _ 0 0 0 (omega arith)
          (throw_if-Spends (not (id == double_one)) bad_protocal_data (λ e. cc))
          λ _. Spends->>= _ _ 0 0 0 (omega arith) (get_next_type-Spends false) λ t.
            Spends->>= _ _ 0 0 0 (omega arith)
              (throw_if-Spends (not (t == 3)) bad_protocal_data (λ e. cc))
              λ _. Spends->>= _ _ 1 0 0 (omega arith) (skip-Spends 1) λ _ rb h.
                connect_loop-Ends (suc (unread_size rb)) true ConnectCmdObjKey.unknown _ rb h
                  (omega arith)
