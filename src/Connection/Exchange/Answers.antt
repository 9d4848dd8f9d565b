-- ===== src/Connection/Exchange/Answers.antt =====
-- rtmpconnection.cpp, onReadCreateStream: the client's command, the actor, and the answer's bytes.
use tvie_rtmp.Base.{
  ℕ, zero, suc, ◌+◌, ◌-◌, ◌*◌, ◌^◌, ◌≤◌, ◌<◌, ◌≡◌, refl, sym, ap, subst, ◌∙◌, true, Bool-cases, inl,
  inr, List, [], ◌∷◌, ◌++◌, arith, leb, length, length-append,
}
use native.Mathlib.Nat.{pow-suc, mul-le-mul_right}
use tvie_rtmp.Base.Int.{pos}
use tvie_rtmp.Base.Text.{codes}
use tvie_rtmp.Exception.{ok, M, gets, ◌>>=◌, >>=-ok, on-ok, on_local, local_result, then_do}
use tvie_rtmp.WriteBuffer
use tvie_rtmp.WriteBuffer.{WriteBuffer, get_buffer}
use tvie_rtmp.WriteBuffer.Bytes.{holding, Writes, Writes->>, holding-empty, get_buffer-holding}
use tvie_rtmp.WriteBuffer.Growth.{Grows, Writes-Grows, power_sum}
use tvie_rtmp.Message.{RtmpMsgHeader, cmd_amf0}
use tvie_rtmp.Amf.Format.{
  Value, number, string, null, encode, write_string-Writes, write_number-Writes, write_null-Writes,
}
use tvie_rtmp.Parser.Header.{header_bytes}
use tvie_rtmp.Parser.Commands.{parse_create_stream_cmd}
use tvie_rtmp.Parser.Commands.Body.{Carries}
use tvie_rtmp.Parser.Commands.RoundTrip.{
  IsCommandObject, command, parse_create_stream_cmd_round_trip,
}
use tvie_rtmp.Connection.{Connection, Environment, on_actor, from_result}
use tvie_rtmp.Connection.Output.{
  leading_bit, int_to_double, write_stream_result, body_of, message_header, write_message,
  chunked_sent_msg, answer,
}
use tvie_rtmp.Connection.Output.Header.{stream_bytes, write_message-Writes}
use tvie_rtmp.Connection.Handshake.Exact.{CanSend, send_new-Grows}
use tvie_rtmp.Connection.Exchange.{agreed, on_read_create_stream}

-- The leading bit is one.
leading_bit_bounds :
    (e n : ℕ)
    → 0 < n
    → n < 2 ^ suc e
    → (2 ^ leading_bit e n ≤ n) × (n < 2 ^ suc (leading_bit e n)) × (leading_bit e n ≤ e)
unfolding leading_bit
leading_bit_bounds zero n positive small = (omega arith, omega arith, omega arith)
leading_bit_bounds (suc e) n positive small = elim (Bool-cases (leb (2 ^ suc e) n)) [
  | inl h ↦ rw h (ground arith, small, omega arith)
  | inr h ↦
      let (low, high, le) = leading_bit_bounds e n positive (ground arith) in
      rw h (low, high, omega arith)
]

-- The bits of a double are 64.
int_to_double_bound : (n : ℕ) → n < 2 ^ 32 → int_to_double (pos n) < 2 ^ 64
unfolding int_to_double
int_to_double_bound zero h = omega arith
int_to_double_bound (suc n) h =
    let e : ℕ = leading_bit 31 (suc n) in
    let (low, high, le) = leading_bit_bounds 31 (suc n) (omega arith) (omega arith) in
    let twice : 2 ^ suc e ≡ 2 ^ e * 2 = pow-suc 2 e in
    let total : e + (52 - e) ≡ 52 = omega arith in
    let ones : 2 ^ e * 2 ^ (52 - e) ≡ 1 * 2 ^ e * 2 ^ (52 - e) =
      let one : 2 ^ e ≡ 1 * 2 ^ e = omega arith in ap (λ x. x * 2 ^ (52 - e)) one in
    let unit : 2 ^ e * 2 ^ (52 - e) ≡ 1 * 2 ^ 52 =
      ones ∙ power_sum 1 e (52 - e) ∙ ap (λ k. 1 * 2 ^ k) total in
    let below : (suc n - 2 ^ e) * 2 ^ (52 - e) ≤ 2 ^ e * 2 ^ (52 - e) =
      mul-le-mul_right (2 ^ (52 - e)) (omega arith) in
    omega (arith, unit, below)

module _ {A : Type 0} where
  body_of-Writes :
      {m : M WriteBuffer (Unit {0})} {bs : List ℕ} (n : ℕ) (c : Connection A)
      → Writes m bs
      → c.chunk_size ≡ pos n
      → length bs + 10 ≤ n
      → body_of m c ≡ (ok bs, c)
  unfolding body_of on_local local_result WriteBuffer.create ◌>>=◌ then_do
  body_of-Writes {m} {bs} n c w size room =
      let k : ℕ = n - length bs in
      let ready : WriteBuffer.empty n ≡ holding [] (length bs + k) =
        holding-empty n ∙ ap (λ x. holding [] x) (omega arith) in
      let wrote : m (WriteBuffer.empty n) ≡ (ok tt, holding bs k) =
        ap m ready ∙ w.run [] k (omega arith) in
      rw (size, WriteBuffer.create) (rw (wrote, then_do) (rw (get_buffer-holding bs k) refl))

-- The bytes of an answer in one chunk.
abbrev pub answer_bytes : List ℕ → List ℕ
answer_bytes body = header_bytes 3 0 (length body) cmd_amf0 (stream_bytes 0) ++ body

-- The body of the answer to createStream.
abbrev pub stream_result : ℕ → ℕ → List ℕ
stream_result id index =
    encode (string (codes "_result"))
    ++ (encode (number id) ++ (encode null ++ encode (number (int_to_double (pos index)))))

length-stream_result : (id index : ℕ) → length (stream_result id index) ≡ 29
unfolding encode
length-stream_result id index = refl

stream_result-Writes :
    (id index : ℕ)
    → id < 2 ^ 64
    → index < 2 ^ 32
    → Writes (write_stream_result id index) (stream_result id index)
unfolding write_stream_result
stream_result-Writes id index hi hx =
    Writes->> _ _ (write_string-Writes (codes "_result") (omega arith)) (
      Writes->> _ _ (write_number-Writes id hi) (
        Writes->> _ _ write_null-Writes
          (write_number-Writes (int_to_double (pos index)) (int_to_double_bound index hx))))

module _ {A : Type 0} (env : Environment A) where
  -- A connection that can send an answer of `n` bytes in one chunk, where the client has set the chunk size.
  pub record CanAnswer (n size : ℕ) (c : Connection A) : Type 0 where
    pub can_send : CanSend env c
    pub size_of : c.chunk_size ≡ pos size
    pub body_room : n + 10 ≤ size
    pub one_chunk : n ≤ c.out_chunk_size
    pub room : 22 + n ≤ c.wb.size

  answer-sent :
      (m : M WriteBuffer (Unit {0})) (bs : List ℕ) (size : ℕ) (c : Connection A)
      → Writes m bs
      → length bs < 2 ^ 24
      → CanAnswer (length bs) size c
      → (wb : WriteBuffer) × (answer env 3 (pos 0) m c
          ≡ (ok tt, record c { wb = wb; sent = c.sent ++ (answer_bytes bs ∷ []) }))
  unfolding answer chunked_sent_msg
  answer-sent m bs size c w small can =
      let wm : M WriteBuffer (Unit {0}) =
        write_message c.out_chunk_size (message_header 3 (length bs) cmd_amf0 (pos 0)) bs in
      let writes : Writes wm (answer_bytes bs) =
        write_message-Writes c.out_chunk_size 3 cmd_amf0 0 bs (omega arith) (omega arith)
          (omega arith) small can.one_chunk in
      let g : Grows wm [] c.wb.size (answer_bytes bs) = Writes-Grows [] c.wb.size writes (
        omega (
          arith,
          can.room,
          length-append {0} (header_bytes 3 0 (length bs) cmd_amf0 (stream_bytes 0)) bs,
        )) in
      (
        holding (answer_bytes bs) g.room,
        >>=-ok (body_of m) _ c (body_of-Writes size c w can.size_of can.body_room)
            ∙ >>=-ok (gets (λ c. c.out_chunk_size)) _ c refl
            ∙ send_new-Grows env wm (answer_bytes bs) c can.can_send g,
      )

  -- A createStream command in the format of AMF0, with null or an object as command object, whose stream
  -- the actor accepts, on a connection that can send and has room for the answer: the actor is asked
  -- for the next stream once, the client is sent one message, the result with the command's transaction
  -- id and the stream's number, and the next stream has the next number.
  pub on_read_create_stream_answers :
      (mh : RtmpMsgHeader) (id size : ℕ) (obj : Value) (rest : List ℕ) (c : Connection A)
      (actor : A)
      → id < 2 ^ 64
      → IsCommandObject obj
      → Carries mh (command (codes "createStream") id (encode obj) ++ rest)
      → env.methods.on_create_stream c.stream_index c.actor ≡ (ok true, actor)
      → c.stream_index < 2 ^ 32
      → CanAnswer 29 size c
      → (wb : WriteBuffer) × (on_read_create_stream env mh c ≡ (
        ok tt,
        record c {
          actor = actor;
          wb = wb;
          sent = c.sent ++ (answer_bytes (stream_result id c.stream_index) ∷ []);
          stream_index = c.stream_index + 1;
        },
      ))
  unfolding on_read_create_stream agreed on_actor
  on_read_create_stream_answers mh id size obj rest c actor hi ho carries accepts hx can =
      let asked : Connection A = record c { actor = actor } in
      let can_still : CanAnswer 29 size asked = record {
        can_send = record { is_open = can.can_send.is_open; succeeds = can.can_send.succeeds };
        size_of = can.size_of;
        body_room = can.body_room;
        one_chunk = can.one_chunk;
        room = can.room;
      } in
      let n29 : length (stream_result id c.stream_index) ≡ 29 =
        length-stream_result id c.stream_index in
      let (wb, sent) =
        answer-sent (write_stream_result id c.stream_index) (stream_result id c.stream_index) size
          asked (stream_result-Writes id c.stream_index hi hx) (omega (arith, n29))
          (subst (λ n. CanAnswer n size asked) (sym n29) can_still) in
      let parsed : from_result (parse_create_stream_cmd mh) c
          ≡ (ok (record { transaction_id = id }), c) =
        ap (λ r. (r, c)) (parse_create_stream_cmd_round_trip mh id hi obj rest ho carries) in
      (
        wb,
        >>=-ok (from_result (parse_create_stream_cmd mh)) _ c parsed
            ∙ >>=-ok (gets (λ c. c.stream_index)) _ c refl
            ∙ >>=-ok (agreed (on_actor (env.methods.on_create_stream c.stream_index))) _ c (
                >>=-ok (on_actor (env.methods.on_create_stream c.stream_index)) _ c
                  (on-ok _ _ (env.methods.on_create_stream c.stream_index) c accepts))
            ∙ >>=-ok (answer env 3 (pos 0) (write_stream_result id c.stream_index)) _ asked sent,
      )
