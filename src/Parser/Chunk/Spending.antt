-- ===== src/Parser/Chunk/Spending.antt =====
-- rtmpparser.cpp: how many bytes the steps of the chunk parser take at least.
use tvie_rtmp.Base.{
  ℕ, suc, ◌+◌, ◌≤◌, ◌<◌, ◌≡◌, ◌≢◌, refl, Bool, true, false, Option, none, some, List, arith,
  if◌then◌else◌, get_elem?, ◌==◌, Option-cases, Bool-cases, inl, inr,
}
use tvie_rtmp.Base.Int.{ℤ, pos, negsuc, eq_ℤ}
use tvie_rtmp.Exception.{
  Thrown, bad_protocal_data, fault, hang, Result, ok, err, M, pure, throw, throw_if, gets, modify,
  then_do, ◌>>=◌, on, refocus,
}
use tvie_rtmp.ReadBuffer.{ReadBuffer, big, little, unread_size, read_byte, read_bytes, read}
use tvie_rtmp.Amf.Ends.{Ends, Spends, read_byte-Spends, read-Spends, read_bytes-Spends, peek-Spends}
use tvie_rtmp.Message.{RtmpMsgHeader, minus_one}
use tvie_rtmp.Parser.{
  RtmpParser, StreamContext, rd, parse_chunk_stream_id, parse_type_three, parse_fields,
  parse_extended, parse_msg_header_only, on_msg_header_parsed, uses_context,
}
use tvie_rtmp.Parser.Chunk.{
  append_bytes, open_msg, set_open_msg, keep_appended, append_open, push_open, pop_open,
  continue_msg,
}

-- How a call of the parser ended, seen at its buffer.
abbrev pub EndsOn : {A : Type 0} → ℕ → RtmpParser → Result A × RtmpParser → Type 0
EndsOn d p (r, q) = Ends d p.rb (r, q.rb)

-- With fewer than `b` bytes unread the call ends, and takes `d` of them at least.
pub record Lasts {A : Type 0} (b d : ℕ) (m : M RtmpParser A) : Type 0 where
  pub at : (p : RtmpParser) → p.rb.bi ≤ p.rb.cout → unread_size p.rb < b → EndsOn d p (m p)

after :
    {A B : Type 0} (b c d k e : ℕ) (m : M RtmpParser A) (f : A → M RtmpParser B)
    → b ≤ e + c
    → k ≤ c + d
    → Lasts b c m
    → ((a : A) → Lasts e d (f a))
    → Lasts b k (m >>= f)
unfolding ◌>>=◌ then_do
after {A} {B} b c d k e m f le le' h l = record { at = λ p v u. go p u (m p) (h.at p v u) }
  where
    further :
        (p q : RtmpParser) (r : Result B × RtmpParser)
        → (q.rb.cout ≡ p.rb.cout)
        → (p.rb.bi + c ≤ q.rb.bi)
        → EndsOn d q r
        → EndsOn k p r
    further p q (ok x, s) same moved e = omega arith
    further p q (err x, s) same moved e = e

    go :
        (p : RtmpParser)
        → unread_size p.rb < b
        → (r : Result A × RtmpParser) → EndsOn c p r
        → EndsOn k p (then_do f r)
    go p u (ok a, q) e = further p q (f a q) e.0 e.1 ((l a).at q e.2 (omega arith))
    go p u (err x, q) e = e

module _ {A B : Type 0} {b : ℕ} {m : M RtmpParser A} {f : A → M RtmpParser B} where
  pub then_any : Lasts b 0 m → ((a : A) → Lasts b 0 (f a)) → Lasts b 0 (m >>= f)
  then_any = after b 0 0 0 b m f (omega arith) (omega arith)

  pub then_less : Lasts (suc b) 1 m → ((a : A) → Lasts b 0 (f a)) → Lasts (suc b) 1 (m >>= f)
  then_less = after (suc b) 1 0 1 b m f (omega arith) (omega arith)

pub if-Lasts :
    {A : Type 0} {b d : ℕ} {m n : M RtmpParser A} (t : Bool)
    → Lasts b d m
    → Lasts b d n
    → Lasts b d (if t then m else n)
if-Lasts true h k = h
if-Lasts false h k = k

Ends-less :
    {A : Type 0} (rb : ReadBuffer) (c d : ℕ)
    → d ≤ c
    → (r : Result A × ReadBuffer) → Ends c rb r
    → Ends d rb r
Ends-less rb c d le (ok a, q) e = omega arith
Ends-less rb c d le (err x, q) e = e

pub spent : {A : Type 0} {b : ℕ} {m : M RtmpParser A} → Lasts b 1 m → Lasts b 0 m
spent {m = m} h = record {
  at = λ p v u. Ends-less p.rb 1 0 (omega arith) ((m p).0, (m p).1.rb) (h.at p v u);
}

pub fewer : {A : Type 0} {b d : ℕ} {m : M RtmpParser A} → Lasts (suc b) d m → Lasts b d m
fewer h = record { at = λ p v u. h.at p v (omega arith) }

rd-Lasts :
    {A : Type 0} {b : ℕ} (c d : ℕ) (m : M ReadBuffer A) → d ≤ c → Spends c m → Lasts b d (rd m)
unfolding rd on refocus
rd-Lasts {A} c d m le h = record { at = λ p v u. Ends-less p.rb c d le (m p.rb) (h p.rb v) }

pub pure-Lasts : {A : Type 0} {b : ℕ} (a : A) → Lasts b 0 (pure a)
pure-Lasts a = record { at = λ p v u. omega arith }

pub gets-Lasts : {A : Type 0} {b : ℕ} (g : RtmpParser → A) → Lasts b 0 (gets g)
gets-Lasts g = record { at = λ p v u. omega arith }

pub throw-Lasts : {A : Type 0} {b : ℕ} (e : Thrown) → e ≢ hang → Lasts {A = A} b 0 (throw e)
throw-Lasts e ne = record { at = λ p v u. ne }

pub throw_if-Lasts : {b : ℕ} (t : Bool) (e : Thrown) → e ≢ hang → Lasts b 0 (throw_if t e)
throw_if-Lasts true e ne = record { at = λ p v u. ne }
throw_if-Lasts false e ne = record { at = λ p v u. omega arith }

-- Changes of anything but the buffer.
pub modify-Lasts :
    {b : ℕ} (f : RtmpParser → RtmpParser)
    → ((p : RtmpParser) → (f p).rb ≡ p.rb)
    → Lasts b 0 (modify f)
modify-Lasts f h = record { at = λ p v u. rw (h p) (omega arith, omega arith, v) }

module _ {b : ℕ} where
  number-Lasts : Lasts b 0 (rd (read 4 big (pos 3)))
  number-Lasts = rd-Lasts 3 0 _ (omega arith) (read-Spends 4 big 3)

  byte-Lasts : Lasts b 0 (rd read_byte)
  byte-Lasts = rd-Lasts 1 0 _ (omega arith) read_byte-Spends

  parse_chunk_stream_id-Lasts : (low : ℕ) → Lasts b 0 (parse_chunk_stream_id low)
  unfolding parse_chunk_stream_id
  parse_chunk_stream_id-Lasts low = if-Lasts (low == 0) (then_any byte-Lasts λ x. pure-Lasts _) (
      if-Lasts (low == 1)
        (then_any (rd-Lasts 2 0 _ (omega arith) (read-Spends 2 little 2)) λ x. pure-Lasts _)
        (pure-Lasts low))

  parse_type_three-Lasts :
      (mh : RtmpMsgHeader) (found : Option StreamContext) → Lasts b 0 (parse_type_three mh found)
  unfolding parse_type_three
  parse_type_three-Lasts mh none = pure-Lasts mh
  parse_type_three-Lasts mh (some sc) =
      if-Lasts (eq_ℤ sc.prev_msg.extendted_timestamp minus_one) (pure-Lasts mh)
        (then_any (rd-Lasts 0 0 _ (omega arith) (peek-Spends 4 big)) λ x. pure-Lasts _)

  parse_fields-Lasts : (mh : RtmpMsgHeader) → Lasts b 0 (parse_fields mh)
  unfolding parse_fields
  parse_fields-Lasts mh =
      if-Lasts (mh.chunk_type == 0)
        (then_any number-Lasts λ _. then_any number-Lasts λ _.
          then_any byte-Lasts
            λ _. then_any (rd-Lasts 4 0 _ (omega arith) (read-Spends 4 little 4)) λ _. pure-Lasts _)
        (if-Lasts (mh.chunk_type == 1)
          (then_any number-Lasts
            λ _. then_any number-Lasts λ _. then_any byte-Lasts λ _. pure-Lasts _)
          (if-Lasts (mh.chunk_type == 2) (then_any number-Lasts λ _. pure-Lasts _)
            (then_any (gets-Lasts _) λ found. parse_type_three-Lasts mh found)))

  parse_extended-Lasts : (mh : RtmpMsgHeader) → Lasts b 0 (parse_extended mh)
  unfolding parse_extended
  parse_extended-Lasts mh =
      if-Lasts (eq_ℤ mh.timestamp (pos 0x00ffffff))
        (then_any (rd-Lasts 4 0 _ (omega arith) (read-Spends 4 big 4)) λ _. pure-Lasts _)
        (pure-Lasts mh)

  pub parse_msg_header_only-Lasts : Lasts (suc b) 1 parse_msg_header_only
  unfolding parse_msg_header_only
  parse_msg_header_only-Lasts = then_less (rd-Lasts 1 1 _ (omega arith) read_byte-Spends) λ first.
      then_any (throw_if-Lasts _ bad_protocal_data (λ e. cc)) λ _.
        then_any (parse_chunk_stream_id-Lasts _)
          λ _. then_any (parse_fields-Lasts _) λ mh. parse_extended-Lasts mh

  pub on_msg_header_parsed-Lasts : (mh : RtmpMsgHeader) → Lasts b 0 (on_msg_header_parsed mh)
  unfolding on_msg_header_parsed
  on_msg_header_parsed-Lasts mh = record {
    at = λ p v u. elim (Bool-cases (uses_context mh)) [
      | inl e ↦ rw e (omega arith)
      | inr e ↦ rw e (omega arith)
    ];
  }

  pub open_msg-Lasts : (i : ℕ) → Lasts b 0 (open_msg i)
  unfolding open_msg
  open_msg-Lasts i = record {
    at = λ p v u. elim (Option-cases (get_elem? p.open_msgs i)) [
      | inl e ↦ rw (e, open_msg) (λ q. cc)
      | inr (mh, e) ↦ rw (e, open_msg) (omega arith)
    ];
  }

  pub set_open_msg-Lasts : (i : ℕ) (mh : RtmpMsgHeader) → Lasts b 0 (set_open_msg i mh)
  unfolding set_open_msg
  set_open_msg-Lasts i mh = modify-Lasts _ λ p. refl

  pub push_open-Lasts : (mh : RtmpMsgHeader) → Lasts b 0 (push_open mh)
  unfolding push_open
  push_open-Lasts mh = modify-Lasts _ λ p. refl

  pub pop_open-Lasts : Lasts b 0 pop_open
  unfolding pop_open
  pop_open-Lasts = modify-Lasts _ λ p. refl

  pub append_open-Lasts : (i : ℕ) (bs : List ℕ) → Lasts b 0 (append_open i bs)
  unfolding append_open keep_appended
  append_open-Lasts i bs = then_any (open_msg-Lasts i) λ mh. kept (append_bytes bs mh)
    where
      kept : (o : Option RtmpMsgHeader) → Lasts b 0 (keep_appended i o)
      kept none = throw-Lasts fault (λ e. cc)
      kept (some mh) = set_open_msg-Lasts i mh

  pub read_bytes-Lasts : (n : ℤ) → Lasts b 0 (rd (read_bytes n))
  unfolding read_bytes
  read_bytes-Lasts (pos n) = rd-Lasts n 0 _ (omega arith) (read_bytes-Spends n)
  read_bytes-Lasts (negsuc n) = rd-Lasts 0 0 _ (omega arith) refused
    where
      refused : Spends 0 (read_bytes (negsuc n))
      refused rb v = λ e. cc

  pub continue_msg-Lasts : (i : ℕ) (size : ℤ) → Lasts b 0 (continue_msg i size)
  unfolding continue_msg
  continue_msg-Lasts i size = then_any (open_msg-Lasts i) λ _.
      then_any (read_bytes-Lasts _) λ bs. then_any (append_open-Lasts i bs) λ _. pure-Lasts size
