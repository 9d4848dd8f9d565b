-- ===== src/Parser/Transaction/Keeps.antt =====
-- rtmpparser.cpp: what the parse of a message leaves alone.
use tvie_rtmp.Base.{
  ◌≡◌, refl, ◌∙◌, ℕ, zero, suc, Bool, true, false, Option, none, some, List, [], ◌∷◌, if◌then◌else◌,
  get_elem?, ◌==◌, Option-cases, Bool-cases, inl, inr,
}
use tvie_rtmp.Base.Int.{ℤ, pos, negsuc, eq_ℤ, leb_ℤ, ltb_ℤ}
use tvie_rtmp.Exception.{
  Result, ok, err, M, modify, then_do, ◌>>=◌, on, refocus, on_local, local_result,
}
use tvie_rtmp.ReadBuffer.{ReadBuffer, big, little, read_byte, read}
use tvie_rtmp.ReadBuffer.Snap.{
  Moved, Moved-trans, OnlyMoves, read_byte-OnlyMoves, read_bytes-OnlyMoves, read-OnlyMoves,
  peek-OnlyMoves,
}
use tvie_rtmp.Message.{RtmpMsgHeader, minus_one, set_chunk_size}
use tvie_rtmp.Parser.{
  RtmpParser, StreamContext, rd, parse_chunk_stream_id, parse_type_three, parse_fields,
  parse_extended, parse_msg_header_only, on_msg_header_parsed, uses_context,
}
use tvie_rtmp.Parser.Chunk.{
  append_bytes, open_msg, set_open_msg, keep_appended, append_open, push_open, pop_open,
  continue_msg, body_value, chunk_size_after, between, part_of, parse_partial, allocate,
  allocate_body, parse_body_with, parse_chunks, parse_new, next_msg, parse_msg_header,
}

-- What a parse leaves alone: all of the buffer but the read position, and what was saved.
pub record Kept (p q : RtmpParser) : Type 0 where
  pub moved : Moved p.rb q.rb
  pub contexts : q.saved_stream_contexts ≡ p.saved_stream_contexts
  pub msgs : q.saved_msgs_buffer ≡ p.saved_msgs_buffer

pub record Keeps {A : Type 0} (m : M RtmpParser A) : Type 0 where
  pub at : (p : RtmpParser) → Kept p (m p).1

Kept-refl : (p : RtmpParser) → Kept p p
Kept-refl p = record { moved = refl; contexts = refl; msgs = refl }

Kept-trans : (p q r : RtmpParser) → Kept p q → Kept q r → Kept p r
Kept-trans p q r h k = record {
  moved = Moved-trans p.rb q.rb r.rb h.moved k.moved;
  contexts = k.contexts ∙ h.contexts;
  msgs = k.msgs ∙ h.msgs;
}

still : {A : Type 0} {m : M RtmpParser A} → ((p : RtmpParser) → (m p).1 ≡ p) → Keeps m
still h = record { at = λ p. rw (h p) (Kept-refl p) }

>>=-Keeps :
    {A B : Type 0} {m : M RtmpParser A} {f : A → M RtmpParser B}
    → Keeps m
    → ((a : A) → Keeps (f a))
    → Keeps (m >>= f)
unfolding ◌>>=◌ then_do
>>=-Keeps {A = A} {m = m} {f = f} h k = record { at = λ p. go p (m p) (h.at p) }
  where
    go : (p : RtmpParser) (r : Result A × RtmpParser) → Kept p r.1 → Kept p (then_do f r).1
    go p (ok a, q) kept = Kept-trans p q (f a q).1 kept ((k a).at q)
    go p (err e, q) kept = kept

if-Keeps :
    {A : Type 0} {m n : M RtmpParser A} (b : Bool) → Keeps m → Keeps n → Keeps (if b then m else n)
if-Keeps true h k = h
if-Keeps false h k = k

rd-Keeps : {A : Type 0} (m : M ReadBuffer A) → OnlyMoves m → Keeps (rd m)
unfolding rd on refocus
rd-Keeps m h = record { at = λ p. record { moved = h p.rb; contexts = refl; msgs = refl } }

-- Changes of what is not kept.
modify-Keeps : (f : RtmpParser → RtmpParser) → ((p : RtmpParser) → Kept p (f p)) → Keeps (modify f)
modify-Keeps f h = record { at = h }

read-Keeps : (n : ℕ) → Keeps (rd (read 4 big (pos n)))
read-Keeps n = rd-Keeps _ (read-OnlyMoves 4 big (pos n))

byte-Keeps : Keeps (rd read_byte)
byte-Keeps = rd-Keeps _ read_byte-OnlyMoves

parse_chunk_stream_id-Keeps : (low : ℕ) → Keeps (parse_chunk_stream_id low)
unfolding parse_chunk_stream_id
parse_chunk_stream_id-Keeps low = if-Keeps (low == 0) (>>=-Keeps byte-Keeps λ b. still λ p. refl) (
    if-Keeps (low == 1)
      (>>=-Keeps (rd-Keeps _ (read-OnlyMoves 2 little (pos 2))) λ b. still λ p. refl)
      (still λ p. refl))

parse_type_three-Keeps :
    (mh : RtmpMsgHeader) (found : Option StreamContext) → Keeps (parse_type_three mh found)
unfolding parse_type_three
parse_type_three-Keeps mh none = still λ p. refl
parse_type_three-Keeps mh (some sc) =
    if-Keeps (eq_ℤ sc.prev_msg.extendted_timestamp minus_one) (still λ p. refl)
      (>>=-Keeps (rd-Keeps _ (peek-OnlyMoves 4 big)) λ b. still λ p. refl)

parse_fields-Keeps : (mh : RtmpMsgHeader) → Keeps (parse_fields mh)
unfolding parse_fields
parse_fields-Keeps mh =
    if-Keeps (mh.chunk_type == 0)
      (>>=-Keeps (read-Keeps 3) λ _. >>=-Keeps (read-Keeps 3) λ _.
        >>=-Keeps byte-Keeps
          λ _. >>=-Keeps (rd-Keeps _ (read-OnlyMoves 4 little (pos 4))) λ _. still λ p. refl)
      (if-Keeps (mh.chunk_type == 1)
        (>>=-Keeps (read-Keeps 3)
          λ _. >>=-Keeps (read-Keeps 3) λ _. >>=-Keeps byte-Keeps λ _. still λ p. refl)
        (if-Keeps (mh.chunk_type == 2) (>>=-Keeps (read-Keeps 3) λ _. still λ p. refl)
          (>>=-Keeps (still λ p. refl) λ found. parse_type_three-Keeps mh found)))

parse_extended-Keeps : (mh : RtmpMsgHeader) → Keeps (parse_extended mh)
unfolding parse_extended
parse_extended-Keeps mh =
    if-Keeps (eq_ℤ mh.timestamp (pos 0x00ffffff)) (>>=-Keeps (read-Keeps 4) λ _. still λ p. refl)
      (still λ p. refl)

parse_msg_header_only-Keeps : Keeps parse_msg_header_only
unfolding parse_msg_header_only
parse_msg_header_only-Keeps = >>=-Keeps byte-Keeps λ first. >>=-Keeps (still λ p. refl) λ _.
    >>=-Keeps (parse_chunk_stream_id-Keeps _)
      λ _. >>=-Keeps (parse_fields-Keeps _) λ mh. parse_extended-Keeps mh

on_msg_header_parsed-Keeps : (mh : RtmpMsgHeader) → Keeps (on_msg_header_parsed mh)
unfolding on_msg_header_parsed
on_msg_header_parsed-Keeps mh = record {
  at = λ p. elim (Bool-cases (uses_context mh)) [
    | inl e ↦ rw e (record { moved = refl; contexts = refl; msgs = refl })
    | inr e ↦ rw e (Kept-refl p)
  ];
}

open_msg-Keeps : (i : ℕ) → Keeps (open_msg i)
unfolding open_msg
open_msg-Keeps i = still λ p. elim (Option-cases (get_elem? p.open_msgs i)) [
  | inl e ↦ rw (e, open_msg) refl
  | inr (mh, e) ↦ rw (e, open_msg) refl
]

set_open_msg-Keeps : (i : ℕ) (mh : RtmpMsgHeader) → Keeps (set_open_msg i mh)
unfolding set_open_msg
set_open_msg-Keeps i mh = modify-Keeps _ λ p. record { moved = refl; contexts = refl; msgs = refl }

push_open-Keeps : (mh : RtmpMsgHeader) → Keeps (push_open mh)
unfolding push_open
push_open-Keeps mh = modify-Keeps _ λ p. record { moved = refl; contexts = refl; msgs = refl }

pop_open-Keeps : Keeps pop_open
unfolding pop_open
pop_open-Keeps = modify-Keeps _ λ p. record { moved = refl; contexts = refl; msgs = refl }

append_open-Keeps : (i : ℕ) (bs : List ℕ) → Keeps (append_open i bs)
unfolding append_open keep_appended
append_open-Keeps i bs = >>=-Keeps (open_msg-Keeps i) λ mh. kept (append_bytes bs mh)
  where
    kept : (o : Option RtmpMsgHeader) → Keeps (keep_appended i o)
    kept none = still λ p. refl
    kept (some mh) = set_open_msg-Keeps i mh

continue_msg-Keeps : (i : ℕ) (size : ℤ) → Keeps (continue_msg i size)
unfolding continue_msg
continue_msg-Keeps i size = >>=-Keeps (open_msg-Keeps i) λ _.
    >>=-Keeps (rd-Keeps _ (read_bytes-OnlyMoves _))
      λ bs. >>=-Keeps (append_open-Keeps i bs) λ _. still λ p. refl

chunk_size_after-Keeps : (mh : RtmpMsgHeader) (size : ℤ) → Keeps (chunk_size_after mh size)
unfolding chunk_size_after body_value on_local local_result
chunk_size_after-Keeps mh size =
    if-Keeps (mh.type_id == set_chunk_size) (value mh.body) (still λ p. refl)
  where
    value : (o : Option (List ℕ)) → Keeps (body_value o)
    value none = still λ p. refl
    value (some bs) = >>=-Keeps (still λ p. refl) λ v. still λ p. refl

module _ (loop : ℤ → M RtmpParser RtmpMsgHeader) (h : (size : ℤ) → Keeps (loop size)) where
  between-Keeps : (mh : RtmpMsgHeader) (size : ℤ) → Keeps (between loop mh size)
  unfolding between
  between-Keeps mh size = >>=-Keeps (on_msg_header_parsed-Keeps mh) λ mh'.
      >>=-Keeps (push_open-Keeps mh') λ _. >>=-Keeps (h size) λ another.
        >>=-Keeps (chunk_size_after-Keeps another size) λ _.
          >>=-Keeps (modify-Keeps _ λ p. record { moved = refl; contexts = refl; msgs = refl })
            λ _. still λ p. refl

  parse_partial-Keeps : (size : ℤ) → Keeps (parse_partial loop size)
  unfolding parse_partial part_of
  parse_partial-Keeps size =
      >>=-Keeps parse_msg_header_only-Keeps λ mh. >>=-Keeps (still λ p. refl) λ opened. part mh _
    where
      part : (mh : RtmpMsgHeader) (o : Option ℕ) → Keeps (part_of loop mh size o)
      part mh none = between-Keeps mh size
      part mh (some i) = continue_msg-Keeps i size

  parse_body_with-Keeps : (size : ℤ) → Keeps (parse_body_with loop size)
  unfolding parse_body_with allocate_body allocate
  parse_body_with-Keeps size = >>=-Keeps (open_msg-Keeps 0) λ mh.
      if-Keeps (leb_ℤ mh.length size)
        (>>=-Keeps (rd-Keeps _ (read_bytes-OnlyMoves mh.length))
          λ _. >>=-Keeps pop_open-Keeps λ _. still λ p. refl)
        (>>=-Keeps (room mh mh.body mh.length) λ _.
          >>=-Keeps (rd-Keeps _ (read_bytes-OnlyMoves size))
            λ bs. >>=-Keeps (append_open-Keeps 0 bs) λ _. >>=-Keeps (still λ p. refl) λ _. h size)
    where
      room : (mh : RtmpMsgHeader) (o : Option (List ℕ)) (n : ℤ) → Keeps (allocate mh o n)
      room mh (some bs) n = still λ p. refl
      room mh none (negsuc n) = still λ p. refl
      room mh none (pos n) = set_open_msg-Keeps 0 _

parse_chunks-Keeps : (fuel : ℕ) (size : ℤ) → Keeps (parse_chunks fuel size)
unfolding parse_chunks
parse_chunks-Keeps zero size = still λ p. refl
parse_chunks-Keeps (suc fuel) size = >>=-Keeps (open_msg-Keeps 0) λ mh.
    if-Keeps (ltb_ℤ (pos 0) mh.un_parsed_size)
      (>>=-Keeps
        (parse_partial-Keeps (parse_body_with (parse_chunks fuel))
          (parse_body_with-Keeps _ (parse_chunks-Keeps fuel)) size)
        λ size'. parse_chunks-Keeps fuel size')
      (>>=-Keeps pop_open-Keeps λ _. still λ p. refl)

pub parse_msg_header-Keeps : (size : ℤ) → Keeps (parse_msg_header size)
unfolding parse_msg_header next_msg parse_new
parse_msg_header-Keeps size = >>=-Keeps (still λ p. refl) next
  where
    next : (buffered : List RtmpMsgHeader) → Keeps (next_msg size buffered)
    next [] =
        >>=-Keeps (modify-Keeps _ λ p. record { moved = refl; contexts = refl; msgs = refl }) λ _.
          >>=-Keeps (still λ p. refl) λ fuel. >>=-Keeps parse_msg_header_only-Keeps λ mh.
            >>=-Keeps (on_msg_header_parsed-Keeps mh) λ mh'.
              >>=-Keeps (push_open-Keeps mh')
                λ _. parse_body_with-Keeps (parse_chunks fuel) (parse_chunks-Keeps fuel) size
    next (h ∷ rest) =
        >>=-Keeps (modify-Keeps _ λ p. record { moved = refl; contexts = refl; msgs = refl })
          λ _. still λ p. refl
