-- ===== src/Parser/Transaction.antt =====
-- rtmpconnection.cpp, handleRead: a message that is not complete yet is parsed again from the start
-- when more bytes have come. What the parser must not have changed until then.
pub mod Keeps
use tvie_rtmp.Base.{
  ◌≡◌, refl, sym, ap, subst, ◌∙◌, ℕ, zero, suc, Bool, true, false, Option, none, some, List, [],
  ◌∷◌, ◌++◌, append_assoc, append-nil, if◌then◌else◌, get_elem?, ◌==◌, Option-cases, Bool-cases,
  arith, inl, inr,
}
use tvie_rtmp.Base.Int.{ℤ, pos, negsuc, eq_ℤ, leb_ℤ, ltb_ℤ}
use tvie_rtmp.Exception.{
  Thrown, no_enough_data, Result, ok, err, M, pure, throw, modify, then_do, caught, try_catch,
  ◌>>=◌, ◌>>◌, on, refocus, on_local, local_result,
}
use tvie_rtmp.ReadBuffer.{
  ReadBuffer, big, little, read_byte, read, snap_start, snap_stop, snap_clear,
}
use tvie_rtmp.ReadBuffer.Snap.{
  Moved, Moved-trans, OnlyMoves, read_byte-OnlyMoves, read_bytes-OnlyMoves, read-OnlyMoves,
  peek-OnlyMoves,
}
use tvie_rtmp.Message.{RtmpMsgHeader, minus_one, set_chunk_size}
use tvie_rtmp.Parser.{
  RtmpParser, StreamContext, push_all, save_context, restore_context, rd, parse_chunk_stream_id,
  parse_type_three, parse_fields, parse_extended, parse_msg_header_only, on_msg_header_parsed,
  uses_context,
}
use tvie_rtmp.Parser.Chunk.{
  append_bytes, open_msg, set_open_msg, keep_appended, append_open, push_open, pop_open,
  continue_msg, body_value, chunk_size_after, between, part_of, parse_partial, allocate,
  allocate_body, parse_body_with, parse_chunks, parse_new, next_msg, parse_msg_header,
}
use tvie_rtmp.Parser.Transaction.Keeps.{Kept, parse_msg_header-Keeps}

-- rb_.snapStop(); parser_.restoreContext(); and the exception goes no further up.
unfoldable pub take_back : RtmpParser → RtmpParser
take_back p = restore_context (record p { rb = snap_stop p.rb })

unfoldable pub give_up : Thrown → M RtmpParser RtmpMsgHeader
give_up no_enough_data = do modify take_back; throw no_enough_data
give_up e = throw e

-- One pass of the loop in handleRead, where nextMove parses a message.
unfoldable pub attempt : ℤ → M RtmpParser RtmpMsgHeader
attempt chunk_size = do
  rd snap_start
  modify save_context
  mh ← try_catch (parse_msg_header chunk_size) give_up
  modify (λ p. record p { rb = snap_clear p.rb })
  pure mh

push_all-append : {A : Type 0} (dst xs : List A) → push_all dst xs ≡ dst ++ xs
unfolding push_all
push_all-append dst [] = sym (append-nil dst)
push_all-append dst (x ∷ xs) = push_all-append (dst ++ (x ∷ [])) xs ∙ append_assoc dst (x ∷ []) xs

-- handleRead's copies are the lists themselves, whatever the parse did in between.
take_back-Kept :
    (p q : RtmpParser)
    → Kept (save_context (record p { rb = record p.rb { in_snap = true; snap_bi = p.rb.bi } })) q
    → ((take_back q).rb ≡ record p.rb { in_snap = false; snap_bi = p.rb.bi })
      × ((take_back q).stream_contexts ≡ p.stream_contexts)
      × ((take_back q).msgs_buffer ≡ p.msgs_buffer)
unfolding take_back restore_context save_context snap_stop
take_back-Kept p q k = (
  ap {A = ReadBuffer} {B = ReadBuffer} snap_stop k.moved,
  push_all-append [] _ ∙ k.contexts ∙ push_all-append [] _,
  push_all-append [] _ ∙ k.msgs ∙ push_all-append [] _,
)

-- What a failed attempt must leave.
abbrev pub IsUndone : RtmpParser → RtmpParser → Type 0
IsUndone p q =
    (q.rb ≡ record p.rb { snap_bi = p.rb.bi })
    × (q.stream_contexts ≡ p.stream_contexts)
    × (q.msgs_buffer ≡ p.msgs_buffer)

is_short : {A : Type 0} → Result A → Bool
is_short (err no_enough_data) = true
is_short r = false

contradiction : {A : Type 0} → false ≡ true → A
contradiction h = absurd (ground arith)

-- A failed attempt's result is told by how the parse ended.
undone :
    (p q : RtmpParser) (f : RtmpMsgHeader → M RtmpParser RtmpMsgHeader)
    (r : Result RtmpMsgHeader × RtmpParser)
    → p.rb.in_snap ≡ false
    → Kept (save_context (record p { rb = record p.rb { in_snap = true; snap_bi = p.rb.bi } })) r.1
    → ((mh : RtmpMsgHeader) (x : RtmpParser) → (f mh x).0 ≡ ok mh)
    → then_do f (caught give_up r) ≡ (err no_enough_data, q)
    → IsUndone p q
unfolding then_do caught give_up ◌>>=◌ is_short
undone p q f (ok mh, x) s k h e =
    contradiction (sym (ap is_short (h mh x)) ∙ ap (λ r. is_short r.0) e)
undone p q f (err no_enough_data, x) s k h e =
    let same : take_back x ≡ q = ap (λ r. r.1) e in
    let (rb, contexts, msgs) = take_back-Kept p x k in
    subst (IsUndone p) same (
      rb
          ∙ ap {A = Bool} {B = ReadBuffer} (λ b. record p.rb { in_snap = b; snap_bi = p.rb.bi })
              (sym s),
      contexts,
      msgs,
    )
undone p q f (err other, x) s k h e = contradiction (ap (λ r. is_short r.0) e)

-- However far the parse of a message came, through its own chunks and whole messages in between:
-- where it ends for lack of bytes, the buffer is as it was, but for the remembered position, and the
-- stream contexts and the buffered messages are those from before.
pub attempt-IsUndone :
    (chunk_size : ℤ) (p q : RtmpParser)
    → p.rb.in_snap ≡ false
    → attempt chunk_size p ≡ (err no_enough_data, q)
    → IsUndone p q
unfolding attempt rd on refocus snap_start ◌>>=◌ then_do try_catch
attempt-IsUndone chunk_size p q s e =
    undone p q finish (parse_msg_header chunk_size started) s
      ((parse_msg_header-Keeps chunk_size).at started) (λ mh x. refl) (sym begun ∙ e)
  where
    started : RtmpParser
    started = save_context (record p { rb = record p.rb { in_snap = true; snap_bi = p.rb.bi } })

    finish : RtmpMsgHeader → M RtmpParser RtmpMsgHeader
    finish mh = do modify (λ x. record x { rb = snap_clear x.rb }); pure mh

    begun :
        attempt chunk_size p ≡ then_do finish (caught give_up (parse_msg_header chunk_size started))
    begun = rw (s, snap_start) refl
