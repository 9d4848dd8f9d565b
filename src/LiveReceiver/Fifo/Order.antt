-- ===== src/LiveReceiver/Fifo/Order.antt =====
-- livereceiveractor.cpp: any interleaving of the two threads' steps is a run of the queue.
use tvie_rtmp.Base.{
  ℕ, ◌%◌, ◌^◌, ◌≡◌, refl, sym, ap, ◌∙◌, Bool, true, false, List, [], ◌∷◌, ◌++◌, append-nil,
  append_assoc, arith, length, take, drop, take-append-drop, take_all, some,
}
use tvie_rtmp.Base.Int.{pattern32}
use tvie_rtmp.Exception.{ok, ◌>>=◌, >>=-ok}
use tvie_rtmp.ReadBuffer.View.{unread}
use native.Mathlib.Nat.{mod-eq_of_lt}
use tvie_rtmp.Message.{RtmpMsgHeader}
use tvie_rtmp.Connection.Output.{pattern64}
use tvie_rtmp.LiveReceiver.StreamSetup.{
  StreamSetupInfo, write_data, set_end_of_file, Fed, feed_round,
}
use tvie_rtmp.LiveReceiver.Tags.{tag, IsOpen, write_tag-Appended}
use tvie_rtmp.LiveReceiver.Fifo.{
  Queue, Action, write, finish, feed, perform, perform_all, tag_of, no_bytes, answer_from, answers,
  after, all_answers, after_all, Represents, IsWhole, CanPerform, CanPerformAll, bytes_of, tags_of,
}
use tvie_rtmp.LiveReceiver.Fifo.Round.{feed_round-Represents}

tag_of_whole :
    (msg : RtmpMsgHeader) (content : List ℕ)
    → msg.body ≡ some content
    → tag_of msg ≡ tag msg.type_id (pattern64 msg.timestamp) content
tag_of_whole msg content e = rw e

-- writeData of a whole message puts its tag at the end of the queue.
pub write_data-Represents :
    (msg : RtmpMsgHeader) (i : StreamSetupInfo) (q : Queue)
    → IsWhole msg
    → Represents i q
    → (i' : StreamSetupInfo) × (write_data msg i ≡ (ok tt, i'))
      × Represents i' (after (write msg) q)
unfolding write_data
write_data-Represents msg i q w p =
    let body = w.has_body in
    let small : length w.content % 2 ^ 32 ≡ length w.content =
      mod-eq_of_lt (omega (arith, w.fits.1)) in
    let size : pattern32 msg.length ≡ length w.content = ap pattern32 w.has_length ∙ small in
    let (i', e, a) =
      write_tag-Appended msg.type_id msg.timestamp w.content i w.has_type p.is_open w.fits in
    (
      i',
      rw (body, size, write_data) e,
      record {
        is_open = a.stays;
        same =
            a.bytes
            ∙ ap (λ l. l ++ tag msg.type_id (pattern64 msg.timestamp) w.content) p.same
            ∙ ap (λ l. q.bytes ++ l) (sym (tag_of_whole msg w.content body));
        ended = ap (λ i. i.end_of_file) a.rest ∙ p.ended;
        failed = ap (λ i. i.error) a.rest ∙ p.failed;
      },
    )

perform-Represents :
    (a : Action) (i : StreamSetupInfo) (q : Queue)
    → CanPerform a
    → Represents i q
    → (i' : StreamSetupInfo) × (perform a i ≡ (ok (answers a q), i')) × Represents i' (after a q)
unfolding perform set_end_of_file ◌>>=◌
perform-Represents (write msg) i q c p =
    let (i', e, p') = write_data-Represents msg i q c p in (i', >>=-ok (write_data msg) _ i e, p')
perform-Represents finish i q c p = (
  record i { end_of_file = true },
  refl,
  record {
    is_open = record {
      valid = p.is_open.valid;
      no_snap = p.is_open.no_snap;
      has_room = p.is_open.has_room;
      doublings = p.is_open.doublings;
      sized = p.is_open.sized;
    };
    same = p.same;
    ended = refl;
    failed = p.failed;
  },
)
perform-Represents (feed n) i q c p =
    let (i', e, p') = feed_round-Represents n i q p in (i', >>=-ok (feed_round n) _ i e, p')

-- Whatever steps the two threads take, in whatever order, the stream answers as the queue does and
-- stands for it afterwards, if it did so before and the messages are whole: each has its body with the
-- length that its header says, a type of five bits, and a body shorter than 2 ^ 32 - 11 that with the
-- tag's eleven bytes does not end one byte behind a doubling of 32.
pub perform_all-Represents :
    (actions : List Action) (i : StreamSetupInfo) (q : Queue)
    → CanPerformAll actions
    → Represents i q
    → (i' : StreamSetupInfo) × (perform_all actions i ≡ (ok (all_answers actions q), i'))
      × Represents i' (after_all actions q)
unfolding perform_all
perform_all-Represents [] i q c p = (i, refl, p)
perform_all-Represents (a ∷ rest) i q (c, cs) p =
    let (i', e, p') = perform-Represents a i q c p in
    let (i'', e', p'') = perform_all-Represents rest i' (after a q) cs p' in
    (i'', >>=-ok (perform a) _ i e ∙ >>=-ok (perform_all rest) _ i' e', p'')

no_bytes-bytes_of :
    (failed ended : Bool) (fs : List Fed) (bytes : List ℕ)
    → bytes_of (no_bytes (record { bytes = bytes; ended = ended; failed = failed }) ∷ fs)
      ≡ bytes_of fs
no_bytes-bytes_of true ended fs bytes = refl
no_bytes-bytes_of false true fs bytes = refl
no_bytes-bytes_of false false fs bytes = refl

take-nil : (n : ℕ) (bs : List ℕ) → bs ≡ [] → take n bs ≡ []
take-nil n bs e = take_all n bs (omega (arith, ap (λ (l : List ℕ). length l) e)) ∙ e

answer_from-bytes_of :
    (n : ℕ) (q : Queue) (bs : List ℕ) (fs : List Fed)
    → bytes_of (answer_from n q bs ∷ fs) ≡ take n bs ++ bytes_of fs
answer_from-bytes_of n q [] fs =
    no_bytes-bytes_of q.failed q.ended fs q.bytes
    ∙ ap (λ l. l ++ bytes_of fs) (sym (take-nil n [] refl))
answer_from-bytes_of n q (b ∷ bs) fs = refl

-- No byte of the queue is lost, doubled or moved.
all_answers-bytes_of :
    (actions : List Action) (q : Queue)
    → bytes_of (all_answers actions q) ++ (after_all actions q).bytes ≡ q.bytes ++ tags_of actions
all_answers-bytes_of [] q = sym (append-nil q.bytes)
all_answers-bytes_of (write msg ∷ rest) q =
    all_answers-bytes_of rest (after (write msg) q)
    ∙ append_assoc q.bytes (tag_of msg) (tags_of rest)
all_answers-bytes_of (finish ∷ rest) q = all_answers-bytes_of rest (after finish q)
all_answers-bytes_of (feed n ∷ rest) q =
    let later : List ℕ = (after_all rest (after (feed n) q)).bytes in
    let gs : List Fed = all_answers rest (after (feed n) q) in
    ap (λ l. l ++ later) (answer_from-bytes_of n q q.bytes gs)
    ∙ append_assoc (take n q.bytes) (bytes_of gs) later
    ∙ ap (λ l. take n q.bytes ++ l) (all_answers-bytes_of rest (after (feed n) q))
    ∙ sym (append_assoc (take n q.bytes) (drop n q.bytes) (tags_of rest))
    ∙ ap (λ l. l ++ tags_of rest) (take-append-drop n q.bytes)

-- Whatever whole messages are written into an open stream, and however its reader's calls lie
-- between them: what the reader has got, followed by what it can still read, is what was there
-- before, followed by the messages' tags in their order. A whole message is one as in
-- perform_all-Represents, with its condition on the length of the body.
pub perform_all_keeps_order :
    (actions : List Action) (i : StreamSetupInfo)
    → CanPerformAll actions
    → IsOpen i
    → (fs : List Fed) × (i' : StreamSetupInfo) × (perform_all actions i ≡ (ok fs, i'))
      × IsOpen i'
      × (bytes_of fs ++ unread i'.rb ≡ unread i.rb ++ tags_of actions)
perform_all_keeps_order actions i c o =
    let q : Queue = record { bytes = unread i.rb; ended = i.end_of_file; failed = i.error } in
    let (i', e, p) =
      perform_all-Represents actions i q c
        (record { is_open = o; same = refl; ended = refl; failed = refl }) in
    (
      all_answers actions q,
      i',
      e,
      p.is_open,
      ap (λ l. bytes_of (all_answers actions q) ++ l) p.same ∙ all_answers-bytes_of actions q,
    )
