-- ===== src/LiveReceiver/Fifo.antt =====
-- livereceiveractor.cpp, writeData, setEndOfFile and feedData: the two threads' steps on a stream, and
-- the queue of bytes that it stands for.
pub mod Round
pub mod Order
use tvie_rtmp.Base.{
  ℕ, zero, suc, ◌+◌, ◌-◌, ◌%◌, ◌^◌, ◌≤◌, ◌<◌, ◌≡◌, refl, sym, ap, subst, ◌∙◌, ◌⊎◌, inl, inr, Bool,
  true, false, Bool-cases, List, [], ◌∷◌, ◌++◌, append-nil, append_assoc, arith, ltb, lt→ltb,
  ltb→lt, le→ltb, ◌==◌, if◌then◌else◌, length, take, drop, length-take, length-drop, length-append,
  take-append-drop, not, take-drop-take, take_all, drop_all, none, some,
}
use tvie_rtmp.Base.Int.{ℤ, pos, pattern32}
use tvie_rtmp.Exception.{ok, M, pure, gets, modify, ◌>>=◌, ◌>>◌, >>=-ok, then_do, on, on-ok}
use tvie_rtmp.ReadBuffer.{ReadBuffer, unread_size, advance, copy_out, reset, skip}
use tvie_rtmp.ReadBuffer.View.{IsValid, unread, length-unread, unread-advance, advance-IsValid}
use native.Mathlib.Nat.{mod-eq_of_lt}
use tvie_rtmp.Message.{RtmpMsgHeader, minus_one}
use tvie_rtmp.Connection.Output.{pattern64}
use tvie_rtmp.LiveReceiver.StreamSetup.{
  StreamSetupInfo, on_read, write_tag, write_data, set_end_of_file, Fed, waits, returns,
  feed_nothing, feed_all, feed_some, feed_round,
}
use tvie_rtmp.LiveReceiver.Tags.{tag, FitsTag, IsOpen, Appended, write_tag-Appended}

-- The queue, and whether its writer has ended or failed.
pub record Queue : Type 0 where
  pub bytes : List ℕ
  pub ended : Bool
  pub failed : Bool

-- A step of one of the threads: a message is written, the input ends, a reader asks for up to so many
-- bytes.
pub data Action : Type 0 where
  write : RtmpMsgHeader → Action
  finish : Action
  feed : ℕ → Action

unfoldable pub perform : Action → M StreamSetupInfo (List Fed)
perform (write msg) = write_data msg >> pure []
perform finish = set_end_of_file >> pure []
perform (feed n) = feed_round n >>= λ f. pure (f ∷ [])

unfoldable pub perform_all : List Action → M StreamSetupInfo (List Fed)
perform_all [] = pure []
perform_all (a ∷ rest) = do fs ← perform a; gs ← perform_all rest; pure (fs ++ gs)

-- The tag of a message that is there as a whole.
abbrev pub tag_of : RtmpMsgHeader → List ℕ
tag_of msg = elim msg.body [
  | none ↦ []
  | some content ↦ tag msg.type_id (pattern64 msg.timestamp) content
]

abbrev pub no_bytes : Queue → Fed
no_bytes q =
    if q.failed then returns minus_one [] else (if q.ended then returns (pos 0) [] else waits)

abbrev pub answer_from : ℕ → Queue → List ℕ → Fed
answer_from n q [] = no_bytes q
answer_from n q (b ∷ bs) = returns (pos (length (take n (b ∷ bs)))) (take n (b ∷ bs))

-- What a step answers and does to the queue.
abbrev pub answers : Action → Queue → List Fed
answers (write msg) q = []
answers finish q = []
answers (feed n) q = answer_from n q q.bytes ∷ []

abbrev pub after : Action → Queue → Queue
after (write msg) q = record q { bytes = q.bytes ++ tag_of msg }
after finish q = record q { ended = true }
after (feed n) q = record q { bytes = drop n q.bytes }

abbrev pub all_answers : List Action → Queue → List Fed
all_answers [] q = []
all_answers (a ∷ rest) q = answers a q ++ all_answers rest (after a q)

abbrev pub after_all : List Action → Queue → Queue
after_all [] q = q
after_all (a ∷ rest) q = after_all rest (after a q)

-- The stream stands for the queue.
pub record Represents (i : StreamSetupInfo) (q : Queue) : Type 0 where
  pub is_open : IsOpen i
  pub same : unread i.rb ≡ q.bytes
  pub ended : i.end_of_file ≡ q.ended
  pub failed : i.error ≡ q.failed

-- A message that can be written: it has its body with the length that its header says, a type of five
-- bits, and a body shorter than 2 ^ 32 - 11 that with the tag's eleven bytes does not end one byte behind a
-- doubling of 32 (FitsTag), where writeBytes would leave its buffer.
pub record IsWhole (msg : RtmpMsgHeader) : Type 0 where
  pub content : List ℕ
  pub has_body : msg.body ≡ some content
  pub has_length : msg.length ≡ pos (length content)
  pub has_type : msg.type_id < 32
  pub fits : FitsTag 32 content

abbrev pub CanPerform : Action → Type 0
CanPerform (write msg) = IsWhole msg
CanPerform finish = Unit
CanPerform (feed n) = Unit

abbrev pub CanPerformAll : List Action → Type 0
CanPerformAll [] = Unit
CanPerformAll (a ∷ rest) = CanPerform a × CanPerformAll rest

abbrev pub bytes_of : List Fed → List ℕ
bytes_of [] = []
bytes_of (waits ∷ fs) = bytes_of fs
bytes_of (returns n d ∷ fs) = d ++ bytes_of fs

abbrev pub tags_of : List Action → List ℕ
tags_of [] = []
tags_of (write msg ∷ rest) = tag_of msg ++ tags_of rest
tags_of (finish ∷ rest) = tags_of rest
tags_of (feed n ∷ rest) = tags_of rest
