-- ===== src/LiveReceiver/Fifo/Round.antt =====
-- livereceiveractor.cpp, feedData: a round of it is a step of the queue.
use tvie_rtmp.Base.{
  ℕ, zero, suc, ◌+◌, ◌≤◌, ◌<◌, ◌≡◌, refl, sym, ap, subst, ◌∙◌, ◌⊎◌, inl, inr, true, false,
  Bool-cases, List, [], ◌∷◌, arith, ltb, lt→ltb, ltb→lt, le→ltb, ◌==◌, if◌then◌else◌, length, take,
  drop, length-take, take-drop-take, take_all, drop_all,
}
use tvie_rtmp.Base.Int.{pos}
use tvie_rtmp.Exception.{ok, modify, ◌>>=◌, >>=-ok, then_do, on, on-ok}
use tvie_rtmp.ReadBuffer.{ReadBuffer, unread_size, advance, copy_out, reset, skip}
use tvie_rtmp.ReadBuffer.View.{IsValid, unread, length-unread, unread-advance, advance-IsValid}
use tvie_rtmp.Message.{minus_one}
use tvie_rtmp.LiveReceiver.StreamSetup.{
  StreamSetupInfo, on_read, waits, returns, feed_nothing, feed_all, feed_some, feed_round,
}
use tvie_rtmp.LiveReceiver.Tags.{IsOpen}
use tvie_rtmp.LiveReceiver.Fifo.{Queue, feed, answer_from, after, Represents}

copy_out-unread :
    (n : ℕ) (rb : ReadBuffer)
    → IsValid rb
    → n ≤ unread_size rb
    → copy_out n rb ≡ (ok (take n (unread rb)), rb)
unfolding copy_out
copy_out-unread n rb v h =
    rw (le→ltb (length rb.buffer) (rb.bi + n) (omega arith))
      (ap (λ l. (ok l, rb)) (sym (take-drop-take n rb.bi rb.cout rb.buffer (omega arith))))

skip-unread : (n : ℕ) (rb : ReadBuffer) → n ≤ unread_size rb → skip n rb ≡ (ok tt, advance n rb)
unfolding skip
skip-unread n rb h = rw (le→ltb (unread_size rb) n h)

module _ (i : StreamSetupInfo) (n : ℕ) (o : IsOpen i) where
  feed_some-unread :
      n ≤ unread_size i.rb
      → feed_some n i
        ≡ (ok (returns (pos n) (take n (unread i.rb))), record i { rb = advance n i.rb })
  unfolding feed_some on_read
  feed_some-unread h =
      >>=-ok (on (λ i. i.rb) (λ r i. record i { rb = r }) (copy_out n)) _ i (
        on-ok (λ i. i.rb) (λ r i. record i { rb = r }) (copy_out n) i
          (copy_out-unread n i.rb o.valid h))
      ∙ >>=-ok (on (λ i. i.rb) (λ r i. record i { rb = r }) (skip n)) _ i
          (on-ok (λ i. i.rb) (λ r i. record i { rb = r }) (skip n) i (skip-unread n i.rb h))

  feed_all-unread :
      n ≤ unread_size i.rb
      → feed_all n i ≡ (ok (returns (pos n) (take n (unread i.rb))), record i { rb = reset i.rb })
  unfolding feed_all on_read
  feed_all-unread h =
      >>=-ok (on (λ i. i.rb) (λ r i. record i { rb = r }) (copy_out n)) _ i (
        on-ok (λ i. i.rb) (λ r i. record i { rb = r }) (copy_out n) i
          (copy_out-unread n i.rb o.valid h))
      ∙ >>=-ok (on (λ i. i.rb) (λ r i. record i { rb = r }) (modify reset)) _ i
          (on-ok (λ i. i.rb) (λ r i. record i { rb = r }) (modify reset) i refl)

answer_from_some :
    (n : ℕ) (q : Queue) (bs : List ℕ)
    → 0 < length bs
    → answer_from n q bs ≡ returns (pos (length (take n bs))) (take n bs)
answer_from_some n q [] h = absurd (omega arith)
answer_from_some n q (b ∷ bs) h = refl

nil_of_length : (bs : List ℕ) → length bs ≡ 0 → bs ≡ []
nil_of_length [] e = refl
nil_of_length (b ∷ bs) e = absurd (omega arith)

zero_or_more : (n : ℕ) → (n ≡ 0) ⊎ (0 < n)
zero_or_more zero = inl refl
zero_or_more (suc n) = inr (omega arith)

-- A round of feedData is a step of the queue.
module _ (n : ℕ) (i : StreamSetupInfo) (q : Queue) (p : Represents i q) where
  length-bytes : length q.bytes ≡ unread_size i.rb
  length-bytes = ap (λ (l : List ℕ). length l) (sym p.same) ∙ length-unread i.rb p.is_open.valid

  -- The stream with another reading buffer.
  read_on :
      (rb : ReadBuffer)
      → IsValid rb
      → rb.in_snap ≡ i.rb.in_snap
      → rb.capacity ≡ i.rb.capacity
      → unread rb ≡ drop n q.bytes
      → Represents (record i { rb = rb }) (record q { bytes = drop n q.bytes })
  read_on rb v s c u = record {
    is_open = record {
      valid = v;
      no_snap = s ∙ p.is_open.no_snap;
      has_room = omega (arith, c, p.is_open.has_room);
      doublings = p.is_open.doublings;
      sized = p.is_open.sized;
    };
    same = u;
    ended = p.ended;
    failed = p.failed;
  }

  feed_round_empty : unread_size i.rb ≡ 0 → feed_round n i ≡ (ok (answer_from n q q.bytes), i)
  unfolding feed_round feed_nothing ◌>>=◌ then_do
  feed_round_empty e =
      let none_left : (unread_size i.rb == 0) ≡ true = ground arith in
      let nothing : q.bytes ≡ [] = nil_of_length q.bytes (length-bytes ∙ e) in
      rw (none_left, nothing)
        (λ j. (
          ok (
              if p.failed j
              then returns minus_one []
              else (if p.ended j then returns (pos 0) [] else waits)),
          i,
        ))

  feed_round_all :
      0 < unread_size i.rb → unread_size i.rb < n → feed_round n i ≡ feed_all (unread_size i.rb) i
  unfolding feed_round ◌>>=◌ then_do
  feed_round_all h less =
      let some_left : (unread_size i.rb == 0) ≡ false = ground arith in
      rw (some_left, lt→ltb (unread_size i.rb) n less)

  feed_round_part : 0 < unread_size i.rb → n ≤ unread_size i.rb → feed_round n i ≡ feed_some n i
  unfolding feed_round ◌>>=◌ then_do
  feed_round_part h le =
      let some_left : (unread_size i.rb == 0) ≡ false = ground arith in
      rw (some_left, le→ltb (unread_size i.rb) n le)

  -- What is given, by how many bytes it is.
  given :
      (size : ℕ)
      → 0 < unread_size i.rb
      → length (take n q.bytes) ≡ size
      → returns (pos size) (take n q.bytes) ≡ answer_from n q q.bytes
  given size h e =
      ap (λ s. returns (pos s) (take n q.bytes)) (sym e)
      ∙ sym (answer_from_some n q q.bytes (omega (arith, length-bytes)))

  feed_round_some :
      0 < unread_size i.rb
      → (i' : StreamSetupInfo) × (feed_round n i ≡ (ok (answer_from n q q.bytes), i'))
        × Represents i' (record q { bytes = drop n q.bytes })
  unfolding reset
  feed_round_some h = elim (Bool-cases (ltb (unread_size i.rb) n)) [
    | inl all ↦
        let size : ℕ = unread_size i.rb in
        let less : size < n = ltb→lt _ _ all in
        let whole : take size (unread i.rb) ≡ take n q.bytes =
          take_all size (unread i.rb) (omega (arith, length-unread i.rb p.is_open.valid))
          ∙ p.same
          ∙ sym (take_all n q.bytes (omega (arith, length-bytes))) in
        (
          record i { rb = reset i.rb },
          feed_round_all h less
              ∙ feed_all-unread i size p.is_open (omega arith)
              ∙ ap (λ l. (ok (returns (pos size) l), record i { rb = reset i.rb })) whole
              ∙ ap (λ f. (ok f, record i { rb = reset i.rb }))
                  (given size h (omega (arith, length-take {0} n q.bytes, length-bytes))),
          read_on (reset i.rb)
              (record { read_le = omega arith; fits = omega arith; sized = p.is_open.valid.sized })
              refl refl (sym (drop_all n q.bytes (omega (arith, length-bytes)))),
        )
    | inr part ↦
        let le : n ≤ unread_size i.rb = ground arith in
        (
          record i { rb = advance n i.rb },
          feed_round_part h le
              ∙ feed_some-unread i n p.is_open le
              ∙ ap (λ l. (ok (returns (pos n) (take n l)), record i { rb = advance n i.rb })) p.same
              ∙ ap (λ f. (ok f, record i { rb = advance n i.rb }))
                  (given n h (omega (arith, length-take {0} n q.bytes, length-bytes))),
          read_on (advance n i.rb) (advance-IsValid n i.rb p.is_open.valid le) refl refl
              (unread-advance n i.rb ∙ ap (λ l. drop n l) p.same),
        )
  ]

  -- feedData's round answers as the queue does, and takes the same bytes from the front.
  pub feed_round-Represents :
      (i' : StreamSetupInfo) × (feed_round n i ≡ (ok (answer_from n q q.bytes), i'))
      × Represents i' (after (feed n) q)
  feed_round-Represents = elim (zero_or_more (unread_size i.rb)) [
    | inl e ↦
        let nothing : q.bytes ≡ [] = nil_of_length q.bytes (length-bytes ∙ e) in
        (
          i,
          feed_round_empty e,
          subst (λ l. Represents i (record q { bytes = l }))
              (nothing ∙ sym (drop_all n q.bytes (omega (arith, length-bytes)))) p,
        )
    | inr h ↦ feed_round_some h
  ]
