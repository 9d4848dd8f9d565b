-- ===== src/LiveReceiver/Wait.antt =====
-- livereceiveractor.cpp, feedData: the waiting for bytes.
use tvie_rtmp.Base.{ℕ, zero, suc, ◌≡◌, refl, ◌∙◌, List, []}
use tvie_rtmp.Base.Int.{ℤ}
use tvie_rtmp.Exception.{ok, modify, >>=-ok}
use tvie_rtmp.ReadBuffer.View.{unread}
use tvie_rtmp.Message.{minus_one}
use tvie_rtmp.LiveReceiver.StreamSetup.{
  StreamSetupInfo, Fed, waits, returns, feed_round, feed_loop, feed_data,
}
use tvie_rtmp.LiveReceiver.Tags.{IsOpen}
use tvie_rtmp.LiveReceiver.Fifo.{Queue, Represents, answer_from}
use tvie_rtmp.LiveReceiver.Fifo.Round.{feed_round-Represents}

-- The queue that an open stream stands for.
abbrev pub queue_of : StreamSetupInfo → Queue
queue_of i = record { bytes = unread i.rb; ended = i.end_of_file; failed = i.error }

pub queue_of-Represents : (i : StreamSetupInfo) → IsOpen i → Represents i (queue_of i)
queue_of-Represents i o = record { is_open = o; same = refl; ended = refl; failed = refl }

module _ (other : ℕ → StreamSetupInfo → StreamSetupInfo)
    (keeps : (k : ℕ) (i : StreamSetupInfo) → IsOpen i → IsOpen (other k i)) (n : ℕ) where
  -- The round at hand by its answer, and the rest of the loop where it waits.
  round_end :
      (left : ℕ) (f : Fed) (i i' : StreamSetupInfo)
      → feed_round n i ≡ (ok f, i')
      → IsOpen i'
      → ((i'' : StreamSetupInfo)
          → IsOpen i''
          → (m : ℤ) × (d : List ℕ) × (j : StreamSetupInfo) × (feed_loop left other n i''
              ≡ (ok (returns m d), j))
            × IsOpen j)
      → (m : ℤ) × (d : List ℕ) × (j : StreamSetupInfo) × (feed_loop (suc left) other n i
          ≡ (ok (returns m d), j))
        × IsOpen j
  unfolding feed_loop
  round_end left waits i i' e o later =
      let (m, d, j, e', o') = later (other left i') (keeps left i' o) in
      (m, d, j, >>=-ok (feed_round n) _ i e ∙ >>=-ok (modify (other left)) _ i' refl ∙ e', o')
  round_end left (returns m d) i i' e o later = (m, d, i', >>=-ok (feed_round n) _ i e, o)

  feed_loop-returns :
      (left : ℕ) (i : StreamSetupInfo)
      → IsOpen i
      → (m : ℤ) × (d : List ℕ) × (j : StreamSetupInfo) × (feed_loop left other n i
          ≡ (ok (returns m d), j))
        × IsOpen j
  feed_loop-returns zero i o = (minus_one, [], i, unfold feed_loop in refl, o)
  feed_loop-returns (suc left) i o =
      let (i', e, p) = feed_round-Represents n i (queue_of i) (queue_of-Represents i o) in
      round_end left (answer_from n (queue_of i) (unread i.rb)) i i' e p.is_open
        (feed_loop-returns left)

  -- On an open stream feedData returns a number, and leaves it open, whatever the other thread does
  -- between the rounds as long as that leaves the stream open.
  pub feed_data-returns :
      (i : StreamSetupInfo)
      → IsOpen i
      → (m : ℤ) × (d : List ℕ) × (j : StreamSetupInfo) × (feed_data other n i
          ≡ (ok (returns m d), j))
        × IsOpen j
  unfolding feed_data
  feed_data-returns i o = feed_loop-returns 1000001 i o
