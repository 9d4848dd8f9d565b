-- ===== src/Parser/Commands/Body.antt =====
-- rtmpparser.cpp: a parser of bodies on the buffer that a message's body fills.
use tvie_rtmp.Base.{
  ℕ, ◌+◌, ◌<◌, ◌≡◌, refl, ap, ◌∙◌, some, List, [], ◌∷◌, ◌++◌, append-nil, arith, length,
}
use tvie_rtmp.Base.Int.{pos}
use tvie_rtmp.Exception.{fault, Result, ok, err, M, throw, caught, try_catch, then_do, ◌>>=◌}
use tvie_rtmp.ReadBuffer.{ReadBuffer}
use tvie_rtmp.ReadBuffer.View.{IsValid, unread, length-unread, Reads}
use tvie_rtmp.ReadBuffer.Inside.{ReadsInside, followed, Overruns}
use tvie_rtmp.ReadBuffer.Append.{append_data-empty}
use tvie_rtmp.Message.{RtmpMsgHeader}
use tvie_rtmp.Parser.Commands.{on_body, corrupted, guarded, parse_command}

-- The message carries the bytes.
abbrev pub Carries : RtmpMsgHeader → List ℕ → Type 0
Carries mh bytes = (mh.length ≡ pos (length bytes)) × (mh.body ≡ some bytes)

-- A result that needs a byte behind what was read: without one the code leaves the allocation.
abbrev pub if_followed : {A : Type 0} → List ℕ → A → Result A
if_followed [] a = err fault
if_followed (b ∷ bs) a = ok a

guarded-fault :
    {A : Type 0} (m : M ReadBuffer A) (rb : ReadBuffer)
    → (m rb).0 ≡ err fault
    → (guarded m rb).0 ≡ err fault
unfolding guarded corrupted try_catch caught
guarded-fault {A} m rb h = go (m rb) h
  where
    go :
        (r : Result A × ReadBuffer)
        → r.0 ≡ err fault
        → (caught (λ e. throw (corrupted e)) r).0 ≡ err fault
    go (ok a, rb') e = cc
    go (err fault, rb') e = refl
    go (err other, rb') e = cc

module _ {A : Type 0} (mh : RtmpMsgHeader) (bs rest : List ℕ) (m : M ReadBuffer A)
    (carries : Carries mh (bs ++ rest)) where
  -- The buffer that holds the body, and the parse on it.
  on_whole_body :
      (rb : ReadBuffer) × IsValid rb
      × (unread rb ≡ bs ++ rest)
      × (rb.capacity ≡ length (bs ++ rest))
      × (parse_command mh (guarded m) ≡ (guarded m rb).0)
  unfolding parse_command on_body ◌>>=◌ then_do
  on_whole_body =
      let (rb, e, v, u, full) = append_data-empty (bs ++ rest) in
      (
        rb,
        v,
        u,
        full,
        rw (carries.0, parse_command) (rw (carries.1, on_body) (rw (e, then_do) refl)),
      )

  pub parse_command-Reads : (a : A) → Reads m bs a → parse_command mh (guarded m) ≡ ok a
  unfolding guarded try_catch caught
  parse_command-Reads a p =
      let (rb, v, u, _, e) = on_whole_body in e ∙ rw (p.run rb rest v u, caught)

  pub parse_command-followed :
      (a : A) → 0 < length rest → ReadsInside m bs a → parse_command mh (guarded m) ≡ ok a
  unfolding guarded try_catch caught
  parse_command-followed a more p =
      let (rb, v, u, _, e) = on_whole_body in
      e ∙ rw (p.run rb rest v u (followed rb bs rest v u more), caught)

  parse_command-Overruns : rest ≡ [] → Overruns m bs → parse_command mh (guarded m) ≡ err fault
  parse_command-Overruns none_left p =
      let (rb, v, u, full, e) = on_whole_body in
      let all : bs ++ rest ≡ bs = ap (λ l. bs ++ l) none_left ∙ append-nil bs in
      let size : length (bs ++ rest) ≡ length bs = ap (λ (l : List ℕ). length l) all in
      let unread_all : unread rb ≡ bs = u ∙ all in
      let at_end : rb.bi + length bs ≡ rb.capacity = omega (
        arith,
        length-unread rb v,
        ap (λ (l : List ℕ). length l) unread_all,
        v.fits,
        v.read_le,
        full,
        size,
      ) in
      e ∙ guarded-fault m rb (p.run rb v unread_all at_end)

-- The body is read to `bs`, whose last part is a string.
pub parse_command-last :
    {A : Type 0} (mh : RtmpMsgHeader) (bs rest : List ℕ) (m : M ReadBuffer A) (a : A)
    → Carries mh (bs ++ rest)
    → ReadsInside m bs a
    → Overruns m bs
    → parse_command mh (guarded m) ≡ if_followed rest a
parse_command-last mh bs [] m a c p q = parse_command-Overruns mh bs [] m c refl q
parse_command-last mh bs (b ∷ rest) m a c p q =
    parse_command-followed mh bs (b ∷ rest) m c a (omega arith) p
