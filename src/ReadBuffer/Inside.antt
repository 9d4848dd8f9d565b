-- ===== src/ReadBuffer/Inside.antt =====
-- readbuffer.cpp, readChars: it copies the byte behind the characters too, so it is sound only where
-- that byte lies in the allocation.
use tvie_rtmp.Base.{
  ℕ, ◌+◌, ◌≤◌, ◌<◌, ◌≡◌, refl, sym, ap, subst, ◌∙◌, false, true, List, [], ◌++◌, append_assoc,
  append-nil, arith, ltb, le→ltb, lt→ltb, length, take, drop, length-append, take-take,
}
use tvie_rtmp.Exception.{fault, Result, ok, err, M, then_do, ◌>>=◌, >>=-ok}
use tvie_rtmp.ReadBuffer.{ReadBuffer, advance, copy_out, read_chars}
use tvie_rtmp.ReadBuffer.View.{
  IsValid, unread, Reads, prefix_le, prefix-IsValid, prefix_rest, copy_prefix, enough,
  advance-advance,
}

-- As `Reads`, where the byte behind `bs` lies in the allocation.
pub record ReadsInside {A : Type 0} (m : M ReadBuffer A) (bs : List ℕ) (a : A) : Type 0 where
  pub run :
      (rb : ReadBuffer) (rest : List ℕ)
      → IsValid rb
      → unread rb ≡ bs ++ rest
      → rb.bi + length bs < rb.capacity
      → m rb ≡ (ok a, advance (length bs) rb)

pub Reads-ReadsInside :
    {A : Type 0} {m : M ReadBuffer A} {bs : List ℕ} {a : A} → Reads m bs a → ReadsInside m bs a
Reads-ReadsInside p = record { run = λ rb rest v e h. p.run rb rest v e }

-- Bytes that follow are in the allocation.
pub followed :
    (rb : ReadBuffer) (bs rest : List ℕ)
    → IsValid rb
    → unread rb ≡ bs ++ rest
    → 0 < length rest
    → rb.bi + length bs < rb.capacity
followed rb bs rest v e more =
    let all : unread rb ≡ (bs ++ rest) ++ [] = e ∙ sym (append-nil (bs ++ rest)) in
    omega (arith, prefix_le rb (bs ++ rest) [] v all, length-append {0} bs rest, v.fits, v.read_le)

module _ {A B : Type 0} {m : M ReadBuffer A} (f : A → M ReadBuffer B) {bs : List ℕ} (cs : List ℕ)
    {a : A} {b : B} where
  pub ReadsInside->>= :
      ReadsInside m bs a → ReadsInside (f a) cs b → ReadsInside (m >>= f) (bs ++ cs) b
  ReadsInside->>= p q = record {
    run = λ rb rest v e h.
        let sum : length (bs ++ cs) ≡ length bs + length cs = length-append bs cs in
        let e' : unread rb ≡ bs ++ (cs ++ rest) = e ∙ append_assoc bs cs rest in
        >>=-ok m f rb (p.run rb (cs ++ rest) v e' (omega arith))
        ∙ q.run (advance (length bs) rb) rest (prefix-IsValid rb bs (cs ++ rest) v e')
            (prefix_rest rb bs (cs ++ rest) v e') (omega arith)
        ∙ ap (λ s. (ok b, s)) (advance-advance (length bs) (length cs) (length (bs ++ cs)) rb sum);
  }

  -- What follows has bytes of its own.
  pub ReadsInside->>=-Reads :
      0 < length cs → ReadsInside m bs a → Reads (f a) cs b → Reads (m >>= f) (bs ++ cs) b
  ReadsInside->>=-Reads more p q = record {
    run = λ rb rest v e.
        let sum : length (bs ++ cs) ≡ length bs + length cs = length-append bs cs in
        let e' : unread rb ≡ bs ++ (cs ++ rest) = e ∙ append_assoc bs cs rest in
        let inside : rb.bi + length bs < rb.capacity =
          followed rb bs (cs ++ rest) v e' (omega (arith, length-append {0} cs rest)) in
        >>=-ok m f rb (p.run rb (cs ++ rest) v e' inside)
        ∙ q.run (advance (length bs) rb) rest (prefix-IsValid rb bs (cs ++ rest) v e')
            (prefix_rest rb bs (cs ++ rest) v e')
        ∙ ap (λ s. (ok b, s)) (advance-advance (length bs) (length cs) (length (bs ++ cs)) rb sum);
  }

pub ReadsInside-last :
    {A B : Type 0} {m : M ReadBuffer A} (f : A → M ReadBuffer B) {bs : List ℕ} {a : A} {b : B}
    → ReadsInside m bs a
    → Reads (f a) [] b
    → ReadsInside (m >>= f) bs b
ReadsInside-last {m = m} f {bs = bs} {b = b} p q =
    subst (λ l. ReadsInside (m >>= f) l b) (append-nil bs)
      (ReadsInside->>= f [] p (Reads-ReadsInside q))

module _ (bs rest : List ℕ) (rb : ReadBuffer) (v : IsValid rb) (e : unread rb ≡ bs ++ rest) where
  -- The copy of one byte more.
  copied :
      rb.bi + length bs < rb.capacity
      → copy_out (length bs + 1) rb ≡ (ok (take (length bs + 1) (drop rb.bi rb.buffer)), rb)
  unfolding copy_out
  copied h =
      let inside : ltb (length rb.buffer) (rb.bi + (length bs + 1)) ≡ false =
        le→ltb _ _ (omega (arith, v.sized)) in
      rw inside refl

  overrun : rb.capacity ≤ rb.bi + length bs → copy_out (length bs + 1) rb ≡ (err fault, rb)
  unfolding copy_out
  overrun h =
      let outside : ltb (length rb.buffer) (rb.bi + (length bs + 1)) ≡ true =
        lt→ltb _ _ (omega (arith, v.sized)) in
      rw outside refl

  pub read_chars_overrun :
      rb.capacity ≤ rb.bi + length bs → read_chars (length bs) rb ≡ (err fault, rb)
  unfolding read_chars ◌>>=◌ then_do
  read_chars_overrun h = rw (enough bs rest rb v e, then_do) (rw (overrun h, then_do) refl)

  pub read_chars_inside :
      rb.bi + length bs < rb.capacity → read_chars (length bs) rb ≡ (ok bs, advance (length bs) rb)
  unfolding read_chars ◌>>=◌ then_do
  read_chars_inside h =
      let same : take (length bs) (take (length bs + 1) (drop rb.bi rb.buffer)) ≡ bs =
        take-take (length bs) (length bs + 1) (drop rb.bi rb.buffer) (omega arith)
        ∙ copy_prefix rb bs rest v e in
      rw (enough bs rest rb v e, then_do) (rw (copied h, then_do) (rw same refl))

pub read_chars-ReadsInside : (bs : List ℕ) → ReadsInside (read_chars (length bs)) bs bs
read_chars-ReadsInside bs = record { run = λ rb rest v e h. read_chars_inside bs rest rb v e h }

-- At exactly the bytes `bs`, with no byte of the allocation behind them, the method leaves the
-- allocation.
pub record Overruns {A : Type 0} (m : M ReadBuffer A) (bs : List ℕ) : Type 0 where
  pub run :
      (rb : ReadBuffer)
      → IsValid rb
      → unread rb ≡ bs
      → rb.bi + length bs ≡ rb.capacity
      → (m rb).0 ≡ err fault

module _ {A B : Type 0} {m : M ReadBuffer A} (f : A → M ReadBuffer B) {bs : List ℕ} where
  pub Overruns-first : Overruns m bs → Overruns (m >>= f) bs
  unfolding ◌>>=◌ then_do
  Overruns-first p = record { run = λ rb v e full. go (m rb) (p.run rb v e full) }
    where
      go : (r : Result A × ReadBuffer) → r.0 ≡ err fault → (then_do f r).0 ≡ err fault
      go (ok a, rb') h = cc
      go (err x, rb') h = cc

  pub Overruns->>= :
      (cs : List ℕ) {a : A}
      → 0 < length cs
      → ReadsInside m bs a
      → Overruns (f a) cs
      → Overruns (m >>= f) (bs ++ cs)
  Overruns->>= cs {a} more p q = record {
    run = λ rb v e full.
        let sum : length (bs ++ cs) ≡ length bs + length cs = length-append bs cs in
        ap (λ r. r.0) (>>=-ok m f rb (p.run rb cs v e (omega arith)))
        ∙ q.run (advance (length bs) rb) (prefix-IsValid rb bs cs v e) (prefix_rest rb bs cs v e)
            (omega arith);
  }

pub read_chars-Overruns : (bs : List ℕ) → Overruns (read_chars (length bs)) bs
read_chars-Overruns bs = record {
  run = λ rb v e full.
      ap (λ r. r.0) (read_chars_overrun bs [] rb v (e ∙ sym (append-nil bs)) (omega arith));
}
