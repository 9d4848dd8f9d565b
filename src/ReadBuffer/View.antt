-- ===== src/ReadBuffer/View.antt =====
-- What a ReadBuffer holds, seen as the list of its unread bytes, and how a reading method takes
-- bytes from the front of that list.
use tvie_rtmp.Base.{
  ℕ, ◌+◌, ◌≤◌, ◌<◌, ◌≡◌, refl, sym, ap, ◌∙◌, false, some, List, [], ◌∷◌, ◌++◌, append_assoc,
  append-nil, subst, arith, ltb, le→ltb, length, get_elem?, take, drop, length-append, length-take,
  length-drop, drop_prefix, take_prefix, drop-drop, take-drop-take, drop-get_elem?, get_elem?-take,
}
use tvie_rtmp.Base.Int.{pos}
use tvie_rtmp.Exception.{ok, M, pure, gets, then_do, ◌>>=◌, >>=-ok}
use tvie_rtmp.ReadBuffer.{ReadBuffer, unread_size, advance, read_byte, read_bytes, copy_out, skip}

pub record IsValid (rb : ReadBuffer) : Type 0 where
  pub read_le : rb.bi ≤ rb.cout
  pub fits : rb.cout ≤ rb.capacity
  pub sized : length rb.buffer ≡ rb.capacity

abbrev pub unread : ReadBuffer → List ℕ
unread rb = drop rb.bi (take rb.cout rb.buffer)

pub length-unread : (rb : ReadBuffer) → IsValid rb → length (unread rb) ≡ unread_size rb
length-unread rb v =
    omega (arith, length-drop {0} rb.bi (take rb.cout rb.buffer), length-take {0} rb.cout rb.buffer)

pub unread-advance : (n : ℕ) (rb : ReadBuffer) → unread (advance n rb) ≡ drop n (unread rb)
unread-advance n rb = sym (drop-drop rb.bi n (rb.bi + n) (take rb.cout rb.buffer) refl)

pub advance-IsValid :
    (n : ℕ) (rb : ReadBuffer) → IsValid rb → n ≤ unread_size rb → IsValid (advance n rb)
advance-IsValid n rb v h = omega arith

-- The method `m` takes exactly the bytes `bs` from the front and returns `a`; nothing else of the
-- buffer changes, whatever follows `bs`.
pub record Reads {A : Type 0} (m : M ReadBuffer A) (bs : List ℕ) (a : A) : Type 0 where
  pub run :
      (rb : ReadBuffer) (rest : List ℕ)
      → IsValid rb
      → unread rb ≡ bs ++ rest
      → m rb ≡ (ok a, advance (length bs) rb)

module _ (rb : ReadBuffer) (bs rest : List ℕ) (v : IsValid rb) (e : unread rb ≡ bs ++ rest) where
  pub prefix_le : length bs ≤ unread_size rb
  prefix_le =
      omega (arith, length-unread rb v, ap (λ (l : List ℕ). length l) e, length-append {0} bs rest)

  pub prefix-IsValid : IsValid (advance (length bs) rb)
  prefix-IsValid = advance-IsValid (length bs) rb v prefix_le

  pub prefix_rest : unread (advance (length bs) rb) ≡ rest
  prefix_rest = unread-advance (length bs) rb ∙ rw e (drop_prefix (length bs) bs rest refl)

  pub copy_prefix : take (length bs) (drop rb.bi rb.buffer) ≡ bs
  copy_prefix =
      sym (take-drop-take (length bs) rb.bi rb.cout rb.buffer (omega (arith, prefix_le)))
      ∙ rw e (take_prefix (length bs) bs rest refl)

pub advance-advance :
    (n m k : ℕ) (rb : ReadBuffer) → k ≡ n + m → advance m (advance n rb) ≡ advance k rb
advance-advance n m k rb h =
    let e : rb.bi + n + m ≡ rb.bi + k = omega arith in λ i. record rb { bi = e i }

pub Reads->>= :
    {A B : Type 0} {m : M ReadBuffer A} (f : A → M ReadBuffer B) {bs : List ℕ} (cs : List ℕ) {a : A}
    {b : B}
    → Reads m bs a
    → Reads (f a) cs b
    → Reads (m >>= f) (bs ++ cs) b
Reads->>= {m = m} f {bs = bs} cs {a = a} {b = b} p q = record {
  run = λ rb rest v e.
      let e' : unread rb ≡ bs ++ (cs ++ rest) = e ∙ append_assoc bs cs rest in
      >>=-ok m f rb (p.run rb (cs ++ rest) v e')
      ∙ q.run (advance (length bs) rb) rest (prefix-IsValid rb bs (cs ++ rest) v e')
          (prefix_rest rb bs (cs ++ rest) v e')
      ∙ ap (λ s. (ok b, s))
          (advance-advance (length bs) (length cs) (length (bs ++ cs)) rb (length-append bs cs));
}

pub advance-zero : (rb : ReadBuffer) → rb ≡ advance 0 rb
advance-zero rb = let e : rb.bi ≡ rb.bi + 0 = omega arith in λ i. record rb { bi = e i }

pub Reads-pure : {A : Type 0} (a : A) → Reads (pure a) [] a
Reads-pure a = record { run = λ rb rest v e. ap (λ s. (ok a, s)) (advance-zero rb) }

-- A step behind the last byte.
pub Reads-last :
    {A B : Type 0} {m : M ReadBuffer A} (f : A → M ReadBuffer B) {bs : List ℕ} {a : A} {b : B}
    → Reads m bs a
    → Reads (f a) [] b
    → Reads (m >>= f) bs b
Reads-last {m = m} f {bs = bs} {b = b} p q =
    subst (λ l. Reads (m >>= f) l b) (append-nil bs) (Reads->>= f [] p q)

-- A step that only looks, followed by a method that reads.
pub Reads-gets :
    {A B : Type 0} {g : ReadBuffer → A} (f : A → M ReadBuffer B) {bs : List ℕ} {b : B}
    → ((rb : ReadBuffer) (rest : List ℕ)
        → IsValid rb
        → unread rb ≡ bs ++ rest
        → f (g rb) rb ≡ (ok b, advance (length bs) rb))
    → Reads (gets g >>= f) bs b
Reads-gets {g = g} f h = record { run = λ rb rest v e. >>=-ok (gets g) f rb refl ∙ h rb rest v e }

front :
    (b : ℕ) (bs : List ℕ) (rb : ReadBuffer)
    → IsValid rb
    → unread rb ≡ b ∷ bs
    → get_elem? rb.buffer rb.bi ≡ some b
front b bs rb v e =
    let inside : rb.bi < rb.cout =
      omega (arith, length-unread rb v, ap (λ (l : List ℕ). length l) e) in
    let (x, at, rest) =
      drop-get_elem? rb.bi (take rb.cout rb.buffer)
        (omega (arith, length-take {0} rb.cout rb.buffer)) in
    let same : x ≡ b = cc in sym (get_elem?-take rb.bi rb.cout rb.buffer inside) ∙ at ∙ ap some same

pub read_byte-Reads : (b : ℕ) → Reads read_byte (b ∷ []) b
unfolding read_byte
read_byte-Reads b = record {
  run = λ rb rest v e. rw (le→ltb _ _ (prefix_le rb (b ∷ []) rest v e)) (rw (front b rest rb v e));
}

pub copy_out-prefix :
    (bs rest : List ℕ) (rb : ReadBuffer)
    → IsValid rb
    → unread rb ≡ bs ++ rest
    → copy_out (length bs) rb ≡ (ok bs, rb)
unfolding copy_out
copy_out-prefix bs rest rb v e =
    let inside : rb.bi + length bs ≤ length rb.buffer = omega (arith, prefix_le rb bs rest v e) in
    rw (le→ltb _ _ inside) (ap (λ l. (ok l, rb)) (copy_prefix rb bs rest v e))

-- The guard on the size that every reading method begins with.
pub enough :
    (bs rest : List ℕ) (rb : ReadBuffer)
    → IsValid rb
    → unread rb ≡ bs ++ rest
    → ltb (unread_size rb) (length bs) ≡ false
enough bs rest rb v e = le→ltb _ _ (prefix_le rb bs rest v e)

pub read_bytes-Reads : (bs : List ℕ) → Reads (read_bytes (pos (length bs))) bs bs
unfolding read_bytes ◌>>=◌ then_do
read_bytes-Reads bs = record {
  run = λ rb rest v e.
      rw (enough bs rest rb v e, then_do) (rw (copy_out-prefix bs rest rb v e, then_do));
}

pub skip-Reads : (bs : List ℕ) → Reads (skip (length bs)) bs tt
unfolding skip
skip-Reads bs = record { run = λ rb rest v e. rw (enough bs rest rb v e) }

pub skip_enough : (n : ℕ) (rb : ReadBuffer) → n ≤ unread_size rb → skip n rb ≡ (ok tt, advance n rb)
unfolding skip
skip_enough n rb h = rw (le→ltb (unread_size rb) n h)
