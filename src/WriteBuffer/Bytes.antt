-- ===== src/WriteBuffer/Bytes.antt =====
-- writebuffer.cpp: writing at byte boundaries.
use tvie_rtmp.Base.{
  ℕ, zero, suc, ◌+◌, ◌-◌, ◌/◌, ◌%◌, ◌^◌, ◌≤◌, ◌<◌, ◌≡◌, refl, sym, ap, ◌∙◌, bit_or, some, List, [],
  ◌∷◌, ◌++◌, append_assoc, arith, lt→ltb, le→ltb, length, get_elem?, set, take, drop, zeros, memcpy,
  length-append, length-replicate, take_prefix, drop_prefix,
}
use tvie_rtmp.Base.Bits.{zero-bit_or, bit_and-zero}
use tvie_rtmp.Exception.{ok, err, fault, M, then_do, ◌>>=◌, ◌>>◌, >>=-ok}
use tvie_rtmp.WriteBuffer.{
  WriteBuffer, empty, re_init, store, or_store, step_on, write_bits, write_byte, make_room, copy_in,
  write_bytes, get_buffer,
}

-- `bs` was written, and `k` clear bytes are left.
abbrev pub holding : List ℕ → ℕ → WriteBuffer
holding bs k = record {
  buffer = bs ++ zeros k;
  bi = length bs;
  bits_left = 8;
  size = length bs + k;
}

-- The method appends exactly `bs`, where they fit with `spare` bytes to spare.
pub record WritesIn (spare : ℕ) (m : M WriteBuffer (Unit {0})) (bs : List ℕ) : Type 0 where
  pub run :
      (out : List ℕ) (k : ℕ)
      → spare ≤ k
      → m (holding out (length bs + k)) ≡ (ok tt, holding (out ++ bs) k)

-- With as much to spare as `realloc_for_write` asks for.
abbrev pub Writes : M WriteBuffer (Unit {0}) → List ℕ → Type 0
Writes = WritesIn 10

pub holding-eq :
    {b : List ℕ} {i n : ℕ} (bs : List ℕ) (k : ℕ)
    → b ≡ bs ++ zeros k
    → i ≡ length bs
    → n ≡ length bs + k
    → ◌≡◌ {A = WriteBuffer} (record { buffer = b; bi = i; bits_left = 8; size = n }) (holding bs k)
holding-eq bs k p q r = λ j. record { buffer = p j; bi = q j; bits_left = 8; size = r j }

pub holding-empty : (n : ℕ) → empty n ≡ holding [] n
holding-empty n = holding-eq [] n refl refl (omega arith)

-- Two ways to write the same content.
pub holding-cong : (bs cs : List ℕ) (k l : ℕ) → bs ≡ cs → k ≡ l → holding bs k ≡ holding cs l
holding-cong bs cs k l p q = λ i. holding (p i) (q i)

pub re_init-holding : (wb : WriteBuffer) → re_init wb ≡ holding [] wb.size
unfolding re_init
re_init-holding wb = holding-eq [] wb.size refl refl (omega arith)

-- getBuffer gives what was written.
pub get_buffer-holding : (bs : List ℕ) (k : ℕ) → get_buffer (holding bs k) ≡ bs
unfolding get_buffer
get_buffer-holding bs k = take_prefix (length bs) bs (zeros k) refl

-- What follows, appended behind.
pub Writes->> :
    {spare : ℕ} {m n : M WriteBuffer (Unit {0})} (bs cs : List ℕ)
    → WritesIn spare m bs
    → WritesIn spare n cs
    → WritesIn spare (m >> n) (bs ++ cs)
Writes->> {m = m} {n = n} bs cs p q = record {
  run = λ out k room.
      let split : length (bs ++ cs) + k ≡ length bs + (length cs + k) =
        omega (arith, length-append {0} bs cs) in
      >>=-ok m (λ _. n) (holding out (length (bs ++ cs) + k))
        (ap (λ j. m (holding out j)) split ∙ p.run out (length cs + k) (omega arith))
      ∙ q.run (out ++ bs) k room
      ∙ ap (λ l. (ok tt, holding l k)) (append_assoc out bs cs);
}

get_elem?-length :
    (bs : List ℕ) (x : ℕ) (ys : List ℕ) → get_elem? (bs ++ x ∷ ys) (length bs) ≡ some x
get_elem?-length [] x ys = refl
get_elem?-length (b ∷ bs) x ys = get_elem?-length bs x ys

set-length : (bs : List ℕ) (x v : ℕ) (ys : List ℕ) → set (bs ++ x ∷ ys) (length bs) v ≡ bs ++ v ∷ ys
set-length [] x v ys = refl
set-length (b ∷ bs) x v ys = ap (λ l. b ∷ l) (set-length bs x v ys)

pub or_store_end :
    (out : List ℕ) (v b l n : ℕ) (ys : List ℕ)
    → or_store (length out) v (record { buffer = out ++ 0 ∷ ys; bi = b; bits_left = l; size = n })
      ≡ (ok tt, record { buffer = out ++ v ∷ ys; bi = b; bits_left = l; size = n })
unfolding or_store
or_store_end out v b l n ys =
    rw (get_elem?-length out 0 ys, or_store) (rw (set-length out 0 (bit_or 0 v) ys, zero-bit_or v))

pub store_end :
    (out : List ℕ) (v b l n : ℕ) (ys : List ℕ)
    → store (length out) v (record { buffer = out ++ 0 ∷ ys; bi = b; bits_left = l; size = n })
      ≡ (ok tt, record { buffer = out ++ v ∷ ys; bi = b; bits_left = l; size = n })
unfolding store
store_end out v b l n ys =
    let inside : length out < length (out ++ 0 ∷ ys) =
      omega (arith, length-append {0} out (0 ∷ ys)) in
    rw (lt→ltb _ _ inside, store) (rw (set-length out 0 v ys))

write_byte_step :
    (b : ℕ) (out : List ℕ) (j : ℕ)
    → b < 256
    → write_byte b (holding out (suc (suc j))) ≡ (ok tt, holding (out ++ b ∷ []) (suc j))
unfolding write_bits step_on ◌>>=◌ then_do
write_byte_step b out j h =
    let low : b % 256 / 2 ^ (8 - 8) ≡ b = omega arith in
    let next : length out + 1 ≡ length (out ++ b ∷ []) =
      omega (arith, length-append {0} out (b ∷ [])) in
    let more : out ++ b ∷ 0 ∷ zeros j ≡ (out ++ b ∷ []) ++ 0 ∷ zeros j =
      sym (append_assoc out (b ∷ []) (0 ∷ zeros j)) in
    rw (low, or_store_end out b (length out) 8 (length out + suc (suc j)) (0 ∷ zeros j), then_do)
      (rw (bit_and-zero (b % 256), more)
        (rw (stored, then_do)
          (ap (λ w. (ok tt, w))
            (holding-eq (out ++ b ∷ []) (suc j) refl next
              (omega (arith, length-append {0} out (b ∷ [])))))))
  where
    stored :
        store (length out + 1) 0 (record {
          buffer = (out ++ b ∷ []) ++ 0 ∷ zeros j;
          bi = length out;
          bits_left = 8;
          size = length out + suc (suc j);
        })
        ≡ (
          ok tt,
          record {
            buffer = (out ++ b ∷ []) ++ 0 ∷ zeros j;
            bi = length out;
            bits_left = 8;
            size = length out + suc (suc j);
          },
        )
    stored =
        let next : length out + 1 ≡ length (out ++ b ∷ []) =
          omega (arith, length-append {0} out (b ∷ [])) in
        rw next (store_end (out ++ b ∷ []) 0 (length out) 8 (length out + suc (suc j)) (zeros j))

pub write_byte-WritesIn :
    {spare : ℕ} (b : ℕ) → 1 ≤ spare → b < 256 → WritesIn spare (write_byte b) (b ∷ [])
write_byte-WritesIn {spare} b some_spare hb = record { run = λ out k room. at out k room }
  where
    at :
        (out : List ℕ) (k : ℕ)
        → spare ≤ k
        → write_byte b (holding out (1 + k)) ≡ (ok tt, holding (out ++ b ∷ []) k)
    at out zero room = absurd (omega arith)
    at out (suc j) room =
        let e : 1 + suc j ≡ suc (suc j) = omega arith in
        ap (λ n. write_byte b (holding out n)) e ∙ write_byte_step b out j hb

pub length-zeros : (n : ℕ) → length (zeros n) ≡ n
length-zeros n = length-replicate n 0

pub zeros_split : (n k : ℕ) → zeros (n + k) ≡ zeros n ++ zeros k
zeros_split zero k = let e : 0 + k ≡ k = omega arith in ap zeros e
zeros_split (suc n) k =
    let e : suc n + k ≡ suc (n + k) = omega arith in ap zeros e ∙ ap (λ l. 0 ∷ l) (zeros_split n k)

pub make_room_enough :
    (n fuel : ℕ) (out : List ℕ) (k : ℕ)
    → n ≤ k + 1
    → make_room (suc fuel) n (holding out k) ≡ (ok tt, holding out k)
unfolding make_room ◌>>=◌ then_do
make_room_enough n fuel out k h = rw (le→ltb (length out + k + 1) (length out + n) (omega arith))

-- A copy into clear bytes behind `out`.
pub memcpy-zeros :
    (d out : List ℕ) (k : ℕ)
    → memcpy (out ++ zeros (length d + k)) (length out) d ≡ some ((out ++ d) ++ zeros k)
memcpy-zeros d out k =
    let room : length out + length d ≤ length (out ++ zeros (length d + k)) =
      omega (arith, length-append {0} out (zeros (length d + k)), length-zeros (length d + k)) in
    rw (le→ltb _ _ room) (ap some content)
  where
    content :
        take (length out) (out ++ zeros (length d + k))
          ++ (d ++ drop (length out + length d) (out ++ zeros (length d + k)))
        ≡ (out ++ d) ++ zeros k
    content =
        rw (take_prefix (length out) out (zeros (length d + k)) refl, zeros_split (length d) k)
          (rw (← append_assoc out (zeros (length d)) (zeros k)) (
            rw
              (drop_prefix (length out + length d) (out ++ zeros (length d)) (zeros k)
                (omega (arith, length-append {0} out (zeros (length d)), length-zeros (length d))))
              (sym (append_assoc out d (zeros k)))))

pub copy_in-holding :
    (d out : List ℕ) (k : ℕ)
    → copy_in d (holding out (length d + k)) ≡ (ok tt, holding (out ++ d) k)
unfolding copy_in
copy_in-holding d out k =
    rw (memcpy-zeros d out k, copy_in)
      (ap (λ w. (ok tt, w))
        (holding-eq (out ++ d) k refl (sym (length-append out d))
          (omega (arith, length-append {0} out d))))

-- writeBytes at a byte boundary copies the bytes behind the others, where they fit with ten bytes to
-- spare.
pub write_bytes-Writes : (d : List ℕ) → Writes (write_bytes d) d
unfolding write_bytes ◌>>=◌ then_do
write_bytes-Writes d = record {
  run = λ out k room.
      rw (make_room_enough (length d) _ out (length d + k) (omega arith), then_do)
        (copy_in-holding d out k);
}

-- writeBytes reallocates only from `size > size_ - bi_ + 1` on: at a byte boundary, one byte more than
-- the free room is copied past the end of the allocation.
pub write_bytes_overrun :
    (d out : List ℕ) (k : ℕ) → length d ≡ k + 1 → (write_bytes d (holding out k)).0 ≡ err fault
unfolding write_bytes copy_in ◌>>=◌ then_do
write_bytes_overrun d out k h =
    let over : length (out ++ zeros k) < length out + length d =
      omega (arith, length-append {0} out (zeros k), length-zeros k) in
    rw (make_room_enough (length d) (length out + length d) out k (omega arith), then_do)
      (rw (lt→ltb _ _ over, copy_in))
