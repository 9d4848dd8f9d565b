-- ===== src/ReadBuffer/Append.antt =====
-- readbuffer.cpp, appendData: growing, moving and copying.
use tvie_rtmp.Base.{
  ℕ, zero, suc, ◌+◌, ◌-◌, ◌*◌, ◌≤◌, ◌<◌, ◌≡◌, refl, sym, ap, ◌∙◌, false, some, List, ◌++◌, ◌⊎◌, inl,
  inr, append_assoc, arith, ltb, le→ltb, ltb→lt, Bool-cases, Option-cases, memcpy, length, take,
  drop, zeros, length-append, length-take, length-drop, length-replicate, take_prefix,
  take-drop-take, take_all, drop_append_le,
}
use tvie_rtmp.Exception.{ok, not_supported, gets, throw_if, then_do, ◌>>=◌, >>=-ok}
use tvie_rtmp.ReadBuffer.{
  ReadBuffer, empty, unread_size, grow, compact, put, make_room, append_data,
}
use tvie_rtmp.ReadBuffer.View.{IsValid, unread, length-unread}

-- The doubling ends, at a capacity that holds what is needed.
pub grow_enough :
    (fuel need capacity : ℕ)
    → 0 < capacity
    → need ≤ fuel + capacity
    → (c : ℕ) × (grow (suc fuel) need capacity ≡ some c) × (need ≤ c) × (capacity ≤ c)
unfolding grow
grow_enough zero need capacity pos h = (capacity, ground arith, omega arith, omega arith)
grow_enough (suc fuel) need capacity pos h = elim (Bool-cases (ltb capacity need)) [
  | inl more ↦
      let less : capacity < need = ltb→lt _ _ more in
      let (c, e, fits, le) = grow_enough fuel need (capacity * 2) (omega arith) (omega arith) in
      (c, rw more e, fits, omega arith)
  | inr done ↦ (capacity, rw done, ground arith, omega arith)
]

length-zeros : (n : ℕ) → length (zeros n) ≡ n
length-zeros n = length-replicate n 0

compact-unread :
    (c : ℕ) (rb : ReadBuffer)
    → IsValid rb
    → unread_size rb ≤ c
    → IsValid (compact c rb) × (unread (compact c rb) ≡ unread rb)
unfolding compact
compact-unread c rb v h = (
  record { read_le = omega arith; fits = omega arith; sized = size },
  take_prefix (unread_size rb) kept _ (sym length-kept) ∙ same,
)
  where
    kept : List ℕ
    kept = take (unread_size rb) (drop rb.bi rb.buffer)

    length-kept : length kept ≡ unread_size rb
    length-kept = omega (
      arith,
      length-take {0} (unread_size rb) (drop rb.bi rb.buffer),
      length-drop {0} rb.bi rb.buffer,
    )

    size : length (kept ++ zeros (c - unread_size rb)) ≡ c
    size = omega (
      arith,
      length-append {0} kept (zeros (c - unread_size rb)),
      length-zeros (c - unread_size rb),
      length-kept,
    )

    same : kept ≡ unread rb
    same =
        sym (take-drop-take (unread_size rb) rb.bi rb.cout rb.buffer (omega arith))
        ∙ take_all (unread_size rb) (unread rb) (omega (arith, length-unread rb v))

put-unread :
    (d : List ℕ) (rb : ReadBuffer)
    → IsValid rb
    → rb.cout + length d ≤ rb.capacity
    → (rb' : ReadBuffer) × (put d rb ≡ (ok tt, rb'))
      × IsValid rb'
      × (unread rb' ≡ unread rb ++ d)
      × (rb'.in_snap ≡ rb.in_snap)
      × (rb'.capacity ≡ rb.capacity)
unfolding put
put-unread d rb v h = (
  record rb { buffer = kept ++ (d ++ rest); cout = rb.cout + length d },
  rw (le→ltb (length rb.buffer) (rb.cout + length d) (omega arith), put),
  record { read_le = omega arith; fits = omega arith; sized = size },
  rw (← append_assoc kept d rest) (
      rw
        (take_prefix (rb.cout + length d) (kept ++ d) rest
          (omega (arith, length-append {0} kept d, length-kept)))
        (drop_append_le rb.bi kept d (omega (arith, length-kept)))),
  refl,
  refl,
)
  where
    kept : List ℕ
    kept = take rb.cout rb.buffer

    rest : List ℕ
    rest = drop (rb.cout + length d) rb.buffer

    length-kept : length kept ≡ rb.cout
    length-kept = omega (arith, length-take {0} rb.cout rb.buffer)

    size : length (kept ++ (d ++ rest)) ≡ rb.capacity
    size = omega (
      arith,
      length-append {0} kept (d ++ rest),
      length-append {0} d rest,
      length-kept,
      length-drop {0} (rb.cout + length d) rb.buffer,
    )

pub empty-IsValid : (n : ℕ) → IsValid (empty n)
empty-IsValid n = record { read_le = omega arith; fits = omega arith; sized = length-zeros n }

make_room-unread :
    (n : ℕ) (rb : ReadBuffer)
    → IsValid rb
    → (0 < rb.capacity) ⊎ (rb.cout + n ≤ rb.capacity)
    → (rb' : ReadBuffer) × (make_room n rb ≡ (ok tt, rb'))
      × IsValid rb'
      × (unread rb' ≡ unread rb)
      × (rb'.in_snap ≡ rb.in_snap)
      × (rb'.cout + n ≤ rb'.capacity)
unfolding make_room compact
make_room-unread n rb v room = elim (Bool-cases (ltb rb.capacity (rb.cout + n))) [
  | inr as_it_is ↦ (rb, rw (as_it_is, make_room), v, refl, refl, ground arith)
  | inl full ↦
      let need : ℕ = rb.cout - rb.bi + n in
      let less : rb.capacity < rb.cout + n = ltb→lt _ _ full in
      let (c, e, enough, le) = grow_enough need need rb.capacity (omega arith) (omega arith) in
      let (v', same) = compact-unread c rb v (omega arith) in
      (compact c rb, rw (full, make_room) (rw (e, make_room)), v', same, refl, omega arith)
]

-- appendData outside a snapshot: it does not fail, does not loop for ever and writes nothing
-- outside the allocation, and the unread bytes are followed by the new ones. The buffer must have a
-- capacity to double, or room as it is.
pub append_data-unread :
    (d : List ℕ) (rb : ReadBuffer)
    → IsValid rb
    → rb.in_snap ≡ false
    → (0 < rb.capacity) ⊎ (rb.cout + length d ≤ rb.capacity)
    → (rb' : ReadBuffer) × (append_data d rb ≡ (ok tt, rb'))
      × IsValid rb'
      × (unread rb' ≡ unread rb ++ d)
      × (rb'.in_snap ≡ false)
unfolding append_data
append_data-unread d rb v s room =
    let (rb', made, v', same, s', fits) = make_room-unread (length d) rb v room in
    let (rb'', e, v'', more, s'', _) = put-unread d rb' v' fits in
    (
      rb'',
      >>=-ok (gets (λ r. r.in_snap)) _ rb refl
          ∙ >>=-ok (throw_if rb.in_snap not_supported) _ rb (rw s)
          ∙ >>=-ok (make_room (length d)) _ rb made
          ∙ e,
      v'',
      more ∙ ap (λ l. l ++ d) same,
      s'' ∙ s' ∙ s,
    )

append_data-empty_capacity : (d : List ℕ) → (append_data d (empty (length d))).1.capacity ≡ length d
unfolding append_data make_room put ◌>>=◌ then_do
append_data-empty_capacity d =
    let fits : ltb (length d) (0 + length d) ≡ false = le→ltb _ _ (omega arith) in
    rw (fits, then_do)
      (elim (Option-cases (memcpy (zeros (length d)) 0 d)) [
        | inl e ↦ rw (e, put) refl
        | inr (b, e) ↦ rw (e, put) refl
      ])

-- A body buffer, `new ReadBuffer(length)` and appendData of as many bytes, which fill it.
pub append_data-empty :
    (d : List ℕ)
    → (rb : ReadBuffer) × (append_data d (empty (length d)) ≡ (ok tt, rb))
      × IsValid rb
      × (unread rb ≡ d)
      × (rb.capacity ≡ length d)
append_data-empty d =
    let (rb, e, v, u, _) =
      append_data-unread d (empty (length d)) (empty-IsValid (length d)) refl (inr (omega arith)) in
    (rb, e, v, u, ap (λ r. r.1.capacity) (sym e) ∙ append_data-empty_capacity d)
