-- ===== src/ReadBuffer.antt =====
-- readbuffer.h and readbuffer.cpp: the growing buffer that incoming bytes are read from.
--
-- `buffer` is the whole allocation, `cout` how much of it was filled, `bi` the read position. The
-- fields are ints that never go below 0, and sizes that the callers never make negative are ℕ too;
-- `read_bytes`, the constructor and `read` take any int. What `new` leaves uninitialised is 0.
pub mod View
pub mod Append
pub mod Snap
pub mod Number
pub mod Inside
pub mod Safe
use tvie_rtmp.Base.{
  ℕ, zero, suc, ◌+◌, ◌-◌, ◌*◌, ◌^◌, bit_or, Bool, true, false, Option, none, some, List, [], ◌∷◌,
  ◌++◌, ltb, leb, ◌==◌, if◌then◌else◌, length, get_elem?, take, drop, memcpy, zeros,
}
use tvie_rtmp.Base.Int.{ℤ, pos, negsuc, signed32}
use tvie_rtmp.Exception.{
  Thrown, invalid_arg, no_enough_data, not_supported, std_exception, bad_alloc, fault, hang, Result,
  ok, err, M, pure, throw, throw_if, gets, modify, ◌>>=◌, ◌>>◌, try_catch,
}

pub record ReadBuffer : Type 0 where
  pub buffer : List ℕ
  pub capacity : ℕ
  pub cout : ℕ
  pub bi : ℕ
  pub in_snap : Bool
  pub snap_bi : ℕ

pub data Mode : Type 0 where
  big little : Mode

-- The object that `new ReadBuffer(capacity)` makes.
abbrev pub empty : ℕ → ReadBuffer
empty n = record { buffer = zeros n; capacity = n; cout = 0; bi = 0; in_snap = false; snap_bi = 0 }

-- ReadBuffer(capacity), as an expression of a method of another object.
unfoldable pub create : {S : Type 0} → ℤ → M S ReadBuffer
create (pos n) = pure (empty n)
create (negsuc n) = throw bad_alloc

unfoldable pub reset : ReadBuffer → ReadBuffer
reset rb = record rb { cout = 0; bi = 0 }

-- getUnReadSize
abbrev pub unread_size : ReadBuffer → ℕ
unread_size rb = rb.cout - rb.bi

abbrev pub advance : ℕ → ReadBuffer → ReadBuffer
advance n rb = record rb { bi = rb.bi + n }

-- The loop of appendData: the capacity at its end. It doubles while the bytes that are kept, `need`,
-- do not fit. `none`: out of fuel.
unfoldable pub grow : ℕ → ℕ → ℕ → Option ℕ
grow zero need capacity = none
grow (suc fuel) need capacity =
    let rest = grow fuel need (capacity * 2) in if ltb capacity need then rest else some capacity

-- The new allocation, with the unread bytes moved to its start.
unfoldable pub compact : ℕ → ReadBuffer → ReadBuffer
compact capacity rb = record rb {
  buffer = take (rb.cout - rb.bi) (drop rb.bi rb.buffer) ++ zeros (capacity - (rb.cout - rb.bi));
  capacity = capacity;
  cout = rb.cout - rb.bi;
  bi = 0;
}

-- memcpy(buffer_ + cout_, data, size); cout_ += size;
unfoldable pub put : List ℕ → M ReadBuffer (Unit {0})
put bytes rb = elim (memcpy rb.buffer rb.cout bytes) [
  | none ↦ (err fault, rb)
  | some b ↦ (ok tt, record rb { buffer = b; cout = rb.cout + length bytes })
]

-- The loop runs only if the data does not fit behind `cout`; after it the buffer is moved.
unfoldable pub make_room : ℕ → M ReadBuffer (Unit {0})
make_room size rb =
    if ltb rb.capacity (rb.cout + size)
    then elim (grow (suc (rb.cout - rb.bi + size)) (rb.cout - rb.bi + size) rb.capacity) [
      | none ↦ (err hang, rb)
      | some c ↦ (ok tt, compact c rb)
    ]
    else (ok tt, rb)

unfoldable pub append_data : List ℕ → M ReadBuffer (Unit {0})
append_data bytes = do
  throw_if (← gets (λ rb. rb.in_snap)) not_supported
  make_room (length bytes)
  put bytes

unfoldable pub skip : ℕ → M ReadBuffer (Unit {0})
skip n rb = if ltb (unread_size rb) n then (err no_enough_data, rb) else (ok tt, advance n rb)

unfoldable pub read_byte : M ReadBuffer ℕ
read_byte rb =
    if ltb (unread_size rb) 1
    then (err no_enough_data, rb)
    else elim (get_elem? rb.buffer rb.bi) [ none ↦ (err fault, rb) | some b ↦ (ok b, advance 1 rb) ]

-- memcpy(tmp, buffer_ + bi_, size): the copy is a fault where it would leave the allocation.
unfoldable pub copy_out : ℕ → M ReadBuffer (List ℕ)
copy_out n rb =
    if ltb (length rb.buffer) (rb.bi + n)
    then (err fault, rb)
    else (ok (take n (drop rb.bi rb.buffer)), rb)

unfoldable pub read_bytes : ℤ → M ReadBuffer (List ℕ)
read_bytes (negsuc n) = throw bad_alloc
read_bytes (pos n) = do
  throw_if (ltb (← gets unread_size) n) no_enough_data
  bytes ← copy_out n
  modify (advance n)
  pure bytes

-- The memcpy takes `size + 1` bytes, of which the last need not be there. The final 0 overwrites it.
unfoldable pub read_chars : ℕ → M ReadBuffer (List ℕ)
read_chars n = do
  throw_if (ltb (← gets unread_size) n) no_enough_data
  bytes ← copy_out (n + 1)
  modify (advance n)
  pure (take n bytes)

-- getUnReadBuffer
unfoldable pub unread_buffer : M ReadBuffer (List ℕ)
unread_buffer = do
  size ← gets unread_size
  bytes ← read_bytes (pos size)
  modify (λ rb. record rb { bi = rb.bi - size })
  pure bytes

-- The other buffer is the second part of the state.
unfoldable pub put_to_another_buffer : ℕ → M (ReadBuffer × ReadBuffer) (Unit {0})
put_to_another_buffer n (rb, other) =
    if ltb (unread_size rb) n
    then (err no_enough_data, (rb, other))
    else let (r, other') = append_data (take n (drop rb.bi rb.buffer)) other in
      elim r [ ok _ ↦ (ok tt, (advance n rb, other')) | err e ↦ (err e, (rb, other')) ]

-- By how many bits the byte of round `i` is shifted.
abbrev pub shift : Mode → ℕ → ℕ → ℕ
shift big size i = 8 * (size - i - 1)
shift little size i = 8 * i

-- The loop of `read`: `i` rounds are done and `left` are to come, of `size`.
unfoldable pub read_loop : Mode → ℕ → ℕ → ℕ → ℕ → M ReadBuffer ℕ
read_loop mode size i zero v = pure v
read_loop mode size i (suc left) v = do
  b ← read_byte
  read_loop mode size (i + 1) left (bit_or v (b * 2 ^ shift mode size i))

-- read<T>(mode, bytesCount), for a T of `width` bytes: the bit pattern of the T.
unfoldable pub read : ℕ → Mode → ℤ → M ReadBuffer ℕ
read width mode (negsuc n) = throw invalid_arg
read width mode (pos n) = do
  throw_if (ltb width n) invalid_arg
  throw_if (ltb (← gets unread_size) n) no_enough_data
  read_loop mode n 0 n 0

-- read<T>(mode)
abbrev pub read_all : ℕ → Mode → M ReadBuffer ℕ
read_all width mode = read width mode (pos width)

unfoldable pub set_bi : ℕ → M ReadBuffer (Unit {0})
set_bi n = modify (λ rb. record rb { bi = n })

-- peek<T>(mode): only RtmpNoEnoughData is caught, and thrown on.
unfoldable pub peek : ℕ → Mode → M ReadBuffer ℕ
peek width mode = do
  orig_bi ← gets (λ rb. rb.bi)
  try_catch (do v ← read_all width mode; set_bi orig_bi; pure v)
      λ e. elim e [ no_enough_data ↦ set_bi orig_bi >> throw no_enough_data | other ↦ throw other ]

-- peek<T>(mode, bytesCount): every exception is caught as a std::exception, and `throw e` throws a
-- copy of that base class.
unfoldable pub peek_count : ℕ → Mode → ℤ → M ReadBuffer ℕ
peek_count width mode n = do
  orig_bi ← gets (λ rb. rb.bi)
  try_catch (do v ← read width mode n; set_bi orig_bi; pure v)
      λ e. elim e [
        | fault ↦ throw fault
        | hang ↦ throw hang
        | other ↦ set_bi orig_bi >> throw std_exception
      ]

unfoldable pub snap_start : M ReadBuffer (Unit {0})
snap_start rb =
    if rb.in_snap
    then (err invalid_arg, rb)
    else (ok tt, record rb { in_snap = true; snap_bi = rb.bi })

unfoldable pub snap_stop : ReadBuffer → ReadBuffer
snap_stop rb = record rb { in_snap = false; bi = rb.snap_bi }

unfoldable pub snap_clear : ReadBuffer → ReadBuffer
snap_clear rb = record rb { in_snap = false }
