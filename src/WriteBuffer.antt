-- ===== src/WriteBuffer.antt =====
-- writebuffer.h and writebuffer.cpp: the buffer that outgoing bytes are assembled in, bit by bit.
--
-- `buffer` is the allocation, of `size` bytes, `bi` the byte that is written next and `bits_left`
-- how many of its bits are free. An access outside the allocation is a `fault`. Values come as bit
-- patterns, widths as ℕ: the callers pass no negative ones but the constructor's size.
pub mod Bytes
pub mod Words
pub mod Parts
pub mod Growth
use tvie_rtmp.Base.{
  ℕ, zero, suc, ◌+◌, ◌-◌, ◌*◌, ◌/◌, ◌%◌, ◌^◌, bit_and, bit_or, Option, none, some, List, [], ◌∷◌,
  ◌++◌, ltb, leb, ◌==◌, if◌then◌else◌, length, get_elem?, set, take, memcpy, zeros,
}
use tvie_rtmp.Base.Int.{ℤ, pos, negsuc}
use tvie_rtmp.Exception.{
  invalid_arg, fault, hang, Result, ok, err, M, pure, throw, throw_if, gets, modify, ◌>>=◌, ◌>>◌,
}

pub record WriteBuffer : Type 0 where
  pub buffer : List ℕ
  pub bi : ℕ
  pub bits_left : ℕ
  pub size : ℕ

abbrev pub empty : ℕ → WriteBuffer
empty n = record { buffer = zeros n; bi = 0; bits_left = 8; size = n }

-- WriteBuffer(size), as an expression of a method of another object.
unfoldable pub create : {S : Type 0} → ℤ → M S WriteBuffer
create (negsuc n) = throw invalid_arg
create (pos n) = pure (empty n)

unfoldable pub re_init : WriteBuffer → WriteBuffer
re_init wb = record wb { buffer = zeros wb.size; bi = 0; bits_left = 8 }

-- realloc(): only the `bi` whole bytes are copied.
unfoldable pub realloc : M WriteBuffer (Unit {0})
realloc wb = if ltb wb.size wb.bi then (err fault, wb) else (
  ok tt,
  record wb { buffer = take wb.bi wb.buffer ++ zeros (wb.size * 2 - wb.bi); size = wb.size * 2 },
)

unfoldable pub realloc_for_write : M WriteBuffer (Unit {0})
realloc_for_write wb = if ltb (wb.bi + 9) wb.size then (ok tt, wb) else realloc wb

-- buffer_[i] = v
unfoldable pub store : ℕ → ℕ → M WriteBuffer (Unit {0})
store i v wb =
    if ltb i (length wb.buffer)
    then (ok tt, record wb { buffer = set wb.buffer i v })
    else (err fault, wb)

-- buffer_[i] |= v
unfoldable pub or_store : ℕ → ℕ → M WriteBuffer (Unit {0})
or_store i v wb = elim (get_elem? wb.buffer i) [
  | none ↦ (err fault, wb)
  | some old ↦ (ok tt, record wb { buffer = set wb.buffer i (bit_or old v) })
]

-- The end of writeByte, behind the bits that went into the current byte.
unfoldable pub step_on : ℕ → ℕ → ℕ → M WriteBuffer (Unit {0})
step_on s bits left_shift wb =
    if leb wb.bits_left bits
    then (do
      store (wb.bi + 1) (bit_and s left_shift)
      modify (λ w. record w { bi = wb.bi + 1; bits_left = 8 - left_shift }))
        wb
    else (ok tt, record wb { bits_left = wb.bits_left - bits })

-- writeByte(s, bits)
unfoldable pub write_bits : ℕ → ℕ → M WriteBuffer (Unit {0})
write_bits s bits = do
  throw_if (ltb 8 bits) invalid_arg
  wb ← gets (λ w. w)
  or_store wb.bi (s % 2 ^ bits / 2 ^ (bits - wb.bits_left))
  step_on (s % 2 ^ bits) bits (bits - wb.bits_left)

-- writeByte(s)
abbrev pub write_byte : ℕ → M WriteBuffer (Unit {0})
write_byte s = write_bits s 8

-- while(size > size_ - bi_ + 1) realloc();
unfoldable pub make_room : ℕ → ℕ → M WriteBuffer (Unit {0})
make_room zero n = throw hang
make_room (suc fuel) n = do
  wb ← gets (λ w. w)
  let more = realloc >> make_room fuel n
  if ltb (wb.size + 1) (wb.bi + n) then more else pure tt

-- The loop of writeBytes between byte boundaries: `idx` stays 0.
unfoldable pub spill : ℕ → ℕ → M WriteBuffer (Unit {0})
spill zero d = throw hang
spill (suc fuel) d = do
  wb ← gets (λ w. w)
  or_store wb.bi (d / 2 ^ (8 - wb.bits_left))
  modify (λ w. record w { bi = w.bi + 1 })
  store (wb.bi + 1) (d * 2 ^ wb.bits_left % 256)
  spill fuel d

-- memcpy(buffer_ + bi_, data, size); bi_ += size;
unfoldable pub copy_in : List ℕ → M WriteBuffer (Unit {0})
copy_in d wb = elim (memcpy wb.buffer wb.bi d) [
  | none ↦ (err fault, wb)
  | some b ↦ (ok tt, record wb { buffer = b; bi = wb.bi + length d })
]

unfoldable pub spill_all : List ℕ → M WriteBuffer (Unit {0})
spill_all [] = pure tt
spill_all (d ∷ ds) = do wb ← gets (λ w. w); spill (suc wb.size) d

unfoldable pub write_bytes : List ℕ → M WriteBuffer (Unit {0})
write_bytes d = do
  before ← gets (λ w. w)
  make_room (suc (before.bi + length d)) (length d)
  wb ← gets (λ w. w)
  if wb.bits_left == 8 then copy_in d else spill_all d

-- `(bits - 8) > 0 ? 8 : bits`
abbrev pub chunk_bits : ℕ → ℕ
chunk_bits bits = if ltb 8 bits then 8 else bits

-- The loop of writeB. `1 << bits` is undefined from 31 bits on.
unfoldable pub write_b_loop : ℕ → ℕ → ℕ → M WriteBuffer (Unit {0})
write_b_loop zero t bits = throw hang
write_b_loop (suc fuel) t bits =
    let left = bits - chunk_bits bits in
    let round = (do
      write_bits (t / 2 ^ left % 256) (chunk_bits bits)
      throw_if (leb 31 left) fault
      write_b_loop fuel (t % 2 ^ left) left) in
    if bits == 0 then pure tt else round

-- `bits_v`, as a modulus.
abbrev pub mask_modulus : ℕ → ℕ
mask_modulus bits = if bits == 64 then 2 ^ 32 else 2 ^ bits

-- writeB<T>(s, bits), for a T of `width` bytes and `s` its bit pattern.
unfoldable pub write_b_bits : ℕ → ℕ → ℕ → M WriteBuffer (Unit {0})
write_b_bits width s bits = do
  throw_if (ltb (width * 8) bits) invalid_arg
  realloc_for_write
  write_b_loop (suc bits) (s % mask_modulus bits) bits

-- writeB<T>(s)
abbrev pub write_b : ℕ → ℕ → M WriteBuffer (Unit {0})
write_b width s = write_b_bits width s (width * 8)

-- `t >> n` at an int32_t: the sign comes in from the left.
abbrev pub shift_right : ℕ → ℕ → ℕ
shift_right t n = if ltb t (2 ^ 31) then t / 2 ^ n else 2 ^ 32 - 1 - (2 ^ 32 - 1 - t) / 2 ^ n

-- The loop of writeL.
unfoldable pub write_l_loop : ℕ → ℕ → ℕ → M WriteBuffer (Unit {0})
write_l_loop zero t bits = throw hang
write_l_loop (suc fuel) t bits =
    let left = bits - chunk_bits bits in
    let round = (do
      write_bits (t % 2 ^ chunk_bits bits) (chunk_bits bits)
      throw_if (leb 31 left) fault
      write_l_loop fuel (shift_right t left % 2 ^ left) left) in
    if bits == 0 then pure tt else round

-- writeL<int32_t>(s, bits), the one T that it is called at.
unfoldable pub write_l_bits : ℕ → ℕ → M WriteBuffer (Unit {0})
write_l_bits s bits = do
  throw_if (ltb 32 bits) invalid_arg
  realloc_for_write
  write_l_loop (suc bits) (s % 2 ^ bits) bits

-- getBufferCount
unfoldable pub buffer_count : WriteBuffer → ℕ
buffer_count wb = if wb.bits_left == 8 then wb.bi else wb.bi + 1

-- getBuffer, and what a reader of getBufferPtr copies.
unfoldable pub get_buffer : WriteBuffer → List ℕ
unfolding buffer_count
get_buffer wb = take (buffer_count wb) wb.buffer
