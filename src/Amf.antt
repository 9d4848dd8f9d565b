-- ===== src/Amf.antt =====
-- amf0.h and amf0.cpp: AMF0Parser over a ReadBuffer and AMF0Serializer over a WriteBuffer.
--
-- A type is its code, since getNextType converts any byte to AMF0Types. A double is its 64-bit
-- pattern, stored lowest byte first as on the hosts that the byte reversal is written for.
pub mod Amf0Type
pub mod Format
pub mod RoundTrip
pub mod Ends
pub mod NextType
pub mod Exact
use tvie_rtmp.Base.{
  ℕ, zero, suc, ◌+◌, ◌/◌, ◌%◌, ◌^◌, Bool, true, false, not, ◌&&◌, List, [], ◌∷◌, if◌then◌else◌,
  ◌==◌, length,
}
use tvie_rtmp.Base.Int.{pos}
use tvie_rtmp.Exception.{
  invalid_amf_data, not_implemented, hang, M, pure, throw, throw_if, gets, ◌>>=◌, ◌>>◌,
}
use tvie_rtmp.ReadBuffer.{
  ReadBuffer, big, unread_size, read_byte, read_bytes, read_chars, read_all, skip, peek, peek_count,
}
use tvie_rtmp.ReadBuffer.Number.{little_value}
use tvie_rtmp.WriteBuffer.{WriteBuffer, write_b, write_bytes}
use tvie_rtmp.Utility.{reverse_bytes}

-- `string ret(strData)`: the characters before the first 0.
abbrev pub c_string : List ℕ → List ℕ
c_string [] = []
c_string (c ∷ cs) = if c == 0 then [] else c ∷ c_string cs

-- The type byte that each parse begins with.
unfoldable pub expect : ℕ → M ReadBuffer (Unit {0})
expect t = do tp ← read_byte; throw_if (not (tp == t)) invalid_amf_data

unfoldable pub parse_object_key : M ReadBuffer (List ℕ)
parse_object_key = do len ← read_all 2 big; chars ← read_chars len; pure (c_string chars)

unfoldable pub parse_as_string : M ReadBuffer (List ℕ)
parse_as_string = do
  expect Amf0Type.string
  len ← read_all 2 big
  chars ← read_chars len
  pure (c_string chars)

unfoldable pub parse_as_bool : M ReadBuffer Bool
parse_as_bool = do expect Amf0Type.boolean; b ← read_byte; pure (not (b == 0))

unfoldable pub parse_as_number : M ReadBuffer ℕ
parse_as_number = do
  expect Amf0Type.number
  bytes ← read_bytes (pos 8)
  pure (little_value (reverse_bytes bytes 8))

abbrev pub parse_null : M ReadBuffer (Unit {0})
parse_null = expect Amf0Type.null

abbrev pub parse_undefined : M ReadBuffer (Unit {0})
parse_undefined = expect Amf0Type.undefined

abbrev pub skip_object_start : M ReadBuffer (Unit {0})
skip_object_start = skip 1

-- type + length
abbrev pub skip_ecma_array_start : M ReadBuffer (Unit {0})
skip_ecma_array_start = skip 5

abbrev pub skip_object_end : M ReadBuffer (Unit {0})
skip_object_end = skip 3

-- The end mark of an object, looked for where a 0 byte comes next.
unfoldable pub end_or : ℕ → M ReadBuffer ℕ
end_or p = do
  end_mark ← peek_count 4 big (pos 3)
  pure (if end_mark == 9 then Amf0Type.object_end else p)

unfoldable pub get_next_type : Bool → M ReadBuffer ℕ
get_next_type parsing_object = do
  p ← peek 1 big
  if parsing_object && (p == 0) then end_or p else pure p

abbrev pub is_finished : ReadBuffer → Bool
is_finished rb = unread_size rb == 0

unfoldable pub ignore : {A : Type 0} → M ReadBuffer A → M ReadBuffer (Unit {0})
ignore m = do _ ← m; pure tt

-- skip(t), with what it calls for an object.
unfoldable pub skip_with : M ReadBuffer (Unit {0}) → ℕ → M ReadBuffer (Unit {0})
skip_with skip_obj t =
    if t == Amf0Type.number
    then ignore parse_as_number
    else (if t == Amf0Type.boolean
        then ignore parse_as_bool
        else (if t == Amf0Type.string
            then ignore parse_as_string
            else (if t == Amf0Type.object
                then skip_obj
                else (if t == Amf0Type.null
                    then parse_null
                    else (if t == Amf0Type.undefined
                        then parse_undefined
                        else throw not_implemented)))))

-- skipObject, with its loop.
unfoldable pub skip_object_with : (Bool → M ReadBuffer (Unit {0})) → M ReadBuffer (Unit {0})
skip_object_with loop = do skip_object_start; loop true; skip_object_end

-- One pass of the loop's body, with the object skipper of the level below.
unfoldable pub skip_item : M ReadBuffer (Unit {0}) → Bool → ℕ → M ReadBuffer (Unit {0})
skip_item skip_obj true t = ignore parse_object_key
skip_item skip_obj false t = skip_with skip_obj t

-- The loop of skipObject. `hang`: out of fuel.
unfoldable pub object_loop : ℕ → Bool → M ReadBuffer (Unit {0})
object_loop zero parsing_key = throw hang
object_loop (suc fuel) parsing_key = do
  t ← get_next_type true
  let rest = (do
    skip_item (skip_object_with (object_loop fuel)) parsing_key t
    object_loop fuel (not parsing_key))
  if t == Amf0Type.object_end then pure tt else rest

-- Every pass takes a byte at least, so one more than the unread bytes is enough fuel.
unfoldable pub skip_object : M ReadBuffer (Unit {0})
skip_object = do n ← gets unread_size; skip_object_with (object_loop (suc n))

unfoldable pub skip_type : ℕ → M ReadBuffer (Unit {0})
skip_type t = skip_with skip_object t

-- The bytes of a double in memory.
abbrev pub little_bytes : ℕ → ℕ → List ℕ
little_bytes zero v = []
little_bytes (suc n) v = (v % 256) ∷ little_bytes n (v / 256)

unfoldable pub write_string : List ℕ → M WriteBuffer (Unit {0})
write_string v = do write_b 1 Amf0Type.string; write_b 2 (length v % 2 ^ 16); write_bytes v

unfoldable pub write_number : ℕ → M WriteBuffer (Unit {0})
write_number v = do write_b 1 Amf0Type.number; write_bytes (reverse_bytes (little_bytes 8 v) 8)

abbrev pub write_object_start : M WriteBuffer (Unit {0})
write_object_start = write_b 1 Amf0Type.object

unfoldable pub write_object_end : M WriteBuffer (Unit {0})
write_object_end = do write_b 2 0; write_b 1 Amf0Type.object_end

unfoldable pub write_object_key : List ℕ → M WriteBuffer (Unit {0})
write_object_key v = do write_b 2 (length v % 2 ^ 16); write_bytes v

unfoldable pub write_bool : Bool → M WriteBuffer (Unit {0})
write_bool v = do write_b 1 Amf0Type.boolean; write_b 1 (if v then 1 else 0)

abbrev pub write_null : M WriteBuffer (Unit {0})
write_null = write_b 1 Amf0Type.null

abbrev pub write_undefined : M WriteBuffer (Unit {0})
write_undefined = write_b 1 Amf0Type.undefined
