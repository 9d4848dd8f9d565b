-- ===== src/Amf/Amf0Type.antt =====
-- enum AMF0Types: the codes that the parser and the serializer name.
use tvie_rtmp.Base.{ℕ}

abbrev pub number : ℕ
number = 0

abbrev pub boolean : ℕ
boolean = 1

abbrev pub string : ℕ
string = 2

abbrev pub object : ℕ
object = 3

abbrev pub null : ℕ
null = 5

abbrev pub undefined : ℕ
undefined = 6

abbrev pub ecma_array : ℕ
ecma_array = 8

abbrev pub object_end : ℕ
object_end = 9
