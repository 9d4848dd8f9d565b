-- ===== src/Amf/Ends.antt =====
-- amf0.cpp: how many bytes each parse takes at least, for the loops that depend on it to end.
use tvie_rtmp.Base.{
  ℕ, zero, suc, ◌+◌, ◌*◌, ◌^◌, ◌≤◌, ◌<◌, ◌≡◌, ◌≢◌, Bool, true, false, not, ◌&&◌, bit_or, arith,
  ◌==◌, if◌then◌else◌,
}
use tvie_rtmp.Base.Int.{pos}
use tvie_rtmp.Exception.{
  Thrown, no_enough_data, std_exception, hang, fault, Result, ok, err, M, pure, throw, throw_if,
  gets, then_do, ◌>>=◌, ◌>>◌, try_catch, caught,
}
use tvie_rtmp.ReadBuffer.{
  ReadBuffer, Mode, big, shift, unread_size, read_byte, copy_out, read_bytes, read_chars, skip,
  read, read_loop, peek, peek_count, set_bi,
}
use tvie_rtmp.ReadBuffer.Number.{little_value}
use tvie_rtmp.Utility.{reverse_bytes}
use tvie_rtmp.Amf.{
  c_string, expect, parse_object_key, parse_as_string, parse_as_bool, parse_as_number, ignore,
  end_or, get_next_type, skip_with, skip_object_with, skip_item, object_loop, skip_object,
  skip_type,
}

-- A call that began at `rb` returned and took `d` bytes at least, or threw, but did not run for ever.
abbrev pub Ends : {A : Type 0} → ℕ → ReadBuffer → Result A × ReadBuffer → Type 0
Ends d rb (ok a, rb') = (rb'.cout ≡ rb.cout) × (rb.bi + d ≤ rb'.bi) × (rb'.bi ≤ rb'.cout)
Ends d rb (err e, rb') = e ≢ hang

abbrev pub Spends : {A : Type 0} → ℕ → M ReadBuffer A → Type 0
Spends d m = (rb : ReadBuffer) → rb.bi ≤ rb.cout → Ends d rb (m rb)

pub Ends->>= :
    {A B : Type 0} (m : M ReadBuffer A) (f : A → M ReadBuffer B) (rb : ReadBuffer) (c d k : ℕ)
    → k ≤ c + d
    → Ends c rb (m rb)
    → ((a : A) (rb' : ReadBuffer) → Ends {A = A} c rb (ok a, rb') → Ends d rb' (f a rb'))
    → Ends k rb ((m >>= f) rb)
unfolding ◌>>=◌ then_do
Ends->>= {A} {B} m f rb c d k le p q = go (m rb) p
  where
    further :
        (rb' : ReadBuffer) (r : Result B × ReadBuffer)
        → (rb'.cout ≡ rb.cout)
        → (rb.bi + c ≤ rb'.bi)
        → Ends d rb' r
        → Ends k rb r
    further rb' (ok b, rb2) same moved e = omega arith
    further rb' (err x, rb2) same moved e = e

    go : (r : Result A × ReadBuffer) → Ends c rb r → Ends k rb (then_do f r)
    go (ok a, rb') e = further rb' (f a rb') e.0 e.1 (q a rb' e)
    go (err x, rb') e = e

pub Spends->>= :
    {A B : Type 0} (m : M ReadBuffer A) (f : A → M ReadBuffer B) (c d k : ℕ)
    → k ≤ c + d
    → Spends c m
    → ((a : A) → Spends d (f a))
    → Spends k (m >>= f)
Spends->>= m f c d k le p q rb h = Ends->>= m f rb c d k le (p rb h) (λ a rb' e. q a rb' e.2)

pub throw_if-Spends : (b : Bool) (e : Thrown) → e ≢ hang → Spends 0 (throw_if b e)
throw_if-Spends true e ne rb h = ne
throw_if-Spends false e ne rb h = omega arith

pub pure-Spends : {A : Type 0} (a : A) → Spends 0 (pure a)
pure-Spends a rb h = omega arith

pub read_byte-Spends : Spends 1 read_byte
unfolding read_byte
read_byte-Spends rb h = ground arith

pub expect-Spends : (t : ℕ) → Spends 1 (expect t)
unfolding expect
expect-Spends t =
    Spends->>= read_byte _ 1 0 1 (omega arith) read_byte-Spends
      (λ tp. throw_if-Spends _ _ (λ e. cc))

pub skip-Spends : (n : ℕ) → Spends n (skip n)
unfolding skip
skip-Spends n rb h = ground arith

read_chars-Spends : (n : ℕ) → Spends n (read_chars n)
unfolding read_chars copy_out ◌>>=◌ then_do
read_chars-Spends n rb h = ground arith

read_loop-Spends : (mode : Mode) (size i left v : ℕ) → Spends left (read_loop mode size i left v)
unfolding read_loop
read_loop-Spends mode size i zero v = pure-Spends v
read_loop-Spends mode size i (suc left) v =
    Spends->>= read_byte _ 1 left (suc left) (omega arith) read_byte-Spends
      (λ b. read_loop-Spends mode size (i + 1) left (bit_or v (b * 2 ^ shift mode size i)))

pub gets-Spends : {A : Type 0} (g : ReadBuffer → A) → Spends 0 (gets g)
gets-Spends g rb h = omega arith

pub read-Spends : (width : ℕ) (mode : Mode) (n : ℕ) → Spends n (read width mode (pos n))
unfolding read
read-Spends width mode n = Spends->>= _ _ 0 n n (omega arith) (throw_if-Spends _ _ (λ e. cc)) λ _.
    Spends->>= _ _ 0 n n (omega arith) (gets-Spends unread_size) λ s.
      Spends->>= _ _ 0 n n (omega arith) (throw_if-Spends _ _ (λ e. cc))
        λ _. read_loop-Spends mode n 0 n 0

pub peek-Spends : (width : ℕ) (mode : Mode) → Spends 0 (peek width mode)
unfolding peek try_catch caught set_bi ◌>>=◌ then_do
peek-Spends width mode rb h =
    go (read width mode (pos width) rb) (read-Spends width mode width rb h)
  where
    go :
        (r : Result ℕ × ReadBuffer)
        → Ends width rb r
        → Ends 0 rb (
            caught
              (elim [ no_enough_data ↦ set_bi rb.bi >> throw no_enough_data | other ↦ throw other ])
              (then_do (λ v. set_bi rb.bi >> pure v) r))
    go (ok v, rb') e = omega arith
    go (err no_enough_data, rb') e = λ q. cc
    go (err other, rb') e = e

peek_count-Spends : (width : ℕ) (mode : Mode) (n : ℕ) → Spends 0 (peek_count width mode (pos n))
unfolding peek_count try_catch caught set_bi ◌>>=◌ then_do
peek_count-Spends width mode n rb h =
    go (read width mode (pos n) rb) (read-Spends width mode n rb h)
  where
    go :
        (r : Result ℕ × ReadBuffer)
        → Ends n rb r
        → Ends 0 rb (
            caught
              (elim [
                | fault ↦ throw fault
                | hang ↦ throw hang
                | other ↦ set_bi rb.bi >> throw std_exception
              ])
              (then_do (λ v. set_bi rb.bi >> pure v) r))
    go (ok v, rb') e = omega arith
    go (err fault, rb') e = e
    go (err hang, rb') e = e
    go (err other, rb') e = λ q. cc

pub get_next_type-Spends : (b : Bool) → Spends 0 (get_next_type b)
unfolding get_next_type end_or
get_next_type-Spends b =
    Spends->>= _ _ 0 0 0 (omega arith) (peek-Spends 1 big) λ p. branch (b && (p == 0)) p
  where
    branch : (c : Bool) (p : ℕ) → Spends 0 (if c then end_or p else pure p)
    branch true p =
        Spends->>= _ _ 0 0 0 (omega arith) (peek_count-Spends 4 big 3)
          λ m. pure-Spends (if m == 9 then 9 else p)
    branch false p = pure-Spends p

pub read_bytes-Spends : (n : ℕ) → Spends n (read_bytes (pos n))
unfolding read_bytes copy_out ◌>>=◌ then_do
read_bytes-Spends n rb h = ground arith

ignore-Spends : {A : Type 0} (d : ℕ) (m : M ReadBuffer A) → Spends d m → Spends d (ignore m)
unfolding ignore
ignore-Spends d m p = Spends->>= m _ d 0 d (omega arith) p (λ _. pure-Spends tt)

pub parse_object_key-Spends : Spends 1 parse_object_key
unfolding parse_object_key
parse_object_key-Spends = Spends->>= _ _ 2 0 1 (omega arith) (read-Spends 2 big 2) λ len rb h.
    Ends->>= _ _ rb len 0 0 (omega arith) (read_chars-Spends len rb h)
      (λ cs rb' e. pure-Spends (c_string cs) rb' e.2)

pub parse_as_string-Spends : Spends 1 parse_as_string
unfolding parse_as_string
parse_as_string-Spends = Spends->>= _ _ 1 0 1 (omega arith) (expect-Spends 2) λ _.
    Spends->>= _ _ 2 0 0 (omega arith) (read-Spends 2 big 2) λ len.
      Spends->>= _ _ len 0 0 (omega arith) (read_chars-Spends len) (λ cs. pure-Spends (c_string cs))

pub parse_as_bool-Spends : Spends 1 parse_as_bool
unfolding parse_as_bool
parse_as_bool-Spends =
    Spends->>= _ _ 1 0 1 (omega arith) (expect-Spends 1)
      λ _. Spends->>= _ _ 1 0 0 (omega arith) read_byte-Spends (λ b. pure-Spends (not (b == 0)))

pub parse_as_number-Spends : Spends 1 parse_as_number
unfolding parse_as_number
parse_as_number-Spends = Spends->>= _ _ 1 0 1 (omega arith) (expect-Spends 0) λ _.
    Spends->>= _ _ 8 0 0 (omega arith) (read_bytes-Spends 8)
      (λ b. pure-Spends (little_value (reverse_bytes b 8)))

-- What a nested object takes, at one state.
skip_with-Ends :
    (obj : M ReadBuffer (Unit {0})) (t : ℕ) (rb : ReadBuffer)
    → rb.bi ≤ rb.cout
    → Ends 1 rb (obj rb)
    → Ends 1 rb (skip_with obj t rb)
unfolding skip_with
skip_with-Ends obj t rb h p = ground (
  arith,
  ignore-Spends 1 parse_as_number parse_as_number-Spends rb h,
  ignore-Spends 1 parse_as_bool parse_as_bool-Spends rb h,
  ignore-Spends 1 parse_as_string parse_as_string-Spends rb h,
  expect-Spends 5 rb h,
  expect-Spends 6 rb h,
)

skip_item-Ends :
    (obj : M ReadBuffer (Unit {0})) (key : Bool) (t : ℕ) (rb : ReadBuffer)
    → rb.bi ≤ rb.cout
    → Ends 1 rb (obj rb)
    → Ends 1 rb (skip_item obj key t rb)
unfolding skip_item
skip_item-Ends obj true t rb h p = ignore-Spends 1 parse_object_key parse_object_key-Spends rb h
skip_item-Ends obj false t rb h p = skip_with-Ends obj t rb h p

skip_object_with-Ends :
    (loop : Bool → M ReadBuffer (Unit {0})) (rb : ReadBuffer)
    → rb.bi ≤ rb.cout
    → ((rb' : ReadBuffer)
        → rb'.bi ≤ rb'.cout
        → unread_size rb' < unread_size rb
        → Ends 0 rb' (loop true rb'))
    → Ends 1 rb (skip_object_with loop rb)
unfolding skip_object_with
skip_object_with-Ends loop rb h p =
    Ends->>= _ _ rb 1 0 1 (omega arith) (skip-Spends 1 rb h) λ _ rb' e.
      Ends->>= _ _ rb' 0 0 0 (omega arith) (p rb' e.2 (omega arith))
        λ _ rb2 e2. weaken rb2 (skip-Spends 3 rb2 e2.2)
  where
    weaken : (rb2 : ReadBuffer) → Ends 3 rb2 (skip 3 rb2) → Ends 0 rb2 (skip 3 rb2)
    weaken rb2 e = go (skip 3 rb2) e
      where
        go : (r : Result (Unit {0}) × ReadBuffer) → Ends 3 rb2 r → Ends 0 rb2 r
        go (ok a, s) q = omega arith
        go (err x, s) q = q

object_loop-Ends :
    (fuel : ℕ) (key : Bool) (rb : ReadBuffer)
    → rb.bi ≤ rb.cout
    → unread_size rb < fuel
    → Ends 0 rb (object_loop fuel key rb)
unfolding object_loop
object_loop-Ends zero key rb h f = absurd (omega arith)
object_loop-Ends (suc fuel) key rb h f =
    Ends->>= _ _ rb 0 0 0 (omega arith) (get_next_type-Spends true rb h)
      λ t rb1 e1. branch (object_loop-Ends fuel) t rb1 e1 (t == 9)
  where
    obj : M ReadBuffer (Unit {0})
    obj = skip_object_with (object_loop fuel)

    branch :
        ((k : Bool) (r : ReadBuffer)
          → r.bi ≤ r.cout
          → unread_size r < fuel
          → Ends 0 r (object_loop fuel k r))
        → (t : ℕ) (rb1 : ReadBuffer) → Ends {A = ℕ} 0 rb (ok t, rb1)
        → (b : Bool)
        → Ends 0 rb1
            ((if b then pure tt else (skip_item obj key t >> object_loop fuel (not key))) rb1)
    branch ih t rb1 e1 true = omega arith
    branch ih t rb1 e1 false =
        Ends->>= _ _ rb1 1 0 0 (omega arith)
          (skip_item-Ends obj key t rb1 e1.2 (
            skip_object_with-Ends (object_loop fuel) rb1 e1.2
              (λ r hr lt. ih true r hr (omega arith))))
          (λ _ rb2 e2. ih (not key) rb2 e2.2 (omega arith))

-- AMF0Parser::skip ends at every type and on every buffer whose read position is not past its count:
-- it takes at least one byte or throws.
pub skip_type-Ends : (t : ℕ) (rb : ReadBuffer) → rb.bi ≤ rb.cout → Ends 1 rb (skip_type t rb)
unfolding skip_type skip_object ◌>>=◌ then_do
skip_type-Ends t rb h = skip_with-Ends skip_object t rb h (
    skip_object_with-Ends (object_loop (suc (unread_size rb))) rb h
      (λ r hr lt. object_loop-Ends (suc (unread_size rb)) true r hr (omega arith)))
