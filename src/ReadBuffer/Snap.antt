-- ===== src/ReadBuffer/Snap.antt =====
-- snapStart, snapStop: handleRead takes a snapshot before it parses a message, and goes back to it
-- where the message is not complete.
use tvie_rtmp.Base.{
  ℕ, zero, suc, ◌+◌, ◌*◌, ◌^◌, bit_or, ltb, ◌≡◌, refl, ap, ◌∙◌, Bool, true, false, List, [], ◌∷◌,
  arith,
}
use tvie_rtmp.Base.Int.{ℤ, pos, negsuc}
use tvie_rtmp.Exception.{
  Thrown, no_enough_data, invalid_arg, std_exception, fault, hang, Result, ok, err, M, pure, throw,
  throw_if, gets, modify, then_do, caught, ◌>>=◌, try_catch,
}
use tvie_rtmp.ReadBuffer.{
  ReadBuffer, Mode, shift, advance, unread_size, read_byte, read_bytes, read_chars, copy_out, skip,
  read, read_loop, peek, peek_count, set_bi, snap_start, snap_stop,
}

-- The two buffers differ in the read position at most.
abbrev pub Moved : ReadBuffer → ReadBuffer → Type 0
Moved rb rb' = rb' ≡ record rb { bi = rb'.bi }

-- Whatever the call does, by return or by exception, it moves the read position only.
abbrev pub OnlyMoves : {A : Type 0} → M ReadBuffer A → Type 0
OnlyMoves m = (rb : ReadBuffer) → Moved rb (m rb).1

pub Moved-trans : (a b c : ReadBuffer) → Moved a b → Moved b c → Moved a c
Moved-trans a b c p q = q ∙ ap {A = ReadBuffer} {B = ReadBuffer} (λ r. record r { bi = c.bi }) p

pub read_byte-OnlyMoves : OnlyMoves read_byte
unfolding read_byte
read_byte-OnlyMoves rb = ground arith

pub copy_out-OnlyMoves : (n : ℕ) → OnlyMoves (copy_out n)
unfolding copy_out
copy_out-OnlyMoves n rb = ground arith

pub >>=-OnlyMoves :
    {A B : Type 0} (m : M ReadBuffer A) (f : A → M ReadBuffer B)
    → OnlyMoves m
    → ((a : A) → OnlyMoves (f a))
    → OnlyMoves (m >>= f)
unfolding ◌>>=◌ then_do
>>=-OnlyMoves m f p q rb = go (m rb) (p rb)
  where
    go : (r : Result _ × ReadBuffer) → Moved rb r.1 → Moved rb (then_do f r).1
    go (ok a, rb') h = Moved-trans rb rb' (f a rb').1 h (q a rb')
    go (err e, rb') h = h

pub throw_if-OnlyMoves : (b : Bool) (e : Thrown) → OnlyMoves (throw_if b e)
throw_if-OnlyMoves b e rb = refl

pub set_bi-OnlyMoves : (n : ℕ) → OnlyMoves (set_bi n)
unfolding set_bi
set_bi-OnlyMoves n rb = refl

pub try_catch-OnlyMoves :
    {A : Type 0} (m : M ReadBuffer A) (h : Thrown → M ReadBuffer A)
    → OnlyMoves m
    → ((e : Thrown) → OnlyMoves (h e))
    → OnlyMoves (try_catch m h)
unfolding try_catch caught
try_catch-OnlyMoves m h p q rb = go (m rb) (p rb)
  where
    go : (r : Result _ × ReadBuffer) → Moved rb r.1 → Moved rb (caught h r).1
    go (ok a, rb') e = e
    go (err x, rb') e = Moved-trans rb rb' (h x rb').1 e (q x rb')

pub skip-OnlyMoves : (n : ℕ) → OnlyMoves (skip n)
unfolding skip
skip-OnlyMoves n rb = ground arith

-- The guard on the size and what follows it.
pub guarded-OnlyMoves :
    {A : Type 0} (g : ReadBuffer → ℕ) (test : ℕ → Bool) (e : Thrown) (m : M ReadBuffer A)
    → OnlyMoves m
    → OnlyMoves (gets g >>= λ s. throw_if (test s) e >>= λ _. m)
guarded-OnlyMoves g test e m p =
    >>=-OnlyMoves (gets g) _ (λ rb. refl)
      λ s. >>=-OnlyMoves (throw_if (test s) e) _ (throw_if-OnlyMoves (test s) e) λ _. p

pub read_bytes-OnlyMoves : (n : ℤ) → OnlyMoves (read_bytes n)
unfolding read_bytes
read_bytes-OnlyMoves (negsuc n) = λ rb. refl
read_bytes-OnlyMoves (pos n) =
    guarded-OnlyMoves unread_size (λ s. ltb s n) no_enough_data _
      (>>=-OnlyMoves (copy_out n) _ (copy_out-OnlyMoves n)
        λ bytes. >>=-OnlyMoves (modify (advance n)) _ (λ rb. refl) λ _ rb. refl)

pub read_chars-OnlyMoves : (n : ℕ) → OnlyMoves (read_chars n)
unfolding read_chars
read_chars-OnlyMoves n =
    guarded-OnlyMoves unread_size (λ s. ltb s n) no_enough_data _
      (>>=-OnlyMoves (copy_out (n + 1)) _ (copy_out-OnlyMoves (n + 1))
        λ bytes. >>=-OnlyMoves (modify (advance n)) _ (λ rb. refl) λ _ rb. refl)

pub read_loop-OnlyMoves :
    (mode : Mode) (size i left v : ℕ) → OnlyMoves (read_loop mode size i left v)
unfolding read_loop
read_loop-OnlyMoves mode size i zero v = λ rb. refl
read_loop-OnlyMoves mode size i (suc left) v =
    >>=-OnlyMoves read_byte _ read_byte-OnlyMoves
      λ b. read_loop-OnlyMoves mode size (i + 1) left (bit_or v (b * 2 ^ shift mode size i))

pub read-OnlyMoves : (width : ℕ) (mode : Mode) (n : ℤ) → OnlyMoves (read width mode n)
unfolding read
read-OnlyMoves width mode (negsuc n) = λ rb. refl
read-OnlyMoves width mode (pos n) =
    >>=-OnlyMoves (throw_if (ltb width n) invalid_arg) _
      (throw_if-OnlyMoves (ltb width n) invalid_arg)
      λ _.
        guarded-OnlyMoves unread_size (λ s. ltb s n) no_enough_data _
          (read_loop-OnlyMoves mode n 0 n 0)

back-OnlyMoves :
    {A : Type 0} (n : ℕ) (m : M ReadBuffer A) → OnlyMoves m → OnlyMoves (set_bi n >>= λ _. m)
back-OnlyMoves n m p = >>=-OnlyMoves (set_bi n) _ (set_bi-OnlyMoves n) λ _. p

tried-OnlyMoves :
    (n : ℕ) (m : M ReadBuffer ℕ) → OnlyMoves m → OnlyMoves (m >>= λ v. set_bi n >>= λ _. pure v)
tried-OnlyMoves n m p = >>=-OnlyMoves m _ p λ v. back-OnlyMoves n (pure v) (λ rb. refl)

pub peek-OnlyMoves : (width : ℕ) (mode : Mode) → OnlyMoves (peek width mode)
unfolding peek
peek-OnlyMoves width mode =
    >>=-OnlyMoves (gets (λ rb. rb.bi)) _ (λ rb. refl)
      λ o.
        try_catch-OnlyMoves _ _ (tried-OnlyMoves o _ (read-OnlyMoves width mode (pos width)))
          (elim [
            | no_enough_data ↦ back-OnlyMoves o (throw no_enough_data) (λ rb. refl)
            | other ↦ λ rb. refl
          ])

pub peek_count-OnlyMoves : (width : ℕ) (mode : Mode) (n : ℤ) → OnlyMoves (peek_count width mode n)
unfolding peek_count
peek_count-OnlyMoves width mode n =
    >>=-OnlyMoves (gets (λ rb. rb.bi)) _ (λ rb. refl)
      λ o. try_catch-OnlyMoves _ _ (tried-OnlyMoves o _ (read-OnlyMoves width mode n)) (elim [
        | fault ↦ λ rb. refl
        | hang ↦ λ rb. refl
        | other ↦ back-OnlyMoves o (throw std_exception) (λ rb. refl)
      ])

-- The calls by which a message is parsed.
pub data Call : Type 0 where
  byte : Call
  bytes : ℤ → Call
  chars over : ℕ → Call
  number number_at : ℕ → Mode → ℤ → Call
  look : ℕ → Mode → Call

-- The buffer after the call, whether it returned or threw.
abbrev pub after : Call → ReadBuffer → ReadBuffer
after byte rb = (read_byte rb).1
after (bytes n) rb = (read_bytes n rb).1
after (chars n) rb = (read_chars n rb).1
after (over n) rb = (skip n rb).1
after (number w mode n) rb = (read w mode n rb).1
after (number_at w mode n) rb = (peek_count w mode n rb).1
after (look w mode) rb = (peek w mode rb).1

abbrev pub after_all : List Call → ReadBuffer → ReadBuffer
after_all [] rb = rb
after_all (c ∷ cs) rb = after_all cs (after c rb)

pub after-Moved : (c : Call) (rb : ReadBuffer) → Moved rb (after c rb)
after-Moved byte rb = read_byte-OnlyMoves rb
after-Moved (bytes n) rb = read_bytes-OnlyMoves n rb
after-Moved (chars n) rb = read_chars-OnlyMoves n rb
after-Moved (over n) rb = skip-OnlyMoves n rb
after-Moved (number w mode n) rb = read-OnlyMoves w mode n rb
after-Moved (number_at w mode n) rb = peek_count-OnlyMoves w mode n rb
after-Moved (look w mode) rb = peek-OnlyMoves w mode rb

after_all-Moved : (cs : List Call) (rb : ReadBuffer) → Moved rb (after_all cs rb)
after_all-Moved [] rb = refl
after_all-Moved (c ∷ cs) rb =
    Moved-trans rb (after c rb) (after_all cs (after c rb)) (after-Moved c rb)
      (after_all-Moved cs (after c rb))

-- A snapshot that is started, then any reading calls, whether they return or throw, and snapStop:
-- the buffer is as it was, but for the remembered position, so the same bytes are unread again.
pub snap_rollback :
    (cs : List Call) (rb : ReadBuffer)
    → rb.in_snap ≡ false
    → snap_stop (after_all cs (snap_start rb).1) ≡ record rb { snap_bi = rb.bi }
unfolding snap_start snap_stop
snap_rollback cs rb s =
    let started : ReadBuffer = record rb { in_snap = true; snap_bi = rb.bi } in
    rw (s, snap_start) (ap {A = ReadBuffer} {B = ReadBuffer} snap_stop (after_all-Moved cs started))
