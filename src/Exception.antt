-- ===== src/Exception.antt =====
-- rtmpexception.h: the exception classes, and the monad of the methods that throw them. The state
-- comes back after a throw too, since what a method wrote before it stays written.
use tvie_rtmp.Base.{◌≡◌, refl, Bool, if◌then◌else◌}

-- One constructor for each class that is thrown or declared; the texts of the messages are only
-- logged, and left out. `std_exception` is the base class, which `throw e` on a sliced copy throws,
-- and `bad_alloc` is what `new` throws at a negative size. The last two are no exceptions:
-- `fault` is an access outside an allocation or through a null pointer, `hang` a loop that does
-- not end.
pub data Thrown : Type 0 where
  invalid_arg no_enough_data bad_protocal_data not_supported bad_state invalid_amf_data : Thrown
  internal_error not_implemented partial_data continue std_exception bad_alloc fault hang : Thrown

pub data Result (A : Type 0) : Type 0 where
  ok : A → Result A
  err : Thrown → Result A

abbrev pub M : Type 0 → Type 0 → Type 0
M S A = S → Result A × S

module _ {S A : Type 0} where
  abbrev pub pure : A → M S A
  pure a s = (ok a, s)

  abbrev pub throw : Thrown → M S A
  throw e s = (err e, s)

  abbrev pub gets : (S → A) → M S A
  gets f s = (ok (f s), s)

abbrev pub modify : {S : Type 0} → (S → S) → M S (Unit {0})
modify f s = (ok tt, f s)

abbrev pub throw_if : {S : Type 0} → Bool → Thrown → M S (Unit {0})
throw_if b e s = (if b then err e else ok tt, s)

-- What follows a call by how the call ended.
unfoldable pub then_do : {S A B : Type 0} → (A → M S B) → Result A × S → Result B × S
then_do f (ok a, s) = f a s
then_do f (err e, s) = (err e, s)

infixl 5 ◌>>=◌ ◌>>◌
unfoldable pub ◌>>=◌ : {S A B : Type 0} → M S A → (A → M S B) → M S B
unfolding then_do
◌>>=◌ m f s = then_do f (m s)

abbrev pub ◌>>◌ : {S A B : Type 0} → M S A → M S B → M S B
m >> k = m >>= λ _. k

unfoldable pub caught : {S A : Type 0} → (Thrown → M S A) → Result A × S → Result A × S
caught h (ok a, s) = (ok a, s)
caught h (err e, s) = h e s

-- try { m } catch(…) { h }
unfoldable pub try_catch : {S A : Type 0} → M S A → (Thrown → M S A) → M S A
unfolding caught
try_catch m h s = caught h (m s)

unfoldable pub refocus : {S T A : Type 0} → (T → S → S) → S → Result A × T → Result A × S
refocus put s (r, t) = (r, put t s)

-- A method of a member object.
unfoldable pub on : {S T A : Type 0} → (S → T) → (T → S → S) → M T A → M S A
unfolding refocus
on get put m s = refocus put s (m (get s))

-- A method called on a local object: only its result is left.
unfoldable pub local_result : {S T A : Type 0} → S → Result A × T → Result A × S
local_result s (r, t) = (r, s)

unfoldable pub on_local : {S T A : Type 0} → T → M T A → M S A
unfolding local_result
on_local t m s = local_result s (m t)

pub >>=-ok :
    {S A B : Type 0} (m : M S A) (f : A → M S B) (s : S) {a : A} {s' : S}
    → m s ≡ (ok a, s')
    → (m >>= f) s ≡ f a s'
unfolding ◌>>=◌
>>=-ok m f s e = rw e

pub >>=-err :
    {S A B : Type 0} (m : M S A) (f : A → M S B) (s : S) {e : Thrown} {s' : S}
    → m s ≡ (err e, s')
    → (m >>= f) s ≡ (err e, s')
unfolding ◌>>=◌
>>=-err m f s e = rw e

then_do_assoc :
    {S A B C : Type 0} (m : M S B) (n : M S C) (r : Result A × S)
    → then_do (λ _. m >> n) r ≡ then_do (λ _. n) (then_do (λ _. m) r)
unfolding then_do ◌>>=◌
then_do_assoc m n (ok a, s) = refl
then_do_assoc m n (err e, s) = refl

pub >>-assoc :
    {S A B C : Type 0} (k : M S A) (m : M S B) (n : M S C) → (k >> (m >> n)) ≡ ((k >> m) >> n)
unfolding ◌>>=◌
>>-assoc k m n = λ i s. then_do_assoc m n (k s) i

-- A method of a member object that returns.
pub on-ok :
    {S T A : Type 0} (get : S → T) (put : T → S → S) (m : M T A) (s : S) {a : A} {t : T}
    → m (get s) ≡ (ok a, t)
    → on get put m s ≡ (ok a, put t s)
unfolding on refocus
on-ok get put m s e = rw e
