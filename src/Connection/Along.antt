-- ===== src/Connection/Along.antt =====
-- rtmpconnection.cpp: relations between the connection before and after a method, whether it returns or
-- throws.
pub mod Exchange
use tvie_rtmp.Base.{
  ℕ, ◌+◌, ◌≡◌, Bool, true, false, Option, List, [], ◌∷◌, ◌++◌, if◌then◌else◌, get_elem?,
}
use tvie_rtmp.Base.Int.{ℤ}
use tvie_rtmp.Exception.{
  Thrown, Result, ok, err, M, pure, throw, throw_if, gets, modify, ◌>>=◌, ◌>>◌, then_do, on,
  refocus, on_local, local_result, try_catch, caught,
}
use tvie_rtmp.WriteBuffer
use tvie_rtmp.WriteBuffer.{WriteBuffer}
use tvie_rtmp.Message.{ConnectCmd}
use tvie_rtmp.Parser.{RtmpParser}
use tvie_rtmp.Connection.{
  Connection, ConnectState, HandshakeState, RtmpConnectionState, on_parser, on_wb, on_actor,
  from_result,
}

-- A relation that holds along every path of changes to the fields other than rcs_state_, hss_state_,
-- the counters of bytes and the socket.
pub record IsPath {A : Type 0} (R : Connection A → Connection A → Type 0) : Type 0 where
  pub stay : (c : Connection A) → R c c
  pub join : {c d e : Connection A} → R c d → R d e → R c e
  pub change :
      (c : Connection A) (p : RtmpParser) (w : WriteBuffer) (a : A) (size window : ℤ) (out : ℕ)
      (cmd : Option ConnectCmd) (cs : ConnectState) (connected : Bool)
      → R c (record c {
        parser = p;
        wb = w;
        actor = a;
        chunk_size = size;
        window_ack_size = window;
        out_chunk_size = out;
        ccp = cmd;
        cs_state = cs;
        is_connected = connected;
      })
  pub send : (c : Connection A) (d : List ℕ) → R c (record c { sent = c.sent ++ (d ∷ []) })
  pub count : (c : Connection A) → R c (record c { stream_index = c.stream_index + 1 })

-- Every call of the method is a path.
pub record Along {A B : Type 0} (R : Connection A → Connection A → Type 0) (m : M (Connection A) B)
    : Type 0 where
  pub run : (c : Connection A) → R c (m c).1

module _ {A : Type 0} {R : Connection A → Connection A → Type 0} (path : IsPath R) where
  then_do-R :
      {B C : Type 0} (f : B → M (Connection A) C) (c : Connection A) (r : Result B × Connection A)
      → R c r.1
      → ((b : B) → Along R (f b))
      → R c (then_do f r).1
  unfolding then_do
  then_do-R f c (ok b, d) h k = path.join h ((k b).run d)
  then_do-R f c (err e, d) h k = h

  pub >>=-Along :
      {B C : Type 0} {m : M (Connection A) B} {f : B → M (Connection A) C}
      → Along R m
      → ((b : B) → Along R (f b))
      → Along R (m >>= f)
  unfolding ◌>>=◌
  >>=-Along {m = m} {f = f} h k = record { run = λ c. then_do-R f c (m c) (h.run c) k }

  pub >>-Along :
      {B C : Type 0} {m : M (Connection A) B} {n : M (Connection A) C}
      → Along R m
      → Along R n
      → Along R (m >> n)
  >>-Along h k = >>=-Along h (λ _. k)

  pub pure-Along : {B : Type 0} (b : B) → Along R (pure b)
  pure-Along b = record { run = λ c. path.stay c }

  pub throw-Along : {B : Type 0} (e : Thrown) → Along {B = B} R (throw e)
  throw-Along e = record { run = λ c. path.stay c }

  pub throw_if-Along : (b : Bool) (e : Thrown) → Along R (throw_if b e)
  throw_if-Along b e = record { run = λ c. path.stay c }

  pub gets-Along : {B : Type 0} (f : Connection A → B) → Along R (gets f)
  gets-Along f = record { run = λ c. path.stay c }

  pub from_result-Along : {B : Type 0} (r : Result B) → Along R (from_result r)
  from_result-Along r = record { run = λ c. path.stay c }

  pub if-Along :
      {B : Type 0} (b : Bool) {m n : M (Connection A) B}
      → Along R m
      → Along R n
      → Along R (if b then m else n)
  if-Along true h k = h
  if-Along false h k = k

  -- The same for the ends of two calls.
  pub if-R :
      {B : Type 0} (b : Bool) (c : Connection A) (x y : Result B × Connection A)
      → R c x.1
      → R c y.1
      → R c (if b then x else y).1
  if-R true c x y h k = h
  if-R false c x y h k = k

  caught-R :
      {B : Type 0} (h : Thrown → M (Connection A) B) (c : Connection A)
      (r : Result B × Connection A)
      → R c r.1
      → ((e : Thrown) → Along R (h e))
      → R c (caught h r).1
  unfolding caught
  caught-R h c (ok b, d) p k = p
  caught-R h c (err e, d) p k = path.join p ((k e).run d)

  pub try_catch-Along :
      {B : Type 0} {m : M (Connection A) B} {h : Thrown → M (Connection A) B}
      → Along R m
      → ((e : Thrown) → Along R (h e))
      → Along R (try_catch m h)
  unfolding try_catch
  try_catch-Along {m = m} {h = h} p k = record { run = λ c. caught-R h c (m c) (p.run c) k }

  pub on_parser-Along : {B : Type 0} (m : M RtmpParser B) → Along R (on_parser m)
  unfolding on_parser on refocus
  on_parser-Along m = record {
    run = λ c.
        path.change c (m c.parser).1 c.wb c.actor c.chunk_size c.window_ack_size c.out_chunk_size
          c.ccp c.cs_state c.is_connected;
  }

  pub on_wb-Along : {B : Type 0} (m : M WriteBuffer B) → Along R (on_wb m)
  unfolding on_wb on refocus
  on_wb-Along m = record {
    run = λ c.
        path.change c c.parser (m c.wb).1 c.actor c.chunk_size c.window_ack_size c.out_chunk_size
          c.ccp c.cs_state c.is_connected;
  }

  pub on_actor-Along : {B : Type 0} (m : M A B) → Along R (on_actor m)
  unfolding on_actor on refocus
  on_actor-Along m = record {
    run = λ c.
        path.change c c.parser c.wb (m c.actor).1 c.chunk_size c.window_ack_size c.out_chunk_size
          c.ccp c.cs_state c.is_connected;
  }

  pub on_local-Along : {S B : Type 0} (t : S) (m : M S B) → Along {A = A} R (on_local t m)
  unfolding on_local local_result
  on_local-Along t m = record { run = λ c. path.stay c }
