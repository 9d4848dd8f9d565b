-- ===== src/Connection/Phase/Reads.antt =====
-- rtmpconnection.cpp, handleRead and handleClient: the phases that a whole connection goes through.
use tvie_rtmp.Base.{ℕ, ◌≡◌, sym, subst, Bool, true, false, List, ltb, if◌then◌else◌, length}
use tvie_rtmp.Exception.{
  Thrown, no_enough_data, bad_protocal_data, not_supported, bad_state, internal_error, Result, ok,
  err, M,
}
use tvie_rtmp.Connection.{Connection, Environment, new_connection, on_rb, disconnect}
use tvie_rtmp.Connection.Receive.{
  count_bytes, acknowledge, take_in, caught_in_read, Loop, read_all, again, thrown, HandleRead,
  not_taken, taken, HandleClient, ended, received, escaped,
}
use tvie_rtmp.Connection.Along.{
  on_parser-Along, on_actor-Along, pure-Along, gets-Along, throw-Along,
}
use tvie_rtmp.Connection.Along.Exchange.{send_acknowledgement-Along}
use tvie_rtmp.Connection.Phase.{
  fresh, IsPhase, SameStates-IsPath, Leads, Ended, >>=-Leads, >>-Leads, modify-Leads, if-Leads,
}
use tvie_rtmp.Connection.Phase.Moves.{keep-Leads, pass-Leads}

module _ {A : Type 0} (env : Environment A) where
  acknowledge-Leads : Leads IsPhase (acknowledge env) IsPhase
  unfolding acknowledge
  acknowledge-Leads = >>=-Leads (keep-Leads (gets-Along SameStates-IsPath _)) (λ due.
      >>=-Leads (keep-Leads (gets-Along SameStates-IsPath _)) (λ n.
        if-Leads due
          (>>-Leads (keep-Leads (send_acknowledgement-Along SameStates-IsPath env n))
            (modify-Leads _ (λ c p. p)))
          (keep-Leads (pure-Along SameStates-IsPath tt))))

  either_way :
      (b : Bool) (x y : Connection A) → IsPhase x → IsPhase y → IsPhase (if b then x else y)
  either_way true x y p q = p
  either_way false x y p q = q

  count_bytes-IsPhase : (n : ℕ) (c : Connection A) → IsPhase c → IsPhase (count_bytes n c)
  unfolding count_bytes
  count_bytes-IsPhase n c p = either_way (ltb _ c.ack_bytes) _ _ p p

  take_in-Leads : (d : List ℕ) → Leads IsPhase (take_in env d) IsPhase
  unfolding take_in on_rb
  take_in-Leads d =
      >>-Leads (modify-Leads _ (count_bytes-IsPhase (length d)))
        (>>-Leads acknowledge-Leads (keep-Leads (on_parser-Along SameStates-IsPath _)))

  disconnect-Leads : Leads IsPhase (disconnect env) IsPhase
  unfolding disconnect
  disconnect-Leads = >>=-Leads (keep-Leads (gets-Along SameStates-IsPath _)) (λ c.
      if-Leads c.is_disconnected (keep-Leads (pure-Along SameStates-IsPath tt))
        (>>-Leads (keep-Leads (on_actor-Along SameStates-IsPath _)) (modify-Leads _ (λ c p. p))))

  caught_in_read-Leads : (e : Thrown) → Leads IsPhase (caught_in_read env e) IsPhase
  unfolding caught_in_read
  caught_in_read-Leads bad_protocal_data = disconnect-Leads
  caught_in_read-Leads not_supported = disconnect-Leads
  caught_in_read-Leads bad_state = disconnect-Leads
  caught_in_read-Leads internal_error = disconnect-Leads
  caught_in_read-Leads no_enough_data = keep-Leads (on_parser-Along SameStates-IsPath _)
  caught_in_read-Leads e = keep-Leads (throw-Along SameStates-IsPath e)

  Ended-at : {B : Type 0} (x : Result B × Connection A) → Ended IsPhase x → IsPhase x.1
  Ended-at (ok b, c) h = h
  Ended-at (err e, c) h = h

  -- A call of a method that leads from phases to phases, by what it is known to do.
  leads_to :
      {B : Type 0} {m : M (Connection A) B} {c c' : Connection A} {r : Result B}
      → Leads IsPhase m IsPhase
      → m c ≡ (r, c')
      → IsPhase c
      → IsPhase c'
  leads_to {m = m} {c = c} l e p = subst (λ x. IsPhase x.1) e (Ended-at (m c) (l.run c p))

  Loop-IsPhase :
      {c : Connection A} {r : Result (Unit {0}) × Connection A}
      → Loop env c r
      → IsPhase c
      → IsPhase r.1
  Loop-IsPhase (read_all e same) p = subst (λ x. IsPhase x.1) (sym same) p
  Loop-IsPhase (again more e rest) p = Loop-IsPhase rest (leads_to (pass-Leads env) e p)
  Loop-IsPhase (thrown e more f same) p =
      subst (λ x. IsPhase x.1) (sym same)
        (Ended-at _ ((caught_in_read-Leads e).run _ (leads_to (pass-Leads env) f p)))

  HandleRead-IsPhase :
      {d : List ℕ} {c : Connection A} {r : Result (Unit {0}) × Connection A}
      → HandleRead env d c r
      → IsPhase c
      → IsPhase r.1
  HandleRead-IsPhase {d = d} (not_taken e c' f same) p =
      subst (λ x. IsPhase x.1) (sym same) (leads_to (take_in-Leads d) f p)
  HandleRead-IsPhase {d = d} (taken c' f loop) p =
      Loop-IsPhase loop (leads_to (take_in-Leads d) f p)

  HandleClient-keeps :
      {ds : List (List ℕ)} {c : Connection A} {r : Result (Unit {0}) × Connection A}
      → HandleClient env ds c r
      → IsPhase c
      → IsPhase r.1
  HandleClient-keeps {c = c} (ended done same) p =
      subst (λ x. IsPhase x.1) (sym same) (Ended-at _ (disconnect-Leads.run c p))
  HandleClient-keeps (received is_open read rest) p =
      HandleClient-keeps rest (HandleRead-IsPhase read p)
  HandleClient-keeps (escaped e is_open read same) p =
      subst (λ x. IsPhase x.1) (sym same) (HandleRead-IsPhase read p)

-- However a client's bytes are cut into pieces, and however handleClient ends on them, the two states of
-- a new connection are one of the seven pairs of `Phase` at the end.
pub HandleClient-IsPhase :
    {A : Type 0} (env : Environment A) (actor : A) (ds : List (List ℕ))
    (r : Result (Unit {0}) × Connection A)
    → HandleClient env ds (new_connection actor) r
    → IsPhase r.1
unfolding new_connection
HandleClient-IsPhase env actor ds r run = HandleClient-keeps env run fresh
