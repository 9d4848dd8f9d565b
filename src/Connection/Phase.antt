-- ===== src/Connection/Phase.antt =====
-- rtmpconnection.cpp: the phases of a connection, and how a method leads from one to others.
pub mod Moves
pub mod Reads
pub mod Stuck
pub mod Hang
use tvie_rtmp.Base.{
  ℕ, ◌≡◌, refl, sym, ap, subst, ◌∙◌, ◌⊎◌, inl, inr, Bool, true, false, List, not, ◌==◌,
  if◌then◌else◌,
}
use tvie_rtmp.Base.Int.{pos}
use tvie_rtmp.Exception.{
  Thrown, bad_protocal_data, Result, ok, err, M, pure, gets, modify, throw_if, ◌>>=◌, ◌>>◌, then_do,
}
use tvie_rtmp.ReadBuffer.{snap_start, snap_clear}
use tvie_rtmp.Parser.{save_context}
use tvie_rtmp.Connection.{
  Connection, Environment, RtmpConnectionState, HandshakeState, on_rb, on_parser, send_new,
}
use tvie_rtmp.Connection.Handshake.{
  set_hss, handle_c2, more_than_one_packet, handle_c1, handle_c0, handshake_move, handshake,
}
use tvie_rtmp.Connection.Receive.{move_in, next_move, pass}
use tvie_rtmp.Connection.Along.{
  IsPath, Along, >>=-Along, >>-Along, pure-Along, throw_if-Along, gets-Along, on_parser-Along,
}
use tvie_rtmp.Connection.Along.Exchange.{send_new-Along, normal_exchange-Along}

-- The pairs of rcs_state_ and hss_state_ that occur.
pub data Phase : RtmpConnectionState → HandshakeState → Type 0 where
  fresh : Phase RtmpConnectionState.uninitialized HandshakeState.uninitialized
  waits_for_c0 : Phase RtmpConnectionState.hand_shake HandshakeState.uninitialized
  waits_for_c1 : Phase RtmpConnectionState.hand_shake HandshakeState.version_sent
  has_read_c1 : Phase RtmpConnectionState.hand_shake HandshakeState.version_sent_c1_read
  waits_for_c2 : Phase RtmpConnectionState.hand_shake HandshakeState.ack_sent
  exchanges : Phase RtmpConnectionState.normal_exchange HandshakeState.handshake_done
  exchanges_at_once : Phase RtmpConnectionState.normal_exchange HandshakeState.version_sent_c1_read

module _ {A : Type 0} where
  abbrev pub IsPhase : Connection A → Type 0
  IsPhase c = Phase c.rcs_state c.hss_state

  pub record At (r : RtmpConnectionState) (h : HandshakeState) (c : Connection A) : Type 0 where
    pub at_rcs : c.rcs_state ≡ r
    pub at_hss : c.hss_state ≡ h

  pub At-IsPhase :
      {r : RtmpConnectionState} {h : HandshakeState} {c : Connection A}
      → Phase r h
      → At r h c
      → IsPhase c
  At-IsPhase {r} {h} {c} p a =
      subst (λ x. Phase x c.hss_state) (sym a.at_rcs) (subst (λ y. Phase r y) (sym a.at_hss) p)

  -- Neither of the two states is changed.
  pub record SameStates (c d : Connection A) : Type 0 where
    pub same_rcs : d.rcs_state ≡ c.rcs_state
    pub same_hss : d.hss_state ≡ c.hss_state

  pub SameStates-IsPath : IsPath SameStates
  SameStates-IsPath = record {
    stay = λ c. record { same_rcs = refl; same_hss = refl };
    join = λ p q. record { same_rcs = q.same_rcs ∙ p.same_rcs; same_hss = q.same_hss ∙ p.same_hss };
    change =
        λ c p w a size window out cmd cs connected. record { same_rcs = refl; same_hss = refl };
    send = λ c d. record { same_rcs = refl; same_hss = refl };
    count = λ c. record { same_rcs = refl; same_hss = refl };
  }

  abbrev pub Ended : {B : Type 0} → (Connection A → Type 0) → Result B × Connection A → Type 0
  Ended Q (ok b, c) = Q c
  Ended Q (err e, c) = IsPhase c

  -- From where `P` holds, the method returns where `Q` holds or throws in some phase.
  pub record Leads {B : Type 0} (P : Connection A → Type 0) (m : M (Connection A) B)
      (Q : Connection A → Type 0) : Type 0 where
    pub run : (c : Connection A) → P c → Ended Q (m c)

  pub then_do-Ended :
      {B C : Type 0} {Q S : Connection A → Type 0} (f : B → M (Connection A) C)
      (r : Result B × Connection A)
      → Ended Q r
      → ((b : B) → Leads Q (f b) S)
      → Ended S (then_do f r)
  unfolding then_do
  then_do-Ended f (ok b, c) h k = (k b).run c h
  then_do-Ended f (err e, c) h k = h

  pub >>=-Leads :
      {B C : Type 0} {P Q S : Connection A → Type 0} {m : M (Connection A) B}
      {f : B → M (Connection A) C}
      → Leads P m Q
      → ((b : B) → Leads Q (f b) S)
      → Leads P (m >>= f) S
  unfolding ◌>>=◌
  >>=-Leads {m = m} {f = f} h k = record { run = λ c p. then_do-Ended f (m c) (h.run c p) k }

  pub >>-Leads :
      {B C : Type 0} {P Q S : Connection A → Type 0} {m : M (Connection A) B}
      {n : M (Connection A) C}
      → Leads P m Q
      → Leads Q n S
      → Leads P (m >> n) S
  >>-Leads h k = >>=-Leads h (λ _. k)

  pub modify-Leads :
      {P Q : Connection A → Type 0} (f : Connection A → Connection A)
      → ((c : Connection A) → P c → Q (f c))
      → Leads P (modify f) Q
  modify-Leads f h = record { run = h }

  pub if-Leads :
      {B : Type 0} {P Q : Connection A → Type 0} (b : Bool) {m n : M (Connection A) B}
      → Leads P m Q
      → Leads P n Q
      → Leads P (if b then m else n) Q
  if-Leads true h k = h
  if-Leads false h k = k

  Ended-weaken :
      {B : Type 0} {Q S : Connection A → Type 0} (r : Result B × Connection A)
      → ((c : Connection A) → Q c → S c)
      → Ended Q r
      → Ended S r
  Ended-weaken (ok b, c) w h = w c h
  Ended-weaken (err e, c) w h = h

  pub Leads-weaken :
      {B : Type 0} {P Q S : Connection A → Type 0} {m : M (Connection A) B}
      → ((c : Connection A) → Q c → S c)
      → Leads P m Q
      → Leads P m S
  Leads-weaken {m = m} w h = record { run = λ c p. Ended-weaken (m c) w (h.run c p) }

  same-Ended :
      {B : Type 0} {r : RtmpConnectionState} {h : HandshakeState} (x : Result B × Connection A)
      → Phase r h
      → At r h x.1
      → Ended (At r h) x
  same-Ended (ok b, c) p a = a
  same-Ended (err e, c) p a = At-IsPhase p a

  -- A method that changes neither state.
  pub stay-Leads :
      {B : Type 0} {r : RtmpConnectionState} {h : HandshakeState} {m : M (Connection A) B}
      → Phase r h
      → Along SameStates m
      → Leads (At r h) m (At r h)
  stay-Leads {m = m} p s = record {
    run = λ c a.
        let same = s.run c in
        same-Ended (m c) p
          (record { at_rcs = same.same_rcs ∙ a.at_rcs; at_hss = same.same_hss ∙ a.at_hss });
  }
