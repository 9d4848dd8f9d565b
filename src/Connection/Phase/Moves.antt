-- ===== src/Connection/Phase/Moves.antt =====
-- rtmpconnection.cpp, handshake and nextMove: the moves between the phases.
use tvie_rtmp.Base.{refl, sym, subst}
use tvie_rtmp.Exception.{Result, ok, err, M, gets, ◌>>=◌, then_do}
use tvie_rtmp.ReadBuffer.{ReadBuffer}
use tvie_rtmp.WriteBuffer.{WriteBuffer}
use tvie_rtmp.Connection.{
  Connection, Environment, RtmpConnectionState, HandshakeState, on_rb, send_new,
}
use tvie_rtmp.Connection.Handshake.{handle_c2, handle_c1, handle_c0, handshake_move, handshake}
use tvie_rtmp.Connection.Exchange.{normal_exchange}
use tvie_rtmp.Connection.Receive.{move_in, next_move, pass}
use tvie_rtmp.Connection.Along.{Along, pure-Along, throw_if-Along, gets-Along, on_parser-Along}
use tvie_rtmp.Connection.Along.Exchange.{send_new-Along, normal_exchange-Along}
use tvie_rtmp.Connection.Phase.{
  Phase, fresh, waits_for_c0, waits_for_c1, has_read_c1, waits_for_c2, exchanges, exchanges_at_once,
  IsPhase, At, At-IsPhase, SameStates, SameStates-IsPath, Leads, Ended, >>=-Leads, >>-Leads,
  modify-Leads, if-Leads, Leads-weaken, stay-Leads,
}

module _ {A : Type 0} where
  -- A read of the buffer changes neither state.
  on_rb-Leads :
      {B : Type 0} {r : RtmpConnectionState} {h : HandshakeState} (m : M ReadBuffer B)
      → Phase r h
      → Leads (At {A = A} r h) (on_rb m) (At r h)
  unfolding on_rb
  on_rb-Leads m p = stay-Leads p (on_parser-Along SameStates-IsPath _)

  gets-Leads :
      {B : Type 0} {r : RtmpConnectionState} {h : HandshakeState} (f : Connection A → B)
      → Phase r h
      → Leads (At r h) (gets f) (At r h)
  gets-Leads f p = stay-Leads p (gets-Along SameStates-IsPath f)

  -- handleC2 completes the handshake, or leaves the phase as it is.
  handle_c2-Leads :
      {h : HandshakeState}
      → Phase RtmpConnectionState.hand_shake h
      → Leads
          (At {A = A} RtmpConnectionState.hand_shake h)
          handle_c2
          (At RtmpConnectionState.normal_exchange HandshakeState.handshake_done)
  unfolding handle_c2
  handle_c2-Leads p = >>=-Leads (on_rb-Leads _ p) (λ timestamp. >>-Leads (on_rb-Leads _ p) (
      >>=-Leads (on_rb-Leads _ p)
        (λ random. modify-Leads _ (λ c a. record { at_rcs = refl; at_hss = refl }))))

  -- The client's packet is answered, and its echo may be handled.
  data AfterC1 (c : Connection A) : Type 0 where
    acknowledged : At RtmpConnectionState.hand_shake HandshakeState.ack_sent c → AfterC1 c
    completed : At RtmpConnectionState.normal_exchange HandshakeState.handshake_done c → AfterC1 c

  AfterC1-IsPhase : (c : Connection A) → AfterC1 c → IsPhase c
  AfterC1-IsPhase c (acknowledged a) = At-IsPhase waits_for_c2 a
  AfterC1-IsPhase c (completed a) = At-IsPhase exchanges a

  module _ (env : Environment A) where
    send_new-Leads :
        {r : RtmpConnectionState} {h : HandshakeState} (m : M WriteBuffer (Unit {0}))
        → Phase r h
        → Leads (At r h) (send_new env m) (At r h)
    send_new-Leads m p = stay-Leads p (send_new-Along SameStates-IsPath env _)

    handle_c1-Leads :
        {h : HandshakeState}
        → Phase RtmpConnectionState.hand_shake h
        → Leads (At RtmpConnectionState.hand_shake h) (handle_c1 env) AfterC1
    unfolding handle_c1
    handle_c1-Leads p = >>=-Leads (on_rb-Leads _ p) (λ timestamp.
        >>=-Leads (on_rb-Leads _ p) (λ zero_word. >>=-Leads (on_rb-Leads _ p) (λ random.
          >>=-Leads (gets-Leads _ p) (λ now. >>-Leads (send_new-Leads _ p) (
            >>-Leads {Q = At RtmpConnectionState.hand_shake HandshakeState.ack_sent}
              (modify-Leads _ (λ c a. record { at_rcs = a.at_rcs; at_hss = refl }))
              (>>=-Leads (gets-Leads _ waits_for_c2) (λ more.
                if-Leads more (Leads-weaken (λ c. completed) (handle_c2-Leads waits_for_c2)) (
                  Leads-weaken (λ c. acknowledged)
                    (stay-Leads waits_for_c2 (pure-Along SameStates-IsPath tt))))))))))

    -- handleC1 at once behind handleC0.
    c1_read :
        (c : Connection A)
        → AfterC1 c
        → IsPhase (record c { hss_state = HandshakeState.version_sent_c1_read })
    c1_read c (acknowledged a) =
        subst (λ r. Phase r HandshakeState.version_sent_c1_read) (sym a.at_rcs) has_read_c1
    c1_read c (completed a) =
        subst (λ r. Phase r HandshakeState.version_sent_c1_read) (sym a.at_rcs) exchanges_at_once

    handle_c0-Leads :
        Leads
          (At RtmpConnectionState.hand_shake HandshakeState.uninitialized)
          (handle_c0 env)
          IsPhase
    unfolding handle_c0
    handle_c0-Leads = >>=-Leads (gets-Leads _ waits_for_c0) (λ nothing.
        >>-Leads (stay-Leads waits_for_c0 (throw_if-Along SameStates-IsPath _ _)) (
          >>=-Leads (on_rb-Leads _ waits_for_c0) (λ version.
            >>-Leads (stay-Leads waits_for_c0 (throw_if-Along SameStates-IsPath _ _)) (
              >>-Leads (send_new-Leads _ waits_for_c0) (
                >>-Leads (send_new-Leads _ waits_for_c0) (
                  >>-Leads {Q = At RtmpConnectionState.hand_shake HandshakeState.version_sent}
                    (modify-Leads _ (λ c a. record { at_rcs = a.at_rcs; at_hss = refl }))
                    (>>=-Leads (gets-Leads _ waits_for_c1) (λ more.
                      if-Leads more
                        (>>-Leads (handle_c1-Leads waits_for_c1) (modify-Leads _ c1_read))
                        (Leads-weaken (λ c. At-IsPhase waits_for_c1)
                          (stay-Leads waits_for_c1 (pure-Along SameStates-IsPath tt)))))))))))

    pub Ended-IsPhase : {B : Type 0} (x : Result B × Connection A) → Ended IsPhase x → IsPhase x.1
    Ended-IsPhase (ok b, c) h = h
    Ended-IsPhase (err e, c) h = h

    handshake_move-Ended :
        (h : HandshakeState) (c : Connection A)
        → Phase RtmpConnectionState.hand_shake h
        → At RtmpConnectionState.hand_shake h c
        → Ended IsPhase (handshake_move env h c)
    unfolding handshake_move
    handshake_move-Ended HandshakeState.uninitialized c p a = handle_c0-Leads.run c a
    handshake_move-Ended HandshakeState.version_sent c p a =
        (Leads-weaken AfterC1-IsPhase (handle_c1-Leads p)).run c a
    handshake_move-Ended HandshakeState.version_sent_c1_read c p a = At-IsPhase p a
    handshake_move-Ended HandshakeState.ack_sent c p a =
        (Leads-weaken (λ c. At-IsPhase exchanges) (handle_c2-Leads p)).run c a
    handshake_move-Ended HandshakeState.handshake_done c p a = At-IsPhase p a

    handshake-IsPhase :
        (c : Connection A)
        → Phase RtmpConnectionState.hand_shake c.hss_state
        → IsPhase (handshake env c).1
    unfolding handshake ◌>>=◌ then_do
    handshake-IsPhase c p = Ended-IsPhase _ (
        handshake_move-Ended c.hss_state (record c { rcs_state = RtmpConnectionState.hand_shake }) p
          (record { at_rcs = refl; at_hss = refl }))

    from_hand_shake :
        {h : HandshakeState} {r : RtmpConnectionState} (c : Connection A)
        → Phase RtmpConnectionState.hand_shake h
        → At r h c
        → IsPhase (handshake env c).1
    from_hand_shake c p a =
        handshake-IsPhase c (subst (λ x. Phase RtmpConnectionState.hand_shake x) (sym a.at_hss) p)

    from_exchange :
        {h : HandshakeState} (c : Connection A)
        → Phase RtmpConnectionState.normal_exchange h
        → At RtmpConnectionState.normal_exchange h c
        → IsPhase (normal_exchange env c).1
    from_exchange c p a = Ended-IsPhase _ (
        (Leads-weaken (λ d. At-IsPhase p)
            (stay-Leads p (normal_exchange-Along SameStates-IsPath env))).run
          c a)

    -- By the phase that the connection is in.
    move_in-IsPhase :
        (r : RtmpConnectionState) (h : HandshakeState) (c : Connection A)
        → Phase r h
        → At r h c
        → IsPhase (move_in env r c).1
    unfolding move_in
    move_in-IsPhase r h c fresh a = from_hand_shake c waits_for_c0 a
    move_in-IsPhase r h c waits_for_c0 a = from_hand_shake c waits_for_c0 a
    move_in-IsPhase r h c waits_for_c1 a = from_hand_shake c waits_for_c1 a
    move_in-IsPhase r h c has_read_c1 a = from_hand_shake c has_read_c1 a
    move_in-IsPhase r h c waits_for_c2 a = from_hand_shake c waits_for_c2 a
    move_in-IsPhase r h c exchanges a = from_exchange c exchanges a
    move_in-IsPhase r h c exchanges_at_once a = from_exchange c exchanges_at_once a

  IsPhase-Ended : {B : Type 0} (x : Result B × Connection A) → IsPhase x.1 → Ended IsPhase x
  IsPhase-Ended (ok b, c) h = h
  IsPhase-Ended (err e, c) h = h

  -- What changes neither state keeps the phase.
  pub keep-Leads :
      {B : Type 0} {m : M (Connection A) B} → Along SameStates m → Leads IsPhase m IsPhase
  keep-Leads {m = m} s = record {
    run = λ c p.
        let same = s.run c in
        IsPhase-Ended (m c)
          (At-IsPhase {c = (m c).1} p (record { at_rcs = same.same_rcs; at_hss = same.same_hss }));
  }

  -- Whether it returns or throws, a pass of the loop of handleRead leads from a phase to a phase.
  pub pass-Leads : (env : Environment A) → Leads IsPhase (pass env) IsPhase
  unfolding pass next_move on_rb ◌>>=◌ then_do
  pass-Leads env = >>-Leads (keep-Leads (on_parser-Along SameStates-IsPath _)) (
      >>-Leads (keep-Leads (on_parser-Along SameStates-IsPath _)) (
        >>-Leads
          (record {
            run = λ c p. IsPhase-Ended _ (
                move_in-IsPhase env c.rcs_state c.hss_state c p
                  (record { at_rcs = refl; at_hss = refl }));
          })
          (keep-Leads (on_parser-Along SameStates-IsPath _))))
