-- ===== src/Connection/Phase/Stuck.antt =====
-- rtmpconnection.cpp, handleRead: the phase that handshake has no case for.
use tvie_rtmp.Base.{◌<◌, ◌≡◌, refl, sym, ap, subst, ◌∙◌, true, false, arith, if◌then◌else◌}
use tvie_rtmp.Exception.{invalid_arg, Result, ok, err, modify, ◌>>=◌, then_do, >>=-ok, on-ok}
use tvie_rtmp.ReadBuffer.{ReadBuffer, snap_start, snap_clear}
use tvie_rtmp.Parser.{RtmpParser, rd, save_context}
use tvie_rtmp.Connection.{
  Connection, Environment, RtmpConnectionState, HandshakeState, on_rb, on_parser, unread_bytes,
}
use tvie_rtmp.Connection.Handshake.{handshake_move, handshake}
use tvie_rtmp.Connection.Receive.{move_in, next_move, pass, Loop, read_all, again, thrown}

-- The client's packet was handled together with the version, the handshake is not complete, and bytes are waiting.
pub record IsStuck {A : Type 0} (c : Connection A) : Type 0 where
  pub in_handshake : c.rcs_state ≡ RtmpConnectionState.hand_shake
  pub c1_read : c.hss_state ≡ HandshakeState.version_sent_c1_read
  pub no_snap : c.parser.rb.in_snap ≡ false
  pub bytes_wait : 0 < unread_bytes c

pub snap_start_ok :
    (rb : ReadBuffer)
    → rb.in_snap ≡ false
    → snap_start rb ≡ (ok tt, record rb { in_snap = true; snap_bi = rb.bi })
unfolding snap_start
snap_start_ok rb e =
    ap
      (λ b.
        if b then (err invalid_arg, rb) else (ok tt, record rb { in_snap = true; snap_bi = rb.bi }))
      e

module _ {A : Type 0} (env : Environment A) where
  -- The move of that phase does nothing.
  next_move_idle :
      (c : Connection A)
      → c.rcs_state ≡ RtmpConnectionState.hand_shake
      → c.hss_state ≡ HandshakeState.version_sent_c1_read
      → next_move env c ≡ (ok tt, record c { rcs_state = RtmpConnectionState.hand_shake })
  unfolding next_move move_in handshake handshake_move ◌>>=◌ then_do
  next_move_idle c r h =
      ap (λ x. move_in env x c) r
      ∙ ap (λ x. handshake_move env x (record c { rcs_state = RtmpConnectionState.hand_shake })) h

  -- The parser behind a pass.
  abbrev idle_parser : RtmpParser → RtmpParser
  idle_parser p =
      let q = save_context (record p { rb = record p.rb { in_snap = true; snap_bi = p.rb.bi } }) in
      record q { rb = snap_clear q.rb }

  pass_idle :
      (c : Connection A)
      → IsStuck c
      → pass env c ≡ (
        ok tt,
        record c { parser = idle_parser c.parser; rcs_state = RtmpConnectionState.hand_shake },
      )
  unfolding pass on_rb on_parser rd
  pass_idle c s =
      let p1 : RtmpParser = record c.parser {
        rb = record c.parser.rb { in_snap = true; snap_bi = c.parser.rb.bi };
      } in
      let c1 : Connection A = record c { parser = p1 } in
      let c2 : Connection A = record c { parser = save_context p1 } in
      let c3 : Connection A = record c2 { rcs_state = RtmpConnectionState.hand_shake } in
      >>=-ok (on_rb snap_start) _ c (
        on-ok _ _ (rd snap_start) c
          (on-ok _ _ snap_start c.parser (snap_start_ok c.parser.rb s.no_snap)))
      ∙ >>=-ok (on_parser (modify save_context)) _ c1 (on-ok _ _ (modify save_context) c1 refl)
      ∙ >>=-ok (next_move env) _ c2 (next_move_idle c2 s.in_handshake s.c1_read)
      ∙ on-ok _ _ (rd (modify snap_clear)) c3 (on-ok _ _ (modify snap_clear) c3.parser refl)

  -- A pass leaves the connection as stuck as it was.
  pass-IsStuck :
      (c d : Connection A) (r : Result (Unit {0}))
      → IsStuck c
      → pass env c ≡ (r, d)
      → (r ≡ ok tt) × IsStuck d
  unfolding save_context snap_clear
  pass-IsStuck c d r s e =
      let e' : (r, d) ≡ (
        ok tt,
        record c { parser = idle_parser c.parser; rcs_state = RtmpConnectionState.hand_shake },
      ) =
        sym e ∙ pass_idle c s in
      (
        ap (λ x. x.0) e',
        subst IsStuck (sym (ap (λ x. x.1) e')) (record {
          in_handshake = refl;
          c1_read = s.c1_read;
          no_snap = refl;
          bytes_wait = s.bytes_wait;
        }),
      )

  -- From there the loop of handleRead does not end: no run of it, however it would end, exists.
  pub Loop-IsStuck :
      (c : Connection A) (r : Result (Unit {0}) × Connection A) → IsStuck c → ¬ Loop env c r
  Loop-IsStuck c r s (read_all nothing same) = absurd (omega (arith, nothing, s.bytes_wait))
  Loop-IsStuck c r s (again {c' = d} more e rest) =
      Loop-IsStuck d r (pass-IsStuck c d (ok tt) s e).1 rest
  Loop-IsStuck c r s (thrown {c' = d} x more e same) =
      let impossible : err x ≡ ok tt = (pass-IsStuck c d (err x) s e).0 in cc
