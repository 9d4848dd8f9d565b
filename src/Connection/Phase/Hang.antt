-- ===== src/Connection/Phase/Hang.antt =====
-- rtmpconnection.cpp, handleRead: a first piece that leads to the phase that handshake has no case for.
use tvie_rtmp.Base.{
  ℕ, zero, suc, ◌+◌, ◌%◌, ◌^◌, ◌≤◌, ◌<◌, ◌≡◌, refl, sym, ap, subst, ◌∙◌, true, false, List, ◌∷◌,
  ◌++◌, arith, le→ltb, length, inl,
}
use tvie_rtmp.Exception.{Result, ok, err, gets, modify, ◌>>=◌, then_do, >>=-ok, on-ok}
use tvie_rtmp.ReadBuffer
use tvie_rtmp.ReadBuffer.{ReadBuffer, snap_start, snap_clear, append_data}
use tvie_rtmp.ReadBuffer.View.{IsValid, unread, length-unread}
use tvie_rtmp.ReadBuffer.Append.{append_data-unread, empty-IsValid}
use tvie_rtmp.ReadBuffer.Number.{pow-pos}
use native.Mathlib.Nat.{pow-suc}
use tvie_rtmp.WriteBuffer.Growth.{NeverOneShort}
use tvie_rtmp.Parser.{RtmpParser, rd, save_context}
use tvie_rtmp.Connection.{
  Connection, Environment, RtmpConnectionState, HandshakeState, new_connection, on_rb, on_parser,
}
use tvie_rtmp.Connection.Handshake.{handle_c0, handshake_move, handshake}
use tvie_rtmp.Connection.Handshake.Exact.{Holds, CanSend, packet, answered_c1}
use tvie_rtmp.Connection.Handshake.Version.{IsSound, HasRoom, answered_c0, handle_c0_takes_c1}
use tvie_rtmp.Connection.Receive.{
  count_bytes, ack_due, acknowledge, take_in, move_in, next_move, pass, Loop, read_all, again,
  thrown, HandleRead, not_taken, taken,
}
use tvie_rtmp.Connection.Phase.Stuck.{IsStuck, Loop-IsStuck, snap_start_ok}

module _ {A : Type 0} (env : Environment A) (t z : ℕ) (random extra : List ℕ) where
  -- A connection that has received the version, a packet and something more in one piece, and can answer.
  pub record HasBoth (c : Connection A) : Type 0 where
    pub is_new : c.rcs_state ≡ RtmpConnectionState.uninitialized
    pub no_handshake : c.hss_state ≡ HandshakeState.uninitialized
    pub no_snap : c.parser.rb.in_snap ≡ false
    pub sound : IsSound env
    pub room : HasRoom env c
    pub sends : CanSend env c
    pub small_t : t < 2 ^ 32
    pub small_z : z < 2 ^ 32
    pub whole : length random ≡ 1528
    pub some_more : 0 < length extra
    pub short : length extra ≤ 1536
    pub holds : Holds c (3 ∷ (packet t z random ++ extra))

  next_move_new :
      (c : Connection A)
      → c.rcs_state ≡ RtmpConnectionState.uninitialized
      → c.hss_state ≡ HandshakeState.uninitialized
      → next_move env c ≡ handle_c0 env (record c { rcs_state = RtmpConnectionState.hand_shake })
  unfolding next_move move_in handshake handshake_move ◌>>=◌ then_do
  next_move_new c r h =
      ap (λ x. move_in env x c) r
      ∙ ap (λ x. handshake_move env x (record c { rcs_state = RtmpConnectionState.hand_shake })) h

  -- The first pass takes the version and the packet, and is stuck.
  pass-HasBoth :
      (c : Connection A) → HasBoth c → (d : Connection A) × (pass env c ≡ (ok tt, d)) × IsStuck d
  unfolding pass on_rb on_parser rd save_context snap_clear
  pass-HasBoth c b =
      let p1 : RtmpParser = record c.parser {
        rb = record c.parser.rb { in_snap = true; snap_bi = c.parser.rb.bi };
      } in
      let c1 : Connection A = record c { parser = p1 } in
      let c2 : Connection A = record c { parser = save_context p1 } in
      let c3 : Connection A = record c2 { rcs_state = RtmpConnectionState.hand_shake } in
      let held : Holds c3 (3 ∷ (packet t z random ++ extra)) = record {
        valid = record {
          read_le = b.holds.valid.read_le;
          fits = b.holds.valid.fits;
          sized = b.holds.valid.sized;
        };
        bytes = b.holds.bytes;
      } in
      let (wb, wb', now, e, h) =
        handle_c0_takes_c1 env t z random extra c3 b.sound
          (record { size = b.room.size; lucky = b.room.lucky })
          (record { is_open = b.sends.is_open; succeeds = b.sends.succeeds }) b.small_t b.small_z
          b.whole b.some_more b.short held in
      let c4 : Connection A = record (answered_c1 env t now random wb' (answered_c0 env wb c3)) {
        hss_state = HandshakeState.version_sent_c1_read;
      } in
      let d : Connection A = record c4 {
        parser = record c4.parser { rb = snap_clear c4.parser.rb };
      } in
      (
        d,
        >>=-ok (on_rb snap_start) _ c (
              on-ok _ _ (rd snap_start) c
                (on-ok _ _ snap_start c.parser (snap_start_ok c.parser.rb b.no_snap)))
            ∙ >>=-ok (on_parser (modify save_context)) _ c1
                (on-ok _ _ (modify save_context) c1 refl)
            ∙ >>=-ok (next_move env) _ c2 (next_move_new c2 b.is_new b.no_handshake ∙ e)
            ∙ on-ok _ _ (rd (modify snap_clear)) c4 (on-ok _ _ (modify snap_clear) c4.parser refl),
        record {
          in_handshake = refl;
          c1_read = refl;
          no_snap = refl;
          bytes_wait = omega (
            arith,
            b.some_more,
            length-unread c4.parser.rb h.valid,
            ap (λ (l : List ℕ). length l) h.bytes,
          );
        },
      )

  -- No run of the loop of handleRead exists from there.
  Loop-HasBoth :
      (c : Connection A) (r : Result (Unit {0}) × Connection A) → HasBoth c → ¬ Loop env c r
  Loop-HasBoth c r b (read_all nothing same) = absurd (
      omega (
        arith,
        nothing,
        length-unread c.parser.rb b.holds.valid,
        ap (λ (l : List ℕ). length l) b.holds.bytes,
      ))
  Loop-HasBoth c r b (again {c' = d} more e rest) =
      let (d', e', s) = pass-HasBoth c b in
      Loop-IsStuck env d r (subst IsStuck (ap (λ x. x.1) (sym e' ∙ e)) s) rest
  Loop-HasBoth c r b (thrown {c' = d} x more e same) =
      let (d', e', s) = pass-HasBoth c b in
      let impossible : err x ≡ ok tt = ap (λ x. x.0) (sym e ∙ e') in cc

  -- 1536 bytes are never one more than a doubling of 1024.
  never_short : NeverOneShort 1024 1536
  never_short zero e = absurd (omega arith)
  never_short (suc m) e = absurd (omega (arith, e, pow-suc 2 m, pow-pos m))

  count_bytes_new :
      (actor : A) (n : ℕ)
      → count_bytes n (new_connection actor)
        ≡ record (new_connection actor) { bytes_received = n % 2 ^ 32 }
  unfolding count_bytes new_connection
  count_bytes_new actor n =
      let e : 0 + n ≡ n = omega arith in rw (e, le→ltb (n % 2 ^ 32) 0 (omega arith))

  -- What was received on a new connection, in front of the loop.
  take_in_new :
      (actor : A) (d : List ℕ)
      → (rb : ReadBuffer) × (take_in env d (new_connection actor) ≡ (
        ok tt,
        record (new_connection actor) {
          parser = record (new_connection actor).parser { rb = rb };
          bytes_received = length d % 2 ^ 32;
        },
      ))
        × IsValid rb
        × (unread rb ≡ d)
        × (rb.in_snap ≡ false)
  unfolding take_in acknowledge new_connection on_rb on_parser rd
  take_in_new actor d =
      let (rb, e, v, u, s) =
        append_data-unread d (ReadBuffer.empty 1024) (empty-IsValid 1024) refl
          (inl (omega arith)) in
      let c1 : Connection A = record (new_connection actor) {
        bytes_received = length d % 2 ^ 32;
      } in
      (
        rb,
        >>=-ok (modify (count_bytes (length d))) _ (new_connection actor)
              (ap (λ c. (ok tt, c)) (count_bytes_new actor (length d)))
            ∙ >>=-ok (acknowledge env) _ c1
                (>>=-ok (gets ack_due) _ c1 refl ∙ >>=-ok (gets (λ c. c.bytes_received)) _ c1 refl)
            ∙ on-ok _ _ (rd (append_data d)) c1 (on-ok _ _ (append_data d) c1.parser e),
        v,
        u,
        s,
      )

  -- A client that sends the version 3, its packet (two numbers of 32 bits and 1528 bytes) and from one to
  -- 1536 bytes more in one piece on a new connection: no run of handleRead exists, however it would end.
  -- The server's clock has 32 bits, its random data is 1528 bytes long, and no send fails.
  pub HandleRead-hangs :
      (actor : A) (r : Result (Unit {0}) × Connection A)
      → IsSound env
      → ((n : ℕ) → env.send_fails n ≡ false)
      → t < 2 ^ 32
      → z < 2 ^ 32
      → length random ≡ 1528
      → 0 < length extra
      → length extra ≤ 1536
      → ¬ HandleRead env (3 ∷ (packet t z random ++ extra)) (new_connection actor) r
  unfolding new_connection
  HandleRead-hangs actor r sound goes ht hz hr more short run =
      let (rb, e, v, u, s) = take_in_new actor (3 ∷ (packet t z random ++ extra)) in
      let c : Connection A = record (new_connection actor) {
        parser = record (new_connection actor).parser { rb = rb };
        bytes_received = length (3 ∷ (packet t z random ++ extra)) % 2 ^ 32;
      } in
      let both : HasBoth c = record {
        is_new = refl;
        no_handshake = refl;
        no_snap = s;
        sound = sound;
        room = record { size = omega arith; lucky = never_short };
        sends = record { is_open = refl; succeeds = goes };
        small_t = ht;
        small_z = hz;
        whole = hr;
        some_more = more;
        short = short;
        holds = record { valid = v; bytes = u };
      } in
      at c e both run
    where
      at :
          (c : Connection A)
          → take_in env (3 ∷ (packet t z random ++ extra)) (new_connection actor) ≡ (ok tt, c)
          → HasBoth c
          → ¬ HandleRead env (3 ∷ (packet t z random ++ extra)) (new_connection actor) r
      at c e b (not_taken x c' f same) =
          let impossible : err x ≡ ok tt = ap (λ y. y.0) (sym f ∙ e) in cc
      at c e b (taken c' f loop) =
          Loop-HasBoth c' r (subst HasBoth (ap (λ y. y.1) (sym e ∙ f)) b) loop
