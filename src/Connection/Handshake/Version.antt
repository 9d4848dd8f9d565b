-- ===== src/Connection/Handshake/Version.antt =====
-- rtmpconnection.cpp, handleC0: the version, and the client's packet where it came with it.
use tvie_rtmp.Base.{
  ℕ, ◌+◌, ◌^◌, ◌≤◌, ◌<◌, ◌≡◌, refl, sym, ap, subst, ◌∙◌, true, false, not, List, [], ◌∷◌, ◌++◌,
  arith, ltb, lt→ltb, le→ltb, length, length-append, ◌==◌, if◌then◌else◌,
}
use tvie_rtmp.Exception.{bad_protocal_data, ok, M, pure, gets, throw_if, ◌>>◌, >>=-ok}
use tvie_rtmp.ReadBuffer.{read_byte}
use tvie_rtmp.ReadBuffer.View.{length-unread, read_byte-Reads}
use tvie_rtmp.WriteBuffer.{WriteBuffer, write_byte, write_b, write_bytes}
use tvie_rtmp.WriteBuffer.Bytes.{holding, write_byte-WritesIn}
use tvie_rtmp.WriteBuffer.Growth.{
  NeverOneShort, Grows, Grows-size, Grows-NeverOneShort, Writes-Grows,
}
use tvie_rtmp.Connection.{Connection, Environment, HandshakeState, on_rb, send_new, unread_bytes}
use tvie_rtmp.Connection.Handshake.{set_hss, more_than_one_packet, handle_c1, handle_c0}
use tvie_rtmp.Connection.Handshake.Exact.{
  took, Holds, on_rb-Reads, CanSend, send_new-Grows, packet, packet-Grows, answered_c1,
  handle_c1-Holds,
}

module _ {A : Type 0} (env : Environment A) where
  -- What the server relies on: its clock has 32 bits, and its random data is as long as it should be.
  pub record IsSound : Type 0 where
    pub clock : (n : ℕ) → env.timestamp n < 2 ^ 32
    pub has_random : length env.random_data ≡ 1528

  -- A writing buffer that S1 and S2 fit into, doubled or not.
  pub record HasRoom (c : Connection A) : Type 0 where
    pub size : 10 ≤ c.wb.size
    pub lucky : NeverOneShort c.wb.size 1536

  -- What handleC0 leaves: S0 and S1 sent.
  abbrev pub answered_c0 : WriteBuffer → Connection A → Connection A
  answered_c0 wb c = record (took 1 c) {
    wb = wb;
    sent = (c.sent ++ ((3 ∷ []) ∷ [])) ++ (packet 0 0 env.random_data ∷ []);
    hss_state = HandshakeState.version_sent;
  }

  -- The end of handleC0.
  abbrev pub behind_c0 : Connection A → M (Connection A) (Unit {0})
  behind_c0 d =
      let at_once = (do handle_c1 env; set_hss HandshakeState.version_sent_c1_read) in
      if more_than_one_packet d then at_once else pure tt

  -- handleC0 up to the test for the client's packet.
  handle_c0-Holds :
      (rest : List ℕ) (c : Connection A)
      → IsSound
      → HasRoom c
      → CanSend env c
      → Holds c (3 ∷ rest)
      → (wb : WriteBuffer) × (handle_c0 env c ≡ behind_c0 (answered_c0 wb c) (answered_c0 wb c))
        × Holds (answered_c0 wb c) rest
        × HasRoom (answered_c0 wb c)
  unfolding handle_c0
  handle_c0-Holds rest c sound room s h =
      let (e1, h1) = on_rb-Reads (read_byte-Reads 3) c rest h in
      let some_bytes : ltb (unread_bytes c) 1 ≡ false =
        le→ltb (unread_bytes c) 1 (
          omega
            (arith, length-unread c.parser.rb h.valid, ap (λ (l : List ℕ). length l) h.bytes)) in
      let c1 : Connection A = took 1 c in
      let g1 : Grows (write_byte 3) [] c.wb.size (3 ∷ []) =
        Writes-Grows [] c.wb.size (write_byte-WritesIn {spare = 1} 3 (omega arith) (omega arith))
          (omega (arith, room.size)) in
      let c2 : Connection A = record c1 {
        wb = holding (3 ∷ []) g1.room;
        sent = c.sent ++ ((3 ∷ []) ∷ []);
      } in
      let same : 0 + c.wb.size ≡ c.wb.size = omega arith in
      let lucky1 : NeverOneShort c2.wb.size 1536 =
        Grows-NeverOneShort g1 1536 (subst (λ x. NeverOneShort x 1536) (sym same) room.lucky) in
      let g2 =
        packet-Grows 0 0 c2.wb.size env.random_data (omega arith) (omega arith)
          (omega (arith, Grows-size g1, room.size))
          (subst (λ n. NeverOneShort c2.wb.size (8 + n)) (sym sound.has_random) lucky1) in
      let same2 : 0 + c2.wb.size ≡ c2.wb.size = omega arith in
      let wb : WriteBuffer = holding (packet 0 0 env.random_data) g2.room in
      let c3 : Connection A = record c2 {
        wb = wb;
        sent = c2.sent ++ (packet 0 0 env.random_data ∷ []);
      } in
      let done : Connection A = answered_c0 wb c in
      (
        wb,
        >>=-ok (gets (λ c. ltb (unread_bytes c) 1)) _ c refl
            ∙ >>=-ok (throw_if (ltb (unread_bytes c) 1) bad_protocal_data) _ c
                (ap (λ b. throw_if b bad_protocal_data c) some_bytes)
            ∙ >>=-ok (on_rb read_byte) _ c e1
            ∙ >>=-ok (throw_if (not (3 == 3)) bad_protocal_data) _ c1 refl
            ∙ >>=-ok (send_new env (write_byte 3)) _ c1 (
                send_new-Grows env (write_byte 3) (3 ∷ []) c1
                  (record { is_open = s.is_open; succeeds = s.succeeds }) g1)
            ∙ >>=-ok (send_new env (write_b 4 0 >> (write_b 4 0 >> write_bytes env.random_data))) _
                c2
                (send_new-Grows env _ (packet 0 0 env.random_data) c2
                  (record { is_open = s.is_open; succeeds = s.succeeds }) g2)
            ∙ >>=-ok (set_hss HandshakeState.version_sent) _ c3 refl
            ∙ >>=-ok (gets more_than_one_packet) _ done refl,
        record { valid = h1.valid; bytes = h1.bytes },
        record {
          size = omega (arith, Grows-size g1, Grows-size g2, room.size);
          lucky =
              Grows-NeverOneShort g2 1536 (subst (λ x. NeverOneShort x 1536) (sym same2) lucky1);
        },
      )

  -- handleC0 of the version 3 with at most 1536 bytes behind it: the version and the server's packet are
  -- sent, the bytes behind the version stay, and the state is version_sent. The clock has 32 bits, the
  -- random data is 1528 bytes long, the socket is open, no send fails, and the writing buffer has ten bytes
  -- at least and is never doubled to 1535.
  pub handle_c0_answers :
      (rest : List ℕ) (c : Connection A)
      → IsSound
      → HasRoom c
      → CanSend env c
      → length rest ≤ 1536
      → Holds c (3 ∷ rest)
      → (wb : WriteBuffer) × (handle_c0 env c ≡ (ok tt, answered_c0 wb c))
        × Holds (answered_c0 wb c) rest
  handle_c0_answers rest c sound room s short h =
      let (wb, e, held, _) = handle_c0-Holds rest c sound room s h in
      let done : Connection A = answered_c0 wb c in
      let no_more : more_than_one_packet done ≡ false = le→ltb 1536 (unread_bytes done) (
        omega (
          arith,
          length-unread done.parser.rb held.valid,
          ap (λ (l : List ℕ). length l) held.bytes,
        )) in
      (
        wb,
        e
            ∙ ap
                (λ b.
                  (if b
                      then (handle_c1 env >> set_hss HandshakeState.version_sent_c1_read)
                      else pure tt)
                    done)
                no_more,
        held,
      )

  -- The same with the client's packet and something more behind the version, but no packet more: the
  -- client's packet is answered and taken too, and the state is version_sent_c1_read.
  pub handle_c0_takes_c1 :
      (timestamp zero_word : ℕ) (random extra : List ℕ) (c : Connection A)
      → IsSound
      → HasRoom c
      → CanSend env c
      → timestamp < 2 ^ 32
      → zero_word < 2 ^ 32
      → length random ≡ 1528
      → 0 < length extra
      → length extra ≤ 1536
      → Holds c (3 ∷ (packet timestamp zero_word random ++ extra))
      → (wb wb' : WriteBuffer) × (now : ℕ) × (handle_c0 env c ≡ (
        ok tt,
        record (answered_c1 env timestamp now random wb' (answered_c0 wb c)) {
          hss_state = HandshakeState.version_sent_c1_read;
        },
      ))
        × Holds (answered_c1 env timestamp now random wb' (answered_c0 wb c)) extra
  handle_c0_takes_c1 t z random extra c sound room s ht hz hr some_extra short h =
      let (wb, e, held, room') = handle_c0-Holds (packet t z random ++ extra) c sound room s h in
      let done : Connection A = answered_c0 wb c in
      let more : more_than_one_packet done ≡ true = lt→ltb 1536 (unread_bytes done) (
        omega (
          arith,
          length-unread done.parser.rb held.valid,
          ap (λ (l : List ℕ). length l) held.bytes,
          length-append {0} (packet t z random) extra,
          hr,
        )) in
      let now : ℕ = env.timestamp (length done.sent) in
      let (wb', e', held') =
        handle_c1-Holds env t z random extra done ht hz (sound.clock (length done.sent)) hr short
          room'.size room'.lucky (record { is_open = s.is_open; succeeds = s.succeeds }) held in
      (
        wb,
        wb',
        now,
        e
            ∙ ap
                (λ b.
                  (if b
                      then (handle_c1 env >> set_hss HandshakeState.version_sent_c1_read)
                      else pure tt)
                    done)
                more
            ∙ >>=-ok (handle_c1 env) (λ _. set_hss HandshakeState.version_sent_c1_read) done e',
        held',
      )
