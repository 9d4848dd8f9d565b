-- ===== src/Connection/Handshake/Exact.antt =====
-- rtmpconnection.cpp, handleC0 and handleC1: what the server answers.
use tvie_rtmp.Base.{
  ℕ, ◌+◌, ◌^◌, ◌≤◌, ◌<◌, ◌≡◌, refl, sym, ap, subst, ◌∙◌, true, false, not, ◌&&◌, List, [], ◌∷◌,
  ◌++◌, append_assoc, arith, le→ltb, length, if◌then◌else◌,
}
use tvie_rtmp.Base.Int.{pos}
use tvie_rtmp.Exception.{ok, err, M, pure, gets, modify, ◌>>◌, >>=-ok, on-ok, internal_error}
use tvie_rtmp.ReadBuffer.{ReadBuffer, big, read_all, read_bytes, read, advance}
use tvie_rtmp.ReadBuffer.View.{
  IsValid, unread, Reads, length-unread, read_bytes-Reads, prefix-IsValid, prefix_rest,
  advance-advance,
}
use tvie_rtmp.ReadBuffer.Number.{read_big-Reads}
use tvie_rtmp.WriteBuffer.{WriteBuffer, re_init, write_b, write_bytes, get_buffer}
use tvie_rtmp.WriteBuffer.Bytes.{holding, re_init-holding, get_buffer-holding}
use tvie_rtmp.WriteBuffer.Words.{big_bytes, big_bytes-IsBytes, big_value-big_bytes}
use tvie_rtmp.WriteBuffer.Growth.{
  NeverOneShort, Grows, Grows->>, Grows-size, Grows-NeverOneShort, write_bytes-Grows, write_b-Grows,
}
use tvie_rtmp.Parser.{rd}
use tvie_rtmp.Connection.{
  Connection, Environment, HandshakeState, random_data_size, on_rb, on_parser, on_wb, write_data,
  send_written, send_new, unread_bytes,
}
use tvie_rtmp.Connection.Handshake.{set_hss, more_than_one_packet, handle_c1, handle_c2}

-- The connection behind a read of `n` bytes.
abbrev pub took : {A : Type 0} → ℕ → Connection A → Connection A
took n c = record c { parser = record c.parser { rb = advance n c.parser.rb } }

-- The unread bytes, in a buffer that is well formed.
pub record Holds {A : Type 0} (c : Connection A) (bs : List ℕ) : Type 0 where
  pub valid : IsValid c.parser.rb
  pub bytes : unread c.parser.rb ≡ bs

pub on_rb-Reads :
    {A B : Type 0} {m : M ReadBuffer B} {bs : List ℕ} {b : B}
    → Reads m bs b
    → (c : Connection A) (rest : List ℕ) → Holds c (bs ++ rest)
    → (on_rb m c ≡ (ok b, took (length bs) c)) × Holds (took (length bs) c) rest
unfolding on_rb on_parser rd
on_rb-Reads {bs = bs} r c rest h = (
  on-ok _ _ _ c (on-ok _ _ _ c.parser (r.run c.parser.rb rest h.valid h.bytes)),
  record {
    valid = prefix-IsValid c.parser.rb bs rest h.valid h.bytes;
    bytes = prefix_rest c.parser.rb bs rest h.valid h.bytes;
  },
)

-- A number of four bytes.
word-Reads : (n : ℕ) → n < 2 ^ 32 → Reads (read_all 4 big) (big_bytes 4 n) n
word-Reads n h =
    subst (λ v. Reads (read 4 big (pos 4)) (big_bytes 4 n) v)
      (big_value-big_bytes 4 0 n h ∙ omega arith)
      (read_big-Reads 4 (big_bytes 4 n) (big_bytes-IsBytes 4 n) (omega arith))

module _ {A : Type 0} (env : Environment A) where
  -- Nothing stands in the way of a send.
  pub record CanSend (c : Connection A) : Type 0 where
    pub is_open : c.socket_open ≡ true
    pub succeeds : (n : ℕ) → env.send_fails n ≡ false

  pub send_new-Grows :
      (m : M WriteBuffer (Unit {0})) (bs : List ℕ) (c : Connection A)
      → CanSend c
      → (g : Grows m [] c.wb.size bs)
      → send_new env m c ≡ (ok tt, record c { wb = holding bs g.room; sent = c.sent ++ (bs ∷ []) })
  unfolding send_new on_wb send_written write_data
  send_new-Grows m bs c s g =
      let c1 : Connection A = record c { wb = holding bs g.room } in
      let goes : (c.socket_open && not (env.send_fails (length c.sent))) ≡ true =
        ap (λ b. b && not (env.send_fails (length c.sent))) s.is_open
        ∙ ap not (s.succeeds (length c.sent)) in
      >>=-ok (on_wb (modify re_init)) _ c
        (on-ok _ _ (modify re_init) c (ap (λ w. (ok tt, w)) (re_init-holding c.wb)))
      ∙ >>=-ok (on_wb m) _ (record c { wb = holding [] c.wb.size })
          (on-ok _ _ m (record c { wb = holding [] c.wb.size }) g.run)
      ∙ >>=-ok (gets (λ c. get_buffer c.wb)) _ c1 refl
      ∙ ap (λ d. write_data env d c1) (get_buffer-holding bs g.room)
      ∙ ap
          (λ b.
            if b
            then (ok tt, record c1 { sent = c.sent ++ (bs ∷ []) })
            else (err internal_error, c1))
          goes

-- Two numbers and the random data, as S1 and S2 have them.
abbrev pub packet : ℕ → ℕ → List ℕ → List ℕ
packet a b random = big_bytes 4 a ++ (big_bytes 4 b ++ random)

pub packet-Grows :
    (a b size : ℕ) (random : List ℕ)
    → a < 2 ^ 32
    → b < 2 ^ 32
    → 10 ≤ size
    → NeverOneShort size (8 + length random)
    → Grows (write_b 4 a >> (write_b 4 b >> write_bytes random)) [] size (packet a b random)
packet-Grows a b size random ha hb big_enough lucky =
    let same : 0 + size ≡ size = omega arith in
    let first : Grows (write_b 4 a) [] size (big_bytes 4 a) =
      write_b-Grows 4 a [] size (omega arith) ha (omega arith) in
    let second : Grows (write_b 4 b) (big_bytes 4 a) first.room (big_bytes 4 b) =
      write_b-Grows 4 b (big_bytes 4 a) first.room (omega arith) hb
        (omega (arith, Grows-size first)) in
    let third : Grows (write_bytes random) (big_bytes 4 a ++ big_bytes 4 b) second.room random =
      write_bytes-Grows random (big_bytes 4 a ++ big_bytes 4 b) second.room
        (omega (arith, Grows-size first, Grows-size second))
        (Grows-NeverOneShort second (8 + length random) (
          Grows-NeverOneShort first (8 + length random)
            (subst (λ s. NeverOneShort s (8 + length random)) (sym same) lucky))) in
    Grows->> [] size (big_bytes 4 a) _ first
      (Grows->> (big_bytes 4 a) first.room (big_bytes 4 b) random second third)

took-took : {A : Type 0} (n m k : ℕ) (c : Connection A) → k ≡ n + m → took m (took n c) ≡ took k c
took-took n m k c e =
    ap {A = ReadBuffer} (λ rb. record c { parser = record c.parser { rb = rb } })
      (advance-advance n m k c.parser.rb e)

module _ {A : Type 0} (env : Environment A) where
  -- What handleC1 leaves: S2 sent, with the client's timestamp and random data and the time of the server
  -- between them.
  abbrev pub answered_c1 : ℕ → ℕ → List ℕ → WriteBuffer → Connection A → Connection A
  answered_c1 timestamp now random wb c = record (took 1536 c) {
    wb = wb;
    sent = c.sent ++ (packet timestamp now random ∷ []);
    hss_state = HandshakeState.ack_sent;
  }

  -- handleC1 of the client's packet (two numbers of 32 bits and 1528 bytes) with at most 1536 bytes
  -- behind it: the echo is sent, with the client's timestamp, the server's time of 32 bits and the client's
  -- random data, the packet is taken, the bytes behind it stay, and the state is ack_sent. The socket is
  -- open, no send fails, and the writing buffer has ten bytes at least and is never doubled to 1535.
  pub handle_c1-Holds :
      (timestamp zero_word : ℕ) (random rest : List ℕ) (c : Connection A)
      → timestamp < 2 ^ 32
      → zero_word < 2 ^ 32
      → env.timestamp (length c.sent) < 2 ^ 32
      → length random ≡ 1528
      → length rest ≤ 1536
      → 10 ≤ c.wb.size
      → NeverOneShort c.wb.size 1536
      → CanSend env c
      → Holds c (packet timestamp zero_word random ++ rest)
      → (wb : WriteBuffer) × (handle_c1 env c
          ≡ (ok tt, answered_c1 timestamp (env.timestamp (length c.sent)) random wb c))
        × Holds (answered_c1 timestamp (env.timestamp (length c.sent)) random wb c) rest
  unfolding handle_c1
  handle_c1-Holds t z random rest c ht hz hn hr short size lucky s h =
      let now : ℕ = env.timestamp (length c.sent) in
      let (e1, h1) = on_rb-Reads (word-Reads t ht) c ((big_bytes 4 z ++ random) ++ rest) (record {
        valid = h.valid;
        bytes = h.bytes ∙ append_assoc (big_bytes 4 t) (big_bytes 4 z ++ random) rest;
      }) in
      let c1 : Connection A = took 4 c in
      let (e2, h2) = on_rb-Reads (word-Reads z hz) c1 (random ++ rest) (record {
        valid = h1.valid;
        bytes = h1.bytes ∙ append_assoc (big_bytes 4 z) random rest;
      }) in
      let c2 : Connection A = took 4 c1 in
      let (e3, h3) =
        on_rb-Reads
          (subst (λ n. Reads (read_bytes (pos n)) random random) hr (read_bytes-Reads random)) c2
          rest h2 in
      let path : took (length random) c2 ≡ took 1536 c =
        took-took 4 (length random) (4 + length random) c1 refl
        ∙ took-took 4 (4 + length random) 1536 c (omega (arith, hr)) in
      let c3 : Connection A = took 1536 c in
      let h4 : Holds c3 rest = subst (λ x. Holds x rest) path h3 in
      let g =
        packet-Grows t now c.wb.size random ht hn size
          (subst (λ n. NeverOneShort c.wb.size (8 + n)) (sym hr) lucky) in
      let sent : Connection A = record c3 {
        wb = holding (packet t now random) g.room;
        sent = c.sent ++ (packet t now random ∷ []);
      } in
      let done : Connection A = record sent { hss_state = HandshakeState.ack_sent } in
      let hold : Holds done rest = record { valid = h4.valid; bytes = h4.bytes } in
      let no_more : more_than_one_packet done ≡ false = le→ltb 1536 (unread_bytes done) (
        omega (
          arith,
          length-unread done.parser.rb hold.valid,
          ap (λ (l : List ℕ). length l) hold.bytes,
        )) in
      (
        holding (packet t now random) g.room,
        >>=-ok (on_rb (read_all 4 big)) _ c e1
            ∙ >>=-ok (on_rb (read_all 4 big)) _ c1 e2
            ∙ >>=-ok (on_rb (read_bytes (pos random_data_size))) _ c2
                (e3 ∙ ap (λ x. (ok random, x)) path)
            ∙ >>=-ok (gets (λ c. env.timestamp (length c.sent))) _ c3 refl
            ∙ >>=-ok (send_new env (write_b 4 t >> (write_b 4 now >> write_bytes random))) _ c3 (
                send_new-Grows env _ (packet t now random) c3
                  (record { is_open = s.is_open; succeeds = s.succeeds }) g)
            ∙ >>=-ok (set_hss HandshakeState.ack_sent) _ sent refl
            ∙ >>=-ok (gets more_than_one_packet) _ done refl
            ∙ ap (λ b. (if b then handle_c2 else pure tt) done) no_more,
        hold,
      )
