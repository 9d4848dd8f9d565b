-- ===== src/Tests/Client.antt =====
-- The theorems about the connection at concrete inputs.
use native.Mathlib.Nat.{pow-suc}
use tvie_rtmp.Base.{
  ℕ, zero, suc, take_all, ◌≡◌, refl, true, false, some, List, [], ◌∷◌, ◌++◌, length,
  length-replicate, bytes_eq, zeros, arith,
}
use tvie_rtmp.Base.Int.{pos}
use tvie_rtmp.Exception.{ok, err, fault, bad_protocal_data, on, refocus, then_do, ◌>>=◌}
use tvie_rtmp.ReadBuffer
use tvie_rtmp.ReadBuffer.{snap_start, append_data, put, read_byte}
use tvie_rtmp.Parser.{rd, save_context, push_all}
use tvie_rtmp.Connection.{on_rb, on_parser, on_actor, unread_bytes}
use tvie_rtmp.ReadBuffer.View.{unread}
use tvie_rtmp.ReadBuffer.Number.{pow-pos}
use tvie_rtmp.WriteBuffer
use tvie_rtmp.WriteBuffer.{WriteBuffer, get_buffer}
use tvie_rtmp.WriteBuffer.Growth.{NeverOneShort}
use tvie_rtmp.Parser.{RtmpParser}
use tvie_rtmp.Parser.Chunk.{parse_msg_header}
use tvie_rtmp.LiveReceiver.{LiveReceiverActor, new_actor, live_receiver}
use tvie_rtmp.Connection.{Connection, Environment, new_parser, new_connection, disconnect}
use tvie_rtmp.Connection.Output.{write_message, message_header}
use tvie_rtmp.Connection.Output.Header.{parse_msg_header-write_message}
use tvie_rtmp.Connection.Handshake.{handshake, handshake_move, handle_c1, handle_c0}
use tvie_rtmp.Connection.Handshake.Exact.{Holds, CanSend, packet, answered_c1, handle_c1-Holds}
use tvie_rtmp.Connection.Handshake.Version.{IsSound, HasRoom, answered_c0, handle_c0_answers}
use tvie_rtmp.LiveReceiver.{on_disconnect, on_first}
use tvie_rtmp.Connection.Receive.{
  HandleClient, caught_in_read, taken, thrown, escaped, pass, take_in, count_bytes, acknowledge,
  next_move, move_in, HandleRead,
}
use tvie_rtmp.Connection.Receive.Counters.{unacknowledged, count_bytes_exact}
use tvie_rtmp.Connection.Phase.{IsPhase}
use tvie_rtmp.Connection.Phase.Reads.{HandleClient-IsPhase}
use tvie_rtmp.Connection.Phase.Hang.{HandleRead-hangs}

abbrev random : List ℕ
random = zeros 1528

-- A server whose sends succeed, at seven milliseconds.
abbrev pub server : Environment LiveReceiverActor
server = record {
  methods = live_receiver [] [] (λ url. true) (λ url. true);
  send_fails = λ n. false;
  timestamp = λ n. 7;
  random_data = random;
  iequals = bytes_eq;
  num_to_str = λ n. [];
}

length-random : length random ≡ 1528
length-random = length-replicate {A = ℕ} 1528 0

server-IsSound : IsSound server
server-IsSound = record { clock = λ n. omega arith; has_random = length-random }

-- The bytes as they lie in a reading buffer.
abbrev pub client_of : List ℕ → Connection LiveReceiverActor
client_of bs = record (new_connection new_actor) {
  parser = record new_parser {
    rb = record {
      buffer = bs;
      capacity = length bs;
      cout = length bs;
      bi = 0;
      in_snap = false;
      snap_bi = 0;
    };
  };
}

pub client_of-Holds : (bs : List ℕ) → Holds (client_of bs) bs
client_of-Holds bs = record {
  valid = record { read_le = omega arith; fits = omega arith; sized = refl };
  bytes = take_all (length bs) bs (omega arith);
}

never_short : NeverOneShort 1024 1536
never_short zero e = absurd (omega arith)
never_short (suc m) e = absurd (omega (arith, e, pow-suc 2 m, pow-pos m))

pub client-CanSend : (bs : List ℕ) → CanSend server (client_of bs)
unfolding new_connection
client-CanSend bs = record { is_open = refl; succeeds = λ n. refl }

client-HasRoom : (bs : List ℕ) → HasRoom server (client_of bs)
unfolding new_connection
client-HasRoom bs = record { size = omega arith; lucky = never_short }

handle_c0_answers_example :
    (wb : WriteBuffer) × (handle_c0 server (client_of (3 ∷ 9 ∷ []))
      ≡ (ok tt, answered_c0 server wb (client_of (3 ∷ 9 ∷ []))))
    × Holds (answered_c0 server wb (client_of (3 ∷ 9 ∷ []))) (9 ∷ [])
handle_c0_answers_example =
    handle_c0_answers server (9 ∷ []) (client_of (3 ∷ 9 ∷ [])) server-IsSound
      (client-HasRoom (3 ∷ 9 ∷ [])) (client-CanSend (3 ∷ 9 ∷ [])) (omega arith)
      (client_of-Holds (3 ∷ 9 ∷ []))

abbrev c1 : List ℕ
c1 = packet 5 0 random

handle_c1-Holds_example :
    (wb : WriteBuffer) × (handle_c1 server (client_of (c1 ++ 9 ∷ []))
      ≡ (ok tt, answered_c1 server 5 7 random wb (client_of (c1 ++ 9 ∷ []))))
    × Holds (answered_c1 server 5 7 random wb (client_of (c1 ++ 9 ∷ []))) (9 ∷ [])
unfolding new_connection
handle_c1-Holds_example =
    handle_c1-Holds server 5 0 random (9 ∷ []) (client_of (c1 ++ 9 ∷ [])) (omega arith)
      (omega arith) (omega arith) length-random (omega arith) (omega arith) never_short
      (client-CanSend (c1 ++ 9 ∷ [])) (client_of-Holds (c1 ++ 9 ∷ []))

HandleRead-hangs_example :
    ¬ HandleRead server
      (3 ∷ (c1 ++ 9 ∷ []))
      (new_connection new_actor)
      (ok tt, new_connection new_actor)
HandleRead-hangs_example =
    HandleRead-hangs server 5 0 random (9 ∷ []) new_actor (ok tt, new_connection new_actor)
      server-IsSound (λ n. refl) (omega arith) (omega arith) length-random (omega arith)
      (omega arith)

-- A result on stream 1, and the parser that receives it.
abbrev written : WriteBuffer
written = (write_message 128 (message_header 3 2 20 (pos 1)) (5 ∷ 6 ∷ []) (WriteBuffer.empty 64)).1

abbrev reader : RtmpParser
reader = (client_of (get_buffer written ++ 8 ∷ [])).parser

parse_msg_header-write_message_example :
    ((write_message 128 (message_header 3 2 20 (pos 1)) (5 ∷ 6 ∷ []) (WriteBuffer.empty 64)).0
      ≡ ok tt)
    × (q : RtmpParser) × (parse_msg_header (pos 128) reader ≡ (
      ok (record (message_header 3 2 20 (pos 1)) {
        body = some (5 ∷ 6 ∷ []);
        un_parsed_size = pos 0;
      }),
      q,
    ))
    × (unread q.rb ≡ 8 ∷ [])
parse_msg_header-write_message_example =
    let h = client_of-Holds (get_buffer written ++ 8 ∷ []) in
    parse_msg_header-write_message 128 3 20 1 (5 ∷ 6 ∷ []) 64 128 (8 ∷ []) reader (omega arith)
      (omega arith) (omega arith) (omega arith) (omega arith) (omega arith) (omega arith)
      (omega arith) h.valid refl h.bytes

-- The connection that received a wrong version.
abbrev wrong : Connection LiveReceiverActor
wrong = (take_in server (4 ∷ []) (new_connection new_actor)).1

wrong-take_in : take_in server (4 ∷ []) (new_connection new_actor) ≡ (ok tt, wrong)
unfolding take_in count_bytes acknowledge new_connection new_actor on_rb on_parser rd on refocus
    append_data ReadBuffer.make_room put ◌>>=◌ then_do
wrong-take_in = refl

wrong-pass : pass server wrong ≡ (err bad_protocal_data, (pass server wrong).1)
unfolding pass take_in count_bytes acknowledge next_move move_in handshake handshake_move handle_c0
    new_connection new_actor on_rb on_parser rd on refocus snap_start save_context push_all
    append_data ReadBuffer.make_room put read_byte ◌>>=◌ then_do
wrong-pass = refl

wrong_unread : unread_bytes wrong ≡ 1
unfolding take_in count_bytes acknowledge new_connection new_actor on_rb on_parser rd on refocus
    append_data ReadBuffer.make_room put ◌>>=◌ then_do
wrong_unread = refl

-- It is disconnected, and the actor reads the stream that it does not have.
abbrev disconnected : Connection LiveReceiverActor
disconnected = (caught_in_read server bad_protocal_data (pass server wrong).1).1

wrong-caught_in_read :
    (err fault, disconnected) ≡ caught_in_read server bad_protocal_data (pass server wrong).1
unfolding caught_in_read disconnect on_actor on_disconnect on_first pass take_in count_bytes
    acknowledge next_move move_in handshake handshake_move handle_c0 new_connection new_actor on_rb
    on_parser rd on refocus snap_start save_context push_all append_data ReadBuffer.make_room put
    read_byte ◌>>=◌ then_do
wrong-caught_in_read = refl

wrong-HandleClient :
    HandleClient server ((4 ∷ []) ∷ []) (new_connection new_actor) (err fault, disconnected)
unfolding new_connection
wrong-HandleClient =
    escaped fault refl
      (taken wrong wrong-take_in
        (thrown bad_protocal_data (omega (arith, wrong_unread)) wrong-pass wrong-caught_in_read))
      refl

HandleClient-IsPhase_example : IsPhase disconnected
HandleClient-IsPhase_example =
    HandleClient-IsPhase server new_actor ((4 ∷ []) ∷ []) (err fault, disconnected)
      wrong-HandleClient

-- A hundred bytes that take the counter over its end.
abbrev near_the_end : Connection LiveReceiverActor
near_the_end = record (new_connection new_actor) {
  bytes_received = 4294967290;
  ack_bytes = 4294967200;
}

count_bytes_exact_example : unacknowledged (count_bytes 100 near_the_end) ≡ 189
count_bytes_exact_example =
    count_bytes_exact 100 near_the_end (omega arith) (omega arith) (omega arith)
