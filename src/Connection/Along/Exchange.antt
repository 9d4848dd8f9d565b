-- ===== src/Connection/Along/Exchange.antt =====
-- rtmpconnection.cpp: what the server sends and normalExchange, as paths.
use tvie_rtmp.Base.{ℕ, Bool, true, false, not, Option, some, List}
use tvie_rtmp.Base.Int.{ℤ, pos, signed32}
use tvie_rtmp.Exception.{Thrown, not_supported, bad_state, internal_error, M, ◌>>◌, modify}
use tvie_rtmp.WriteBuffer
use tvie_rtmp.WriteBuffer.{WriteBuffer, re_init, get_buffer}
use tvie_rtmp.Message.{RtmpMsgHeader, Amf0Command, ConnectCmd}
use tvie_rtmp.Connection.{Connection, Environment, ConnectState, write_data, send_written, send_new}
use tvie_rtmp.Connection.Output.{
  body_of, set_cs, chunked_sent_msg, answer, sent_chunk_size, send_acknowledgement,
  sent_wnd_ack_size, sent_set_peer_bandwidth, sent_net_connect_connect_success, sent_on_bw_done,
  send_on_status,
}
use tvie_rtmp.Connection.Exchange.{
  agreed, set_chunk, on_set_chunk_size, on_read_connect, on_read_wnd_ack_size, on_receive,
  on_read_amf0_data_set_data_frame, on_read_publish, on_read_release_stream, on_read_fc_publish,
  on_read_create_stream, on_command, on_amf0_command, unsupported_data, on_amf0_data,
  normal_exchange_msg, normal_exchange,
}
use tvie_rtmp.Connection.Along.{
  IsPath, Along, >>=-Along, >>-Along, pure-Along, throw-Along, throw_if-Along, gets-Along,
  from_result-Along, if-Along, if-R, try_catch-Along, on_parser-Along, on_wb-Along, on_actor-Along,
  on_local-Along,
}

module _ {A : Type 0} {R : Connection A → Connection A → Type 0} (path : IsPath R) where
  pub set_cs-Along : (s : ConnectState) → Along R (set_cs s)
  set_cs-Along s = record {
    run = λ c.
        path.change c c.parser c.wb c.actor c.chunk_size c.window_ack_size c.out_chunk_size c.ccp s
          c.is_connected;
  }

  body_of-Along : (m : M WriteBuffer (Unit {0})) → Along R (body_of m)
  unfolding body_of WriteBuffer.create
  body_of-Along m =
      >>=-Along path (gets-Along path _)
        (λ size. >>=-Along path (created-Along size) (λ wp. on_local-Along path wp _))
    where
      created-Along : (size : ℤ) → Along R (WriteBuffer.create {S = Connection A} size)
      created-Along (pos n) = pure-Along path _
      created-Along _ = throw-Along path _

  module _ (env : Environment A) where
    write_data-Along : (d : List ℕ) → Along R (write_data env d)
    unfolding write_data
    write_data-Along d = record { run = λ c. if-R path _ c _ _ (path.send c d) (path.stay c) }

    pub send_new-Along : (m : M WriteBuffer (Unit {0})) → Along R (send_new env m)
    unfolding send_new send_written
    send_new-Along m =
        >>-Along path (on_wb-Along path _)
          (>>-Along path (on_wb-Along path m) (>>=-Along path (gets-Along path _) write_data-Along))

    pub answer-Along :
        (id : ℕ) (stream : ℤ) (m : M WriteBuffer (Unit {0})) → Along R (answer env id stream m)
    unfolding answer chunked_sent_msg
    answer-Along id stream m =
        >>=-Along path (body_of-Along m)
          (λ body. >>=-Along path (gets-Along path _) (λ size. send_new-Along _))

    written-Along :
        (m : M WriteBuffer (Unit {0})) (s : ConnectState) → Along R (send_new env m >> set_cs s)
    written-Along m s = >>-Along path (send_new-Along m) (set_cs-Along s)

    pub send_acknowledgement-Along : (n : ℕ) → Along R (send_acknowledgement env n)
    unfolding send_acknowledgement
    send_acknowledgement-Along n = send_new-Along _

    success-Along : Along R (sent_net_connect_connect_success env)
    unfolding sent_net_connect_connect_success
    success-Along = >>-Along path (answer-Along _ _ _) (set_cs-Along _)

    sent_on_bw_done-Along : Along R (sent_on_bw_done env)
    unfolding sent_on_bw_done
    sent_on_bw_done-Along = >>-Along path (answer-Along _ _ _) (set_cs-Along _)

    agreed-Along : {m : M (Connection A) Bool} → Along R m → Along R (agreed m)
    unfolding agreed
    agreed-Along h = >>=-Along path h (λ b. throw_if-Along path (not b) internal_error)

    ccp-Along : (cmd : Option ConnectCmd) → Along R (modify (λ c. record c { ccp = cmd }))
    ccp-Along cmd = record {
      run = λ c.
          path.change c c.parser c.wb c.actor c.chunk_size c.window_ack_size c.out_chunk_size cmd
            c.cs_state c.is_connected;
    }

    out_size-Along : (n : ℕ) → Along R (modify (λ c. record c { out_chunk_size = n }))
    out_size-Along n = record {
      run = λ c.
          path.change c c.parser c.wb c.actor c.chunk_size c.window_ack_size n c.ccp c.cs_state
            c.is_connected;
    }

    connected-Along : Along R (modify (λ c. record c { is_connected = true }))
    connected-Along = record {
      run = λ c.
          path.change c c.parser c.wb c.actor c.chunk_size c.window_ack_size c.out_chunk_size c.ccp
            c.cs_state true;
    }

    window-Along : (n : ℤ) → Along R (modify (λ c. record c { window_ack_size = n }))
    window-Along n = record {
      run = λ c.
          path.change c c.parser c.wb c.actor c.chunk_size n c.out_chunk_size c.ccp c.cs_state
            c.is_connected;
    }

    set_chunk-Along : (n : ℤ) → Along R (set_chunk n)
    set_chunk-Along n = record {
      run = λ c.
          path.change c c.parser c.wb c.actor n c.window_ack_size c.out_chunk_size c.ccp c.cs_state
            c.is_connected;
    }

    on_read_connect-Along : (mh : RtmpMsgHeader) → Along R (on_read_connect env mh)
    unfolding on_read_connect sent_wnd_ack_size sent_set_peer_bandwidth sent_chunk_size
    on_read_connect-Along mh = >>=-Along path (gets-Along path _) (λ again.
        >>-Along path (throw_if-Along path again bad_state) (
          >>=-Along path (from_result-Along path _) (λ cmd. >>-Along path (ccp-Along (some cmd)) (
            >>-Along path (agreed-Along (on_actor-Along path _)) (
              >>-Along path (written-Along _ _) (
                >>-Along path (written-Along _ _) (
                  >>-Along path (out_size-Along 1024) (
                    >>-Along path (written-Along _ _) (
                      >>-Along path success-Along (
                        >>-Along path connected-Along (
                          >>=-Along path (on_actor-Along path _)
                            (λ _. pure-Along path tt))))))))))))

    on_read_wnd_ack_size-Along : (mh : RtmpMsgHeader) → Along R (on_read_wnd_ack_size env mh)
    unfolding on_read_wnd_ack_size
    on_read_wnd_ack_size-Along mh =
        >>=-Along path (from_result-Along path _)
          (λ size. >>-Along path (window-Along size) sent_on_bw_done-Along)

    on_receive-Along : (is_video : Bool) (mh : RtmpMsgHeader) → Along R (on_receive env is_video mh)
    unfolding on_receive
    on_receive-Along is_video mh = agreed-Along (on_actor-Along path _)

    set_data_frame-Along : (mh : RtmpMsgHeader) → Along R (on_read_amf0_data_set_data_frame env mh)
    unfolding on_read_amf0_data_set_data_frame
    set_data_frame-Along mh =
        >>=-Along path (from_result-Along path _) (λ request. agreed-Along (on_actor-Along path _))

    on_read_publish-Along : (mh : RtmpMsgHeader) → Along R (on_read_publish env mh)
    unfolding on_read_publish send_on_status
    on_read_publish-Along mh =
        >>=-Along path (from_result-Along path _)
          (λ request. >>-Along path (agreed-Along (on_actor-Along path _)) (answer-Along _ _ _))

    on_read_create_stream-Along : (mh : RtmpMsgHeader) → Along R (on_read_create_stream env mh)
    unfolding on_read_create_stream
    on_read_create_stream-Along mh = >>=-Along path (from_result-Along path _) (λ request.
        >>=-Along path (gets-Along path _) (λ index.
          >>-Along path (agreed-Along (on_actor-Along path _))
            (>>-Along path (answer-Along _ _ _) (record { run = λ c. path.count c }))))

    on_command-Along : (cmd : Amf0Command) (mh : RtmpMsgHeader) → Along R (on_command env cmd mh)
    unfolding on_command on_read_release_stream on_read_fc_publish
    on_command-Along Amf0Command.connect mh = on_read_connect-Along mh
    on_command-Along Amf0Command.publish mh = on_read_publish-Along mh
    on_command-Along Amf0Command.release_stream mh =
        >>=-Along path (from_result-Along path _) (λ request. answer-Along _ _ _)
    on_command-Along Amf0Command.fc_publish mh =
        >>=-Along path (from_result-Along path _) (λ request. answer-Along _ _ _)
    on_command-Along Amf0Command.create_stream mh = on_read_create_stream-Along mh

    unsupported_data-Along : (e : Thrown) → Along R (unsupported_data env e)
    unfolding unsupported_data
    unsupported_data-Along not_supported = pure-Along path tt
    unsupported_data-Along e = throw-Along path e

    -- normalExchange(mh), by the type of the message.
    normal_exchange_msg-Along : (mh : RtmpMsgHeader) → Along R (normal_exchange_msg env mh)
    unfolding normal_exchange_msg on_amf0_command on_amf0_data on_set_chunk_size
    normal_exchange_msg-Along mh =
        if-Along path _ (>>=-Along path (from_result-Along path _) (λ cmd. on_command-Along cmd mh))
          (if-Along path _ (throw-Along path internal_error) (
            if-Along path _
              (try_catch-Along path
                (>>-Along path (from_result-Along path _) (set_data_frame-Along mh))
                unsupported_data-Along)
              (if-Along path _
                (>>=-Along path (from_result-Along path _) (λ v. set_chunk-Along (signed32 v)))
                (if-Along path _ (on_receive-Along false mh)
                  (if-Along path _ (on_receive-Along true mh) (on_read_wnd_ack_size-Along _))))))

    pub normal_exchange-Along : Along R (normal_exchange env)
    unfolding normal_exchange
    normal_exchange-Along =
        >>=-Along path (gets-Along path _)
          (λ size. >>=-Along path (on_parser-Along path _) (λ mh. normal_exchange_msg-Along mh))
