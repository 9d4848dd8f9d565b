-- ===== src/LiveReceiver.antt =====
-- livereceiveractor.h and livereceiveractor.cpp: the actor that hands a client's streams to the media
-- library.
--
-- The thread that feeds the library stands in Push, and its calls of feedData with the streams; the static
-- members stand in Statics. What the library keeps for itself is left out: `has_output` says that ctx_ is
-- not null. avio_open and av_guess_format are parameters. `streams` is the used part of streamInfos_,
-- whose other entries are not initialised: reading one is a `fault`, as is writing behind the last.
pub mod StreamSetup
pub mod Tags
pub mod Fifo
pub mod Wait
pub mod FlvHeader
pub mod Streams
pub mod Statics
pub mod Media
pub mod Push
use tvie_rtmp.Base.{
  ℕ, zero, suc, ◌+◌, Bool, true, false, not, Option, none, some, List, [], ◌∷◌, ◌++◌, ltb, leb,
  ◌==◌, if◌then◌else◌, length,
}
use tvie_rtmp.Base.Int.{ℤ, pos, eq_ℤ}
use tvie_rtmp.Exception.{
  internal_error, fault, Result, ok, err, M, pure, throw, throw_if, gets, modify, ◌>>=◌, ◌>>◌,
}
use tvie_rtmp.Message.{RtmpMsgHeader, ConnectCmd, MetaDataMsg}
use tvie_rtmp.RtmpActor.{RtmpActor}
use tvie_rtmp.LiveReceiver.StreamSetup.{
  StreamSetupInfo, new_stream, write_flv_header, write_data, write_meta_data, set_end_of_file,
}

pub record LiveReceiverActor : Type 0 where
  pub connect_info : Option ConnectCmd
  pub streams : List StreamSetupInfo
  pub output_url : List ℕ
  pub thread_started : Bool
  pub meta_data : Option MetaDataMsg
  pub push_thread_done : Bool
  pub has_output : Bool

unfoldable pub new_actor : LiveReceiverActor
new_actor = record {
  connect_info = none;
  streams = [];
  output_url = [];
  thread_started = false;
  meta_data = none;
  push_thread_done = false;
  has_output = false;
}

-- STREAM_COUNT
abbrev pub stream_count : ℕ
stream_count = 10

-- findStreamSetupInfo, as an index
unfoldable pub find_stream : ℤ → List StreamSetupInfo → Option ℕ
find_stream id [] = none
find_stream id (i ∷ is) =
    if eq_ℤ i.stream_id id
    then some 0
    else elim (find_stream id is) [ none ↦ none | some n ↦ some (suc n) ]

-- The same, where nothing found is an error.
unfoldable pub the_stream : ℤ → M LiveReceiverActor ℕ
the_stream id a = elim (find_stream id a.streams) [
  | none ↦ (err internal_error, a)
  | some n ↦ (ok n, a)
]

unfoldable pub put_first :
    List StreamSetupInfo
    → LiveReceiverActor
    → Result (Unit {0}) × StreamSetupInfo
    → Result (Unit {0}) × LiveReceiverActor
put_first is a (r, i) = (r, record a { streams = i ∷ is })

-- streamInfos_[0]->…
unfoldable pub on_first : M StreamSetupInfo (Unit {0}) → M LiveReceiverActor (Unit {0})
on_first m a = elim a.streams [ [] ↦ (err fault, a) | i ∷ is ↦ put_first is a (m i) ]

unfoldable pub notify_push_thread_done : M LiveReceiverActor (Unit {0})
notify_push_thread_done = modify (λ a. record a { push_thread_done = true })

unfoldable pub on_connect : ConnectCmd → M LiveReceiverActor Bool
on_connect cmd = do modify (λ a. record a { connect_info = some cmd }); pure true

-- The join and the interruption of the thread are left out.
unfoldable pub on_disconnect : M LiveReceiverActor (Unit {0})
on_disconnect = on_first set_end_of_file

unfoldable pub store_stream : StreamSetupInfo → M LiveReceiverActor (Unit {0})
store_stream i a =
    if ltb (length a.streams) stream_count
    then (ok tt, record a { streams = a.streams ++ (i ∷ []) })
    else (err fault, a)

unfoldable pub on_create_stream : ℕ → M LiveReceiverActor Bool
on_create_stream next_stream_id = do
  n ← gets (λ a. length a.streams)
  throw_if (ltb stream_count n) internal_error
  store_stream (new_stream (pos next_stream_id))
  pure true

-- The bits of the double -1.
abbrev pub minus_one_double : ℕ
minus_one_double = 0xbff0000000000000

-- The flags that the metadata sets.
unfoldable pub set_flags : MetaDataMsg → M StreamSetupInfo (Unit {0})
set_flags meta = modify (λ i. record i {
  has_video = not (meta.width == minus_one_double);
  has_audio = not (meta.audiosamplerate == minus_one_double);
})

unfoldable pub on_meta_data : ℤ → MetaDataMsg → M LiveReceiverActor Bool
on_meta_data id meta = do
  modify (λ a. record a { meta_data = some meta })
  n ← the_stream id
  if n == 0 then (do on_first (set_flags meta); pure true) else pure true

-- The FLV header and the metadata in front of the first message.
unfoldable pub write_start : Option MetaDataMsg → M StreamSetupInfo (Unit {0})
write_start meta = do
  written ← gets (λ i. i.flv_header_written)
  let start = write_flv_header >> write_meta_data meta
  if written then pure tt else start

unfoldable pub receive_first : RtmpMsgHeader → M LiveReceiverActor Bool
receive_first msg = do
  meta ← gets (λ a. a.meta_data)
  on_first (write_start meta)
  modify (λ a. record a { thread_started = true })
  on_first (write_data msg)
  pure true

unfoldable pub on_receive_stream : ℤ → Bool → RtmpMsgHeader → M LiveReceiverActor Bool
on_receive_stream id is_video msg = do
  throw_if (← gets (λ a. a.push_thread_done)) internal_error
  n ← the_stream id
  if n == 0 then receive_first msg else pure true

-- The static members that Init sets, and what opens an output.
module _ (url_prefix fmt : List ℕ) (opens has_format : List ℕ → Bool) where
  unfoldable pub open_output : ConnectCmd → List ℕ → M LiveReceiverActor Bool
  open_output cmd publish_url = do
    let url = url_prefix ++ (47 ∷ cmd.app ++ (47 ∷ publish_url ++ fmt))
    modify (λ a. record a { output_url = url; has_output = true })
    throw_if (not (opens url)) internal_error
    throw_if (not (has_format url)) internal_error
    pure true

  -- connectInfo_ is null before onConnect.
  unfoldable pub publish_first : List ℕ → Option ConnectCmd → M LiveReceiverActor Bool
  publish_first publish_url none = throw fault
  publish_first publish_url (some cmd) = open_output cmd publish_url

  unfoldable pub on_publish : ℤ → List ℕ → M LiveReceiverActor Bool
  on_publish id publish_url = do
    n ← the_stream id
    info ← gets (λ a. a.connect_info)
    if n == 0 then publish_first publish_url info else pure true

  -- The actor as the connection sees it.
  abbrev pub live_receiver : RtmpActor LiveReceiverActor
  live_receiver = record {
    on_connect = on_connect;
    on_disconnect = on_disconnect;
    on_publish = on_publish;
    on_create_stream = on_create_stream;
    on_meta_data = on_meta_data;
    on_receive_stream = on_receive_stream;
  }
