-- ===== src/RtmpActor.antt =====
-- rtmpactor.h: what a connection asks of the actor that receives its streams.
use tvie_rtmp.Base.{ℕ, Bool, List}
use tvie_rtmp.Base.Int.{ℤ}
use tvie_rtmp.Exception.{M}
use tvie_rtmp.Message.{RtmpMsgHeader, ConnectCmd, MetaDataMsg}

-- The virtual methods, on an actor with the state `A`. Any of them may throw.
pub record RtmpActor (A : Type 0) : Type 0 where
  pub on_connect : ConnectCmd → M A Bool
  pub on_disconnect : M A (Unit {0})
  pub on_publish : ℤ → List ℕ → M A Bool
  pub on_create_stream : ℕ → M A Bool
  pub on_meta_data : ℤ → MetaDataMsg → M A Bool
  pub on_receive_stream : ℤ → Bool → RtmpMsgHeader → M A Bool
