-- ===== src/Rpc/Message.antt =====
-- What the protocol asks of its message type, beyond a `Serializer`: an empty message, and the
-- span of its bytes.
use cpp26_experiments.Base.{◌≡◌, [], Option, some, Bytes}
use cpp26_experiments.Reflect.Target.{Serializer}

pub record MessageType : Type 1 where
  pub serializer : Serializer
  pub empty : serializer.Target
  pub contents : serializer.Target → Option Bytes
  pub empty_law : serializer.Holds empty []
  pub contents_law :
      (t : serializer.Target) (bs : Bytes) → serializer.Holds t bs → contents t ≡ some bs
