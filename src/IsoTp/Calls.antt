-- ===== src/IsoTp/Calls.antt =====
-- src/protocol/isotp_transport.h: any sequence of calls of the public operations, in any order, as
-- the owner of a transport may make them.
use esp32_vag_data_server.Prelude.{ℕ, ◌<◌, Option, List, [], ◌∷◌, get_or}
use esp32_vag_data_server.Can.{CanFrame, CanHal, Clock}
use esp32_vag_data_server.IsoTp.State.{IsoTp}
use esp32_vag_data_server.IsoTp.Node

pub data Call : Type 0 where
  sends : Option (List ℕ) → ℕ → Call
  polls : Call
  receives : Option (List ℕ) → ℕ → Call
  discards : Call
  hears : CanFrame → Call

-- The bytes of a frame are bytes; what a test needs of it is the second.
abbrev pub HasByteFields : CanFrame → Type 0
HasByteFields frame = get_or frame.payload 1 0 < 256

abbrev pub IsByteCall : Call → Type 0
IsByteCall (hears frame) = HasByteFields frame
IsByteCall (sends payload size) = Unit {0}
IsByteCall polls = Unit {0}
IsByteCall (receives payload capacity) = Unit {0}
IsByteCall discards = Unit {0}

module _ {W : Type 0} (can : CanHal W) (clock : Clock W) where
  -- The state that a call leaves.
  unfoldable pub perform : Call → IsoTp → W → IsoTp × W
  perform (sends payload size) s w =
      let (status, s', w') = Node.start_send can clock payload size s w in (s', w')
  perform polls s w = let (status, s', w') = Node.poll can clock s w in (s', w')
  perform (receives payload capacity) s w = ((Node.receive payload capacity s).1, w)
  perform discards s w = (Node.discard_pending_message s, w)
  perform (hears frame) s w =
      let (status, s', w') = Node.on_can_frame can clock s frame w in (s', w')

  unfoldable pub perform_all : List Call → IsoTp → W → IsoTp × W
  perform_all [] s w = (s, w)
  perform_all (c ∷ cs) s w = let (s', w') = perform c s w in perform_all cs s' w'
