-- ===== src/IsoTp/Ends.antt =====
-- src/protocol/isotp_transport.h: the first frame of a message, and the call that takes the message.
use esp32_vag_data_server.Prelude.{
  ℕ, ◌≤◌, ◌<◌, ◌≡◌, refl, ◌∙◌, true, false, List, [], ◌∷◌, arith, length, take, drop, write_at,
  add64, some, length-take, length-drop, length-write_at, take-write_at,
}
use esp32_vag_data_server.Can.{CanFrame}
use esp32_vag_data_server.Transport.{TransportStatus}
use esp32_vag_data_server.IsoTp.State.{
  IsoTpConfig, IsoTp, Rx, k_max_payload, is_receiving, is_config_valid,
}
use esp32_vag_data_server.IsoTp.Receiver.{begin_assembly, receive_into}
use esp32_vag_data_server.IsoTp.Segments.{opening_frame}
use esp32_vag_data_server.IsoTp.Assembly.{Assembling, HasMessage}

-- A receiver with no message under way and none pending.
pub record IsFree (s : IsoTp) : Type 0 where
  pub no_assembly : is_receiving s.rx.state ≡ false
  pub no_message : s.rx.message_ready ≡ false

pub valid_limit : (config : IsoTpConfig) → is_config_valid config ≡ true → config.max_payload ≤ 4095
unfolding is_config_valid
valid_limit config h = ground arith

-- What `receive` returns for a message that is held and fits.
pub receive-HasMessage :
    (message buffer : List ℕ) (capacity : ℕ) (rx : Rx)
    → length message ≤ capacity
    → HasMessage message rx
    → let (received, rx') = receive_into (some buffer) capacity rx in
      (received.status ≡ TransportStatus.complete)
      × (received.length ≡ length message)
      × (received.payload ≡ some (write_at buffer 0 message))
      × (is_receiving rx'.state ≡ false)
      × (rx'.message_ready ≡ false)
unfolding receive_into
receive-HasMessage message buffer capacity rx c h = ground (arith, h.stored)

pub begin_assembly-Assembling :
    (limit now : ℕ) (config sender : IsoTpConfig) (message : List ℕ) (rx : Rx)
    → length rx.payload ≡ k_max_payload
    → rx.message_ready ≡ false
    → 7 < length message
    → length message < 4096
    → limit ≤ add64 now config.consecutive_frame_timeout_ms
    → Assembling limit config 1
        (take 6 message)
        (drop 6 message)
        (begin_assembly config (opening_frame sender message) now rx)
unfolding begin_assembly
begin_assembly-Assembling limit now config sender message rx b r l m t = record {
  buffer = length-write_at rx.payload 0 _ ∙ b;
  receiving = refl;
  waiting = r;
  at = omega (arith, offset, six);
  stored =
      rw (copied, offset)
        (take-write_at rx.payload 0 6 (take 6 message) (omega (arith, six)) (omega (arith, b)));
  expected = omega (arith, six, length-drop {0} 6 message);
  bounded = omega arith;
  next = refl;
  in_time = t;
}
  where
    frame : CanFrame
    frame = opening_frame sender message

    six : length (take 6 message) ≡ 6
    six = omega (arith, length-take {0} 6 message)

    offset : (begin_assembly config frame now rx).offset ≡ 6
    offset = omega (arith, six)

    copied :
        take (begin_assembly config frame now rx).offset (drop 2 frame.payload) ≡ take 6 message
    copied = rw offset (
        take-write_at (0 ∷ 0 ∷ 0 ∷ 0 ∷ 0 ∷ 0 ∷ []) 0 6 (take 6 message) (omega (arith, six))
          (omega arith))
