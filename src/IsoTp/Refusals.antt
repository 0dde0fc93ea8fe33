-- ===== src/IsoTp/Refusals.antt =====
-- src/protocol/isotp_transport.h: frames and calls that a transport refuses, and what they leave.
use esp32_vag_data_server.Prelude.{
  ℕ, ◌≤◌, ◌<◌, ◌≡◌, ◌≢◌, ◌⊎◌, refl, ap, sym, subst, ◌∙◌, true, false, List, [], ◌∷◌, arith, All,
  take, write_at, low_nibble, high_nibble, get_or, some,
}
use esp32_vag_data_server.Can.{CanFrame, CanHal, Clock, format_eq, is_valid}
use esp32_vag_data_server.Transport.{TransportStatus, Received}
use esp32_vag_data_server.IsoTp.State.{
  IsoTpConfig, IsoTp, Rx, is_receiving, reset_rx_assembly, is_config_valid, rx_expired, tx_expired,
}
use esp32_vag_data_server.IsoTp.Receiver.{handle_consecutive_frame, receive_into, discard_pending}
use esp32_vag_data_server.IsoTp.Node.{on_can_frame, accept_frame, dispatch, receive}
use esp32_vag_data_server.IsoTp.Assembly.{deliver}
use esp32_vag_data_server.IsoTp.Invariant.{Inv}

abbrev pub IsForeign : IsoTpConfig → CanFrame → Type 0
IsForeign config frame =
    (frame.id ≢ config.rx_id) ⊎ (format_eq frame.format config.frame_format ≡ false)

abbrev pub IsConsecutive : CanFrame → Type 0
IsConsecutive frame = high_nibble (get_or frame.payload 0 0) ≡ 2

-- A valid frame with the identifier and the format that a transport with a valid configuration listens
-- to.
abbrev pub Addressed : IsoTpConfig → CanFrame → Type 0
Addressed config frame =
    (is_config_valid config ≡ true)
    × (frame.id ≡ config.rx_id)
    × (format_eq frame.format config.frame_format ≡ true)
    × (is_valid frame ≡ true)

module _ {W : Type 0} (can : CanHal W) (clock : Clock W) where
  foreign :
      (frame : CanFrame) {s : IsoTp} (w : W)
      → IsForeign s.config frame
      → (on_can_frame can clock s frame w).1 ≡ s
  unfolding on_can_frame
  foreign frame w h = ground arith

  -- Any number of frames with another identifier or another format, whatever they carry, leave a
  -- transport exactly as it is.
  pub deliver-foreign :
      (status : TransportStatus) (frames : List CanFrame) {s : IsoTp} (w : W)
      → All (IsForeign s.config) frames
      → (deliver can clock status frames s w).1 ≡ s
  unfolding deliver
  deliver-foreign status [] w h = refl
  deliver-foreign status (f ∷ fs) {s} w h =
      let out = on_can_frame can clock s f w in
      let same : out.1 ≡ s = foreign f w h.0 in
      deliver-foreign out.0 fs out.2 (subst (λ x. All (IsForeign x.config) fs) (sym same) h.1)
      ∙ same

  stray_consecutive :
      (frame : CanFrame) (s : IsoTp) (w : W)
      → is_receiving s.rx.state ≡ false
      → IsConsecutive frame
      → (on_can_frame can clock s frame w).1.rx ≡ s.rx
  unfolding on_can_frame accept_frame dispatch handle_consecutive_frame
  stray_consecutive frame s w i c = ground arith

  deliver-stray :
      (status : TransportStatus) (frames : List CanFrame) (s : IsoTp) (w : W)
      → is_receiving s.rx.state ≡ false
      → All IsConsecutive frames
      → (deliver can clock status frames s w).1.rx ≡ s.rx
  unfolding deliver
  deliver-stray status [] s w i h = refl
  deliver-stray status (f ∷ fs) s w i h =
      let out = on_can_frame can clock s f w in
      let same : out.1.rx ≡ s.rx = stray_consecutive f s w i h.0 in
      deliver-stray out.0 fs out.1 out.2 (subst (λ x. is_receiving x.state ≡ false) (sym same) i)
        h.1
      ∙ same

  wrong_sequence :
      (frame : CanFrame) (s : IsoTp) (w : W)
      → Addressed s.config frame
      → IsConsecutive frame
      → 2 ≤ frame.length
      → is_receiving s.rx.state ≡ true
      → low_nibble (get_or frame.payload 0 0) ≢ s.rx.expected_sequence
      → rx_expired s.rx (clock.now_ms w).0 ≡ false
      → tx_expired s.tx (clock.now_ms w).0 ≡ false
      → on_can_frame can clock s frame w ≡ (
        TransportStatus.sequence_error,
        record s { rx = reset_rx_assembly s.rx },
        (clock.now_ms w).1,
      )
  unfolding on_can_frame accept_frame dispatch handle_consecutive_frame
  wrong_sequence frame s w a c l i n r t = ground arith

  -- A transport whose configuration is valid and whose invariant holds, that is receiving and has no
  -- deadline behind the clock, hears a valid frame that is addressed to it: a consecutive frame of at
  -- least two bytes and out of sequence. Its assembly ends with SequenceError, its sending side is as it was,
  -- and the consecutive frames that may still follow, in any number, do not bring the message back: no
  -- message is pending and none is being received.
  pub deliver-sequence_error :
      (frame : CanFrame) (frames : List CanFrame) (s : IsoTp) (w : W)
      → Inv s
      → Addressed s.config frame
      → IsConsecutive frame
      → 2 ≤ frame.length
      → is_receiving s.rx.state ≡ true
      → low_nibble (get_or frame.payload 0 0) ≢ s.rx.expected_sequence
      → rx_expired s.rx (clock.now_ms w).0 ≡ false
      → tx_expired s.tx (clock.now_ms w).0 ≡ false
      → All IsConsecutive frames
      → let (result, s', w') = on_can_frame can clock s frame w in
        let rx' = (deliver can clock result frames s' w').1.rx in
        (result ≡ TransportStatus.sequence_error)
        × (s'.tx ≡ s.tx)
        × (rx'.message_ready ≡ false)
        × (is_receiving rx'.state ≡ false)
  unfolding reset_rx_assembly
  deliver-sequence_error frame frames s w v a c l i n r t h =
      let aborted = record s { rx = reset_rx_assembly s.rx } in
      let kept =
        deliver-stray TransportStatus.sequence_error frames aborted (clock.now_ms w).1 refl h in
      rw (wrong_sequence frame s w a c l i n r t) (
        refl,
        refl,
        ap (λ (rx : Rx). rx.message_ready) kept ∙ (v.receiving.assembling i).4,
        ap (λ (rx : Rx). is_receiving rx.state) kept,
      )

-- Calls of `receive`, each with a buffer and its capacity: what they return, and the state behind them.
abbrev pub receive_all : List (List ℕ × ℕ) → IsoTp → List Received × IsoTp
receive_all [] s = ([], s)
receive_all ((buffer, capacity) ∷ calls) s =
    let (received, s') = receive (some buffer) capacity s in
    let (rest, s'') = receive_all calls s' in (received ∷ rest, s'')

-- The answer to a call without room for the message that is ready.
abbrev pub overflows : IsoTp → List (List ℕ × ℕ) → List Received
overflows s [] = []
overflows s ((buffer, capacity) ∷ calls) =
    record {
      status = TransportStatus.overflow;
      length = s.rx.message_length;
      payload = some buffer;
    }
    ∷ overflows s calls

receive-overflow :
    (buffer : List ℕ) (capacity : ℕ) (s : IsoTp)
    → s.rx.message_ready ≡ true
    → capacity < s.rx.message_length
    → receive (some buffer) capacity s ≡ (
      record {
        status = TransportStatus.overflow;
        length = s.rx.message_length;
        payload = some buffer;
      },
      s,
    )
unfolding receive receive_into
receive-overflow buffer capacity s r l = ground arith

receive_all-overflows :
    (calls : List (List ℕ × ℕ)) (s : IsoTp)
    → s.rx.message_ready ≡ true
    → All (λ call. call.1 < s.rx.message_length) calls
    → receive_all calls s ≡ (overflows s calls, s)
receive_all-overflows [] s r h = refl
receive_all-overflows ((buffer, capacity) ∷ calls) s r h =
    rw (receive-overflow buffer capacity s r h.0, receive_all-overflows calls s r h.1) refl

-- A message that is ready: any number of calls of `receive` without room for it are refused with Overflow
-- and its length, their buffers as they were, and leave the transport as it is. The next call with room
-- for the message returns Complete, its length and its bytes in the front of the caller's buffer, and
-- leaves no message pending.
pub receive-retry :
    (calls : List (List ℕ × ℕ)) (buffer : List ℕ) (capacity : ℕ) (s : IsoTp)
    → s.rx.message_ready ≡ true
    → All (λ call. call.1 < s.rx.message_length) calls
    → s.rx.message_length ≤ capacity
    → let (refused, s') = receive_all calls s in
      let (received, s'') = receive (some buffer) capacity s' in
      (refused ≡ overflows s calls)
      × (s' ≡ s)
      × (received.status ≡ TransportStatus.complete)
      × (received.length ≡ s.rx.message_length)
      × (received.payload ≡ some (write_at buffer 0 (take s.rx.message_length s.rx.payload)))
      × (s''.rx.message_ready ≡ false)
unfolding receive receive_into discard_pending
receive-retry calls buffer capacity s r h m = rw (receive_all-overflows calls s r h) (ground arith)
