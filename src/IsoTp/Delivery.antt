-- ===== src/IsoTp/Delivery.antt =====
-- src/protocol/isotp_transport.h: a whole message, from its segments to the caller of `receive`.
use esp32_vag_data_server.Prelude.{
  ℕ, ◌+◌, ◌-◌, ◌/◌, ◌%◌, ◌^◌, ◌≤◌, ◌<◌, ◌≡◌, refl, ap, sym, subst, ◌∙◌, true, false, List, [], ◌∷◌,
  ◌++◌, arith, length, take, drop, write_at, some, length-take, length-drop, take-write_at,
  take-append-drop, leb, leb→le, Bool-cases, inl, inr,
}
use esp32_vag_data_server.Can.{CanFrame, CanHal, CanStatus, Clock}
use esp32_vag_data_server.Transport.{TransportStatus}
use esp32_vag_data_server.IsoTp.State.{IsoTpConfig, IsoTp, Rx, is_receiving, is_config_valid}
use esp32_vag_data_server.IsoTp.Receiver.{
  handle_first_frame, handle_single_frame, continue_to_send, begin_assembly,
}
use esp32_vag_data_server.IsoTp.Node.{
  on_can_frame, accept_frame, dispatch, on_rx, in_world, receive,
}
use esp32_vag_data_server.IsoTp.Segments.{single, opening_frame, following_frames, segments}
use esp32_vag_data_server.IsoTp.Invariant.{Inv}
use esp32_vag_data_server.IsoTp.Reassembly.{continue_to_send_lem, deliver_consecutive}
use esp32_vag_data_server.IsoTp.Assembly.{deliver, Assembling, Delivered, Hears, Timely}
use esp32_vag_data_server.IsoTp.Ends.{
  IsFree, begin_assembly-Assembling, receive-HasMessage, valid_limit,
}

module _ {W : Type 0} (can : CanHal W) (clock : Clock W)
    (accepts : (f : CanFrame) (w : W) → (can.send f w).0 ≡ CanStatus.ok)
    (sender : IsoTpConfig) where
  hear_opening :
      (message : List ℕ) {s : IsoTp} (w : W)
      → Hears sender s
      → IsFree s
      → 7 < length message
      → length message ≤ s.config.max_payload
      → on_can_frame can clock s (opening_frame sender message) w
        ≡ on_rx s (
            continue_to_send can s.config
              (begin_assembly s.config (opening_frame sender message) (clock.now_ms w).0 s.rx)
              (clock.now_ms w).1)
  unfolding on_can_frame accept_frame dispatch is_config_valid handle_first_frame
  hear_opening message {s} w h f l m = ground (arith, length-take 6 message)

  hear_single :
      (message : List ℕ) {s : IsoTp} (w : W)
      → Hears sender s
      → IsFree s
      → 0 < length message
      → length message ≤ 7
      → length message ≤ s.config.max_payload
      → on_can_frame can clock s (single sender message) w
        ≡ on_rx s (
            in_world (clock.now_ms w).1 (handle_single_frame s.config (single sender message) s.rx))
  unfolding on_can_frame accept_frame dispatch is_config_valid
  hear_single message {s} w h f l k m = ground arith

  handle_single_frame_lem :
      (config : IsoTpConfig) (message : List ℕ) (rx : Rx)
      → is_receiving rx.state ≡ false
      → rx.message_ready ≡ false
      → 0 < length message
      → length message ≤ 7
      → length message ≤ config.max_payload
      → handle_single_frame config (single sender message) rx ≡ (
        TransportStatus.message_ready,
        record rx {
          payload = write_at rx.payload 0 message;
          message_length = length message;
          message_ready = true;
        },
      )
  unfolding handle_single_frame
  handle_single_frame_lem config message rx i r l k m = ground (arith, copied, small)
    where
      small : length message % 16 ≡ length message
      small = omega arith

      copied :
          take (length message % 16) (write_at (0 ∷ 0 ∷ 0 ∷ 0 ∷ 0 ∷ 0 ∷ 0 ∷ []) 0 message) ≡ message
      copied = rw small (
          take-write_at (0 ∷ 0 ∷ 0 ∷ 0 ∷ 0 ∷ 0 ∷ 0 ∷ []) 0 (length message) message (omega arith)
            (omega arith))

  deliver-single :
      (message : List ℕ) (status : TransportStatus) {s : IsoTp} (w : W)
      → Hears sender s
      → IsFree s
      → Inv s
      → 0 < length message
      → length message ≤ 7
      → length message ≤ s.config.max_payload
      → Delivered message s (deliver can clock status (single sender message ∷ []) s w)
  unfolding deliver
  deliver-single message status {s} w h f v l k m =
      subst (λ (x : TransportStatus × IsoTp × W). Delivered message s x)
        (sym (
          hear_single message w h f l k m
          ∙ ap (λ x. on_rx s (in_world (clock.now_ms w).1 x))
              (handle_single_frame_lem s.config message s.rx f.no_assembly f.no_message l k m)))
        (record {
          status = refl;
          message_held = record {
            ready = refl;
            size = refl;
            stored =
                take-write_at s.rx.payload 0 (length message) message (omega arith)
                  (omega (arith, v.receiving.buffer));
            finished = f.no_assembly;
          };
          config_kept = refl;
          tx_kept = refl;
        })

  deliver_segmented :
      (t : ℕ) (message : List ℕ) (status : TransportStatus) {s : IsoTp} (w : W)
      → Timely clock t s.config.consecutive_frame_timeout_ms
      → t + s.config.consecutive_frame_timeout_ms + s.config.consecutive_frame_timeout_ms < 2 ^ 64
      → Hears sender s
      → IsFree s
      → Inv s
      → 7 < length message
      → length message < 4096
      → length message ≤ s.config.max_payload
      → Delivered message s (
          deliver can clock status
            (opening_frame sender message ∷ following_frames sender message)
            s
            w)
  unfolding deliver
  deliver_segmented t message status {s} w timely fits h f v l k m =
      subst
        (λ (x : TransportStatus × IsoTp × W).
          Delivered message s (deliver can clock x.0 (following_frames sender message) x.1 x.2))
        (sym (hear_opening message w h f l m))
        (subst
          (λ b.
            Delivered b s
              (deliver can clock next.0 (following_frames sender message) next.1 next.2))
          (take-append-drop 6 message)
          (record {
            status = rest.status;
            message_held = rest.message_held;
            config_kept = rest.config_kept;
            tx_kept = rest.tx_kept;
          }))
    where
      begun : Rx
      begun = begin_assembly s.config (opening_frame sender message) (clock.now_ms w).0 s.rx

      next : TransportStatus × IsoTp × W
      next = on_rx s (continue_to_send can s.config begun (clock.now_ms w).1)

      assembling :
          Assembling
            (t + s.config.consecutive_frame_timeout_ms)
            s.config
            1
            (take 6 message)
            (drop 6 message)
            next.1.rx
      assembling =
          subst
            (λ rx.
              Assembling (t + s.config.consecutive_frame_timeout_ms) s.config 1 (take 6 message)
                (drop 6 message) rx)
            (sym (continue_to_send_lem can clock accepts s.config begun (clock.now_ms w).1))
            (begin_assembly-Assembling (t + s.config.consecutive_frame_timeout_ms)
              (clock.now_ms w).0 s.config sender message s.rx v.receiving.buffer f.no_message l k
              (omega (arith, (timely w).0, (timely w).1)))

      left : length (drop 6 message) ≡ length message - 6
      left = length-drop 6 message

      rest :
          Delivered
            (take 6 message ++ drop 6 message)
            next.1
            (deliver can clock next.0 (following_frames sender message) next.1 next.2)
      rest =
          deliver_consecutive can clock accepts t sender (length message / 7) 1 (take 6 message)
            (drop 6 message) next.0 next.2 timely fits
            (record {
              valid = h.valid;
              same_id = h.same_id;
              same_format = h.same_format;
              not_waiting = h.not_waiting;
            })
            (omega (arith, left)) (omega (arith, left)) (omega (arith, left)) (omega arith)
            assembling

  -- A free receiver whose invariant holds and that listens to the sender hears the frames of a message of
  -- at least one byte, at most its max_payload and the capacity of the caller's buffer, one after the
  -- other, while the driver accepts its flow control frames and every clock reading lies within one
  -- consecutive-frame timeout, two timeouts below the limit of 64 bits. Then the last frame returns
  -- MessageReady, `receive` returns Complete, the message's length and its bytes in the front of the
  -- caller's buffer, no message is left pending, and the sending side is as before.
  pub receive-deliver :
      (t : ℕ) (message buffer : List ℕ) (capacity : ℕ) {s : IsoTp} (w : W)
      → Timely clock t s.config.consecutive_frame_timeout_ms
      → t + s.config.consecutive_frame_timeout_ms + s.config.consecutive_frame_timeout_ms < 2 ^ 64
      → Hears sender s
      → IsFree s
      → Inv s
      → 0 < length message
      → length message ≤ s.config.max_payload
      → length message ≤ capacity
      → let out = deliver can clock TransportStatus.idle (segments sender message) s w in
        let (received, s') = receive (some buffer) capacity out.1 in
        (out.0 ≡ TransportStatus.message_ready)
        × (received.status ≡ TransportStatus.complete)
        × (received.length ≡ length message)
        × (received.payload ≡ some (write_at buffer 0 message))
        × IsFree s'
        × (s'.tx ≡ s.tx)
  unfolding receive
  receive-deliver t message buffer capacity {s} w timely fits h f v l m c =
      let held = receive-HasMessage message buffer capacity out.1.rx c delivered.message_held in
      (
        delivered.status,
        held.0,
        held.1,
        held.2,
        record { no_assembly = held.3; no_message = held.4 },
        delivered.tx_kept,
      )
    where
      out : TransportStatus × IsoTp × W
      out = deliver can clock TransportStatus.idle (segments sender message) s w

      small : length message < 4096
      small = omega (arith, valid_limit s.config h.valid)

      delivered : Delivered message s out
      delivered = elim (Bool-cases (leb (length message) 7)) [
        | inl e ↦
            rw e (
              deliver-single message TransportStatus.idle w h f v l (leb→le (length message) 7 e) m)
        | inr e ↦ rw e (
            deliver_segmented t message TransportStatus.idle w timely fits h f v (ground arith)
              small m)
      ]
