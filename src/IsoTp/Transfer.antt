-- ===== src/IsoTp/Transfer.antt =====
-- src/protocol/isotp_transport.h: a segmented message from `startSend` to the last frame, and from one
-- transport to another.
use esp32_vag_data_server.Prelude.{
  ℕ, ◌+◌, ◌/◌, ◌^◌, ◌≤◌, ◌<◌, ◌≡◌, refl, ap, sym, subst, ◌∙◌, true, false, List, [], ◌∷◌, ◌++◌,
  arith, length, take, drop, write_at, some, length-write_at, take-write_at, take-length, drop-take,
}
use esp32_vag_data_server.Can.{CanFrame, CanHal, CanStatus, Clock}
use esp32_vag_data_server.Transport.{TransportStatus, is_complete}
use esp32_vag_data_server.IsoTp.State.{
  IsoTpConfig, IsoTp, is_receiving, is_waiting, is_tx_idle, is_config_valid, decode_st_min_ms,
}
use esp32_vag_data_server.IsoTp.Frames.{send_frame, map_can_status, flow_control_frame, first_frame}
use esp32_vag_data_server.IsoTp.Sender.{
  load_message, await_flow_control, begin_block, handle_flow_control, send_first_frame,
  start_send_tx,
}
use esp32_vag_data_server.IsoTp.Node.{
  start_send, on_can_frame, accept_frame, dispatch, on_tx, in_world, receive,
}
use esp32_vag_data_server.IsoTp.Segments.{
  opening_frame, following_frames, segments, first_frame_lem, consecutive_frames,
}
use esp32_vag_data_server.IsoTp.Recorder.{recording, beside}
use esp32_vag_data_server.IsoTp.Invariant.{Inv}
use esp32_vag_data_server.IsoTp.Transmission.{polls, Cleared, Sent, remaining, polls-Cleared}
use esp32_vag_data_server.IsoTp.Assembly.{deliver, Hears, Timely}
use esp32_vag_data_server.IsoTp.Delivery.{receive-deliver}
use esp32_vag_data_server.IsoTp.Ends.{IsFree, valid_limit}
use esp32_vag_data_server.IsoTp.Opening.{CanSend, Clears, restate, transmit, valid_timeout}

module _ {W : Type 0} (can : CanHal W) (clock : Clock W)
    (accepts : (f : CanFrame) (w : W) → (can.send f w).0 ≡ CanStatus.ok) (t : ℕ)
    (still : (w : W) → (clock.now_ms w).0 ≡ t) where
  start_send-CanSend :
      (message : List ℕ) (log : List CanFrame) {s : IsoTp} (w : W)
      → CanSend s
      → 7 < length message
      → length message ≤ s.config.max_payload
      → length message < 4096
      → let frame = first_frame s.config message (length message) in
        start_send (recording can) (beside clock) (some message) (length message) s (log, w)
        ≡ on_tx s (
          TransportStatus.in_progress,
          await_flow_control s.config t (load_message message (length message) s.tx),
          (log ++ (frame ∷ []), (clock.now_ms (can.send frame w).1).1),
        )
  unfolding start_send start_send_tx send_first_frame send_frame map_can_status is_complete
  start_send-CanSend message log {s} w c l m k =
      let frame = first_frame s.config message (length message) in
      ground (arith, accepts frame w, still (can.send frame w).1)

  hear_clear :
      (peer : IsoTpConfig) (log : List CanFrame) {s : IsoTp} (w : W)
      → is_config_valid s.config ≡ true
      → is_receiving s.rx.state ≡ false
      → is_waiting s.tx.state ≡ true
      → t < s.tx.deadline_ms
      → Clears peer s
      → on_can_frame (recording can) (beside clock) s (flow_control_frame peer 0) (log, w)
        ≡ on_tx s (
            in_world
              (log, (clock.now_ms w).1)
              (TransportStatus.in_progress, begin_block (flow_control_frame peer 0) 0 t s.tx))
  unfolding on_can_frame accept_frame dispatch is_config_valid flow_control_frame
      handle_flow_control decode_st_min_ms
  hear_clear peer log {s} w v r i d c = ground (arith, still w)

  load_message-Cleared :
      (peer : IsoTpConfig) (message : List ℕ) {s : IsoTp}
      → CanSend s
      → Inv s
      → Clears peer s
      → 7 < length message
      → length message < 4096
      → Cleared t (record s {
        tx =
            begin_block
              (flow_control_frame peer 0)
              0
              t
              (await_flow_control s.config t (load_message message (length message) s.tx));
      })
  unfolding begin_block load_message flow_control_frame
  load_message-Cleared peer message {s} c v k l m =
      ground (
        arith,
        v.sending.idle c.idle,
        length-write_at s.tx.payload 0 (take (length message) message),
      )

  remaining-load_message :
      (peer : IsoTpConfig) (message : List ℕ) {s : IsoTp}
      → Inv s
      → 7 < length message
      → length message < 4096
      → remaining (
          begin_block
            (flow_control_frame peer 0)
            0
            t
            (await_flow_control s.config t (load_message message (length message) s.tx)))
        ≡ drop 6 message
  unfolding begin_block load_message
  remaining-load_message peer message {s} v l m =
      sym (drop-take 6 (length message) (write_at s.tx.payload 0 (take (length message) message)))
      ∙ ap (drop 6) (
          ap (λ b. take (length message) (write_at s.tx.payload 0 b)) whole
          ∙ take-write_at s.tx.payload 0 (length message) message (omega arith)
              (omega (arith, v.sending.buffer)))
    where
      whole : take (length message) message ≡ message
      whole = take-length (length message) message (omega arith)

  transmit-Sent :
      (peer : IsoTpConfig) (message : List ℕ) {s : IsoTp} (w : W)
      → CanSend s
      → Inv s
      → Clears peer s
      → 7 < length message
      → length message ≤ s.config.max_payload
      → length message < 4096
      → t + s.config.flow_control_timeout_ms < 2 ^ 64
      → Sent s
          (opening_frame s.config message ∷ [])
          (following_frames s.config message)
          (transmit (recording can) (beside clock) peer message s ([], w))
  unfolding transmit begin_block load_message
  transmit-Sent peer message {s} w c v k l m n b =
      subst
        (λ (x : TransportStatus × IsoTp × (List CanFrame × W)). Sent s opening following (
          let (cleared, s2, w2) =
            on_can_frame (recording can) (beside clock) x.1 (flow_control_frame peer 0) x.2 in
          polls (recording can) (beside clock) (length message / 7) cleared s2 w2))
        (sym (start_send-CanSend message [] w c l m n))
        (subst
          (λ (x : TransportStatus × IsoTp × (List CanFrame × W)).
            Sent s opening following
              (polls (recording can) (beside clock) (length message / 7) x.0 x.1 x.2))
          (sym (
            hear_clear peer (frame ∷ []) {s = waiting} w1 c.valid c.not_receiving refl
              (omega (arith, positive))
              (record {
                same_id = k.same_id;
                same_format = k.same_format;
                no_blocks = k.no_blocks;
                no_gaps = k.no_gaps;
              })))
          (restate {s' = cleared} (ap (λ f. f ∷ []) (first_frame_lem s.config message l n))
            (ap (consecutive_frames s.config (length message / 7) 1)
              (remaining-load_message peer message v l n))
            refl refl
            (polls-Cleared can clock accepts t still (length message / 7)
              TransportStatus.in_progress (frame ∷ []) (clock.now_ms w1).1 (omega arith)
              (load_message-Cleared peer message c v k l n) (omega arith) (omega arith))))
    where
      opening : List CanFrame
      opening = opening_frame s.config message ∷ []

      following : List CanFrame
      following = following_frames s.config message

      frame : CanFrame
      frame = first_frame s.config message (length message)

      w1 : W
      w1 = (clock.now_ms (can.send frame w).1).1

      waiting : IsoTp
      waiting = record s {
        tx = await_flow_control s.config t (load_message message (length message) s.tx);
      }

      cleared : IsoTp
      cleared = record s { tx = begin_block (flow_control_frame peer 0) 0 t waiting.tx }

      positive : 0 < s.config.flow_control_timeout_ms
      positive = valid_timeout s.config c.valid

  -- A transport that is valid, has nothing under way and satisfies its invariant sends a message of more
  -- than seven bytes, at most its configuration's max_payload: `startSend`, then the flow control frame
  -- "continue to send" of a peer that asks for no block limit and no separation time, then one poll for
  -- each consecutive frame. If the driver accepts every frame and the clock stays at one reading, at
  -- least a flow control timeout below the limit of 64 bits, the last poll returns Complete, the driver
  -- was given exactly the segments of the message, in order, and the transport has nothing under way
  -- again, its receiving side as before.
  pub transmit-segments :
      (peer : IsoTpConfig) (message : List ℕ) {s : IsoTp} (w : W)
      → CanSend s
      → Inv s
      → Clears peer s
      → 7 < length message
      → length message ≤ s.config.max_payload
      → t + s.config.flow_control_timeout_ms < 2 ^ 64
      → let (status, s', (log, _)) =
          transmit (recording can) (beside clock) peer message s ([], w) in
        (status ≡ TransportStatus.complete)
        × (log ≡ segments s.config message)
        × (is_tx_idle s'.tx.state ≡ true)
        × (s'.rx ≡ s.rx)
  transmit-segments peer message {s} w c v k l m b =
      let sent =
        transmit-Sent peer message w c v k l m (omega (arith, m, valid_limit s.config c.valid)) b in
      (sent.status, sent.log_lem ∙ segmented, sent.idle, sent.rx_kept)
    where
      segmented :
          opening_frame s.config message ∷ following_frames s.config message
          ≡ segments s.config message
      segmented = ground arith

-- A message of more than seven bytes, within the max_payload of both sides and the capacity of the
-- caller's buffer, from one transport to another, each with its invariant, a driver that accepts every
-- frame and a clock of its own: what `startSend` and the polls of a sender with nothing under way, whose
-- clock stays at one reading, give to its driver, behind the peer's flow control frame without block
-- limit or separation time, is heard in that order by a free receiver whose clock readings lie within one
-- timeout, both clocks below the limit of 64 bits by their timeouts. It ends with Complete at the sender
-- and MessageReady at the receiver, whose `receive` then returns the message, byte for byte.
pub transfer_lem :
    {V W : Type 0} (can : CanHal V) (clock : Clock V) (can' : CanHal W) (clock' : Clock W)
    (accepts : (f : CanFrame) (v : V) → (can.send f v).0 ≡ CanStatus.ok)
    (accepts' : (f : CanFrame) (w : W) → (can'.send f w).0 ≡ CanStatus.ok) (t t' : ℕ)
    (still : (v : V) → (clock.now_ms v).0 ≡ t) (peer : IsoTpConfig) (message buffer : List ℕ)
    (capacity : ℕ) {s r : IsoTp} (v : V) (w : W)
    → CanSend s
    → Inv s
    → Clears peer s
    → Hears s.config r
    → IsFree r
    → Inv r
    → Timely clock' t' r.config.consecutive_frame_timeout_ms
    → 7 < length message
    → length message ≤ s.config.max_payload
    → length message ≤ r.config.max_payload
    → length message ≤ capacity
    → t + s.config.flow_control_timeout_ms < 2 ^ 64
    → t' + r.config.consecutive_frame_timeout_ms + r.config.consecutive_frame_timeout_ms < 2 ^ 64
    → let (sent, _, (log, _)) = transmit (recording can) (beside clock) peer message s ([], v) in
      let heard = deliver can' clock' TransportStatus.idle log r w in
      let (received, _) = receive (some buffer) capacity heard.1 in
      (sent ≡ TransportStatus.complete)
      × (heard.0 ≡ TransportStatus.message_ready)
      × (received.status ≡ TransportStatus.complete)
      × (received.length ≡ length message)
      × (received.payload ≡ some (write_at buffer 0 message))
transfer_lem can clock can' clock' accepts accepts' t t' still peer message buffer capacity {s} {r}
      v w c i k h f j timely l m m' n b b' =
    let sent = transmit-segments can clock accepts t still peer message v c i k l m b in
    let got =
      receive-deliver can' clock' accepts' s.config t' message buffer capacity w timely b' h f j
        (omega arith) m' n in
    rw sent.1 (sent.0, got.0, got.1, got.2, got.3)
