-- ===== src/IsoTp/Reassembly.antt =====
-- src/protocol/isotp_transport.h: the receiving side puts the segments of a message together again.
use esp32_vag_data_server.Prelude.{
  ℕ, zero, suc, ◌+◌, ◌-◌, ◌*◌, ◌%◌, ◌^◌, ◌≤◌, ◌<◌, ◌≡◌, refl, ap, sym, subst, ◌∙◌, List, [], ◌∷◌,
  ◌++◌, arith, length, take, drop, add64, high_nibble, get_or, length-take, length-drop,
  take-length, drop-length,
}
use esp32_vag_data_server.Can.{CanFrame, CanHal, CanStatus, Clock}
use esp32_vag_data_server.Transport.{TransportStatus, is_complete}
use esp32_vag_data_server.IsoTp.State.{IsoTpConfig, IsoTp, Rx, is_config_valid}
use esp32_vag_data_server.IsoTp.Receiver.{
  handle_consecutive_frame, after_copy, store_consecutive, continue_to_send, send_flow_control,
  finish_assembly, next_block,
}
use esp32_vag_data_server.IsoTp.Frames.{send_frame, map_can_status, flow_control_frame}
use esp32_vag_data_server.IsoTp.Node.{on_can_frame, accept_frame, dispatch, on_rx}
use esp32_vag_data_server.IsoTp.Segments.{data_frame, consecutive_frames}
use esp32_vag_data_server.IsoTp.Assembly.{
  Assembling, Delivered, HasMessage, Hears, Timely, deliver, finish_assembly-HasMessage, regroup,
  store_consecutive-Assembling,
}

module _ {W : Type 0} (can : CanHal W) (clock : Clock W)
    (accepts : (f : CanFrame) (w : W) → (can.send f w).0 ≡ CanStatus.ok) where
  pub continue_to_send_lem :
      (config : IsoTpConfig) (rx : Rx) (w : W) → (continue_to_send can config rx w).1 ≡ rx
  unfolding continue_to_send send_flow_control send_frame map_can_status is_complete
  continue_to_send_lem config rx w = ground (arith, accepts (flow_control_frame config 0) w)

  pub continue_to_send_status :
      (config : IsoTpConfig) (rx : Rx) (w : W)
      → (continue_to_send can config rx w).0 ≡ TransportStatus.in_progress
  unfolding continue_to_send send_flow_control send_frame map_can_status is_complete
  continue_to_send_status config rx w = ground (arith, accepts (flow_control_frame config 0) w)

  after_copy_more :
      (limit now : ℕ) (config sender : IsoTpConfig) (sequence : ℕ) (got rest : List ℕ) {rx : Rx}
      (w : W)
      → 0 < length rest
      → limit ≤ add64 now config.consecutive_frame_timeout_ms
      → Assembling limit config sequence got rest rx
      → Assembling limit config sequence got rest (after_copy can config now rx w).1
  unfolding after_copy
  after_copy_more limit now config sender sequence got rest {rx} w l t a =
      ground (arith, continue_to_send_lem config (next_block config now rx) w)

  after_copy_last :
      (limit now : ℕ) (config : IsoTpConfig) (sequence : ℕ) (got : List ℕ) {rx : Rx} (w : W)
      → Assembling limit config sequence got [] rx
      → after_copy can config now rx w ≡ (TransportStatus.message_ready, finish_assembly rx, w)
  unfolding after_copy
  after_copy_last limit now config sequence got {rx} w a = ground arith

  hear_consecutive :
      (sender : IsoTpConfig) (frame : CanFrame) {s : IsoTp} (w : W)
      → Hears sender s
      → frame.id ≡ sender.tx_id
      → frame.format ≡ sender.frame_format
      → frame.length ≤ 8
      → 0 < frame.length
      → high_nibble (get_or frame.payload 0 0) ≡ 2
      → (clock.now_ms w).0 < s.rx.deadline_ms
      → on_can_frame can clock s frame w
        ≡ on_rx s
            (handle_consecutive_frame can s.config frame (clock.now_ms w).0 s.rx (clock.now_ms w).1)
  unfolding on_can_frame accept_frame dispatch is_config_valid
  hear_consecutive sender frame {s} w h i f l p k d = ground arith

  module _ (t : ℕ) (sender : IsoTpConfig) where
    segment : ℕ → List ℕ → CanFrame
    segment sequence rest = data_frame sender ((0x20 + sequence) ∷ take 7 rest)

    handle_segment :
        (now : ℕ) (config : IsoTpConfig) (sequence : ℕ) (got rest : List ℕ) {rx : Rx} (w : W)
        → 0 < length rest
        → sequence < 16
        → Assembling (t + config.consecutive_frame_timeout_ms) config sequence got rest rx
        → handle_consecutive_frame can config (segment sequence rest) now rx w
          ≡ after_copy can config now (store_consecutive (segment sequence rest) rx) w
    unfolding handle_consecutive_frame segment
    handle_segment now config sequence got rest {rx} w l q a = ground (arith, length-take 7 rest)

    hear_segment :
        (sequence : ℕ) (got rest : List ℕ) {s : IsoTp} (w : W)
        → Timely clock t s.config.consecutive_frame_timeout_ms
        → t + s.config.consecutive_frame_timeout_ms + s.config.consecutive_frame_timeout_ms < 2 ^ 64
        → Hears sender s
        → 0 < length rest
        → sequence < 16
        → Assembling (t + s.config.consecutive_frame_timeout_ms) s.config sequence got rest s.rx
        → on_can_frame can clock s (segment sequence rest) w
          ≡ on_rx s (
              after_copy can s.config
                (clock.now_ms w).0
                (store_consecutive (segment sequence rest) s.rx)
                (clock.now_ms w).1)
    unfolding segment
    hear_segment sequence got rest {s} w timely fits h l q a =
        hear_consecutive sender (segment sequence rest) w h refl refl
          (omega (arith, length-take {0} 7 rest)) (omega arith) (omega arith)
          (omega (arith, (timely w).1, a.in_time))
        ∙ ap (on_rx s)
            (handle_segment (clock.now_ms w).0 s.config sequence got rest (clock.now_ms w).1 l q a)

    pub deliver_consecutive :
        (n sequence : ℕ) (got rest : List ℕ) (status : TransportStatus) {s : IsoTp} (w : W)
        → Timely clock t s.config.consecutive_frame_timeout_ms
        → t + s.config.consecutive_frame_timeout_ms + s.config.consecutive_frame_timeout_ms < 2 ^ 64
        → Hears sender s
        → 0 < length rest
        → length rest ≤ 7 * n
        → 7 * n < length rest + 7
        → sequence < 16
        → Assembling (t + s.config.consecutive_frame_timeout_ms) s.config sequence got rest s.rx
        → Delivered
            (got ++ rest)
            s
            (deliver can clock status (consecutive_frames sender n sequence rest) s w)
    unfolding deliver consecutive_frames segment
    deliver_consecutive zero sequence got rest status w timely fits h l m k q a =
        absurd (omega arith)
    deliver_consecutive (suc zero) sequence got rest status {s} w timely fits h l m k q a =
        rw (hear_segment sequence got rest w timely fits h l q a ∙ ap (on_rx s) complete) (record {
          status = refl;
          message_held =
              subst
                (λ b.
                  HasMessage (got ++ b)
                    (finish_assembly (store_consecutive (segment sequence rest) s.rx)))
                (take-length 7 rest (omega arith)) (finish_assembly-HasMessage _ _ _ _ stored);
          config_kept = refl;
          tx_kept = refl;
        })
      where
        stored :
            Assembling
              (t + s.config.consecutive_frame_timeout_ms)
              s.config
              ((sequence + 1) % 16)
              (got ++ take 7 rest)
              []
              (store_consecutive (segment sequence rest) s.rx)
        stored =
            subst
              (λ b.
                Assembling (t + s.config.consecutive_frame_timeout_ms) s.config
                  ((sequence + 1) % 16) (got ++ take 7 rest) b
                  (store_consecutive (segment sequence rest) s.rx))
              (drop-length 7 rest (omega arith))
              (store_consecutive-Assembling (t + s.config.consecutive_frame_timeout_ms) s.config
                sender sequence got rest l q a)

        complete :
            after_copy can s.config
              (clock.now_ms w).0
              (store_consecutive (segment sequence rest) s.rx)
              (clock.now_ms w).1
            ≡ (
              TransportStatus.message_ready,
              finish_assembly (store_consecutive (segment sequence rest) s.rx),
              (clock.now_ms w).1,
            )
        complete =
            after_copy_last (t + s.config.consecutive_frame_timeout_ms) (clock.now_ms w).0 s.config
              ((sequence + 1) % 16) (got ++ take 7 rest) (clock.now_ms w).1 stored
    deliver_consecutive (suc (suc n)) sequence got rest status {s} w timely fits h l m k q a =
        subst
          (λ (x : TransportStatus × IsoTp × W). Delivered (got ++ rest) s (
            deliver can clock x.0
              (consecutive_frames sender (suc n) ((sequence + 1) % 16) (drop 7 rest)) x.1 x.2))
          (sym (hear_segment sequence got rest w timely fits h l q a))
          (regroup got rest {s' = next.1} refl refl (
            deliver_consecutive (suc n) ((sequence + 1) % 16) (got ++ take 7 rest) (drop 7 rest)
              next.0 next.2 timely fits
              (record {
                valid = h.valid;
                same_id = h.same_id;
                same_format = h.same_format;
                not_waiting = h.not_waiting;
              })
              (omega (arith, left)) (omega (arith, left)) (omega (arith, left)) (omega arith)
              assembling))
      where
        now : ℕ
        now = (clock.now_ms w).0

        stored : Rx
        stored = store_consecutive (segment sequence rest) s.rx

        next : TransportStatus × IsoTp × W
        next = on_rx s (after_copy can s.config now stored (clock.now_ms w).1)

        left : length (drop 7 rest) ≡ length rest - 7
        left = length-drop 7 rest

        assembling :
            Assembling
              (t + s.config.consecutive_frame_timeout_ms)
              s.config
              ((sequence + 1) % 16)
              (got ++ take 7 rest)
              (drop 7 rest)
              next.1.rx
        assembling =
            after_copy_more (t + s.config.consecutive_frame_timeout_ms) now s.config sender
              ((sequence + 1) % 16) (got ++ take 7 rest) (drop 7 rest) (clock.now_ms w).1
              (omega (arith, left)) (omega (arith, (timely w).0, (timely w).1, fits))
              (store_consecutive-Assembling (t + s.config.consecutive_frame_timeout_ms) s.config
                sender sequence got rest l q a)
