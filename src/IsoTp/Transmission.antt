-- ===== src/IsoTp/Transmission.antt =====
-- src/protocol/isotp_transport.h: the sending side emits exactly the segments of a message.
use esp32_vag_data_server.Prelude.{
  ℕ, zero, suc, ◌+◌, ◌-◌, ◌*◌, ◌%◌, ◌^◌, ◌≤◌, ◌<◌, ◌≡◌, refl, ap, ap₂, sym, subst, ◌∙◌, true, false,
  List, [], ◌∷◌, ◌++◌, arith, length, take, drop, min, length-drop, take-take, drop-take, drop-add,
  append_assoc,
}
use esp32_vag_data_server.Can.{CanFrame, CanHal, CanStatus, Clock}
use esp32_vag_data_server.Transport.{TransportStatus, is_complete, is_tx_busy}
use esp32_vag_data_server.IsoTp.State.{
  IsoTp, Tx, k_max_payload, is_receiving, is_sending, is_tx_idle, is_config_valid, reset_tx,
}
use esp32_vag_data_server.IsoTp.Frames.{send_frame, map_can_status}
use esp32_vag_data_server.IsoTp.Sender.{
  next_length, next_consecutive_frame, advance, after_accepted, send_next_consecutive_frame,
}
use esp32_vag_data_server.IsoTp.Node.{poll, poll_at, on_tx, in_world}
use esp32_vag_data_server.IsoTp.Segments.{data_frame, consecutive_frames, consecutive_frame_lem}
use esp32_vag_data_server.IsoTp.Recorder.{recording, beside}

-- `n` polls, one after the other, and the status of the last.
unfoldable pub polls :
    {W : Type 0}
    → CanHal W
    → Clock W
    → ℕ
    → TransportStatus
    → IsoTp
    → W
    → TransportStatus × IsoTp × W
polls can clock zero status s w = (status, s, w)
polls can clock (suc n) status s w =
    let (status', s', w') = poll can clock s w in polls can clock n status' s' w'

-- A sender in the middle of a message, cleared to send without blocks and without gaps.
pub record Cleared (t : ℕ) (s : IsoTp) : Type 0 where
  pub valid : is_config_valid s.config ≡ true
  pub not_receiving : is_receiving s.rx.state ≡ false
  pub sending : is_sending s.tx.state ≡ true
  pub no_blocks : s.tx.block_size ≡ 0
  pub no_gaps : s.tx.separation_ms ≡ 0
  pub eligible : s.tx.next_send_ms ≤ t
  pub more : s.tx.offset < s.tx.length
  pub bounded : s.tx.length ≤ length s.tx.payload
  pub small : s.tx.length ≤ k_max_payload
  pub sequence_small : s.tx.sequence < 16

-- What is still to be sent of the message.
abbrev pub remaining : Tx → List ℕ
remaining tx = take (tx.length - tx.offset) (drop tx.offset tx.payload)

pub record Sent {W : Type 0} (s : IsoTp) (log : List CanFrame) (frames : List CanFrame)
    (out : TransportStatus × IsoTp × (List CanFrame × W)) : Type 0 where
  pub status : out.0 ≡ TransportStatus.complete
  pub log_lem : (out.2).0 ≡ log ++ frames
  pub idle : is_tx_idle out.1.tx.state ≡ true
  pub rx_kept : out.1.rx ≡ s.rx
  pub config_kept : out.1.config ≡ s.config

next_frame_lem :
    (t : ℕ) {s : IsoTp}
    → Cleared t s
    → next_consecutive_frame s.config s.tx
      ≡ data_frame s.config ((0x20 + s.tx.sequence) ∷ take 7 (remaining s.tx))
next_frame_lem t {s} c =
    consecutive_frame_lem s.config s.tx.sequence (next_length s.tx) (drop s.tx.offset s.tx.payload)
      c.sequence_small (omega arith)
      (omega (arith, length-drop {0} s.tx.offset s.tx.payload, c.more, c.bounded, c.small))
    ∙ ap (λ b. data_frame s.config ((0x20 + s.tx.sequence) ∷ b))
        (ap (λ k. take k (drop s.tx.offset s.tx.payload)) same
          ∙ sym (take-take 7 (s.tx.length - s.tx.offset) (drop s.tx.offset s.tx.payload)))
  where
    same : next_length s.tx ≡ min 7 (s.tx.length - s.tx.offset)
    same = omega (arith, c.more, c.small)

-- One more frame in front.
extend :
    {W : Type 0} (log : List CanFrame) {f g : CanFrame} {fs gs : List CanFrame} {s s' : IsoTp}
    {out : TransportStatus × IsoTp × (List CanFrame × W)}
    → f ≡ g
    → fs ≡ gs
    → s'.rx ≡ s.rx
    → s'.config ≡ s.config
    → Sent s' (log ++ (f ∷ [])) fs out
    → Sent s log (g ∷ gs) out
extend log {f} {g} {fs} {gs} p q r c d = record {
  status = d.status;
  log_lem = d.log_lem ∙ append_assoc log (f ∷ []) fs ∙ ap₂ (λ a b. log ++ (a ∷ b)) p q;
  idle = d.idle;
  rx_kept = d.rx_kept ∙ r;
  config_kept = d.config_kept ∙ c;
}

remaining-advance :
    (tx tx' : Tx)
    → tx'.offset ≡ tx.offset + 7
    → tx'.length ≡ tx.length
    → tx'.payload ≡ tx.payload
    → remaining tx' ≡ drop 7 (remaining tx)
remaining-advance tx tx' o l p =
    rw (o, l, p)
      (sym (
        drop-take 7 (tx.length - tx.offset) (drop tx.offset tx.payload)
        ∙ ap₂ (λ k b. take k b) same (drop-add tx.offset 7 tx.payload)))
  where
    same : tx.length - tx.offset - 7 ≡ tx.length - (tx.offset + 7)
    same = omega arith

module _ {W : Type 0} (can : CanHal W) (clock : Clock W)
    (accepts : (f : CanFrame) (w : W) → (can.send f w).0 ≡ CanStatus.ok) (t : ℕ)
    (still : (w : W) → (clock.now_ms w).0 ≡ t) where
  -- The world behind an accepted frame.
  pub after : CanFrame → W → W
  after frame w = (clock.now_ms (can.send frame (clock.now_ms w).1).1).1

  poll-Cleared :
      (log : List CanFrame) {s : IsoTp} (w : W)
      → Cleared t s
      → poll (recording can) (beside clock) s (log, w)
        ≡ on_tx s (
            in_world
              (
                log ++ (next_consecutive_frame s.config s.tx ∷ []),
                after (next_consecutive_frame s.config s.tx) w,
              )
              (after_accepted s.config t (advance t s.tx)))
  unfolding poll poll_at send_next_consecutive_frame send_frame map_can_status is_complete
      is_tx_busy after
  poll-Cleared log {s} w c =
      let frame = next_consecutive_frame s.config s.tx in
      ground (
        arith,
        accepts frame (clock.now_ms w).1,
        still w,
        still (can.send frame (clock.now_ms w).1).1,
      )

  after_last :
      {s : IsoTp}
      → Cleared t s
      → s.tx.length ≤ s.tx.offset + 7
      → after_accepted s.config t (advance t s.tx)
        ≡ (TransportStatus.complete, reset_tx (advance t s.tx))
  unfolding after_accepted advance
  after_last c l = ground arith

  after_more :
      {s : IsoTp}
      → Cleared t s
      → s.tx.offset + 7 < s.tx.length
      → t < 2 ^ 64
      → let (status, tx) = after_accepted s.config t (advance t s.tx) in
        Cleared t (record s { tx = tx })
        × (tx.offset ≡ s.tx.offset + 7)
        × (tx.length ≡ s.tx.length)
        × (tx.payload ≡ s.tx.payload)
        × (tx.sequence ≡ (s.tx.sequence + 1) % 16)
  unfolding after_accepted advance
  after_more c l b = ground arith

  pub polls-Cleared :
      (n : ℕ) (status : TransportStatus) (log : List CanFrame) {s : IsoTp} (w : W)
      → t < 2 ^ 64
      → Cleared t s
      → s.tx.length - s.tx.offset ≤ 7 * n
      → 7 * n < s.tx.length - s.tx.offset + 7
      → Sent s log
          (consecutive_frames s.config n s.tx.sequence (remaining s.tx))
          (polls (recording can) (beside clock) n status s (log, w))
  unfolding polls consecutive_frames reset_tx
  polls-Cleared zero status log w b c l m = absurd (omega (arith, c.more))
  polls-Cleared (suc zero) status log {s} w b c l m =
      subst
        (λ (x : TransportStatus × IsoTp × (List CanFrame × W)).
          Sent s log (data_frame s.config ((0x20 + s.tx.sequence) ∷ take 7 (remaining s.tx)) ∷ [])
            x)
        (sym (
          poll-Cleared log w c
          ∙ ap
              (λ x. on_tx s (
                in_world
                  (
                    log ++ (next_consecutive_frame s.config s.tx ∷ []),
                    after (next_consecutive_frame s.config s.tx) w,
                  )
                  x))
              (after_last c (omega arith))))
        (record {
          status = refl;
          log_lem = ap (λ f. log ++ (f ∷ [])) (next_frame_lem t c);
          idle = refl;
          rx_kept = refl;
          config_kept = refl;
        })
  polls-Cleared (suc (suc n)) status log {s} w b c l m =
      subst
        (λ (x : TransportStatus × IsoTp × (List CanFrame × W)).
          Sent s log (consecutive_frames s.config (suc (suc n)) s.tx.sequence (remaining s.tx))
            (polls (recording can) (beside clock) (suc n) x.0 x.1 x.2))
        (sym (poll-Cleared log w c))
        (extend log {s' = next} (next_frame_lem t c)
          (ap₂ (λ q b. consecutive_frames s.config (suc n) q b) kept.4
            (remaining-advance s.tx next.tx kept.1 kept.2 kept.3))
          refl refl
          (polls-Cleared (suc n) (after_accepted s.config t (advance t s.tx)).0
            (log ++ (next_consecutive_frame s.config s.tx ∷ []))
            (after (next_consecutive_frame s.config s.tx) w) b kept.0
            (omega (arith, kept.1, kept.2)) (omega (arith, kept.1, kept.2))))
    where
      kept :
          Cleared t (record s { tx = (after_accepted s.config t (advance t s.tx)).1 })
          × ((after_accepted s.config t (advance t s.tx)).1.offset ≡ s.tx.offset + 7)
          × ((after_accepted s.config t (advance t s.tx)).1.length ≡ s.tx.length)
          × ((after_accepted s.config t (advance t s.tx)).1.payload ≡ s.tx.payload)
          × ((after_accepted s.config t (advance t s.tx)).1.sequence ≡ (s.tx.sequence + 1) % 16)
      kept = after_more c (omega arith) b

      next : IsoTp
      next = record s { tx = (after_accepted s.config t (advance t s.tx)).1 }
