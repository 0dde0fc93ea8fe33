-- ===== src/IsoTp/FlowControl.antt =====
-- src/protocol/isotp_transport.h: what flow control does to a sender: WAIT frames, blocks, separation.
use esp32_vag_data_server.Prelude.{
  ℕ, ◌+◌, ◌*◌, ◌≤◌, ◌<◌, ◌≡◌, ◌≢◌, refl, true, List, [], ◌∷◌, arith, length, add64, low_nibble,
  get_or, ltb, leb,
}
use esp32_vag_data_server.Can.{CanFrame, CanHal, Clock}
use esp32_vag_data_server.Transport.{TransportStatus}
use esp32_vag_data_server.IsoTp.State.{
  IsoTpConfig, IsoTp, Tx, k_max_payload, is_waiting, is_sending, reset_tx,
}
use esp32_vag_data_server.IsoTp.Sender.{handle_flow_control, advance, after_accepted}
use esp32_vag_data_server.IsoTp.Node.{poll_at}
use esp32_vag_data_server.IsoTp.Invariant.{Inv}

-- A WAIT frame, as `handleFlowControl` reads it.
pub record IsWait (frame : CanFrame) : Type 0 where
  pub long : 3 ≤ frame.length
  pub wait : low_nibble (get_or frame.payload 0 0) ≡ 1

-- The same WAIT frame heard at several times.
unfoldable pub hear_waits : IsoTpConfig → CanFrame → List ℕ → Tx → Tx
hear_waits config frame [] tx = tx
hear_waits config frame (now ∷ nows) tx =
    hear_waits config frame nows (handle_flow_control config frame now tx).1

module _ (config : IsoTpConfig) (frame : CanFrame) (wait : IsWait frame)
    (byte : config.max_wait_frames < 256) where
  hear_waits-within :
      (nows : List ℕ) (tx : Tx)
      → is_waiting tx.state ≡ true
      → tx.wait_count + length nows ≤ config.max_wait_frames
      → (is_waiting (hear_waits config frame nows tx).state ≡ true)
        × ((hear_waits config frame nows tx).wait_count ≡ tx.wait_count + length nows)
        × ((hear_waits config frame nows tx).offset ≡ tx.offset)
        × ((hear_waits config frame nows tx).length ≡ tx.length)
  unfolding hear_waits handle_flow_control
  hear_waits-within [] tx i l = (i, omega arith, refl, refl)
  hear_waits-within (now ∷ nows) tx i l =
      ground (arith, hear_waits-within nows (handle_flow_control config frame now tx).1)

  -- A sender that waits for flow control bears as many WAIT frames as its configuration allows, and is
  -- where it was in its message; one more ends the transfer with WaitLimitExceeded.
  pub wait_limit :
      (nows : List ℕ) (now : ℕ) (tx : Tx)
      → is_waiting tx.state ≡ true
      → tx.wait_count ≡ 0
      → length nows ≡ config.max_wait_frames
      → let waited = hear_waits config frame nows tx in
        (is_waiting waited.state ≡ true)
        × (waited.offset ≡ tx.offset)
        × (waited.length ≡ tx.length)
        × (handle_flow_control config frame now waited
            ≡ (TransportStatus.wait_limit_exceeded, reset_tx waited))
  unfolding handle_flow_control
  wait_limit nows now tx i z l = ground (arith, hear_waits-within nows tx i (omega arith))

-- The sender behind a run of accepted consecutive frames, by the times at which they were accepted.
unfoldable pub accept_all : IsoTpConfig → List ℕ → Tx → Tx
accept_all config [] tx = tx
accept_all config (at ∷ ats) tx = accept_all config ats (after_accepted config at (advance at tx)).1

-- A block of consecutive frames ends exactly when the block is used up: with `n` frames left in the
-- block and more bytes to send than they carry, the sender still sends after fewer than `n` accepted
-- frames, and after `n` it waits for flow control; each frame carries seven bytes.
pub accept_all-block :
    (config : IsoTpConfig) (ats : List ℕ) (tx : Tx)
    → is_sending tx.state ≡ true
    → tx.block_size ≢ 0
    → 0 < tx.block_remaining
    → length ats ≤ tx.block_remaining
    → tx.block_remaining < 256
    → tx.offset + 7 * tx.block_remaining < tx.length
    → tx.length ≤ k_max_payload
    → let tx' = accept_all config ats tx in
      (tx'.offset ≡ tx.offset + 7 * length ats)
      × (tx'.length ≡ tx.length)
      × (is_sending tx'.state ≡ ltb (length ats) tx.block_remaining)
      × (is_waiting tx'.state ≡ leb tx.block_remaining (length ats))
unfolding accept_all after_accepted advance
accept_all-block config [] tx s b p l r m k = ground arith
accept_all-block config (at ∷ []) tx s b p l r m k = ground arith
accept_all-block config (at ∷ at' ∷ ats) tx s b p l r m k =
    ground (arith, accept_all-block config (at' ∷ ats) (after_accepted config at (advance at tx)).1)

-- Between two consecutive frames of a message a sender whose invariant holds keeps the separation time: a
-- poll before it has
-- passed since the last accepted frame gives nothing to the driver, and leaves the sending side as it is.
pub poll_at-paced :
    {W : Type 0} (can : CanHal W) (clock : Clock W) {s : IsoTp} (now : ℕ) (w : W)
    → Inv s
    → is_sending s.tx.state ≡ true
    → s.tx.has_last_cf ≡ true
    → now < add64 s.tx.last_cf_ms s.tx.separation_ms
    → ((poll_at can clock s now w).2 ≡ w) × ((poll_at can clock s now w).1.tx ≡ s.tx)
unfolding poll_at
poll_at-paced can clock {s} now w v i h l = ground (arith, v.sending.paced i h)
