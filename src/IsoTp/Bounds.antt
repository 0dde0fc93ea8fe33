-- ===== src/IsoTp/Bounds.antt =====
-- src/protocol/isotp_transport.h: what no sequence of calls can break.
use esp32_vag_data_server.Prelude.{
  ◌+◌, ◌-◌, ◌/◌, ◌%◌, ◌≤◌, ◌<◌, ◌≡◌, ◌⊎◌, true, List, [], ◌∷◌, arith, All, sub64,
}
use esp32_vag_data_server.Can.{CanFrame, CanHal, Clock}
use esp32_vag_data_server.IsoTp.State.{IsoTpConfig, IsoTp, Tx, k_max_payload, is_tx_idle, new}
use esp32_vag_data_server.IsoTp.Receiver.{copy_length}
use esp32_vag_data_server.IsoTp.Sender.{next_length}
use esp32_vag_data_server.IsoTp.Calls.{
  Call, sends, polls, receives, discards, hears, IsByteCall, perform, perform_all,
}
use esp32_vag_data_server.IsoTp.Invariant.{
  Inv, new-Inv, start_send-Inv, poll-Inv, receive-Inv, discard_pending_message-Inv,
  on_can_frame-Inv, TxInv,
}

module _ {W : Type 0} (can : CanHal W) (clock : Clock W) where
  perform-Inv :
      (c : Call) {s : IsoTp} (w : W) → IsByteCall c → Inv s → Inv (perform can clock c s w).0
  unfolding perform
  perform-Inv (sends payload size) w b v = start_send-Inv can clock payload size w v
  perform-Inv polls w b v = poll-Inv can clock w v
  perform-Inv (receives payload capacity) w b v = receive-Inv payload capacity v
  perform-Inv discards w b v = discard_pending_message-Inv v
  perform-Inv (hears frame) w b v = on_can_frame-Inv can clock frame w b v

  perform_all-Inv :
      (calls : List Call) {s : IsoTp} (w : W)
      → All IsByteCall calls
      → Inv s
      → Inv (perform_all can clock calls s w).0
  unfolding perform_all
  perform_all-Inv [] w b v = v
  perform_all-Inv (c ∷ cs) {s} w b v =
      perform_all-Inv cs (perform can clock c s w).1 b.1 (perform-Inv c w b.0 v)

  -- Whatever calls are made of a new transport, in any order, with any driver and any clock, its
  -- invariant holds, if the frames that it hears are made of bytes.
  pub perform_all-new-Inv :
      (config : IsoTpConfig) (calls : List Call) (w : W)
      → All IsByteCall calls
      → Inv (perform_all can clock calls (new config) w).0
  perform_all-new-Inv config calls w b = perform_all-Inv calls w b (new-Inv config)

  -- In every state that a new transport can reach, the next write into the receive buffer, the message
  -- that is ready and the next read from the send buffer lie within the buffers' 4095 bytes, and the
  -- two unsigned subtractions that measure what is left do not wrap.
  pub perform_all-in_bounds :
      (config : IsoTpConfig) (calls : List Call) (frame : CanFrame) (w : W)
      → All IsByteCall calls
      → let s = (perform_all can clock calls (new config) w).0 in
        (s.rx.offset + copy_length frame s.rx ≤ k_max_payload)
        × (s.rx.message_length ≤ k_max_payload)
        × (s.tx.offset + next_length s.tx ≤ k_max_payload)
        × (sub64 s.rx.expected_length s.rx.offset + s.rx.offset ≡ s.rx.expected_length)
        × (sub64 s.tx.length s.tx.offset + s.tx.offset ≡ s.tx.length)
  perform_all-in_bounds config calls frame w b = bounds frame (perform_all-new-Inv config calls w b)
    where
      bounds :
          (frame : CanFrame) {s : IsoTp}
          → Inv s
          → (s.rx.offset + copy_length frame s.rx ≤ k_max_payload)
            × (s.rx.message_length ≤ k_max_payload)
            × (s.tx.offset + next_length s.tx ≤ k_max_payload)
            × (sub64 s.rx.expected_length s.rx.offset + s.rx.offset ≡ s.rx.expected_length)
            × (sub64 s.tx.length s.tx.offset + s.tx.offset ≡ s.tx.length)
      bounds frame v = ground arith

  -- In every state that a new transport can reach, either no segmented message is being sent, or what
  -- has been sent of it is the first frame's six bytes and whole segments of seven, more is to come,
  -- and the sequence number is that of the next segment, modulo 16.
  pub perform_all-segmented :
      (config : IsoTpConfig) (calls : List Call) (w : W)
      → All IsByteCall calls
      → let tx = (perform_all can clock calls (new config) w).0.tx in
        (is_tx_idle tx.state ≡ true)
        ⊎ ((tx.offset % 7 ≡ 6)
            × (6 ≤ tx.offset)
            × (tx.offset < tx.length)
            × (tx.sequence ≡ ((tx.offset - 6) / 7 + 1) % 16))
  perform_all-segmented config calls w b = segmented (perform_all-new-Inv config calls w b).sending
    where
      segmented :
          {c : IsoTpConfig} {tx : Tx}
          → TxInv c tx
          → (is_tx_idle tx.state ≡ true)
            ⊎ ((tx.offset % 7 ≡ 6)
                × (6 ≤ tx.offset)
                × (tx.offset < tx.length)
                × (tx.sequence ≡ ((tx.offset - 6) / 7 + 1) % 16))
      segmented v = ground arith
