-- ===== src/IsoTp/Opening.antt =====
-- src/protocol/isotp_transport.h: what begins a segmented message, on the side that sends.
use esp32_vag_data_server.Prelude.{
  ℕ, ◌/◌, ◌<◌, ◌≡◌, ap₂, ◌∙◌, true, false, List, ◌++◌, arith, length, some,
}
use esp32_vag_data_server.Can.{CanFrame, CanHal, Clock}
use esp32_vag_data_server.Transport.{TransportStatus}
use esp32_vag_data_server.IsoTp.State.{
  IsoTpConfig, IsoTp, is_receiving, is_tx_idle, is_config_valid,
}
use esp32_vag_data_server.IsoTp.Frames.{flow_control_frame}
use esp32_vag_data_server.IsoTp.Node.{start_send, on_can_frame}
use esp32_vag_data_server.IsoTp.Transmission.{polls, Sent}

-- A sender that can begin: valid, with neither direction under way.
pub record CanSend (s : IsoTp) : Type 0 where
  pub valid : is_config_valid s.config ≡ true
  pub not_receiving : is_receiving s.rx.state ≡ false
  pub idle : is_tx_idle s.tx.state ≡ true

-- A peer that sends its flow control frames to `s`, and asks for no blocks and no gaps.
pub record Clears (peer : IsoTpConfig) (s : IsoTp) : Type 0 where
  pub same_id : peer.tx_id ≡ s.config.rx_id
  pub same_format : peer.frame_format ≡ s.config.frame_format
  pub no_blocks : peer.rx_block_size ≡ 0
  pub no_gaps : peer.rx_st_min ≡ 0

pub valid_timeout :
    (config : IsoTpConfig) → is_config_valid config ≡ true → 0 < config.flow_control_timeout_ms
unfolding is_config_valid
valid_timeout config h = ground arith

pub restate :
    {W : Type 0} {log log' fs gs : List CanFrame} {s s' : IsoTp}
    {out : TransportStatus × IsoTp × (List CanFrame × W)}
    → log ≡ log'
    → fs ≡ gs
    → s'.rx ≡ s.rx
    → s'.config ≡ s.config
    → Sent s' log fs out
    → Sent s log' gs out
restate p q r c d = record {
  status = d.status;
  log_lem = d.log_lem ∙ ap₂ (λ a b. a ++ b) p q;
  idle = d.idle;
  rx_kept = d.rx_kept ∙ r;
  config_kept = d.config_kept ∙ c;
}

-- A sender's side of a segmented transfer: `startSend`, the peer's flow control frame, and as many polls
-- as there are consecutive frames.
unfoldable pub transmit :
    {W : Type 0}
    → CanHal W
    → Clock W
    → IsoTpConfig
    → List ℕ
    → IsoTp
    → W
    → TransportStatus × IsoTp × W
transmit can clock peer message s w =
    let (started, s1, w1) = start_send can clock (some message) (length message) s w in
    let (cleared, s2, w2) = on_can_frame can clock s1 (flow_control_frame peer 0) w1 in
    polls can clock (length message / 7) cleared s2 w2
