-- ===== src/IsoTp/Frames.antt =====
-- src/protocol/isotp_transport.h: `mapCanStatus`, `sendFrame`, and the four kinds of frame that the
-- transport builds. In `0x10 | x` and the like `x` is below 16, so that `|` is `+`.
use esp32_vag_data_server.Prelude.{ℕ, ◌+◌, ◌/◌, ◌%◌, List, [], ◌∷◌, u8, copy_n, write_at}
use esp32_vag_data_server.Can.{CanFrame, CanStatus, CanHal, classic_can_max_payload}
use esp32_vag_data_server.Transport.{TransportStatus}
use esp32_vag_data_server.IsoTp.State.{IsoTpConfig, make_tx_frame}

-- `mapCanStatus`.
unfoldable pub map_can_status : CanStatus → TransportStatus
map_can_status CanStatus.ok = TransportStatus.complete
map_can_status CanStatus.tx_busy = TransportStatus.tx_busy
map_can_status CanStatus.tx_failed = TransportStatus.tx_failed
map_can_status CanStatus.bus_off = TransportStatus.bus_off
map_can_status CanStatus.not_initialized = TransportStatus.not_initialized
map_can_status CanStatus.invalid_config = TransportStatus.invalid_argument
map_can_status CanStatus.no_data = TransportStatus.can_error
map_can_status CanStatus.driver_error = TransportStatus.can_error
map_can_status CanStatus.rx_overflow = TransportStatus.can_error

-- `sendFrame`.
unfoldable pub send_frame : {W : Type 0} → CanHal W → CanFrame → W → TransportStatus × W
send_frame can frame w = let (status, w') = can.send frame w in (map_can_status status, w')

-- The single frame of `startSend`.
unfoldable pub single_frame : IsoTpConfig → List ℕ → ℕ → CanFrame
single_frame config payload length =
    let frame = make_tx_frame config in
    record frame {
      length = u8 (length + 1);
      payload = copy_n payload length (write_at frame.payload 0 (u8 length ∷ [])) 1;
    }

-- The first frame of `startSend`: twelve bits of length, and six bytes.
unfoldable pub first_frame : IsoTpConfig → List ℕ → ℕ → CanFrame
first_frame config payload length =
    let frame = make_tx_frame config in
    record frame {
      length = classic_can_max_payload;
      payload =
          copy_n payload 6
            (write_at frame.payload 0 (u8 (0x10 + length / 256 % 16) ∷ length % 256 ∷ [])) 2;
    }

-- The consecutive frame of `sendNextConsecutiveFrame`, with `count` bytes of `source`.
unfoldable pub consecutive_frame : IsoTpConfig → ℕ → List ℕ → ℕ → CanFrame
consecutive_frame config sequence source count =
    let frame = make_tx_frame config in
    record frame {
      length = u8 (count + 1);
      payload = copy_n source count (write_at frame.payload 0 (u8 (0x20 + sequence) ∷ [])) 1;
    }

-- The frame of `sendFlowControl`.
unfoldable pub flow_control_frame : IsoTpConfig → ℕ → CanFrame
flow_control_frame config flow_status =
    let frame = make_tx_frame config in
    record frame {
      length = 3;
      payload =
          write_at frame.payload 0
            (u8 (0x30 + flow_status) ∷ config.rx_block_size ∷ config.rx_st_min ∷ []);
    }
