-- ===== src/Twai.antt =====
-- src/hal/esp32_twai_can.h, src/esp32_twai_can.cpp and src/config/hardware_config.h: `Esp32TwaiCan` over
-- the vendor's driver, which is a parameter.
use esp32_vag_data_server.Prelude.{
  ℕ, Bool, true, false, not, ◌&&◌, ◌||◌, List, [], ◌∷◌, Option, none, some, ltb, leb, ◌==◌,
  if◌then◌else◌, take, copy_n,
}
use esp32_vag_data_server.Can.{
  CanFrame, CanFrameFormat, standard, extended, CanStatus, ok, not_initialized, invalid_config,
  no_data, tx_busy, tx_failed, driver_error, rx_overflow, bus_off, classic_can_max_payload,
  is_valid, format_eq, Clock,
}
pub mod Resources
pub mod Frames
mod Tests

-- `esp_err_t`, as far as the code tells its values apart.
pub data EspErr : Type 0 where
  esp_ok esp_fail esp_err_timeout esp_err_invalid_state esp_err_invalid_arg esp_err_not_supported
        esp_err_other :
      EspErr

abbrev pub is_esp_ok : EspErr → Bool
is_esp_ok esp_ok = true
is_esp_ok esp_fail = false
is_esp_ok esp_err_timeout = false
is_esp_ok esp_err_invalid_state = false
is_esp_ok esp_err_invalid_arg = false
is_esp_ok esp_err_not_supported = false
is_esp_ok esp_err_other = false

-- `twai_state_t`.
pub data TwaiState : Type 0 where
  stopped running in_bus_off recovering : TwaiState

abbrev pub is_running : TwaiState → Bool
is_running stopped = false
is_running running = true
is_running in_bus_off = false
is_running recovering = false

abbrev pub is_bus_off : TwaiState → Bool
is_bus_off stopped = false
is_bus_off running = false
is_bus_off in_bus_off = true
is_bus_off recovering = false

-- The alerts of `kRequiredAlerts`, by their bits.
pub record Alerts : Type 0 where
  pub rx_queue_full : Bool
  pub rx_fifo_overrun : Bool
  pub off_bus : Bool
  pub failed : Bool

abbrev pub no_alerts : Alerts
no_alerts = record {
  rx_queue_full = false;
  rx_fifo_overrun = false;
  off_bus = false;
  failed = false;
}

-- `|` of two sets of alerts.
abbrev pub join : Alerts → Alerts → Alerts
join a b = record {
  rx_queue_full = a.rx_queue_full || b.rx_queue_full;
  rx_fifo_overrun = a.rx_fifo_overrun || b.rx_fifo_overrun;
  off_bus = a.off_bus || b.off_bus;
  failed = a.failed || b.failed;
}

-- `twai_message_t`: the flags for an extended identifier and a remote request, and eight bytes.
pub record TwaiMessage : Type 0 where
  pub identifier : ℕ
  pub data_length_code : ℕ
  pub extd : Bool
  pub rtr : Bool
  pub data_bytes : List ℕ

-- A GPIO number: -1 means that it is not configured, and a negative number has no other meaning.
pub data ℤ : Type 0 where
  pos negsuc : ℕ → ℤ

-- `HardwareConfig`.
pub record HardwareConfig : Type 0 where
  pub can_tx_gpio : ℤ
  pub can_rx_gpio : ℤ
  pub can_bitrate : ℕ

-- What the code calls of the vendor's driver, and `millis`. A call may change the world `W`. The
-- configuration is that of the pins and of the bit rate; a queue of 16 frames, the required alerts and a
-- filter that accepts all frames are the same for every call.
pub record TwaiDriver (W : Type 0) : Type 0 where
  pub driver_install : HardwareConfig → W → EspErr × W
  pub start : W → EspErr × W
  pub stop_bus : W → EspErr × W
  pub driver_uninstall : W → EspErr × W
  pub get_status_info : W → (EspErr × TwaiState) × W
  pub read_alerts : W → (EspErr × Alerts) × W
  pub transmit : TwaiMessage → W → EspErr × W
  pub receive_message : W → (EspErr × TwaiMessage) × W
  pub millis : W → ℕ × W

-- `Esp32TwaiCan`.
pub record Esp32TwaiCan : Type 0 where
  pub installed_ : Bool
  pub started_ : Bool
  pub pending_alerts_ : Alerts

abbrev pub new_can : Esp32TwaiCan
new_can = record { installed_ = false; started_ = false; pending_alerts_ = no_alerts }

-- `timingForBitrate`: whether there is a timing for the bit rate.
abbrev pub has_timing : ℕ → Bool
has_timing bitrate =
    (bitrate == 10000)
    || (bitrate == 20000)
    || (bitrate == 25000)
    || (bitrate == 50000)
    || (bitrate == 100000)
    || (bitrate == 125000)
    || (bitrate == 250000)
    || (bitrate == 500000)
    || (bitrate == 800000)
    || (bitrate == 1000000)

abbrev pub is_non_negative : ℤ → Bool
is_non_negative (pos n) = true
is_non_negative (negsuc n) = false

-- `validConfig`.
abbrev pub valid_config : HardwareConfig → Bool
valid_config config =
    is_non_negative config.can_tx_gpio
    && is_non_negative config.can_rx_gpio
    && not (config.can_bitrate == 0)

-- `captureAlerts`' change of the pending alerts.
abbrev pub captured : EspErr × Alerts → Esp32TwaiCan → Esp32TwaiCan
captured (result, alerts) c =
    if is_esp_ok result then record c { pending_alerts_ = join c.pending_alerts_ alerts } else c

-- `consumeSendAlert`.
unfoldable pub consume_send_alert : Esp32TwaiCan → CanStatus × Esp32TwaiCan
consume_send_alert c =
    if c.pending_alerts_.off_bus
    then (bus_off, record c { pending_alerts_ = record c.pending_alerts_ { off_bus = false } })
    else if c.pending_alerts_.failed
    then (tx_failed, record c { pending_alerts_ = record c.pending_alerts_ { failed = false } })
    else (ok, c)

-- `consumeReceiveAlert`.
unfoldable pub consume_receive_alert : Esp32TwaiCan → CanStatus × Esp32TwaiCan
consume_receive_alert c =
    if c.pending_alerts_.rx_queue_full || c.pending_alerts_.rx_fifo_overrun
    then (
      rx_overflow,
      record c {
        pending_alerts_ = record c.pending_alerts_ {
          rx_queue_full = false;
          rx_fifo_overrun = false;
        };
      },
    )
    else if c.pending_alerts_.off_bus
    then (bus_off, record c { pending_alerts_ = record c.pending_alerts_ { off_bus = false } })
    else (ok, c)

abbrev pub is_ok : CanStatus → Bool
is_ok ok = true
is_ok not_initialized = false
is_ok invalid_config = false
is_ok no_data = false
is_ok tx_busy = false
is_ok tx_failed = false
is_ok driver_error = false
is_ok rx_overflow = false
is_ok bus_off = false

-- What `send` makes of the driver's result.
abbrev pub map_transmit : EspErr → CanStatus
map_transmit esp_ok = ok
map_transmit esp_err_timeout = tx_busy
map_transmit esp_fail = tx_busy
map_transmit esp_err_invalid_state = not_initialized
map_transmit esp_err_invalid_arg = invalid_config
map_transmit esp_err_not_supported = invalid_config
map_transmit esp_err_other = driver_error

-- What `receive` makes of a result that is not `ESP_OK`.
abbrev pub map_receive : EspErr → CanStatus
map_receive esp_ok = ok
map_receive esp_err_timeout = no_data
map_receive esp_fail = no_data
map_receive esp_err_invalid_state = not_initialized
map_receive esp_err_invalid_arg = no_data
map_receive esp_err_not_supported = no_data
map_receive esp_err_other = no_data

abbrev no_data_bytes : List ℕ
no_data_bytes = 0 ∷ 0 ∷ 0 ∷ 0 ∷ 0 ∷ 0 ∷ 0 ∷ 0 ∷ []

-- The message of a frame.
unfoldable pub message_of : CanFrame → TwaiMessage
message_of frame = record {
  identifier = frame.id;
  data_length_code = frame.length;
  extd = format_eq frame.format extended;
  rtr = false;
  data_bytes = copy_n frame.payload frame.length no_data_bytes 0;
}

-- The frame of a message, over the caller's.
unfoldable pub frame_of : TwaiMessage → ℕ → CanFrame → CanFrame
frame_of message now frame = record {
  id = message.identifier;
  format = if message.extd then extended else standard;
  length = message.data_length_code;
  payload = copy_n message.data_bytes message.data_length_code frame.payload 0;
  timestamp = now;
}

module _ {W : Type 0} (driver : TwaiDriver W) where
  -- `stop`.
  unfoldable pub stop : Esp32TwaiCan → W → CanStatus × Esp32TwaiCan × W
  stop c w =
      if not c.installed_
      then (ok, c, w)
      else let (status, w1) = driver.get_status_info w in
        let (halted, w2) = if is_running status.1 then driver.stop_bus w1 else (esp_ok, w1) in
        let (gone, w3) = driver.driver_uninstall w2 in
        if not (is_esp_ok status.0)
        then (driver_error, c, w1)
        else if not (is_esp_ok halted)
        then (driver_error, c, w2)
        else if not (is_esp_ok gone)
        then (driver_error, c, w3)
        else (ok, new_can, w3)

  -- `initialize` from the call that installs the driver on.
  unfoldable pub install_and_start :
      HardwareConfig → Esp32TwaiCan → W → CanStatus × Esp32TwaiCan × W
  install_and_start config c w =
      let (installed, w1) = driver.driver_install config w in
      let (started, w2) = driver.start w1 in
      let (gone, w3) = driver.driver_uninstall w2 in
      if not (is_esp_ok installed)
      then (invalid_config, c, w1)
      else if is_esp_ok started
      then (ok, record c { installed_ = true; started_ = true }, w2)
      else if not (is_esp_ok gone)
      then (driver_error, record c { installed_ = true; started_ = false }, w3)
      else (invalid_config, record c { installed_ = false }, w3)

  -- `initialize`.
  unfoldable pub initialize : HardwareConfig → Esp32TwaiCan → W → CanStatus × Esp32TwaiCan × W
  initialize config c w =
      let (cleanup, c1, w1) = if c.installed_ || c.started_ then stop c w else (ok, c, w) in
      if not (valid_config config) || not (has_timing config.can_bitrate)
      then (invalid_config, c, w)
      else if not (is_ok cleanup)
      then (cleanup, c1, w1)
      else install_and_start config c1 w1

  -- `send` behind its first two tests.
  unfoldable pub send_started : CanFrame → Esp32TwaiCan → W → CanStatus × Esp32TwaiCan × W
  send_started frame c w =
      let (alerts, w1) = driver.read_alerts w in
      let (alert_status, c1) = consume_send_alert (captured alerts c) in
      let (status, w2) = driver.get_status_info w1 in
      let (result, w3) = driver.transmit (message_of frame) w2 in
      if not (is_ok alert_status)
      then (alert_status, c1, w1)
      else if is_esp_ok status.0 && is_bus_off status.1
      then (bus_off, c1, w2)
      else (map_transmit result, c1, w3)

  -- `send`.
  unfoldable pub send : CanFrame → Esp32TwaiCan → W → CanStatus × Esp32TwaiCan × W
  send frame c w =
      if not c.started_
      then (not_initialized, c, w)
      else if not (is_valid frame)
      then (invalid_config, c, w)
      else send_started frame c w

  -- `receive` behind its first test, with the caller's frame.
  unfoldable pub receive_started :
      CanFrame → Esp32TwaiCan → W → CanStatus × CanFrame × Esp32TwaiCan × W
  receive_started frame c w =
      let (alerts, w1) = driver.read_alerts w in
      let (alert_status, c1) = consume_receive_alert (captured alerts c) in
      let (status, w2) = driver.get_status_info w1 in
      let (received, w3) = driver.receive_message w2 in
      let (now, w4) = driver.millis w3 in
      if not (is_ok alert_status)
      then (alert_status, frame, c1, w1)
      else if is_esp_ok status.0 && is_bus_off status.1
      then (bus_off, frame, c1, w2)
      else if not (is_esp_ok received.0)
      then (map_receive received.0, frame, c1, w3)
      else if ltb classic_can_max_payload received.1.data_length_code || received.1.rtr
      then (invalid_config, frame, c1, w3)
      else (ok, frame_of received.1 now frame, c1, w4)

  -- `receive`.
  unfoldable pub receive : CanFrame → Esp32TwaiCan → W → CanStatus × CanFrame × Esp32TwaiCan × W
  receive frame c w =
      if not c.started_ then (not_initialized, frame, c, w) else receive_started frame c w
