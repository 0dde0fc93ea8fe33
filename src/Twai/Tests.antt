-- ===== src/Twai/Tests.antt =====
-- src/esp32_twai_can.cpp: a driver that is started, and hears one frame.
use esp32_vag_data_server.Prelude.{◌≡◌, ◌⊎◌, refl, true, false, List, [], ◌∷◌}
use esp32_vag_data_server.Can.{CanFrame, standard, zero_payload}
use esp32_vag_data_server.Twai.{
  esp_ok, running, pos, HardwareConfig, no_alerts, TwaiMessage, TwaiDriver, Esp32TwaiCan, new_can,
  is_ok, is_esp_ok, receive,
}
use esp32_vag_data_server.Twai.Resources.{
  Counted, Balanced, CanCall, initializes, receives, stops, call_all, call_all-Balanced,
}
use esp32_vag_data_server.Twai.Frames.{Carries, Withheld, receive-Outcome}

abbrev message : TwaiMessage
message = record {
  identifier = 0x7E8;
  data_length_code = 3;
  extd = false;
  rtr = false;
  data_bytes = zero_payload;
}

-- A driver for which every call succeeds.
abbrev driver : TwaiDriver (Unit {0})
driver = record {
  driver_install = λ config w. (esp_ok, w);
  start = λ w. (esp_ok, w);
  stop_bus = λ w. (esp_ok, w);
  driver_uninstall = λ w. (esp_ok, w);
  get_status_info = λ w. ((esp_ok, running), w);
  read_alerts = λ w. ((esp_ok, no_alerts), w);
  transmit = λ m w. (esp_ok, w);
  receive_message = λ w. ((esp_ok, message), w);
  millis = λ w. (7, w);
}

abbrev config : HardwareConfig
config = record { can_tx_gpio = pos 5; can_rx_gpio = pos 4; can_bitrate = 500000 }

abbrev frame : CanFrame
frame = record { id = 0; format = standard; length = 0; payload = zero_payload; timestamp = 0 }

abbrev calls : List (CanCall driver)
calls = initializes config ∷ initializes config ∷ receives frame ∷ stops ∷ []

-- A world in which nothing has been called.
abbrev fresh : Counted (Unit {0})
fresh = record { world = tt; installs = 0; uninstalls = 0 }

call_all-Balanced_example :
    let (c', w') = call_all driver calls (new_can, fresh) in Balanced driver c' w'
call_all-Balanced_example = call_all-Balanced driver calls new_can fresh (refl, λ e. e)

abbrev started : Esp32TwaiCan
started = record { installed_ = true; started_ = true; pending_alerts_ = no_alerts }

receive-Outcome_example :
    let (status, frame', c', w') = receive driver frame started tt in
    ((is_ok status ≡ true)
      × (started.started_ ≡ true)
      × (is_esp_ok esp_ok ≡ true)
      × (message.rtr ≡ false)
      × Carries message 7 frame frame')
    ⊎ ((is_ok status ≡ false) × Withheld driver started tt × (frame' ≡ frame))
receive-Outcome_example = receive-Outcome driver (λ w. refl) frame started tt refl
