-- ===== src/Twai/Frames.antt =====
-- src/esp32_twai_can.cpp: the frames that `receive` delivers.
use esp32_vag_data_server.Prelude.{
  ℕ, ◌≤◌, ◌<◌, ◌≡◌, Bool, ◌⊎◌, inl, inr, refl, sym, true, false, not, ◌&&◌, ◌||◌, arith, ltb,
  length, take, drop, take-write_at, drop-write_at, length-take, if◌then◌else◌,
}
use esp32_vag_data_server.Can.{CanFrame, CanStatus, standard, extended, classic_can_max_payload}
use esp32_vag_data_server.Twai.{
  EspErr, esp_ok, esp_fail, esp_err_timeout, esp_err_invalid_state, esp_err_invalid_arg,
  esp_err_not_supported, esp_err_other, is_esp_ok, is_bus_off, TwaiDriver, TwaiMessage,
  Esp32TwaiCan, is_ok, captured, consume_receive_alert, frame_of, receive_started, receive,
  map_receive,
}
use esp32_vag_data_server.Twai.Resources.{if_holds, not-true, not-false}

-- What the vendor's driver gives to `receive`, behind its answers on the alerts and on its state.
abbrev pub heard : {W : Type 0} → TwaiDriver W → W → (EspErr × TwaiMessage) × W
heard driver w = driver.receive_message (driver.get_status_info (driver.read_alerts w).1).1

-- The frame has the message, and the time; behind the message it has the bytes of the frame before.
abbrev pub Carries : TwaiMessage → ℕ → CanFrame → CanFrame → Type 0
Carries message now before frame =
    (frame.id ≡ message.identifier)
    × (frame.format ≡ (if message.extd then extended else standard))
    × (frame.length ≡ message.data_length_code)
    × (frame.length ≤ classic_can_max_payload)
    × (take frame.length frame.payload ≡ take frame.length message.data_bytes)
    × (drop frame.length frame.payload ≡ drop frame.length before.payload)
    × (frame.timestamp ≡ now)

-- Why nothing is received: the driver is not started, an alert is pending or just read, it is off the
-- bus, there is no message, or the message is too long or a remote request.
abbrev pub Withheld : {W : Type 0} → TwaiDriver W → Esp32TwaiCan → W → Type 0
Withheld driver c w =
    let (alerts, w1) = driver.read_alerts w in
    let (result, message) = (heard driver w).0 in
    (c.started_ ≡ false)
    ⊎ (is_ok (consume_receive_alert (captured alerts c)).0 ≡ false)
    ⊎ (is_bus_off (driver.get_status_info w1).0.1 ≡ true)
    ⊎ (is_esp_ok result ≡ false)
    ⊎ (classic_can_max_payload < message.data_length_code)
    ⊎ (message.rtr ≡ true)

frame_of-Carries :
    (message : TwaiMessage) (now : ℕ) (frame : CanFrame)
    → length frame.payload ≡ 8
    → length message.data_bytes ≡ 8
    → message.data_length_code ≤ 8
    → Carries message now frame (frame_of message now frame)
unfolding frame_of
frame_of-Carries message now frame p d l =
    let n : ℕ = message.data_length_code in
    let whole : length (take n message.data_bytes) ≡ n =
      omega (arith, length-take {0} n message.data_bytes) in
    (
      refl,
      refl,
      refl,
      l,
      take-write_at frame.payload 0 n (take n message.data_bytes) (omega (arith, whole))
          (omega arith),
      drop-write_at frame.payload n (take n message.data_bytes) (sym whole),
      refl,
    )

map_receive-refused : (r : EspErr) → is_esp_ok r ≡ false → is_ok (map_receive r) ≡ false
map_receive-refused esp_ok e = cc
map_receive-refused esp_fail e = refl
map_receive-refused esp_err_timeout e = refl
map_receive-refused esp_err_invalid_state e = refl
map_receive-refused esp_err_invalid_arg e = refl
map_receive-refused esp_err_not_supported e = refl
map_receive-refused esp_err_other e = refl

too_long :
    (message : TwaiMessage)
    → (ltb classic_can_max_payload message.data_length_code || message.rtr) ≡ true
    → (classic_can_max_payload < message.data_length_code) ⊎ (message.rtr ≡ true)
too_long message h = ground arith

module _ {W : Type 0} (driver : TwaiDriver W)
    (array : (w : W) → length (driver.receive_message w).0.1.data_bytes ≡ 8) where
  -- The outcome of a reception of `before` in the world `w`: the frame that was heard there, or the
  -- caller's as it was.
  abbrev Outcome : CanFrame → Esp32TwaiCan → W → CanStatus × CanFrame × Esp32TwaiCan × W → Type 0
  Outcome before c w (status, frame, c', w') =
      let ((result, message), w1) = heard driver w in
      ((is_ok status ≡ true)
        × (c.started_ ≡ true)
        × (is_esp_ok result ≡ true)
        × (message.rtr ≡ false)
        × Carries message (driver.millis w1).0 before frame)
      ⊎ ((is_ok status ≡ false) × Withheld driver c w × (frame ≡ before))

  receive_started-Outcome :
      (frame : CanFrame) (c : Esp32TwaiCan) (w : W)
      → length frame.payload ≡ 8
      → c.started_ ≡ true
      → Outcome frame c w (receive_started driver frame c w)
  unfolding receive_started
  receive_started-Outcome frame c w p s =
      let (alerts, w1) = driver.read_alerts w in
      let alert : CanStatus = (consume_receive_alert (captured alerts c)).0 in
      let (status, w2) = driver.get_status_info w1 in
      let (received, w3) = driver.receive_message w2 in
      let message : TwaiMessage = received.1 in
      let quiet : Bool = is_ok alert in
      if_holds (Outcome frame c w) (not quiet) _ _
        (λ e. let f = not-true quiet e in inr (f, inr (inl f), refl))
        (λ e.
          if_holds (Outcome frame c w) (is_esp_ok status.0 && is_bus_off status.1) _ _
            (λ f. inr (refl, inr (inr (inl (ground arith))), refl))
            (λ f.
              if_holds (Outcome frame c w) (not (is_esp_ok received.0)) _ _
                (λ g.
                  let h = not-true (is_esp_ok received.0) g in
                  inr (map_receive-refused received.0 h, inr (inr (inr (inl h))), refl))
                (λ g.
                  if_holds (Outcome frame c w)
                    (ltb classic_can_max_payload message.data_length_code || message.rtr) _ _
                    (λ h. inr (refl, inr (inr (inr (inr (too_long message h)))), refl))
                    (λ h. inl (
                      refl,
                      s,
                      not-false (is_esp_ok received.0) g,
                      ground arith,
                      frame_of-Carries message (driver.millis w3).0 frame p (array w2)
                          (ground arith),
                    )))))

  -- `receive`, with a driver whose messages have eight bytes and a frame of eight. Either it succeeds:
  -- then the driver is started, the vendor's driver answered `ESP_OK`, and the message that it gave is no
  -- remote request and has at most eight bytes; the caller's frame has that message's identifier,
  -- format, length and bytes, the reading of `millis` behind it, and its own bytes behind the message.
  -- Or it fails, and the frame is as it was: then the driver is not started, an alert is pending or just
  -- read, it is off the bus, there is no message, or the message is too long or a remote request.
  pub receive-Outcome :
      (frame : CanFrame) (c : Esp32TwaiCan) (w : W)
      → length frame.payload ≡ 8
      → let (status, frame', c', w') = receive driver frame c w in
        let ((result, message), w1) = heard driver w in
        ((is_ok status ≡ true)
          × (c.started_ ≡ true)
          × (is_esp_ok result ≡ true)
          × (message.rtr ≡ false)
          × Carries message (driver.millis w1).0 frame frame')
        ⊎ ((is_ok status ≡ false) × Withheld driver c w × (frame' ≡ frame))
  unfolding receive
  receive-Outcome frame c w p =
      if_holds (Outcome frame c w) (not c.started_) _ _
        (λ e. inr (refl, inl (not-true c.started_ e), refl))
        (λ e. receive_started-Outcome frame c w p (not-false c.started_ e))
