-- ===== src/Twai/Resources.antt =====
-- src/esp32_twai_can.cpp: the vendor's driver is installed exactly as often as the flags say.
use esp32_vag_data_server.Prelude.{
  ℕ, suc, ◌+◌, ◌≡◌, inl, inr, refl, Bool, true, false, not, ◌&&◌, ◌||◌, List, [], ◌∷◌, arith,
  Bool-cases, if◌then◌else◌, ltb,
}
use esp32_vag_data_server.Can.{CanFrame, CanStatus, ok, driver_error, is_valid}
use esp32_vag_data_server.Twai.{
  Alerts, EspErr, esp_ok, is_esp_ok, is_running, is_bus_off, TwaiDriver, HardwareConfig,
  Esp32TwaiCan, new_can, is_ok, valid_config, has_timing, captured, consume_send_alert,
  consume_receive_alert, stop, install_and_start, initialize, send_started, send, receive_started,
  receive,
}

-- A world that counts the calls that install the driver, and those that uninstall it, if they succeed.
pub record Counted (W : Type 0) : Type 0 where
  pub world : W
  pub installs : ℕ
  pub uninstalls : ℕ

pub if_holds :
    {A : Type 0} (P : A → Type 0) (b : Bool) (x y : A)
    → (b ≡ true → P x)
    → (b ≡ false → P y)
    → P (if b then x else y)
if_holds P true x y p q = p refl
if_holds P false x y p q = q refl

pub not-true : (b : Bool) → not b ≡ true → b ≡ false
not-true true e = cc
not-true false e = refl

pub not-false : (b : Bool) → not b ≡ false → b ≡ true
not-false true e = refl
not-false false e = cc

abbrev step : EspErr → ℕ → ℕ
step result n = if is_esp_ok result then suc n else n

module _ {W : Type 0} (driver : TwaiDriver W) where
  -- The driver in that world.
  abbrev pub counted : TwaiDriver (Counted W)
  counted = record {
    driver_install = λ config w.
        let (result, w') = driver.driver_install config w.world in
        (result, record w { world = w'; installs = step result w.installs });
    start = λ w. let (result, w') = driver.start w.world in (result, record w { world = w' });
    stop_bus = λ w. let (result, w') = driver.stop_bus w.world in (result, record w { world = w' });
    driver_uninstall = λ w.
        let (result, w') = driver.driver_uninstall w.world in
        (result, record w { world = w'; uninstalls = step result w.uninstalls });
    get_status_info =
        λ w. let (result, w') = driver.get_status_info w.world in (result, record w { world = w' });
    read_alerts =
        λ w. let (result, w') = driver.read_alerts w.world in (result, record w { world = w' });
    transmit = λ message w.
        let (result, w') = driver.transmit message w.world in (result, record w { world = w' });
    receive_message =
        λ w. let (result, w') = driver.receive_message w.world in (result, record w { world = w' });
    millis = λ w. let (result, w') = driver.millis w.world in (result, record w { world = w' });
  }

  -- The driver has been installed once more than uninstalled if it is installed, and as often if not; it
  -- is started only while it is installed.
  abbrev pub Balanced : Esp32TwaiCan → Counted W → Type 0
  Balanced c w =
      (w.installs ≡ w.uninstalls + (if c.installed_ then 1 else 0))
      × (c.started_ ≡ true → c.installed_ ≡ true)

  -- The outcome of `stop`: if it succeeds the driver is not installed.
  abbrev Stopped : CanStatus × Esp32TwaiCan × Counted W → Type 0
  Stopped (status, c, w) = Balanced c w × (is_ok status ≡ true → c.installed_ ≡ false)

  uninstalled-Stopped :
      (c : Esp32TwaiCan) (w : Counted W)
      → Balanced c w
      → c.installed_ ≡ true
      → let (gone, w') = (counted).driver_uninstall w in
        Stopped (if not (is_esp_ok gone) then (driver_error, c, w') else (ok, new_can, w'))
  uninstalled-Stopped c w b e = elim (Bool-cases (is_esp_ok (driver.driver_uninstall w.world).0)) [
    | inl g ↦ rw g ((ground arith, λ q. absurd cc), λ q. refl)
    | inr g ↦ rw g ((b.0, b.1), λ q. absurd cc)
  ]

  stop-Stopped : (c : Esp32TwaiCan) (w : Counted W) → Balanced c w → Stopped (stop counted c w)
  unfolding stop
  stop-Stopped c w b =
      let (status, w1) = (counted).get_status_info w in
      let (halted, w2) = if is_running status.1 then (counted).stop_bus w1 else (esp_ok, w1) in
      let kept : Balanced c w2 =
        if_holds (λ (x : EspErr × Counted W). Balanced c x.1) (is_running status.1) _ _ (λ r. b)
          (λ r. b) in
      if_holds Stopped (not c.installed_) _ _ (λ e. (b, λ q. ground arith))
        (λ e.
          if_holds Stopped (not (is_esp_ok status.0)) _ _ (λ f. (b, λ q. absurd cc))
            (λ f.
              if_holds Stopped (not (is_esp_ok halted)) _ _ (λ h. (kept, λ q. absurd cc))
                (λ h. uninstalled-Stopped c w2 kept (ground arith))))

  abbrev Kept : CanStatus × Esp32TwaiCan × Counted W → Type 0
  Kept (status, c, w) = Balanced c w

  abbrev Heard : CanStatus × CanFrame × Esp32TwaiCan × Counted W → Type 0
  Heard (status, frame, c, w) = Balanced c w

  -- `initialize`: if it succeeds the driver is installed and started.
  abbrev Initialized : CanStatus × Esp32TwaiCan × Counted W → Type 0
  Initialized (status, c, w) =
      Balanced c w × (is_ok status ≡ true → (c.installed_ ≡ true) × (c.started_ ≡ true))

  install_and_start-Initialized :
      (config : HardwareConfig) (c : Esp32TwaiCan) (w : Counted W)
      → Balanced c w
      → c.installed_ ≡ false
      → Initialized (install_and_start counted config c w)
  unfolding install_and_start
  install_and_start-Initialized config c w b e =
      let (installed, w1) = driver.driver_install config w.world in
      let (started, w2) = driver.start w1 in
      let (gone, w3) = driver.driver_uninstall w2 in
      elim (Bool-cases (is_esp_ok installed)) [
        | inr i ↦ rw i (b, λ q. absurd cc)
        | inl i ↦ elim (Bool-cases (is_esp_ok started)) [
          | inl s ↦ rw (i, s) ((ground arith, λ q. refl), λ q. (refl, refl))
          | inr s ↦ elim (Bool-cases (is_esp_ok gone)) [
            | inr g ↦ rw (i, s, g) ((ground arith, λ q. refl), λ q. absurd cc)
            | inl g ↦ rw (i, s, g) ((ground arith, λ q. absurd (cc (b.1 q, e))), λ q. absurd cc)
          ]
        ]
      ]

  initialize-Initialized :
      (config : HardwareConfig) (c : Esp32TwaiCan) (w : Counted W)
      → Balanced c w
      → Initialized (initialize counted config c w)
  unfolding initialize
  initialize-Initialized config c w b =
      let cleanup : CanStatus × Esp32TwaiCan × Counted W =
        if c.installed_ || c.started_ then stop counted c w else (ok, c, w) in
      let cleaned : Stopped cleanup =
        if_holds Stopped (c.installed_ || c.started_) _ _ (λ e. stop-Stopped c w b)
          (λ e. (b, λ q. ground arith)) in
      if_holds Initialized (not (valid_config config) || not (has_timing config.can_bitrate)) _ _
        (λ e. (b, λ q. absurd cc))
        (λ e.
          if_holds Initialized (not (is_ok cleanup.0)) _ _
            (λ f. (cleaned.0, λ q. absurd (cc (not-true (is_ok cleanup.0) f, q))))
            (λ f.
              install_and_start-Initialized config _ _ cleaned.0
                (cleaned.1 (not-false (is_ok cleanup.0) f))))

  captured-Balanced :
      (alerts : EspErr × Alerts) (c : Esp32TwaiCan) (w : Counted W)
      → Balanced c w
      → Balanced (captured alerts c) w
  captured-Balanced (result, alerts) c w b =
      if_holds (λ x. Balanced x w) (is_esp_ok result) _ _ (λ e. b) (λ e. b)

  -- `send` and `receive` neither install nor uninstall.
  send_started-Balanced :
      (frame : CanFrame) (c : Esp32TwaiCan) (w : Counted W)
      → Balanced c w
      → Kept (send_started counted frame c w)
  unfolding send_started consume_send_alert
  send_started-Balanced frame c w b =
      let (alerts, w1) = (counted).read_alerts w in
      let consumed : Balanced (consume_send_alert (captured alerts c)).1 w1 =
        let kept = captured-Balanced alerts c w1 b in
        if_holds (λ (x : CanStatus × Esp32TwaiCan). Balanced x.1 w1)
          (captured alerts c).pending_alerts_.off_bus _ _ (λ e. kept)
          (λ e.
            if_holds (λ (x : CanStatus × Esp32TwaiCan). Balanced x.1 w1)
              (captured alerts c).pending_alerts_.failed _ _ (λ f. kept) (λ f. kept)) in
      let (status, w2) = (counted).get_status_info w1 in
      if_holds Kept (not (is_ok (consume_send_alert (captured alerts c)).0)) _ _ (λ e. consumed)
        (λ e.
          if_holds Kept (is_esp_ok status.0 && is_bus_off status.1) _ _ (λ f. consumed)
            (λ f. consumed))

  send-Balanced :
      (frame : CanFrame) (c : Esp32TwaiCan) (w : Counted W)
      → Balanced c w
      → Kept (send counted frame c w)
  unfolding send
  send-Balanced frame c w b =
      if_holds Kept (not c.started_) _ _ (λ e. b)
        (λ e.
          if_holds Kept (not (is_valid frame)) _ _ (λ f. b)
            (λ f. send_started-Balanced frame c w b))

  receive_started-Balanced :
      (frame : CanFrame) (c : Esp32TwaiCan) (w : Counted W)
      → Balanced c w
      → let (status, frame', c', w') = receive_started counted frame c w in Balanced c' w'
  unfolding receive_started consume_receive_alert
  receive_started-Balanced frame c w b =
      let (alerts, w1) = (counted).read_alerts w in
      let kept = captured-Balanced alerts c w1 b in
      let pending : Alerts = (captured alerts c).pending_alerts_ in
      let consumed : Balanced (consume_receive_alert (captured alerts c)).1 w1 =
        if_holds (λ (x : CanStatus × Esp32TwaiCan). Balanced x.1 w1)
          (pending.rx_queue_full || pending.rx_fifo_overrun) _ _ (λ e. kept)
          (λ e.
            if_holds (λ (x : CanStatus × Esp32TwaiCan). Balanced x.1 w1) pending.off_bus _ _
              (λ f. kept) (λ f. kept)) in
      let (status, w2) = (counted).get_status_info w1 in
      let (received, w3) = (counted).receive_message w2 in
      if_holds Heard (not (is_ok (consume_receive_alert (captured alerts c)).0)) _ _ (λ e. consumed)
        (λ e.
          if_holds Heard (is_esp_ok status.0 && is_bus_off status.1) _ _ (λ f. consumed)
            (λ f.
              if_holds Heard (not (is_esp_ok received.0)) _ _ (λ g. consumed)
                (λ g.
                  if_holds Heard (ltb 8 received.1.data_length_code || received.1.rtr) _ _
                    (λ h. consumed) (λ h. consumed))))

  -- The calls of the driver, and their sequences.
  pub data CanCall : Type 0 where
    initializes : HardwareConfig → CanCall
    stops : CanCall
    sends : CanFrame → CanCall
    receives : CanFrame → CanCall

  unfoldable pub call : CanCall → Esp32TwaiCan × Counted W → Esp32TwaiCan × Counted W
  call (initializes config) (c, w) =
      let (status, c', w') = initialize counted config c w in (c', w')
  call stops (c, w) = let (status, c', w') = stop counted c w in (c', w')
  call (sends frame) (c, w) = let (status, c', w') = send counted frame c w in (c', w')
  call (receives frame) (c, w) =
      let (status, frame', c', w') = receive counted frame c w in (c', w')

  unfoldable pub call_all : List CanCall → Esp32TwaiCan × Counted W → Esp32TwaiCan × Counted W
  call_all [] s = s
  call_all (x ∷ calls) s = call_all calls (call x s)

  -- Whatever calls are made of a CAN driver for which this holds, as it does for a new one, and whatever
  -- the vendor's driver answers: that has been installed as often as uninstalled, and once more exactly
  -- while it is held as installed, and it is held as started only while it is held as installed.
  pub call_all-Balanced :
      (calls : List CanCall) (c : Esp32TwaiCan) (w : Counted W)
      → Balanced c w
      → let (c', w') = call_all calls (c, w) in Balanced c' w'
  unfolding call_all call receive
  call_all-Balanced [] c w b = b
  call_all-Balanced (initializes config ∷ calls) c w b =
      call_all-Balanced calls (initialize counted config c w).1 (initialize counted config c w).2
        (initialize-Initialized config c w b).0
  call_all-Balanced (stops ∷ calls) c w b =
      call_all-Balanced calls (stop counted c w).1 (stop counted c w).2 (stop-Stopped c w b).0
  call_all-Balanced (sends frame ∷ calls) c w b =
      call_all-Balanced calls (send counted frame c w).1 (send counted frame c w).2
        (send-Balanced frame c w b)
  call_all-Balanced (receives frame ∷ calls) c w b =
      call_all-Balanced calls (receive counted frame c w).2 (receive counted frame c w).3
        (if_holds Heard (not c.started_) _ _ (λ e. b) (λ e. receive_started-Balanced frame c w b))
