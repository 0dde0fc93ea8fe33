-- ===== src/IsoTp/Assembly.antt =====
-- src/protocol/isotp_transport.h: the receive buffer while a message is put together, and behind it.
use esp32_vag_data_server.Prelude.{
  ℕ, ◌+◌, ◌%◌, ◌≤◌, ◌<◌, ◌≡◌, refl, ap, subst, ◌∙◌, true, false, List, [], ◌∷◌, ◌++◌, arith, length,
  take, drop, length-append, length-take, length-drop, length-write_at, take-write_at, append_assoc,
  take-append-drop,
}
use esp32_vag_data_server.Can.{CanFrame, CanHal, Clock}
use esp32_vag_data_server.Transport.{TransportStatus}
use esp32_vag_data_server.IsoTp.State.{
  IsoTpConfig, IsoTp, Rx, k_max_payload, is_receiving, is_waiting, is_config_valid,
}
use esp32_vag_data_server.IsoTp.Receiver.{store_consecutive, finish_assembly, copy_length}
use esp32_vag_data_server.IsoTp.Node.{on_can_frame}
use esp32_vag_data_server.IsoTp.Segments.{data_frame}

-- The frames that are heard one after the other, and the status of the last.
unfoldable pub deliver :
    {W : Type 0}
    → CanHal W
    → Clock W
    → TransportStatus
    → List CanFrame
    → IsoTp
    → W
    → TransportStatus × IsoTp × W
deliver can clock status [] s w = (status, s, w)
deliver can clock status (f ∷ fs) s w =
    let (status', s', w') = on_can_frame can clock s f w in deliver can clock status' fs s' w'

-- A receiver in the middle of a message, by the bytes that it has and those that are to come.
pub record Assembling (limit : ℕ) (config : IsoTpConfig) (sequence : ℕ) (got rest : List ℕ)
    (rx : Rx) : Type 0 where
  pub buffer : length rx.payload ≡ k_max_payload
  pub receiving : is_receiving rx.state ≡ true
  pub waiting : rx.message_ready ≡ false
  pub at : rx.offset ≡ length got
  pub stored : take rx.offset rx.payload ≡ got
  pub expected : rx.expected_length ≡ length got + length rest
  pub bounded : rx.expected_length ≤ k_max_payload
  pub next : rx.expected_sequence ≡ sequence
  pub in_time : limit ≤ rx.deadline_ms

-- What a receiver has when the message is complete.
pub record HasMessage (message : List ℕ) (rx : Rx) : Type 0 where
  pub ready : rx.message_ready ≡ true
  pub size : rx.message_length ≡ length message
  pub stored : take rx.message_length rx.payload ≡ message
  pub finished : is_receiving rx.state ≡ false

pub store_consecutive-Assembling :
    (limit : ℕ) (config sender : IsoTpConfig) (sequence : ℕ) (got rest : List ℕ) {rx : Rx}
    → 0 < length rest
    → sequence < 16
    → Assembling limit config sequence got rest rx
    → Assembling limit config
        ((sequence + 1) % 16)
        (got ++ take 7 rest)
        (drop 7 rest)
        (store_consecutive (data_frame sender ((0x20 + sequence) ∷ take 7 rest)) rx)
unfolding store_consecutive
store_consecutive-Assembling limit config sender sequence got rest {rx} l q a = record {
  buffer = length-write_at rx.payload rx.offset _ ∙ a.buffer;
  receiving = a.receiving;
  waiting = a.waiting;
  at = omega (arith, sizes, length-append {0} got (take 7 rest), a.at);
  stored =
      rw (copied, sizes)
        (rw
          (take-write_at rx.payload rx.offset (rx.offset + count) (take 7 rest) (omega arith)
            (omega (arith, length-take {0} 7 rest, a.buffer, a.at, a.expected, a.bounded)))
          (ap (λ t. t ++ take 7 rest) a.stored));
  expected = omega (
    arith,
    a.expected,
    length-append {0} got (take 7 rest),
    length-take {0} 7 rest,
    length-drop {0} 7 rest,
  );
  bounded = a.bounded;
  next = omega arith;
  in_time = a.in_time;
}
  where
    frame : CanFrame
    frame = data_frame sender ((0x20 + sequence) ∷ take 7 rest)

    count : ℕ
    count = length (take 7 rest)

    sizes : copy_length frame rx ≡ count
    sizes = omega (arith, length-take {0} 7 rest, a.at, a.expected, a.bounded)

    copied : take (copy_length frame rx) (drop 1 frame.payload) ≡ take 7 rest
    copied = rw sizes (
        take-write_at (0 ∷ 0 ∷ 0 ∷ 0 ∷ 0 ∷ 0 ∷ 0 ∷ []) 0 count (take 7 rest) (omega arith)
          (omega (arith, length-take {0} 7 rest)))

pub record Delivered {W : Type 0} (message : List ℕ) (s : IsoTp) (out : TransportStatus × IsoTp × W)
    : Type 0 where
  pub status : out.0 ≡ TransportStatus.message_ready
  pub message_held : HasMessage message out.1.rx
  pub config_kept : out.1.config ≡ s.config
  pub tx_kept : out.1.tx ≡ s.tx

-- The segments in front joined to the rest.
pub regroup :
    {W : Type 0} (got rest : List ℕ) {s s' : IsoTp} {out : TransportStatus × IsoTp × W}
    → s'.config ≡ s.config
    → s'.tx ≡ s.tx
    → Delivered ((got ++ take 7 rest) ++ drop 7 rest) s' out
    → Delivered (got ++ rest) s out
regroup got rest {out} c x d = record {
  status = d.status;
  message_held =
      subst (λ b. HasMessage b out.1.rx)
        (append_assoc got (take 7 rest) (drop 7 rest)
          ∙ ap (λ b. got ++ b) (take-append-drop 7 rest))
        d.message_held;
  config_kept = d.config_kept ∙ c;
  tx_kept = d.tx_kept ∙ x;
}

-- Every clock reading lies in one window of `d` milliseconds from `t` on.
abbrev pub Timely : {W : Type 0} → Clock W → ℕ → ℕ → Type 0
Timely {W} clock t d = (w : W) → (t ≤ (clock.now_ms w).0) × ((clock.now_ms w).0 < t + d)

-- A receiver that takes the frames of `sender`, and does not itself wait for flow control.
pub record Hears (sender : IsoTpConfig) (s : IsoTp) : Type 0 where
  pub valid : is_config_valid s.config ≡ true
  pub same_id : s.config.rx_id ≡ sender.tx_id
  pub same_format : s.config.frame_format ≡ sender.frame_format
  pub not_waiting : is_waiting s.tx.state ≡ false

pub finish_assembly-HasMessage :
    (limit : ℕ) (config : IsoTpConfig) (sequence : ℕ) (got : List ℕ) {rx : Rx}
    → Assembling limit config sequence got [] rx
    → HasMessage got (finish_assembly rx)
unfolding finish_assembly
finish_assembly-HasMessage limit config sequence got {rx} a = record {
  ready = refl;
  size = omega (arith, a.expected);
  stored = subst (λ k. take k rx.payload ≡ got) (omega (arith, a.at, a.expected)) a.stored;
  finished = refl;
}
