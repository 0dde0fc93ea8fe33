-- ===== src/IsoTp/Segments.antt =====
-- src/protocol/isotp_transport.h: the segmentation of a message that ISO-TP describes, stated without
-- reference to the code, and the frames of the code as instances of it.
use esp32_vag_data_server.Prelude.{
  ℕ, zero, suc, ◌+◌, ◌/◌, ◌%◌, ◌≤◌, ◌<◌, ◌≡◌, List, [], ◌∷◌, arith, length, take, drop, write_at,
  leb, if◌then◌else◌, length-take, take-length,
}
use esp32_vag_data_server.Can.{CanFrame, zero_payload}
use esp32_vag_data_server.IsoTp.State.{IsoTpConfig}
use esp32_vag_data_server.IsoTp.Frames.{single_frame, first_frame, consecutive_frame}

-- A data frame of a sender: some bytes, with no padding counted.
abbrev pub data_frame : IsoTpConfig → List ℕ → CanFrame
data_frame config bytes = record {
  id = config.tx_id;
  format = config.frame_format;
  length = length bytes;
  payload = write_at zero_payload 0 bytes;
  timestamp = 0;
}

-- `n` consecutive frames, of seven bytes each while they last.
unfoldable pub consecutive_frames : IsoTpConfig → ℕ → ℕ → List ℕ → List CanFrame
consecutive_frames config zero sequence bytes = []
consecutive_frames config (suc n) sequence bytes =
    data_frame config ((0x20 + sequence) ∷ take 7 bytes)
    ∷ consecutive_frames config n ((sequence + 1) % 16) (drop 7 bytes)

-- The first frame of a message of more than seven bytes.
abbrev pub opening_frame : IsoTpConfig → List ℕ → CanFrame
opening_frame config message =
    data_frame config ((0x10 + length message / 256) ∷ length message % 256 ∷ take 6 message)

-- The frames of a message of more than seven bytes behind the first.
abbrev pub following_frames : IsoTpConfig → List ℕ → List CanFrame
following_frames config message = consecutive_frames config (length message / 7) 1 (drop 6 message)

abbrev pub single : IsoTpConfig → List ℕ → CanFrame
single config message = data_frame config (length message ∷ message)

-- The frames of a message.
abbrev pub segments : IsoTpConfig → List ℕ → List CanFrame
segments config message =
    if leb (length message) 7
    then single config message ∷ []
    else opening_frame config message ∷ following_frames config message

module _ (config : IsoTpConfig) where
  pub consecutive_frame_lem :
      (sequence count : ℕ) (source : List ℕ)
      → sequence < 16
      → count ≤ 7
      → count ≤ length source
      → consecutive_frame config sequence source count
        ≡ data_frame config ((0x20 + sequence) ∷ take count source)
  unfolding consecutive_frame
  consecutive_frame_lem sequence count source h c l = ground (arith, length-take count source)

  pub first_frame_lem :
      (message : List ℕ)
      → 7 < length message
      → length message < 4096
      → first_frame config message (length message) ≡ opening_frame config message
  unfolding first_frame
  first_frame_lem message h l = ground (arith, length-take 6 message)

  pub single_frame_lem :
      (message : List ℕ)
      → length message ≤ 7
      → single_frame config message (length message) ≡ single config message
  unfolding single_frame
  single_frame_lem message h = ground (arith, take-length (length message) message)
