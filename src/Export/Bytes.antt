-- ===== src/Export/Bytes.antt =====
-- src/application/vehicle_data_export_record.h: numbers and texts in and out of bytes.
use esp32_vag_data_server.Prelude.{
  ℕ, zero, suc, ◌+◌, ◌^◌, ◌<◌, ◌≤◌, ◌≡◌, refl, sym, ap, ◌∙◌, false, List, [], ◌∷◌, ◌++◌, some,
  arith, length, drop, write_at, All, length-append, length-drop, drop-add, append_assoc,
}
use esp32_vag_data_server.VehicleData.Assign.{NonZero}
use esp32_vag_data_server.VehicleData.Sample.{
  VehicleValueType, VehicleAvailability, VehicleQuality, VehicleSource,
}
use esp32_vag_data_server.Export.Layout.{
  type_byte, availability_byte, quality_byte, source_byte, type_of, availability_of, quality_of,
  source_of, u16_bytes, read_u16, u64_bytes, read_u64_loop, read_u64, contains_null,
}

pub read_u16-u16_bytes : (n : ℕ) (rest : List ℕ) → n < 2 ^ 16 → read_u16 (u16_bytes n ++ rest) ≡ n
unfolding read_u16
read_u16-u16_bytes n rest l = omega arith

pub read_u64-u64_bytes :
    (n : ℕ) (rest : List ℕ) → n < 2 ^ 64 → read_u64 (u64_bytes 8 0 n ++ rest) ≡ n
unfolding read_u64_loop u64_bytes
read_u64-u64_bytes n rest l = omega arith

pub type_of-type_byte : (t : VehicleValueType) → type_of (type_byte t) ≡ some t
type_of-type_byte VehicleValueType.none = refl
type_of-type_byte VehicleValueType.numeric = refl
type_of-type_byte VehicleValueType.boolean = refl
type_of-type_byte VehicleValueType.text = refl

pub availability_of-availability_byte :
    (a : VehicleAvailability) → availability_of (availability_byte a) ≡ some a
availability_of-availability_byte VehicleAvailability.available = refl
availability_of-availability_byte VehicleAvailability.unsupported = refl
availability_of-availability_byte VehicleAvailability.unavailable = refl
availability_of-availability_byte VehicleAvailability.pending = refl
availability_of-availability_byte VehicleAvailability.unknown = refl

pub quality_of-quality_byte : (q : VehicleQuality) → quality_of (quality_byte q) ≡ some q
quality_of-quality_byte VehicleQuality.valid_current = refl
quality_of-quality_byte VehicleQuality.stale = refl
quality_of-quality_byte VehicleQuality.invalid_or_unknown = refl

pub source_of-source_byte : (s : VehicleSource) → source_of (source_byte s) ≡ some s
source_of-source_byte VehicleSource.obd = refl
source_of-source_byte VehicleSource.uds = refl
source_of-source_byte VehicleSource.passive_can = refl
source_of-source_byte VehicleSource.derived = refl
source_of-source_byte VehicleSource.unknown = refl

pub contains_null-NonZero : (bytes : List ℕ) → All NonZero bytes → contains_null bytes ≡ false
contains_null-NonZero [] n = refl
contains_null-NonZero (b ∷ bytes) n = ground (arith, contains_null-NonZero bytes n.1)

-- A store right behind the part of a buffer that is written.
pub write_at-next :
    (before rest source : List ℕ) (offset : ℕ)
    → offset ≡ length before
    → length source ≤ length rest
    → write_at (before ++ rest) offset source ≡ before ++ (source ++ drop (length source) rest)
write_at-next [] [] [] offset e l = refl
write_at-next [] [] (s ∷ source) offset e l = absurd (omega arith)
write_at-next [] (d ∷ rest) [] zero e l = refl
write_at-next [] (d ∷ rest) [] (suc offset) e l = absurd (omega arith)
write_at-next [] (d ∷ rest) (s ∷ source) zero e l =
    ap (λ t. s ∷ t) (write_at-next [] rest source 0 refl (omega arith))
write_at-next [] (d ∷ rest) (s ∷ source) (suc offset) e l = absurd (omega arith)
write_at-next (b ∷ before) rest source zero e l = absurd (omega arith)
write_at-next (b ∷ before) rest source (suc offset) e l =
    ap (λ t. b ∷ t) (write_at-next before rest source offset (omega arith) l)

-- A store behind the part that is written, over an output.
write_at-more :
    (before output source : List ℕ) (offset end : ℕ)
    → offset ≡ length before
    → end ≡ offset + length source
    → end ≤ length output
    → write_at (before ++ drop offset output) offset source ≡ (before ++ source) ++ drop end output
write_at-more before output source offset end e f l =
    write_at-next before (drop offset output) source offset e
      (omega (arith, length-drop {0} offset output))
    ∙ ap (λ t. before ++ (source ++ t)) (drop-add offset (length source) output)
    ∙ ap (λ k. before ++ (source ++ drop k output)) (sym f)
    ∙ sym (append_assoc before source (drop end output))

-- Four stores, each behind the one before.
pub write_at-four :
    (a b c d output : List ℕ) (i j k n : ℕ)
    → i ≡ length a
    → j ≡ i + length b
    → k ≡ j + length c
    → n ≡ k + length d
    → n ≤ length output
    → write_at (write_at (write_at (write_at output 0 a) i b) j c) k d
      ≡ (a ++ (b ++ (c ++ d))) ++ drop n output
write_at-four a b c d output i j k n ei ej ek en l =
    let first : write_at output 0 a ≡ a ++ drop i output =
      write_at-more [] output a 0 i refl (omega arith) (omega arith) in
    let second = write_at-more a output b i j ei ej (omega arith) in
    let third =
      write_at-more (a ++ b) output c j k (omega (arith, length-append {0} a b)) ek (omega arith) in
    let fourth =
      write_at-more ((a ++ b) ++ c) output d k n
        (omega (arith, length-append {0} a b, length-append {0} (a ++ b) c)) en l in
    ap (λ t. write_at (write_at (write_at t i b) j c) k d) first
    ∙ ap (λ t. write_at (write_at t j c) k d) second
    ∙ ap (λ t. write_at t k d) third
    ∙ fourth
    ∙ ap (λ t. t ++ drop n output) (append_assoc (a ++ b) c d ∙ append_assoc a b (c ++ d))
