-- ===== src/Export/RoundTrip.antt =====
-- src/application/vehicle_data_export_record.h: `decode` of what `encode` writes.
use esp32_vag_data_server.Prelude.{
  ℕ, ◌%◌, ◌≤◌, ◌≡◌, refl, ap, ◌∙◌, Bool, true, false, List, ◌∷◌, ◌++◌, Option, some, arith, ltb,
  ==_refl, if◌then◌else◌, length, drop, append_assoc,
}
use esp32_vag_data_server.VehicleData.Text.{content}
use esp32_vag_data_server.VehicleData.Sample.{NormalizedVehicleSample, has_value}
use esp32_vag_data_server.Export.Layout.{
  ok, k_header_size, u64_bytes, payload_length_of, payload_of,
}
use esp32_vag_data_server.Export.Encode.{header, encode, encode_with}
use esp32_vag_data_server.Export.Decode.{Enumerators, enumerators_of, decode_body, decode}
use esp32_vag_data_server.Export.Bytes.{
  read_u16-u16_bytes, read_u64-u64_bytes, type_of-type_byte, availability_of-availability_byte,
  quality_of-quality_byte, source_of-source_byte,
}
use esp32_vag_data_server.Export.Written.{
  Exportable, record_length, record_bytes, IsText-facts, payload-length, required_capacity-record,
  encode_into-record,
}
use esp32_vag_data_server.Export.Rebuild.{drop-text, text-no_null, accept-construct}

-- The enumerators of a sample.
abbrev enumerators : NormalizedVehicleSample → Enumerators
enumerators s = record {
  type = s.value.type_;
  availability = s.availability;
  quality = s.quality;
  source = s.source;
}

-- What follows the header in memory.
abbrev body : NormalizedVehicleSample → List ℕ → List ℕ
body s rest = content s.signal_id ++ (content s.unit ++ (payload_of s.value.type_ s.value ++ rest))

enumerators_of-header :
    (s : NormalizedVehicleSample) (n : ℕ) (rest : List ℕ)
    → enumerators_of (header s n ++ rest) ≡ some (enumerators s)
unfolding enumerators_of
enumerators_of-header s n rest =
    rw
      (
        type_of-type_byte s.value.type_,
        availability_of-availability_byte s.availability,
        quality_of-quality_byte s.quality,
        source_of-source_byte s.source,
      )
      refl

flag-le : (b : Bool) → ltb 1 (if b then 1 else 0) ≡ false
flag-le true = refl
flag-le false = refl

decode_body-body :
    (s out : NormalizedVehicleSample) (rest : List ℕ)
    → Exportable s
    → decode_body
        (some (enumerators s))
        (header s (record_length s) ++ body s rest)
        (record_length s)
        out
      ≡ (ok, s)
unfolding decode_body u64_bytes
decode_body-body s out rest (w, f) =
    let (id_fits, id_size) = IsText-facts w.signal_id in
    let (unit_fits, unit_size) = IsText-facts w.unit in
    let (payload_size, payload_fits) = payload-length s.value w.value in
    let id : s.signal_id.length_ % 256 ≡ s.signal_id.length_ = omega (arith, id_fits) in
    let unit : s.unit.length_ % 256 ≡ s.unit.length_ = omega (arith, unit_fits) in
    let payload : payload_length_of s.value.type_ s.value % 256
        ≡ payload_length_of s.value.type_ s.value =
      omega (arith, payload_fits) in
    let after_unit = payload_of s.value.type_ s.value ++ rest in
    let after_id = content s.unit ++ after_unit in
    let small : ltb 64 s.signal_id.length_ ≡ false = ground (arith, id_fits) in
    let short : ltb 32 s.unit.length_ ≡ false = ground (arith, unit_fits) in
    let time =
      read_u64-u64_bytes s.timestamp_ms
        (s.signal_id.length_
          ∷ s.unit.length_
          ∷ payload_length_of s.value.type_ s.value
          ∷ body s rest)
        w.timestamp in
    rw
      (
        flag-le (has_value s),
        id,
        unit,
        payload,
        small,
        short,
        ==_refl (record_length s),
        text-no_null w.signal_id after_id,
        drop-text w.signal_id after_id,
        text-no_null w.unit after_unit,
        drop-text w.unit after_unit,
        time,
      )
      (accept-construct s out after_id after_unit rest (w, f))

decode-body :
    (s out : NormalizedVehicleSample) (rest : List ℕ)
    → Exportable s
    → decode (some (header s (record_length s) ++ body s rest)) (record_length s) out ≡ (ok, s)
unfolding decode
decode-body s out rest (w, f) =
    let (id_fits, id_size) = IsText-facts w.signal_id in
    let (unit_fits, unit_size) = IsText-facts w.unit in
    let (payload_size, payload_fits) = payload-length s.value w.value in
    let long : ltb (record_length s) k_header_size ≡ false = ground arith in
    let tail : List ℕ = drop 7 (header s (record_length s)) ++ body s rest in
    let size =
      read_u16-u16_bytes (record_length s) tail (omega (arith, id_fits, unit_fits, payload_fits)) in
    rw
      (
        long,
        size,
        ==_refl (record_length s),
        enumerators_of-header s (record_length s) (body s rest),
      )
      (decode_body-body s out rest (w, f))

record_bytes-body :
    (s : NormalizedVehicleSample) (rest : List ℕ)
    → record_bytes s ++ rest ≡ header s (record_length s) ++ body s rest
record_bytes-body s rest =
    append_assoc (header s (record_length s))
      (content s.signal_id ++ (content s.unit ++ payload_of s.value.type_ s.value)) rest
    ∙ ap (λ t. header s (record_length s) ++ t)
        (append_assoc (content s.signal_id) (content s.unit ++ payload_of s.value.type_ s.value)
          rest)
    ∙ ap (λ t. header s (record_length s) ++ (content s.signal_id ++ t))
        (append_assoc (content s.unit) (payload_of s.value.type_ s.value) rest)

-- Every sample that was made, its number finite if it is one, is exported to any memory that holds its
-- record, which is at most 136 bytes, and `decode` of what `encode` wrote, of the length that it gave,
-- is that sample.
pub decode-encode :
    (s out : NormalizedVehicleSample) (output : List ℕ)
    → Exportable s
    → record_length s ≤ length output
    → (record_length s ≤ 136)
      × ((written : List ℕ) × (encode s (some output) (length output)
            ≡ (ok, some written, record_length s))
          × (decode (some written) (record_length s) out ≡ (ok, s)))
unfolding encode encode_with
decode-encode s out output (w, f) l =
    let fits : ltb (length output) (record_length s) ≡ false = ground arith in
    let bound : record_length s ≤ 136 = omega (
      arith,
      (IsText-facts w.signal_id).0,
      (IsText-facts w.unit).0,
      (payload-length s.value w.value).1,
    ) in
    let rest = drop (record_length s) output in
    let bytes = ap some (encode_into-record s output w l) in
    (
      bound,
      (
        record_bytes s ++ rest,
        rw (required_capacity-record s (w, f), fits)
            (ap (λ (b : Option (List ℕ)). (ok, b, record_length s)) bytes),
        ap (λ (b : List ℕ). decode (some b) (record_length s) out) (record_bytes-body s rest)
            ∙ decode-body s out rest (w, f),
      ),
    )
