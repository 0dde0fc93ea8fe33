-- ===== src/Uds/Reports.antt =====
-- src/protocol/uds_service.h: `handleDtcResponse` against a reading of the report as a list of
-- four-byte records.
use esp32_vag_data_server.Prelude.{
  ℕ, suc, ◌+◌, ◌-◌, ◌*◌, ◌/◌, ◌%◌, ◌≤◌, ◌≡◌, ◌≢◌, refl, ap, ap₂, sym, ◌∙◌, List, [], ◌∷◌, ◌++◌, map,
  arith, length, take, get_or, get_or-append, append_assoc, take-write_at, write_at, length-append,
  length-map,
}
use esp32_vag_data_server.Can.{Clock}
use esp32_vag_data_server.Transport.{DiagnosticTransport}
use esp32_vag_data_server.Uds.State.{
  UdsServiceStatus, UdsDtcRecord, Uds, State, report_dtc_by_status_mask, finish, empty_records,
}
use esp32_vag_data_server.Uds.Service.{
  read_records, handle_dtc_response, commit_report, handle_response,
}

-- A trouble code's three bytes and its status, as a vehicle reports them.
abbrev pub Dtc : Type 0
Dtc = ℕ × ℕ × ℕ × ℕ

abbrev pub as_record : Dtc → UdsDtcRecord
as_record (a, b, c, status) = record { dtc = a ∷ b ∷ c ∷ []; status = status }

abbrev pub body : List Dtc → List ℕ
body [] = []
body ((a, b, c, status) ∷ dtcs) = a ∷ b ∷ c ∷ status ∷ body dtcs

length-body : (dtcs : List Dtc) → length (body dtcs) ≡ 4 * length dtcs
length-body [] = refl
length-body ((a, b, c, status) ∷ dtcs) = omega (arith, length-body dtcs)

read_records-body :
    (dtcs : List Dtc) (front junk : List ℕ) (offset : ℕ)
    → offset ≡ length front
    → read_records (length dtcs) offset (front ++ (body dtcs ++ junk)) ≡ map as_record dtcs
unfolding read_records
read_records-body [] front junk offset e = refl
read_records-body ((a, b, c, s) ∷ dtcs) front junk offset e =
    ap₂ ◌∷◌ (λ i. record { dtc = first i ∷ second i ∷ third i ∷ []; status = fourth i })
      (ap (read_records (length dtcs) (offset + 4))
          (sym (append_assoc front (a ∷ b ∷ c ∷ s ∷ []) (body dtcs ++ junk)))
        ∙ read_records-body dtcs (front ++ (a ∷ b ∷ c ∷ s ∷ [])) junk (offset + 4)
            (omega (arith, length-append {0} front (a ∷ b ∷ c ∷ s ∷ []))))
  where
    rest : List ℕ
    rest = a ∷ b ∷ c ∷ s ∷ (body dtcs ++ junk)

    first : get_or (front ++ rest) offset 0 ≡ a
    first = get_or-append front rest offset 0 0 (omega arith)

    second : get_or (front ++ rest) (offset + 1) 0 ≡ b
    second = get_or-append front rest (offset + 1) 1 0 (omega arith)

    third : get_or (front ++ rest) (offset + 2) 0 ≡ c
    third = get_or-append front rest (offset + 2) 2 0 (omega arith)

    fourth : get_or (front ++ rest) (offset + 3) 0 ≡ s
    fourth = get_or-append front rest (offset + 3) 3 0 (omega arith)

module _ {T : Type 0} (transport : DiagnosticTransport T) (clock : Clock T) where
  accept_report :
      (dtcs : List Dtc) (mask : ℕ) (junk : List ℕ) (u : Uds) (t : T)
      → u.request_kind ≡ report_dtc_by_status_mask
      → length dtcs ≤ 15
      → let filled = record u { response = 0x59 ∷ 0x02 ∷ mask ∷ (body dtcs ++ junk) } in
        handle_response transport clock (suc (suc (suc (length (body dtcs))))) filled t
        ≡ finish transport UdsServiceStatus.response_ready (commit_report (length dtcs) filled) t
  unfolding handle_response handle_dtc_response
  accept_report dtcs mask junk u t k l =
      let count : (suc (suc (suc (length (body dtcs)))) - 3) / 4 ≡ length dtcs =
        omega (arith, length-body dtcs) in
      ground (arith, length-body dtcs, count)

  -- The positive response of a vehicle that reports up to fifteen trouble codes, with anything behind
  -- it in the buffer, ends the request with ResponseReady; the service then has the mask, the number
  -- of codes, and the codes in order with their status.
  pub handle_response-report :
      (dtcs : List Dtc) (mask : ℕ) (junk : List ℕ) (u : Uds) (t : T)
      → u.request_kind ≡ report_dtc_by_status_mask
      → length dtcs ≤ 15
      → let bytes = 0x59 ∷ 0x02 ∷ mask ∷ body dtcs in
        let (status, u', _) =
          handle_response transport clock
            (length bytes)
            (record u { response = bytes ++ junk })
            t in
        (status ≡ UdsServiceStatus.response_ready)
        × (u'.state ≡ State.idle)
        × (u'.dtc_record_count ≡ length dtcs)
        × (u'.dtc_status_availability_mask ≡ mask)
        × (take (length dtcs) u'.dtc_records ≡ map as_record dtcs)
  unfolding finish
  handle_response-report dtcs mask junk u t k l = rw (accept_report dtcs mask junk u t k l) (
    refl,
    refl,
    refl,
    refl,
    ap (λ rs. take (length dtcs) (write_at empty_records 0 rs)) codes
        ∙ take-write_at empty_records 0 (length dtcs) (map as_record dtcs)
            (omega (arith, length-map {0, 0} dtcs as_record)) l,
  )
    where
      codes :
          read_records (length dtcs) 3 (0x59 ∷ 0x02 ∷ mask ∷ (body dtcs ++ junk))
          ≡ map as_record dtcs
      codes = read_records-body dtcs (0x59 ∷ 0x02 ∷ mask ∷ []) junk 3 refl

  -- A response whose body does not consist of whole records ends the request with InvalidResponse, and
  -- the service has the records, their number and the mask that it had.
  pub handle_response-ragged :
      (bytes : List ℕ) (mask : ℕ) (junk : List ℕ) (u : Uds) (t : T)
      → u.request_kind ≡ report_dtc_by_status_mask
      → length bytes % 4 ≢ 0
      → let size = length bytes + 3 in
        let (status, u', _) =
          handle_response transport clock size
            (record u { response = 0x59 ∷ 0x02 ∷ mask ∷ (bytes ++ junk) })
            t in
        (status ≡ UdsServiceStatus.invalid_response)
        × (u'.state ≡ State.idle)
        × (u'.dtc_records ≡ u.dtc_records)
        × (u'.dtc_record_count ≡ u.dtc_record_count)
        × (u'.dtc_status_availability_mask ≡ u.dtc_status_availability_mask)
  unfolding handle_response handle_dtc_response finish
  handle_response-ragged bytes mask junk u t k r = ground arith
