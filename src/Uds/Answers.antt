-- ===== src/Uds/Answers.antt =====
-- src/protocol/uds_service.h: `handleResponse` for a data identifier, against a reading of the response
-- as a list of bytes.
use esp32_vag_data_server.Prelude.{
  ℕ, suc, ◌+◌, ◌-◌, ◌*◌, ◌≤◌, ◌≡◌, refl, Bool, true, false, not, List, [], ◌∷◌, ◌++◌, arith, length,
  take, take-append, take-write_at, write_at, if◌then◌else◌, ◌==◌, leb,
}
use esp32_vag_data_server.Can.{Clock}
use esp32_vag_data_server.Transport.{DiagnosticTransport}
use esp32_vag_data_server.Uds.State.{
  UdsServiceStatus, Uds, read_data_by_identifier, is_request_active, finish, set_status,
  begin_response_wait,
}
use esp32_vag_data_server.Uds.Service.{
  handle_response, handle_negative_response, handle_data_response,
}

-- The end of a negative response, behind the byte 0x7F.
abbrev pub negative_answer : ℕ → ℕ → List ℕ → UdsServiceStatus
negative_answer max pending (service ∷ nrc ∷ []) =
    if not (service == 0x22)
    then UdsServiceStatus.unexpected_response
    else if not (nrc == 0x78)
    then UdsServiceStatus.negative_response
    else if leb max pending
    then UdsServiceStatus.pending_limit_exceeded
    else UdsServiceStatus.response_pending
negative_answer max pending _ = UdsServiceStatus.invalid_response

-- The end of a positive response, behind the byte 0x62.
abbrev pub positive_answer : ℕ → List ℕ → UdsServiceStatus
positive_answer did (hi ∷ lo ∷ []) =
    if hi * 256 + lo == did
    then UdsServiceStatus.invalid_response
    else UdsServiceStatus.unexpected_response
positive_answer did (hi ∷ lo ∷ b ∷ bytes) =
    if hi * 256 + lo == did
    then UdsServiceStatus.response_ready
    else UdsServiceStatus.unexpected_response
positive_answer did _ = UdsServiceStatus.invalid_response

-- What a response means to a request for the data identifier `did`, with `pending` of at most `max`
-- "response pending" answers seen.
abbrev pub answer : ℕ → ℕ → ℕ → List ℕ → UdsServiceStatus
answer did max pending [] = UdsServiceStatus.unexpected_response
answer did max pending (sid ∷ rest) =
    if sid == 0x7F
    then negative_answer max pending rest
    else if sid == 0x62
    then positive_answer did rest
    else UdsServiceStatus.unexpected_response

-- The answers behind which the service still waits for another.
abbrev pub is_waiting : UdsServiceStatus → Bool
is_waiting UdsServiceStatus.unexpected_response = true
is_waiting UdsServiceStatus.response_pending = true
is_waiting _ = false

module _ {T : Type 0} (transport : DiagnosticTransport T) (clock : Clock T) where
  -- A response of up to 64 bytes to a request for a data identifier, with anything behind it in the
  -- buffer, has the status that its bytes call for, and the request stays active exactly behind an
  -- unexpected response or a "response pending".
  pub handle_response-answer :
      (bytes junk : List ℕ) (u : Uds) (t : T)
      → u.request_kind ≡ read_data_by_identifier
      → is_request_active u.state ≡ true
      → length bytes ≤ 64
      → let (status, u', _) =
          handle_response transport clock
            (length bytes)
            (record u { response = bytes ++ junk })
            t in
        (status
          ≡ answer u.requested_did u.config.max_pending_responses u.pending_response_count bytes)
        × (u'.status ≡ status)
        × (is_request_active u'.state ≡ is_waiting status)
  unfolding handle_response handle_negative_response handle_data_response finish set_status
      begin_response_wait
  handle_response-answer [] junk u t k a l = ground arith
  handle_response-answer (x ∷ []) junk u t k a l = ground arith
  handle_response-answer (x ∷ y ∷ []) junk u t k a l = ground arith
  handle_response-answer (x ∷ y ∷ z ∷ []) junk u t k a l = ground arith
  handle_response-answer (x ∷ y ∷ z ∷ d ∷ bytes) junk u t k a l = ground arith

  -- A positive response of at most 64 bytes for the requested identifier, with data behind it, ends with
  -- ResponseReady and delivers those data: their number, and the bytes in the front of the result
  -- buffer of 64.
  pub handle_response-data :
      (hi lo b : ℕ) (bytes junk : List ℕ) (u : Uds) (t : T)
      → u.request_kind ≡ read_data_by_identifier
      → hi * 256 + lo ≡ u.requested_did
      → length bytes ≤ 60
      → length u.raw_data ≡ 64
      → let response = 0x62 ∷ hi ∷ lo ∷ b ∷ bytes in
        let (status, u', _) =
          handle_response transport clock
            (length response)
            (record u { response = response ++ junk })
            t in
        (status ≡ UdsServiceStatus.response_ready)
        × (u'.raw_data_length ≡ suc (length bytes))
        × (take (suc (length bytes)) u'.raw_data ≡ b ∷ bytes)
  unfolding handle_response handle_data_response finish
  handle_response-data hi lo b bytes junk u t k d l m =
      let taken : take (suc (length bytes)) (b ∷ (bytes ++ junk)) ≡ b ∷ bytes =
        take-append (b ∷ bytes) junk (suc (length bytes)) refl in
      let stored : take (suc (length bytes)) (write_at u.raw_data 0 (b ∷ bytes)) ≡ b ∷ bytes =
        take-write_at u.raw_data 0 (suc (length bytes)) (b ∷ bytes) (omega arith) (omega arith) in
      let size : suc (suc (suc (suc (length bytes)))) - 3 ≡ suc (length bytes) = omega arith in
      ground (arith, taken, stored, size)
