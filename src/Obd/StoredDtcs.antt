-- ===== src/Obd/StoredDtcs.antt =====
-- src/protocol/obd_service.h: the stored trouble codes of a response, against a reading of it as a list of
-- byte pairs.
use esp32_vag_data_server.Prelude.{
  ℕ, suc, ◌+◌, ◌-◌, ◌*◌, ◌/◌, ◌%◌, ◌≤◌, ◌<◌, ◌≡◌, ◌⊎◌, inl, inr, refl, ap, ap₂, sym, ◌∙◌, Bool,
  true, false, not, ◌&&◌, List, [], ◌∷◌, ◌++◌, Option, none, some, arith, length, take, get_or,
  get_or-append, append_assoc, append-nil, take-write_at, length-append, if◌then◌else◌, ◌==◌, leb,
  Bool-cases,
}
use esp32_vag_data_server.Can.{Clock}
use esp32_vag_data_server.Transport.{DiagnosticTransport}
use esp32_vag_data_server.Obd.State.{
  ObdServiceStatus, ObdDtcRecord, Obd, State, RequestKind, finish, empty_dtcs, is_request_active,
}
use esp32_vag_data_server.Obd.Service.{
  parse_dtcs, handle_stored_dtcs, finish_dtcs, handle_kind, handle_response,
}

-- The pairs of a response.
abbrev pub body : List (ℕ × ℕ) → List ℕ
body [] = []
body ((a, b) ∷ pairs) = a ∷ b ∷ body pairs

abbrev pub is_zero : ℕ × ℕ → Bool
is_zero (a, b) = (a == 0) && (b == 0)

-- The trouble codes among them: all but the zero pairs, in order.
abbrev pub codes : List (ℕ × ℕ) → List ObdDtcRecord
codes [] = []
codes ((a, b) ∷ pairs) =
    if is_zero (a, b) then codes pairs else record { first_byte = a; second_byte = b } ∷ codes pairs

length-body : (pairs : List (ℕ × ℕ)) → length (body pairs) ≡ 2 * length pairs
length-body [] = refl
length-body ((a, b) ∷ pairs) = omega (arith, length-body pairs)

-- What the loop gives, with `parsed` records found before.
abbrev collected : List ObdDtcRecord → List ObdDtcRecord → Option (List ObdDtcRecord)
collected parsed found =
    if leb (length parsed + length found) 16 then some (parsed ++ found) else none

collected-append :
    (parsed : List ObdDtcRecord) (r : ObdDtcRecord) (found : List ObdDtcRecord)
    → collected (parsed ++ (r ∷ [])) found ≡ collected parsed (r ∷ found)
collected-append parsed r found =
    ap₂ (λ (n : ℕ) (rs : List ObdDtcRecord). if leb n 16 then some rs else none)
      (omega (arith, length-append {0} parsed (r ∷ []))) (append_assoc parsed (r ∷ []) found)

collected-full :
    (parsed : List ObdDtcRecord) (r : ObdDtcRecord) (found : List ObdDtcRecord)
    → length parsed ≡ 16
    → none ≡ collected parsed (r ∷ found)
collected-full parsed r found e = ground arith

collected-nil :
    (parsed : List ObdDtcRecord) → length parsed ≤ 16 → some parsed ≡ collected parsed []
collected-nil parsed l = ground (arith, append-nil parsed)

choice :
    (zero full : Bool) (f : List ObdDtcRecord → Option (List ObdDtcRecord))
    (x y : List ObdDtcRecord)
    → (if not zero && full then none else f (if zero then x else y))
      ≡ (if zero then f x else if full then none else f y)
choice true full f x y = refl
choice false true f x y = refl
choice false false f x y = refl

-- One turn of the loop.
turn :
    (pairs offset a b : ℕ) (response : List ℕ) (parsed : List ObdDtcRecord)
    → get_or response offset 0 ≡ a
    → get_or response (offset + 1) 0 ≡ b
    → parse_dtcs (suc pairs) offset response parsed ≡ (
        if is_zero (a, b)
        then parse_dtcs pairs (offset + 2) response parsed
        else if length parsed == 16
        then none
        else parse_dtcs pairs
            (offset + 2)
            response
            (parsed ++ (record { first_byte = a; second_byte = b } ∷ [])))
unfolding parse_dtcs
turn pairs offset a b response parsed p q =
    rw (p, q)
      (choice (is_zero (a, b)) (length parsed == 16) (parse_dtcs pairs (offset + 2) response) parsed
        (parsed ++ (record { first_byte = a; second_byte = b } ∷ [])))

parse_dtcs-body :
    (pairs : List (ℕ × ℕ)) (front junk : List ℕ) (parsed : List ObdDtcRecord) (offset : ℕ)
    → offset ≡ length front
    → length parsed ≤ 16
    → parse_dtcs (length pairs) offset (front ++ (body pairs ++ junk)) parsed
      ≡ collected parsed (codes pairs)
unfolding parse_dtcs
parse_dtcs-body [] front junk parsed offset e l = collected-nil parsed l
parse_dtcs-body ((a, b) ∷ pairs) front junk parsed offset e l =
    let r : ObdDtcRecord = record { first_byte = a; second_byte = b } in
    let rest : List ℕ = a ∷ b ∷ (body pairs ++ junk) in
    let next : (ps : List ObdDtcRecord)
        → length ps ≤ 16
        → parse_dtcs (length pairs) (offset + 2) (front ++ rest) ps ≡ collected ps (codes pairs) =
      λ ps m.
        ap (λ bs. parse_dtcs (length pairs) (offset + 2) bs ps)
          (sym (append_assoc front (a ∷ b ∷ []) (body pairs ++ junk)))
        ∙ parse_dtcs-body pairs (front ++ (a ∷ b ∷ [])) junk ps (offset + 2)
            (omega (arith, length-append {0} front (a ∷ b ∷ []))) m in
    turn (length pairs) offset a b (front ++ rest) parsed
      (get_or-append front rest offset 0 0 (omega arith))
      (get_or-append front rest (offset + 1) 1 0 (omega arith))
    ∙ elim (Bool-cases (is_zero (a, b))) [
      | inl z ↦ rw z (next parsed l)
      | inr z ↦ rw z (elim (Bool-cases (length parsed == 16)) [
        | inl f ↦ rw f (collected-full parsed r (codes pairs) (ground arith))
        | inr f ↦ rw f (
            next (parsed ++ (r ∷ [])) (ground (arith, length-append {0} parsed (r ∷ [])))
            ∙ collected-append parsed r (codes pairs))
      ])
    ]

collected-cases :
    (found : List ObdDtcRecord)
    → ((length found ≤ 16) × (collected [] found ≡ some found))
      ⊎ ((16 < length found) × (collected [] found ≡ none))
collected-cases found = ground arith

module _ {T : Type 0} (transport : DiagnosticTransport T) (clock : Clock T) where
  accept_pairs :
      (pairs : List (ℕ × ℕ)) (junk : List ℕ) (u : Obd) (t : T)
      → u.request_kind ≡ RequestKind.stored_dtcs
      → let filled = record u { response = 0x43 ∷ (body pairs ++ junk) } in
        handle_response transport clock (suc (length (body pairs))) filled t
        ≡ finish_dtcs transport clock (collected [] (codes pairs)) filled t
  unfolding handle_response handle_kind handle_stored_dtcs
  accept_pairs pairs junk u t k =
      let even : (suc (length (body pairs)) - 1) % 2 ≡ 0 = omega (arith, length-body pairs) in
      let half : (suc (length (body pairs)) - 1) / 2 ≡ length pairs =
        omega (arith, length-body pairs) in
      let parsed = parse_dtcs-body pairs (0x43 ∷ []) junk [] 1 refl (omega arith) in
      let received : (suc (length (body pairs)) == 0) ≡ false = ground arith in
      rw (k, even, half, parsed, received) refl

  -- The positive response with pairs of bytes, and anything behind it in the buffer, to an active request
  -- for the stored trouble codes ends the request: the service is idle, and the transport has discarded
  -- what it may still hold. With at most sixteen pairs that are not zero the status is ResponseReady, and
  -- the service has their number and those pairs, in order; with more it is InvalidResponse, and the
  -- service has the trouble codes that it had.
  pub handle_response-stored_dtcs :
      (pairs : List (ℕ × ℕ)) (junk : List ℕ) (u : Obd) (t : T)
      → is_request_active u.state ≡ true
      → u.request_kind ≡ RequestKind.stored_dtcs
      → let bytes = 0x43 ∷ body pairs in
        let (status, u', t') =
          handle_response transport clock
            (length bytes)
            (record u { response = bytes ++ junk })
            t in
        (u'.state ≡ State.idle)
        × (u'.status ≡ status)
        × (t' ≡ transport.discard_pending_message t)
        × (((length (codes pairs) ≤ 16)
              × (status ≡ ObdServiceStatus.response_ready)
              × (u'.stored_dtc_count ≡ length (codes pairs))
              × (take (length (codes pairs)) u'.stored_dtcs ≡ codes pairs))
            ⊎ ((16 < length (codes pairs))
                × (status ≡ ObdServiceStatus.invalid_response)
                × (u'.stored_dtc_count ≡ u.stored_dtc_count)
                × (u'.stored_dtcs ≡ u.stored_dtcs)))
  unfolding finish_dtcs finish
  handle_response-stored_dtcs pairs junk u t a k =
      let found = codes pairs in
      elim (collected-cases found) [
        | inl (l, e) ↦
            rw (accept_pairs pairs junk u t k, e, a)
              (
                refl,
                refl,
                refl,
                inl (
                  l,
                  refl,
                  refl,
                  take-write_at empty_dtcs 0 (length found) found (omega arith) l,
                ),
              )
        | inr (g, e) ↦
            rw (accept_pairs pairs junk u t k, e, a) (refl, refl, refl, inr (g, refl, refl, refl))
      ]

  -- A response with half a pair at its end, whatever else it holds, ends the request with
  -- InvalidResponse, and the service has the trouble codes that it had.
  pub handle_response-half_pair :
      (bytes junk : List ℕ) (u : Obd) (t : T)
      → u.request_kind ≡ RequestKind.stored_dtcs
      → length bytes % 2 ≡ 1
      → let response = 0x43 ∷ bytes in
        let (status, u', _) =
          handle_response transport clock
            (length response)
            (record u { response = response ++ junk })
            t in
        (status ≡ ObdServiceStatus.invalid_response)
        × (u'.state ≡ State.idle)
        × (u'.stored_dtc_count ≡ u.stored_dtc_count)
        × (u'.stored_dtcs ≡ u.stored_dtcs)
  unfolding handle_response handle_kind handle_stored_dtcs finish
  handle_response-half_pair bytes junk u t k o =
      let odd : (suc (length bytes) - 1) % 2 ≡ 1 = omega arith in ground (arith, odd)
