-- ===== src/VehicleData/Sequences.antt =====
-- src/core/vehicle_data.h: the byte sequences that `isWellFormedUtf8` takes in one round.
use esp32_vag_data_server.Prelude.{
  ℕ, ◌+◌, ◌-◌, ◌*◌, ◌/◌, ◌%◌, ◌<◌, ◌≤◌, ◌≡◌, ◌≢◌, ◌⊎◌, inl, List, [], ◌∷◌, ◌++◌, some, arith, ltb,
  if◌then◌else◌,
}
use native.Mathlib.Decide.{dec_lt}
use esp32_vag_data_server.VehicleData.Utf8.{lead_form, continuation, sequence_rest}

-- The Unicode scalar values: the code points that are no surrogates.
abbrev pub IsScalar : ℕ → Type 0
IsScalar c = (c < 0xD800) ⊎ ((0xE000 ≤ c) × (c < 0x110000))

-- The UTF-8 form of a code point.
abbrev pub encode : ℕ → List ℕ
encode c =
    if ltb c 0x80
    then c ∷ []
    else if ltb c 0x800
    then (0xC0 + c / 64) ∷ (0x80 + c % 64) ∷ []
    else if ltb c 0x10000
    then (0xE0 + c / 4096) ∷ (0x80 + c / 64 % 64) ∷ (0x80 + c % 64) ∷ []
    else (0xF0 + c / 262144) ∷ (0x80 + c / 4096 % 64) ∷ (0x80 + c / 64 % 64) ∷ (0x80 + c % 64) ∷ []

-- The sequences of two, three and four bytes that the ranges allow, as UTF-8 forms.
encode_two :
    (lead a : ℕ)
    → 0xC2 ≤ lead
    → lead ≤ 0xDF
    → 0x80 ≤ a
    → a ≤ 0xBF
    → IsScalar ((lead - 0xC0) * 64 + (a - 0x80))
      × (encode ((lead - 0xC0) * 64 + (a - 0x80)) ≡ lead ∷ a ∷ [])
encode_two lead a l l' p p' = ground arith

encode_three :
    (lead a b : ℕ)
    → 0xE0 ≤ lead
    → lead ≤ 0xEF
    → 0x80 ≤ a
    → a ≤ 0xBF
    → 0x80 ≤ b
    → b ≤ 0xBF
    → (lead ≢ 0xE0) ⊎ (0xA0 ≤ a)
    → (lead ≢ 0xED) ⊎ (a ≤ 0x9F)
    → IsScalar ((lead - 0xE0) * 4096 + (a - 0x80) * 64 + (b - 0x80))
      × (encode ((lead - 0xE0) * 4096 + (a - 0x80) * 64 + (b - 0x80)) ≡ lead ∷ a ∷ b ∷ [])
encode_three lead a b l l' p p' q q' m n = ground arith

encode_four :
    (lead a b c : ℕ)
    → 0xF0 ≤ lead
    → lead ≤ 0xF4
    → 0x80 ≤ a
    → a ≤ 0xBF
    → 0x80 ≤ b
    → b ≤ 0xBF
    → 0x80 ≤ c
    → c ≤ 0xBF
    → (lead ≢ 0xF0) ⊎ (0x90 ≤ a)
    → (lead ≢ 0xF4) ⊎ (a ≤ 0x8F)
    → IsScalar ((lead - 0xF0) * 262144 + (a - 0x80) * 4096 + (b - 0x80) * 64 + (c - 0x80))
      × (encode ((lead - 0xF0) * 262144 + (a - 0x80) * 4096 + (b - 0x80) * 64 + (c - 0x80))
          ≡ lead ∷ a ∷ b ∷ c ∷ [])
encode_four lead a b c l l' p p' q q' r r' m n = ground arith

abbrev Decoded : ℕ → List ℕ → List ℕ → Type 0
Decoded lead rest rest' = (c : ℕ) × IsScalar c × (encode c ++ rest' ≡ lead ∷ rest)

single :
    (lead : ℕ) (rest : List ℕ) {rest' : List ℕ}
    → lead ≤ 0x7F
    → sequence_rest lead rest ≡ some rest'
    → Decoded lead rest rest'
unfolding sequence_rest
single lead rest l e = (lead, inl (omega arith), ground arith)

double :
    (lead : ℕ) (rest : List ℕ) {rest' : List ℕ}
    → 0x80 ≤ lead
    → lead ≤ 0xDF
    → sequence_rest lead rest ≡ some rest'
    → Decoded lead rest rest'
unfolding sequence_rest lead_form continuation
double lead [] l l' e = ground arith
double lead (a ∷ rest) l l' e =
    let c : ℕ = (lead - 0xC0) * 64 + (a - 0x80) in
    (c, ground (arith, encode_two lead a), ground (arith, encode_two lead a))

triple :
    (lead : ℕ) (rest : List ℕ) {rest' : List ℕ}
    → 0xE0 ≤ lead
    → lead ≤ 0xEF
    → sequence_rest lead rest ≡ some rest'
    → Decoded lead rest rest'
unfolding sequence_rest lead_form continuation
triple lead [] l l' e = ground arith
triple lead (a ∷ []) l l' e = ground arith
triple lead (a ∷ b ∷ rest) l l' e =
    let c : ℕ = (lead - 0xE0) * 4096 + (a - 0x80) * 64 + (b - 0x80) in
    (c, ground (arith, encode_three lead a b), ground (arith, encode_three lead a b))

quadruple :
    (lead : ℕ) (rest : List ℕ) {rest' : List ℕ}
    → 0xF0 ≤ lead
    → sequence_rest lead rest ≡ some rest'
    → Decoded lead rest rest'
unfolding sequence_rest lead_form continuation
quadruple lead [] l e = ground arith
quadruple lead (a ∷ []) l e = ground arith
quadruple lead (a ∷ b ∷ []) l e = ground arith
quadruple lead (a ∷ b ∷ c ∷ rest) l e =
    let code : ℕ = (lead - 0xF0) * 262144 + (a - 0x80) * 4096 + (b - 0x80) * 64 + (c - 0x80) in
    (code, ground (arith, encode_four lead a b c), ground (arith, encode_four lead a b c))

-- A round of the loop is one sequence: of an accepted one, the code point is a scalar value.
pub sequence_rest-Decoded :
    (lead : ℕ) (rest : List ℕ) {rest' : List ℕ}
    → sequence_rest lead rest ≡ some rest'
    → Decoded lead rest rest'
sequence_rest-Decoded lead rest e = elim (dec_lt lead 0x80) [
  | yes l ↦ single lead rest (omega arith) e
  | no g ↦ elim (dec_lt lead 0xE0) [
    | yes l ↦ double lead rest (omega arith) (omega arith) e
    | no h ↦ elim (dec_lt lead 0xF0) [
      | yes l ↦ triple lead rest (omega arith) (omega arith) e
      | no k ↦ quadruple lead rest (omega arith) e
    ]
  ]
]

-- Sequences in the ranges, as the loop takes them.
pub take_two :
    (lead a : ℕ) (rest : List ℕ)
    → 0xC2 ≤ lead
    → lead ≤ 0xDF
    → 0x80 ≤ a
    → a ≤ 0xBF
    → sequence_rest lead (a ∷ rest) ≡ some rest
unfolding sequence_rest lead_form continuation
take_two lead a rest l l' p p' = ground arith

pub take_three :
    (lead a b : ℕ) (rest : List ℕ)
    → 0xE0 ≤ lead
    → lead ≤ 0xEF
    → 0x80 ≤ a
    → a ≤ 0xBF
    → 0x80 ≤ b
    → b ≤ 0xBF
    → (lead ≢ 0xE0) ⊎ (0xA0 ≤ a)
    → (lead ≢ 0xED) ⊎ (a ≤ 0x9F)
    → sequence_rest lead (a ∷ b ∷ rest) ≡ some rest
unfolding sequence_rest lead_form continuation
take_three lead a b rest l l' p p' q q' m n = ground arith

pub take_four :
    (lead a b c : ℕ) (rest : List ℕ)
    → 0xF0 ≤ lead
    → lead ≤ 0xF4
    → 0x80 ≤ a
    → a ≤ 0xBF
    → 0x80 ≤ b
    → b ≤ 0xBF
    → 0x80 ≤ c
    → c ≤ 0xBF
    → (lead ≢ 0xF0) ⊎ (0x90 ≤ a)
    → (lead ≢ 0xF4) ⊎ (a ≤ 0x8F)
    → sequence_rest lead (a ∷ b ∷ c ∷ rest) ≡ some rest
unfolding sequence_rest lead_form continuation
take_four lead a b c rest l l' p p' q q' r r' m n = ground arith

pub take_one : (lead : ℕ) (rest : List ℕ) → lead < 0x80 → sequence_rest lead rest ≡ some rest
unfolding sequence_rest
take_one lead rest l = ground arith
