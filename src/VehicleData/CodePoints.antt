-- ===== src/VehicleData/CodePoints.antt =====
-- src/core/vehicle_data.h: `isWellFormedUtf8` against an encoder of Unicode scalar values.
use esp32_vag_data_server.Prelude.{
  ℕ, zero, suc, ◌+◌, ◌/◌, ◌%◌, ◌≤◌, ◌≡◌, ◌⊎◌, inl, inr, refl, sym, ap, ◌∙◌, true, false, List, [],
  ◌∷◌, ◌++◌, Option, none, some, All, arith, ltb, length, length-append, Bool-cases,
}
use native.Mathlib.Decide.{dec_lt}
use esp32_vag_data_server.VehicleData.Utf8.{sequence_rest, well_formed_loop, is_well_formed_utf8}
use esp32_vag_data_server.VehicleData.Sequences.{
  IsScalar, encode, sequence_rest-Decoded, take_four, take_one, take_three, take_two,
}

abbrev pub encode_all : List ℕ → List ℕ
encode_all [] = []
encode_all (c ∷ cs) = encode c ++ encode_all cs

abbrev pub Encoded : List ℕ → Type 0
Encoded bytes = (cs : List ℕ) × All IsScalar cs × (bytes ≡ encode_all cs)

-- One more accepted round in front of a decoded rest.
round-Encoded :
    (lead : ℕ) (rest rest' : List ℕ)
    → sequence_rest lead rest ≡ some rest'
    → Encoded rest'
    → Encoded (lead ∷ rest)
round-Encoded lead rest rest' q (cs, scalars, e) =
    let (c, scalar, f) = sequence_rest-Decoded lead rest q in
    (c ∷ cs, (scalar, scalars), sym f ∙ ap (λ t. encode c ++ t) e)

loop-Encoded :
    (fuel lead : ℕ) (rest : List ℕ) (r : Option (List ℕ))
    → ((bytes : List ℕ) → well_formed_loop fuel bytes ≡ true → Encoded bytes)
    → sequence_rest lead rest ≡ r
    → elim r [ none ↦ false | some rest' ↦ well_formed_loop fuel rest' ] ≡ true
    → Encoded (lead ∷ rest)
loop-Encoded fuel lead rest none ih q h = cc
loop-Encoded fuel lead rest (some rest') ih q h = round-Encoded lead rest rest' q (ih rest' h)

well_formed_loop-Encoded :
    (fuel : ℕ) (bytes : List ℕ) → well_formed_loop fuel bytes ≡ true → Encoded bytes
unfolding well_formed_loop
well_formed_loop-Encoded fuel [] e = ([], tt, refl)
well_formed_loop-Encoded zero (lead ∷ rest) e = cc
well_formed_loop-Encoded (suc fuel) (lead ∷ rest) e =
    loop-Encoded fuel lead rest (sequence_rest lead rest) (well_formed_loop-Encoded fuel) refl e

loop_step :
    (fuel lead : ℕ) (rest : List ℕ) {rest' : List ℕ}
    → sequence_rest lead rest ≡ some rest'
    → well_formed_loop (suc fuel) (lead ∷ rest) ≡ well_formed_loop fuel rest'
unfolding well_formed_loop
loop_step fuel lead rest e = rw (e, well_formed_loop)

-- A round takes the UTF-8 form of a scalar value, whatever follows it.
encode-round :
    (fuel c : ℕ) (rest : List ℕ)
    → IsScalar c
    → well_formed_loop (suc fuel) (encode c ++ rest) ≡ well_formed_loop fuel rest
encode-round fuel c rest s = elim (dec_lt c 0x80) [
  | yes l ↦
      let small : ltb c 0x80 ≡ true = ground arith in
      rw small (loop_step fuel c rest (take_one c rest l))
  | no g ↦ elim (dec_lt c 0x800) [
    | yes l ↦
        let big : ltb c 0x80 ≡ false = ground arith in
        let small : ltb c 0x800 ≡ true = ground arith in
        rw (big, small)
          (loop_step fuel _ _ (
            take_two (0xC0 + c / 64) (0x80 + c % 64) rest (omega arith) (omega arith) (omega arith)
              (omega arith)))
    | no h ↦ elim (dec_lt c 0x10000) [
      | yes l ↦
          let big : ltb c 0x80 ≡ false = ground arith in
          let bigger : ltb c 0x800 ≡ false = ground arith in
          let small : ltb c 0x10000 ≡ true = ground arith in
          rw (big, bigger, small)
            (loop_step fuel _ _ (
              take_three (0xE0 + c / 4096) (0x80 + c / 64 % 64) (0x80 + c % 64) rest (omega arith)
                (omega arith) (omega arith) (omega arith) (omega arith) (omega arith) (ground arith)
                (ground arith)))
      | no k ↦
          let big : ltb c 0x80 ≡ false = ground arith in
          let bigger : ltb c 0x800 ≡ false = ground arith in
          let biggest : ltb c 0x10000 ≡ false = ground arith in
          rw (big, bigger, biggest)
            (loop_step fuel _ _ (
              take_four (0xF0 + c / 262144) (0x80 + c / 4096 % 64) (0x80 + c / 64 % 64)
                (0x80 + c % 64) rest (omega arith) (omega arith) (omega arith) (omega arith)
                (omega arith) (omega arith) (omega arith) (omega arith) (ground arith)
                (ground arith)))
    ]
  ]
]

encode_all-loop :
    (cs : List ℕ) (fuel : ℕ)
    → All IsScalar cs
    → length cs ≤ fuel
    → well_formed_loop fuel (encode_all cs) ≡ true
encode_all-loop [] fuel s l = unfold well_formed_loop in refl
encode_all-loop (c ∷ cs) zero s l = absurd (omega arith)
encode_all-loop (c ∷ cs) (suc fuel) s l =
    encode-round fuel c (encode_all cs) s.0 ∙ encode_all-loop cs fuel s.1 (omega arith)

length-encode_all : (cs : List ℕ) → length cs ≤ length (encode_all cs)
length-encode_all [] = omega arith
length-encode_all (c ∷ cs) =
    let some_byte : 1 ≤ length (encode c) = ground arith in
    omega (arith, some_byte, length-append {0} (encode c) (encode_all cs), length-encode_all cs)

-- The check, for every list of bytes: it accepts exactly the UTF-8 forms of lists of Unicode scalar
-- values. No overlong form, no surrogate, nothing above 0x10FFFF and no sequence cut short passes.
pub is_well_formed_utf8-Encoded :
    (bytes : List ℕ)
    → ((is_well_formed_utf8 bytes ≡ true) × Encoded bytes)
      ⊎ ((is_well_formed_utf8 bytes ≡ false) × ¬ Encoded bytes)
unfolding is_well_formed_utf8
is_well_formed_utf8-Encoded bytes = elim (Bool-cases (well_formed_loop (length bytes) bytes)) [
  | inl e ↦ inl (e, well_formed_loop-Encoded (length bytes) bytes e)
  | inr e ↦ inr (
    e,
    λ (cs, scalars, q).
        let accepted : well_formed_loop (length bytes) bytes ≡ true =
          rw q (encode_all-loop cs (length (encode_all cs)) scalars (length-encode_all cs)) in
        cc (accepted, e),
  )
]
