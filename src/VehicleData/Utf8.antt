-- ===== src/VehicleData/Utf8.antt =====
-- src/core/vehicle_data.h: `BoundedText::isWellFormedUtf8`. The bytes from `index` on are a list, and what is
-- left of `length` is its length.
use esp32_vag_data_server.Prelude.{
  ℕ, zero, suc, ◌-◌, ◌≤◌, ◌≡◌, Bool, true, false, ◌&&◌, ◌||◌, List, [], ◌∷◌, Option, none, some,
  arith, leb, ltb, ◌==◌, if◌then◌else◌, length, get_or, drop, length-drop,
}

-- `continuationCount`, `secondMin` and `secondMax`.
pub record LeadForm : Type 0 where
  pub continuation_count : ℕ
  pub second_min : ℕ
  pub second_max : ℕ

-- What a lead byte above 0x7F asks for; nothing if it is none.
unfoldable pub lead_form : ℕ → Option LeadForm
lead_form lead =
    if leb 0xC2 lead && leb lead 0xDF
    then some (record { continuation_count = 1; second_min = 0x80; second_max = 0xBF })
    else if leb 0xE0 lead && leb lead 0xEF
    then some (record {
      continuation_count = 2;
      second_min = if lead == 0xE0 then 0xA0 else 0x80;
      second_max = if lead == 0xED then 0x9F else 0xBF;
    })
    else if leb 0xF0 lead && leb lead 0xF4
    then some (record {
      continuation_count = 3;
      second_min = if lead == 0xF0 then 0x90 else 0x80;
      second_max = if lead == 0xF4 then 0x8F else 0xBF;
    })
    else none

-- The inner loop, with `parts` bytes to go: what is left behind them.
unfoldable pub continuation : ℕ → List ℕ → Option (List ℕ)
continuation zero bytes = some bytes
continuation (suc parts) bytes =
    let rest = continuation parts (drop 1 bytes) in
    if ltb (get_or bytes 0 0) 0x80 || ltb 0xBF (get_or bytes 0 0) then none else rest

-- One round of the outer loop: what is left behind the sequence that `lead` begins.
unfoldable pub sequence_rest : ℕ → List ℕ → Option (List ℕ)
unfolding lead_form continuation
sequence_rest lead rest = if leb lead 0x7F then some rest else elim (lead_form lead) [
  | none ↦ none
  | some form ↦
      if ltb (length rest) form.continuation_count
        || ltb (get_or rest 0 0) form.second_min
        || ltb form.second_max (get_or rest 0 0)
      then none
      else continuation (form.continuation_count - 1) (drop 1 rest)
]

-- The outer loop, with fuel.
unfoldable pub well_formed_loop : ℕ → List ℕ → Bool
well_formed_loop fuel [] = true
well_formed_loop zero (lead ∷ rest) = false
well_formed_loop (suc fuel) (lead ∷ rest) = elim (sequence_rest lead rest) [
  | none ↦ false
  | some rest' ↦ well_formed_loop fuel rest'
]

-- `isWellFormedUtf8`. Each round takes a byte at least, so that `length` rounds are enough.
unfoldable pub is_well_formed_utf8 : List ℕ → Bool
is_well_formed_utf8 bytes = well_formed_loop (length bytes) bytes

continuation-le :
    (parts : ℕ) (bytes : List ℕ) {rest : List ℕ}
    → continuation parts bytes ≡ some rest
    → length rest ≤ length bytes
unfolding continuation
continuation-le zero bytes e = ground arith
continuation-le (suc parts) bytes {rest} e =
    ground (arith, continuation-le parts (drop 1 bytes) {rest = rest}, length-drop {0} 1 bytes)

-- A round leaves no more than what follows the lead byte.
pub sequence_rest-le :
    (lead : ℕ) (rest : List ℕ) {rest' : List ℕ}
    → sequence_rest lead rest ≡ some rest'
    → length rest' ≤ length rest
unfolding sequence_rest lead_form
sequence_rest-le lead rest {rest'} e = ground (
  arith,
  continuation-le 0 (drop 1 rest) {rest = rest'},
  continuation-le 1 (drop 1 rest) {rest = rest'},
  continuation-le 2 (drop 1 rest) {rest = rest'},
  length-drop {0} 1 rest,
)
