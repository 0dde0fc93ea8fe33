-- ===== src/VehicleData/Text.antt =====
-- src/core/vehicle_data.h: `BoundedText`. A `const char*` is the memory behind it, as a list that is
-- nothing for a null pointer.
use esp32_vag_data_server.Prelude.{
  ℕ, suc, Bool, true, false, not, ◌&&◌, ◌||◌, List, [], ◌∷◌, Option, none, some, ltb, ◌==◌,
  if◌then◌else◌, take, set, replicate, copy_n,
}
use esp32_vag_data_server.VehicleData.Utf8.{is_well_formed_utf8}

-- `std::strlen`: the bytes before the first NUL. Behind memory without one the code is not defined.
unfoldable pub strlen : List ℕ → ℕ
strlen [] = 0
strlen (b ∷ bytes) = if b == 0 then 0 else suc (strlen bytes)

-- `data_` and `length_`. The array has one byte more than the capacity.
pub record BoundedText : Type 0 where
  pub data_ : List ℕ
  pub length_ : ℕ

-- The default constructor.
unfoldable pub empty_text : ℕ → BoundedText
empty_text capacity = record { data_ = replicate (suc capacity) 0; length_ = 0 }

-- `clear`.
unfoldable pub clear : BoundedText → BoundedText
clear text = record { data_ = set text.data_ 0 0; length_ = 0 }

-- `assign`.
unfoldable pub assign : ℕ → Option (List ℕ) → BoundedText → Bool × BoundedText
unfolding clear
assign capacity none text = (false, clear text)
assign capacity (some value) text =
    let size = strlen value in
    if ltb capacity size || not (is_well_formed_utf8 (take size value))
    then (false, clear text)
    else (true, record { data_ = set (copy_n value size text.data_ 0) size 0; length_ = size })

-- The constructor from a string.
unfoldable pub text_from : ℕ → Option (List ℕ) → BoundedText
text_from capacity value = (assign capacity value (empty_text capacity)).1

-- The bytes of a text, as far as its length goes.
abbrev pub content : BoundedText → List ℕ
content text = take text.length_ text.data_

-- `std::memcmp` of two memories of one length.
unfoldable pub same_bytes : List ℕ → List ℕ → Bool
same_bytes [] [] = true
same_bytes [] (b ∷ bs) = false
same_bytes (a ∷ as_) [] = false
same_bytes (a ∷ as_) (b ∷ bs) = (a == b) && same_bytes as_ bs

-- `operator==`.
unfoldable pub text_eq : BoundedText → BoundedText → Bool
text_eq a b = (a.length_ == b.length_) && same_bytes (content a) (take a.length_ b.data_)
