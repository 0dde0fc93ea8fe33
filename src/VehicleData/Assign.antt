-- ===== src/VehicleData/Assign.antt =====
-- src/core/vehicle_data.h: what `BoundedText::assign` leaves.
use esp32_vag_data_server.Prelude.{
  ℕ, suc, ◌<◌, ◌≤◌, ◌≡◌, ◌≢◌, ◌⊎◌, inl, inr, refl, sym, ap, ap₂, ◌∙◌, Bool, true, false, List, [],
  ◌∷◌, ◌++◌, some, arith, ltb, ◌==◌, ==_refl, Bool-cases, length, take, drop, set, replicate,
  write_at, All, length-set, length-take, length-replicate, length-append, take-append, length-drop,
}
use native.Mathlib.Decide.{dec_lt}
use esp32_vag_data_server.VehicleData.Utf8.{is_well_formed_utf8}
use esp32_vag_data_server.VehicleData.Text.{
  BoundedText, strlen, empty_text, clear, assign, content, same_bytes, text_eq,
}

abbrev pub NonZero : ℕ → Type 0
NonZero b = b ≢ 0

pub strlen-le : (bytes : List ℕ) → strlen bytes ≤ length bytes
unfolding strlen
strlen-le [] = omega arith
strlen-le (b ∷ bytes) = ground (arith, strlen-le bytes)

-- A string of bytes that are not zero, and its end.
pub strlen-append :
    (bytes rest : List ℕ) → All NonZero bytes → strlen (bytes ++ (0 ∷ rest)) ≡ length bytes
unfolding strlen
strlen-append [] rest n = refl
strlen-append (b ∷ bytes) rest n = ground (arith, strlen-append bytes rest n.1)

strlen-NonZero : (bytes : List ℕ) → All NonZero (take (strlen bytes) bytes)
unfolding strlen
strlen-NonZero [] = tt
strlen-NonZero (b ∷ bytes) = elim (Bool-cases (b == 0)) [
  | inl e ↦ rw e tt
  | inr e ↦ rw e (ground arith, strlen-NonZero bytes)
]

-- A string and its end, written to the front of a buffer.
stored :
    (buffer source : List ℕ)
    → length source < length buffer
    → set (write_at buffer 0 source) (length source) 0
      ≡ source ++ (0 ∷ drop (suc (length source)) buffer)
stored [] source l = absurd (omega arith)
stored (d ∷ buffer) [] l = refl
stored (d ∷ buffer) (s ∷ source) l = ap (λ t. s ∷ t) (stored buffer source (omega arith))

-- The bytes of an accepted string, in a text with the array `buffer`.
abbrev pub written : List ℕ → List ℕ → BoundedText
written bytes buffer = record {
  data_ = bytes ++ (0 ∷ drop (suc (length bytes)) buffer);
  length_ = length bytes;
}

-- `assign` of a string, by its two outcomes.
pub assign-cases :
    (capacity : ℕ) (value : List ℕ) (text : BoundedText)
    → length text.data_ ≡ suc capacity
    → let bytes = take (strlen value) value in
      ((strlen value ≤ capacity)
        × (is_well_formed_utf8 bytes ≡ true)
        × (assign capacity (some value) text ≡ (true, written bytes text.data_)))
      ⊎ (((capacity < strlen value) ⊎ (is_well_formed_utf8 bytes ≡ false))
          × (assign capacity (some value) text ≡ (false, clear text)))
unfolding assign
assign-cases capacity value text l =
    let bytes : List ℕ = take (strlen value) value in
    let size : length bytes ≡ strlen value =
      omega (arith, length-take {0} (strlen value) value, strlen-le value) in
    elim (dec_lt capacity (strlen value)) [
      | yes big ↦
          let test : ltb capacity (strlen value) ≡ true = ground arith in
          inr (inl big, rw test refl)
      | no fits ↦
          let test : ltb capacity (strlen value) ≡ false = ground arith in
          elim (Bool-cases (is_well_formed_utf8 bytes)) [
            | inl formed ↦
                let array = stored text.data_ bytes (omega (arith, size, l)) in
                inl (
                  omega arith,
                  formed,
                  rw (test, formed)
                      (ap₂ (λ (d : List ℕ) (n : ℕ). (true, record { data_ = d; length_ = n }))
                        (ap (λ (n : ℕ). set (write_at text.data_ 0 bytes) n 0) (sym size) ∙ array)
                        (sym size)),
                )
            | inr malformed ↦ inr (inr malformed, rw (test, malformed) refl)
          ]
    ]

length-written :
    (bytes buffer : List ℕ)
    → length bytes < length buffer
    → length (written bytes buffer).data_ ≡ length buffer
length-written bytes buffer l = omega (
  arith,
  length-append {0} bytes (0 ∷ drop (suc (length bytes)) buffer),
  length-drop {0} (suc (length bytes)) buffer,
)

strlen-cleared : (buffer : List ℕ) → strlen (set buffer 0 0) ≡ 0
unfolding strlen
strlen-cleared [] = refl
strlen-cleared (b ∷ buffer) = refl

-- `assign`, on every string and every text: either the string fits and is well-formed UTF-8, and then it
-- is what `c_str` and `size` give; or it is too long or malformed, and the text is empty. The array keeps
-- its length.
pub assign_lem :
    (capacity : ℕ) (value : List ℕ) (text : BoundedText)
    → length text.data_ ≡ suc capacity
    → let (accepted, text') = assign capacity (some value) text in
      let bytes = take (strlen value) value in
      (length text'.data_ ≡ suc capacity)
      × (strlen text'.data_ ≡ text'.length_)
      × (((accepted ≡ true)
            × (strlen value ≤ capacity)
            × (is_well_formed_utf8 bytes ≡ true)
            × (content text' ≡ bytes))
          ⊎ ((accepted ≡ false)
              × ((capacity < strlen value) ⊎ (is_well_formed_utf8 bytes ≡ false))
              × (content text' ≡ [])))
unfolding clear
assign_lem capacity value text l =
    let bytes : List ℕ = take (strlen value) value in
    let size : length bytes ≡ strlen value =
      omega (arith, length-take {0} (strlen value) value, strlen-le value) in
    elim (assign-cases capacity value text l) [
      | inl (fits, formed, e) ↦ rw e (
        length-written bytes text.data_ (omega (arith, size, l)) ∙ l,
        strlen-append bytes (drop (suc (length bytes)) text.data_) (strlen-NonZero value),
        inl (
          refl,
          fits,
          formed,
          take-append bytes (0 ∷ drop (suc (length bytes)) text.data_) (length bytes) refl,
        ),
      )
      | inr (why, e) ↦
          rw e (length-set {0} text.data_ 0 0 ∙ l, strlen-cleared text.data_, inr (refl, why, refl))
    ]

-- A text as `assign` makes it from a default one.
unfoldable pub text_of : ℕ → List ℕ → BoundedText
text_of capacity bytes = written bytes (replicate (suc capacity) 0)

-- The texts that a default text can become by one `assign`.
pub record IsText (capacity : ℕ) (text : BoundedText) : Type 0 where
  pub bytes : List ℕ
  pub made : text ≡ text_of capacity bytes
  pub size : length bytes ≤ capacity
  pub formed : is_well_formed_utf8 bytes ≡ true
  pub non_zero : All NonZero bytes

pub content-text_of : (capacity : ℕ) (bytes : List ℕ) → content (text_of capacity bytes) ≡ bytes
unfolding text_of
content-text_of capacity bytes =
    take-append bytes (0 ∷ drop (suc (length bytes)) (replicate (suc capacity) 0)) (length bytes)
      refl

-- `assign` of memory that holds well-formed bytes and their end.
pub assign-text_of :
    (capacity : ℕ) (bytes rest : List ℕ)
    → length bytes ≤ capacity
    → is_well_formed_utf8 bytes ≡ true
    → All NonZero bytes
    → assign capacity (some (bytes ++ (0 ∷ rest))) (empty_text capacity)
      ≡ (true, text_of capacity bytes)
unfolding empty_text text_of
assign-text_of capacity bytes rest l w n =
    let size : strlen (bytes ++ (0 ∷ rest)) ≡ length bytes = strlen-append bytes rest n in
    let front : take (strlen (bytes ++ (0 ∷ rest))) (bytes ++ (0 ∷ rest)) ≡ bytes =
      take-append bytes (0 ∷ rest) (strlen (bytes ++ (0 ∷ rest))) size in
    elim (assign-cases capacity (bytes ++ (0 ∷ rest)) (empty_text capacity)
      (length-replicate {0} (suc capacity) 0)) [
        | inl (fits, formed, e) ↦
            e ∙ ap (λ bs. (true, written bs (replicate (suc capacity) 0))) front
        | inr (inl big, e) ↦ absurd (omega (arith, size, l, big))
        | inr (inr malformed, e) ↦ absurd (cc (malformed, front, w))
      ]

-- What an accepted `assign` to a default text leaves is a text.
pub assign-IsText :
    (capacity : ℕ) (value : List ℕ)
    → (assign capacity (some value) (empty_text capacity)).0 ≡ true
    → IsText capacity (assign capacity (some value) (empty_text capacity)).1
unfolding empty_text text_of
assign-IsText capacity value a =
    let size : length (take (strlen value) value) ≡ strlen value =
      omega (arith, length-take {0} (strlen value) value, strlen-le value) in
    elim (assign-cases capacity value (empty_text capacity)
      (length-replicate {0} (suc capacity) 0)) [
        | inl (fits, formed, e) ↦ rw e (record {
          bytes = take (strlen value) value;
          made = refl;
          size = omega (arith, size, fits);
          formed = formed;
          non_zero = strlen-NonZero value;
        })
        | inr (why, e) ↦ absurd (cc (ap (λ (r : Bool × BoundedText). r.0) e, a))
      ]

pub same_bytes_refl : (xs : List ℕ) → same_bytes xs xs ≡ true
unfolding same_bytes
same_bytes_refl [] = refl
same_bytes_refl (x ∷ xs) = rw (==_refl x, same_bytes_refl xs)

pub same_bytes-eq : (xs ys : List ℕ) → same_bytes xs ys ≡ true → xs ≡ ys
unfolding same_bytes
same_bytes-eq [] [] e = refl
same_bytes-eq [] (y ∷ ys) e = cc
same_bytes-eq (x ∷ xs) [] e = cc
same_bytes-eq (x ∷ xs) (y ∷ ys) e = ground (arith, same_bytes-eq xs ys)

-- `operator==` compares the contents.
pub text_eq-content :
    (a b : BoundedText)
    → a.length_ ≤ length a.data_
    → b.length_ ≤ length b.data_
    → ((text_eq a b ≡ true) × (content a ≡ content b))
      ⊎ ((text_eq a b ≡ false) × (content a ≢ content b))
unfolding text_eq
text_eq-content a b l m = elim (Bool-cases (a.length_ == b.length_)) [
  | inl e ↦
      let same : a.length_ ≡ b.length_ = ground arith in
      let front : take a.length_ b.data_ ≡ content b = ap (λ (n : ℕ). take n b.data_) same in
      elim (Bool-cases (same_bytes (content a) (take a.length_ b.data_))) [
        | inl s ↦ inl (rw (e, s) refl, same_bytes-eq _ _ s ∙ front)
        | inr d ↦ inr (
          rw (e, d) refl,
          λ q.
              let equal : same_bytes (content a) (take a.length_ b.data_) ≡ true =
                ap (same_bytes (content a)) (front ∙ sym q) ∙ same_bytes_refl (content a) in
              cc (equal, d),
        )
      ]
  | inr d ↦ inr (
    rw d refl,
    λ q.
        ground (
          arith,
          ap length q,
          length-take {0} a.length_ a.data_,
          length-take {0} b.length_ b.data_,
        ),
  )
]
