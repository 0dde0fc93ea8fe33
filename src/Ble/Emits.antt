-- ===== src/Ble/Emits.antt =====
-- src/application/ble_vehicle_data_payload.h: the calls of a writer that succeed, and what they write.
use esp32_vag_data_server.Prelude.{
  ℕ, zero, suc, ◌+◌, ◌-◌, ◌*◌, ◌/◌, ◌%◌, ◌^◌, ◌<◌, ◌≤◌, ◌≡◌, refl, sym, ap, ◌∙◌, true, false, List,
  [], ◌∷◌, ◌++◌, none, some, arith, ltb, length, write_at, length-append,
}
use esp32_vag_data_server.VehicleData.Text.{BoundedText, content}
use esp32_vag_data_server.Ble.Writer.{
  Writer, Action, ◌&>◌, succeed, append_to, append, append_byte, append_shifted, append_u16,
  append_u32, append_u64, append_header, append_string,
}

-- The writer that counts, and the one that writes.
abbrev pub counting : ℕ → ℕ → Writer
counting capacity n = record { output_ = none; capacity_ = capacity; size_ = n }

abbrev pub writing_to : List ℕ → ℕ → ℕ → Writer
writing_to output capacity n = record { output_ = some output; capacity_ = capacity; size_ = n }

-- A call that writes `bytes`: the pass that counts adds their number, and the pass that writes puts them
-- behind what is there, if they fit.
pub record Emits (a : Action) (bytes : List ℕ) : Type 0 where
  pub counts :
      (capacity n : ℕ)
      → n + length bytes < 2 ^ 64
      → a (counting capacity n) ≡ (true, counting capacity (n + length bytes))
  pub writes :
      (output : List ℕ) (capacity n : ℕ)
      → n + length bytes ≤ capacity
      → capacity < 2 ^ 64
      → a (writing_to output capacity n)
        ≡ (true, writing_to (write_at output n bytes) capacity (n + length bytes))

write_at-append :
    (output xs ys : List ℕ) (n m : ℕ)
    → m ≡ n + length xs
    → write_at (write_at output n xs) m ys ≡ write_at output n (xs ++ ys)
write_at-append [] xs ys n m e = refl
write_at-append (d ∷ output) [] ys zero m e =
    let start : m ≡ 0 = omega arith in ap (λ k. write_at (d ∷ output) k ys) start
write_at-append (d ∷ output) (x ∷ xs) ys zero zero e = absurd (omega arith)
write_at-append (d ∷ output) (x ∷ xs) ys zero (suc m) e =
    ap (λ t. x ∷ t) (write_at-append output xs ys zero m (omega arith))
write_at-append (d ∷ output) xs ys (suc n) zero e = absurd (omega arith)
write_at-append (d ∷ output) xs ys (suc n) (suc m) e =
    ap (λ t. d ∷ t) (write_at-append output xs ys n m (omega arith))

pub &>-Emits : {a b : Action} {xs ys : List ℕ} → Emits a xs → Emits b ys → Emits (a &> b) (xs ++ ys)
unfolding ◌&>◌
&>-Emits {a} {b} {xs} {ys} p q =
    let size = length-append xs ys in
    record {
      counts = λ capacity n l.
          let total : n + length xs + length ys ≡ n + length (xs ++ ys) = omega (arith, size) in
          rw (p.counts capacity n (omega (arith, size))) (
            q.counts capacity (n + length xs) (omega (arith, size))
            ∙ ap (λ k. (true, counting capacity k)) total);
      writes = λ output capacity n l c.
          let total : n + length xs + length ys ≡ n + length (xs ++ ys) = omega (arith, size) in
          rw (p.writes output capacity n (omega (arith, size)) c) (
            q.writes (write_at output n xs) capacity (n + length xs) (omega (arith, size)) c
            ∙ ap
                (λ k. (
                  true,
                  writing_to (write_at (write_at output n xs) (n + length xs) ys) capacity k,
                ))
                total
            ∙ ap (λ o. (true, writing_to o capacity (n + length (xs ++ ys))))
                (write_at-append output xs ys n (n + length xs) refl));
    }

write_at-nothing : (output : List ℕ) (n : ℕ) → write_at output n [] ≡ output
write_at-nothing [] n = refl
write_at-nothing (d ∷ output) zero = refl
write_at-nothing (d ∷ output) (suc n) = ap (λ t. d ∷ t) (write_at-nothing output n)

pub succeed-Emits : Emits succeed []
unfolding succeed
succeed-Emits = record {
  counts = λ capacity n l.
      let same : n ≡ n + 0 = omega arith in ap (λ k. (true, counting capacity k)) same;
  writes = λ output capacity n l c.
      let same : n ≡ n + 0 = omega arith in
      ap (λ k. (true, writing_to output capacity k)) same
      ∙ ap (λ o. (true, writing_to o capacity (n + 0))) (sym (write_at-nothing output n));
}

pub append-Emits : (bytes : List ℕ) → Emits (append bytes) bytes
unfolding append append_to
append-Emits bytes = record {
  counts = λ capacity n l.
      let fits : ltb (2 ^ 64 - 1 - n) (length bytes) ≡ false = ground arith in rw fits refl;
  writes = λ output capacity n l c.
      let fits : ltb (2 ^ 64 - 1 - n) (length bytes) ≡ false = ground arith in
      let inside : ltb capacity n ≡ false = ground arith in
      let room : ltb (capacity - n) (length bytes) ≡ false = ground arith in
      rw (fits, inside, room) refl;
}

pub append_byte-Emits : (b : ℕ) → Emits (append_byte b) (b ∷ [])
unfolding append_byte
append_byte-Emits b = append-Emits (b ∷ [])

-- The bytes of a number, the highest first.
unfoldable pub big_endian : ℕ → ℕ → List ℕ
big_endian zero value = []
big_endian (suc left) value = value / 2 ^ (left * 8) % 256 ∷ big_endian left value

append_shifted-Emits : (left value : ℕ) → Emits (append_shifted left value) (big_endian left value)
unfolding append_shifted big_endian
append_shifted-Emits zero value = succeed-Emits
append_shifted-Emits (suc left) value =
    &>-Emits (append_byte-Emits (value / 2 ^ (left * 8) % 256)) (append_shifted-Emits left value)

pub append_u64-Emits : (value : ℕ) → Emits (append_u64 value) (big_endian 8 value)
unfolding append_u64
append_u64-Emits value = append_shifted-Emits 8 value

pub append_u32-Emits : (value : ℕ) → Emits (append_u32 value) (big_endian 4 value)
unfolding append_u32
append_u32-Emits value = append_shifted-Emits 4 value

pub append_u16-Emits : (value : ℕ) → Emits (append_u16 value) (big_endian 2 value)
unfolding append_u16 big_endian
append_u16-Emits value =
    let low : value / 1 ≡ value = omega arith in
    rw low (&>-Emits (append_byte-Emits (value / 2 ^ 8 % 256)) (append_byte-Emits (value % 256)))

pub append_header-Emits : (type : ℕ) → Emits (append_header type) (1 ∷ type ∷ [])
unfolding append_header
append_header-Emits type = &>-Emits (append_byte-Emits 1) (append_byte-Emits type)

-- A text behind its length.
abbrev pub prefixed : BoundedText → List ℕ
prefixed text = text.length_ ∷ content text

pub append_string-Emits :
    (text : BoundedText)
    → text.length_ ≤ 255
    → Emits (append_string (content text) text.length_) (prefixed text)
unfolding append_string
append_string-Emits text l =
    let fits : ltb 255 text.length_ ≡ false = ground arith in
    let same : text.length_ % 256 ≡ text.length_ = omega arith in
    rw (fits, same) (&>-Emits (append_byte-Emits text.length_) (append-Emits (content text)))
