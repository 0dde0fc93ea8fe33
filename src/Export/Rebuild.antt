-- ===== src/Export/Rebuild.antt =====
-- src/application/vehicle_data_export_record.h: the sample that `decode` makes of its own parts.
use esp32_vag_data_server.Prelude.{
  ℕ, zero, suc, ◌-◌, ◌^◌, ◌<◌, ◌≤◌, ◌≡◌, inl, inr, refl, sym, ap, ◌∙◌, subst, Bool, true, false,
  not, List, [], ◌∷◌, ◌++◌, some, arith, ltb, ==_refl, if◌then◌else◌, Bool-cases, length, take,
  drop, write_at, replicate, length-replicate, take-append, drop-append,
}
use esp32_vag_data_server.VehicleData.Text.{BoundedText, empty_text, assign, content}
use esp32_vag_data_server.VehicleData.Assign.{IsText, content-text_of, assign-text_of}
use esp32_vag_data_server.VehicleData.Sample.{
  VehicleAvailability, available, unsupported, unavailable, pending, NormalizedVehicleValue,
  NormalizedVehicleSample, Origin, is_none, is_available, has_value, numeric_value, boolean_value,
  try_text_value, no_value, no_sample, stamped, is_named, make_available, try_numeric, try_boolean,
  try_text, try_status, k_max_signal_id_length, k_max_unit_length, k_max_text_length,
}
use esp32_vag_data_server.VehicleData.Making.{
  IsValue, is_no_value, is_numeric_value, is_boolean_value, is_text_value, text_value, IsSample,
}
use esp32_vag_data_server.Export.Layout.{
  ok, payload_length_of, payload_of, contains_null, availability_byte,
}
use esp32_vag_data_server.Export.Decode.{text_buffer, construct, accept}
use esp32_vag_data_server.Export.Bytes.{write_at-next, contains_null-NonZero, read_u64-u64_bytes}
use esp32_vag_data_server.Export.Written.{IsFinite, Exportable, IsText-facts}

drop-replicate :
    (n capacity : ℕ)
    → n ≤ capacity
    → drop {A = ℕ} n (replicate (suc capacity) 0) ≡ 0 ∷ replicate (capacity - n) 0
drop-replicate zero capacity l = ap (λ k. 0 ∷ replicate k 0) (omega arith)
drop-replicate (suc n) zero l = absurd (omega arith)
drop-replicate (suc n) (suc capacity) l =
    drop-replicate n capacity (omega arith) ∙ ap (λ k. 0 ∷ replicate k 0) (omega arith)

-- The bytes of a text in memory that goes on behind them.
pub take-text :
    {capacity : ℕ} {x : BoundedText} (t : IsText capacity x) (rest : List ℕ)
    → take x.length_ (content x ++ rest) ≡ content x
take-text {capacity} {x} t rest = take-append (content x) rest x.length_ (sym (IsText-facts t).1)

pub drop-text :
    {capacity : ℕ} {x : BoundedText} (t : IsText capacity x) (rest : List ℕ)
    → drop x.length_ (content x ++ rest) ≡ rest
drop-text {capacity} {x} t rest = drop-append (content x) rest x.length_ (sym (IsText-facts t).1)

content-bytes : {capacity : ℕ} {x : BoundedText} (t : IsText capacity x) → content x ≡ t.bytes
content-bytes {capacity} t = rw t.made (content-text_of capacity t.bytes)

-- Such bytes have no NUL, and the buffer that they are copied to is assigned as the text they are of.
pub text-no_null :
    {capacity : ℕ} {x : BoundedText} (t : IsText capacity x) (rest : List ℕ)
    → contains_null (take x.length_ (content x ++ rest)) ≡ false
text-no_null t rest =
    ap contains_null (take-text t rest ∙ content-bytes t) ∙ contains_null-NonZero t.bytes t.non_zero

pub text_buffer-assign :
    {capacity : ℕ} {x : BoundedText} (t : IsText capacity x) (rest : List ℕ)
    → assign capacity
        (some (text_buffer capacity (content x ++ rest) x.length_))
        (empty_text capacity)
      ≡ (true, x)
text_buffer-assign {capacity} {x} t rest =
    let zeros : List ℕ = replicate (suc capacity) 0 in
    let size : length zeros ≡ suc capacity = length-replicate (suc capacity) 0 in
    let buffer : text_buffer capacity (content x ++ rest) x.length_
        ≡ t.bytes ++ (0 ∷ replicate (capacity - length t.bytes) 0) =
      ap (write_at zeros 0) (take-text t rest ∙ content-bytes t)
      ∙ write_at-next [] zeros t.bytes 0 refl (omega (arith, size, t.size))
      ∙ ap (λ r. t.bytes ++ r) (drop-replicate (length t.bytes) capacity t.size) in
    rw buffer (
      assign-text_of capacity t.bytes (replicate (capacity - length t.bytes) 0) t.size t.formed
        t.non_zero)
    ∙ ap (λ y. (true, y)) (sym t.made)

-- The origin that `decode` makes of the texts of a sample.
abbrev pub origin_of : NormalizedVehicleSample → List ℕ → List ℕ → Origin
origin_of s after_signal after_unit = record {
  signal_id = some (
      text_buffer k_max_signal_id_length (content s.signal_id ++ after_signal) s.signal_id.length_);
  unit = some (text_buffer k_max_unit_length (content s.unit ++ after_unit) s.unit.length_);
  source = s.source;
  quality = s.quality;
  timestamp_ms = s.timestamp_ms;
}

pub origin_of-is_named :
    (s : NormalizedVehicleSample) (a b : List ℕ) → IsSample s → is_named (origin_of s a b) ≡ true
unfolding is_named
origin_of-is_named s a b w = rw (text_buffer-assign w.signal_id a, text_buffer-assign w.unit b) refl

pub stamped-origin_of :
    (s : NormalizedVehicleSample) (a b : List ℕ)
    → IsSample s
    → stamped (origin_of s a b) s.availability s.value ≡ s
unfolding stamped
stamped-origin_of s a b w = rw (text_buffer-assign w.signal_id a, text_buffer-assign w.unit b) refl

available-is_available : (a : VehicleAvailability) → is_available a ≡ true → a ≡ available
available-is_available available e = refl
available-is_available unsupported e = cc
available-is_available unavailable e = cc
available-is_available pending e = cc
available-is_available VehicleAvailability.unknown e = cc

make_available-origin :
    (origin : Origin) (value : NormalizedVehicleValue) (a : VehicleAvailability)
    → is_named origin ≡ true
    → is_none value.type_ ≡ false
    → is_none value.type_ ≡ not (is_available a)
    → make_available origin value no_sample ≡ (true, stamped origin a value)
unfolding make_available
make_available-origin origin value a n v h =
    let here : a ≡ available = available-is_available a (ground arith) in rw (n, v, here) refl

try_text-origin :
    {made : BoundedText} (t : IsText k_max_text_length made) (origin : Origin)
    (a : VehicleAvailability) (rest : List ℕ)
    → is_named origin ≡ true
    → is_available a ≡ true
    → try_text origin
        (some (text_buffer k_max_text_length (content made ++ rest) made.length_))
        no_sample
      ≡ (true, stamped origin a (text_value made))
unfolding try_text try_text_value no_value
try_text-origin {made} t origin a rest n h =
    rw (text_buffer-assign t rest)
      (make_available-origin origin (text_value made) a n refl (sym (ap not h)))

-- The switch makes the sample of a value from its payload, whatever follows that.
abbrev pub Constructs : Origin → VehicleAvailability → List ℕ → NormalizedVehicleValue → Type 0
Constructs origin a rest v =
    is_none v.type_ ≡ not (is_available a)
    → IsFinite v.type_ v
    → construct v.type_ a origin (payload_of v.type_ v ++ rest) (payload_length_of v.type_ v)
      ≡ some (true, stamped origin a v)

numeric-Constructs :
    (origin : Origin) (a : VehicleAvailability) (rest : List ℕ) (bits : ℕ)
    → is_named origin ≡ true
    → bits < 2 ^ 64
    → Constructs origin a rest (numeric_value bits)
unfolding construct numeric_value no_value try_numeric
numeric-Constructs origin a rest bits n l h f =
    rw (read_u64-u64_bytes bits rest l, f)
      (ap some (make_available-origin origin (numeric_value bits) a n refl h))

boolean-Constructs :
    (origin : Origin) (a : VehicleAvailability) (rest : List ℕ) (b : Bool)
    → is_named origin ≡ true
    → Constructs origin a rest (boolean_value b)
unfolding construct boolean_value no_value try_boolean
boolean-Constructs origin a rest true n h f =
    ap some (make_available-origin origin (boolean_value true) a n refl h)
boolean-Constructs origin a rest false n h f =
    ap some (make_available-origin origin (boolean_value false) a n refl h)

text-Constructs :
    {made : BoundedText} (t : IsText k_max_text_length made) (origin : Origin)
    (a : VehicleAvailability) (rest : List ℕ)
    → is_named origin ≡ true
    → Constructs origin a rest (text_value made)
unfolding construct
text-Constructs {made} t origin a rest n h f =
    let fits : ltb k_max_text_length made.length_ ≡ false = ground (arith, (IsText-facts t).0) in
    rw (fits, text-no_null t rest) (ap some (try_text-origin t origin a rest n (ground arith)))

none-Constructs :
    (origin : Origin) (a : VehicleAvailability) (rest : List ℕ)
    → is_named origin ≡ true
    → Constructs origin a rest no_value
unfolding construct no_value try_status
none-Constructs origin a rest n h f =
    let away : is_available a ≡ false = ground arith in rw (away, n) refl

IsValue-Constructs :
    (origin : Origin) (a : VehicleAvailability) (rest : List ℕ) (v : NormalizedVehicleValue)
    → is_named origin ≡ true
    → IsValue v
    → Constructs origin a rest v
IsValue-Constructs origin a rest v n (is_no_value e) =
    subst (Constructs origin a rest) (sym e) (none-Constructs origin a rest n)
IsValue-Constructs origin a rest v n (is_numeric_value bits l e) =
    subst (Constructs origin a rest) (sym e) (numeric-Constructs origin a rest bits n l)
IsValue-Constructs origin a rest v n (is_boolean_value b e) =
    subst (Constructs origin a rest) (sym e) (boolean-Constructs origin a rest b n)
IsValue-Constructs origin a rest v n (is_text_value made t e) =
    subst (Constructs origin a rest) (sym e) (text-Constructs t origin a rest n)

-- The flag of a sample is its own.
accept-sample :
    (s out : NormalizedVehicleSample)
    → accept s.availability (if has_value s then 1 else 0) (some (true, s)) out ≡ (ok, s)
unfolding accept
accept-sample s out = elim (Bool-cases (has_value s)) [
  | inl e ↦ rw (e, ==_refl (availability_byte s.availability)) refl
  | inr e ↦ rw (e, ==_refl (availability_byte s.availability)) refl
]

-- The switch and what follows it.
pub accept-construct :
    (s out : NormalizedVehicleSample) (a b rest : List ℕ)
    → Exportable s
    → accept s.availability
        (if has_value s then 1 else 0)
        (construct s.value.type_ s.availability
          (origin_of s a b)
          (payload_of s.value.type_ s.value ++ rest)
          (payload_length_of s.value.type_ s.value))
        out
      ≡ (ok, s)
accept-construct s out a b rest (w, f) =
    let made =
      IsValue-Constructs (origin_of s a b) s.availability rest s.value (origin_of-is_named s a b w)
        w.value w.has_value f in
    ap (λ r. accept s.availability (if has_value s then 1 else 0) r out)
      (made ∙ ap (λ x. some (true, x)) (stamped-origin_of s a b w))
    ∙ accept-sample s out
