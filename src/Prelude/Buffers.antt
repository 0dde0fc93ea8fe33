-- ===== src/Prelude/Buffers.antt =====
-- Fixed buffers (`std::array`) as lists, and `std::copy_n` into one.
use Prim.Native.Nat.{ℕ, zero, suc, ◌+◌, ◌≤◌}
use mathlib.Core.Path.{◌≡◌, refl, ap}
use mathlib.Core.List.{List, [], ◌∷◌, ◌++◌}
use native.Mathlib.Omega.{arith}
use esp32_vag_data_server.Prelude.Lists.{length, take, take-nil, drop}

module _ {ℓ} {A : Type ℓ} where
  -- The buffer with `source` stored from `offset` on. What does not fit is not stored.
  abbrev pub write_at : List A → ℕ → List A → List A
  write_at [] offset source = []
  write_at (d ∷ buffer) zero [] = d ∷ buffer
  write_at (d ∷ buffer) zero (s ∷ source) = s ∷ write_at buffer zero source
  write_at (d ∷ buffer) (suc offset) source = d ∷ write_at buffer offset source

  -- `std::copy_n(source, count, buffer + offset)`.
  abbrev pub copy_n : List A → ℕ → List A → ℕ → List A
  copy_n source count buffer offset = write_at buffer offset (take count source)

  pub length-write_at :
      (buffer : List A) (offset : ℕ) (source : List A)
      → length (write_at buffer offset source) ≡ length buffer
  length-write_at [] offset source = refl
  length-write_at (d ∷ buffer) zero [] = refl
  length-write_at (d ∷ buffer) zero (s ∷ source) = ap suc (length-write_at buffer zero source)
  length-write_at (d ∷ buffer) (suc offset) source = ap suc (length-write_at buffer offset source)

  -- A store that fits extends the prefix before it by what it stores.
  pub take-write_at :
      (buffer : List A) (offset n : ℕ) (source : List A)
      → n ≡ offset + length source
      → n ≤ length buffer
      → take n (write_at buffer offset source) ≡ take offset buffer ++ source
  take-write_at [] offset zero [] e h = rw (take-nil offset)
  take-write_at [] offset zero (s ∷ source) e h = absurd (omega arith)
  take-write_at [] offset (suc n) source e h = absurd (omega arith)
  take-write_at (d ∷ buffer) zero zero [] e h = refl
  take-write_at (d ∷ buffer) zero (suc n) [] e h = absurd (omega arith)
  take-write_at (d ∷ buffer) zero zero (s ∷ source) e h = absurd (omega arith)
  take-write_at (d ∷ buffer) zero (suc n) (s ∷ source) e h =
      ap (λ t. s ∷ t) (take-write_at buffer zero n source (omega arith) (omega arith))
  take-write_at (d ∷ buffer) (suc offset) zero source e h = absurd (omega arith)
  take-write_at (d ∷ buffer) (suc offset) (suc n) source e h =
      ap (λ t. d ∷ t) (take-write_at buffer offset n source (omega arith) (omega arith))

  -- A store at the front leaves what is behind it.
  pub drop-write_at :
      (buffer : List A) (n : ℕ) (source : List A)
      → n ≡ length source
      → drop n (write_at buffer 0 source) ≡ drop n buffer
  drop-write_at [] n source e = refl
  drop-write_at (d ∷ buffer) zero [] e = refl
  drop-write_at (d ∷ buffer) (suc n) [] e = absurd (omega arith)
  drop-write_at (d ∷ buffer) zero (s ∷ source) e = absurd (omega arith)
  drop-write_at (d ∷ buffer) (suc n) (s ∷ source) e = drop-write_at buffer n source (omega arith)
