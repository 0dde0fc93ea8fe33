-- ===== src/Store/View.antt =====
-- src/core/vehicle_data_store.h: a store as a map from identities to samples.
use esp32_vag_data_server.Prelude.{
  ℕ, zero, suc, ◌<◌, ◌≤◌, ◌≡◌, ◌≢◌, inl, inr, refl, sym, ap, ◌∙◌, false, List, [], ◌∷◌, Option,
  none, some, arith, if◌then◌else◌, Bool-cases, get_or, set, length,
}
use esp32_vag_data_server.VehicleData.Assign.{same_bytes_refl, same_bytes-eq}
use esp32_vag_data_server.VehicleData.Text.{same_bytes}
use esp32_vag_data_server.VehicleData.Sample.{NormalizedVehicleSample}
use esp32_vag_data_server.Store.{VehicleDataStore, sample_at}
use esp32_vag_data_server.Store.Find.{key}

-- The first of `size` samples with an identity.
unfoldable pub view_in : ℕ → List NormalizedVehicleSample → List ℕ → Option NormalizedVehicleSample
view_in zero samples k = none
view_in (suc size) [] k = none
view_in (suc size) (sample ∷ samples) k =
    let rest = view_in size samples k in if same_bytes (key sample) k then some sample else rest

-- The map that a store stands for.
unfoldable pub view : VehicleDataStore → List ℕ → Option NormalizedVehicleSample
view store k = view_in store.size_ store.samples_ k

same_bytes-false : (xs ys : List ℕ) → xs ≢ ys → same_bytes xs ys ≡ false
same_bytes-false xs ys d = elim (Bool-cases (same_bytes xs ys)) [
  | inl e ↦ absurd (d (same_bytes-eq xs ys e))
  | inr e ↦ e
]

pub view_in-none :
    (size : ℕ) (samples : List NormalizedVehicleSample) (k : List ℕ)
    → ((i : ℕ) → i < size → key (sample_at samples i) ≢ k)
    → view_in size samples k ≡ none
unfolding view_in
view_in-none zero samples k d = refl
view_in-none (suc size) [] k d = refl
view_in-none (suc size) (sample ∷ samples) k d =
    rw (same_bytes-false (key sample) k (d 0 (omega arith)))
      (view_in-none size samples k (λ i l. d (suc i) (omega arith)))

pub view_in-some :
    (size j : ℕ) (samples : List NormalizedVehicleSample) (k : List ℕ)
    → j < size
    → size ≤ length samples
    → key (sample_at samples j) ≡ k
    → ((i : ℕ) → i < j → key (sample_at samples i) ≢ k)
    → view_in size samples k ≡ some (sample_at samples j)
unfolding view_in
view_in-some zero j samples k l n e d = absurd (omega arith)
view_in-some (suc size) j [] k l n e d = absurd (omega arith)
view_in-some (suc size) zero (sample ∷ samples) k l n e d =
    rw (ap (λ x. same_bytes x k) e ∙ same_bytes_refl k) refl
view_in-some (suc size) (suc j) (sample ∷ samples) k l n e d =
    rw (same_bytes-false (key sample) k (d 0 (omega arith)))
      (view_in-some size j samples k (omega arith) (omega arith) e (λ i l. d (suc i) (omega arith)))

-- A store of a sample over one with its identity, at any other identity.
pub view_in-set :
    (size j : ℕ) (samples : List NormalizedVehicleSample) (s : NormalizedVehicleSample) (k : List ℕ)
    → j < size
    → key (sample_at samples j) ≡ key s
    → k ≢ key s
    → view_in size (set samples j s) k ≡ view_in size samples k
unfolding view_in
view_in-set zero j samples s k l e d = refl
view_in-set (suc size) j [] s k l e d = refl
view_in-set (suc size) zero (sample ∷ samples) s k l e d =
    let a : same_bytes (key sample) k ≡ false =
      same_bytes-false (key sample) k (λ q. d (sym q ∙ e)) in
    let b : same_bytes (key s) k ≡ false = same_bytes-false (key s) k (λ q. d (sym q)) in
    rw (a, b) refl
view_in-set (suc size) (suc j) (sample ∷ samples) s k l e d =
    ap (λ r. if same_bytes (key sample) k then some sample else r)
      (view_in-set size j samples s k (omega arith) e d)

-- A store of a sample behind the others, at any other identity.
pub view_in-append :
    (size : ℕ) (samples : List NormalizedVehicleSample) (s : NormalizedVehicleSample) (k : List ℕ)
    → k ≢ key s
    → view_in (suc size) (set samples size s) k ≡ view_in size samples k
unfolding view_in
view_in-append zero [] s k d = refl
view_in-append zero (sample ∷ samples) s k d = rw (same_bytes-false (key s) k (λ q. d (sym q))) refl
view_in-append (suc size) [] s k d = refl
view_in-append (suc size) (sample ∷ samples) s k d =
    ap (λ r. if same_bytes (key sample) k then some sample else r)
      (view_in-append size samples s k d)

pub get_or-set-same :
    {A : Type 0} (xs : List A) (i : ℕ) (v d : A) → i < length xs → get_or (set xs i v) i d ≡ v
get_or-set-same [] i v d l = absurd (omega arith)
get_or-set-same (x ∷ xs) zero v d l = refl
get_or-set-same (x ∷ xs) (suc i) v d l = get_or-set-same xs i v d (omega arith)

pub get_or-set-other :
    {A : Type 0} (xs : List A) (i j : ℕ) (v d : A) → i ≢ j → get_or (set xs i v) j d ≡ get_or xs j d
get_or-set-other [] i j v d n = refl
get_or-set-other (x ∷ xs) zero zero v d n = absurd (n refl)
get_or-set-other (x ∷ xs) zero (suc j) v d n = refl
get_or-set-other (x ∷ xs) (suc i) zero v d n = refl
get_or-set-other (x ∷ xs) (suc i) (suc j) v d n = get_or-set-other xs i j v d (λ e. n (ap suc e))
