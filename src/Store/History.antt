-- ===== src/Store/History.antt =====
-- src/core/vehicle_data_store.h: what a sequence of updates keeps.
use esp32_vag_data_server.Prelude.{
  ℕ, ◌≤◌, ◌≡◌, ◌≢◌, ◌⊎◌, inl, inr, sym, ap, ◌∙◌, true, List, [], ◌∷◌, some, arith, Bool-cases, All,
}
use esp32_vag_data_server.VehicleData.Assign.{same_bytes_refl, same_bytes-eq}
use esp32_vag_data_server.VehicleData.Text.{same_bytes}
use esp32_vag_data_server.VehicleData.Sample.{NormalizedVehicleSample}
use esp32_vag_data_server.VehicleData.Making.{IsSample}
use esp32_vag_data_server.Store.{VehicleDataStore, upsert}
use esp32_vag_data_server.Store.Find.{key}
use esp32_vag_data_server.Store.View.{view}
use esp32_vag_data_server.Store.Upsert.{IsStore, Puts, upsert-refines}

-- The store after updates by samples, in order.
unfoldable pub upsert_all : ℕ → VehicleDataStore → List NormalizedVehicleSample → VehicleDataStore
upsert_all capacity store [] = store
upsert_all capacity store (s ∷ samples) = upsert_all capacity (upsert capacity store s).1 samples

-- One entry of a map that is still there, and not older.
abbrev pub Keeps : VehicleDataStore → List ℕ → NormalizedVehicleSample → Type 0
Keeps store k old =
    (new : NormalizedVehicleSample) × (view store k ≡ some new)
    × (old.timestamp_ms ≤ new.timestamp_ms)

some_inj : {A : Type 0} (x y : A) → some x ≡ some y → x ≡ y
some_inj x y e = cc

same_key : (xs ys : List ℕ) → (xs ≡ ys) ⊎ (xs ≢ ys)
same_key xs ys = elim (Bool-cases (same_bytes xs ys)) [
  | inl e ↦ inl (same_bytes-eq xs ys e)
  | inr e ↦ inr (λ q.
      let equal : same_bytes xs ys ≡ true = ap (same_bytes xs) (sym q) ∙ same_bytes_refl xs in
      cc (equal, e))
]

-- A store of a sample keeps an entry of another identity, and of its own if that is not newer.
Puts-Keeps :
    (store new : VehicleDataStore) (s : NormalizedVehicleSample) (k : List ℕ)
    (old : NormalizedVehicleSample)
    → Puts store s new
    → view store k ≡ some old
    → (k ≡ key s → old.timestamp_ms ≤ s.timestamp_ms)
    → Keeps new k old
Puts-Keeps store new s k old (at, others) h older = elim (same_key k (key s)) [
  | inl e ↦ (s, ap (view new) e ∙ at, older e)
  | inr d ↦ (old, others k d ∙ h, omega arith)
]

upsert-Keeps :
    (capacity : ℕ) (store : VehicleDataStore) (s : NormalizedVehicleSample) (k : List ℕ)
    (old : NormalizedVehicleSample)
    → IsStore capacity store
    → IsSample s
    → view store k ≡ some old
    → Keeps (upsert capacity store s).1 k old
upsert-Keeps capacity store s k old w v h =
    let (w', outcome) = upsert-refines capacity store s w v in
    elim outcome [
      | inl (r, missing, size, p) ↦
          Puts-Keeps store _ s k old p h (λ e. absurd (cc (ap (view store) e, h, missing)))
      | inr (inl (r, size, (prev, there, older), p)) ↦ Puts-Keeps store _ s k old p h (λ e.
          let same : old ≡ prev = some_inj old prev (sym h ∙ ap (view store) e ∙ there) in
          rw same older)
      | inr (inr (inl (r, same, newer))) ↦ (old, ap (λ n. view n k) same ∙ h, omega arith)
      | inr (inr (inr (r, same, missing, size))) ↦ (old, ap (λ n. view n k) same ∙ h, omega arith)
    ]

-- From any store that satisfies the invariant, any sequence of updates by samples keeps the invariant,
-- and an identity that has a sample has one ever after, whose time never goes back.
pub upsert_all-Keeps :
    (capacity : ℕ) (store : VehicleDataStore) (samples : List NormalizedVehicleSample)
    → IsStore capacity store
    → All IsSample samples
    → let new = upsert_all capacity store samples in
      IsStore capacity new
      × ((k : List ℕ) (old : NormalizedVehicleSample) → view store k ≡ some old → Keeps new k old)
unfolding upsert_all
upsert_all-Keeps capacity store [] w v = (w, λ k old h. (old, h, omega arith))
upsert_all-Keeps capacity store (s ∷ samples) w v =
    let (w', later) =
      upsert_all-Keeps capacity (upsert capacity store s).1 samples
        (upsert-refines capacity store s w v.0).0 v.1 in
    (
      w',
      λ k old h.
          let (mid, there, older) = upsert-Keeps capacity store s k old w v.0 h in
          let (new, here, older') = later k mid there in (new, here, omega (arith, older, older')),
    )
