-- ===== src/Store/Upsert.antt =====
-- src/core/vehicle_data_store.h: what the store's operations do to the map that it stands for.
use esp32_vag_data_server.Prelude.{
  ℕ, suc, ◌<◌, ◌≤◌, ◌≡◌, ◌≢◌, ◌⊎◌, inl, inr, refl, sym, ap, ◌∙◌, subst, true, false, List, none,
  some, arith, ltb, ◌==◌, Bool-cases, set, length, length-set, length-replicate,
}
use native.Mathlib.Decide.{dec_lt}
use esp32_vag_data_server.VehicleData.Text.{BoundedText, content}
use esp32_vag_data_server.VehicleData.Sample.{NormalizedVehicleSample, no_sample}
use esp32_vag_data_server.VehicleData.Making.{IsSample}
use esp32_vag_data_server.Store.{
  inserted, updated, ignored_older, full, VehicleDataStore, empty_store, sample_at, append_sample,
  upsert, lookup,
}
use esp32_vag_data_server.Store.Find.{
  key, find-cases, upsert_loop-find, lookup_loop-find, IsText-length,
}
use esp32_vag_data_server.Store.View.{
  view, view_in, view_in-none, view_in-some, view_in-set, view_in-append, get_or-set-same,
  get_or-set-other,
}

-- The store's invariant: its size fits its array, its samples are samples, and no two of them have one
-- identity.
pub record IsStore (capacity : ℕ) (store : VehicleDataStore) : Type 0 where
  pub array : length store.samples_ ≡ capacity
  pub size : store.size_ ≤ capacity
  pub valid : (i : ℕ) → i < store.size_ → IsSample (sample_at store.samples_ i)
  pub unique :
      (i j : ℕ)
      → i < store.size_
      → j < store.size_
      → key (sample_at store.samples_ i) ≡ key (sample_at store.samples_ j)
      → i ≡ j

pub empty_store-IsStore : (capacity : ℕ) → IsStore capacity (empty_store capacity)
unfolding empty_store
empty_store-IsStore capacity = record {
  array = length-replicate {0} capacity no_sample;
  size = omega arith;
  valid = λ i l. absurd (omega arith);
  unique = λ i j l m e. absurd (omega arith);
}

-- The map has `s` at its identity and is the old one elsewhere.
abbrev pub Puts : VehicleDataStore → NormalizedVehicleSample → VehicleDataStore → Type 0
Puts old s new = (view new (key s) ≡ some s) × ((k : List ℕ) → k ≢ key s → view new k ≡ view old k)

-- A sample behind the others.
append_sample-IsStore :
    (capacity : ℕ) (store : VehicleDataStore) (s : NormalizedVehicleSample)
    → IsStore capacity store
    → store.size_ < capacity
    → IsSample s
    → ((i : ℕ) → i < store.size_ → key (sample_at store.samples_ i) ≢ key s)
    → let new : VehicleDataStore = record {
      samples_ = set store.samples_ store.size_ s;
      size_ = suc store.size_;
    } in
      IsStore capacity new × Puts store s new
unfolding view
append_sample-IsStore capacity store s w room v fresh =
    let samples : List NormalizedVehicleSample = set store.samples_ store.size_ s in
    let array : length samples ≡ length store.samples_ =
      length-set {0} store.samples_ store.size_ s in
    let last : sample_at samples store.size_ ≡ s =
      get_or-set-same store.samples_ store.size_ s no_sample (omega (arith, w.array)) in
    let old : (i : ℕ) → i < store.size_ → sample_at samples i ≡ sample_at store.samples_ i =
      λ i l. get_or-set-other store.samples_ store.size_ i s no_sample (omega arith) in
    let differs : (i : ℕ) → i < store.size_ → key (sample_at samples i) ≢ key s =
      λ i l e. fresh i l (ap key (sym (old i l)) ∙ e) in
    (
      record {
        array = array ∙ w.array;
        size = omega arith;
        valid = λ i l. elim (dec_lt i store.size_) [
          | yes b ↦ subst IsSample (sym (old i b)) (w.valid i b)
          | no b ↦
              let e : store.size_ ≡ i = omega arith in
              subst (λ n. IsSample (sample_at samples n)) e (subst IsSample (sym last) v)
        ];
        unique = λ i j l m e. elim (dec_lt i store.size_) [
          | yes a ↦ elim (dec_lt j store.size_) [
            | yes b ↦ w.unique i j a b (ap key (sym (old i a)) ∙ e ∙ ap key (old j b))
            | no b ↦
                let q : j ≡ store.size_ = omega arith in
                absurd (differs i a (e ∙ ap (λ n. key (sample_at samples n)) q ∙ ap key last))
          ]
          | no a ↦ elim (dec_lt j store.size_) [
            | yes b ↦
                let q : i ≡ store.size_ = omega arith in
                absurd (differs j b (sym e ∙ ap (λ n. key (sample_at samples n)) q ∙ ap key last))
            | no b ↦ omega arith
          ]
        ];
      },
      (
        view_in-some (suc store.size_) store.size_ samples (key s) (omega arith)
              (omega (arith, array, w.array)) (ap key last) differs
            ∙ ap some last,
        λ k d. view_in-append store.size_ store.samples_ s k d,
      ),
    )

-- A sample over one with its identity.
set-IsStore :
    (capacity j : ℕ) (store : VehicleDataStore) (s : NormalizedVehicleSample)
    → IsStore capacity store
    → j < store.size_
    → IsSample s
    → key (sample_at store.samples_ j) ≡ key s
    → ((i : ℕ) → i < j → key (sample_at store.samples_ i) ≢ key s)
    → let new : VehicleDataStore = record store { samples_ = set store.samples_ j s } in
      IsStore capacity new × Puts store s new
unfolding view
set-IsStore capacity j store s w l v same before =
    let samples : List NormalizedVehicleSample = set store.samples_ j s in
    let array : length samples ≡ length store.samples_ = length-set {0} store.samples_ j s in
    let here : sample_at samples j ≡ s =
      get_or-set-same store.samples_ j s no_sample (omega (arith, w.array, w.size)) in
    let other : (i : ℕ) → j ≢ i → sample_at samples i ≡ sample_at store.samples_ i =
      λ i d. get_or-set-other store.samples_ j i s no_sample d in
    let keys : (i : ℕ) → key (sample_at samples i) ≡ key (sample_at store.samples_ i) = λ i.
      elim (same_index j i) [
        | inl e ↦
            subst (λ n. key (sample_at samples n) ≡ key (sample_at store.samples_ n)) e
              (ap key here ∙ sym same)
        | inr d ↦ ap key (other i d)
      ] in
    (
      record {
        array = array ∙ w.array;
        size = w.size;
        valid = λ i m. elim (same_index j i) [
          | inl e ↦ subst (λ n. IsSample (sample_at samples n)) e (subst IsSample (sym here) v)
          | inr d ↦ subst IsSample (sym (other i d)) (w.valid i m)
        ];
        unique = λ i k m n e. w.unique i k m n (sym (keys i) ∙ e ∙ keys k);
      },
      (
        view_in-some store.size_ j samples (key s) l (omega (arith, array, w.array, w.size))
              (ap key here) (λ i m e. before i m (sym (keys i) ∙ e))
            ∙ ap some here,
        λ k d. view_in-set store.size_ j store.samples_ s k l same d,
      ),
    )
  where
    same_index : (a b : ℕ) → (a ≡ b) ⊎ (a ≢ b)
    same_index a b = elim (dec_lt a b) [
      | yes l ↦ inr (omega arith)
      | no l ↦ elim (dec_lt b a) [ yes m ↦ inr (omega arith) | no m ↦ inl (omega arith) ]
    ]

-- `upsert` implements the update of a finite map from identities to samples: it keeps the store's
-- invariant, adds a sample whose identity is new if there is room, replaces one that is not newer, and
-- otherwise leaves the store as it was, and its result says which.
pub upsert-refines :
    (capacity : ℕ) (store : VehicleDataStore) (s : NormalizedVehicleSample)
    → IsStore capacity store
    → IsSample s
    → let (r, new) = upsert capacity store s in
      IsStore capacity new
      × (((r ≡ inserted)
            × (view store (key s) ≡ none)
            × (new.size_ ≡ suc store.size_)
            × Puts store s new)
          ⊎ (((r ≡ updated)
                × (new.size_ ≡ store.size_)
                × ((old : NormalizedVehicleSample) × (view store (key s) ≡ some old)
                    × (old.timestamp_ms ≤ s.timestamp_ms))
                × Puts store s new)
              ⊎ (((r ≡ ignored_older)
                    × (new ≡ store)
                    × ((old : NormalizedVehicleSample) × (view store (key s) ≡ some old)
                        × (s.timestamp_ms < old.timestamp_ms)))
                  ⊎ ((r ≡ full)
                      × (new ≡ store)
                      × (view store (key s) ≡ none)
                      × (store.size_ ≡ capacity)))))
unfolding upsert append_sample view
upsert-refines capacity store s w v =
    let steps = upsert_loop-find capacity store.size_ 0 store s in
    elim (find-cases store.size_ 0 store.samples_ s.signal_id (IsText-length v.signal_id)
      (λ i a b. w.valid i (omega arith))) [
        | inl (found, fresh) ↦
            let missing : view_in store.size_ store.samples_ (key s) ≡ none =
              view_in-none store.size_ store.samples_ (key s)
                (λ i l. fresh i (omega arith) (omega arith)) in
            elim (Bool-cases (store.size_ == capacity)) [
              | inl e ↦
                  rw (steps, found, e) (w, inr (inr (inr (refl, refl, missing, ground arith))))
              | inr e ↦
                  let room : store.size_ < capacity = ground (arith, w.size) in
                  let (w', p) =
                    append_sample-IsStore capacity store s w room v
                      (λ i l. fresh i (omega arith) (omega arith)) in
                  rw (steps, found, e) (w', inl (refl, missing, refl, p))
            ]
        | inr (j, found, a, b, same, before) ↦
            let there : view_in store.size_ store.samples_ (key s)
                ≡ some (sample_at store.samples_ j) =
              view_in-some store.size_ j store.samples_ (key s) (omega arith)
                (omega (arith, w.array, w.size)) same (λ i l. before i (omega arith) l) in
            elim (Bool-cases (ltb s.timestamp_ms (sample_at store.samples_ j).timestamp_ms)) [
              | inl e ↦
                  rw (steps, found, e) (w, inr (inr (inl (refl, refl, (_, there, ground arith)))))
              | inr e ↦
                  let (w', p) =
                    set-IsStore capacity j store s w (omega arith) v same
                      (λ i l. before i (omega arith) l) in
                  rw (steps, found, e) (w', inr (inl (refl, refl, (_, there, ground arith), p)))
            ]
      ]

-- `lookup` reads the map.
pub lookup-view :
    (capacity : ℕ) (store : VehicleDataStore) (signal_id : BoundedText)
    (s : NormalizedVehicleSample)
    → IsStore capacity store
    → signal_id.length_ ≤ length signal_id.data_
    → ((lookup store signal_id s ≡ (false, s)) × (view store (content signal_id) ≡ none))
      ⊎ ((found : NormalizedVehicleSample) × (lookup store signal_id s ≡ (true, found))
          × (view store (content signal_id) ≡ some found))
unfolding lookup view
lookup-view capacity store signal_id s w l =
    let steps = lookup_loop-find store.size_ 0 store.samples_ signal_id s in
    elim (find-cases store.size_ 0 store.samples_ signal_id l (λ i a b. w.valid i (omega arith))) [
      | inl (found, fresh) ↦ inl (
        rw (steps, found) refl,
        view_in-none store.size_ store.samples_ (content signal_id)
            (λ i m. fresh i (omega arith) (omega arith)),
      )
      | inr (j, found, a, b, same, before) ↦ inr (
        sample_at store.samples_ j,
        rw (steps, found) refl,
        view_in-some store.size_ j store.samples_ (content signal_id) (omega arith)
            (omega (arith, w.array, w.size)) same (λ i m. before i (omega arith) m),
      )
    ]
