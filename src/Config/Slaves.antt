-- ===== src/Config/Slaves.antt =====
-- How the shards are spread over the slaves: getFullShardIdListFromSlaveIndex of
-- cluster/config/cluster_config.go.
use goquarkchain.Prelude.{
  ℕ, zero, suc, ◌+◌, ◌%◌, ◌≡◌, ◌⊎◌, ◌↔◌, inl, inr, refl, sym, ap, ◌∙◌, Bool, true, false, some,
  List, [], ◌∷◌, get_elem?, ◌==◌, ==_iff, if◌then◌else◌, Bool-cases, arith,
}
use goquarkchain.Config.Shards.{slave_list_from, get_full_shard_id_list_from_slave_index}

abbrev pub IsIn : ℕ → List ℕ → Type 0
IsIn x [] = ⊥
IsIn x (y ∷ ys) = (x ≡ y) ⊎ IsIn x ys

-- A place of the list that falls to the slave.
abbrev pub IsPlaceOf : ℕ → List ℕ → ℕ → ℕ → ℕ → Type 0
IsPlaceOf index ids slaves slave id =
    (i : ℕ) × (get_elem? ids i ≡ some id) × ((index + i) % slaves ≡ slave)

step_back :
    (index : ℕ) (x : ℕ) (ids : List ℕ) (slaves slave id : ℕ)
    → IsPlaceOf (index + 1) ids slaves slave id
    → IsPlaceOf index (x ∷ ids) slaves slave id
step_back index x ids slaves slave id (i, there, falls) = (
  suc i,
  there,
  ap (λ t. t % slaves) {x = index + suc i} {y = index + 1 + i} (omega arith) ∙ falls,
)

listed_places :
    (index : ℕ) (ids : List ℕ) (slaves slave id : ℕ)
    → IsIn id (slave_list_from index ids slaves slave)
    → IsPlaceOf index ids slaves slave id
unfolding slave_list_from
listed_places index [] slaves slave id h = absurd h
listed_places index (x ∷ ids) slaves slave id h =
    of_test (index % slaves == slave) refl h (listed_places (index + 1) ids slaves slave id)
  where
    of_test :
        (b : Bool)
        → (index % slaves == slave) ≡ b
        → IsIn id (
            if b
            then x ∷ slave_list_from (index + 1) ids slaves slave
            else slave_list_from (index + 1) ids slaves slave)
        → (IsIn id (slave_list_from (index + 1) ids slaves slave)
            → IsPlaceOf (index + 1) ids slaves slave id)
        → IsPlaceOf index (x ∷ ids) slaves slave id
    of_test true same (inl here) rec = (
      0,
      ap some (sym here),
      ap (λ t. t % slaves) {x = index + 0} {y = index} (omega arith) ∙ (==_iff _ _).0 same,
    )
    of_test true same (inr there) rec = step_back index x ids slaves slave id (rec there)
    of_test false other h rec = step_back index x ids slaves slave id (rec h)

places_listed :
    (ids : List ℕ) (index slaves slave id i : ℕ)
    → get_elem? ids i ≡ some id
    → (index + i) % slaves ≡ slave
    → IsIn id (slave_list_from index ids slaves slave)
unfolding slave_list_from
places_listed [] index slaves slave id i there falls = cc
places_listed (x ∷ ids) index slaves slave id zero there falls =
    let mine : (index % slaves == slave) ≡ true =
      (==_iff _ _).1 (ap (λ t. t % slaves) {x = index} {y = index + 0} (omega arith) ∙ falls) in
    let same : x ≡ id = cc in rw mine (inl (sym same))
places_listed (x ∷ ids) index slaves slave id (suc i) there falls =
    let further =
      places_listed ids (index + 1) slaves slave id i there
        (ap (λ t. t % slaves) {x = index + 1 + i} {y = index + suc i} (omega arith) ∙ falls) in
    elim (Bool-cases (index % slaves == slave)) [
      | inl mine ↦ rw mine (inr further)
      | inr other ↦ rw other further
    ]

-- A full shard id is on the list of a slave exactly when it stands at a place of the whole list that
-- leaves the slave's index as the remainder by the number of slaves. So each place falls to one
-- slave, and no slave gets an id that is not listed.
pub get_full_shard_id_list_from_slave_index_iff :
    (ids : List ℕ) (slaves slave id : ℕ)
    → IsIn id (get_full_shard_id_list_from_slave_index ids slaves slave)
      ↔ ((i : ℕ) × (get_elem? ids i ≡ some id) × (i % slaves ≡ slave))
unfolding get_full_shard_id_list_from_slave_index
get_full_shard_id_list_from_slave_index_iff ids slaves slave id = (
  λ h.
      let (i, there, falls) = listed_places 0 ids slaves slave id h in
      (i, there, ap (λ t. t % slaves) {x = i} {y = 0 + i} (omega arith) ∙ falls),
  λ (i, there, falls).
      places_listed ids 0 slaves slave id i there
        (ap (λ t. t % slaves) {x = 0 + i} {y = i} (omega arith) ∙ falls),
)
