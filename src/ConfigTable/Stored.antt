-- ===== src/ConfigTable/Stored.antt =====
-- What is read back of a value that was written.
use btc_idx_service.Chain.Rows.{true≢false, count-none}
use btc_idx_service.Prelude.{
  some, [], true, false, inl, inr, ◌∷◌, ◌≡◌, ◌≤◌, ◌==◌, refl, arith, List, ℕ, find, exists,
  Bool-cases, sym, ==_iff, ap, Option, if◌then◌else◌, none, subst,
}
use btc_idx_service.ConfigTable.{
  ConfigRow, count, find, exists, affected, write, has_key, update, row_of, get_config,
  upsert_config, read, decoded,
}
use btc_idx_service.Sql.{count, update}
use btc_idx_service.Prelude.Run.{ok, Returns}

-- `key` is unique.
abbrev pub IsConfig : List ConfigRow → Type 0
IsConfig rows = (k : ℕ) → count (has_key k) rows ≤ 1

abbrev pub set_value : ℕ → ConfigRow → ConfigRow
set_value v r = record r { value = v }

find-update :
    (k v : ℕ) (rows : List ConfigRow)
    → exists (has_key k) rows ≡ true
    → find (has_key k) (update (has_key k) (set_value v) rows) ≡ some (row_of k v)
find-update k v [] h = absurd (true≢false (sym h))
find-update k v (r ∷ rows) h = elim (Bool-cases (r.key == k)) [
  | inl e ↦ rw e (rw e (ap (λ n. some (row_of n v)) ((==_iff r.key k).0 e)))
  | inr e ↦ rw e (rw e (find-update k v rows (rw e at h)))
]

find_other-update :
    (k j v : ℕ) (rows : List ConfigRow)
    → (k == j) ≡ false
    → find (has_key j) (update (has_key k) (set_value v) rows) ≡ find (has_key j) rows
find_other-update k j v [] h = refl
find_other-update k j v (r ∷ rows) h = ground (arith, find_other-update k j v rows)

count-update :
    (k j v : ℕ) (rows : List ConfigRow)
    → count (has_key j) (update (has_key k) (set_value v) rows) ≡ count (has_key j) rows
count-update k j v [] = refl
count-update k j v (r ∷ rows) = ground (arith, count-update k j v rows)

count-exists :
    (k : ℕ) (rows : List ConfigRow) → exists (has_key k) rows ≡ true → 1 ≤ count (has_key k) rows
count-exists k [] h = absurd (true≢false (sym h))
count-exists k (r ∷ rows) h = ground (arith, count-exists k rows)

pub affected_lem : (k : ℕ) (rows : List ConfigRow) → IsConfig rows → affected k rows ≡ 1
affected_lem k rows u = elim (Bool-cases (exists (has_key k) rows)) [
  | inl e ↦ rw e (grind (arith, count-exists k rows e, u k))
  | inr e ↦ rw e refl
]

pub find-write :
    (k v : ℕ) (rows : List ConfigRow) → find (has_key k) (write k v rows) ≡ some (row_of k v)
find-write k v rows = elim (Bool-cases (exists (has_key k) rows)) [
  | inl e ↦ rw e (find-update k v rows e)
  | inr e ↦ rw (e, (==_iff k k).1 refl) refl
]

find_other-write :
    (k j v : ℕ) (rows : List ConfigRow)
    → (k == j) ≡ false
    → find (has_key j) (write k v rows) ≡ find (has_key j) rows
find_other-write k j v rows h = elim (Bool-cases (exists (has_key k) rows)) [
  | inl e ↦ rw e (find_other-update k j v rows h)
  | inr e ↦ rw (e, h) refl
]

count-insert :
    (k v j : ℕ) (rows : List ConfigRow)
    → exists (has_key k) rows ≡ false
    → count (has_key j) rows ≤ 1
    → count (has_key j) (row_of k v ∷ rows) ≤ 1
count-insert k v j rows none_yet u = elim (Bool-cases (k == j)) [
  | inl e ↦
      let none_here =
        subst (λ n. count (has_key n) rows ≡ 0) ((==_iff k j).0 e)
          (count-none (has_key k) rows none_yet) in
      rw (e, none_here) (omega arith)
  | inr e ↦ rw e u
]

pub write-IsConfig : (k v : ℕ) (rows : List ConfigRow) → IsConfig rows → IsConfig (write k v rows)
write-IsConfig k v rows u j = elim (Bool-cases (exists (has_key k) rows)) [
  | inl e ↦ rw (e, count-update k j v rows) (u j)
  | inr e ↦ rw e (count-insert k v j rows e (u j))
]

module _ {U : Type 0} (deserialize : ℕ → Option U) where
  decoded_same : (o : Option U) (s t : List ConfigRow) → (decoded o s).0 ≡ (decoded o t).0
  decoded_same none s t = refl
  decoded_same (some u) s t = refl

  read_same :
      (o : Option ConfigRow) (s t : List ConfigRow)
      → (read deserialize o s).0 ≡ (read deserialize o t).0
  read_same none s t = refl
  read_same (some r) s t = decoded_same (deserialize r.value) s t

-- In a table with unique keys, writing a value returns, leaves the keys unique, and is read back
-- under its key, while what is read under another key stays, if the value survives its JSON.
pub get_config-upsert_config :
    {U : Type 0} (serialize : U → ℕ) (deserialize : ℕ → Option U) (k j : ℕ) (u : U)
    (rows : List ConfigRow)
    → ((u : U) → deserialize (serialize u) ≡ some u)
    → IsConfig rows
    → Returns
        (λ _ rows'.
          IsConfig rows'
          × ((get_config deserialize j rows').0
              ≡ (if k == j then ok (some u) else (get_config deserialize j rows).0)))
        (upsert_config serialize k u rows)
unfolding get_config upsert_config
get_config-upsert_config serialize deserialize k j u rows json unique =
    rw (affected_lem k rows unique) (
      write-IsConfig k (serialize u) rows unique,
      elim (Bool-cases (k == j)) [
        | inl e ↦ rw (e, sym ((==_iff k j).0 e), find-write k (serialize u) rows, json u) refl
        | inr e ↦
            rw (e, find_other-write k j (serialize u) rows e)
              (read_same deserialize (find (has_key j) rows) (write k (serialize u) rows) rows)
      ],
    )
