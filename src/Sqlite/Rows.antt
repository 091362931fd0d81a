-- ===== src/Sqlite/Rows.antt =====
-- How the statements of Sqlite/Statements.antt change what a lookup by key finds.
use mathlib.Core.Option
use qbt_rules.Prelude.{
  suc, String, ◌≡◌, refl, ap, Bool, false, ◌&&◌, ◌||◌, Option, none, some, List, [], ◌∷◌, ◌++◌, map,
  not, arith, if◌then◌else◌, keep, is_some, str_eq, eq_iff, eq_refl, str_in, Distinct, Bool-cases,
  length, inl, inr,
}
use qbt_rules.Sqlite.Statements.{
  Row, QueueRow, find_row, is_queued, update_rows, delete_queue, cascade,
}

abbrev pub row_ids : List Row → List String
row_ids = map (λ r. r.id)

abbrev pub queue_ids : List QueueRow → List String
queue_ids = map (λ q. q.job_id)

abbrev pub or_else {ℓ} : {A : Type ℓ} → Option A → Option A → Option A
or_else none b = b
or_else (some a) b = some a

pub str_in-append :
    (x : String) (xs : List String) (y : String)
    → str_in x (xs ++ y ∷ []) ≡ (str_in x xs || str_eq x y)
str_in-append x [] y = ground arith
str_in-append x (z ∷ zs) y = ground (arith, str_in-append x zs y)

pub Distinct-append :
    (xs : List String) (y : String) → Distinct xs → str_in y xs ≡ false → Distinct (xs ++ y ∷ [])
Distinct-append [] y d h = (refl, tt)
Distinct-append (x ∷ xs) y d h = (
  ground (arith, str_in-append x xs y, eq_iff x y, eq_iff y x),
  Distinct-append xs y d.1 (ground arith),
)

pub str_in-row_ids : (k : String) (rs : List Row) → str_in k (row_ids rs) ≡ is_some (find_row k rs)
unfolding find_row
str_in-row_ids k [] = refl
str_in-row_ids k (r ∷ rs) = ground (arith, str_in-row_ids k rs, eq_iff k r.id, eq_iff r.id k)

pub str_in-queue_ids : (k : String) (qs : List QueueRow) → str_in k (queue_ids qs) ≡ is_queued k qs
unfolding is_queued
str_in-queue_ids k [] = refl
str_in-queue_ids k (q ∷ qs) =
    ground (arith, str_in-queue_ids k qs, eq_iff k q.job_id, eq_iff q.job_id k)

pub find_row-append :
    (k : String) (rs : List Row) (r : Row)
    → find_row k (rs ++ r ∷ []) ≡ or_else (find_row k rs) (if str_eq r.id k then some r else none)
unfolding find_row
find_row-append k [] r = refl
find_row-append k (x ∷ xs) r = ground (arith, find_row-append k xs r)

pub is_queued-append :
    (k : String) (qs : List QueueRow) (q : QueueRow)
    → is_queued k (qs ++ q ∷ []) ≡ (is_queued k qs || str_eq q.job_id k)
unfolding is_queued
is_queued-append k [] q = ground arith
is_queued-append k (x ∷ xs) q = ground (arith, is_queued-append k xs q)

pub is_queued-delete :
    (k j : String) (qs : List QueueRow)
    → is_queued k (delete_queue j qs) ≡ (if str_eq j k then false else is_queued k qs)
unfolding is_queued delete_queue
is_queued-delete k j [] = ground arith
is_queued-delete k j (q ∷ qs) =
    ground (arith, is_queued-delete k j qs, eq_iff q.job_id j, eq_iff q.job_id k, eq_iff j k)

pub is_queued-cascade :
    (k : String) (gone : List Row) (qs : List QueueRow)
    → is_queued k (cascade gone qs) ≡ (is_queued k qs && not (is_some (find_row k gone)))
unfolding is_queued cascade
is_queued-cascade k gone [] = refl
is_queued-cascade k gone (q ∷ qs) = elim (Bool-cases (str_eq q.job_id k)) [
  | inl e ↦
      rw ((eq_iff q.job_id k).0 e)
        (rw (eq_refl k) (ground (arith, is_queued-cascade k gone qs, eq_refl k)))
  | inr e ↦ ground (arith, is_queued-cascade k gone qs)
]

module _ (f : Row → Row) (keeps_id : (r : Row) → (f r).id ≡ r.id) where
  pub find_row-update :
      (k j : String) (rs : List Row)
      → find_row k (update_rows j f rs)
        ≡ (if str_eq j k then Option.map f (find_row k rs) else find_row k rs)
  unfolding find_row update_rows
  find_row-update k j [] = ground arith
  find_row-update k j (r ∷ rs) =
      ground (arith, find_row-update k j rs, keeps_id r, eq_iff r.id j, eq_iff r.id k, eq_iff j k)

  pub row_ids-update : (j : String) (rs : List Row) → row_ids (update_rows j f rs) ≡ row_ids rs
  unfolding update_rows
  row_ids-update j [] = refl
  row_ids-update j (r ∷ rs) = ground (arith, row_ids-update j rs, keeps_id r)

  pub length-update : (j : String) (rs : List Row) → length (update_rows j f rs) ≡ length rs
  unfolding update_rows
  length-update j [] = refl
  length-update j (r ∷ rs) = ap suc (length-update j rs)

-- An option whose value passes a test.
abbrev pub only_if : (Row → Bool) → Option Row → Option Row
only_if p none = none
only_if p (some r) = if p r then some r else none

module _ (p : Row → Bool) where
  pub find_row-missing :
      (k : String) (rs : List Row) → find_row k rs ≡ none → find_row k (keep p rs) ≡ none
  unfolding find_row
  find_row-missing k [] h = refl
  find_row-missing k (r ∷ rs) h = ground (arith, find_row-missing k rs)

  pub find_row-keep :
      (k : String) (rs : List Row)
      → Distinct (row_ids rs)
      → find_row k (keep p rs) ≡ only_if p (find_row k rs)
  unfolding find_row
  find_row-keep k [] d = refl
  find_row-keep k (r ∷ rs) d = ground (
    arith,
    find_row-keep k rs d.1,
    find_row-missing k rs,
    str_in-row_ids r.id rs,
    eq_iff r.id k,
    d.0,
  )

  str_in-keep :
      (k : String) (rs : List Row)
      → str_in k (row_ids rs) ≡ false
      → str_in k (row_ids (keep p rs)) ≡ false
  str_in-keep k [] h = refl
  str_in-keep k (r ∷ rs) h = ground (arith, str_in-keep k rs)

  pub Distinct-keep : (rs : List Row) → Distinct (row_ids rs) → Distinct (row_ids (keep p rs))
  Distinct-keep [] d = tt
  Distinct-keep (r ∷ rs) d = elim (Bool-cases (p r)) [
    | inl e ↦ rw e (str_in-keep r.id rs d.0, Distinct-keep rs d.1)
    | inr e ↦ rw e (Distinct-keep rs d.1)
  ]
