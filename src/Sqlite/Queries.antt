-- ===== src/Sqlite/Queries.antt =====
-- What the read calls and the cleanup return.
use qbt_rules.Prelude.{
  ℕ, zero, suc, ◌-◌, ◌≤◌, String, ◌≡◌, refl, ◌∙◌, ap, Option, List, [], ◌∷◌, map, arith, Bool-cases,
  inl, inr, keep, All, length, take, drop, length-keep, ltb,
}
use Prim.Native.Nat.{min}
use qbt_rules.Queue.{Job}
use qbt_rules.Sqlite.Statements.{Row, Database, matches_filters, sort_rows, insert_row}
use qbt_rules.Sqlite.{list_jobs, count_jobs, row_to_dict}

length-insert_row : (r : Row) (rs : List Row) → length (insert_row r rs) ≡ suc (length rs)
unfolding insert_row
length-insert_row r [] = refl
length-insert_row r (x ∷ xs) = ground (arith, length-insert_row r xs)

length-sort_rows : (rs : List Row) → length (sort_rows rs) ≡ length rs
unfolding sort_rows
length-sort_rows [] = refl
length-sort_rows (r ∷ rs) = omega (arith, length-insert_row r (sort_rows rs), length-sort_rows rs)

length-map_jobs : (rs : List Row) → length (map row_to_dict rs) ≡ length rs
length-map_jobs [] = refl
length-map_jobs (r ∷ rs) = ap suc (length-map_jobs rs)

length-take-drop : (n m : ℕ) (rs : List Row) → length (take n (drop m rs)) ≡ min n (length rs - m)
length-take-drop zero m rs = omega arith
length-take-drop (suc n) zero [] = omega arith
length-take-drop (suc n) zero (r ∷ rs) = omega (arith, length-take-drop n zero rs)
length-take-drop (suc n) (suc m) [] = omega arith
length-take-drop (suc n) (suc m) (r ∷ rs) = omega (arith, length-take-drop (suc n) m rs)

-- A page of list_jobs holds what is left of the matching jobs after the offset, up to the limit
-- and never more than 100, where count_jobs counts the matching jobs.
pub length-list_jobs :
    (status context : Option String) (limit offset : ℕ) (db : Database)
    → length (list_jobs status context limit offset db)
      ≡ min (min limit 100) (count_jobs status context db - offset)
unfolding list_jobs count_jobs
length-list_jobs status context limit offset db =
    let found = keep (matches_filters status context) db.jobs in
    length-map_jobs (take (min limit 100) (drop offset (sort_rows found)))
    ∙ length-take-drop (min limit 100) offset (sort_rows found)
    ∙ ap (λ (n : ℕ). min (min limit 100) (n - offset))
        (length-sort_rows found ∙ length-keep (matches_filters status context) db.jobs)

-- Newest first.
abbrev pub Newest : List Job → Type 0
Newest [] = Unit
Newest (j ∷ js) = All (λ i. i.created_at ≤ j.created_at) js × Newest js

abbrev NewestRows : List Row → Type 0
NewestRows [] = Unit
NewestRows (r ∷ rs) = All (λ x. x.created_at ≤ r.created_at) rs × NewestRows rs

All-insert_row :
    (P : Row → Type 0) (r : Row) (rs : List Row) → P r → All P rs → All P (insert_row r rs)
unfolding insert_row
All-insert_row P r [] h hs = (h, tt)
All-insert_row P r (x ∷ xs) h hs = elim (Bool-cases (ltb r.created_at x.created_at)) [
  | inl e ↦ rw e (hs.0, All-insert_row P r xs h hs.1)
  | inr e ↦ rw e (h, hs)
]

All-weaken :
    (a b : ℕ) (rs : List Row)
    → a ≤ b
    → All (λ x. x.created_at ≤ a) rs
    → All (λ x. x.created_at ≤ b) rs
All-weaken a b [] h hs = tt
All-weaken a b (r ∷ rs) h hs = (omega arith, All-weaken a b rs h hs.1)

NewestRows-insert : (r : Row) (rs : List Row) → NewestRows rs → NewestRows (insert_row r rs)
unfolding insert_row
NewestRows-insert r [] h = (tt, tt)
NewestRows-insert r (x ∷ xs) h = elim (Bool-cases (ltb r.created_at x.created_at)) [
  | inl e ↦ rw e (
    All-insert_row (λ y. y.created_at ≤ x.created_at) r xs (ground arith) h.0,
    NewestRows-insert r xs h.1,
  )
  | inr e ↦
      let older : x.created_at ≤ r.created_at = ground arith in
      rw e ((older, All-weaken x.created_at r.created_at xs older h.0), h)
]

NewestRows-sort : (rs : List Row) → NewestRows (sort_rows rs)
unfolding sort_rows
NewestRows-sort [] = tt
NewestRows-sort (r ∷ rs) = NewestRows-insert r (sort_rows rs) (NewestRows-sort rs)

All-take-drop : (P : Row → Type 0) (n m : ℕ) (rs : List Row) → All P rs → All P (take n (drop m rs))
All-take-drop P zero m rs h = tt
All-take-drop P (suc n) zero [] h = tt
All-take-drop P (suc n) zero (r ∷ rs) h = (h.0, All-take-drop P n zero rs h.1)
All-take-drop P (suc n) (suc m) [] h = tt
All-take-drop P (suc n) (suc m) (r ∷ rs) h = All-take-drop P (suc n) m rs h.1

NewestRows-take-drop : (n m : ℕ) (rs : List Row) → NewestRows rs → NewestRows (take n (drop m rs))
NewestRows-take-drop zero m rs h = tt
NewestRows-take-drop (suc n) zero [] h = tt
NewestRows-take-drop (suc n) zero (r ∷ rs) h = (
  All-take-drop (λ x. x.created_at ≤ r.created_at) n zero rs h.0,
  NewestRows-take-drop n zero rs h.1,
)
NewestRows-take-drop (suc n) (suc m) [] h = tt
NewestRows-take-drop (suc n) (suc m) (r ∷ rs) h = NewestRows-take-drop (suc n) m rs h.1

All-dict :
    (t : ℕ) (rs : List Row)
    → All (λ x. x.created_at ≤ t) rs
    → All (λ j. j.created_at ≤ t) (map row_to_dict rs)
unfolding row_to_dict
All-dict t [] h = tt
All-dict t (r ∷ rs) h = (h.0, All-dict t rs h.1)

Newest-dict : (rs : List Row) → NewestRows rs → Newest (map row_to_dict rs)
unfolding row_to_dict
Newest-dict [] h = tt
Newest-dict (r ∷ rs) h = (All-dict r.created_at rs h.0, Newest-dict rs h.1)

-- Every page of list_jobs is in order of creation, newest first.
pub list_jobs-Newest :
    (status context : Option String) (limit offset : ℕ) (db : Database)
    → Newest (list_jobs status context limit offset db)
unfolding list_jobs
list_jobs-Newest status context limit offset db =
    let sorted = sort_rows (keep (matches_filters status context) db.jobs) in
    Newest-dict (take (min limit 100) (drop offset sorted)) (
      NewestRows-take-drop (min limit 100) offset sorted
        (NewestRows-sort (keep (matches_filters status context) db.jobs)))
