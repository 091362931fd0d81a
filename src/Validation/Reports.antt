-- ===== src/Validation/Reports.antt =====
-- What a report without errors says of its parts.
use qbt_rules.Prelude.{
  ◌≡◌, refl, Bool, true, false, ◌&&◌, List, [], ◌∷◌, ◌++◌, all, if◌then◌else◌, arith,
}
use qbt_rules.Conditions.{ok, err}
use qbt_rules.Validation.{Report, Issue, ◌<+>◌, no_errors, not_error}
use qbt_rules.Validation.Evaluable.{both_true}

pub all_append : (p : Issue → Bool) (a b : List Issue) → all p (a ++ b) ≡ all p a && all p b
all_append p [] b = refl
all_append p (i ∷ a) b = ground (arith, all_append p a b)

pub no_errors-join : (a b : Report) → no_errors (a <+> b) ≡ no_errors a && no_errors b
unfolding no_errors ◌<+>◌
no_errors-join (ok a) (ok b) = all_append not_error a b
no_errors-join (ok a) (err e) = ground arith
no_errors-join (err e) r = refl

pub clean_both :
    (a b : Report) → no_errors (a <+> b) ≡ true → (no_errors a ≡ true) × (no_errors b ≡ true)
clean_both a b h = ground (arith, no_errors-join a b, h)

pub either_way :
    (b : Bool) (r s : Report) (x y : Bool)
    → no_errors (if b then r else s) ≡ true
    → (no_errors r ≡ true → x ≡ true)
    → (no_errors s ≡ true → y ≡ true)
    → (if b then x else y) ≡ true
either_way true r s x y h p q = p h
either_way false r s x y h p q = q h

-- Three checks, each of which shows something.
pub three :
    (a b c : Report) (x y z : Bool)
    → no_errors (a <+> b <+> c) ≡ true
    → (no_errors a ≡ true → x ≡ true)
    → (no_errors b ≡ true → y ≡ true)
    → (no_errors c ≡ true → z ≡ true)
    → x && y && z ≡ true
three a b c x y z h p q r =
    let (ha, hbc) = clean_both a (b <+> c) h in
    let (hb, hc) = clean_both b c hbc in both_true (x && y) z (both_true x y (p ha) (q hb)) (r hc)

-- The three cases of a mapping: a reference, groups, a leaf.
pub mapping_cases :
    (ref groups : Bool) (siblings extra a b c leaf : Report) (x y z l : Bool)
    → no_errors (if ref then siblings else if groups then extra <+> a <+> b <+> c else leaf) ≡ true
    → (no_errors a ≡ true → x ≡ true)
    → (no_errors b ≡ true → y ≡ true)
    → (no_errors c ≡ true → z ≡ true)
    → (no_errors leaf ≡ true → l ≡ true)
    → (if ref then true else if groups then x && y && z else l) ≡ true
mapping_cases true groups siblings extra a b c leaf x y z l h p q r t = refl
mapping_cases false true siblings extra a b c leaf x y z l h p q r t =
    three a b c x y z ((clean_both extra (a <+> b <+> c) h).1) p q r
mapping_cases false false siblings extra a b c leaf x y z l h p q r t = t h

pub top_cases :
    (ref : Bool) (siblings ignored missing a b c : Report) (x y z : Bool)
    → no_errors (if ref then siblings else ignored <+> missing <+> a <+> b <+> c) ≡ true
    → (no_errors a ≡ true → x ≡ true)
    → (no_errors b ≡ true → y ≡ true)
    → (no_errors c ≡ true → z ≡ true)
    → (if ref then true else x && y && z) ≡ true
top_cases true siblings ignored missing a b c x y z h p q r = refl
top_cases false siblings ignored missing a b c x y z h p q r =
    three a b c x y z
      ((clean_both missing (a <+> b <+> c)
        ((clean_both ignored (missing <+> a <+> b <+> c) h).1)).1)
      p q r

pub block_cases :
    (ref groups : Bool) (siblings extra a b c whole : Report) (x y z l : Bool)
    → no_errors (if ref then siblings else if groups then (a <+> b <+> c) <+> extra else whole)
      ≡ true
    → (no_errors a ≡ true → x ≡ true)
    → (no_errors b ≡ true → y ≡ true)
    → (no_errors c ≡ true → z ≡ true)
    → (no_errors whole ≡ true → (if ref then true else if groups then x && y && z else l) ≡ true)
    → (if ref then true else if groups then x && y && z else l) ≡ true
block_cases true groups siblings extra a b c whole x y z l h p q r t = refl
block_cases false true siblings extra a b c whole x y z l h p q r t =
    three a b c x y z ((clean_both (a <+> b <+> c) extra h).0) p q r
block_cases false false siblings extra a b c whole x y z l h p q r t = t h
