-- ===== src/Resolver/Termination.antt =====
-- `_expand_refs` of src/qbt_rules/resolver.py ends: each reference that it follows is new on the stack
-- and has a block, and there are finitely many of these.
use Prim.Native.Char.{Char, code}
use text.Mathlib.TextEquality.{Char-path}
use text.Mathlib.TextLemmas.{nil-append, cons-append}
use qbt_rules.Prelude.{
  ℕ, zero, suc, ◌≤◌, ◌<◌, String, ◌≡◌, refl, sym, ap, subst, ◌∙◌, Bool, true, false, Option, none,
  some, List, [], ◌∷◌, ◌++◌, not, count_if, str_eq, str_in, str_append, ◌==◌, arith, eq_iff,
  eq_refl, Bool-cases, Option-cases, inl, inr, ==_iff,
}
use qbt_rules.Value.{
  Value, null, bool, num, str, list, dict, Items, nil, cons, Fields, end, field, get, keys,
}
use qbt_rules.Utils.{split_dot}
use qbt_rules.Resolver.{
  ResolverError, unknown_ref, Outcome, done, raised, out_of_fuel, ◌>>=◌, RuleResolver, found,
  lookup_in, lookup_ref, if_ref, follow, follow_ref, expand_value, expand_fields, expand_items,
  expand_refs, prefixed, ref_paths,
}

abbrev pub is_finished {ℓ} : {A : Type ℓ} → Outcome A → Bool
is_finished (done a) = true
is_finished (raised e) = true
is_finished out_of_fuel = false

pub is_finished-bind :
    {A B : Type 0} (m : Outcome A) (f : A → Outcome B)
    → is_finished m ≡ true
    → ((a : A) → is_finished (f a) ≡ true)
    → is_finished (m >>= f) ≡ true
unfolding ◌>>=◌
is_finished-bind (done a) f p q = q a
is_finished-bind (raised e) f p q = refl
is_finished-bind out_of_fuel f p q = p

if_ref-finishes :
    (o : Option Value) (f : Value → Outcome Value) (rest : Outcome Value)
    → ((ref : Value) → is_finished (f ref) ≡ true)
    → is_finished rest ≡ true
    → is_finished (if_ref o f rest) ≡ true
if_ref-finishes (some ref) f rest p q = p ref
if_ref-finishes none f rest p q = q

-- How many references with a block are not on the stack.
unfoldable pub remaining : RuleResolver → List String → ℕ
remaining r stack = count_if (λ p. not (str_in p stack)) (ref_paths r)

pushed-le :
    (path : String) (stack paths : List String)
    → count_if (λ p. not (str_in p (path ∷ stack))) paths
      ≤ count_if (λ p. not (str_in p stack)) paths
pushed-le path stack [] = omega arith
pushed-le path stack (p ∷ paths) = ground (arith, pushed-le path stack paths)

pushed-lt :
    (path : String) (stack paths : List String)
    → str_in path paths ≡ true
    → str_in path stack ≡ false
    → count_if (λ p. not (str_in p (path ∷ stack))) paths
      < count_if (λ p. not (str_in p stack)) paths
pushed-lt path stack [] there new = ground (arith, there)
pushed-lt path stack (p ∷ paths) there new = elim (Bool-cases (str_eq path p)) [
  | inl e ↦
      let same : path ≡ p = (eq_iff path p).0 e in
      ground (
        arith,
        pushed-le path stack paths,
        eq_refl p,
        ap (λ x. str_in x stack) same,
        new,
        eq_iff p path,
        same,
      )
  | inr e ↦ ground (arith, pushed-lt path stack paths, e, there, new)
]

-- `"a.b".split(".", 1)` and back
dot_front : (c : Char) (s : String) → (code c == b'.') ≡ true → String.◌∷◌ c s ≡ str_append "." s
dot_front c s e =
    let same : c ≡ "." = Char-path c "." ((==_iff (code c) b'.').0 e) in
    ap (λ d. String.◌∷◌ d s) same
    ∙ sym (cons-append "." "" s ∙ ap (λ t. String.◌∷◌ "." t) (nil-append s))

split_dot-join :
    (s : String) (group name : String)
    → split_dot s ≡ some (group, name)
    → s ≡ str_append group (str_append "." name)
unfolding split_dot
split_dot-join String.[] group name e = cc
split_dot-join (String.◌∷◌ c s) group name e = elim (Bool-cases (code c == b'.')) [
  | inl dot ↦
      let g : group ≡ "" = ground (arith, e, dot) in
      let n : s ≡ name = ground (arith, e, dot) in
      dot_front c s dot
      ∙ ap (λ t. str_append "." t) n
      ∙ sym (ap (λ t. str_append t (str_append "." name)) g ∙ nil-append (str_append "." name))
  | inr other ↦ (elim (Option-cases (split_dot s)) [
    | inl missing ↦ ground (arith, e, other, missing)
    | inr ((front, back), split) ↦
        let g : group ≡ String.◌∷◌ c front = ground (arith, e, other, split) in
        let n : back ≡ name = ground (arith, e, other, split) in
        ap (λ t. String.◌∷◌ c t) (split_dot-join s front back split)
        ∙ sym (cons-append c front (str_append "." back))
        ∙ ap (λ t. str_append t (str_append "." back)) (sym g)
        ∙ ap (λ t. str_append group (str_append "." t)) n
  ])
]

-- A key of a table is among the references to it.
key_in_prefixed :
    (group name : String) (fs : Fields) (v : Value)
    → get name fs ≡ some v
    → str_in (str_append group (str_append "." name)) (prefixed group (keys fs)) ≡ true
unfolding get
key_in_prefixed group name end v e = ground (arith, e)
key_in_prefixed group name (field k w fs) v e = elim (Bool-cases (str_eq k name)) [
  | inl same ↦ rw ((eq_iff k name).0 same) (rw (eq_refl (str_append group (str_append "." name))))
  | inr other ↦
      let rest = key_in_prefixed group name fs v (ground (arith, e, other)) in ground (arith, rest)
]

str_in-append_left :
    (x : String) (xs ys : List String) → str_in x xs ≡ true → str_in x (xs ++ ys) ≡ true
str_in-append_left x [] ys h = ground (arith, h)
str_in-append_left x (y ∷ xs) ys h = ground (arith, str_in-append_left x xs ys, h)

str_in-append_right :
    (x : String) (xs ys : List String) → str_in x ys ≡ true → str_in x (xs ++ ys) ≡ true
str_in-append_right x [] ys h = h
str_in-append_right x (y ∷ xs) ys h = ground (arith, str_in-append_right x xs ys h)

found-get : (x : ResolverError) (o : Option Value) (v : Value) → found x o ≡ done v → o ≡ some v
found-get x none v e = ground (arith, e)
found-get x (some w) v e = ground (arith, e)

-- A reference that has a block is one of `ref_paths`.
lookup_in-known :
    (r : RuleResolver) (path group name : String) (v : Value)
    → lookup_in r path (some (group, name)) ≡ done v
    → str_in (str_append group (str_append "." name)) (ref_paths r) ≡ true
unfolding ref_paths
lookup_in-known r path group name v e = elim (Bool-cases (str_eq group "conditions")) [
  | inl c ↦
      let same = (eq_iff group "conditions").0 c in
      let got = found-get (unknown_ref path) (get name r.conditions) v (rw c at e) in
      rw same (
        str_in-append_left (str_append "conditions" (str_append "." name))
          (prefixed "conditions" (keys r.conditions)) (prefixed "actions" (keys r.actions))
          (key_in_prefixed "conditions" name r.conditions v got))
  | inr c ↦ (elim (Bool-cases (str_eq group "actions")) [
    | inl a ↦
        let same = (eq_iff group "actions").0 a in
        let got = found-get (unknown_ref path) (get name r.actions) v (rw a at (rw c at e)) in
        rw same (
          str_in-append_right (str_append "actions" (str_append "." name))
            (prefixed "conditions" (keys r.conditions)) (prefixed "actions" (keys r.actions))
            (key_in_prefixed "actions" name r.actions v got))
    | inr a ↦ ground (arith, e, c, a)
  ])
]

lookup_ref-known :
    (r : RuleResolver) (path : String) (v : Value)
    → lookup_ref r path ≡ done v
    → str_in path (ref_paths r) ≡ true
unfolding lookup_ref
lookup_ref-known r path v e = elim (Option-cases (split_dot path)) [
  | inl missing ↦ ground (arith, e, missing)
  | inr ((group, name), split) ↦
      subst (λ p. str_in p (ref_paths r) ≡ true) (sym (split_dot-join path group name split))
        (lookup_in-known r path group name v (rw split at e))
]

lookup_ref-finishes : (r : RuleResolver) (path : String) → is_finished (lookup_ref r path) ≡ true
unfolding lookup_ref
lookup_ref-finishes r path = ground arith

module _ (r : RuleResolver) (allowed : Option (List String))
    (jump : List String → Value → Outcome Value) (stack : List String)
    (next : (path : String) (block : Value)
      → str_in path stack ≡ false
      → str_in path (ref_paths r) ≡ true
      → is_finished (jump (path ∷ stack) block) ≡ true) where
  follow_block-finishes :
      (path : String)
      → str_in path stack ≡ false
      → is_finished (lookup_ref r path >>= jump (path ∷ stack)) ≡ true
  unfolding ◌>>=◌
  follow_block-finishes path new = by_result (lookup_ref r path) refl
    where
      by_result :
          (m : Outcome Value)
          → lookup_ref r path ≡ m
          → is_finished (m >>= jump (path ∷ stack)) ≡ true
      by_result (done v) e = next path v new (lookup_ref-known r path v e)
      by_result (raised x) e = refl
      by_result out_of_fuel e = ground (arith, lookup_ref-finishes r path, e)

  follow-finishes :
      (path : String) (parts : Option (String × String))
      → is_finished (follow r allowed jump stack path parts) ≡ true
  follow-finishes path none = refl
  follow-finishes path (some (group, name)) = elim (Bool-cases (str_in path stack)) [
    | inl old ↦ ground (arith, old)
    | inr new ↦ ground (arith, new, follow_block-finishes path new)
  ]

  ref_finishes : (v : Value) → is_finished (follow_ref r allowed jump stack v) ≡ true
  unfolding follow_ref
  ref_finishes (str path) = follow-finishes path (split_dot path)
  ref_finishes null = refl
  ref_finishes (bool b) = refl
  ref_finishes (num n) = refl
  ref_finishes (list vs) = refl
  ref_finishes (dict fs) = refl

  mutual
    unfolding expand_value

    value_finishes : (v : Value) → is_finished (expand_value r allowed jump stack v) ≡ true
    value_finishes null = refl
    value_finishes (bool b) = refl
    value_finishes (num n) = refl
    value_finishes (str s) = refl
    value_finishes (list vs) =
        is_finished-bind (expand_items r allowed jump stack vs) (λ vs'. done (list vs'))
          (items_finish vs) (λ vs'. refl)
    value_finishes (dict fs) =
        if_ref-finishes (get "$ref" fs) (follow_ref r allowed jump stack)
          (expand_fields r allowed jump stack fs >>= (λ fs'. done (dict fs'))) ref_finishes
          (is_finished-bind (expand_fields r allowed jump stack fs) (λ fs'. done (dict fs'))
            (fields_finish fs) (λ fs'. refl))

    fields_finish : (fs : Fields) → is_finished (expand_fields r allowed jump stack fs) ≡ true
    fields_finish end = refl
    fields_finish (field k v fs) =
        is_finished-bind _ _ (value_finishes v)
          (λ v'. is_finished-bind _ _ (fields_finish fs) (λ fs'. refl))

    items_finish : (vs : Items) → is_finished (expand_items r allowed jump stack vs) ≡ true
    items_finish nil = refl
    items_finish (cons v vs) =
        is_finished-bind _ _ (value_finishes v)
          (λ v'. is_finished-bind _ _ (items_finish vs) (λ vs'. refl))

  pub expand_value-finishes : (v : Value) → is_finished (expand_value r allowed jump stack v) ≡ true
  expand_value-finishes v = value_finishes v

-- Fuel for every reference that is not on the stack is enough.
pub expand_refs-finishes :
    (r : RuleResolver) (allowed : Option (List String)) (fuel : ℕ) (stack : List String) (v : Value)
    → remaining r stack ≤ fuel
    → is_finished (expand_refs r allowed fuel stack v) ≡ true
unfolding expand_refs remaining
expand_refs-finishes r allowed zero stack v enough =
    expand_value-finishes r allowed _ stack
      (λ path block new known.
        let less = pushed-lt path stack (ref_paths r) known new in absurd (omega arith))
      v
expand_refs-finishes r allowed (suc fuel) stack v enough =
    expand_value-finishes r allowed (expand_refs r allowed fuel) stack
      (λ path block new known.
        let less = pushed-lt path stack (ref_paths r) known new in
        expand_refs-finishes r allowed fuel (path ∷ stack) block (omega arith))
      v
