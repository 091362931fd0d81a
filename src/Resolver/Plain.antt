-- ===== src/Resolver/Plain.antt =====
-- Values without references (src/qbt_rules/resolver.py): an expansion is one, and expanding one leaves it
-- as it is.
use qbt_rules.Prelude.{
  ℕ, zero, suc, String, ◌≡◌, refl, subst, Bool, true, false, ◌&&◌, ◌||◌, Option, none, some, List,
  [], ◌∷◌, length, not, str_in, str_eq, if◌then◌else◌, arith,
}
use qbt_rules.Value.{
  Value, null, bool, num, str, list, dict, Items, nil, cons, Fields, end, field, get, has_key,
}
use qbt_rules.Utils.{split_dot}
use qbt_rules.Resolver.{
  invalid_ref, ref_type_mismatch, circular_ref, Outcome, done, raised, out_of_fuel, ◌>>=◌,
  RuleResolver, lookup_ref, allows, is_ref, if_ref, append, splice, follow, follow_ref,
  expand_value, expand_fields, expand_items, expand_refs, ref_paths,
}
use qbt_rules.Resolver.Rule.{expand}

-- No mapping in the value has the key `$ref`.
unfoldable mutual
  pub is_plain : Value → Bool
  is_plain (dict fs) = not (has_key "$ref" fs) && plain_fields fs
  is_plain (list vs) = plain_items vs
  is_plain null = true
  is_plain (bool b) = true
  is_plain (num n) = true
  is_plain (str s) = true

  pub plain_fields : Fields → Bool
  plain_fields end = true
  plain_fields (field k v fs) = is_plain v && plain_fields fs

  pub plain_items : Items → Bool
  plain_items nil = true
  plain_items (cons v vs) = is_plain v && plain_items vs

-- What holds of the result, if there is one.
abbrev pub IfDone {ℓ κ} : {A : Type ℓ} → (A → Type κ) → Outcome A → Type κ
IfDone P (done a) = P a
IfDone P (raised e) = Unit
IfDone P out_of_fuel = Unit

pub IfDone-bind :
    {A B : Type 0} (P : A → Type 0) (Q : B → Type 0) (m : Outcome A) (f : A → Outcome B)
    → IfDone P m
    → ((a : A) → P a → IfDone Q (f a))
    → IfDone Q (m >>= f)
unfolding ◌>>=◌
IfDone-bind P Q (done a) f p q = q a p
IfDone-bind P Q (raised e) f p q = tt
IfDone-bind P Q out_of_fuel f p q = tt

pub IfDone-weaken :
    {A : Type 0} (P Q : A → Type 0) (m : Outcome A)
    → IfDone P m
    → ((a : A) → P a → Q a)
    → IfDone Q m
IfDone-weaken P Q (done a) p q = q a p
IfDone-weaken P Q (raised e) p q = tt
IfDone-weaken P Q out_of_fuel p q = tt

pub IfDone-if :
    {A : Type 0} (P : A → Type 0) (b : Bool) (l r : Outcome A)
    → IfDone P l
    → IfDone P r
    → IfDone P (if b then l else r)
IfDone-if P true l r p q = p
IfDone-if P false l r p q = q

pub anything : {A : Type 0} (m : Outcome A) → IfDone (λ a. Unit {0}) m
anything (done a) = tt
anything (raised e) = tt
anything out_of_fuel = tt

abbrev IsPlain : Value → Type 0
IsPlain v = is_plain v ≡ true

-- Expanded fields have the keys that they had.
abbrev PlainLike : Fields → Fields → Type 0
PlainLike fs fs' = (plain_fields fs' ≡ true) × (has_key "$ref" fs' ≡ has_key "$ref" fs)

plain_append :
    (vs ws : Items)
    → plain_items vs ≡ true
    → plain_items ws ≡ true
    → plain_items (append vs ws) ≡ true
unfolding is_plain
plain_append nil ws p q = q
plain_append (cons v vs) ws p q = ground (arith, plain_append vs ws, p, q)

plain_splice :
    (b : Bool) (v : Value) (rest : Items)
    → is_plain v ≡ true
    → plain_items rest ≡ true
    → plain_items (splice b v rest) ≡ true
unfolding is_plain
plain_splice true (list vs) rest p q = plain_append vs rest p q
plain_splice true (dict fs) rest p q = ground (arith, p, q)
plain_splice true (str s) rest p q = q
plain_splice true null rest p q = q
plain_splice true (bool b) rest p q = q
plain_splice true (num n) rest p q = q
plain_splice false v rest p q = ground (arith, p, q)

like :
    (k : String) (v v' : Value) (fs fs' : Fields)
    → is_plain v' ≡ true
    → PlainLike fs fs'
    → PlainLike (field k v fs) (field k v' fs')
unfolding is_plain get
like k v v' fs fs' p q = ground (arith, p, q)

module _ (r : RuleResolver) (allowed : Option (List String))
    (jump : List String → Value → Outcome Value) (stack : List String)
    (block : (stack' : List String) (v : Value) → IfDone IsPlain (jump stack' v)) where
  follow-IsPlain :
      (path : String) (parts : Option (String × String))
      → IfDone IsPlain (follow r allowed jump stack path parts)
  follow-IsPlain path none = tt
  follow-IsPlain path (some (group, name)) =
      IfDone-if IsPlain (not (str_eq group "conditions" || str_eq group "actions"))
        (raised (invalid_ref (str path))) _ tt
        (IfDone-if IsPlain (not (allows allowed group)) (raised (ref_type_mismatch path)) _ tt (
          IfDone-if IsPlain (str_in path stack) (raised (circular_ref path)) _ tt (
            IfDone-bind (λ v. Unit {0}) IsPlain (lookup_ref r path) (jump (path ∷ stack))
              (anything (lookup_ref r path)) (λ v u. block (path ∷ stack) v))))

  ref-IsPlain : (v : Value) → IfDone IsPlain (follow_ref r allowed jump stack v)
  unfolding follow_ref
  ref-IsPlain (str path) = follow-IsPlain path (split_dot path)
  ref-IsPlain null = tt
  ref-IsPlain (bool b) = tt
  ref-IsPlain (num n) = tt
  ref-IsPlain (list vs) = tt
  ref-IsPlain (dict fs) = tt

  -- a mapping with a reference is replaced, any other is expanded field by field
  if_ref-IsPlain :
      (fs : Fields) (o : Option Value)
      → get "$ref" fs ≡ o
      → IfDone (PlainLike fs) (expand_fields r allowed jump stack fs)
      → IfDone IsPlain (
          if_ref o
            (follow_ref r allowed jump stack)
            (expand_fields r allowed jump stack fs >>= (λ fs'. done (dict fs'))))
  unfolding is_plain
  if_ref-IsPlain fs (some ref) e p = ref-IsPlain ref
  if_ref-IsPlain fs none e p =
      IfDone-bind (PlainLike fs) IsPlain (expand_fields r allowed jump stack fs)
        (λ fs'. done (dict fs')) p (λ fs' q. rw (q.1, e) (q.0))

  mutual
    unfolding expand_value is_plain

    value-IsPlain : (v : Value) → IfDone IsPlain (expand_value r allowed jump stack v)
    value-IsPlain null = refl
    value-IsPlain (bool b) = refl
    value-IsPlain (num n) = refl
    value-IsPlain (str s) = refl
    value-IsPlain (list vs) =
        IfDone-bind (λ vs'. plain_items vs' ≡ true) IsPlain (expand_items r allowed jump stack vs)
          (λ vs'. done (list vs')) (items_plain vs) (λ vs' q. q)
    value-IsPlain (dict fs) = if_ref-IsPlain fs (get "$ref" fs) refl (fields_plain fs)

    fields_plain : (fs : Fields) → IfDone (PlainLike fs) (expand_fields r allowed jump stack fs)
    fields_plain end = (refl, refl)
    fields_plain (field k v fs) =
        IfDone-bind IsPlain (PlainLike (field k v fs)) (expand_value r allowed jump stack v) _
          (value-IsPlain v)
          (λ v' p.
            IfDone-bind (PlainLike fs) (PlainLike (field k v fs))
              (expand_fields r allowed jump stack fs) (λ fs'. done (field k v' fs'))
              (fields_plain fs) (λ fs' q. like k v v' fs fs' p q))

    items_plain :
        (vs : Items) → IfDone (λ vs'. plain_items vs' ≡ true) (expand_items r allowed jump stack vs)
    items_plain nil = refl
    items_plain (cons v vs) =
        IfDone-bind IsPlain (λ vs'. plain_items vs' ≡ true) (expand_value r allowed jump stack v) _
          (value-IsPlain v)
          (λ v' p.
            IfDone-bind (λ vs'. plain_items vs' ≡ true) (λ vs'. plain_items vs' ≡ true)
              (expand_items r allowed jump stack vs) (λ vs'. done (splice (is_ref v) v' vs'))
              (items_plain vs) (λ vs' q. plain_splice (is_ref v) v' vs' p q))

pub expand_refs-IsPlain :
    (r : RuleResolver) (allowed : Option (List String)) (fuel : ℕ) (stack : List String) (v : Value)
    → IfDone IsPlain (expand_refs r allowed fuel stack v)
unfolding expand_refs
expand_refs-IsPlain r allowed zero stack v =
    value-IsPlain r allowed (λ stack' block. out_of_fuel) stack (λ stack' block. tt) v
expand_refs-IsPlain r allowed (suc fuel) stack v =
    value-IsPlain r allowed (expand_refs r allowed fuel) stack
      (λ stack' block. expand_refs-IsPlain r allowed fuel stack' block) v

is_ref-IsPlain : (v : Value) → is_plain v ≡ true → is_ref v ≡ false
unfolding is_plain
is_ref-IsPlain (dict fs) p = ground (arith, p)
is_ref-IsPlain _ p = refl

no_key : (fs : Fields) → is_plain (dict fs) ≡ true → get "$ref" fs ≡ none
unfolding is_plain
no_key fs p = ground (arith, p)

-- Expanding a value without references gives the value.
module _ (r : RuleResolver) (allowed : Option (List String))
    (jump : List String → Value → Outcome Value) (stack : List String) where
  mutual
    unfolding expand_value is_plain ◌>>=◌

    value_kept : (v : Value) → is_plain v ≡ true → expand_value r allowed jump stack v ≡ done v
    value_kept null p = refl
    value_kept (bool b) p = refl
    value_kept (num n) p = refl
    value_kept (str s) p = refl
    value_kept (list vs) p = rw (items_kept vs p)
    value_kept (dict fs) p = rw (no_key fs p) (rw (fields_kept fs (ground (arith, p))))

    fields_kept :
        (fs : Fields) → plain_fields fs ≡ true → expand_fields r allowed jump stack fs ≡ done fs
    fields_kept end p = refl
    fields_kept (field k v fs) p =
        rw (value_kept v (ground (arith, p))) (rw (fields_kept fs (ground (arith, p))))

    items_kept :
        (vs : Items) → plain_items vs ≡ true → expand_items r allowed jump stack vs ≡ done vs
    items_kept nil p = refl
    items_kept (cons v vs) p =
        rw (value_kept v (ground (arith, p)))
          (rw (items_kept vs (ground (arith, p))) (rw (is_ref-IsPlain v (ground (arith, p)))))

pub expand_refs-kept :
    (r : RuleResolver) (allowed : Option (List String)) (fuel : ℕ) (stack : List String) (v : Value)
    → is_plain v ≡ true
    → expand_refs r allowed fuel stack v ≡ done v
unfolding expand_refs
expand_refs-kept r allowed zero stack v p = value_kept r allowed _ stack v p
expand_refs-kept r allowed (suc fuel) stack v p = value_kept r allowed _ stack v p

pub expand-kept :
    (r : RuleResolver) (allowed : Option (List String)) (v : Value)
    → is_plain v ≡ true
    → expand r allowed v ≡ done v
unfolding expand
expand-kept r allowed v p = expand_refs-kept r allowed (length (ref_paths r)) [] v p

-- If expanding a value gives a value, that value has no $ref left at any depth, and expanding it
-- again, under any restriction and with any blocks, gives it unchanged.
pub expand_once :
    (r r' : RuleResolver) (allowed allowed' : Option (List String)) (v w : Value)
    → expand r allowed v ≡ done w
    → (is_plain w ≡ true) × (expand r' allowed' w ≡ done w)
unfolding expand
expand_once r r' allowed allowed' v w e =
    let p : IfDone IsPlain (done w) =
      subst (IfDone IsPlain) e (expand_refs-IsPlain r allowed (length (ref_paths r)) [] v) in
    (p, expand-kept r' allowed' w p)
