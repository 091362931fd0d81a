-- ===== src/Value.antt =====
-- The values of YAML and JSON that the rules and the qBittorrent API are made of, and what the program
-- does with a value of any type: `in`, `[...]`, iteration, truth, `==`, `str`, `float`, `int`.
-- A float is a dyadic number, as every finite IEEE float is; infinities and NaN are left out.
use qbt_rules.Prelude.{
  ℕ, zero, suc, ◌-◌, ◌*◌, ◌/◌, ◌^◌, String, Bool, true, false, ◌&&◌, Option, none, some, List, [],
  ◌∷◌, not, ◌==◌, if◌then◌else◌, str_eq, is_some,
}
use qbt_rules.Prelude.Int.{ℤ, pos, negsuc, ltb_ℤ, leb_ℤ}

-- mantissa / 2 ^ scale; `is_int` tells an int from a float of the same value.
pub record Number : Type 0 where
  pub mantissa : ℤ
  pub scale : ℕ
  pub is_int : Bool

abbrev pub int : ℤ → Number
int z = record { mantissa = z; scale = 0; is_int = true }

abbrev pub scale_up : ℤ → ℕ → ℤ
scale_up (pos n) k = pos (n * 2 ^ k)
scale_up (negsuc n) k = negsuc (suc n * 2 ^ k - 1)

abbrev pub num_lt : Number → Number → Bool
num_lt a b = ltb_ℤ (scale_up a.mantissa b.scale) (scale_up b.mantissa a.scale)

abbrev pub num_le : Number → Number → Bool
num_le a b = leb_ℤ (scale_up a.mantissa b.scale) (scale_up b.mantissa a.scale)

abbrev pub num_eq : Number → Number → Bool
num_eq a b = num_le a b && num_le b a

-- `int(x)` of a number: towards zero.
abbrev pub truncate_ℤ : ℤ → ℕ → ℤ
truncate_ℤ (pos n) k = pos (n / 2 ^ k)
truncate_ℤ (negsuc n) k = elim (suc n / 2 ^ k) [ zero ↦ pos 0 | suc m ↦ negsuc m ]

mutual
  pub data Value : Type 0 where
    null : Value
    bool : Bool → Value
    num : Number → Value
    str : String → Value
    list : Items → Value
    dict : Fields → Value

  pub data Fields : Type 0 where
    field : String → Value → Fields → Fields
    end : Fields

  pub data Items : Type 0 where
    cons : Value → Items → Items
    nil : Items

-- `d.get(k)`, with `none` where the key is missing
unfoldable pub get : String → Fields → Option Value
get k end = none
get k (field j v fs) = if str_eq j k then some v else get k fs

-- `d[k] = v`
unfoldable pub put : String → Value → Fields → Fields
put k v end = field k v end
put k v (field j w fs) = if str_eq j k then field k v fs else field j w (put k v fs)

-- `d.update(other)`
unfoldable pub update : Fields → Fields → Fields
unfolding put
update d end = d
update d (field k v fs) = update (put k v d) fs

abbrev pub has_key : String → Fields → Bool
has_key k fs = is_some (get k fs)

-- `d.get(k)`, None where the key is missing
abbrev pub get_or_null : String → Fields → Value
get_or_null k fs = elim (get k fs) [ none ↦ null | some v ↦ v ]

abbrev pub to_list : Items → List Value
to_list nil = []
to_list (cons v vs) = v ∷ to_list vs

abbrev pub of_list : List Value → Items
of_list [] = nil
of_list (v ∷ vs) = cons v (of_list vs)

abbrev pub keys : Fields → List String
keys end = []
keys (field k v fs) = k ∷ keys fs

-- `bool(v)`
unfoldable pub truthy : Value → Bool
truthy null = false
truthy (bool b) = b
truthy (num n) = not (num_eq n (int (pos 0)))
truthy (str s) = not (str_eq s "")
truthy (list nil) = false
truthy (list (cons v vs)) = true
truthy (dict end) = false
truthy (dict (field k v fs)) = true

-- A bool is an int: True is 1 and False is 0.
abbrev pub as_number : Value → Option Number
as_number (num n) = some n
as_number (bool true) = some (int (pos 1))
as_number (bool false) = some (int (pos 0))
as_number _ = none

abbrev both_num_eq : Option Number → Option Number → Bool
both_num_eq (some a) (some b) = num_eq a b
both_num_eq _ _ = false

abbrev pub n_fields : Fields → ℕ
n_fields end = 0
n_fields (field k v fs) = suc (n_fields fs)

abbrev get_then : Option Value → (Value → Bool) → Bool
get_then none f = false
get_then (some v) f = f v

-- `a == b`: numbers by value, dictionaries whatever the order of their keys.
unfoldable mutual
  pub py_eq : Value → Value → Bool
  py_eq null null = true
  py_eq (bool a) w = both_num_eq (as_number (bool a)) (as_number w)
  py_eq (num a) w = both_num_eq (some a) (as_number w)
  py_eq (str s) (str t) = str_eq s t
  py_eq (list vs) (list ws) = items_eq vs ws
  py_eq (dict fs) (dict gs) = n_fields fs == n_fields gs && fields_within fs gs
  py_eq _ _ = false

  pub items_eq : Items → Items → Bool
  items_eq nil nil = true
  items_eq (cons v vs) (cons w ws) = py_eq v w && items_eq vs ws
  items_eq _ _ = false

  pub fields_within : Fields → Fields → Bool
  fields_within end gs = true
  fields_within (field k v fs) gs = get_then (get k gs) (py_eq v) && fields_within fs gs
