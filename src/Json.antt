-- ===== src/Json.antt =====
-- The JSON values that nodes hold: `IdentityValue` of src/pollard/_canon.py, and the values of
-- results and metadata, which may hold floats too.
pub mod Text
pub mod Canonical
pub mod Equality
pub mod Snapshot
use pollard.Common.{
  String, ℕ, ◌≡◌, Bool, true, false, Option, none, some, ◌&&◌, List, ◌==◌, if◌then◌else◌,
}
use pollard.Common.{string_eq}
use pollard.Common.Int.{ℤ}

-- A float is finite, and given by the text that `repr` prints for it. An object is in insertion order.
mutual
  pub data Json : Type 0 where
    null : Json
    bool : Bool → Json
    int : ℤ → Json
    float : List ℕ → Json
    str : String → Json
    arr : Items → Json
    obj : Fields → Json

  pub data Items : Type 0 where
    nil : Items
    cons : Json → Items → Items

  pub data Fields : Type 0 where
    end : Fields
    field : String → Json → Fields → Fields

-- `d.get(k)`
abbrev pub get_field : String → Fields → Option Json
get_field k end = none
get_field k (field j v fs) = if j == k then some v else get_field k fs

-- `d[k] = v`
abbrev pub set_field : String → Json → Fields → Fields
set_field k v end = field k v end
set_field k v (field j w fs) = if j == k then field j v fs else field j w (set_field k v fs)

-- `{**d, **patch}`
abbrev pub merge_fields : Fields → Fields → Fields
merge_fields fs end = fs
merge_fields fs (field k v patch) = merge_fields (set_field k v fs) patch

-- `xs + [v]`
abbrev pub append_item : Items → Json → Items
append_item nil v = cons v nil
append_item (cons x xs) v = cons x (append_item xs v)

abbrev pub is_null : Json → Bool
is_null null = true
is_null _ = false
