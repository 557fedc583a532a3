-- ===== src/Json.antt =====
-- `serde_json::Value` as far as the program reads it: the replies and events of the daemon.
-- A number that is no integer is kept as an opaque text.
use unidrive_mount_linux.Base.Int.{ℤ, pos, negsuc}
use unidrive_mount_linux.Base.{
  ℕ, ◌^◌, Bool, Option, none, some, ◌==◌, list_eq, nat_eq, ltb, if◌then◌else◌, Str,
}

mutual
  pub data Value : Type 0 where
    null : Value
    bool : Bool → Value
    int : ℤ → Value
    float : Str → Value
    string : Str → Value
    array : Items → Value
    object : Members → Value

  pub data Items : Type 0 where
    nil : Items
    item : Value → Items → Items

  pub data Members : Type 0 where
    end : Members
    member : Str → Value → Members → Members

unfoldable pub find_member : Str → Members → Option Value
find_member key end = none
find_member key (member k v ms) = if key == k then some v else find_member key ms

-- `Value::get(key)`
unfoldable pub get : Value → Str → Option Value
unfolding find_member
get (object ms) key = find_member key ms
get _ key = none

-- `value[key]`: `null` where there is none
unfoldable pub index : Value → Str → Value
unfolding get
index v key = elim (get v key) [ some w ↦ w | none ↦ null ]

unfoldable pub as_str : Value → Option Str
as_str (string s) = some s
as_str _ = none

unfoldable pub as_bool : Value → Option Bool
as_bool (bool b) = some b
as_bool _ = none

unfoldable pub as_array : Value → Option Items
as_array (array xs) = some xs
as_array _ = none

unfoldable pub as_u64 : Value → Option ℕ
as_u64 (int (pos n)) = if ltb n (2 ^ 64) then some n else none
as_u64 _ = none

unfoldable pub as_i64 : Value → Option ℤ
as_i64 (int (pos n)) = if ltb n (2 ^ 63) then some (pos n) else none
as_i64 (int (negsuc n)) = if ltb n (2 ^ 63) then some (negsuc n) else none
as_i64 _ = none

-- `Option::unwrap_or`
abbrev pub unwrap_or {ℓ} : {A : Type ℓ} → Option A → A → A
unwrap_or none d = d
unwrap_or (some a) d = a
