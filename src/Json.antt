-- ===== src/Json.antt =====
-- JSON values, and what json.Unmarshal makes of them for structs with string and bool fields: keys
-- match without regard to ASCII case, the last match wins, null leaves a field as it is, a value of
-- another type is an error. Other than ASCII letters fold to nothing here.
use homura.Bytes.{Bytes, bytes_dec}
use homura.Prelude.{ℕ, ◌+◌, Bool, Option, none, some, ite, ◌&&◌, leb, if◌then◌else◌, map}

mutual
  pub data Json : Type 0 where
    null : Json
    boolean : Bool → Json
    number : Bytes → Json
    string : Bytes → Json
    array : Items → Json
    object : Members → Json

  pub data Items : Type 0 where
    no_items : Items
    item : Json → Items → Items

  pub data Members : Type 0 where
    no_members : Members
    member : Bytes → Json → Members → Members

unfoldable pub fold_case : ℕ → ℕ
fold_case c = if leb b'A' c && leb c b'Z' then c + 32 else c

-- A value against a field with its present content; `none` is an error.
unfoldable pub assign_string : Bytes → Json → Option Bytes
assign_string old null = some old
assign_string old (string s) = some s
assign_string old other = none

unfoldable pub assign_bool : Bool → Json → Option Bool
assign_bool old null = some old
assign_bool old (boolean b) = some b
assign_bool old other = none

-- The content of the field `name` after all members.
unfoldable pub read_string : Bytes → Bytes → Members → Option Bytes
unfolding fold_case assign_string
read_string name old no_members = some old
read_string name old (member k v rest) =
    elim (ite (bytes_dec (map fold_case k) name) (assign_string old v) (some old)) [
      | none ↦ none
      | some new ↦ read_string name new rest
    ]

unfoldable pub read_bool : Bytes → Bool → Members → Option Bool
unfolding fold_case assign_bool
read_bool name old no_members = some old
read_bool name old (member k v rest) =
    elim (ite (bytes_dec (map fold_case k) name) (assign_bool old v) (some old)) [
      | none ↦ none
      | some new ↦ read_bool name new rest
    ]

-- The members that Unmarshal reads into a struct; no value at all is an error.
unfoldable pub members : Option Json → Option Members
members none = none
members (some null) = some no_members
members (some (object ms)) = some ms
members (some other) = none
