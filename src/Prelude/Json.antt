-- ===== src/Prelude/Json.antt =====
-- JSON values, as the source keeps them in `dict[str, Any]`. Numbers are whole.
use Prim.Native.Nat.{ℕ}
use Prim.Native.String.{String}
use mathlib.Core.Bool.{Bool, true, false, not}
use mathlib.Core.List.{List, [], ◌∷◌}
use mathlib.Core.Option.{Option, none, some}
use the_creation_os.Prelude.Tests.{if◌then◌else◌}
use the_creation_os.Prelude.Equality.{◌==◌, string_eq, nat_eq}

mutual
  pub data Json : Type 0 where
    null : Json
    bool : Bool → Json
    number : ℕ → Json
    -- `negative n` is -(n + 1)
    negative : ℕ → Json
    text : String → Json
    array : Items → Json
    object : Fields → Json

  pub data Items : Type 0 where
    end : Items
    item : Json → Items → Items

  pub data Fields : Type 0 where
    done : Fields
    field : String → Json → Fields → Fields

-- obj.get(key)
unfoldable pub get : String → Fields → Option Json
get key done = none
get key (field k v fs) = if k == key then some v else get key fs

-- The texts among the items: `x in items` for a text `x` looks no further.
abbrev pub texts : Items → List String
texts end = []
texts (item (text s) is) = s ∷ texts is
texts (item null is) = texts is
texts (item (bool b) is) = texts is
texts (item (number n) is) = texts is
texts (item (negative n) is) = texts is
texts (item (array a) is) = texts is
texts (item (object o) is) = texts is

-- `bool(value)`
abbrev pub truthy : Option Json → Bool
truthy none = false
truthy (some null) = false
truthy (some (bool b)) = b
truthy (some (number n)) = not (n == 0)
truthy (some (negative n)) = true
truthy (some (text s)) = not (s == "")
truthy (some (array end)) = false
truthy (some (array (item v vs))) = true
truthy (some (object done)) = false
truthy (some (object (field k v fs))) = true
