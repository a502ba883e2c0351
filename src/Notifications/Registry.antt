-- ===== src/Notifications/Registry.antt =====
-- `NotifierRegistry` of web_checker/notifications/registry.py and `DriverRegistry` of
-- web_checker/drivers/registry.py, which are the same code for two kinds of objects. The dict is
-- the list of its items; an object is anything that has a name.
pub mod Lookup
use web_checker_py.Prelude.{
  Bool, Option, none, some, List, [], ◌∷◌, ◌++◌, map, find, any, Text, codes, text_lt, strip,
  is_nil, ◌==◌, text_eq, Result, ok, err, ◌>>=◌, ◌>>◌, raise_if,
}
use web_checker_py.Storage.Tables.{order_by}

pub data RegistryError : Type 0 where
  blank_name already_registered : RegistryError
  unknown_name : Text → List Text → RegistryError

-- `sorted(self._notifiers)`
abbrev pub names : {A : Type 0} → List (Text × A) → List Text
names items = order_by text_lt (map (λ item. item.0) items)

module _ {A : Type 0} (name : A → Text) where
  -- `register`
  unfoldable pub register : A → List (Text × A) → Result RegistryError (List (Text × A))
  register object items = do
    let key = strip (name object)
    raise_if (is_nil key) blank_name
    raise_if (any (λ item. item.0 == key) items) already_registered
    ok (items ++ (key, object) ∷ [])

  -- The loop of the constructor.
  unfoldable pub register_all : List A → List (Text × A) → Result RegistryError (List (Text × A))
  register_all [] items = ok items
  register_all (object ∷ rest) items = do added ← register object items; register_all rest added

-- `get`
unfoldable pub get : {A : Type 0} → Text → List (Text × A) → Result RegistryError A
get key items = elim (find (λ item. item.0 == key) items) [
  | none ↦ err (unknown_name key (names items))
  | some item ↦ ok item.1
]
