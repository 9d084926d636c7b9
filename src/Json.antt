-- ===== src/Json.antt =====
-- What the sources call and do not implement: the json-c library and C's `double`, taken as a
-- record of operations and of the documented behaviour that the code relies on. An object is read
-- through its entries, in the order of `json_object_object_foreach`; a write returns the object as
-- it then reads. `json_object_get` and `json_object_put` move reference counts only.
-- Where two places share one object and the code writes through one of them, the models keep
-- that sharing themselves (`Stats/Host.antt`, `Stats/View.antt`).
pub mod Objects
pub mod Sample
use pfstrase.Prelude.{ℕ, ℤ, String, Bool, ◌≡◌, Option, some, List, [], ◌∷◌, ◌++◌, lookup, insert}

pub record JsonC : Type 1 where
  -- double: a conversion from int64_t, the operators, `<` and `<=`
  pub Double : Type 0
  pub of_ℤ : ℤ → Double
  pub add : Double → Double → Double
  pub sub : Double → Double → Double
  pub mul : Double → Double → Double
  pub div : Double → Double → Double
  pub lt : Double → Double → Bool
  pub le : Double → Double → Bool
  -- the conversion to int
  pub to_int : Double → ℤ
  -- json_object: objects
  pub Json : Type 0
  pub new_object : Json
  pub object_add : Json → String → Json → Json
  pub object_get_ex : Json → String → Option Json
  pub entries : Json → List (String × Json)
  -- arrays
  pub new_array : Json
  pub array_add : Json → Json → Json
  pub items : Json → List Json
  pub is_array : Json → Bool
  pub array_sort : Json → (Json → Json → ℤ) → Json
  -- scalars, and the NULL that a failed lookup leaves in its result
  pub null : Json
  pub new_string : String → Json
  pub get_string : Json → String
  pub new_int64 : ℤ → Json
  pub get_int64 : Json → ℤ
  pub new_double : Double → Json
  pub get_double : Json → Double
  -- text
  pub to_json_string : Json → String
  pub tokener_parse : String → Option Json
  -- a new object is empty, and a write replaces the entry of its key or appends one
  pub entries-new_object : entries new_object ≡ []
  pub entries-object_add :
      (o : Json) (k : String) (v : Json) → entries (object_add o k v) ≡ insert k v (entries o)
  pub object_get_ex-entries : (o : Json) (k : String) → object_get_ex o k ≡ lookup k (entries o)
  pub items-new_array : items new_array ≡ []
  pub items-array_add : (a v : Json) → items (array_add a v) ≡ items a ++ v ∷ []
  pub get_string-new_string : (s : String) → get_string (new_string s) ≡ s
  pub get_int64-new_int64 : (n : ℤ) → get_int64 (new_int64 n) ≡ n
  pub get_double-new_double : (x : Double) → get_double (new_double x) ≡ x
