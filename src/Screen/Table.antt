-- ===== src/Screen/Table.antt =====
-- server/screen.c, sort_da and da_refresh: the table that the viewer draws from.
pub mod Order
pub mod Rows
use pfstrase.Prelude.{
  String, Bool, ◌||◌, Option, none, some, List, [], ◌∷◌, ◌==◌, ℤ, pos, negsuc, strstr,
  if◌then◌else◌,
}
use pfstrase.Json.{JsonC}
use pfstrase.Json.Objects.{copy_tag}

module _ (J : JsonC) where
  open J use {
    Double, of_ℤ, mul, sub, lt, to_int, Json, new_object, object_add, object_get_ex, entries,
    new_array, array_add, array_sort, new_string, get_double, tokener_parse,
  }

  abbrev hundredfold : Json → Double
  hundredfold v = mul (get_double v) (of_ℤ (pos 100))

  abbrev compare_values : Option Json → Option Json → ℤ
  compare_values none none = pos 0
  compare_values none (some val2) = pos 1
  compare_values (some val1) none = negsuc 0
  compare_values (some val1) (some val2) = to_int (sub (hundredfold val2) (hundredfold val1))

  -- `Sort by specified field value`
  unfoldable pub sort_da : String → Json → Json → ℤ
  sort_da sortbykey j1 j2 = compare_values (object_get_ex j1 sortbykey) (object_get_ex j2 sortbykey)

  -- scrdata_array and screvents
  pub record Table : Type 0 where
    pub scrdata_array : Json
    pub screvents : Json

  -- The events that every row shows.
  unfoldable pub default_events : Json
  default_events =
      object_add
        (object_add
          (object_add
            (object_add (object_add new_object "nclients" (new_string "")) "load" (new_string ""))
            "load_eff" (new_string ""))
          "iops" (new_string ""))
        "bytes" (new_string "")

  -- The events that the detailed view leaves out.
  unfoldable pub hides_event : String → Json → Bool
  hides_event event val =
      event == "load"
      || event == "load_eff"
      || event == "read_bytes"
      || event == "write_bytes"
      || event == "iops"
      || event == "bytes"
      || strstr event "[usec"
      || lt (get_double val) (of_ℤ (pos 2))

  -- The events and the row of the detailed view.
  unfoldable pub add_details : Json × Json → List (String × Json) → Json × Json
  add_details s [] = s
  add_details (screvents, tags) ((event, val) ∷ rest) =
      add_details
        (if hides_event event val
          then (screvents, tags)
          else (object_add screvents event (new_string ""), object_add tags event val))
        rest

  unfoldable pub copy_events : Json → Json → Json
  copy_events te tags = copy_tag J te "bytes" "bytes" (
      copy_tag J te "iops" "iops" (
        copy_tag J te "load_eff" "load_eff"
          (copy_tag J te "load" "load" (copy_tag J te "nclients" "nclients" tags))))

  abbrev pub add_row : Bool → Table → Json → Option Json → Table
  add_row detailed table te none = table
  add_row detailed table te (some tags) =
      let row = copy_events te tags in
      let (screvents, tags') =
        if detailed
        then add_details (table.screvents, row) (entries te)
        else (table.screvents, row) in
      record { scrdata_array = array_add table.scrdata_array tags'; screvents = screvents }

  -- The rows of one server.
  unfoldable pub add_rows : Bool → Table → List (String × Json) → Table
  add_rows detailed table [] = table
  add_rows detailed table ((t, te) ∷ rest) =
      add_rows detailed (if t == "time" then table else add_row detailed table te (tokener_parse t))
        rest

  unfoldable pub add_servers : Bool → Table → List (String × Json) → Table
  add_servers detailed table [] = table
  add_servers detailed table ((s, se) ∷ rest) =
      add_servers detailed (add_rows detailed table (entries se)) rest

  unfoldable pub da_refresh : Bool → String → Json → Table
  da_refresh detailed sortbykey screen_map =
      let table =
        add_servers detailed (record { scrdata_array = new_array; screvents = default_events })
          (entries screen_map) in
      record table { scrdata_array = array_sort table.scrdata_array (sort_da sortbykey) }
