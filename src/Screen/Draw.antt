-- ===== src/Screen/Draw.antt =====
-- server/screen.c, screen_refresh_cb: the header and the rows as texts of bounded size. ncurses is
-- not modelled: what is drawn is a list of lines with their texts.
pub mod Widths
use Prim.Native.String.{◌++◌ as append}
use pfstrase.Prelude.{
  ℕ, zero, suc, ◌+◌, ◌-◌, String, Option, none, some, List, [], ◌∷◌, ◌++◌, ◌>>=◌, len, slice,
  get_elem?, map,
}
use pfstrase.Json.{JsonC}
use pfstrase.Buffer.{Buffer, empty_buffer, print_pieces}
use pfstrase.Screen.Table.{Table}

-- `char header_tags[2048]` and `char row_tags[512]`
abbrev pub header_size : ℕ
header_size = 2048

abbrev pub row_size : ℕ
row_size = 512

abbrev pub spaces : ℕ → String
spaces zero = ""
spaces (suc n) = append " " (spaces n)

-- `%-16.16s ` and `%14.14s `
unfoldable pub left_column : String → String
left_column s = let cut = slice s 0 16 in append cut (append (spaces (16 - len cut)) " ")

unfoldable pub right_column : String → String
right_column s = let cut = slice s 0 14 in append (spaces (14 - len cut)) (append cut " ")

-- `"%14.1f ", 0.0`
abbrev pub zero_column : String
zero_column = "           0.0 "

-- `print_14_2f` is how printf shows a double for `%14.2f`.
module _ (J : JsonC) (print_14_2f : J.Double → String) where
  open J use {Json, object_get_ex, entries, items, get_string, get_double}

  abbrev text_within : ℕ → List String → Option String
  text_within size pieces = do b ← print_pieces size pieces empty_buffer; some b.text

  unfoldable pub header_pieces : Json → Json → List String
  header_pieces group_tags screvents =
      map (λ e. left_column e.0) (entries group_tags)
      ++ map (λ e. right_column e.0) (entries screvents)

  unfoldable pub header_text : Json → Json → Option String
  header_text group_tags screvents = text_within header_size (header_pieces group_tags screvents)

  abbrev pub tag_column : Option Json → String
  tag_column none = left_column ""
  tag_column (some tid) = left_column (get_string tid)

  abbrev pub event_column : Option Json → String
  event_column none = zero_column
  event_column (some eid) = append (print_14_2f (get_double eid)) " "

  unfoldable pub row_pieces : Json → Json → Json → List String
  row_pieces group_tags screvents de =
      map (λ e. tag_column (object_get_ex de e.0)) (entries group_tags)
      ++ map (λ e. event_column (object_get_ex de e.0)) (entries screvents)

  unfoldable pub row_text : Json → Json → Json → Option String
  row_text group_tags screvents de = text_within row_size (row_pieces group_tags screvents de)

  -- The body of the loop over the rows that are drawn, each an index and a line; an index below
  -- da_len has an element.
  unfoldable pub draw_lines : Json → Table J → List (ℕ × ℕ) → Option (List (ℕ × String))
  draw_lines group_tags table [] = some []
  draw_lines group_tags table ((j, line) ∷ rest) = do
    de ← get_elem? (items table.scrdata_array) j
    row_tags ← row_text group_tags table.screvents de
    others ← draw_lines group_tags table rest
    some ((line, row_tags) ∷ others)
