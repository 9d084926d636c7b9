-- ===== src/Json/Sample.antt =====
-- A concrete json-c, which shows that the behaviour assumed of it can be met, and on which the
-- examples run. A value has every facet at once: entries, elements, a text and two numbers. A
-- double counts millionths.
use Prim.Native.String.{◌++◌ as append}
use pfstrase.Prelude.{
  ℕ, ◌*◌, ◌/◌, ◌+◌, String, Bool, not, true, false, ◌≡◌, refl, ap, Option, List, [], ◌∷◌, ◌++◌,
  lookup, insert, ℤ, pos, negsuc,
}
use pfstrase.Prelude.Int.{◌+ℤ◌, ◌-ℤ◌, ltb_ℤ}
use pfstrase.Json.{JsonC}

mutual
  pub data Value : Type 0 where
    value : Fields → Items → String → ℤ → ℤ → Value

  pub data Fields : Type 0 where
    end : Fields
    field : String → Value → Fields → Fields

  pub data Items : Type 0 where
    nil : Items
    cons : Value → Items → Items

abbrev of_fields : Fields → List (String × Value)
of_fields end = []
of_fields (field k v fs) = (k, v) ∷ of_fields fs

abbrev to_fields : List (String × Value) → Fields
to_fields [] = end
to_fields ((k, v) ∷ es) = field k v (to_fields es)

of_fields-to_fields : (es : List (String × Value)) → of_fields (to_fields es) ≡ es
of_fields-to_fields [] = refl
of_fields-to_fields ((k, v) ∷ es) = ap (◌∷◌ (k, v)) (of_fields-to_fields es)

abbrev of_items : Items → List Value
of_items nil = []
of_items (cons x xs) = x ∷ of_items xs

abbrev to_items : List Value → Items
to_items [] = nil
to_items (x ∷ xs) = cons x (to_items xs)

of_items-to_items : (xs : List Value) → of_items (to_items xs) ≡ xs
of_items-to_items [] = refl
of_items-to_items (x ∷ xs) = ap (◌∷◌ x) (of_items-to_items xs)

abbrev entries_of : Value → List (String × Value)
entries_of (value fs xs t n d) = of_fields fs

abbrev items_of : Value → List Value
items_of (value fs xs t n d) = of_items xs

abbrev text_of : Value → String
text_of (value fs xs t n d) = t

abbrev int_of : Value → ℤ
int_of (value fs xs t n d) = n

abbrev double_of : Value → ℤ
double_of (value fs xs t n d) = d

abbrev with_entry : Value → String → Value → Value
with_entry (value fs xs t n d) k v = value (to_fields (insert k v (of_fields fs))) xs t n d

abbrev with_item : Value → Value → Value
with_item (value fs xs t n d) v = value fs (to_items (of_items xs ++ v ∷ [])) t n d

pub entries_of-with_entry :
    (o : Value) (k : String) (v : Value) → entries_of (with_entry o k v) ≡ insert k v (entries_of o)
entries_of-with_entry (value fs xs t n d) k v = of_fields-to_fields (insert k v (of_fields fs))

pub items_of-with_item : (a v : Value) → items_of (with_item a v) ≡ items_of a ++ v ∷ []
items_of-with_item (value fs xs t n d) v = of_items-to_items (of_items xs ++ v ∷ [])

abbrev some_items : List Value → Bool
some_items [] = false
some_items (x ∷ xs) = true

-- Objects of texts print as `k=v;`, enough to name a group.
abbrev print : List (String × Value) → String
print [] = ""
print ((k, v) ∷ es) = append k (append "=" (append (text_of v) (append ";" (print es))))

-- Products and quotients of millionths, of the sizes without their signs.
abbrev magnitude : ℤ → ℕ
magnitude (pos n) = n
magnitude (negsuc n) = n + 1

abbrev signed : ℤ → ℤ → ℕ → ℤ
signed (pos a) (pos b) n = pos n
signed (negsuc a) (negsuc b) n = pos n
signed _ _ n = pos 0 -ℤ pos n

abbrev empty : Value
empty = value end nil "" (pos 0) (pos 0)

-- The sample library, over a parser.
abbrev pub sample : (String → Option Value) → JsonC
sample parse = record {
  Double = ℤ;
  of_ℤ = λ n. signed n (pos 0) (magnitude n * 1000000);
  add = ◌+ℤ◌;
  sub = ◌-ℤ◌;
  mul = λ a b. signed a b (magnitude a * magnitude b / 1000000);
  div = λ a b. signed a b (magnitude a * 1000000 / magnitude b);
  lt = ltb_ℤ;
  le = λ a b. not (ltb_ℤ b a);
  to_int = λ a. signed a (pos 0) (magnitude a / 1000000);
  Json = Value;
  new_object = empty;
  object_add = with_entry;
  object_get_ex = λ o k. lookup k (entries_of o);
  entries = entries_of;
  new_array = empty;
  array_add = with_item;
  items = items_of;
  is_array = λ a. some_items (items_of a);
  array_sort = λ a compare. a;
  null = empty;
  new_string = λ s. value end nil s (pos 0) (pos 0);
  get_string = text_of;
  new_int64 = λ n. value end nil "" n (signed n (pos 0) (magnitude n * 1000000));
  get_int64 = int_of;
  new_double = λ x. value end nil "" (pos 0) x;
  get_double = double_of;
  to_json_string = λ o. print (entries_of o);
  tokener_parse = parse;
  entries-new_object = refl;
  entries-object_add = entries_of-with_entry;
  object_get_ex-entries = λ o k. refl;
  items-new_array = refl;
  items-array_add = items_of-with_item;
  get_string-new_string = λ s. refl;
  get_int64-new_int64 = λ n. refl;
  get_double-new_double = λ x. refl;
}

-- Data for the examples.
abbrev pub text : String → Value
text s = value end nil s (pos 0) (pos 0)

abbrev pub number : ℤ → Value
number n = value end nil "" n (signed n (pos 0) (magnitude n * 1000000))

abbrev pub object : List (String × Value) → Value
object es = value (to_fields es) nil "" (pos 0) (pos 0)

abbrev pub array : List Value → Value
array xs = value end (to_items xs) "" (pos 0) (pos 0)
