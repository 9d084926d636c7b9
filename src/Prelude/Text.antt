-- ===== src/Prelude/Text.antt =====
-- What the program uses of C's string functions, over the native texts (bytes, where it is ASCII).
use Prim.Native.Nat.{ℕ, ◌-◌}
use Prim.Native.String.{String, slice, ◌++◌ as append}
use Prim.Native.Char.{Char, code}
use mathlib.Core.Bool.{Bool, ◌||◌}
use mathlib.Core.List.{List, [], ◌∷◌}
use text.Mathlib.Text.{find?, ◌==◌}
use pfstrase.Prelude.Tests.{eqb, if◌then◌else◌}
use mathlib.Core.Option
use mathlib.Core.Option.{Option, none, some}

-- `snprintf(buf, size, "%s", s)`: what a buffer of `size` bytes holds of a text.
unfoldable pub snprintf : ℕ → String → String
snprintf size s = slice s 0 (size - 1)

-- `strstr(s, t) != NULL`
unfoldable pub strstr : String → String → Bool
strstr s t = elim (find? s t) [ none ↦ Bool.false | some i ↦ Bool.true ]

-- Whether a text is one of some names.
abbrev pub is_among : String → List String → Bool
is_among name [] = Bool.false
is_among name (other ∷ rest) = name == other || is_among name rest

-- `snprintf(buf, size, "%s_%s_%s", a, b, c)`
unfoldable pub snprintf_joined : ℕ → String → String → String → String
unfolding snprintf
snprintf_joined size a b c = snprintf size (append a (append "_" (append b (append "_" c))))

-- `snprintf(buf, size, s)`, with the text as the format: `%%` prints one `%`, and any other
-- conversion reads an argument that was not passed, which is undefined (`none`).
abbrev after_percent : Option String → Option String
after_percent none = none
after_percent (some t) = some (append "%" t)

abbrev with_char : Char → Option String → Option String
with_char c none = none
with_char c (some t) = some (String.◌∷◌ c t)

unfoldable pub format : String → Option String
format String.[] = some ""
format (String.◌∷◌ c String.[]) = if eqb (code c) b'%' then none else some (String.◌∷◌ c String.[])
format (String.◌∷◌ c (String.◌∷◌ d s)) =
    let rest = format s in
    let next = format (String.◌∷◌ d s) in
    if eqb (code c) b'%'
    then if eqb (code d) b'%' then after_percent rest else none
    else with_char c next

unfoldable pub snprintf_format : ℕ → String → Option String
unfolding snprintf
snprintf_format size s = Option.map (snprintf size) (format s)
