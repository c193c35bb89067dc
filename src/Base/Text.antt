-- ===== src/Base/Text.antt =====
-- Python's operations on texts, by recursion over the characters.
use Prim.Native.Nat.{ℕ, zero, suc, ◌-◌, ◌/◌, ◌%◌}
use Prim.Native.Char.{Char, code}
use Prim.Native.String.{String, count, ◌++◌ as ◌<>◌}
use mathlib.Core.Bool.{Bool, true, false, ◌&&◌, ◌||◌}
use mathlib.Core.Option.{Option, none, some}
use mathlib.Core.List.{List, [], ◌∷◌}
use waydroid.Base.Equality.{◌==◌, string_eq, nat_eq, leb, ltb, if◌then◌else◌, contains}
use text.Mathlib.Text.{starts_with, find?}

-- The characters that `str.isspace` counts as white space.
unfoldable pub is_space : Char → Bool
is_space c =
    let n = code c in
    leb 9 n && leb n 13
    || leb 28 n && leb n 32
    || leb 8192 n && leb n 8202
    || contains (133 ∷ 160 ∷ 5760 ∷ 8232 ∷ 8233 ∷ 8239 ∷ 8287 ∷ 12288 ∷ []) n

-- `t in s`
abbrev pub has_text : String → String → Bool
has_text s t = elim (find? s t) [ none ↦ false | some _ ↦ true ]

unfoldable pub lstrip : String → String
lstrip String.[] = ""
lstrip (String.◌∷◌ c s) = let rest = lstrip s in if is_space c then rest else String.◌∷◌ c s

unfoldable pub rstrip : String → String
rstrip String.[] = ""
rstrip (String.◌∷◌ c s) =
    let rest = rstrip s in if is_space c && rest == "" then "" else String.◌∷◌ c rest

-- `s.strip()`
unfoldable pub strip : String → String
strip s = lstrip (rstrip s)

-- The words before the white space, with the word that has been begun.
words_from : String → String → List String
words_from word String.[] = if word == "" then [] else word ∷ []
words_from word (String.◌∷◌ c s) = elim (is_space c) [
  | true ↦ let rest = words_from "" s in if word == "" then rest else word ∷ rest
  | false ↦ words_from (word <> (String.◌∷◌ c "")) s
]

-- `s.split()`
unfoldable pub words : String → List String
unfolding words_from
words = words_from ""

lines_from : String → String → List String
lines_from line String.[] = if line == "" then [] else line ∷ []
lines_from line (String.◌∷◌ c s) = elim (code c == 10) [
  | true ↦ (line <> "\n") ∷ lines_from "" s
  | false ↦ lines_from (line <> (String.◌∷◌ c "")) s
]

-- `for line in handle`: each line with its newline.
unfoldable pub lines : String → List String
unfolding lines_from
lines = lines_from ""

-- The line boundaries of `splitlines`; a carriage return with a newline is one.
is_break : ℕ → Bool
is_break n = leb 10 n && leb n 13 || leb 28 n && leb n 30 || contains (133 ∷ 8232 ∷ 8233 ∷ []) n

splitlines_from : Bool → String → String → List String
splitlines_from returned line String.[] = if line == "" then [] else line ∷ []
splitlines_from returned line (String.◌∷◌ c s) = elim (is_break (code c)) [
  | true ↦ elim (returned && code c == 10) [
    | true ↦ splitlines_from false line s
    | false ↦ line ∷ splitlines_from (code c == 13) "" s
  ]
  | false ↦ splitlines_from false (line <> (String.◌∷◌ c "")) s
]

-- `s.splitlines()`
unfoldable pub splitlines : String → List String
unfolding splitlines_from is_break
splitlines = splitlines_from false ""

split_from : Char → String → String → List String
split_from sep part String.[] = part ∷ []
split_from sep part (String.◌∷◌ c s) = elim (code c == code sep) [
  | true ↦ part ∷ split_from sep "" s
  | false ↦ split_from sep (part <> (String.◌∷◌ c "")) s
]

-- `s.split(sep)`, for a separator of one character
unfoldable pub split : Char → String → List String
unfolding split_from
split sep = split_from sep ""

-- `sep.join(parts)`
unfoldable pub join : String → List String → String
join sep [] = ""
join sep (p ∷ []) = p
join sep (p ∷ q ∷ ps) = p <> (sep <> join sep (q ∷ ps))

-- What `writelines` writes for the lines of `line + "\n"`.
unfoldable pub unlines : List String → String
unlines [] = ""
unlines (l ∷ ls) = l <> ("\n" <> unlines ls)

-- `s.endswith(t)`
unfoldable pub ends_with : String → String → Bool
ends_with String.[] t = t == ""
ends_with (String.◌∷◌ c s) t = String.◌∷◌ c s == t || ends_with s t

-- `s[:-len(t)]`, for a text that ends with `t`
unfoldable pub remove_suffix : String → String → String
remove_suffix String.[] t = ""
remove_suffix (String.◌∷◌ c s) t =
    if String.◌∷◌ c s == t then "" else String.◌∷◌ c (remove_suffix s t)

digit_of : List String → ℕ → String
digit_of [] n = ""
digit_of (d ∷ ds) zero = d
digit_of (d ∷ ds) (suc n) = digit_of ds n

str_from : ℕ → ℕ → String
unfolding digit_of
str_from zero n = ""
str_from (suc fuel) n =
    let rest = str_from fuel (n / 10) in
    let last = digit_of ("0" ∷ "1" ∷ "2" ∷ "3" ∷ "4" ∷ "5" ∷ "6" ∷ "7" ∷ "8" ∷ "9" ∷ []) (n % 10) in
    if ltb n 10 then last else rest <> last

-- `str(n)`, for a number that is not negative. A number has fewer digits than its value plus one.
unfoldable pub str : ℕ → String
unfolding str_from
str n = str_from (suc n) n

-- `old` is replaced at each place where it is found, from the left, `skip` characters of the last
-- place being left to pass over.
replace_from : String → String → ℕ → ℕ → String → String
replace_from old new len skip String.[] = ""
replace_from old new len (suc skip) (String.◌∷◌ c s) = replace_from old new len skip s
replace_from old new len zero (String.◌∷◌ c s) = elim (starts_with (String.◌∷◌ c s) old) [
  | true ↦ new <> replace_from old new len (len - 1) s
  | false ↦ String.◌∷◌ c (replace_from old new len zero s)
]

-- `s.replace(old, new)`, for an `old` that is not empty
unfoldable pub replace : String → String → String → String
unfolding replace_from
replace s old new = replace_from old new (count old) zero s

-- What stands before and after the first `sep`: `s.partition(sep)[::2]`.
unfoldable pub partition : Char → String → String × String
partition sep String.[] = ("", "")
partition sep (String.◌∷◌ c s) =
    let (k, v) = partition sep s in if code c == code sep then ("", s) else (String.◌∷◌ c k, v)

drop_chars : ℕ → String → String
drop_chars zero s = s
drop_chars (suc n) String.[] = ""
drop_chars (suc n) (String.◌∷◌ c s) = drop_chars n s

-- `s[n:]`
unfoldable pub drop_text : ℕ → String → String
unfolding drop_chars
drop_text n s = drop_chars n s

-- What stands before and behind the first `sep`, if there is one.
unfoldable pub split_once : String → String → Option (String × String)
unfolding drop_chars
split_once sep String.[] = none
split_once sep (String.◌∷◌ c s) =
    let later = split_once sep s in
    if starts_with (String.◌∷◌ c s) sep
    then some ("", drop_chars (count sep) (String.◌∷◌ c s))
    else elim later [ none ↦ none | some (before, behind) ↦ some (String.◌∷◌ c before, behind) ]

-- `c in s`, for a text of one character
unfoldable pub has_char : Char → String → Bool
has_char d String.[] = false
has_char d (String.◌∷◌ c s) = code c == code d || has_char d s

-- `os.path.join(a, b)`
unfoldable pub path_join : String → String → String
path_join a b =
    if starts_with b "/" then b else if a == "" || ends_with a "/" then a <> b else a <> ("/" <> b)

-- For tests: its line unfolds every function of the file.
unfoldable pub text_functions : Unit {0}
unfolding strip lstrip rstrip is_space words lines splitlines split join ends_with remove_suffix str
    replace partition drop_text split_once has_char path_join string_eq nat_eq
text_functions = tt
