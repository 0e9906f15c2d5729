-- ===== src/Framing/Fields.antt =====
-- `_visit_framing` (ln_church_agent/network_fetch.py). A text is the list of its characters' codes.
use Prim.Native.Nat.{ℕ}
use ln_church_agent.Common.{
  Bool, List, true, ◌∷◌, ◌==◌, if◌then◌else◌, leb, not, false, ltb, Option, map, [], ◌||◌, ◌&&◌,
  ◌++◌, none, ◌*◌, ◌+◌, some, ◌-◌,
}
use ln_church_agent.Common.Outcome.{Outcome, done, raised}
use ln_church_agent.Common.Lists.{length, all}

pub data FramingError : Type 0 where
  framing_invalid response_too_large : FramingError

-- the names of the headers that the parsed head retains
pub data HeaderName : Type 0 where
  content_length transfer_encoding other_header : HeaderName

abbrev pub is_content_length : HeaderName → Bool
is_content_length HeaderName.content_length = true
is_content_length _ = false

abbrev pub is_transfer_encoding : HeaderName → Bool
is_transfer_encoding HeaderName.transfer_encoding = true
is_transfer_encoding _ = false

-- `value.split(",")`
abbrev pub with_character : ℕ → List (List ℕ) → List (List ℕ)
with_character c [] = (c ∷ []) ∷ []
with_character c (part ∷ parts) = (c ∷ part) ∷ parts

unfoldable pub split_commas : List ℕ → List (List ℕ)
split_commas [] = [] ∷ []
split_commas (c ∷ cs) =
    let rest = split_commas cs in if c == 44 then [] ∷ rest else with_character c rest

abbrev pub is_blank : ℕ → Bool
is_blank c = (c == 32) || (c == 9)

abbrev pub is_empty {ℓ} : {A : Type ℓ} → List A → Bool
is_empty [] = true
is_empty (x ∷ xs) = false

unfoldable pub strip_left : List ℕ → List ℕ
strip_left [] = []
strip_left (c ∷ cs) = let rest = strip_left cs in if is_blank c then rest else c ∷ cs

unfoldable pub strip_right : List ℕ → List ℕ
strip_right [] = []
strip_right (c ∷ cs) =
    let rest = strip_right cs in if is_blank c && is_empty rest then [] else c ∷ rest

-- `part.strip(" \t")`
abbrev pub strip : List ℕ → List ℕ
strip text = strip_right (strip_left text)

abbrev pub lower : ℕ → ℕ
lower c = if leb 65 c && leb c 90 then c + 32 else c

-- the parts of the values of the headers of a name
unfoldable pub header_parts : (HeaderName → Bool) → List (HeaderName × List ℕ) → List (List ℕ)
unfolding split_commas strip_left strip_right
header_parts wanted [] = []
header_parts wanted ((name, value) ∷ headers) =
    let rest = header_parts wanted headers in
    if wanted name then map strip (split_commas value) ++ rest else rest

-- `[0-9]`, and `re.fullmatch(r"[0-9]+", item)`
abbrev pub is_digit : ℕ → Bool
is_digit c = leb 48 c && leb c 57

abbrev pub is_number : List ℕ → Bool
is_number text = not (is_empty text) && all is_digit text

-- `item.lstrip("0") or "0"`
unfoldable pub without_zeros : List ℕ → List ℕ
without_zeros [] = []
without_zeros (c ∷ cs) = let rest = without_zeros cs in if c == 48 then rest else c ∷ cs

abbrev pub zero_or : List ℕ → List ℕ
zero_or [] = 48 ∷ []
zero_or (c ∷ cs) = c ∷ cs

abbrev pub normalize : List ℕ → List ℕ
normalize text = zero_or (without_zeros text)

-- `text > other`, of strings
unfoldable pub text_above : List ℕ → List ℕ → Bool
text_above [] other = false
text_above (c ∷ cs) [] = true
text_above (c ∷ cs) (d ∷ ds) = let rest = text_above cs ds in if c == d then rest else ltb d c

-- `int(text)`, of digits
abbrev pub value_from : ℕ → List ℕ → ℕ
value_from n [] = n
value_from n (c ∷ cs) = value_from (n * 10 + (c - 48)) cs

abbrev pub text_value : List ℕ → ℕ
text_value text = value_from 0 text

-- `str(IMMEDIATE_VISIT_BODY_LIMIT_BYTES)`
abbrev pub limit_text : List ℕ
limit_text = 50 ∷ 48 ∷ 57 ∷ 55 ∷ 49 ∷ 53 ∷ 50 ∷ []

-- a decimal text above the limit, without a conversion of it
unfoldable pub is_too_large : List ℕ → Bool
unfolding text_above
is_too_large text =
    ltb (length limit_text) (length text)
    || ((length text == length limit_text) && text_above text limit_text)

abbrev pub texts_eq : List ℕ → List ℕ → Bool
texts_eq [] [] = true
texts_eq (c ∷ cs) (d ∷ ds) = (c == d) && texts_eq cs ds
texts_eq _ _ = false

-- "chunked"
abbrev pub chunked : List ℕ
chunked = 99 ∷ 104 ∷ 117 ∷ 110 ∷ 107 ∷ 101 ∷ 100 ∷ []

abbrev pub is_chunked : List (List ℕ) → Bool
is_chunked (text ∷ []) = texts_eq text chunked
is_chunked _ = false

-- the length and whether the body is chunked
abbrev pub Framed : Type 0
Framed = Outcome FramingError (Option ℕ × Bool)

-- the end of the function, on the normalized lengths
unfoldable pub length_framing : List (List ℕ) → Bool → Framed
unfolding is_too_large
length_framing [] is_transfer = done (none, is_transfer)
length_framing (text ∷ texts) is_transfer =
    if not (all (texts_eq text) texts)
    then raised FramingError.framing_invalid
    else if is_too_large text
    then raised FramingError.response_too_large
    else done (some (text_value text), false)

-- the function, on the parts of both headers
unfoldable pub parts_framing : List (List ℕ) → List (List ℕ) → Framed
unfolding without_zeros length_framing
parts_framing lengths transfers =
    if not (is_empty transfers) && (not (is_empty lengths) || not (is_chunked transfers))
    then raised FramingError.framing_invalid
    else if not (all is_number lengths)
    then raised FramingError.framing_invalid
    else length_framing (map normalize lengths) (not (is_empty transfers))

abbrev pub length_parts : List (HeaderName × List ℕ) → List (List ℕ)
length_parts headers = header_parts is_content_length headers

abbrev pub transfer_parts : List (HeaderName × List ℕ) → List (List ℕ)
transfer_parts headers = map (map lower) (header_parts is_transfer_encoding headers)

-- `_visit_framing`
unfoldable pub visit_framing : List (HeaderName × List ℕ) → Framed
unfolding header_parts parts_framing
visit_framing headers = parts_framing (length_parts headers) (transfer_parts headers)
