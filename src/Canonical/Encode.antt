-- ===== src/Canonical/Encode.antt =====
-- packages/kernel/src/canonical.ts: `canonicalEncode`, and what it uses of JSON.stringify. How the host
-- prints a number is a parameter.
use distlab.Base.{
  ℕ, ◌+◌, ◌/◌, ◌%◌, Bool, true, false, ◌&&◌, List, [], ◌∷◌, ◌++◌, map, Text, units, ltb, leb, ◌==◌,
  if◌then◌else◌,
}
use distlab.Values.{
  Number, Value, null, bool, num, str, arr, obj, Items, nil, cons, Fields, end, field,
}

abbrev hex_digit : ℕ → ℕ
hex_digit n = if ltb n 10 then 48 + n else 87 + n

-- `\uXXXX`
abbrev unicode_escape : ℕ → Text
unicode_escape c =
    units "\\u"
    ++ hex_digit (c / 4096 % 16)
      ∷ hex_digit (c / 256 % 16)
      ∷ hex_digit (c / 16 % 16)
      ∷ hex_digit (c % 16)
      ∷ []

abbrev is_high : ℕ → Bool
is_high c = leb 55296 c && leb c 56319

abbrev is_low : ℕ → Bool
is_low c = leb 56320 c && leb c 57343

abbrev starts_low : Text → Bool
starts_low [] = false
starts_low (c ∷ s) = is_low c

-- A unit that is no surrogate.
unfoldable pub escape_unit : ℕ → Text
escape_unit c =
    if c == 34
    then units "\\\""
    else if c == 92
    then units "\\\\"
    else if c == 8
    then units "\\b"
    else if c == 9
    then units "\\t"
    else if c == 10
    then units "\\n"
    else if c == 12
    then units "\\f"
    else if c == 13
    then units "\\r"
    else if ltb c 32
    then unicode_escape c
    else c ∷ []

-- `paired` says that the unit before was the first of a pair; a surrogate without its pair is escaped.
unfoldable pub escape : Bool → Text → Text
unfolding escape_unit
escape paired [] = []
escape paired (c ∷ s) =
    let inside = escape true s in
    let after = escape false s in
    if is_high c
    then (if starts_low s then c ∷ inside else unicode_escape c ++ after)
    else if is_low c
    then (if paired then c ∷ after else unicode_escape c ++ after)
    else escape_unit c ++ after

-- `JSON.stringify` of a text
unfoldable pub quote : Text → Text
unfolding escape
quote s = units "\"" ++ (escape false s ++ units "\"")

-- The order of texts by their units.
unfoldable pub text_leb : Text → Text → Bool
text_leb [] t = true
text_leb (a ∷ s) [] = false
text_leb (a ∷ s) (b ∷ t) = if a == b then text_leb s t else ltb a b

-- `Object.keys(object).sort()`, with what stands under each key.
unfoldable pub insert_member : Text × Text → List (Text × Text) → List (Text × Text)
unfolding text_leb
insert_member m [] = m ∷ []
insert_member m (n ∷ ns) =
    let later = n ∷ insert_member m ns in if text_leb m.0 n.0 then m ∷ n ∷ ns else later

unfoldable pub sort_members : List (Text × Text) → List (Text × Text)
unfolding insert_member
sort_members [] = []
sort_members (m ∷ ms) = insert_member m (sort_members ms)

-- `parts.join(",")`
unfoldable pub join : List Text → Text
join [] = []
join (s ∷ []) = s
join (s ∷ t ∷ more) = s ++ (units "," ++ join (t ∷ more))

unfoldable pub member : Text × Text → Text
unfolding quote
member (key, text) = quote key ++ (units ":" ++ text)

module _ (number_text : Number → Text) where
  unfoldable mutual
    unfolding quote member sort_members join

    pub encode : Value → Text
    encode null = units "null"
    encode (bool b) = if b then units "true" else units "false"
    encode (num n) = number_text n
    encode (str s) = quote s
    encode (arr items) = units "[" ++ (join (encode_items items) ++ units "]")
    encode (obj fs) =
        units "{" ++ (join (map member (sort_members (encode_fields fs))) ++ units "}")

    pub encode_items : Items → List Text
    encode_items nil = []
    encode_items (cons v items) = encode v ∷ encode_items items

    pub encode_fields : Fields → List (Text × Text)
    encode_fields end = []
    encode_fields (field k v fs) = (k, encode v) ∷ encode_fields fs
