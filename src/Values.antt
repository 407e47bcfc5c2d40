-- ===== src/Values.antt =====
-- packages/contracts/src/kernel/canonical.ts and time.ts: canonical values, and the numbers of the
-- host language as far as the kernel tells them apart.
use distlab.Base.{
  ℕ, ◌+◌, Bool, true, false, not, ◌&&◌, ◌||◌, ◌==◌, Option, none, some, List, [], ◌∷◌, Text,
  text_eq, Result, ok, throw, leb, if◌then◌else◌,
}
use distlab.Contracts.Errors.{invalid_simulation_time, invalid_duration}

-- A double: `whole` is 0, 1, 2, …; `negative n` is -(n + 1); `fraction` is any other finite
-- number, under its bit pattern; `non_finite` is NaN or an infinity.
pub data Number : Type 0 where
  whole : ℕ → Number
  negative : ℕ → Number
  negative_zero : Number
  fraction : ℕ → Number
  non_finite : ℕ → Number

-- Number.MAX_SAFE_INTEGER
abbrev pub max_safe : ℕ
max_safe = 9007199254740991

abbrev pub is_safe : ℕ → Bool
is_safe n = leb n max_safe

-- `Number.isSafeInteger(value)`
abbrev pub is_safe_integer : Number → Bool
is_safe_integer (whole n) = is_safe n
is_safe_integer (negative n) = is_safe (n + 1)
is_safe_integer negative_zero = true
is_safe_integer _ = false

-- `Number.isSafeInteger(value) && value >= 0 && !Object.is(value, -0)`
abbrev pub is_nonnegative : Number → Bool
is_nonnegative (whole n) = is_safe n
is_nonnegative _ = false

-- The checked number, as a natural one.
unfoldable pub simulation_time : Number → Result ℕ
simulation_time (whole n) = if is_safe n then ok n else throw invalid_simulation_time
simulation_time _ = throw invalid_simulation_time

unfoldable pub duration : Number → Result ℕ
duration (whole n) = if is_safe n then ok n else throw invalid_duration
duration _ = throw invalid_duration

mutual
  pub data Value : Type 0 where
    null : Value
    bool : Bool → Value
    num : Number → Value
    str : Text → Value
    arr : Items → Value
    obj : Fields → Value

  pub data Items : Type 0 where
    nil : Items
    cons : Value → Items → Items

  pub data Fields : Type 0 where
    end : Fields
    field : Text → Value → Fields → Fields

-- `object[key]` of an own property
unfoldable pub get_field : Text → Fields → Option Value
get_field k end = none
get_field k (field j v fs) = if text_eq j k then some v else get_field k fs

-- `Object.keys(object)`
abbrev pub keys : Fields → List Text
keys end = []
keys (field k v fs) = k ∷ keys fs

-- `list.includes(key)`
unfoldable pub includes : List Text → Text → Bool
includes [] k = false
includes (j ∷ js) k = if text_eq j k then true else includes js k

-- Every key of the object is among those.
unfoldable pub keys_within : List Text → Fields → Bool
keys_within allowed end = true
keys_within allowed (field k v fs) = includes allowed k && keys_within allowed fs

-- `isIdentifier`: a text that is not empty
abbrev pub identifier : Value → Option Text
identifier (str []) = none
identifier (str (c ∷ s)) = some (c ∷ s)
identifier _ = none

-- An object without one of its properties, as `const { key, ...rest } = object` leaves it.
unfoldable pub without : Text → Fields → Fields
without k end = end
without k (field j v fs) = if text_eq j k then without k fs else field j v (without k fs)

-- `{ ...object, key: value }`
unfoldable pub put_field : Text → Value → Fields → Fields
put_field k v end = field k v end
put_field k v (field j w fs) = if text_eq j k then field j v fs else field j w (put_field k v fs)

-- `...(value === undefined ? {} : { key: value })`, before the fields `fs`
abbrev pub with_field : Text → Option Value → Fields → Fields
with_field k none fs = fs
with_field k (some v) fs = field k v fs

abbrev pub with_text : Text → Option Text → Fields → Fields
with_text k none fs = fs
with_text k (some s) fs = field k (str s) fs

-- A text that is absent or empty is left out.
unfoldable pub truthy : Option Text → Option Text
truthy (some (c ∷ s)) = some (c ∷ s)
truthy _ = none

-- What `String.prototype.trim` strips: white space and line terminators.
unfoldable pub is_space : ℕ → Bool
is_space c =
    (leb 9 c && leb c 13)
    || c == 32
    || c == 160
    || c == 5760
    || (leb 8192 c && leb c 8202)
    || c == 8232
    || c == 8233
    || c == 8239
    || c == 8287
    || c == 12288
    || c == 65279

-- `name(value)` of a text: something is left when it is trimmed.
unfoldable pub is_name : Text → Bool
unfolding is_space
is_name [] = false
is_name (c ∷ s) = not (is_space c) || is_name s
