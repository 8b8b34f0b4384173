-- ===== src/Gateway/Json.antt =====
-- internal/gateway/gateway.go: rejectDuplicateJSONNames over the tokens that a json.Decoder
-- delivers. The decoder itself, which finds the tokens in the bytes, is a parameter of the callers:
-- `broken` is where it reports a syntax error, and the end of the list is io.EOF.
pub mod Tree
pub mod Walk
pub mod Ends
mod Tests
use osanwe.Prelude.{
  ℕ, zero, suc, ◌+◌, ◌*◌, Bool, true, false, ◌||◌, List, [], ◌∷◌, length, leb, if◌then◌else◌,
}
use osanwe.Prelude.Go.{Result, ok, err, ◌>>=◌}
use osanwe.Prelude.Text.{is_one_of}

pub data JsonError : Type 0 where
  unexpected_end syntax nested_too_deeply name_not_string duplicate_field : JsonError
  malformed_object malformed_array unexpected_delimiter trailing_values out_of_fuel : JsonError

-- `text` is a string token, which is an object's name or a value; `other` is a number, true, false
-- or null.
pub data JsonToken : Type 0 where
  open_object close_object open_array close_array broken : JsonToken
  text : List ℕ → JsonToken
  other : JsonToken

abbrev pub max_json_depth : ℕ
max_json_depth = 32

-- dec.More(): neither the end of the input, nor an error, nor a closing delimiter.
unfoldable pub has_more : List JsonToken → Bool
has_more [] = false
has_more (broken ∷ _) = false
has_more (close_object ∷ _) = false
has_more (close_array ∷ _) = false
has_more (_ ∷ _) = true

-- The closing token of an object and of an array.
unfoldable pub end_object : List JsonToken → Result JsonError (List JsonToken)
end_object (close_object ∷ ts) = ok ts
end_object _ = err malformed_object

unfoldable pub end_array : List JsonToken → Result JsonError (List JsonToken)
end_array (close_array ∷ ts) = ok ts
end_array _ = err malformed_array

-- An object's name, if it was not seen before in this object.
unfoldable pub read_name :
    List (List ℕ) → List JsonToken → Result JsonError (List ℕ × List JsonToken)
read_name seen [] = err unexpected_end
read_name seen (broken ∷ _) = err syntax
read_name seen (text key ∷ ts) = if is_one_of seen key then err duplicate_field else ok (key, ts)
read_name seen (_ ∷ ts) = err name_not_string

-- walkJSONValue and its two loops, which return the tokens that are left.
unfoldable mutual
  pub walk_value : ℕ → ℕ → List JsonToken → Result JsonError (List JsonToken)
  walk_value zero depth ts = err out_of_fuel
  walk_value (suc fuel) depth [] = err unexpected_end
  walk_value (suc fuel) depth (broken ∷ ts) = err syntax
  walk_value (suc fuel) depth (text _ ∷ ts) = ok ts
  walk_value (suc fuel) depth (other ∷ ts) = ok ts
  walk_value (suc fuel) depth (open_object ∷ ts) =
      let walked = walk_members fuel (suc depth) [] ts in
      if leb max_json_depth depth then err nested_too_deeply else walked
  walk_value (suc fuel) depth (open_array ∷ ts) =
      let walked = walk_items fuel (suc depth) ts in
      if leb max_json_depth depth then err nested_too_deeply else walked
  walk_value (suc fuel) depth (_ ∷ ts) =
      if leb max_json_depth depth then err nested_too_deeply else err unexpected_delimiter

  pub walk_members : ℕ → ℕ → List (List ℕ) → List JsonToken → Result JsonError (List JsonToken)
  walk_members zero depth seen ts = err out_of_fuel
  walk_members (suc fuel) depth seen ts = elim (has_more ts) [
    | false ↦ end_object ts
    | true ↦ do
      named ← read_name seen ts
      rest ← walk_value fuel depth named.1
      walk_members fuel depth (named.0 ∷ seen) rest
  ]

  pub walk_items : ℕ → ℕ → List JsonToken → Result JsonError (List JsonToken)
  walk_items zero depth ts = err out_of_fuel
  walk_items (suc fuel) depth ts = elim (has_more ts) [
    | false ↦ end_array ts
    | true ↦ do rest ← walk_value fuel depth ts; walk_items fuel depth rest
  ]

-- Nothing may follow the value.
unfoldable pub at_end : List JsonToken → Result JsonError (Unit {0})
at_end [] = ok tt
at_end (broken ∷ _) = err syntax
at_end (_ ∷ _) = err trailing_values

-- rejectDuplicateJSONNames. Two calls for a token are enough: one that reads it and one that looks
-- at what follows.
unfoldable pub reject_duplicate_names : List JsonToken → Result JsonError (Unit {0})
unfolding at_end
reject_duplicate_names ts = do rest ← walk_value (2 * length ts + 1) 0 ts; at_end rest
