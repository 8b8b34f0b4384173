-- ===== src/Gateway/Json/Ends.antt =====
-- The walk ends by its own tests on every list of tokens.
use osanwe.Prelude.{
  ℕ, zero, suc, ◌+◌, ◌*◌, ◌≤◌, ◌<◌, ◌≡◌, ◌≢◌, ◌⊎◌, inl, inr, refl, Bool, true, false, List, [], ◌∷◌,
  length, leb, if◌then◌else◌, arith, Bool-cases,
}
use osanwe.Prelude.Go.{Result, ok, err, ◌>>=◌}
use osanwe.Prelude.Text.{is_one_of}
use osanwe.Gateway.Json.{
  JsonError, JsonToken, open_object, close_object, open_array, close_array, text, other, broken,
  has_more, max_json_depth, end_object, end_array, read_name, walk_value, walk_members, walk_items,
  at_end, reject_duplicate_names, out_of_fuel, unexpected_end, syntax, nested_too_deeply,
  unexpected_delimiter, duplicate_field, name_not_string, malformed_object, malformed_array,
}

-- Fewer than so many tokens are left, or there is an error of the code.
abbrev EndsBelow : ℕ → Result JsonError (List JsonToken) → Type 0
EndsBelow bound walked =
    ((rest : List JsonToken) × (walked ≡ ok rest) × (length rest < bound))
    ⊎ ((e : JsonError) × (walked ≡ err e) × (e ≢ out_of_fuel))

bounded_depth :
    (depth bound : ℕ) (e : JsonError) (walked : Result JsonError (List JsonToken))
    → e ≢ out_of_fuel
    → EndsBelow bound walked
    → EndsBelow (suc bound) (if leb max_json_depth depth then err e else walked)
bounded_depth depth bound e walked n h = elim (Bool-cases (leb max_json_depth depth)) [
  | inl k ↦ inr (e, rw k refl, n)
  | inr k ↦ elim h [
    | inl (rest, a, b) ↦ inl (rest, rw k a, omega arith)
    | inr (f, a, b) ↦ inr (f, rw k a, b)
  ]
]

end_object-EndsBelow : (ts : List JsonToken) → EndsBelow (length ts) (end_object ts)
unfolding end_object
end_object-EndsBelow (close_object ∷ ts) = inl (ts, refl, omega arith)
end_object-EndsBelow [] = inr (malformed_object, refl, λ e. cc)
end_object-EndsBelow (open_object ∷ ts) = inr (malformed_object, refl, λ e. cc)
end_object-EndsBelow (open_array ∷ ts) = inr (malformed_object, refl, λ e. cc)
end_object-EndsBelow (close_array ∷ ts) = inr (malformed_object, refl, λ e. cc)
end_object-EndsBelow (broken ∷ ts) = inr (malformed_object, refl, λ e. cc)
end_object-EndsBelow (text _ ∷ ts) = inr (malformed_object, refl, λ e. cc)
end_object-EndsBelow (other ∷ ts) = inr (malformed_object, refl, λ e. cc)

end_array-EndsBelow : (ts : List JsonToken) → EndsBelow (length ts) (end_array ts)
unfolding end_array
end_array-EndsBelow (close_array ∷ ts) = inl (ts, refl, omega arith)
end_array-EndsBelow [] = inr (malformed_array, refl, λ e. cc)
end_array-EndsBelow (open_object ∷ ts) = inr (malformed_array, refl, λ e. cc)
end_array-EndsBelow (open_array ∷ ts) = inr (malformed_array, refl, λ e. cc)
end_array-EndsBelow (close_object ∷ ts) = inr (malformed_array, refl, λ e. cc)
end_array-EndsBelow (broken ∷ ts) = inr (malformed_array, refl, λ e. cc)
end_array-EndsBelow (text _ ∷ ts) = inr (malformed_array, refl, λ e. cc)
end_array-EndsBelow (other ∷ ts) = inr (malformed_array, refl, λ e. cc)

abbrev NameBelow : ℕ → Result JsonError (List ℕ × List JsonToken) → Type 0
NameBelow bound named =
    ((key : List ℕ) × (rest : List JsonToken) × (named ≡ ok (key, rest)) × (length rest < bound))
    ⊎ ((e : JsonError) × (named ≡ err e) × (e ≢ out_of_fuel))

read_name-NameBelow :
    (seen : List (List ℕ)) (ts : List JsonToken) → NameBelow (length ts) (read_name seen ts)
unfolding read_name
read_name-NameBelow seen [] = inr (unexpected_end, refl, λ e. cc)
read_name-NameBelow seen (broken ∷ ts) = inr (syntax, refl, λ e. cc)
read_name-NameBelow seen (text key ∷ ts) = elim (Bool-cases (is_one_of seen key)) [
  | inl e ↦ inr (duplicate_field, rw e refl, λ f. cc)
  | inr e ↦ inl (key, ts, rw e refl, omega arith)
]
read_name-NameBelow seen (open_object ∷ ts) = inr (name_not_string, refl, λ e. cc)
read_name-NameBelow seen (open_array ∷ ts) = inr (name_not_string, refl, λ e. cc)
read_name-NameBelow seen (close_object ∷ ts) = inr (name_not_string, refl, λ e. cc)
read_name-NameBelow seen (close_array ∷ ts) = inr (name_not_string, refl, λ e. cc)
read_name-NameBelow seen (other ∷ ts) = inr (name_not_string, refl, λ e. cc)

weaker :
    (m n : ℕ) (walked : Result JsonError (List JsonToken))
    → m ≤ n
    → EndsBelow m walked
    → EndsBelow n walked
weaker m n walked h (inl (rest, a, b)) = inl (rest, a, omega arith)
weaker m n walked h (inr k) = inr k

chained :
    (m n : ℕ) (walked : Result JsonError (List JsonToken))
    (next : List JsonToken → Result JsonError (List JsonToken))
    → EndsBelow m walked
    → ((rest : List JsonToken) → length rest < m → EndsBelow n (next rest))
    → EndsBelow n (walked >>= next)
chained m n walked next (inl (rest, a, b)) k = rw a (k rest b)
chained m n walked next (inr (e, a, b)) k = inr (e, rw a refl, b)

named_first :
    (m n : ℕ) (read : Result JsonError (List ℕ × List JsonToken))
    (next : List ℕ × List JsonToken → Result JsonError (List JsonToken))
    → NameBelow m read
    → ((key : List ℕ) (rest : List JsonToken) → length rest < m → EndsBelow n (next (key, rest)))
    → EndsBelow n (read >>= next)
named_first m n read next (inl (key, rest, a, b)) k = rw a (k key rest b)
named_first m n read next (inr (e, a, b)) k = inr (e, rw a refl, b)

either :
    (bound : ℕ) (more : Bool) (x y : Result JsonError (List JsonToken))
    → EndsBelow bound x
    → EndsBelow bound y
    → EndsBelow bound (elim more [ false ↦ x | true ↦ y ])
either bound true x y h k = k
either bound false x y h k = h

mutual
  unfolding walk_value

  walk_value-EndsBelow :
      (fuel depth : ℕ) (ts : List JsonToken)
      → 2 * length ts + 1 ≤ fuel
      → EndsBelow (length ts) (walk_value fuel depth ts)
  walk_value-EndsBelow zero depth ts h = absurd (omega arith)
  walk_value-EndsBelow (suc n) depth [] h = inr (unexpected_end, refl, λ e. cc)
  walk_value-EndsBelow (suc n) depth (broken ∷ ts) h = inr (syntax, refl, λ e. cc)
  walk_value-EndsBelow (suc n) depth (text _ ∷ ts) h = inl (ts, refl, omega arith)
  walk_value-EndsBelow (suc n) depth (other ∷ ts) h = inl (ts, refl, omega arith)
  walk_value-EndsBelow (suc n) depth (open_object ∷ ts) h =
      bounded_depth depth (length ts) nested_too_deeply _ (λ e. cc)
        (walk_members-EndsBelow n (suc depth) [] ts (omega arith))
  walk_value-EndsBelow (suc n) depth (open_array ∷ ts) h =
      bounded_depth depth (length ts) nested_too_deeply _ (λ e. cc)
        (walk_items-EndsBelow n (suc depth) ts (omega arith))
  walk_value-EndsBelow (suc n) depth (close_object ∷ ts) h =
      bounded_depth depth (length ts) nested_too_deeply _ (λ e. cc)
        (inr (unexpected_delimiter, refl, λ e. cc))
  walk_value-EndsBelow (suc n) depth (close_array ∷ ts) h =
      bounded_depth depth (length ts) nested_too_deeply _ (λ e. cc)
        (inr (unexpected_delimiter, refl, λ e. cc))

  walk_members-EndsBelow :
      (fuel depth : ℕ) (seen : List (List ℕ)) (ts : List JsonToken)
      → 2 * length ts + 2 ≤ fuel
      → EndsBelow (length ts) (walk_members fuel depth seen ts)
  walk_members-EndsBelow zero depth seen ts h = absurd (omega arith)
  walk_members-EndsBelow (suc n) depth seen ts h =
      either (length ts) (has_more ts) _ _ (end_object-EndsBelow ts) (
        named_first (length ts) (length ts) (read_name seen ts) _ (read_name-NameBelow seen ts)
          λ key rest lt.
            chained (length rest) (length ts) (walk_value n depth rest)
              (walk_members n depth (key ∷ seen)) (walk_value-EndsBelow n depth rest (omega arith))
              λ left lt2.
                weaker (length left) (length ts) (walk_members n depth (key ∷ seen) left)
                  (omega arith) (walk_members-EndsBelow n depth (key ∷ seen) left (omega arith)))

  walk_items-EndsBelow :
      (fuel depth : ℕ) (ts : List JsonToken)
      → 2 * length ts + 2 ≤ fuel
      → EndsBelow (length ts) (walk_items fuel depth ts)
  walk_items-EndsBelow zero depth ts h = absurd (omega arith)
  walk_items-EndsBelow (suc n) depth ts h =
      either (length ts) (has_more ts) _ _ (end_array-EndsBelow ts) (
        chained (length ts) (length ts) (walk_value n depth ts) (walk_items n depth)
          (walk_value-EndsBelow n depth ts (omega arith))
          λ left lt.
            weaker (length left) (length ts) (walk_items n depth left) (omega arith)
              (walk_items-EndsBelow n depth left (omega arith)))

at_end_ends : (rest : List JsonToken) → at_end rest ≢ err out_of_fuel
unfolding at_end
at_end_ends [] = λ e. cc
at_end_ends (broken ∷ _) = λ e. cc
at_end_ends (text _ ∷ _) = λ e. cc
at_end_ends (other ∷ _) = λ e. cc
at_end_ends (open_object ∷ _) = λ e. cc
at_end_ends (close_object ∷ _) = λ e. cc
at_end_ends (open_array ∷ _) = λ e. cc
at_end_ends (close_array ∷ _) = λ e. cc

-- The gateway's check of duplicate names ends by its own tests on every list of tokens, with as much
-- fuel as it is given.
pub reject_duplicate_names_ends :
    (ts : List JsonToken) → reject_duplicate_names ts ≢ err out_of_fuel
unfolding reject_duplicate_names
reject_duplicate_names_ends ts h =
    elim (walk_value-EndsBelow (2 * length ts + 1) 0 ts (omega arith)) [
      | inl (rest, a, b) ↦ at_end_ends rest (ground (arith, a))
      | inr (e, a, b) ↦ b (ground (arith, a))
    ]
