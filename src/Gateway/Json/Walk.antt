-- ===== src/Gateway/Json/Walk.antt =====
-- What the walk over a value's tokens finds.
use osanwe.Prelude.{
  ℕ, zero, suc, ◌+◌, ◌*◌, ◌≤◌, ◌<◌, ◌≡◌, ◌↔◌, ◌⊎◌, inl, inr, refl, Bool, true, false, not, ◌&&◌,
  List, [], ◌∷◌, length, leb, ltb, if◌then◌else◌, arith, Bool-cases,
}
use osanwe.Prelude.Go.{Result, ok, err, ◌>>=◌}
use osanwe.Prelude.Text.{is_one_of}
use osanwe.Gateway.Json.{
  JsonError, JsonToken, text, has_more, max_json_depth, end_object, end_array, read_name,
  walk_value, walk_members, walk_items, at_end, reject_duplicate_names,
}
use osanwe.Gateway.Json.Tree.{
  Json, null, boolean, number, string, array, object, Items, no_items, item, Members, no_members,
  member, tokens_onto, items_onto, members_onto, fits, items_fit, members_fit, fits_iff,
  has_more-tokens, nesting, has_distinct_names,
}

-- The test decides between success with the rest of the tokens and an error.
abbrev Outcome : Bool → Result JsonError (List JsonToken) → List JsonToken → Type 0
Outcome fine walked rest =
    ((fine ≡ true) × (walked ≡ ok rest)) ⊎ ((fine ≡ false) × (e : JsonError) × (walked ≡ err e))

-- Calls enough for a value.
mutual
  cost : Json → ℕ
  cost (array items) = suc (items_cost items)
  cost (object ms) = suc (members_cost ms)
  cost _ = 1

  items_cost : Items → ℕ
  items_cost no_items = 1
  items_cost (item v items) = suc (cost v + items_cost items)

  members_cost : Members → ℕ
  members_cost no_members = 1
  members_cost (member key v ms) = suc (cost v + members_cost ms)

mutual
  unfolding cost tokens_onto

  cost_le :
      (v : Json) (rest : List JsonToken)
      → cost v + 1 + 2 * length rest ≤ 2 * length (tokens_onto v rest)
  cost_le null rest = omega arith
  cost_le (boolean _) rest = omega arith
  cost_le (number _) rest = omega arith
  cost_le (string _) rest = omega arith
  cost_le (array items) rest = omega (arith, items_cost_le items rest)
  cost_le (object ms) rest = omega (arith, members_cost_le ms rest)

  items_cost_le :
      (items : Items) (rest : List JsonToken)
      → items_cost items + 1 + 2 * length rest ≤ 2 * length (items_onto items rest)
  items_cost_le no_items rest = omega arith
  items_cost_le (item v items) rest =
      omega (arith, cost_le v (items_onto items rest), items_cost_le items rest)

  members_cost_le :
      (ms : Members) (rest : List JsonToken)
      → members_cost ms + 1 + 2 * length rest ≤ 2 * length (members_onto ms rest)
  members_cost_le no_members rest = omega arith
  members_cost_le (member key v ms) rest =
      omega (arith, cost_le v (members_onto ms rest), members_cost_le ms rest)

-- One object or array around what is inside.
around :
    (depth : ℕ) (fine : Bool) (walked : Result JsonError (List JsonToken)) (rest : List JsonToken)
    → Outcome fine walked rest
    → Outcome
        (ltb depth max_json_depth && fine)
        (if leb max_json_depth depth then err JsonError.nested_too_deeply else walked)
        rest
around depth fine walked rest h = elim (Bool-cases (leb max_json_depth depth)) [
  | inl e ↦ inr (ground arith, JsonError.nested_too_deeply, ground arith)
  | inr e ↦ elim h [
    | inl (a, b) ↦ inl (ground arith, ground arith)
    | inr (a, f, b) ↦ inr (ground arith, f, ground arith)
  ]
]

-- One value and what follows it.
after :
    (fine later : Bool) (walked : Result JsonError (List JsonToken))
    (next : List JsonToken → Result JsonError (List JsonToken)) (middle rest : List JsonToken)
    → Outcome fine walked middle
    → Outcome later (next middle) rest
    → Outcome (fine && later) (walked >>= next) rest
after fine later walked next middle rest h k = elim h [
  | inl (a, b) ↦ rw (a, b) k
  | inr (a, f, b) ↦ inr (ground arith, f, rw b refl)
]

cost_positive : (v : Json) → 0 < cost v
unfolding cost
cost_positive (array items) = omega arith
cost_positive (object ms) = omega arith
cost_positive null = omega arith
cost_positive (boolean _) = omega arith
cost_positive (number _) = omega arith
cost_positive (string _) = omega arith

items_cost_positive : (items : Items) → 0 < items_cost items
unfolding cost
items_cost_positive no_items = omega arith
items_cost_positive (item v items) = omega arith

members_cost_positive : (ms : Members) → 0 < members_cost ms
unfolding cost
members_cost_positive no_members = omega arith
members_cost_positive (member key v ms) = omega arith

-- The loops, where another element follows.
walk_items-more :
    (n depth : ℕ) (ts : List JsonToken)
    → has_more ts ≡ true
    → walk_items (suc n) depth ts ≡ (walk_value n depth ts >>= walk_items n depth)
unfolding walk_items
walk_items-more n depth ts h = rw (h, walk_items) refl

walk_members-more :
    (n depth : ℕ) (seen : List (List ℕ)) (key : List ℕ) (ts : List JsonToken)
    → walk_members (suc n) depth seen (text key ∷ ts) ≡ (
        if is_one_of seen key
        then err JsonError.duplicate_field
        else (walk_value n depth ts >>= walk_members n depth (key ∷ seen)))
unfolding walk_members read_name has_more
walk_members-more n depth seen key ts = elim (Bool-cases (is_one_of seen key)) [
  | inl e ↦ rw (e, walk_members, read_name) refl
  | inr e ↦ rw (e, walk_members, read_name) refl
]

named :
    (known fine : Bool) (walked : Result JsonError (List JsonToken)) (rest : List JsonToken)
    → Outcome fine walked rest
    → Outcome (not known && fine) (if known then err JsonError.duplicate_field else walked) rest
named true fine walked rest h = inr (refl, JsonError.duplicate_field, refl)
named false fine walked rest h = h

mutual
  unfolding cost tokens_onto walk_value fits has_more end_object end_array

  walk-value :
      (v : Json) (fuel depth : ℕ) (rest : List JsonToken)
      → cost v ≤ fuel
      → Outcome (fits depth v) (walk_value fuel depth (tokens_onto v rest)) rest
  walk-value v zero depth rest h = absurd (omega (arith, cost_positive v))
  walk-value null (suc n) depth rest h = inl (refl, refl)
  walk-value (boolean _) (suc n) depth rest h = inl (refl, refl)
  walk-value (number _) (suc n) depth rest h = inl (refl, refl)
  walk-value (string _) (suc n) depth rest h = inl (refl, refl)
  walk-value (array items) (suc n) depth rest h =
      around depth _ _ rest (walk-items items n (suc depth) rest (omega arith))
  walk-value (object ms) (suc n) depth rest h =
      around depth _ _ rest (walk-ms ms n (suc depth) [] rest (omega arith))

  walk-items :
      (items : Items) (fuel depth : ℕ) (rest : List JsonToken)
      → items_cost items ≤ fuel
      → Outcome (items_fit depth items) (walk_items fuel depth (items_onto items rest)) rest
  walk-items items zero depth rest h = absurd (omega (arith, items_cost_positive items))
  walk-items no_items (suc n) depth rest h = inl (refl, refl)
  walk-items (item v items) (suc n) depth rest h =
      rw
        (walk_items-more n depth (tokens_onto v (items_onto items rest))
          (has_more-tokens v (items_onto items rest)))
        (after (fits depth v) (items_fit depth items)
          (walk_value n depth (tokens_onto v (items_onto items rest))) (walk_items n depth)
          (items_onto items rest) rest (walk-value v n depth (items_onto items rest) (omega arith))
          (walk-items items n depth rest (omega arith)))

  walk-ms :
      (ms : Members) (fuel depth : ℕ) (seen : List (List ℕ)) (rest : List JsonToken)
      → members_cost ms ≤ fuel
      → Outcome
          (members_fit depth seen ms)
          (walk_members fuel depth seen (members_onto ms rest))
          rest
  walk-ms ms zero depth seen rest h = absurd (omega (arith, members_cost_positive ms))
  walk-ms no_members (suc n) depth seen rest h = inl (refl, refl)
  walk-ms (member key v ms) (suc n) depth seen rest h =
      rw (walk_members-more n depth seen key (tokens_onto v (members_onto ms rest))) (
        named (is_one_of seen key) (fits depth v && members_fit depth (key ∷ seen) ms) _ rest (
          after (fits depth v) (members_fit depth (key ∷ seen) ms)
            (walk_value n depth (tokens_onto v (members_onto ms rest)))
            (walk_members n depth (key ∷ seen)) (members_onto ms rest) rest
            (walk-value v n depth (members_onto ms rest) (omega arith))
            (walk-ms ms n depth (key ∷ seen) rest (omega arith))))

-- The gateway's check accepts the tokens of a value exactly if no object in it has a name twice and
-- it is nested at most 32 deep.
pub reject_duplicate_names_iff :
    (v : Json)
    → (reject_duplicate_names (tokens_onto v []) ≡ ok tt)
      ↔ ((nesting v ≤ max_json_depth) × (has_distinct_names v ≡ true))
unfolding reject_duplicate_names at_end
reject_duplicate_names_iff v =
    let enough = cost_le v [] in
    elim (walk-value v (2 * length (tokens_onto v []) + 1) 0 [] (omega arith)) [
      | inl (a, b) ↦ ground (arith, a, b, fits_iff v 0)
      | inr (a, e, b) ↦ ground (arith, a, b, fits_iff v 0)
    ]
