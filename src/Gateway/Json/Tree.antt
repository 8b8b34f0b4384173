-- ===== src/Gateway/Json/Tree.antt =====
-- JSON values with the names of their objects in order, and the tokens that spell them.
use osanwe.Prelude.{
  ℕ, suc, ◌+◌, ◌≤◌, ◌≡◌, refl, Bool, true, false, not, ◌&&◌, List, [], ◌∷◌, leb, ltb, if◌then◌else◌,
  arith,
}
use osanwe.Prelude.Text.{is_one_of}
use osanwe.Gateway.Json.{
  JsonToken, open_object, close_object, open_array, close_array, text, other, has_more,
  max_json_depth,
}

-- A number keeps its literal.
mutual
  pub data Json : Type 0 where
    null : Json
    boolean : Bool → Json
    number : List ℕ → Json
    string : List ℕ → Json
    array : Items → Json
    object : Members → Json

  pub data Items : Type 0 where
    no_items : Items
    item : Json → Items → Items

  pub data Members : Type 0 where
    no_members : Members
    member : List ℕ → Json → Members → Members

unfoldable mutual
  -- The tokens of a value, in front of others.
  pub tokens_onto : Json → List JsonToken → List JsonToken
  tokens_onto (string s) rest = text s ∷ rest
  tokens_onto (array items) rest = open_array ∷ items_onto items rest
  tokens_onto (object ms) rest = open_object ∷ members_onto ms rest
  tokens_onto _ rest = other ∷ rest

  pub items_onto : Items → List JsonToken → List JsonToken
  items_onto no_items rest = close_array ∷ rest
  items_onto (item v items) rest = tokens_onto v (items_onto items rest)

  pub members_onto : Members → List JsonToken → List JsonToken
  members_onto no_members rest = close_object ∷ rest
  members_onto (member key v ms) rest = text key ∷ tokens_onto v (members_onto ms rest)

abbrev max : ℕ → ℕ → ℕ
max a b = if leb a b then b else a

unfoldable mutual
  -- How deeply arrays and objects are nested.
  pub nesting : Json → ℕ
  nesting (array items) = suc (items_nesting items)
  nesting (object ms) = suc (members_nesting ms)
  nesting _ = 0

  pub items_nesting : Items → ℕ
  items_nesting no_items = 0
  items_nesting (item v items) = max (nesting v) (items_nesting items)

  pub members_nesting : Members → ℕ
  members_nesting no_members = 0
  members_nesting (member key v ms) = max (nesting v) (members_nesting ms)

unfoldable mutual
  -- No object has one name twice, at any level.
  pub has_distinct_names : Json → Bool
  has_distinct_names (array items) = items_distinct items
  has_distinct_names (object ms) = members_distinct [] ms
  has_distinct_names _ = true

  pub items_distinct : Items → Bool
  items_distinct no_items = true
  items_distinct (item v items) = has_distinct_names v && items_distinct items

  pub members_distinct : List (List ℕ) → Members → Bool
  members_distinct seen no_members = true
  members_distinct seen (member key v ms) =
      not (is_one_of seen key) && (has_distinct_names v && members_distinct (key ∷ seen) ms)

unfoldable mutual
  -- Both conditions, for a value at a depth.
  pub fits : ℕ → Json → Bool
  fits depth (array items) = ltb depth max_json_depth && items_fit (suc depth) items
  fits depth (object ms) = ltb depth max_json_depth && members_fit (suc depth) [] ms
  fits depth _ = true

  pub items_fit : ℕ → Items → Bool
  items_fit depth no_items = true
  items_fit depth (item v items) = fits depth v && items_fit depth items

  pub members_fit : ℕ → List (List ℕ) → Members → Bool
  members_fit depth seen no_members = true
  members_fit depth seen (member key v ms) =
      not (is_one_of seen key) && (fits depth v && members_fit depth (key ∷ seen) ms)

-- One level more.
deeper :
    (depth n : ℕ) (inner distinct : Bool)
    → depth ≤ max_json_depth
    → (suc depth ≤ max_json_depth → inner ≡ (leb (suc depth + n) max_json_depth && distinct))
    → (ltb depth max_json_depth && inner) ≡ (leb (depth + suc n) max_json_depth && distinct)
deeper depth n inner true h k = ground (arith, k)
deeper depth n inner false h k = ground (arith, k)

-- Two values beside each other.
beside :
    (depth m n : ℕ) (a b : Bool)
    → ((leb (depth + m) max_json_depth && a) && (leb (depth + n) max_json_depth && b))
      ≡ (leb (depth + max m n) max_json_depth && (a && b))
beside depth m n true true = ground arith
beside depth m n true false = ground arith
beside depth m n false b = ground arith

named_beside :
    (known : Bool) (depth m n : ℕ) (a b : Bool)
    → (not known
        && ((leb (depth + m) max_json_depth && a) && (leb (depth + n) max_json_depth && b)))
      ≡ (leb (depth + max m n) max_json_depth && (not known && (a && b)))
named_beside true depth m n a b = ground arith
named_beside false depth m n a b = beside depth m n a b

mutual
  unfolding fits nesting has_distinct_names

  pub fits_iff :
      (v : Json) (depth : ℕ)
      → depth ≤ max_json_depth
      → fits depth v ≡ (leb (depth + nesting v) max_json_depth && has_distinct_names v)
  fits_iff null depth h = ground arith
  fits_iff (boolean _) depth h = ground arith
  fits_iff (number _) depth h = ground arith
  fits_iff (string _) depth h = ground arith
  fits_iff (array items) depth h =
      deeper depth (items_nesting items) (items_fit (suc depth) items) (items_distinct items) h
        (items_fit_iff items (suc depth))
  fits_iff (object ms) depth h =
      deeper depth (members_nesting ms) (members_fit (suc depth) [] ms) (members_distinct [] ms) h
        (members_fit_iff ms (suc depth) [])

  items_fit_iff :
      (items : Items) (depth : ℕ)
      → depth ≤ max_json_depth
      → items_fit depth items
        ≡ (leb (depth + items_nesting items) max_json_depth && items_distinct items)
  items_fit_iff no_items depth h = ground arith
  items_fit_iff (item v items) depth h =
      rw (fits_iff v depth h, items_fit_iff items depth h)
        (beside depth (nesting v) (items_nesting items) (has_distinct_names v)
          (items_distinct items))

  members_fit_iff :
      (ms : Members) (depth : ℕ) (seen : List (List ℕ))
      → depth ≤ max_json_depth
      → members_fit depth seen ms
        ≡ (leb (depth + members_nesting ms) max_json_depth && members_distinct seen ms)
  members_fit_iff no_members depth seen h = ground arith
  members_fit_iff (member key v ms) depth seen h =
      rw (fits_iff v depth h, members_fit_iff ms depth (key ∷ seen) h)
        (named_beside (is_one_of seen key) depth (nesting v) (members_nesting ms)
          (has_distinct_names v) (members_distinct (key ∷ seen) ms))

pub has_more-tokens : (v : Json) (rest : List JsonToken) → has_more (tokens_onto v rest) ≡ true
unfolding has_more tokens_onto
has_more-tokens null rest = refl
has_more-tokens (boolean _) rest = refl
has_more-tokens (number _) rest = refl
has_more-tokens (string _) rest = refl
has_more-tokens (array _) rest = refl
has_more-tokens (object _) rest = refl
