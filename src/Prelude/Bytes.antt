-- ===== src/Prelude/Bytes.antt =====
-- encoding/binary's big-endian words, over lists of bytes.
use native.Mathlib.Nat.{pow-suc}
use Prim.Native.Nat.{ℕ, zero, suc, ◌+◌, ◌*◌, ◌/◌, ◌%◌, ◌^◌, ◌<◌}
use mathlib.Core.Path.{◌≡◌, refl}
use mathlib.Core.List.{List, [], ◌∷◌, ◌++◌}
use native.Mathlib.Omega.{arith}
use osanwe.Prelude.Lists.{length, take, drop, length-append, take-append, drop-append}

-- PutUint16, PutUint32 and PutUint64 at 2, 4 and 8 bytes.
unfoldable pub put_be : ℕ → ℕ → List ℕ
put_be zero v = []
put_be (suc n) v = put_be n (v / 256) ++ v % 256 ∷ []

be_from : ℕ → List ℕ → ℕ
be_from acc [] = acc
be_from acc (b ∷ bs) = be_from (acc * 256 + b) bs

-- Uint16, Uint32 and Uint64 of as many bytes.
unfoldable pub get_be : List ℕ → ℕ
unfolding be_from
get_be bs = be_from 0 bs

be_from-append : (acc b : ℕ) (bs : List ℕ) → be_from acc (bs ++ b ∷ []) ≡ be_from acc bs * 256 + b
unfolding be_from
be_from-append acc b [] = refl
be_from-append acc b (c ∷ bs) = be_from-append (acc * 256 + c) b bs

pub get_be-put_be : (n v : ℕ) → v < 256 ^ n → get_be (put_be n v) ≡ v
unfolding put_be get_be
get_be-put_be zero v h = omega arith
get_be-put_be (suc n) v h = omega (
  arith,
  be_from-append 0 (v % 256) (put_be n (v / 256)),
  get_be-put_be n (v / 256) (omega (arith, pow-suc 256 n)),
)

pub length-put_be : (n v : ℕ) → length (put_be n v) ≡ n
unfolding put_be
length-put_be zero v = refl
length-put_be (suc n) v =
    omega (arith, length-append (put_be n (v / 256)) (v % 256 ∷ []), length-put_be n (v / 256))

-- A word at the front of a record is read back, and what follows it is kept.
module _ (n v : ℕ) (rest : List ℕ) where
  pub take-put_be : take n (put_be n v ++ rest) ≡ put_be n v
  take-put_be = take-append n (put_be n v) rest (length-put_be n v)

  pub drop-put_be : drop n (put_be n v ++ rest) ≡ rest
  drop-put_be = drop-append n (put_be n v) rest (length-put_be n v)
