-- ===== src/Prelude/Net.antt =====
-- net.SplitHostPort, over bytes.
use Prim.Native.Nat.{ℕ}
use mathlib.Core.Bool.{not, ◌&&◌, ◌||◌}
use mathlib.Core.Option.{Option, none, some}
use mathlib.Core.List.{List, [], ◌∷◌}
use osanwe.Prelude.Tests.{◌==◌, if◌then◌else◌}
use osanwe.Prelude.Text.{cut, has_byte}

-- The bytes on both sides of the last colon, from what is read and how the rest divides.
unfoldable pub cut_here : ℕ → List ℕ → Option (List ℕ × List ℕ) → Option (List ℕ × List ℕ)
cut_here c s (some (host, port)) = some (c ∷ host, port)
cut_here c s none = if c == 58 then some ([], s) else none

unfoldable pub cut_last_colon : List ℕ → Option (List ℕ × List ℕ)
unfolding cut_here
cut_last_colon [] = none
cut_last_colon (c ∷ s) = cut_here c s (cut_last_colon s)

-- The last colon stands right behind the bracket.
unfoldable pub port_behind : List ℕ → List ℕ → Option (List ℕ × List ℕ)
port_behind host [] = none
port_behind host (c ∷ port) =
    if c == 58
      && not (has_byte 58 port || (has_byte 91 host || (has_byte 91 port || has_byte 93 port)))
    then some (host, port)
    else none

unfoldable pub of_bracket : Option (List ℕ × List ℕ) → Option (List ℕ × List ℕ)
unfolding port_behind
of_bracket none = none
of_bracket (some (host, rest)) = port_behind host rest

unfoldable pub of_plain : List ℕ → Option (List ℕ × List ℕ) → Option (List ℕ × List ℕ)
of_plain s none = none
of_plain s (some (host, port)) =
    if has_byte 58 host || (has_byte 91 s || has_byte 93 s) then none else some (host, port)

unfoldable pub split_host_port : List ℕ → Option (List ℕ × List ℕ)
unfolding of_bracket of_plain
split_host_port [] = none
split_host_port (c ∷ s) =
    if c == 91 then of_bracket (cut 93 s) else of_plain (c ∷ s) (cut_last_colon (c ∷ s))
