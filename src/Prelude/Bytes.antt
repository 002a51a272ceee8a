-- ===== src/Prelude/Bytes.antt =====
-- Bytes and texts. A `&str` is the list of its bytes; a literal is ASCII.
use Prim.Native.Nat.{ℕ, zero, suc, ◌+◌, ◌/◌, ◌%◌}
use Prim.Native.Char.{code}
use Prim.Native.String.{String}
use mathlib.Core.Path.{◌≡◌, refl}
use mathlib.Core.Bool.{Bool, true, false, ◌&&◌}
use mathlib.Core.List.{List, [], ◌∷◌, ◌++◌}
use mathlib.Core.Logic.{◌≢◌}
use native.Mathlib.Omega.{arith}
use imap_client.Prelude.Lists.{All}
use imap_client.Prelude.Tests.{if◌then◌else◌, ◌==◌, leb, ltb}

abbrev pub bytes : String → List ℕ
bytes String.[] = []
bytes (String.◌∷◌ c s) = code c ∷ bytes s

-- `slice::split(|c| c == &sep)`: the pieces between the separators.
abbrev add_to_first : ℕ → List (List ℕ) → List (List ℕ)
add_to_first c [] = (c ∷ []) ∷ []
add_to_first c (piece ∷ pieces) = (c ∷ piece) ∷ pieces

unfoldable pub split : ℕ → List ℕ → List (List ℕ)
split sep [] = [] ∷ []
split sep (c ∷ cs) = let rest = split sep cs in if c == sep then [] ∷ rest else add_to_first c rest

-- A piece without the separator ends at the separator that follows it.
pub split-append :
    (sep : ℕ) (piece rest : List ℕ)
    → All (λ c. c ≢ sep) piece
    → split sep (piece ++ sep ∷ rest) ≡ piece ∷ split sep rest
unfolding split
split-append sep [] rest h = ground arith
split-append sep (c ∷ piece) rest h = ground (arith, split-append sep piece rest h.1)

pub split_whole :
    (sep : ℕ) (piece : List ℕ) → All (λ c. c ≢ sep) piece → split sep piece ≡ piece ∷ []
unfolding split
split_whole sep [] h = refl
split_whole sep (c ∷ piece) h = ground (arith, split_whole sep piece h.1)

-- `u8::to_ascii_lowercase` and `eq_ignore_ascii_case`
abbrev to_lower : ℕ → ℕ
to_lower c = if leb b'A' c && leb c b'Z' then c + 32 else c

unfoldable pub eq_ignore_ascii_case : List ℕ → List ℕ → Bool
eq_ignore_ascii_case [] [] = true
eq_ignore_ascii_case (a ∷ as_) (b ∷ bs) = (to_lower a == to_lower b) && eq_ignore_ascii_case as_ bs
eq_ignore_ascii_case _ _ = false

-- `format!("{n}")` of a number: its decimal digits. A number has at most as many digits as
-- `n + 1`, which is the fuel.
unfoldable pub digits : ℕ → ℕ → List ℕ
digits zero n = []
digits (suc fuel) n =
    let rest = digits fuel (n / 10) ++ (48 + n % 10) ∷ [] in
    if ltb n 10 then (48 + n) ∷ [] else rest

unfoldable pub format_number : ℕ → List ℕ
unfolding digits
format_number n = digits (n + 1) n

format_number_port : format_number 993 ≡ bytes "993"
unfolding format_number
format_number_port = refl
