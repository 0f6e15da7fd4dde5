-- ===== src/Prelude/Text.antt =====
-- Texts as the program compares them: truth of an optional text, `strip` and `lower`.
-- `strip` and `lower` are those of the ASCII characters.
use Prim.Native.Nat.{ℕ, ◌+◌}
use Prim.Native.Char.{code}
use Prim.Native.String.{String}
use mathlib.Core.Path.{◌≡◌}
use mathlib.Core.Logic.{◌↔◌}
use mathlib.Core.Bool.{Bool, true, false, ◌&&◌, ◌||◌, not}
use mathlib.Core.Option.{Option, none, some}
use mathlib.Core.List.{List, [], ◌∷◌, map, reverse}
use native.Mathlib.Omega.{arith}
use text.Mathlib.Text.{◌==◌ as str_eq}
use text.Mathlib.TextEquality.{eq_iff}
use port_forge.Prelude.Tests.{leb, ltb, ◌==◌, if◌then◌else◌}

abbrev pub codes : String → List ℕ
codes String.[] = []
codes (String.◌∷◌ c s) = code c ∷ codes s

abbrev pub is_space : ℕ → Bool
is_space c = (leb 9 c && leb c 13) || (leb 28 c && leb c 32)

abbrev pub drop_spaces : List ℕ → List ℕ
drop_spaces [] = []
drop_spaces (c ∷ cs) = let rest = drop_spaces cs in if is_space c then rest else c ∷ cs

abbrev pub lower_code : ℕ → ℕ
lower_code c = if leb 65 c && leb c 90 then c + 32 else c

-- `s.strip().lower()`, as code points
unfoldable pub normalize : String → List ℕ
normalize s = map lower_code (reverse (drop_spaces (reverse (drop_spaces (codes s)))))

abbrev pub codes_eq : List ℕ → List ℕ → Bool
codes_eq [] [] = true
codes_eq [] (_ ∷ _) = false
codes_eq (_ ∷ _) [] = false
codes_eq (a ∷ as') (b ∷ bs) = a == b && codes_eq as' bs

-- The order of texts: at the first difference.
abbrev pub text_lt : List ℕ → List ℕ → Bool
text_lt _ [] = false
text_lt [] (_ ∷ _) = true
text_lt (x ∷ xs) (y ∷ ys) = let rest = text_lt xs ys in if x == y then rest else ltb x y

pub codes_eq_iff : (a b : List ℕ) → (codes_eq a b ≡ true) ↔ (a ≡ b)
codes_eq_iff [] [] = ground arith
codes_eq_iff [] (_ ∷ _) = ground arith
codes_eq_iff (_ ∷ _) [] = ground arith
codes_eq_iff (a ∷ as') (b ∷ bs) = ground (arith, codes_eq_iff as' bs)

-- `bool(s)` of a text that may be None
abbrev pub is_truthy : Option String → Bool
is_truthy none = false
is_truthy (some s) = not (str_eq s "")

-- `a == b` on texts that may be None
abbrev pub opt_str_eq : Option String → Option String → Bool
opt_str_eq none none = true
opt_str_eq none (some _) = false
opt_str_eq (some _) none = false
opt_str_eq (some a) (some b) = str_eq a b

pub opt_str_eq_iff : (a b : Option String) → (opt_str_eq a b ≡ true) ↔ (a ≡ b)
opt_str_eq_iff none none = ground arith
opt_str_eq_iff none (some _) = ground arith
opt_str_eq_iff (some _) none = ground arith
opt_str_eq_iff (some a) (some b) = ground (arith, eq_iff a b)
