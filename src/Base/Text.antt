-- ===== src/Base/Text.antt =====
-- Go's texts as sequences of code points (UTF-8 that is valid, as a JSON body always decodes to),
-- and the functions of package strings that the program calls.
use Prim.Native.Char.{code}
use Prim.Native.String.{String}
use Prim.Native.Nat.{ℕ}
use mathlib.Core.Path.{◌≡◌, refl, ap, ◌∙◌}
use mathlib.Core.Bool.{Bool, true, false, not, ◌&&◌, ◌||◌}
use native.Mathlib.Omega.{arith}
use mathlib.Core.Logic.{inl, inr}
use forge_platform.Base.Tests.{leb, ◌==◌, if◌then◌else◌, Bool-cases}

-- unicode.IsSpace
unfoldable pub is_space : ℕ → Bool
is_space c =
    (leb 9 c && leb c 13)
    || c == 32
    || c == 0x85
    || c == 0xA0
    || c == 0x1680
    || (leb 0x2000 c && leb c 0x200a)
    || c == 0x2028
    || c == 0x2029
    || c == 0x202f
    || c == 0x205f
    || c == 0x3000

abbrev pub is_empty : String → Bool
is_empty String.[] = true
is_empty (String.◌∷◌ c s) = false

trim_left : String → String
trim_left String.[] = ""
trim_left (String.◌∷◌ c s) =
    let rest = trim_left s in if is_space (code c) then rest else String.◌∷◌ c s

trim_right : String → String
trim_right String.[] = ""
trim_right (String.◌∷◌ c s) =
    let rest = trim_right s in if is_empty rest && is_space (code c) then "" else String.◌∷◌ c rest

-- strings.TrimSpace
unfoldable pub trim_space : String → String
unfolding trim_left trim_right
trim_space s = trim_right (trim_left s)

-- A text that does not begin with a space.
abbrev starts_solid : String → Bool
starts_solid String.[] = true
starts_solid (String.◌∷◌ c s) = not (is_space (code c))

trim_left-starts_solid : (s : String) → starts_solid (trim_left s) ≡ true
unfolding trim_left
trim_left-starts_solid String.[] = refl
trim_left-starts_solid (String.◌∷◌ c s) = ground (arith, trim_left-starts_solid s)

trim_left-solid : (s : String) → starts_solid s ≡ true → trim_left s ≡ s
unfolding trim_left
trim_left-solid String.[] h = refl
trim_left-solid (String.◌∷◌ c s) h = ground arith

trim_right-starts_solid : (s : String) → starts_solid s ≡ true → starts_solid (trim_right s) ≡ true
unfolding trim_right
trim_right-starts_solid String.[] h = refl
trim_right-starts_solid (String.◌∷◌ c s) h = ground arith

trim_right_idem : (s : String) → trim_right (trim_right s) ≡ trim_right s
unfolding trim_right
trim_right_idem String.[] = refl
trim_right_idem (String.◌∷◌ c s) =
    elim (Bool-cases (is_empty (trim_right s) && is_space (code c))) [
      | inl e ↦ rw e
      | inr e ↦ rw e (rw (trim_right_idem s) (rw e))
    ]

pub trim_space_idem : (s : String) → trim_space (trim_space s) ≡ trim_space s
unfolding trim_space
trim_space_idem s =
    ap trim_right (
      trim_left-solid (trim_right (trim_left s))
        (trim_right-starts_solid (trim_left s) (trim_left-starts_solid s)))
    ∙ trim_right_idem (trim_left s)
