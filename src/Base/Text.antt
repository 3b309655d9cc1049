-- ===== src/Base/Text.antt =====
-- Go text that is only compared and trimmed: `strings.TrimSpace` over code points.
use Prim.Native.Nat.{ℕ}
use Prim.Native.Char.{Char, code}
use Prim.Native.String.{String, [], ◌∷◌, ◌++◌}
use Prim.Native.String.append.{cons}
use mathlib.Core.Path.{◌≡◌, refl}
use mathlib.Core.Logic.{◌↔◌, inl, inr}
use mathlib.Core.Bool.{Bool, true, false, not, ◌&&◌, ◌||◌}
use mathlib.Core.Option.{Option, none, some}
use text.Mathlib.Text.{◌==◌ as str_eq}
use text.Mathlib.TextEquality.{eq_iff}
use vk_turn_proxy_go.Base.Tests.{leb, ◌==◌, if◌then◌else◌, Bool-cases}

-- `unicode.IsSpace`.
unfoldable pub is_space : ℕ → Bool
is_space c =
    (leb 9 c && leb c 13)
    || c == 32
    || c == 0x85
    || c == 0xa0
    || c == 0x1680
    || (leb 0x2000 c && leb c 0x200a)
    || c == 0x2028
    || c == 0x2029
    || c == 0x202f
    || c == 0x205f
    || c == 0x3000

abbrev pub is_empty : String → Bool
is_empty [] = true
is_empty (c ∷ s) = false

pub trim_left : String → String
trim_left [] = []
trim_left (c ∷ s) = let rest = trim_left s in if is_space (code c) then rest else c ∷ s

pub trim_right : String → String
trim_right [] = []
trim_right (c ∷ s) =
    let rest = trim_right s in if is_space (code c) && is_empty rest then [] else c ∷ rest

unfoldable pub trim_space : String → String
unfolding trim_left trim_right is_space
trim_space s = trim_right (trim_left s)

-- `strings.TrimSpace(s) == ""`.
unfoldable pub is_blank : String → Bool
unfolding trim_space
is_blank s = str_eq (trim_space s) ""

-- Text that is more than spaces.
abbrev pub HasText : String → Type 0
HasText s = is_blank s ≡ false

pub is_empty_iff : (s : String) → (is_empty s ≡ true) ↔ (s ≡ "")
is_empty_iff [] = (λ h. refl, λ h. refl)
is_empty_iff (c ∷ s) = (λ h. cc, λ h. cc)

HasText-cons : (c : Char) (s : String) → is_space (code c) ≡ false → HasText (c ∷ s)
unfolding is_blank trim_left trim_right
HasText-cons c s h =
    rw (h, h)
      (elim (Bool-cases (str_eq (c ∷ trim_right s) "")) [
        | inl e ↦ let q = (eq_iff (c ∷ trim_right s) "").0 e in cc
        | inr e ↦ e
      ])

-- Text that begins with something else than a space.
abbrev pub begins_plain : String → Bool
begins_plain [] = false
begins_plain (c ∷ s) = not (is_space (code c))

pub HasText-append : (s t : String) → begins_plain s ≡ true → HasText (s ++ t)
HasText-append [] t h = cc
HasText-append (c ∷ s) t h = rw (cons c s t) (
    HasText-cons c (s ++ t)
      (elim (Bool-cases (is_space (code c))) [ inl e ↦ let q = rw e at h in cc | inr e ↦ e ]))

-- `strings.CutPrefix`, with the prefix first.
unfoldable pub cut_prefix : String → String → Option String
cut_prefix [] s = some s
cut_prefix (c ∷ p) [] = none
cut_prefix (c ∷ p) (d ∷ s) = let rest = cut_prefix p s in if code c == code d then rest else none
