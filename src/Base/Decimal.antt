-- ===== src/Base/Decimal.antt =====
-- Go's strconv in base ten on int64 bit patterns (Base/Words.antt): FormatInt, and ParseInt and Atoi, which
-- read an optional sign and digits and refuse what an int64 cannot hold.
use Prim.Native.Char.{Char, code, nul}
use Prim.Native.Nat.{ℕ, zero, suc, ◌+◌, ◌-◌, ◌*◌, ◌/◌, ◌%◌, ◌<◌}
use Prim.Native.String.{String}
use mathlib.Core.Path.{◌≡◌, refl, ap, ◌∙◌}
use mathlib.Core.Bool.{Bool, true, false, ◌&&◌, ◌||◌}
use mathlib.Core.Option.{Option, none, some}
use mathlib.Core.Logic.{inl, inr}
use native.Mathlib.Omega.{arith}
use forge_platform.Base.Tests.{leb, ltb, ◌==◌, if◌then◌else◌, Bool-cases}
use forge_platform.Base.Words.{mod64, half64}

abbrev pub nth_char : String → ℕ → Char
nth_char String.[] n = nul
nth_char (String.◌∷◌ c s) zero = c
nth_char (String.◌∷◌ c s) (suc n) = nth_char s n

abbrev pub digit : ℕ → Char
digit d = nth_char "0123456789" d

abbrev pub is_digit : ℕ → Bool
is_digit c = leb b'0' c && leb c b'9'

-- The digits of `n`, at most `k` of them, before `out`.
unfoldable pub emit : ℕ → ℕ → String → String
emit zero n out = out
emit (suc k) n out =
    let next = String.◌∷◌ (digit (n % 10)) out in
    let more = emit k (n / 10) next in if ltb n 10 then next else more

-- FormatInt; an int64 has at most 19 digits.
unfoldable pub format_int : ℕ → String
unfolding emit
format_int v =
    if ltb v half64 then emit 20 v "" else String.◌∷◌ (nth_char "-" 0) (emit 20 (mod64 - v) "")

unfoldable pub scan : String → ℕ → Option ℕ
scan String.[] n = some n
scan (String.◌∷◌ c s) n =
    let rest = scan s (n * 10 + (code c - b'0')) in if is_digit (code c) then rest else none

magnitude : String → Option ℕ
unfolding scan
magnitude String.[] = none
magnitude (String.◌∷◌ c s) = scan (String.◌∷◌ c s) 0

nonnegative : Option ℕ → Option ℕ
nonnegative none = none
nonnegative (some u) = if ltb u half64 then some u else none

negated : Option ℕ → Option ℕ
negated none = none
negated (some u) = if leb u half64 then some ((mod64 - u) % mod64) else none

-- ParseInt(s, 10, 64) and Atoi; none where they return an error.
unfoldable pub parse_int : String → Option ℕ
unfolding magnitude nonnegative negated
parse_int String.[] = none
parse_int (String.◌∷◌ c s) =
    if code c == b'-'
    then negated (magnitude s)
    else if code c == b'+'
    then nonnegative (magnitude s)
    else nonnegative (magnitude (String.◌∷◌ c s))

code-digit : (d : ℕ) → d < 10 → code (digit d) ≡ b'0' + d
code-digit zero h = refl
code-digit (suc zero) h = refl
code-digit (suc (suc zero)) h = refl
code-digit (suc (suc (suc zero))) h = refl
code-digit (suc (suc (suc (suc zero)))) h = refl
code-digit (suc (suc (suc (suc (suc zero))))) h = refl
code-digit (suc (suc (suc (suc (suc (suc zero)))))) h = refl
code-digit (suc (suc (suc (suc (suc (suc (suc zero))))))) h = refl
code-digit (suc (suc (suc (suc (suc (suc (suc (suc zero)))))))) h = refl
code-digit (suc (suc (suc (suc (suc (suc (suc (suc (suc zero))))))))) h = refl
code-digit (suc (suc (suc (suc (suc (suc (suc (suc (suc (suc d)))))))))) h = absurd (omega arith)

abbrev pow10 : ℕ → ℕ
pow10 zero = 1
pow10 (suc k) = 10 * pow10 k

scan-digit :
    (d n : ℕ) (out : String) → d < 10 → scan (String.◌∷◌ (digit d) out) n ≡ scan out (n * 10 + d)
unfolding scan
scan-digit d n out h = ground (arith, code-digit d)

scan-emit : (k n : ℕ) (out : String) → n < pow10 k → scan (emit k n out) 0 ≡ scan out n
unfolding emit
scan-emit zero n out h = ap (scan out) (omega arith)
scan-emit (suc k) n out h = elim (Bool-cases (ltb n 10)) [
  | inl e ↦ rw e (scan-digit (n % 10) 0 out (omega arith) ∙ ap (scan out) (ground arith))
  | inr e ↦ rw e (
      scan-emit k (n / 10) (String.◌∷◌ (digit (n % 10)) out) (omega arith)
      ∙ scan-digit (n % 10) (n / 10) out (omega arith)
      ∙ ap (scan out) (omega arith))
]

abbrev begins_with_digit : String → Bool
begins_with_digit String.[] = false
begins_with_digit (String.◌∷◌ c s) = is_digit (code c)

emit-begins_with_digit :
    (k n : ℕ) (out : String)
    → begins_with_digit out ≡ true
    → begins_with_digit (emit k n out) ≡ true
unfolding emit
emit-begins_with_digit zero n out h = h
emit-begins_with_digit (suc k) n out h =
    let first : begins_with_digit (String.◌∷◌ (digit (n % 10)) out) ≡ true =
      ground (arith, code-digit (n % 10)) in
    elim (Bool-cases (ltb n 10)) [
      | inl e ↦ rw e first
      | inr e ↦ rw e (emit-begins_with_digit k (n / 10) (String.◌∷◌ (digit (n % 10)) out) first)
    ]

printed_begins_with_digit : (k n : ℕ) → begins_with_digit (emit (suc k) n "") ≡ true
unfolding emit
printed_begins_with_digit k n =
    let first : begins_with_digit (String.◌∷◌ (digit (n % 10)) "") ≡ true =
      ground (arith, code-digit (n % 10)) in
    elim (Bool-cases (ltb n 10)) [
      | inl e ↦ rw e first
      | inr e ↦ rw e (emit-begins_with_digit k (n / 10) (String.◌∷◌ (digit (n % 10)) "") first)
    ]

magnitude-scan : (s : String) → begins_with_digit s ≡ true → magnitude s ≡ scan s 0
unfolding magnitude
magnitude-scan String.[] h = cc
magnitude-scan (String.◌∷◌ c s) h = refl

unsigned : (s : String) → begins_with_digit s ≡ true → parse_int s ≡ nonnegative (magnitude s)
unfolding parse_int
unsigned String.[] h = cc
unsigned (String.◌∷◌ c s) h = ground arith

-- What is printed reads back.
magnitude-emit : (n : ℕ) → n < pow10 20 → magnitude (emit 20 n "") ≡ some n
unfolding scan
magnitude-emit n h =
    magnitude-scan (emit 20 n "") (printed_begins_with_digit 19 n) ∙ scan-emit 20 n "" h

pub parse_int-format_int : (v : ℕ) → v < mod64 → parse_int (format_int v) ≡ some v
unfolding parse_int format_int nonnegative negated
parse_int-format_int v h = elim (Bool-cases (ltb v half64)) [
  | inl e ↦ rw e (
      unsigned (emit 20 v "") (printed_begins_with_digit 19 v)
      ∙ ap nonnegative (magnitude-emit v (omega arith))
      ∙ rw e refl)
  | inr e ↦ rw e (ap negated (magnitude-emit (mod64 - v) (omega arith)) ∙ ground arith)
]

-- A printed number has digits and a minus sign only.
abbrev pub numeric : ℕ → Bool
numeric c = is_digit c || c == b'-'

abbrev pub all_numeric : String → Bool
all_numeric String.[] = true
all_numeric (String.◌∷◌ c s) = numeric (code c) && all_numeric s

emit-all_numeric :
    (k n : ℕ) (out : String) → all_numeric out ≡ true → all_numeric (emit k n out) ≡ true
unfolding emit
emit-all_numeric zero n out h = h
emit-all_numeric (suc k) n out h =
    let next : all_numeric (String.◌∷◌ (digit (n % 10)) out) ≡ true =
      ground (arith, code-digit (n % 10)) in
    elim (Bool-cases (ltb n 10)) [
      | inl e ↦ rw e next
      | inr e ↦ rw e (emit-all_numeric k (n / 10) (String.◌∷◌ (digit (n % 10)) out) next)
    ]

pub format_int-all_numeric : (v : ℕ) → all_numeric (format_int v) ≡ true
unfolding format_int
format_int-all_numeric v = elim (Bool-cases (ltb v half64)) [
  | inl e ↦ rw e (emit-all_numeric 20 v "" refl)
  | inr e ↦ rw e (emit-all_numeric 20 (mod64 - v) "" refl)
]

nonnegative_lt : (o : Option ℕ) {v : ℕ} → nonnegative o ≡ some v → v < mod64
unfolding nonnegative
nonnegative_lt none h = cc
nonnegative_lt (some u) h = ground arith

negated_lt : (o : Option ℕ) {v : ℕ} → negated o ≡ some v → v < mod64
unfolding negated
negated_lt none h = cc
negated_lt (some u) {v} h = elim (Bool-cases (leb u half64)) [
  | inl e ↦ let same : (mod64 - u) % mod64 ≡ v = cc in omega (arith, same)
  | inr e ↦ cc
]

-- What is read is an int64.
pub parse_int_lt : (s : String) {v : ℕ} → parse_int s ≡ some v → v < mod64
unfolding parse_int
parse_int_lt String.[] h = cc
parse_int_lt (String.◌∷◌ c s) h = elim (Bool-cases (code c == b'-')) [
  | inl e ↦ negated_lt (magnitude s) (rw e at h)
  | inr e ↦ elim (Bool-cases (code c == b'+')) [
    | inl f ↦ nonnegative_lt (magnitude s) (rw (e, f) at h)
    | inr f ↦ nonnegative_lt (magnitude (String.◌∷◌ c s)) (rw (e, f) at h)
  ]
]
