-- ===== src/Http/ETag.antt =====
-- The version of an aggregate as an ETag and back (setETag and ifMatch of internal/modules/*/api/handlers.go).
use Prim.Native.Char.{Char}
use Prim.Native.String.{◌++◌ as ◌⧺◌}
use text.Mathlib.TextLemmas.{cons-append, cons≢nil}
use forge_platform.Base.{
  ℕ, ◌<◌, String, ◌≡◌, refl, ap, ◌∙◌, true, false, arith, str_eq, eq_iff, some, ◌⊎◌, inl, inr,
  Bool-cases,
}
use forge_platform.Base.Words.{mod64}
use forge_platform.Base.Decimal.{
  nth_char, format_int, parse_int, all_numeric, format_int-all_numeric, parse_int-format_int,
}
use forge_platform.Http.{Request, strip_left, strip_right, trim_quotes, if_match, etag, version_of}

strip_right-numeric : (s : String) → all_numeric s ≡ true → strip_right s ≡ s
unfolding strip_right
strip_right-numeric String.[] h = refl
strip_right-numeric (String.◌∷◌ c s) h = ground (arith, strip_right-numeric s)

strip_left-numeric : (s : String) → all_numeric s ≡ true → strip_left s ≡ s
unfolding strip_left
strip_left-numeric String.[] h = refl
strip_left-numeric (String.◌∷◌ c s) h = ground arith

abbrev quote : Char
quote = nth_char "\"" 0

-- A text between quotes.
abbrev pub quoted : String → String
quoted s = String.◌∷◌ quote (s ⧺ String.◌∷◌ quote "")

strip_right-quote : (s : String) → all_numeric s ≡ true → strip_right (s ⧺ String.◌∷◌ quote "") ≡ s
unfolding strip_right
strip_right-quote String.[] h = refl
strip_right-quote (String.◌∷◌ c s) h =
    rw (cons-append c s (String.◌∷◌ quote "")) (ground (arith, strip_right-quote s))

strip_left-quote :
    (s : String)
    → all_numeric s ≡ true
    → str_eq s "" ≡ false
    → strip_left (s ⧺ String.◌∷◌ quote "") ≡ s ⧺ String.◌∷◌ quote ""
unfolding strip_left
strip_left-quote String.[] h g = cc
strip_left-quote (String.◌∷◌ c s) h g = rw (cons-append c s (String.◌∷◌ quote "")) (ground arith)

trim_quotes-quoted :
    (s : String) → all_numeric s ≡ true → str_eq s "" ≡ false → trim_quotes (quoted s) ≡ s
unfolding trim_quotes strip_left
trim_quotes-quoted s h g = ap strip_right (strip_left-quote s h g) ∙ strip_right-quote s h

trim_quotes-numeric : (s : String) → all_numeric s ≡ true → trim_quotes s ≡ s
unfolding trim_quotes
trim_quotes-numeric s h = ap strip_right (strip_left-numeric s h) ∙ strip_right-numeric s h

parsed_some : (s : String) (v : ℕ) → parse_int s ≡ some v → str_eq s "" ≡ false
unfolding parse_int
parsed_some String.[] v h = cc
parsed_some (String.◌∷◌ c s) v h = elim (Bool-cases (str_eq (String.◌∷◌ c s) "")) [
  | inl e ↦ absurd (cons≢nil ((eq_iff (String.◌∷◌ c s) "").0 e))
  | inr e ↦ e
]

if_match_at :
    (r : Request) (v : ℕ)
    → trim_quotes (r.header "If-Match") ≡ format_int v
    → v < mod64
    → if_match r ≡ v
unfolding if_match version_of
if_match_at r v h w =
    let read = parse_int-format_int v w in rw (h, parsed_some (format_int v) v read, read) refl

-- A client that sends the ETag of an aggregate back as If-Match, as it is or between quotes, names the
-- version that the ETag was made from, whatever int64 it is.
pub if_match-etag :
    (r : Request) (v : ℕ)
    → v < mod64
    → (r.header "If-Match" ≡ (etag v).1) ⊎ (r.header "If-Match" ≡ quoted (etag v).1)
    → if_match r ≡ v
unfolding etag
if_match-etag r v w (inl plain) =
    if_match_at r v
      (ap trim_quotes plain ∙ trim_quotes-numeric (format_int v) (format_int-all_numeric v)) w
if_match-etag r v w (inr between) =
    let some_digits = parsed_some (format_int v) v (parse_int-format_int v w) in
    if_match_at r v
      (ap trim_quotes between
        ∙ trim_quotes-quoted (format_int v) (format_int-all_numeric v) some_digits)
      w
