-- ===== src/Base/Label.antt =====
-- The regular expressions that the value objects use (internal/modules/catalog/domain/values.go and
-- internal/modules/tenant/domain/values.go): the pattern as data, what it means to match it from
-- end to end, and the program that runs it.
use Prim.Native.Char.{Char, code}
use text.Mathlib.TextLemmas.{nil-append, cons-append, cons≢nil}
use Prim.Native.String.{◌++◌}
use forge_platform.Base.{
  ℕ, String, ◌≡◌, refl, sym, ap, ◌∙◌, ◌↔◌, ◌⊎◌, inl, inr, Bool, true, false, ◌&&◌, ◌||◌, arith, leb,
  ◌==◌,
}

-- [a-z0-9]
unfoldable pub is_alnum : ℕ → Bool
is_alnum c = (leb b'a' c && leb c b'z') || (leb b'0' c && leb c b'9')

-- [-a-z0-9]
unfoldable pub is_dash_alnum : ℕ → Bool
unfolding is_alnum
is_dash_alnum c = c == b'-' || is_alnum c

-- A pattern: a class of characters, a sequence, `p*` and `p?`.
pub data Pattern : Type 0 where
  class : (ℕ → Bool) → Pattern
  seq : Pattern → Pattern → Pattern
  star : Pattern → Pattern
  maybe : Pattern → Pattern

-- What a pattern matches, from the first character to the last.
pub data Matches : Pattern → String → Type 0 where
  one :
      {p : ℕ → Bool} {c : Char} {s : String}
      → p (code c) ≡ true
      → s ≡ String.◌∷◌ c String.[]
      → Matches (class p) s
  both :
      {p q : Pattern} {a b s : String}
      → Matches p a
      → Matches q b
      → s ≡ a ++ b
      → Matches (seq p q) s
  star_end : {p : Pattern} {s : String} → s ≡ String.[] → Matches (star p) s
  star_more :
      {p : Pattern} {a b s : String}
      → Matches p a
      → Matches (star p) b
      → s ≡ a ++ b
      → Matches (star p) s
  skip : {p : Pattern} {s : String} → s ≡ String.[] → Matches (maybe p) s
  present : {p : Pattern} {s : String} → Matches p s → Matches (maybe p) s

-- ^[a-z0-9]([-a-z0-9]*[a-z0-9])?$
unfoldable pub dns1123_label : Pattern
dns1123_label = seq (class is_alnum) (maybe (seq (star (class is_dash_alnum)) (class is_alnum)))

-- [-a-z0-9]*[a-z0-9], read from left to right.
label_rest : String → Bool
label_rest String.[] = false
label_rest (String.◌∷◌ c String.[]) = is_alnum (code c)
label_rest (String.◌∷◌ c (String.◌∷◌ d s)) = is_dash_alnum (code c) && label_rest (String.◌∷◌ d s)

-- dns1123Label.MatchString and slugPattern.MatchString
unfoldable pub matches_label : String → Bool
unfolding label_rest
matches_label String.[] = false
matches_label (String.◌∷◌ c String.[]) = is_alnum (code c)
matches_label (String.◌∷◌ c (String.◌∷◌ d s)) = is_alnum (code c) && label_rest (String.◌∷◌ d s)

abbrev char_text : Char → String
char_text c = String.◌∷◌ c String.[]

label_rest-cons :
    (c : Char) (s : String)
    → is_dash_alnum (code c) ≡ true
    → label_rest s ≡ true
    → label_rest (String.◌∷◌ c s) ≡ true
unfolding label_rest
label_rest-cons c String.[] hc hs = cc
label_rest-cons c (String.◌∷◌ d s) hc hs = rw hc hs

-- A character of the class in front of a text, as the texts are put together in `Matches`.
push : (c : Char) (a b : String) → String.◌∷◌ c (a ++ b) ≡ (char_text c ++ a) ++ b
push c a b = sym (
    ap (λ t. t ++ b) (cons-append c String.[] a ∙ ap (λ t. String.◌∷◌ c t) (nil-append a))
    ∙ cons-append c a b)

label_rest_complete :
    {a b s : String}
    → Matches (star (class is_dash_alnum)) a
    → Matches (class is_alnum) b
    → s ≡ a ++ b
    → label_rest s ≡ true
unfolding label_rest
label_rest_complete {b = b} (star_end ea) (one h eb) es = rw (es, ea, nil-append b, eb) h
label_rest_complete {b = b} (star_more {b = t} (one {c = c} h ec) m ea) n es =
    rw (es, ea, ec, ← push c t b) (label_rest-cons c (t ++ b) h (label_rest_complete m n refl))

abbrev rest_pattern : Pattern
rest_pattern = seq (star (class is_dash_alnum)) (class is_alnum)

label_rest_sound : (s : String) → label_rest s ≡ true → Matches rest_pattern s
unfolding label_rest
label_rest_sound String.[] h = cc
label_rest_sound (String.◌∷◌ c String.[]) h = both (star_end refl) (one h refl) (sym (nil-append _))
label_rest_sound (String.◌∷◌ c (String.◌∷◌ d s)) h =
    let parts = and-true (is_dash_alnum (code c)) (label_rest (String.◌∷◌ d s)) h in
    extend c parts.0 (label_rest_sound (String.◌∷◌ d s) parts.1)
  where
    and-true : (x y : Bool) → (x && y) ≡ true → (x ≡ true) × (y ≡ true)
    and-true x y e = ground arith

    extend :
        (c : Char) {t : String}
        → is_dash_alnum (code c) ≡ true
        → Matches rest_pattern t
        → Matches rest_pattern (String.◌∷◌ c t)
    extend c hc (both {a = a} {b = b} m n e) =
        both (star_more (one hc refl) m refl) n (ap (λ t. String.◌∷◌ c t) e ∙ push c a b)

matches_label_sound : (s : String) → matches_label s ≡ true → Matches dns1123_label s
unfolding matches_label dns1123_label
matches_label_sound String.[] h = cc
matches_label_sound (String.◌∷◌ c String.[]) h =
    both {a = char_text c} {b = String.[]} (one h refl) (skip refl)
      (ap (String.◌∷◌ c) (sym (nil-append _)) ∙ sym (cons-append c String.[] String.[]))
matches_label_sound (String.◌∷◌ c (String.◌∷◌ d s)) h =
    both {a = char_text c} {b = String.◌∷◌ d s} (one (ground arith) refl)
      (present (label_rest_sound (String.◌∷◌ d s) (ground arith)))
      (ap (String.◌∷◌ c) (sym (nil-append _)) ∙ sym (cons-append c String.[] _))

first_rest :
    (c : Char) (s : String)
    → is_alnum (code c) ≡ true
    → (s ≡ String.[]) ⊎ (label_rest s ≡ true)
    → matches_label (String.◌∷◌ c s) ≡ true
unfolding matches_label
first_rest c String.[] h r = h
first_rest c (String.◌∷◌ d s) h (inl e) = absurd (cons≢nil e)
first_rest c (String.◌∷◌ d s) h (inr r) = rw h r

maybe_inv : {s : String} → Matches (maybe rest_pattern) s → (s ≡ String.[]) ⊎ (label_rest s ≡ true)
maybe_inv (skip e) = inl e
maybe_inv (present (both m n e)) = inr (label_rest_complete m n e)

matches_label_complete : {s : String} → Matches dns1123_label s → matches_label s ≡ true
unfolding dns1123_label
matches_label_complete (both {b = b} (one {c = c} h ea) m es) =
    rw (es, ea, cons-append c String.[] b, nil-append b) (first_rest c b h (maybe_inv m))

-- The matcher answers true on exactly the texts that the pattern matches from end to end.
pub matches_label_iff : (s : String) → (matches_label s ≡ true) ↔ Matches dns1123_label s
matches_label_iff s = (matches_label_sound s, matches_label_complete)
