-- ===== src/Tests/Codecs.antt =====
-- A codec of cursors for the examples: every text is written with a mark before each character and a
-- mark at its end; instants and identifiers as strokes; texts in the order of their code points.
use Prim.Native.Char.{Char, code}
use Prim.Native.String.{len}
use text.Mathlib.TextEquality.{Char-path}
use text.Mathlib.TextLemmas.{cons≢nil}
use forge_platform.Base.{
  arith, String, ◌≡◌, refl, ap, Bool, true, false, ◌||◌, ◌&&◌, Option, some, none, if◌then◌else◌,
  ◌==◌, ltb, str_eq, eq_iff, Bool-cases, inl, inr,
}
use forge_platform.Catalog.Listing.{Cursor, Codec, IsCodec}
use forge_platform.Tests.{calm, strokes, len-strokes}

-- A text, marked, with what stands after it.
abbrev put : String → String → String
put String.[] s = s
put (String.◌∷◌ m t) s = String.◌∷◌ m s

abbrev field : String → String → String
field String.[] rest = put "." rest
field (String.◌∷◌ c s) rest = put "x" (String.◌∷◌ c (field s rest))

abbrev is_end : Char → Bool
is_end m = code m == 46

abbrev prefixed : Char → Option (String × String) → Option (String × String)
prefixed c none = none
prefixed c (some (s, rest)) = some (String.◌∷◌ c s, rest)

abbrev read_field : String → Option (String × String)
read_field String.[] = none
read_field (String.◌∷◌ m String.[]) = if is_end m then some ("", "") else none
read_field (String.◌∷◌ m (String.◌∷◌ c t)) =
    let rest = prefixed c (read_field t) in if is_end m then some ("", String.◌∷◌ c t) else rest

read-field : (s rest : String) → read_field (field s rest) ≡ some (s, rest)
read-field String.[] String.[] = refl
read-field String.[] (String.◌∷◌ c t) = refl
read-field (String.◌∷◌ c s) rest = ap (prefixed c) (read-field s rest)

abbrev collate : String → String → Bool
collate String.[] String.[] = false
collate String.[] (String.◌∷◌ d t) = true
collate (String.◌∷◌ c s) String.[] = false
collate (String.◌∷◌ c s) (String.◌∷◌ d t) =
    let rest = collate s t in ltb (code c) (code d) || (code c == code d && rest)

collate_irrefl : (s : String) → collate s s ≡ false
collate_irrefl String.[] = refl
collate_irrefl (String.◌∷◌ c s) = ground (arith, collate_irrefl s)

collate_trans : (s t u : String) → collate s t ≡ true → collate t u ≡ true → collate s u ≡ true
collate_trans String.[] String.[] u h g = cc
collate_trans String.[] (String.◌∷◌ d t) String.[] h g = cc
collate_trans String.[] (String.◌∷◌ d t) (String.◌∷◌ e u) h g = refl
collate_trans (String.◌∷◌ c s) String.[] u h g = cc
collate_trans (String.◌∷◌ c s) (String.◌∷◌ d t) String.[] h g = cc
collate_trans (String.◌∷◌ c s) (String.◌∷◌ d t) (String.◌∷◌ e u) h g =
    ground (arith, collate_trans s t u)

collate_apart : (s t : String) → str_eq s t ≡ false → (collate s t || collate t s) ≡ true
collate_apart String.[] String.[] h = cc
collate_apart String.[] (String.◌∷◌ d t) h = refl
collate_apart (String.◌∷◌ c s) String.[] h = refl
collate_apart (String.◌∷◌ c s) (String.◌∷◌ d t) h =
    ground (
      arith,
      collate_apart s t,
      eq_iff s t,
      eq_iff (String.◌∷◌ c s) (String.◌∷◌ d t),
      Char-path c d,
    )

abbrev next_field {ℓ} :
    {A : Type ℓ} → Option (String × String) → (String → String → Option A) → Option A
next_field none f = none
next_field (some (s, rest)) f = f s rest

abbrev cursor_read : String → Option Cursor
cursor_read t = next_field (read_field t) λ sort t1. next_field (read_field t1) λ order t2.
    next_field (read_field t2) λ value t3.
      next_field (read_field t3)
        λ id t4. some (record { sort = sort; order = order; value = value; id = id })

abbrev cursor_text : Cursor → String
cursor_text c = field c.sort (field c.order (field c.value (field c.id "")))

cursor_read-cursor_text : (c : Cursor) → cursor_read (cursor_text c) ≡ some c
cursor_read-cursor_text c =
    rw
      (
        read-field c.sort (field c.order (field c.value (field c.id ""))),
        read-field c.order (field c.value (field c.id "")),
        read-field c.value (field c.id ""),
        read-field c.id "",
      )
      refl

field_some : (s rest : String) → str_eq (field s rest) "" ≡ false
field_some String.[] rest = elim (Bool-cases (str_eq (field "" rest) "")) [
  | inl e ↦ absurd (cons≢nil ((eq_iff (field "" rest) "").0 e))
  | inr e ↦ e
]
field_some (String.◌∷◌ c s) rest = elim (Bool-cases (str_eq (field (String.◌∷◌ c s) rest) "")) [
  | inl e ↦ absurd (cons≢nil ((eq_iff (field (String.◌∷◌ c s) rest) "").0 e))
  | inr e ↦ e
]

abbrev pub marks : Codec
marks = record {
  cursor_text = cursor_text;
  cursor_read = cursor_read;
  time_text = strokes;
  time_read = λ s. some (len s);
  uuid_read = λ s. some (len s);
  collate = collate;
}

pub marks-IsCodec : IsCodec calm marks
marks-IsCodec = record {
  cursor_back = cursor_read-cursor_text;
  cursor_some = λ c. field_some c.sort (field c.order (field c.value (field c.id "")));
  time_back = λ t. ap some (len-strokes t);
  uuid_back = λ u. ap some (len-strokes u);
  collate_strict = record { irrefl = collate_irrefl; trans = collate_trans };
  collate_apart = collate_apart;
}
