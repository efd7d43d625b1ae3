-- ===== src/Json/ReadBack.antt =====
-- `Unmarshal` of the members that `Marshal` writes.
use vfkit.Base.{
  ℕ, ◌<◌, ◌^◌, String, Bool, true, false, List, [], ◌∷◌, ◌++◌, ◌≡◌, refl, subst, append-nil, ap,
  ◌∙◌, some, none, ok, All, arith,
}
use vfkit.Base.Int.{ℤ}
use vfkit.Text.{Text}
use vfkit.Decimal.{format, format_int}
use vfkit.Decimal.RoundTrip.{parse_digits-format}
use vfkit.Decimal.Signed.{IsInt, parse_signed-format_int}
use vfkit.Json.{boolean, number, string, object, Member, to_fields, members-to_fields}
use vfkit.Text.Utf8.{IsUtf8}
use vfkit.Json.Members.{member, text, unless, text_unless_empty, flag_if_set}
use vfkit.Json.Struct.{
  Field, find_field, store_member, store_members, unmarshal, read_uint, read_int, type_error,
}

-- A number that fits an `int` of 64 bits
abbrev pub IsInt64 : ℤ → Type 0
IsInt64 = IsInt 64

pub read_uint-format : (bits n : ℕ) → n < 2 ^ bits → read_uint bits (number (format n)) ≡ some n
read_uint-format bits n h = rw (parse_digits-format "ParseUint" (format n) bits n h)

pub read_int-format_int : (z : ℤ) → IsInt64 z → read_int 64 (number (format_int z)) ≡ some z
read_int-format_int z h = rw (parse_signed-format_int "ParseInt" 64 z (omega arith) h)

module _ {S : Type 0} (fs : List (Field S)) where
  -- A member that is always written
  pub read-member :
      (m : Member) (ms : List Member) (s t : S)
      → store_member fs m s ≡ some t
      → store_members fs (m ∷ ms) s none ≡ store_members fs ms t none
  unfolding store_members store_member
  read-member m ms s t e =
      ap
        (λ r. elim r [
          | some u ↦ store_members fs ms u none
          | none ↦ store_members fs ms s (some (type_error m.1))
        ])
        e

  pub read-text :
      (name : String) (ms : List Member) (s : S) (f : Text → S) (v : Text)
      → IsUtf8 v
      → ((w : Text) → store_member fs (member name (string w)) s ≡ some (f w))
      → store_members fs (member name (text v) ∷ ms) s none ≡ store_members fs ms (f v) none
  read-text name ms s f v u e = rw u (read-member (member name (string v)) ms s (f v) (e v))

  -- A text that is left out if it is empty
  pub read-text_unless_empty :
      (name : String) (ms : List Member) (f : Text → S) (v : Text)
      → IsUtf8 v
      → ((w : Text) → store_member fs (member name (string w)) (f []) ≡ some (f w))
      → store_members fs (text_unless_empty name v ++ ms) (f []) none
        ≡ store_members fs ms (f v) none
  unfolding unless
  read-text_unless_empty name ms f [] u e = refl
  read-text_unless_empty name ms f (c ∷ v) u e =
      rw u (read-member (member name (string (c ∷ v))) ms (f []) (f (c ∷ v)) (e (c ∷ v)))

  -- A flag that is left out if it is off
  pub read-flag_if_set :
      (name : String) (ms : List Member) (f : Bool → S) (v : Bool)
      → store_member fs (member name (boolean true)) (f false) ≡ some (f true)
      → store_members fs (flag_if_set name v ++ ms) (f false) none ≡ store_members fs ms (f v) none
  unfolding unless
  read-flag_if_set name ms f false e = refl
  read-flag_if_set name ms f true e =
      read-member (member name (boolean true)) ms (f false) (f true) e

  pub read-last :
      (ms : List Member) (s t : S)
      → store_members fs (ms ++ []) s none ≡ store_members fs [] t none
      → store_members fs ms s none ≡ ok t
  unfolding store_members
  read-last ms s t e = subst (λ l. store_members fs l s none ≡ ok t) (append-nil ms) e

  pub unmarshal-object :
      (ms : List Member) (s : S)
      → unmarshal fs (object (to_fields ms)) s ≡ store_members fs ms s none
  unfolding unmarshal
  unmarshal-object ms s = ap (λ l. store_members fs l s none) (members-to_fields ms)

  -- No member is one for a field.
  abbrev pub IsForeign : List Member → Type 0
  IsForeign ms = All (λ m. find_field fs m.0 ≡ none) ms

  skip-member : (m : Member) (s : S) → find_field fs m.0 ≡ none → store_member fs m s ≡ some s
  unfolding store_member
  skip-member m s e = ap (λ r. elim r [ some f ↦ f.store m.1 s | none ↦ some s ]) e

  pub read-IsForeign : (ms : List Member) (s : S) → IsForeign ms → store_members fs ms s none ≡ ok s
  unfolding store_members
  read-IsForeign [] s h = refl
  read-IsForeign (m ∷ ms) s (h, t) =
      read-member m ms s s (skip-member m s h) ∙ read-IsForeign ms s t

  pub unless-IsForeign :
      (b : Bool) (m : Member) (ms : List Member)
      → find_field fs m.0 ≡ none
      → IsForeign ms
      → IsForeign (unless b m ++ ms)
  unfolding unless
  unless-IsForeign true m ms h t = t
  unless-IsForeign false m ms h t = (h, t)

  pub last-IsForeign : (b : Bool) (m : Member) → find_field fs m.0 ≡ none → IsForeign (unless b m)
  unfolding unless
  last-IsForeign true m h = tt
  last-IsForeign false m h = (h, tt)
