-- ===== src/Cmdline/Fields.antt =====
-- `parseString` against a description of the texts that it accepts.
use vfkit.Base.{
  ℕ, ◌+◌, ◌%◌, Bool, true, false, not, List, [], ◌∷◌, ◌++◌, ◌≡◌, ◌≢◌, ◌⊎◌, inl, inr, refl, ◌∙◌,
  ◌==◌, arith, append_assoc, append-nil, errorf, ok, err, Result, All, if◌then◌else◌, Bool-cases,
}
use vfkit.Text.{Text, comma, quote, is_empty, join, trim_quotes}
use vfkit.Text.Split.{Lacks}
use vfkit.Text.Utf8.{IsUtf8, to_valid_utf8}
use vfkit.Text.Utf8.Append.{IsUtf8-join, count, count-to_valid_utf8}
use vfkit.Text.Join.{behind, join-behind}
use vfkit.Cmdline.{StrvBuilder, write_rune, next, new_builder, finish, parse_loop, parse_string}
use mathlib.Core.List.{map, concat-ne-nil}

-- A field: a comma stands in it only between two quotes.
pub data IsField : Text → Type 0 where
  done : IsField []
  plain : {c : ℕ} {s : Text} → c ≢ comma → c ≢ quote → IsField s → IsField (c ∷ s)
  quoted :
      {t : Text} (body s : Text)
      → Lacks quote body
      → IsField s
      → t ≡ quote ∷ (body ++ quote ∷ s)
      → IsField t

parse_loop-plain :
    (c : ℕ) (s : Text) (b : StrvBuilder)
    → c ≢ comma
    → c ≢ quote
    → parse_loop false b (c ∷ s) ≡ parse_loop false (write_rune b (c ∷ [])) s
unfolding parse_loop
parse_loop-plain c s b h k = ground arith

parse_loop_open :
    (s : Text) (b : StrvBuilder)
    → parse_loop false b (quote ∷ s) ≡ parse_loop true (write_rune b (quote ∷ [])) s
unfolding parse_loop
parse_loop_open s b = refl

parse_loop-comma :
    (s : Text) (b : StrvBuilder) → parse_loop false b (comma ∷ s) ≡ parse_loop false (next b) s
unfolding parse_loop
parse_loop-comma s b = refl

parse_loop-quoted :
    (body rest : Text) (b : StrvBuilder)
    → Lacks quote body
    → parse_loop true b (body ++ quote ∷ rest)
      ≡ parse_loop false (write_rune b (body ++ quote ∷ [])) rest
unfolding parse_loop
parse_loop-quoted [] rest b _ = refl
parse_loop-quoted (c ∷ body) rest b (h, t) = ground (
  arith,
  parse_loop-quoted body rest (write_rune b (c ∷ [])) t,
  append_assoc b.str (c ∷ []) (body ++ quote ∷ []),
)

parse_loop-IsField :
    {f : Text}
    → IsField f
    → (rest : Text) (b : StrvBuilder)
    → parse_loop false b (f ++ rest) ≡ parse_loop false (write_rune b f) rest
parse_loop-IsField done rest b = rw append-nil
parse_loop-IsField (plain {c} {s} h k t) rest b =
    parse_loop-plain c (s ++ rest) b h k
    ∙ parse_loop-IsField t rest (write_rune b (c ∷ []))
    ∙ rw append_assoc
parse_loop-IsField (quoted body s h t e) rest b = rw e (
    rw (append_assoc body (quote ∷ s) rest) (parse_loop_open (body ++ quote ∷ (s ++ rest)) b)
    ∙ parse_loop-quoted body (s ++ rest) (write_rune b (quote ∷ [])) h
    ∙ parse_loop-IsField t rest _
    ∙ simp append_assoc)

finish_more :
    (str : Text) (strv : List Text)
    → strv ≢ []
    → finish (record { str = str; strv = strv }) ≡ strv ++ trim_quotes str ∷ []
unfolding finish
finish_more str [] h = absurd (h refl)
finish_more str (p ∷ strv) h = refl

parse_loop-behind-comma :
    (f : Text) (fs : List Text) (b : StrvBuilder)
    → parse_loop false b (behind (comma ∷ []) (f ∷ fs))
      ≡ parse_loop false (next b) (f ++ behind (comma ∷ []) fs)
parse_loop-behind-comma f fs b = unfold behind in parse_loop-comma (f ++ behind (comma ∷ []) fs) b

parse_loop-behind :
    (fs : List Text) (b : StrvBuilder)
    → All IsField fs
    → b.strv ≢ []
    → parse_loop false b (behind (comma ∷ []) fs) ≡ ok (b.strv ++ map trim_quotes (b.str ∷ fs))
parse_loop-behind [] b _ ne = unfold behind parse_loop in rw (finish_more b.str b.strv ne)
parse_loop-behind (f ∷ fs) b (h, t) ne =
    parse_loop-behind-comma f fs b
    ∙ parse_loop-IsField h (behind (comma ∷ []) fs) (next b)
    ∙ parse_loop-behind fs (write_rune (next b) f) t (concat-ne-nil (trim_quotes b.str) b.strv)
    ∙ rw append_assoc

is_empty-eq-false : (t : Text) → t ≢ [] → is_empty t ≡ false
is_empty-eq-false [] h = absurd (h refl)
is_empty-eq-false (_ ∷ _) h = refl

parse_loop-join :
    (f : Text) (fs : List Text)
    → All IsField (f ∷ fs)
    → (trim_quotes f ≢ []) ⊎ (fs ≢ [])
    → parse_loop false new_builder (join (comma ∷ []) (f ∷ fs)) ≡ ok (map trim_quotes (f ∷ fs))
unfolding parse_loop trim_quotes finish
parse_loop-join f [] (h, _) (inr ne) = absurd (ne refl)
parse_loop-join f [] (h, _) (inl ne) = rw (join-behind (comma ∷ []) f []) (
    parse_loop-IsField h (behind (comma ∷ []) []) new_builder
    ∙ unfold behind in rw (is_empty-eq-false (trim_quotes f) ne))
parse_loop-join f (g ∷ fs) (h, (k, t)) some_part = rw (join-behind (comma ∷ []) f (g ∷ fs)) (
    parse_loop-IsField h (behind (comma ∷ []) (g ∷ fs)) new_builder
    ∙ parse_loop-behind-comma g fs (write_rune new_builder f)
    ∙ parse_loop-IsField k (behind (comma ∷ []) fs) (next (write_rune new_builder f))
    ∙ parse_loop-behind fs (write_rune (next (write_rune new_builder f)) g) t
        (concat-ne-nil (trim_quotes f) []))

-- Fields of valid UTF-8 joined by commas are parsed into the fields, each without the quotes round
-- it. The one exception is a single empty field, which is no field at all.
pub parse_string-join :
    (f : Text) (fs : List Text)
    → All IsField (f ∷ fs)
    → All IsUtf8 (f ∷ fs)
    → (trim_quotes f ≢ []) ⊎ (fs ≢ [])
    → parse_string (join (comma ∷ []) (f ∷ fs)) ≡ ok (map trim_quotes (f ∷ fs))
unfolding parse_string
parse_string-join f fs h u some_part =
    rw (IsUtf8-join comma f fs (omega arith) u) (parse_loop-join f fs h some_part)

parity : (n : ℕ) → (n % 2 ≡ 0) ⊎ (n % 2 ≡ 1)
parity n = omega arith

abbrev pub quotes : Text → ℕ
quotes s = count quote s

-- Whether the loop ends, by the parity of the quotes still to come.
abbrev Ends : Bool → Text → Result (List Text) → Type 0
Ends within s r =
    ((quotes s + (if within then 1 else 0)) % 2 ≡ 0 → (v : List Text) × (r ≡ ok v))
    × ((quotes s + (if within then 1 else 0)) % 2 ≡ 1 → r ≡ err (errorf "mismatched \"" []))

parse_loop_inside :
    (c : ℕ) (b : StrvBuilder) (s : Text)
    → parse_loop true b (c ∷ s) ≡ parse_loop (not (c == quote)) (write_rune b (c ∷ [])) s
unfolding parse_loop
parse_loop_inside c b s = refl

parse_loop-next :
    (c : ℕ) (b : StrvBuilder) (s : Text)
    → (c == comma) ≡ true
    → parse_loop false b (c ∷ s) ≡ parse_loop false (next b) s
unfolding parse_loop
parse_loop-next c b s e = ground arith

parse_loop_write :
    (c : ℕ) (b : StrvBuilder) (s : Text)
    → (c == comma) ≡ false
    → parse_loop false b (c ∷ s) ≡ parse_loop (c == quote) (write_rune b (c ∷ [])) s
unfolding parse_loop
parse_loop_write c b s e = ground arith

parse_loop-Ends :
    (within : Bool) (b : StrvBuilder) (s : Text) → Ends within s (parse_loop within b s)
parse_loop-Ends true b [] = unfold parse_loop in (λ h. absurd (omega arith), λ h. refl)
parse_loop-Ends false b [] = unfold parse_loop in (λ h. (finish b, refl), λ h. absurd (omega arith))
parse_loop-Ends true b (c ∷ s) =
    let closed = parse_loop-Ends false (write_rune b (c ∷ [])) s in
    let still = parse_loop-Ends true (write_rune b (c ∷ [])) s in
    elim (Bool-cases (c == quote)) [
      | inl e ↦
          rw (parse_loop_inside c b s, e) (λ h. closed.0 (omega arith), λ h. closed.1 (omega arith))
      | inr e ↦
          rw (parse_loop_inside c b s, e) (λ h. still.0 (omega arith), λ h. still.1 (omega arith))
    ]
parse_loop-Ends false b (c ∷ s) =
    let other = parse_loop-Ends false (next b) s in
    let opened = parse_loop-Ends true (write_rune b (c ∷ [])) s in
    let same = parse_loop-Ends false (write_rune b (c ∷ [])) s in
    elim (Bool-cases (c == comma)) [
      | inl e ↦
          let k : (c == quote) ≡ false = ground arith in
          rw (parse_loop-next c b s e, k) (λ h. other.0 (omega arith), λ h. other.1 (omega arith))
      | inr e ↦ elim (Bool-cases (c == quote)) [
        | inl k ↦
            rw (parse_loop_write c b s e, k)
              (λ h. opened.0 (omega arith), λ h. opened.1 (omega arith))
        | inr k ↦
            rw (parse_loop_write c b s e, k) (λ h. same.0 (omega arith), λ h. same.1 (omega arith))
      ]
    ]

-- With an even number of quotes, the parser returns a list; with an odd number it fails, always with
-- the same error.
pub parse_string-quotes :
    (s : Text)
    → ((quotes s % 2 ≡ 0) × (v : List Text) × (parse_string s ≡ ok v))
      ⊎ ((quotes s % 2 ≡ 1) × (parse_string s ≡ err (errorf "mismatched \"" [])))
unfolding parse_string
parse_string-quotes s =
    let e = parse_loop-Ends false new_builder (to_valid_utf8 s) in
    let same = count-to_valid_utf8 quote s (omega arith) in
    elim (parity (quotes s)) [
      | inl h ↦ inl (h, (e.0 (omega arith)).0, (e.0 (omega arith)).1)
      | inr h ↦ inr (h, e.1 (omega arith))
    ]
