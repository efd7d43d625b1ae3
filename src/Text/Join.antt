-- ===== src/Text/Join.antt =====
-- `strings.Split` undoes `strings.Join`.
use vfkit.Base.{ℕ, List, [], ◌∷◌, ◌++◌, ◌≡◌, refl, ◌∙◌, All, append_assoc, append-nil}
use vfkit.Text.{Text, split, join}
use vfkit.Text.Split.{Lacks, split-Lacks, split-append}

pub split-join :
    (sep : ℕ) (p : Text) (ps : List Text)
    → All (Lacks sep) (p ∷ ps)
    → split sep (join (sep ∷ []) (p ∷ ps)) ≡ p ∷ ps
unfolding join
split-join sep p [] (h, _) = split-Lacks sep p h
split-join sep p (q ∷ ps) (h, t) =
    split-append sep p (join (sep ∷ []) (q ∷ ps)) h ∙ rw (split-join sep q ps t)

-- One more part is written behind the others.
pub join-concat :
    (sep p : Text) (ps : List Text) (q : Text)
    → join sep ((p ∷ ps) ++ q ∷ []) ≡ join sep (p ∷ ps) ++ (sep ++ q)
unfolding join
join-concat sep p [] q = refl
join-concat sep p (r ∷ ps) q = rw (join-concat sep r ps q, append_assoc, append_assoc)

-- Each part behind a separator.
unfoldable pub behind : Text → List Text → Text
behind sep [] = []
behind sep (p ∷ ps) = sep ++ (p ++ behind sep ps)

pub join-behind : (sep p : Text) (ps : List Text) → join sep (p ∷ ps) ≡ p ++ behind sep ps
unfolding join behind
join-behind sep p [] = rw append-nil
join-behind sep p (q ∷ ps) = rw (join-behind sep q ps)

pub behind-append :
    (sep : Text) (ps qs : List Text) → behind sep (ps ++ qs) ≡ behind sep ps ++ behind sep qs
unfolding behind
behind-append sep [] qs = refl
behind-append sep (p ∷ ps) qs = simp (behind-append sep ps qs, append_assoc)
