-- ===== src/Glossary.antt =====
-- close/src/glossary.rs: what `close explain` answers.
pub mod Terms
pub mod Words
pub mod First
use close_common.Common.{
  ℕ, ◌-◌, List, [], ◌∷◌, ◌++◌, Option, none, some, Bool, true, false, ◌&&◌, ◌||◌, eqb,
  if◌then◌else◌, length, replicate,
}
use close_common.Common.Bytes.{Text, codes, to_ascii_lowercase, ◌==◌}
use close_common.Glossary.Terms.{Term, glossary}

unfoldable pub starts_with : Text → Text → Bool
starts_with s [] = true
starts_with [] (b ∷ w) = false
starts_with (a ∷ s) (b ∷ w) = eqb a b && starts_with s w

-- `str::contains`
unfoldable pub contains : Text → Text → Bool
unfolding starts_with
contains [] w = starts_with [] w
contains (a ∷ s) w = starts_with (a ∷ s) w || contains s w

-- The test of the search, for a word in lower case
unfoldable pub is_named : Text → Term → Bool
unfolding contains to_ascii_lowercase
is_named w t = contains t.plain w || contains (to_ascii_lowercase t.wizard) w

unfoldable pub first_named : Text → List Term → Option Term
unfolding is_named
first_named w [] = none
first_named w (t ∷ terms) = if is_named w t then some t else first_named w terms

-- `{:<18}`
abbrev padded_right : Text → Text
padded_right s = s ++ replicate (18 - length s) b' '

abbrev list_line : Term → Text
list_line t =
    codes "  " ++ (padded_right t.plain ++ (codes " — also called: " ++ (t.wizard ++ codes "\n")))

abbrev listing : List Term → Text
listing [] = []
listing (t ∷ terms) = list_line t ++ listing terms

abbrev pub entry : Term → Text
entry t =
    t.plain
    ++ (codes "  (wizards say: "
        ++ (t.wizard
            ++ (codes ")\n\n  "
                ++ (t.kitchen_table
                    ++ (codes "\n\n  fine print: " ++ (t.fine_print ++ codes "\n"))))))

abbrev pub not_there : Text → Text
not_there word =
    codes "nothing called '" ++ (word ++ codes "' here — try `close explain` for the list\n")

abbrev pub answer : Text → Option Term → Text
answer word none = not_there word
answer word (some t) = entry t

unfoldable pub explain : Option Text → Text
unfolding first_named to_ascii_lowercase
explain none =
    codes
      "Every idea here has two names: one for the kitchen table, one for the wizards.\nBoth are always true at once. Ask about any of them: `close explain <word>`\n\n"
    ++ listing glossary
explain (some word) = answer word (first_named (to_ascii_lowercase word) glossary)
