-- ===== src/Model/Places.antt =====
-- internal/model/model.go: Datastores and WithDatastore of a placement.
use ghostfleet.Base.{ℕ, Bool, ◌||◌, List, [], ◌∷◌, Name, ◌==◌, leb, ◌&&◌, if◌then◌else◌}
use ghostfleet.Model.Records.{Placement}

-- `strings.Split(text, "\n")`: the first line and the others.
abbrev pub put_first : ℕ → List Name → List Name
put_first c [] = (c ∷ []) ∷ []
put_first c (l ∷ ls) = (c ∷ l) ∷ ls

unfoldable pub lines : Name → List Name
lines [] = [] ∷ []
lines (c ∷ cs) = let rest = lines cs in if c == 10 then [] ∷ rest else put_first c rest

-- White space of `strings.TrimSpace`, among the ASCII bytes.
abbrev pub is_space : ℕ → Bool
is_space c = (leb 9 c && leb c 13) || c == 32

unfoldable pub trim_left : Name → Name
trim_left [] = []
trim_left (c ∷ cs) = let rest = trim_left cs in if is_space c then rest else c ∷ cs

abbrev pub put_unless_blank : ℕ → Name → Name
put_unless_blank c [] = if is_space c then [] else c ∷ []
put_unless_blank c (d ∷ ds) = c ∷ d ∷ ds

unfoldable pub trim_right : Name → Name
trim_right [] = []
trim_right (c ∷ cs) = put_unless_blank c (trim_right cs)

abbrev pub add_named : Name → List Name → List Name
add_named [] ls = ls
add_named (c ∷ cs) ls = (c ∷ cs) ∷ ls

unfoldable pub named : List Name → List Name
unfolding trim_left trim_right
named [] = []
named (l ∷ ls) = add_named (trim_right (trim_left l)) (named ls)

unfoldable pub datastores : Placement → List Name
unfolding named lines
datastores p = named (lines p.datastore)

abbrev pub with_datastore : Name → Placement → Placement
with_datastore name p = record p { datastore = name }
