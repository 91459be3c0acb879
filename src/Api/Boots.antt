-- ===== src/Api/Boots.antt =====
-- How many lines of a console log hold the boot banner (internal/api/operations.go).
use mathlib.Core.List.{append_assoc}
use ghostfleet.Base.{
  ℕ, ◌+◌, ◌≡◌, refl, ap, sym, ◌∙◌, Bool, false, ◌&&◌, ◌||◌, not, List, [], ◌∷◌, ◌++◌, Name, ◌==◌,
  All, count, arith, Bool-cases, inl, inr, if◌then◌else◌,
}
use ghostfleet.Api.Console.{boot_banner, starts_with, contains, add_byte, split_lines}

-- The lines with the banner.
abbrev pub boots : Name → ℕ
boots text = count (contains boot_banner) (split_lines text)

-- A line without a newline.
abbrev pub IsPlain : Name → Type 0
IsPlain line = split_lines line ≡ line ∷ []

abbrev Parts : Name → Type 0
Parts t = (l : Name) × (ls : List Name) × (split_lines t ≡ l ∷ ls)

some_line : (t : Name) → Parts t
unfolding split_lines
some_line [] = ([], [], refl)
some_line (c ∷ cs) = elim (Bool-cases (c == 10)) [
  | inl e ↦ rw e ([], split_lines cs, refl)
  | inr e ↦ let (l, ls, k) = some_line cs in rw (e, k) (c ∷ l, ls, refl)
]

add_byte-append :
    (c : ℕ) (t : Name) (ys : List Name)
    → add_byte c (split_lines t ++ ys) ≡ add_byte c (split_lines t) ++ ys
add_byte-append c t ys = let (l, ls, k) = some_line t in rw k refl

pub split_lines-append : (a b : Name) → split_lines (a ++ (10 ∷ b)) ≡ split_lines a ++ split_lines b
unfolding split_lines
split_lines-append [] b = refl
split_lines-append (c ∷ cs) b = elim (Bool-cases (c == 10)) [
  | inl e ↦ rw e (ap (◌∷◌ []) (split_lines-append cs b))
  | inr e ↦ rw e (ap (add_byte c) (split_lines-append cs b) ∙ add_byte-append c cs (split_lines b))
]

pub lines-IsPlain : (t : Name) → All IsPlain (split_lines t)
unfolding split_lines
lines-IsPlain [] = (refl, tt)
lines-IsPlain (c ∷ cs) = elim (Bool-cases (c == 10)) [
  | inl e ↦ rw (e, All) (refl, lines-IsPlain cs)
  | inr e ↦
      let (l, ls, k) = some_line cs in
      let rest : All IsPlain (l ∷ ls) = rw k at (lines-IsPlain cs) in
      rw (e, k, All) (rw (e, rest.0) refl, rest.1)
]

count-append : (p : Name → Bool) (xs ys : List Name) → count p (xs ++ ys) ≡ count p xs + count p ys
unfolding count
count-append p [] ys = omega arith
count-append p (x ∷ xs) ys = ground (arith, count-append p xs ys)

boots-append : (a b : Name) → boots (a ++ (10 ∷ b)) ≡ boots a + boots b
boots-append a b =
    ap (count (contains boot_banner)) (split_lines-append a b)
    ∙ count-append (contains boot_banner) (split_lines a) (split_lines b)

boots-line :
    (line : Name) → IsPlain line → boots line ≡ (if contains boot_banner line then 1 else 0)
unfolding count
boots-line line h = ap (count (contains boot_banner)) h ∙ ground arith

starts_with-line :
    (key a b : Name)
    → All (λ k. (k == 10) ≡ false) key
    → starts_with key (a ++ (10 ∷ b)) ≡ starts_with key a
unfolding starts_with
starts_with-line [] a b h = refl
starts_with-line (k ∷ ks) [] b h = rw h.0 refl
starts_with-line (k ∷ ks) (c ∷ cs) b h = ap (λ x. k == c && x) (starts_with-line ks cs b h.1)

contains-line :
    (k : ℕ) (ks a b : Name)
    → All (λ k. (k == 10) ≡ false) (k ∷ ks)
    → contains (k ∷ ks) (a ++ (10 ∷ b)) ≡ (contains (k ∷ ks) a || contains (k ∷ ks) b)
unfolding contains
contains-line k ks [] b h = ap (λ x. x || contains (k ∷ ks) b) (starts_with-line (k ∷ ks) [] b h)
contains-line k ks (c ∷ cs) b h =
    ground (arith, starts_with-line (k ∷ ks) (c ∷ cs) b h, contains-line k ks cs b h)

contains-banner :
    (a b : Name)
    → contains boot_banner (a ++ (10 ∷ b)) ≡ (contains boot_banner a || contains boot_banner b)
contains-banner a b =
    contains-line b'L'
      (b'i' ∷ b'n' ∷ b'u' ∷ b'x' ∷ b' ' ∷ b'v' ∷ b'e' ∷ b'r' ∷ b's' ∷ b'i' ∷ b'o' ∷ b'n' ∷ []) a b
      (
        refl,
        (
          refl,
          (
            refl,
            (refl, (refl, (refl, (refl, (refl, (refl, (refl, (refl, (refl, (refl, tt)))))))))),
          ),
        ),
      )

-- A text of whole lines, of which that many hold the banner.
abbrev pub Carries : Name → ℕ → Type 0
Carries cur n =
    ((x : Name) → boots (cur ++ x) ≡ n + boots x)
    × ((x : Name) → contains boot_banner (cur ++ x) ≡ (not (n == 0) || contains boot_banner x))

pub empty-Carries : Carries [] 0
empty-Carries = ((λ x. omega arith), λ x. refl)

regroup : (cur line x : Name) → ((cur ++ line) ++ (10 ∷ [])) ++ x ≡ cur ++ (line ++ (10 ∷ x))
regroup cur line x = append_assoc (cur ++ line) (10 ∷ []) x ∙ append_assoc cur line (10 ∷ x)

pub step-Carries :
    (cur line : Name) (n : ℕ)
    → Carries cur n
    → IsPlain line
    → Carries (cur ++ line ++ (10 ∷ [])) (n + (if contains boot_banner line then 1 else 0))
step-Carries cur line n (some_boots, holds) plain = (
  λ x.
      let a = ap boots (regroup cur line x) ∙ some_boots (line ++ (10 ∷ x)) in
      let b = boots-append line x in let c = boots-line line plain in omega (arith, a, b, c),
  λ x.
      let a =
        ap (contains boot_banner) (regroup cur line x)
        ∙ holds (line ++ (10 ∷ x))
        ∙ ap (λ t. not (n == 0) || t) (contains-banner line x) in
      a ∙ joined (contains boot_banner line) x,
)
  where
    joined :
        (b : Bool) (x : Name)
        → (not (n == 0) || (b || contains boot_banner x))
          ≡ (not ((n + (if b then 1 else 0)) == 0) || contains boot_banner x)
    joined b x = ground arith

append_none : (xs : Name) → xs ++ [] ≡ xs
append_none [] = refl
append_none (x ∷ xs) = ap (◌∷◌ x) (append_none xs)

none_in_nothing : boots [] ≡ 0
unfolding count split_lines contains starts_with
none_in_nothing = refl

nothing_holds : contains boot_banner [] ≡ false
unfolding contains starts_with
nothing_holds = refl

pub carried_boots : (cur : Name) (n : ℕ) → Carries cur n → boots cur ≡ n
carried_boots cur n (some_boots, holds) =
    let a = sym (ap boots (append_none cur)) ∙ some_boots [] in omega (arith, a, none_in_nothing)

pub carried_flag : (cur : Name) (n : ℕ) → Carries cur n → not (contains boot_banner cur) ≡ (n == 0)
carried_flag cur n (some_boots, holds) =
    let a =
      sym (ap (contains boot_banner) (append_none cur))
      ∙ holds []
      ∙ ap (λ x. not (n == 0) || x) nothing_holds in
    ground (arith, a)
