-- ===== src/Api/ConsoleLaws.antt =====
-- What the sessions of a console log (internal/api/operations.go) hold of it.
use mathlib.Core.List.{append_assoc}
use ghostfleet.Base.{
  ◌≤◌, ◌+◌, ℕ, ◌≡◌, refl, ap, sym, ◌∙◌, Bool, false, List, [], ◌∷◌, ◌++◌, Name, ◌==◌, All, arith,
  Bool-cases, inl, inr,
}
use ghostfleet.Api.Boots.{
  boots, IsPlain, lines-IsPlain, Carries, empty-Carries, step-Carries, carried_boots, carried_flag,
}
use ghostfleet.Api.Console.{
  ConsoleSession, boot_banner, contains, add_byte, split_lines, flush, split_from,
  split_console_sessions,
}

append_nil {ℓ} : {A : Type ℓ} (xs : List A) → xs ++ [] ≡ xs
append_nil [] = refl
append_nil (x ∷ xs) = ap (◌∷◌ x) (append_nil xs)

abbrev unlines : List Name → Name
unlines [] = []
unlines (l ∷ ls) = (l ++ (10 ∷ [])) ++ unlines ls

unlines-add :
    (c : ℕ) (t : Name) (ls : List Name)
    → unlines ls ≡ t ++ (10 ∷ [])
    → unlines (add_byte c ls) ≡ c ∷ (t ++ (10 ∷ []))
unlines-add c [] [] h = absurd (ground (arith, h))
unlines-add c (x ∷ t) [] h = absurd (ground (arith, h))
unlines-add c t (l ∷ ls) h = ap (◌∷◌ c) h

-- The lines, each with its newline, are the text and a newline.
unlines-split : (text : Name) → unlines (split_lines text) ≡ text ++ (10 ∷ [])
unfolding split_lines
unlines-split [] = refl
unlines-split (c ∷ cs) = elim (Bool-cases (c == 10)) [
  | inl newline ↦
      rw newline (rw (unlines-split cs) (ap (λ x. x ∷ (cs ++ (10 ∷ []))) (ground (arith, newline))))
  | inr other ↦ rw other (unlines-add c cs (split_lines cs) (unlines-split cs))
]

abbrev pub texts : List ConsoleSession → Name
texts [] = []
texts (s ∷ ss) = s.text ++ texts ss

texts-append : (xs ys : List ConsoleSession) → texts (xs ++ ys) ≡ texts xs ++ texts ys
texts-append [] ys = refl
texts-append (x ∷ xs) ys =
    ap (λ t. x.text ++ t) (texts-append xs ys) ∙ sym (append_assoc x.text (texts xs) (texts ys))

-- One boot at most, and flagged as partial exactly if there is none.
abbrev pub IsSession : ConsoleSession → Type 0
IsSession s = (boots s.text ≤ 1) × (s.partial_boot ≡ (boots s.text == 0))

-- A session with the one boot that it begins with.
abbrev pub IsWhole : ConsoleSession → Type 0
IsWhole s = (boots s.text ≡ 1) × (s.partial_boot ≡ false)

-- All but the first.
abbrev pub later_ones : List ConsoleSession → List ConsoleSession
later_ones [] = []
later_ones (s ∷ ss) = ss

module _ (start_time : Name → Name) (blank : Name → Bool) where
  texts-flush : (cur : Name) → texts (flush start_time blank cur) ≡ cur
  unfolding flush
  texts-flush [] = refl
  texts-flush (c ∷ cs) = append_nil (c ∷ cs)

  texts-split_from :
      (lines : List Name) (cur : Name)
      → texts (split_from start_time blank lines cur) ≡ cur ++ unlines lines
  unfolding split_from
  texts-split_from [] cur = texts-flush cur ∙ sym (append_nil cur)
  texts-split_from (line ∷ rest) cur = elim (Bool-cases (contains boot_banner line)) [
    | inl boots ↦ rw boots (
        texts-append (flush start_time blank cur)
          (split_from start_time blank rest (line ++ (10 ∷ [])))
        ∙ ap (λ t. t ++ texts (split_from start_time blank rest (line ++ (10 ∷ []))))
            (texts-flush cur)
        ∙ ap (λ t. cur ++ t) (texts-split_from rest (line ++ (10 ∷ []))))
    | inr goes_on ↦ rw goes_on (
        texts-split_from rest (cur ++ line ++ (10 ∷ []))
        ∙ append_assoc (cur ++ line) (10 ∷ []) (unlines rest)
        ∙ append_assoc cur line ((10 ∷ []) ++ unlines rest)
        ∙ ap (λ t. cur ++ t) (sym (append_assoc line (10 ∷ []) (unlines rest))))
  ]

  -- The session that is cut off where its lines hold that many banners.
  flush-boots :
      (cur : Name) (n : ℕ)
      → Carries cur n
      → All (λ s. (boots s.text ≡ n) × (s.partial_boot ≡ (n == 0))) (flush start_time blank cur)
  unfolding flush
  flush-boots [] n h = tt
  flush-boots (c ∷ cs) n h = ((carried_boots (c ∷ cs) n h, carried_flag (c ∷ cs) n h), tt)

  All-mapped :
      (P Q : ConsoleSession → Type 0) (xs : List ConsoleSession)
      → ((s : ConsoleSession) → P s → Q s)
      → All P xs
      → All Q xs
  All-mapped P Q [] f h = tt
  All-mapped P Q (x ∷ xs) f h = (f x h.0, All-mapped P Q xs f h.1)

  All-append :
      (P : ConsoleSession → Type 0) (xs ys : List ConsoleSession)
      → All P xs
      → All P ys
      → All P (xs ++ ys)
  All-append P [] ys h k = k
  All-append P (x ∷ xs) ys h k = (h.0, All-append P xs ys h.1 k)

  -- What holds of a session with so many banners, if it does.
  abbrev Fits : (ConsoleSession → Type 0) → ℕ → Type 0
  Fits P n = (s : ConsoleSession) → (boots s.text ≡ n) × (s.partial_boot ≡ (n == 0)) → P s

  split_from-All :
      (P : ConsoleSession → Type 0) (lines : List Name) (cur : Name) (n : ℕ)
      → Fits P n
      → Fits P 1
      → All IsPlain lines
      → Carries cur n
      → All P (split_from start_time blank lines cur)
  unfolding split_from
  split_from-All P [] cur n f g plain h = All-mapped _ P _ f (flush-boots cur n h)
  split_from-All P (line ∷ rest) cur n f g plain h = elim (Bool-cases (contains boot_banner line)) [
    | inl boot ↦
        let one : Carries (line ++ (10 ∷ [])) 1 =
          rw boot at (step-Carries [] line 0 empty-Carries plain.0) in
        rw (boot, All)
          (All-append P (flush start_time blank cur) _ (All-mapped _ P _ f (flush-boots cur n h))
            (split_from-All P rest (line ++ (10 ∷ [])) 1 g g plain.1 one))
    | inr goes_on ↦
        let same : Carries (cur ++ line ++ (10 ∷ [])) n =
          rw (goes_on, no_more n) at (step-Carries cur line n h plain.0) in
        rw (goes_on, All) (split_from-All P rest (cur ++ line ++ (10 ∷ [])) n f g plain.1 same)
  ]
    where
      no_more : (n : ℕ) → n + 0 ≡ n
      no_more n = omega arith

  later_ones-flush :
      (cur : Name) (ss : List ConsoleSession)
      → All IsWhole ss
      → All IsWhole (later_ones (flush start_time blank cur ++ ss))
  unfolding flush
  later_ones-flush [] [] h = tt
  later_ones-flush [] (s ∷ ss) h = h.1
  later_ones-flush (c ∷ cs) ss h = h

  later_ones-IsWhole :
      (lines : List Name) (cur : Name)
      → All IsPlain lines
      → All IsWhole (later_ones (split_from start_time blank lines cur))
  unfolding split_from flush
  later_ones-IsWhole [] [] plain = tt
  later_ones-IsWhole [] (c ∷ cs) plain = tt
  later_ones-IsWhole (line ∷ rest) cur plain = elim (Bool-cases (contains boot_banner line)) [
    | inl boot ↦
        let one : Carries (line ++ (10 ∷ [])) 1 =
          rw boot at (step-Carries [] line 0 empty-Carries plain.0) in
        rw boot (
          later_ones-flush cur _
            (split_from-All IsWhole rest (line ++ (10 ∷ [])) 1 (λ s h. h) (λ s h. h) plain.1 one))
    | inr goes_on ↦ rw goes_on (later_ones-IsWhole rest (cur ++ line ++ (10 ∷ [])) plain.1)
  ]

  -- The sessions of a console log that is not blank, put together again, are the log and a newline; each of
  -- them has at most one line with the boot banner, and is flagged as partial exactly if it has none; and every
  -- session but the first has one.
  pub split_console_sessions-IsWhole :
      (text : Name)
      → blank text ≡ false
      → (texts (split_console_sessions start_time blank text) ≡ text ++ (10 ∷ []))
        × All IsSession (split_console_sessions start_time blank text)
        × All IsWhole (later_ones (split_console_sessions start_time blank text))
  unfolding split_console_sessions
  split_console_sessions-IsWhole text h = rw h (
    texts-split_from (split_lines text) [] ∙ unlines-split text,
    split_from-All IsSession (split_lines text) [] 0 (λ s k. (omega (arith, k.0), rw k.0 k.1))
        (λ s k. (omega (arith, k.0), rw k.0 k.1)) (lines-IsPlain text) empty-Carries,
    later_ones-IsWhole (split_lines text) [] (lines-IsPlain text),
  )
