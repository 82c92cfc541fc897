-- ===== src/Bic/Compare.antt =====
-- `sfptpd_bic_select` decides the order of the rules, and names the rule that was decisive.
use sfptpd.Prelude.{
  ℕ, zero, suc, ◌+◌, ◌<◌, ◌≡◌, ◌≢◌, refl, ◌⊎◌, inl, inr, true, false, ◌&&◌, Option, none, some,
  List, [], ◌∷◌, ◌∙◌, arith, get_elem?, if◌then◌else◌, Bool-cases,
}
use mathlib.Core.Path.{subst}
use mathlib.Core.Option.{some-injective}
use sfptpd.Bic.Defs.{
  Floats, Rule, manual, no_alarms, tie_break, Ref, apply_rule, select_from, select,
}
use sfptpd.Orders.{lex}
use sfptpd.Bic.Order.{prefers, beats, has_tie_break}

module _ (F : Floats) where
  -- Two instances are not both selected by hand.
  abbrev pub NotBoth : Ref F → Ref F → Type 0
  NotBoth a b = a.instance_record.selected && b.instance_record.selected ≡ false

  -- A rule has no preference between two instances.
  abbrev pub Undecided : Rule → Ref F → Ref F → Type 0
  Undecided rule a b = (prefers F rule a b ≡ false) × (prefers F rule b a ≡ false)

  -- The outcome of a rule: the instance that it prefers, or no choice.
  abbrev outcome : Rule → Ref F → Ref F → Option (Ref F)
  outcome rule a b =
      if prefers F rule a b then some a else if prefers F rule b a then some b else none

  apply_rule-eq :
      (rule : Rule) (a b : Ref F)
      → NotBoth a b
      → (rule ≡ tie_break) ⊎ (apply_rule F rule a b ≡ outcome rule a b)
  unfolding apply_rule prefers
  apply_rule-eq manual a b h = inr (ground arith)
  apply_rule-eq tie_break a b h = inl refl
  apply_rule-eq no_alarms a b h = inr (ground arith)
  apply_rule-eq _ a b h = inr refl

  -- `Decisive rules i a b`: the rule at index `i` is the first to tell the instances apart.
  pub record Decisive (rules : List Rule) (i : ℕ) (a b : Ref F) : Type 0 where
    pub rule : Rule
    pub at : get_elem? rules i ≡ some rule
    pub decides : (rule ≡ tie_break) ⊎ (prefers F rule a b ≡ true) ⊎ (prefers F rule b a ≡ true)
    pub undecided_before : (j : ℕ) (r : Rule) → j < i → get_elem? rules j ≡ some r → Undecided r a b

  abbrev winner : List Rule → Ref F → Ref F → Ref F
  winner rules a b = if beats F rules a b then a else b

  -- What holds of the rules after one that is undecided holds of the whole list, one place further.
  Decisive-cons :
      (r : Rule) (rules : List Rule) (i : ℕ) (a b : Ref F)
      → Undecided r a b
      → Decisive rules i a b
      → Decisive (r ∷ rules) (suc i) a b
  Decisive-cons r rules i a b u d = record {
    rule = d.rule;
    at = d.at;
    decides = d.decides;
    undecided_before = before;
  }
    where
      before : (j : ℕ) (q : Rule) → j < suc i → get_elem? (r ∷ rules) j ≡ some q → Undecided q a b
      before zero q lt e = subst (λ x. Undecided x a b) (some-injective r q e) u
      before (suc j) q lt e = d.undecided_before j q (omega arith) e

  Decisive-here :
      (r : Rule) (rules : List Rule) (a b : Ref F)
      → (r ≡ tie_break) ⊎ (prefers F r a b ≡ true) ⊎ (prefers F r b a ≡ true)
      → Decisive (r ∷ rules) 0 a b
  Decisive-here r rules a b d = record {
    rule = r;
    at = refl;
    decides = d;
    undecided_before = λ j q lt e. absurd (omega arith);
  }

  abbrev Selects : ℕ → List Rule → Ref F → Ref F → Type 0
  Selects start rules a b =
      (i : ℕ) × (select_from F start rules a b ≡ some (winner rules a b, start + i))
      × Decisive rules i a b

  beats-cons :
      (r : Rule) (rules : List Rule) (a b : Ref F)
      → r ≢ tie_break
      → beats F (r ∷ rules) a b ≡ lex (prefers F r) (beats F rules) a b
  unfolding beats
  beats-cons tie_break rules a b ne = absurd (ne refl)
  beats-cons _ rules a b ne = refl

  -- One round of the loop by a rule other than the tie break.
  select_round :
      (start : ℕ) (r : Rule) (rules : List Rule) (a b : Ref F)
      → r ≢ tie_break
      → apply_rule F r a b ≡ outcome r a b
      → Selects (suc start) rules a b
      → Selects start (r ∷ rules) a b
  unfolding select_from
  select_round start r rules a b ne e ih = elim (Bool-cases (prefers F r a b)) [
    | inl ab ↦ (
      0,
      rw (e, select_from, ab, beats-cons r rules a b ne, ab) (ground arith),
      Decisive-here r rules a b (inr (inl ab)),
    )
    | inr nab ↦ elim (Bool-cases (prefers F r b a)) [
      | inl ba ↦ (
        0,
        rw (e, select_from, nab, ba, beats-cons r rules a b ne, nab, ba) (ground arith),
        Decisive-here r rules a b (inr (inr ba)),
      )
      | inr nba ↦ (
        suc ih.0,
        rw (e, select_from, nab, nba, beats-cons r rules a b ne, nab, nba) (ih.1 ∙ (ground arith)),
        Decisive-cons r rules ih.0 a b (nab, nba) ih.2,
      )
    ]
  ]

  select_tie : (start : ℕ) (rules : List Rule) (a b : Ref F) → Selects start (tie_break ∷ rules) a b
  unfolding select_from beats prefers apply_rule
  select_tie start rules a b = (0, ground arith, Decisive-here tie_break rules a b (inl refl))

  select_from_lem :
      (start : ℕ) (rules : List Rule) (a b : Ref F)
      → has_tie_break rules ≡ true
      → NotBoth a b
      → Selects start rules a b
  select_from_lem start [] a b t h = cc
  select_from_lem start (tie_break ∷ rules) a b t h = select_tie start rules a b
  select_from_lem start (r ∷ rules) a b t h = elim (apply_rule-eq r a b h) [
    | inl tie ↦ cc tie
    | inr e ↦
        select_round start r rules a b (λ tie. cc tie) e (select_from_lem (suc start) rules a b t h)
  ]

  -- The comparison returns, whatever the two instances are: with the tie break among the rules it
  -- yields the instance that the order of the rules puts first, and the index of the first rule that
  -- tells the two apart. The two instances are not both selected by hand.
  pub select-beats :
      (rules : List Rule) (a b : Ref F)
      → has_tie_break rules ≡ true
      → NotBoth a b
      → (i : ℕ) × (select F rules a b ≡ some (if beats F rules a b then a else b, i))
        × Decisive rules i a b
  unfolding select
  select-beats rules a b t h =
      let s = select_from_lem 0 rules a b t h in (s.0, s.1 ∙ (ground arith), s.2)

  apply_rule_cases :
      (r : Rule) (a b : Ref F)
      → (apply_rule F r a b ≡ none) ⊎ (apply_rule F r a b ≡ some a) ⊎ (apply_rule F r a b ≡ some b)
  unfolding apply_rule
  apply_rule_cases tie_break a b = ground arith
  apply_rule_cases no_alarms a b = ground arith
  apply_rule_cases _ a b = ground arith

  -- The tie break decides, whatever goes before it.
  apply_rule_tie :
      (a b : Ref F) → (apply_rule F tie_break a b ≡ some a) ⊎ (apply_rule F tie_break a b ≡ some b)
  unfolding apply_rule
  apply_rule_tie a b = ground arith

  -- The comparison returns one of the two instances, also where both are selected by hand.
  abbrev pub Returns : ℕ → List Rule → Ref F → Ref F → Type 0
  Returns start rules a b =
      (c : Ref F) × (i : ℕ) × (select_from F start rules a b ≡ some (c, i)) × ((c ≡ a) ⊎ (c ≡ b))

  Returns-here :
      (start : ℕ) (r : Rule) (rules : List Rule) (a b : Ref F)
      → (apply_rule F r a b ≡ some a) ⊎ (apply_rule F r a b ≡ some b)
      → Returns start (r ∷ rules) a b
  unfolding select_from
  Returns-here start r rules a b (inl e) = (a, start, rw (e, select_from), inl refl)
  Returns-here start r rules a b (inr e) = (b, start, rw (e, select_from), inr refl)

  Returns-later :
      (start : ℕ) (r : Rule) (rules : List Rule) (a b : Ref F)
      → Returns (suc start) rules a b
      → Returns start (r ∷ rules) a b
  unfolding select_from
  Returns-later start r rules a b ih = elim (apply_rule_cases r a b) [
    | inl e ↦ (ih.0, ih.1, rw (e, select_from) ih.2, ih.3)
    | inr h ↦ Returns-here start r rules a b h
  ]

  select_from-Returns :
      (start : ℕ) (rules : List Rule) (a b : Ref F)
      → has_tie_break rules ≡ true
      → Returns start rules a b
  select_from-Returns start [] a b t = cc
  select_from-Returns start (tie_break ∷ rules) a b t =
      Returns-here start tie_break rules a b (apply_rule_tie a b)
  select_from-Returns start (r ∷ rules) a b t =
      Returns-later start r rules a b (select_from-Returns (suc start) rules a b t)

  pub select_total :
      (rules : List Rule) (a b : Ref F)
      → has_tie_break rules ≡ true
      → (c : Ref F) × (i : ℕ) × (select F rules a b ≡ some (c, i)) × ((c ≡ a) ⊎ (c ≡ b))
  unfolding select
  select_total rules a b t = select_from-Returns 0 rules a b t
