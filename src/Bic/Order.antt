-- ===== src/Bic/Order.antt =====
-- The order that a list of selection rules puts on instances, which `sfptpd_bic_select` decides.
use sfptpd.Prelude.{◌≡◌, ◌≢◌, Bool, true, false, not, ◌&&◌, List, [], ◌∷◌, arith, ltb, ltb_ℤ, ◌==◌}
use sfptpd.Orders.{IsStrictWeak, ltb_order, ltb_ℤ_order, by_key, converse, lex, lex_order}
use sfptpd.Bic.Defs.{
  Floats, Rule, manual, ext_constraints, state_rule, no_alarms, user_priority, clustering,
  clock_class, total_accuracy, allan_variance, steps_removed, tie_break, class_value,
  state_priority, ext_constraint_priority, Ref, total_accuracy_of,
}

-- What the comparison of floating-point numbers promises where no NaN is among them.
pub record NoNan (F : Floats) : Type 0 where
  pub lt_order : IsStrictWeak F.lt
  pub lt_long_order : IsStrictWeak F.lt_long

-- Whether SELECTION_RULE_TIE_BREAK, the end of a list of rules, is among the rules.
abbrev pub has_tie_break : List Rule → Bool
has_tie_break [] = false
has_tie_break (tie_break ∷ rules) = true
has_tie_break (rule ∷ rules) = has_tie_break rules

module _ (F : Floats) where
  -- What a rule prefers, by the field that it looks at.
  unfoldable pub prefers : Rule → Ref F → Ref F → Bool
  prefers manual a b = a.instance_record.selected && not b.instance_record.selected
  prefers ext_constraints a b =
      ltb_ℤ (ext_constraint_priority a.instance_record.status.constraints)
        (ext_constraint_priority b.instance_record.status.constraints)
  prefers state_rule a b =
      ltb (state_priority a.instance_record.status.state)
        (state_priority b.instance_record.status.state)
  prefers no_alarms a b =
      (a.instance_record.status.alarms == 0) && not (b.instance_record.status.alarms == 0)
  prefers user_priority a b =
      ltb a.instance_record.status.user_priority b.instance_record.status.user_priority
  prefers clustering a b =
      ltb_ℤ b.instance_record.status.clustering_score a.instance_record.status.clustering_score
  prefers clock_class a b =
      ltb (class_value a.instance_record.status.master.clock_class)
        (class_value b.instance_record.status.master.clock_class)
  prefers total_accuracy a b =
      F.lt (total_accuracy_of F a.instance_record.status)
        (total_accuracy_of F b.instance_record.status)
  prefers allan_variance a b =
      F.lt_long a.instance_record.status.master.allan_variance
        b.instance_record.status.master.allan_variance
  prefers steps_removed a b =
      ltb a.instance_record.status.master.steps_removed
        b.instance_record.status.master.steps_removed
  prefers tie_break a b = ltb a.index b.index

  -- The rules in order, each deciding what those before it leave open; the tie break decides.
  unfoldable pub beats : List Rule → Ref F → Ref F → Bool
  unfolding prefers
  beats [] a b = false
  beats (tie_break ∷ rules) a b = ltb a.index b.index
  beats (rule ∷ rules) a b = lex (prefers rule) (beats rules) a b

  none_order : IsStrictWeak (λ (a b : Ref F). false)
  none_order = record { asym = λ a b h. cc; compare = λ a b c h k. cc }

  -- Each rule prefers by a key, so it orders the instances.
  prefers_order : NoNan F → (rule : Rule) → IsStrictWeak (prefers rule)
  unfolding prefers
  prefers_order nan manual = record {
    asym = λ a b h. ground arith;
    compare = λ a b c h k. ground arith;
  }
  prefers_order nan ext_constraints =
      by_key (λ (a : Ref F). ext_constraint_priority a.instance_record.status.constraints)
        ltb_ℤ_order
  prefers_order nan state_rule =
      by_key (λ (a : Ref F). state_priority a.instance_record.status.state) ltb_order
  prefers_order nan no_alarms = record {
    asym = λ a b h. ground arith;
    compare = λ a b c h k. ground arith;
  }
  prefers_order nan user_priority =
      by_key (λ (a : Ref F). a.instance_record.status.user_priority) ltb_order
  prefers_order nan clustering =
      by_key (λ (a : Ref F). a.instance_record.status.clustering_score) (converse ltb_ℤ_order)
  prefers_order nan clock_class =
      by_key (λ (a : Ref F). class_value a.instance_record.status.master.clock_class) ltb_order
  prefers_order nan total_accuracy =
      by_key (λ (a : Ref F). total_accuracy_of F a.instance_record.status) nan.lt_order
  prefers_order nan allan_variance =
      by_key (λ (a : Ref F). a.instance_record.status.master.allan_variance) nan.lt_long_order
  prefers_order nan steps_removed =
      by_key (λ (a : Ref F). a.instance_record.status.master.steps_removed) ltb_order
  prefers_order nan tie_break = by_key (λ (a : Ref F). a.index) ltb_order

  -- Where the floating-point values have no NaN, the rules put a strict weak order on the instances.
  pub beats_order : NoNan F → (rules : List Rule) → IsStrictWeak (beats rules)
  unfolding beats
  beats_order nan [] = none_order
  beats_order nan (tie_break ∷ rules) = prefers_order nan tie_break
  beats_order nan (rule ∷ rules) = lex_order (prefers_order nan rule) (beats_order nan rules)

  -- With a tie break among the rules one of two instances at different places beats the other.
  pub beats_total :
      (rules : List Rule)
      → has_tie_break rules ≡ true
      → (a b : Ref F) → a.index ≢ b.index
      → beats rules a b ≡ false
      → beats rules b a ≡ true
  unfolding beats
  beats_total [] t a b ne h = cc
  beats_total (tie_break ∷ rules) t a b ne h = ground arith
  beats_total (rule ∷ rules) t a b ne h = ground (arith, beats_total rules t a b ne)
