-- ===== src/Bic/Defs.antt =====
-- sfptpd_bic.c and sfptpd_bic.h: the selection rules and the comparison of two instances.
use sfptpd.Prelude.{
  ℕ, suc, Bool, not, ◌&&◌, Option, none, some, List, [], ◌∷◌, ltb, ◌==◌, if◌then◌else◌, bit_and, ℤ,
  pos, negsuc, ltb_ℤ,
}

-- The floating-point types and operations that the comparison uses: `add` and `lt_long` are those
-- of `long double`, `narrow` is the conversion to `double`, and `lt` the order of `double`.
pub record Floats : Type 1 where
  pub LongDouble : Type 0
  pub Double : Type 0
  pub add : LongDouble → LongDouble → LongDouble
  pub narrow : LongDouble → Double
  pub lt : Double → Double → Bool
  pub lt_long : LongDouble → LongDouble → Bool

-- `enum sfptpd_selection_rule`; SELECTION_RULE_END is the same value as SELECTION_RULE_TIE_BREAK.
pub data Rule : Type 0 where
  tie_break manual ext_constraints state_rule no_alarms user_priority : Rule
  clustering clock_class total_accuracy allan_variance steps_removed : Rule

-- `enum sfptpd_sync_module_state`.
pub data State : Type 0 where
  listening slave master passive disabled faulty selection : State

-- `enum sfptpd_clock_class`, with its values in order.
pub data ClockClass : Type 0 where
  locked holdover freerunning unknown : ClockClass

unfoldable pub class_value : ClockClass → ℕ
class_value locked = 0
class_value holdover = 1
class_value freerunning = 2
class_value unknown = 3

-- `sfptpd_state_priorities`.
unfoldable pub state_priority : State → ℕ
state_priority listening = 1
state_priority slave = 0
state_priority master = 2
state_priority passive = 2
state_priority disabled = 3
state_priority faulty = 3
state_priority selection = 1

-- SYNC_MODULE_CONSTRAINT_TEST for the two external constraints.
abbrev pub must_be_selected : ℕ → Bool
must_be_selected constraints = not (bit_and constraints 1 == 0)

abbrev pub cannot_be_selected : ℕ → Bool
cannot_be_selected constraints = not (bit_and constraints 2 == 0)

unfoldable pub ext_constraint_priority : ℕ → ℤ
ext_constraint_priority constraints =
    if must_be_selected constraints
    then negsuc 0
    else if cannot_be_selected constraints
    then pos 1
    else pos 0

module _ (F : Floats) where
  open F use {LongDouble}

  -- `struct sfptpd_grandmaster_info`, as far as a comparison reads it.
  pub record GrandmasterInfo : Type 0 where
    pub clock_class : ClockClass
    pub accuracy : LongDouble
    pub allan_variance : LongDouble
    pub steps_removed : ℕ

  -- `struct sfptpd_sync_instance_status`, as far as a comparison reads it.
  pub record Status : Type 0 where
    pub state : State
    pub alarms : ℕ
    pub constraints : ℕ
    pub user_priority : ℕ
    pub master : GrandmasterInfo
    pub local_accuracy : LongDouble
    pub clustering_score : ℤ

  -- `struct sync_instance_record`: what `sfptpd_bic.c` reads and writes of it.
  pub record Instance : Type 0 where
    pub status : Status
    pub selected : Bool
    pub rank : ℕ

  -- A pointer to an element of the array `instance_records`, with the element. The pointers into
  -- one array are ordered as the indices are.
  pub record Ref : Type 0 where
    pub index : ℕ
    pub instance_record : Instance

module _ (F : Floats) where
  open F use {LongDouble, Double, add, narrow, lt, lt_long}

  unfoldable pub total_accuracy_of : Status F → Double
  total_accuracy_of s = narrow (add s.master.accuracy s.local_accuracy)

  -- The comparison by two tests that most rules make: `choice` stays NULL where neither passes.
  abbrev pub pick : Bool → Bool → Ref F → Ref F → Option (Ref F)
  pick first second a b = if first then some a else if second then some b else none

  -- One round of the loop in `sfptpd_bic_select`: what the `switch` assigns to `choice`.
  unfoldable pub apply_rule : Rule → Ref F → Ref F → Option (Ref F)
  unfolding total_accuracy_of class_value state_priority ext_constraint_priority
  apply_rule manual a b = pick a.instance_record.selected b.instance_record.selected a b
  apply_rule ext_constraints a b =
      let p = ext_constraint_priority a.instance_record.status.constraints in
      let q = ext_constraint_priority b.instance_record.status.constraints in
      pick (ltb_ℤ p q) (ltb_ℤ q p) a b
  apply_rule state_rule a b =
      let p = state_priority a.instance_record.status.state in
      let q = state_priority b.instance_record.status.state in pick (ltb p q) (ltb q p) a b
  apply_rule no_alarms a b =
      let p = a.instance_record.status.alarms in
      let q = b.instance_record.status.alarms in
      pick ((p == 0) && not (q == 0)) (not (p == 0) && (q == 0)) a b
  apply_rule user_priority a b =
      let p = a.instance_record.status.user_priority in
      let q = b.instance_record.status.user_priority in pick (ltb p q) (ltb q p) a b
  apply_rule clustering a b =
      let p = a.instance_record.status.clustering_score in
      let q = b.instance_record.status.clustering_score in pick (ltb_ℤ q p) (ltb_ℤ p q) a b
  apply_rule clock_class a b =
      let p = class_value a.instance_record.status.master.clock_class in
      let q = class_value b.instance_record.status.master.clock_class in
      pick (ltb p q) (ltb q p) a b
  apply_rule total_accuracy a b =
      let p = total_accuracy_of a.instance_record.status in
      let q = total_accuracy_of b.instance_record.status in pick (lt p q) (lt q p) a b
  apply_rule allan_variance a b =
      let p = a.instance_record.status.master.allan_variance in
      let q = b.instance_record.status.master.allan_variance in pick (lt_long p q) (lt_long q p) a b
  apply_rule steps_removed a b =
      let p = a.instance_record.status.master.steps_removed in
      let q = b.instance_record.status.master.steps_removed in pick (ltb p q) (ltb q p) a b
  apply_rule tie_break a b = if ltb a.index b.index then some a else some b

  -- The loop of `sfptpd_bic_select` from `rule_idx` on: the choice and the index of the decisive
  -- rule. `none` is a read past the end of `policy->rules`.
  unfoldable pub select_from : ℕ → List Rule → Ref F → Ref F → Option (Ref F × ℕ)
  select_from rule_idx [] a b = none
  select_from rule_idx (rule ∷ rules) a b =
      let rest = select_from (suc rule_idx) rules a b in
      elim (apply_rule rule a b) [ some choice ↦ some (choice, rule_idx) | none ↦ rest ]

  unfoldable pub select : List Rule → Ref F → Ref F → Option (Ref F × ℕ)
  unfolding select_from
  select rules a b = select_from 0 rules a b

-- `sfptpd_default_selection_policy.rules`; SELECTION_RULE_END is the tie break.
abbrev pub default_rules : List Rule
default_rules =
    manual ∷ ext_constraints ∷ state_rule ∷ no_alarms ∷ user_priority ∷ clustering ∷ clock_class
    ∷ total_accuracy ∷ allan_variance ∷ steps_removed ∷ tie_break ∷ []
