-- ===== src/Orders.antt =====
-- Strict weak orders as tests, and the ways to combine them: what the comparison of two instances
-- and the comparison of two foreign masters are made of.
use sfptpd.Prelude.{◌≡◌, inl, inr, Bool, true, false, arith, ltb, ltb_ℤ, if◌then◌else◌, Bool-cases}

-- A strict weak order, as a test: it never holds both ways, and what beats something beats all that
-- does not beat that.
pub record IsStrictWeak {ℓ} {A : Type ℓ} (lt : A → A → Bool) : Type ℓ where
  pub asym : (a b : A) → lt a b ≡ true → lt b a ≡ false
  pub compare : (a b c : A) → lt a b ≡ true → lt c b ≡ false → lt a c ≡ true

pub ltb_order : IsStrictWeak ltb
ltb_order = record { asym = λ a b h. ground arith; compare = λ a b c h k. ground arith }

pub ltb_ℤ_order : IsStrictWeak ltb_ℤ
ltb_ℤ_order = record { asym = λ a b h. ground arith; compare = λ a b c h k. ground arith }

module _ {ℓ κ} {A : Type ℓ} {B : Type κ} where
  -- The order of keys is an order of what has the keys, and so is its converse.
  pub by_key :
      {lt : B → B → Bool} (key : A → B) → IsStrictWeak lt → IsStrictWeak (λ a b. lt (key a) (key b))
  by_key key o = record {
    asym = λ a b. o.asym (key a) (key b);
    compare = λ a b c. o.compare (key a) (key b) (key c);
  }

module _ {ℓ} {A : Type ℓ} where
  pub converse : {lt : A → A → Bool} → IsStrictWeak lt → IsStrictWeak (λ a b. lt b a)
  converse {lt} o = record {
    asym = λ a b. o.asym b a;
    compare =
        λ a b c h k. elim (Bool-cases (lt c a)) [ inl e ↦ e | inr e ↦ cc (o.compare b a c h e) ];
  }

  -- First by one order, then by another.
  abbrev pub lex : (A → A → Bool) → (A → A → Bool) → A → A → Bool
  lex first then_by a b = if first a b then true else if first b a then false else then_by a b

  pub lex_order : {p q : A → A → Bool} → IsStrictWeak p → IsStrictWeak q → IsStrictWeak (lex p q)
  lex_order {p} {q} op oq = record {
    asym = λ a b h. ground (arith, op.asym a b, op.asym b a, oq.asym a b);
    compare = λ a b c h k. ground (
      arith,
      op.asym a b,
      op.asym b a,
      op.asym a c,
      op.asym c a,
      op.asym b c,
      op.asym c b,
      op.compare a b c,
      op.compare c a b,
      op.compare b c a,
      op.compare b a c,
      op.compare a c b,
      op.compare c b a,
      oq.compare a b c,
    );
  }
