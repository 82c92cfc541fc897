-- ===== src/Foreign/Moves.antt =====
-- What the `memmove` of `expireForeignMasterRecords`, ptp/ptpd2/foreign.c, leaves of the array.
use sfptpd.Prelude.{
  ℕ, zero, suc, ◌+◌, ◌<◌, ◌≤◌, ◌≡◌, refl, sym, ap, ◌∙◌, arith, none, some, List, [], ◌∷◌, ◌++◌,
  length, take, get_elem?,
}
use sfptpd.Foreign.Defs.{ForeignMaster}
use sfptpd.Foreign.Expire.{move_down, move_at}

module _ {ℓ} {A : Type ℓ} where
  pub get_elem?-append_mid :
      (pre : List A) (x : A) (l : List A) → get_elem? (pre ++ (x ∷ l)) (length pre) ≡ some x
  get_elem?-append_mid [] x l = refl
  get_elem?-append_mid (y ∷ pre) x l = get_elem?-append_mid pre x l

  pub take-length_append : (pre l : List A) → take (length pre) (pre ++ l) ≡ pre
  take-length_append [] l = refl
  take-length_append (y ∷ pre) l = ap (λ m. y ∷ m) (take-length_append pre l)

  pub length-snoc : (pre : List A) (x : A) → suc (length pre) ≡ length (pre ++ (x ∷ []))
  length-snoc [] x = refl
  length-snoc (y ∷ pre) x = ap suc (length-snoc pre x)

  take-take : (k m : ℕ) (l : List A) → k ≤ m → take k (take m l) ≡ take k l
  take-take zero m l h = refl
  take-take (suc k) zero l h = absurd (omega arith)
  take-take (suc k) (suc m) [] h = refl
  take-take (suc k) (suc m) (x ∷ l) h = ap (λ t. x ∷ t) (take-take k m l (omega arith))

  pub take-shorter :
      (i k : ℕ) (l l' : List A) → take (i + k) l ≡ take (i + k) l' → take k l ≡ take k l'
  take-shorter i k l l' e =
      sym (take-take k (i + k) l (omega arith))
      ∙ ap (take k) e
      ∙ take-take k (i + k) l' (omega arith)

module _ {Time : Type 0}
    (splice : ForeignMaster Time → ForeignMaster Time → ForeignMaster Time) where
  -- What is moved down to the place of `x`, of which the first `full` are whole records.
  pub record IsMoved (full : ℕ) (l : List (ForeignMaster Time)) (l' : List (ForeignMaster Time))
      : Type 0 where
    pub same_length : length l' ≡ suc (length l)
    pub same_take : take full l' ≡ take full l

  pub move_down_lem :
      (full : ℕ) (x : ForeignMaster Time) (l : List (ForeignMaster Time))
      → full < length l
      → (l' : List (ForeignMaster Time)) × (move_down splice full (x ∷ l) ≡ some l')
        × IsMoved full l l'
  unfolding move_down
  move_down_lem full x [] h = elim h [ ]
  move_down_lem zero x (y ∷ l) h =
      (splice x y ∷ y ∷ l, refl, record { same_length = refl; same_take = refl })
  move_down_lem (suc full) x (y ∷ l) h =
      let (l', e, m) = move_down_lem full y l (omega arith) in
      (
        y ∷ l',
        rw e,
        record { same_length = ap suc m.same_length; same_take = ap (λ t. y ∷ t) m.same_take },
      )

  pub move_down_short :
      (full : ℕ) (l : List (ForeignMaster Time))
      → length l ≤ suc full
      → move_down splice full l ≡ none
  unfolding move_down
  move_down_short full [] h = refl
  move_down_short full (x ∷ []) h = refl
  move_down_short zero (x ∷ y ∷ l) h = absurd (omega arith)
  move_down_short (suc full) (x ∷ y ∷ l) h = rw (move_down_short full (y ∷ l) (omega arith))

  pub move_at-append :
      (pre : List (ForeignMaster Time)) (full : ℕ) (l l' : List (ForeignMaster Time))
      → move_down splice full l ≡ some l'
      → move_at splice (length pre) full (pre ++ l) ≡ some (pre ++ l')
  unfolding move_at
  move_at-append [] full l l' e = e
  move_at-append (x ∷ pre) full l l' e = rw (move_at-append pre full l l' e)

  pub move_at-append_none :
      (pre : List (ForeignMaster Time)) (full : ℕ) (l : List (ForeignMaster Time))
      → move_down splice full l ≡ none
      → move_at splice (length pre) full (pre ++ l) ≡ none
  unfolding move_at
  move_at-append_none [] full l e = e
  move_at-append_none (x ∷ pre) full l e = rw (move_at-append_none pre full l e)

  pub move_at_cong :
      (i f f' : ℕ) (l l' : List (ForeignMaster Time))
      → f ≡ f'
      → l ≡ l'
      → move_at splice i f l ≡ move_at splice i f' l'
  move_at_cong i f f' l l' p q = cc
