-- ===== src/Engine/Control.antt =====
-- No two sync instances steer the clock at once.
use sfptpd.Prelude.{
  ℕ, ◌<◌, ◌≡◌, ◌≢◌, ◌⊎◌, refl, sym, ap, ◌∙◌, Bool, true, false, not, Option, none, some, ◌==◌,
  if◌then◌else◌, length, get_elem?_in, arith, inl, inr, Bool-cases, Option-cases, ==_iff,
}
use sfptpd.Bic.Defs.{Floats}
use sfptpd.Engine.Defs.{Engine, control, start_instance, select_sync_instance}

module _ (F : Floats) where
  -- Only the selected instance has been told to steer the clock.
  abbrev pub IsExclusive : Engine F → Type 0
  IsExclusive e = (i : ℕ) → e.controls i ≡ true → e.selected ≡ some i

  -- No instance has.
  abbrev IsIdle : Engine F → Type 0
  IsIdle e = (i : ℕ) → e.controls i ≡ false

  -- What a selection leaves: the new instance selected, with control of the clock where the sync module
  -- says so, or the old one where its module refuses to let go.
  abbrev pub Selects : ℕ × ℕ → ℕ → Engine F → ℕ × Engine F → Type 0
  Selects rcs new e out =
      IsExclusive out.1
      × (out.1.sync_instances ≡ e.sync_instances)
      × (((out.0 ≡ 0)
            × (out.1.selected ≡ some new)
            × ((e.selected ≡ some new) ⊎ (out.1.controls new ≡ true)))
          ⊎ ((out.0 ≡ rcs.1) × (out.0 ≢ 0) × (out.1.selected ≡ some new) × IsIdle out.1)
          ⊎ ((out.0 ≡ rcs.0) × (out.0 ≢ 0) × (out.1.selected ≡ e.selected)))

  zero_of : (rc : ℕ) → (rc == 0) ≡ false → rc ≢ 0
  zero_of rc h e = ground (arith, h, e)

  self_test : (n : ℕ) → (n == n) ≡ true
  self_test n = ground arith

  switched : (b x : Bool) → (if b then true else x) ≡ true → x ≡ false → b ≡ true
  switched true x h k = refl
  switched false x h k = cc

  IsIdle-none : (e : Engine F) → IsExclusive e → e.selected ≡ none → IsIdle e
  IsIdle-none e ex n i = elim (Bool-cases (e.controls i)) [ inl h ↦ cc (ex i h) | inr h ↦ h ]

  -- Once the selected instance gave it up, no instance has control.
  IsIdle-after :
      (e : Engine F) (old : ℕ)
      → IsExclusive e
      → e.selected ≡ some old
      → IsIdle (control F old false e)
  IsIdle-after e old ex o i = elim (Bool-cases (i == old)) [
    | inl h ↦ rw h refl
    | inr h ↦ rw h (elim (Bool-cases (e.controls i)) [
      | inl k ↦ absurd (apart h (ap (λ x. elim x [ none ↦ 0 | some j ↦ j ]) (sym (ex i k) ∙ o)))
      | inr k ↦ k
    ])
  ]
    where
      apart : (i == old) ≡ false → i ≢ old
      apart h e = ground (arith, h, e)

  start_instance_lem :
      (rcs : ℕ × ℕ) (new : ℕ) (e : Engine F)
      → new < length e.sync_instances
      → IsIdle e
      → (out : ℕ × Engine F) × (start_instance F rcs.1 new e ≡ some out) × Selects rcs new e out
  unfolding start_instance
  start_instance_lem rcs new e lt idle =
      let (r, g) = get_elem?_in e.sync_instances new lt in
      elim (Bool-cases (rcs.1 == 0)) [
        | inl z ↦ (
          (
            0,
            record (control F new true e) {
              selected = some new;
              lrc = if r.clock == e.lrc then e.lrc else r.clock;
            },
          ),
          rw (g, z) refl,
          (
            λ i c. ap some (sym ((==_iff i new).0 (switched (i == new) (e.controls i) c (idle i)))),
            refl,
            inl (refl, refl, inr (rw (self_test new) refl)),
          ),
        )
        | inr z ↦ (
          (rcs.1, record e { selected = some new }),
          rw (g, z) refl,
          (λ i c. cc (idle i), refl, inr (inl (refl, zero_of rcs.1 z, refl, idle))),
        )
      ]

  select_sync_instance-eq :
      (rcs : ℕ × ℕ) (new : ℕ) (e : Engine F) (o : Option ℕ)
      → e.selected ≡ o
      → select_sync_instance F rcs new e ≡ elim o [
        | none ↦ start_instance F rcs.1 new e
        | some old ↦
            if old == new
            then some (0, e)
            else if not (rcs.0 == 0)
            then some (rcs.0, e)
            else start_instance F rcs.1 new (control F old false e)
      ]
  unfolding select_sync_instance
  select_sync_instance-eq rcs new e o h =
      ap
        (λ q. elim q as (λ x. Option (ℕ × Engine F)) [
          | none ↦ start_instance F rcs.1 new e
          | some old ↦
              if old == new
              then some (0, e)
              else if not (rcs.0 == 0)
              then some (rcs.0, e)
              else start_instance F rcs.1 new (control F old false e)
        ])
        h

  -- A selection of an instance of the array succeeds, whatever the sync modules answer, and leaves the
  -- clock to the selected instance alone: that is the new one, with control of the clock unless it was
  -- selected before; the new one without control where its module refuses; or the old one where that
  -- one's module refuses to give it up. Before it, no instance but the selected one has control.
  pub select_sync_instance-IsExclusive :
      (rcs : ℕ × ℕ) (new : ℕ) (e : Engine F)
      → new < length e.sync_instances
      → IsExclusive e
      → (out : ℕ × Engine F) × (select_sync_instance F rcs new e ≡ some out) × Selects rcs new e out
  select_sync_instance-IsExclusive rcs new e lt ex = elim (Option-cases e.selected) [
    | inl n ↦
        let (out, f, w) = start_instance_lem rcs new e lt (IsIdle-none e ex n) in
        (out, select_sync_instance-eq rcs new e none n ∙ f, w)
    | inr p ↦ elim (Bool-cases (p.0 == new)) [
      | inl same ↦
          let at : p.0 ≡ new = (==_iff p.0 new).0 same in
          (
            (0, e),
            select_sync_instance-eq rcs new e (some p.0) p.1 ∙ rw (same) refl,
            (ex, refl, inl (refl, p.1 ∙ ap some at, inl (p.1 ∙ ap some at))),
          )
      | inr other ↦ elim (Bool-cases (rcs.0 == 0)) [
        | inl z ↦
            let (out, f, w) =
              start_instance_lem rcs new (control F p.0 false e) lt (IsIdle-after e p.0 ex p.1) in
            (out, select_sync_instance-eq rcs new e (some p.0) p.1 ∙ rw (other, z) f, w)
        | inr z ↦ (
          (rcs.0, e),
          select_sync_instance-eq rcs new e (some p.0) p.1 ∙ rw (other, z) refl,
          (ex, refl, inr (inr (refl, zero_of rcs.0 z, refl))),
        )
      ]
    ]
  ]
