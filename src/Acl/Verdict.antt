-- ===== src/Acl/Verdict.antt =====
-- What `checkACLmask` of ptp/ptpd2/protocol.c answers.
use sfptpd.Prelude.{
  ℕ, suc, ◌≡◌, refl, sym, ap, ◌∙◌, Bool, true, false, not, ◌&&◌, ◌||◌, Option, none, some, List, [],
  ◌∷◌, if◌then◌else◌, ◌>>=◌, ℤ, pos, Bool-cases, Option-cases, inl, inr,
}
use sfptpd.Acl.Defs.{AccessList, match_access_list}
use sfptpd.Acl.Matching.{permits, match_access_list-permits}
use sfptpd.Acl.Check.{
  AccessLists, AclOpts, Checks, get_bit, is_disabled, list_of, put_list, is_zero, note_result,
  check_acl, check_mask_from, check_acl_mask,
}
use sfptpd.Acl.Memory.{
  verdict, all_pass, Remembers, note_result-Remembers, lets_pass, put_list-verdict,
}

module _ (opts : AclOpts) (addr : ℕ) where
  -- The answer and the state after a check whose lists let pass what those of `s` do.
  record Checked (answer : Bool) (s : Checks) (run : Option (Bool × Checks)) : Type 0 where
    after : Checks
    run_eq : run ≡ some (answer, after)
    same : (j : ℕ) → verdict opts after.lists addr j ≡ verdict opts s.lists addr j
    remembers : Remembers (verdict opts s.lists addr) after

  answered : (b : Bool) → not (is_zero (if b then pos 1 else pos 0)) ≡ b
  answered true = refl
  answered false = refl

  check_acl-match :
      (i : ℕ) (s : Checks) (acl acl' : AccessList)
      → is_disabled opts i ≡ false
      → get_bit s.checked i ≡ false
      → list_of s.lists i ≡ some acl
      → match_access_list (some acl) addr ≡ some ((if permits acl addr then pos 1 else pos 0), acl')
      → check_acl opts addr i s
        ≡ some (note_result i (permits acl addr) (record s { lists = put_list s.lists i acl' }))
  unfolding check_acl
  check_acl-match i s acl acl' d n e run = rw n (
      rw d (
        rw e (
          ap
            (λ (o : Option (ℤ × AccessList)). o >>= (λ x.
              some
                (note_result i (not (is_zero x.0)) (record s { lists = put_list s.lists i x.1 }))))
            run
          ∙ ap (λ b. some (note_result i b (record s { lists = put_list s.lists i acl' })))
              (answered (permits acl addr)))))

  check_acl-list :
      (i : ℕ) (s : Checks) (acl : AccessList)
      → Remembers (verdict opts s.lists addr) s
      → is_disabled opts i ≡ false
      → get_bit s.checked i ≡ false
      → list_of s.lists i ≡ some acl
      → Checked (verdict opts s.lists addr i) s (check_acl opts addr i s)
  check_acl-list i s acl m d n e =
      let (acl', run, _, _, keeps) = match_access_list-permits acl addr in
      let v = verdict opts s.lists addr i in
      let v_eq : v ≡ permits acl addr =
        ap (◌||◌ (is_disabled opts i)) (ap (lets_pass addr) e)
        ∙ ap (λ b. b || permits acl addr) d in
      record {
        after = (note_result i v (record s { lists = put_list s.lists i acl' })).1;
        run_eq =
            check_acl-match i s acl acl' d n e run
            ∙ ap (λ b. some (note_result i b (record s { lists = put_list s.lists i acl' })))
                (sym v_eq);
        same = put_list-verdict opts s.lists acl acl' addr i e (keeps addr);
        remembers =
            note_result-Remembers (verdict opts s.lists addr) i
              (record s { lists = put_list s.lists i acl' })
              (record { lengths = m.lengths; passed_eq = m.passed_eq });
      }

  check_acl-verdict :
      (i : ℕ) (s : Checks)
      → Remembers (verdict opts s.lists addr) s
      → Checked (verdict opts s.lists addr i) s (check_acl opts addr i s)
  unfolding check_acl
  check_acl-verdict i s m = elim (Bool-cases (get_bit s.checked i)) [
    | inl e ↦ record {
      after = s;
      run_eq =
          rw e
            (ap (λ b. some (b, s)) (m.passed_eq i ∙ ap (λ b. b && verdict opts s.lists addr i) e));
      same = λ j. refl;
      remembers = m;
    }
    | inr n ↦ elim (Bool-cases (is_disabled opts i)) [
      | inl d ↦
          let v_eq : verdict opts s.lists addr i ≡ true =
            ap (λ b. b || lets_pass addr (list_of s.lists i)) d in
          record {
            after = (note_result i (verdict opts s.lists addr i) s).1;
            run_eq = skipped n d ∙ ap (λ b. some (note_result i b s)) (sym v_eq);
            same = λ j. refl;
            remembers = note_result-Remembers (verdict opts s.lists addr) i s m;
          }
      | inr d ↦ elim (Option-cases (list_of s.lists i)) [
        | inl e ↦
            let v_eq : verdict opts s.lists addr i ≡ false = rw d (rw e refl) in
            record {
              after = s;
              run_eq = unknown n d e ∙ ap (λ b. some (b, s)) (sym v_eq);
              same = λ j. refl;
              remembers = m;
            }
        | inr (acl, e) ↦ check_acl-list i s acl m d n e
      ]
    ]
  ]
    where
      skipped :
          get_bit s.checked i ≡ false
          → is_disabled opts i ≡ true
          → check_acl opts addr i s ≡ some (note_result i true s)
      skipped n d = rw n (rw d refl)

      unknown :
          get_bit s.checked i ≡ false
          → is_disabled opts i ≡ false
          → list_of s.lists i ≡ none
          → check_acl opts addr i s ≡ some (false, s)
      unknown n d e = rw n (rw d (rw e refl))

  all_pass-same :
      (lists lists' : AccessLists) (i : ℕ) (mask : List Bool)
      → ((j : ℕ) → verdict opts lists' addr j ≡ verdict opts lists addr j)
      → all_pass opts lists' addr i mask ≡ all_pass opts lists addr i mask
  all_pass-same lists lists' i [] e = refl
  all_pass-same lists lists' i (b ∷ mask) e =
      rw (e i) (rw (all_pass-same lists lists' (suc i) mask e) refl)

  Remembers-same :
      (v v' : ℕ → Bool) (s : Checks) → ((j : ℕ) → v' j ≡ v j) → Remembers v s → Remembers v' s
  Remembers-same v v' s e m = record {
    lengths = m.lengths;
    passed_eq = λ i. m.passed_eq i ∙ ap (◌&&◌ (get_bit s.checked i)) (sym (e i));
  }

  check_mask_from-all_pass :
      (i : ℕ) (mask : List Bool) (s : Checks)
      → Remembers (verdict opts s.lists addr) s
      → Checked (all_pass opts s.lists addr i mask) s (check_mask_from opts addr i mask s)
  unfolding check_mask_from
  check_mask_from-all_pass i [] s m = record {
    after = s;
    run_eq = refl;
    same = λ j. refl;
    remembers = m;
  }
  check_mask_from-all_pass i (false ∷ mask) s m = check_mask_from-all_pass (suc i) mask s m
  check_mask_from-all_pass i (true ∷ mask) s m =
      let one = check_acl-verdict i s m in
      let v = verdict opts s.lists addr in
      elim (Bool-cases (v i)) [
        | inr n ↦ record {
          after = one.after;
          run_eq = rw one.run_eq (rw n refl);
          same = one.same;
          remembers = one.remembers;
        }
        | inl y ↦
            let rest = check_mask_from-all_pass (suc i) mask one.after (
              Remembers-same v (verdict opts one.after.lists addr) one.after one.same
                one.remembers) in
            record {
              after = rest.after;
              run_eq = rw one.run_eq (
                  rw y (
                    rest.run_eq
                    ∙ ap (λ b. some (b, rest.after))
                        (all_pass-same s.lists one.after.lists (suc i) mask one.same)));
              same = λ j. rest.same j ∙ one.same j;
              remembers =
                  Remembers-same (verdict opts one.after.lists addr) v rest.after
                    (λ j. sym (one.same j)) rest.remembers;
            }
      ]

  -- Where the two bitmaps have as many bits as each other and agree with the verdicts of the lists
  -- on an address, checkACLmask succeeds; it answers whether every list of the mask lets the
  -- address pass, where a list that is not enabled lets every address pass and a type without a
  -- list none. The bitmaps agree with the verdicts afterwards, and the verdicts are as they were.
  pub check_acl_mask-all_pass :
      (mask : List Bool) (s : Checks)
      → Remembers (verdict opts s.lists addr) s
      → (s' : Checks) × (check_acl_mask opts addr mask s
          ≡ some (all_pass opts s.lists addr 0 mask, s'))
        × Remembers (verdict opts s.lists addr) s'
        × ((j : ℕ) → verdict opts s'.lists addr j ≡ verdict opts s.lists addr j)
  unfolding check_acl_mask
  check_acl_mask-all_pass mask s m =
      let c = check_mask_from-all_pass 0 mask s m in (c.after, c.run_eq, c.remembers, c.same)
