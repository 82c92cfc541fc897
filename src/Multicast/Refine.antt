-- ===== src/Multicast/Refine.antt =====
-- The calls of the multicast service do what they do on the abstract view of its groups.
use mathlib.Core.Path.{ap₂, fun_ext, subst}
use sfptpd.Prelude.{
  ℕ, ◌≡◌, ◌≢◌, refl, sym, ap, ◌∙◌, Bool, true, false, ◌||◌, none, some, List, [], ◌∷◌, ◌==◌,
  if◌then◌else◌, arith, inl, inr, Bool-cases, Option-cases, ==_iff,
}
use sfptpd.Sorting.{All}
use sfptpd.Multicast.Defs.{
  enoent, enomem, Group, find_group, users_of, with_users, has_user, remove_first, is_unused,
  add_user, remove_user, Request, handle, run,
}
use sfptpd.Multicast.Groups.{find_group-All, find_group-none}
use sfptpd.Multicast.Registry.{
  IsRegistry, Registry, no_users, users, replace, apply, apply_all, settle, settle-users,
  settle-IsRegistry, replace_self, with_users-msg_id, with_users-in_use, settle-replace,
  users-found,
}

-- The outcome of a call is that of the abstract view.
abbrev Implements : ℕ × List Group → ℕ × Registry → Type 0
Implements out spec = IsRegistry out.1 × (out.0 ≡ spec.0) × (users out.1 ≡ spec.1)

implements :
    (out out' : ℕ × List Group) (spec spec' : ℕ × Registry)
    → out ≡ out'
    → spec ≡ spec'
    → Implements out' spec'
    → Implements out spec
implements out out' spec spec' e f h =
    subst (λ o. Implements o spec) (sym e) (subst (Implements out') (sym f) h)

unchanged :
    (id : ℕ) (g : Group) (groups : List Group) (p : Bool) (m : ℕ)
    → find_group id groups ≡ some g
    → (if m == id then users_of g p else users groups p m) ≡ users groups p m
unchanged id g groups p m e = elim (Bool-cases (m == id)) [
  | inl k ↦ rw (k, (==_iff m id).0 k) (sym (users-found id (some g) groups p e))
  | inr k ↦ rw k refl
]

cons-users :
    (id : ℕ) (new : Group) (groups : List Group) (p : Bool) (m : ℕ)
    → new.msg_id ≡ id
    → users (new ∷ groups) p m ≡ (if m == id then users_of new p else users groups p m)
unfolding users find_group
cons-users id new groups p m h = ground (arith, h)

-- A join of a group that is there.
join_known :
    (calloc_group : Bool) (thread id : ℕ) (publisher : Bool) (groups : List Group) (g : Group)
    → IsRegistry groups
    → find_group id groups ≡ some g
    → (g.msg_id ≡ id)
    → is_unused g ≡ false
    → Implements
        (add_user true calloc_group thread id publisher groups)
        (apply (Request.join true calloc_group thread id publisher) (users groups))
unfolding add_user
join_known calloc_group thread id publisher groups g r e h u =
    let new = with_users publisher (thread ∷ users_of g publisher) g in
    implements _ (0, settle id new groups) _
      (0, replace publisher id (thread ∷ users_of g publisher) (users groups))
      (rw (e, with_users-in_use publisher thread (users_of g publisher) g) refl)
      (rw
        (
          users-found id (some g) groups true e,
          users-found id (some g) groups false e,
          users-found id (some g) groups publisher e,
          u,
        )
        (granted calloc_group _ _))
      (
        settle-IsRegistry id new groups r (with_users-msg_id publisher _ g ∙ h),
        refl,
        settle-replace id g publisher (thread ∷ users_of g publisher) groups r.distinct e h,
      )
  where
    granted : (b : Bool) (x y : ℕ × Registry) → (if b || true then x else y) ≡ x
    granted true x y = refl
    granted false x y = refl

no_users_of : (q : Bool) → (if◌then◌else◌ {A = List ℕ} q [] []) ≡ []
no_users_of true = refl
no_users_of false = refl

-- A join that makes a group.
join_new :
    (calloc_group : Bool) (thread id : ℕ) (publisher : Bool) (groups : List Group)
    → IsRegistry groups
    → find_group id groups ≡ none
    → Implements
        (add_user true calloc_group thread id publisher groups)
        (apply (Request.join true calloc_group thread id publisher) (users groups))
unfolding add_user
join_new false thread id publisher groups r e =
    implements _ (enomem, groups) _ (enomem, users groups) (rw e refl)
      (rw (users-found id none groups true e, users-found id none groups false e) refl)
      (r, refl, refl)
join_new true thread id publisher groups r e =
    let empty : Group = record { msg_id = id; subscribers = []; publishers = [] } in
    let new = with_users publisher (thread ∷ []) empty in
    implements _ (0, new ∷ groups) _ (0, replace publisher id (thread ∷ []) (users groups))
      (rw e refl) (rw (users-found id none groups publisher e) refl)
      (
        record {
          distinct = (
            subst (λ m. All (λ h. m ≢ h.msg_id) groups)
                (sym (with_users-msg_id publisher (thread ∷ []) empty))
                (find_group-none id groups e),
            r.distinct,
          );
          in_use = (with_users-in_use publisher thread [] empty, r.in_use);
        },
        refl,
        fun_ext (λ p. fun_ext (λ m.
            cons-users id new groups p m (with_users-msg_id publisher (thread ∷ []) empty)
            ∙ replace_self publisher id (thread ∷ []) empty (users groups) p m
                (λ q. users-found id none groups q e ∙ sym (no_users_of q)))),
      )

leave_known :
    (thread id : ℕ) (publisher : Bool) (groups : List Group) (g : Group)
    → IsRegistry groups
    → find_group id groups ≡ some g
    → (g.msg_id ≡ id)
    → Implements
        (remove_user thread id publisher groups)
        (apply (Request.leave thread id publisher) (users groups))
unfolding remove_user
leave_known thread id publisher groups g r e h =
    elim (Bool-cases (has_user thread (users_of g publisher))) [
      | inl k ↦
          let left = remove_first thread (users_of g publisher) in
          implements _ (0, settle id (with_users publisher left g) groups) _
            (0, replace publisher id left (users groups)) (rw (remove_user, e, k) refl)
            (rw (users-found id (some g) groups publisher e, k) refl)
            (
              settle-IsRegistry id (with_users publisher left g) groups r
                  (with_users-msg_id publisher left g ∙ h),
              refl,
              settle-replace id g publisher left groups r.distinct e h,
            )
      | inr k ↦
          implements _ (enoent, settle id g groups) _ (enoent, users groups)
            (rw (remove_user, e, k) refl) (rw (users-found id (some g) groups publisher e, k) refl)
            (
              settle-IsRegistry id g groups r h,
              refl,
              fun_ext (λ p. fun_ext (λ m.
                  settle-users id g g groups r.distinct e h p m ∙ unchanged id g groups p m e)),
            )
    ]

leave_unknown :
    (thread id : ℕ) (publisher : Bool) (groups : List Group)
    → IsRegistry groups
    → find_group id groups ≡ none
    → Implements
        (remove_user thread id publisher groups)
        (apply (Request.leave thread id publisher) (users groups))
unfolding remove_user
leave_unknown thread id publisher groups r e =
    implements _ (enoent, groups) _ (enoent, users groups) (rw (remove_user, e) refl)
      (rw (users-found id none groups publisher e) refl) (r, refl, refl)

-- A call on well-formed groups returns the error of the abstract view, leaves the groups well formed
-- and their users those of the abstract view.
handle_lem :
    (request : Request) (groups : List Group)
    → IsRegistry groups
    → Implements (handle request groups) (apply request (users groups))
unfolding handle add_user
handle_lem (Request.join false calloc_group thread id publisher) groups r = (r, refl, refl)
handle_lem (Request.join true calloc_group thread id publisher) groups r =
    elim (Option-cases (find_group id groups)) [
      | inl e ↦ join_new calloc_group thread id publisher groups r e
      | inr p ↦
          let found = find_group-All (λ g. is_unused g ≡ false) id p.0 groups r.in_use p.1 in
          join_known calloc_group thread id publisher groups p.0 r p.1 found.1 found.0
    ]
handle_lem (Request.leave thread id publisher) groups r =
    elim (Option-cases (find_group id groups)) [
      | inl e ↦ leave_unknown thread id publisher groups r e
      | inr p ↦
          let found = find_group-All (λ g. is_unused g ≡ false) id p.0 groups r.in_use p.1 in
          leave_known thread id publisher groups p.0 r p.1 found.1
    ]

run_from :
    (requests : List Request) (groups : List Group)
    → IsRegistry groups
    → IsRegistry (run requests groups).1
      × ((run requests groups).0 ≡ (apply_all requests (users groups)).0)
      × (users (run requests groups).1 ≡ (apply_all requests (users groups)).1)
unfolding run
run_from [] groups r = (r, refl, refl)
run_from (request ∷ requests) groups r =
    let (r', e, u) = handle_lem request groups r in
    let (r'', f, w) = run_from requests (handle request groups).1 r' in
    (
      r'',
      ap₂ (λ a l. a ∷ l) e (f ∙ ap (λ v. (apply_all requests v).0) u),
      w ∙ ap (λ v. (apply_all requests v).1) u,
    )

-- From no groups on, the calls of the service return the errors of the abstract view, which has for
-- each message and each kind of user a list of threads, and its users are those of that view; no
-- group is there twice or without users.
pub run-apply_all :
    (requests : List Request)
    → IsRegistry (run requests []).1
      × ((run requests []).0 ≡ (apply_all requests no_users).0)
      × (users (run requests []).1 ≡ (apply_all requests no_users).1)
unfolding users find_group
run-apply_all requests = run_from requests [] (record { distinct = tt; in_use = tt })
