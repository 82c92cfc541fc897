-- ===== src/Multicast/Registry.antt =====
-- What the multicast service is to its threads: for each kind of user and each message, a list of
-- threads. The calls of the service keep to that view, and leave no group empty and none twice.
use mathlib.Core.Path.{fun_ext}
use sfptpd.Prelude.{
  ℕ, ◌≡◌, ◌≢◌, refl, sym, ap, ◌∙◌, Bool, true, false, not, ◌&&◌, ◌||◌, Option, none, some, List, [],
  ◌∷◌, ◌==◌, if◌then◌else◌, arith, inl, inr, Bool-cases, ==_iff,
}
use sfptpd.Sorting.{All}
use sfptpd.Multicast.Defs.{
  enoent, enomem, Group, find_group, set_group, remove_group, users_of, with_users, has_user,
  remove_first, is_empty, is_unused, Request,
}
use sfptpd.Multicast.Groups.{
  IsDistinct, find_group-set_self, find_group-set_ne, find_group-remove_self, find_group-remove_ne,
  set_group-IsDistinct, set_group-All, remove_group-All, remove_group-IsDistinct, remove_group-set,
}

-- No group is there twice, and each has a user.
pub record IsRegistry (groups : List Group) : Type 0 where
  pub distinct : IsDistinct groups
  pub in_use : All (λ g. is_unused g ≡ false) groups

-- The threads that publish a message, and those that subscribe to it.
abbrev pub Registry : Type 0
Registry = Bool → ℕ → List ℕ

abbrev pub no_users : Registry
no_users publisher id = []

abbrev pub group_users : Bool → Option Group → List ℕ
group_users publisher none = []
group_users publisher (some g) = users_of g publisher

unfoldable pub users : List Group → Registry
unfolding find_group
users groups publisher id = group_users publisher (find_group id groups)

abbrev same : Bool → Bool → Bool
same true b = b
same false b = not b

abbrev pub replace : Bool → ℕ → List ℕ → Registry → Registry
replace publisher id l registry p m = if same publisher p && (m == id) then l else registry p m

-- A call on the abstract view, and the error that it returns.
abbrev pub apply : Request → Registry → ℕ × Registry
apply (Request.join calloc_user calloc_group thread id publisher) registry =
    if calloc_user
      && (calloc_group || not (is_empty (registry true id) && is_empty (registry false id)))
    then (0, replace publisher id (thread ∷ registry publisher id) registry)
    else (enomem, registry)
apply (Request.leave thread id publisher) registry =
    if has_user thread (registry publisher id)
    then (0, replace publisher id (remove_first thread (registry publisher id)) registry)
    else (enoent, registry)

abbrev pub apply_all : List Request → Registry → List ℕ × Registry
apply_all [] registry = ([], registry)
apply_all (request ∷ requests) registry =
    let out = apply request registry in
    let rest = apply_all requests out.1 in (out.0 ∷ rest.0, rest.1)

-- A group written, or taken out where the write leaves it without users.
abbrev pub settle : ℕ → Group → List Group → List Group
settle id new groups =
    if is_unused new then remove_group id (set_group id new groups) else set_group id new groups

empty_users :
    (subscribers publishers : List ℕ) (p : Bool)
    → (is_empty publishers && is_empty subscribers) ≡ true
    → (if p then publishers else subscribers) ≡ []
empty_users [] [] true h = refl
empty_users [] [] false h = refl
empty_users l (x ∷ k) p h = cc
empty_users (x ∷ l) [] p h = cc

differ : (m id : ℕ) → (m == id) ≡ false → id ≢ m
differ m id h e = ground (arith, h, e)

pub settle-users :
    (id : ℕ) (g new : Group) (groups : List Group)
    → IsDistinct groups
    → find_group id groups ≡ some g
    → new.msg_id ≡ id
    → (p : Bool) (m : ℕ)
    → users (settle id new groups) p m ≡ (if m == id then users_of new p else users groups p m)
unfolding users
settle-users id g new groups d e h p m = elim (Bool-cases (m == id)) [
  | inl k ↦ elim (Bool-cases (is_unused new)) [
    | inl u ↦
        rw
          (
            u,
            k,
            (==_iff m id).0 k,
            remove_group-set id new groups h,
            find_group-remove_self id groups d,
            empty_users new.subscribers new.publishers p u,
          )
          refl
    | inr u ↦ rw (u, k, (==_iff m id).0 k, find_group-set_self id g new groups e h) refl
  ]
  | inr k ↦ elim (Bool-cases (is_unused new)) [
    | inl u ↦
        rw
          (u, k, remove_group-set id new groups h, find_group-remove_ne id m groups (differ m id k))
          refl
    | inr u ↦ rw (u, k, find_group-set_ne id m new groups h (differ m id k)) refl
  ]
]

pub settle-IsRegistry :
    (id : ℕ) (new : Group) (groups : List Group)
    → IsRegistry groups
    → new.msg_id ≡ id
    → IsRegistry (settle id new groups)
settle-IsRegistry id new groups r h = elim (Bool-cases (is_unused new)) [
  | inl u ↦
      rw (u, remove_group-set id new groups h)
        (record {
          distinct = remove_group-IsDistinct id groups r.distinct;
          in_use = remove_group-All _ id groups r.in_use;
        })
  | inr u ↦ rw u (record {
    distinct = set_group-IsDistinct id new groups h r.distinct;
    in_use = set_group-All _ id new groups u r.in_use;
  })
]

pub replace_self :
    (publisher : Bool) (id : ℕ) (l : List ℕ) (g : Group) (registry : Registry) (p : Bool) (m : ℕ)
    → ((q : Bool) → registry q id ≡ users_of g q)
    → (if m == id then users_of (with_users publisher l g) p else registry p m)
      ≡ replace publisher id l registry p m
replace_self publisher id l g registry p m h = elim (Bool-cases (m == id)) [
  | inl k ↦ go publisher p k ((==_iff m id).0 k)
  | inr k ↦ go_ne publisher p k
]
  where
    go :
        (kind p : Bool)
        → (m == id) ≡ true
        → m ≡ id
        → (if m == id then users_of (with_users kind l g) p else registry p m)
          ≡ replace kind id l registry p m
    go true true k e = rw k refl
    go true false k e = rw k (sym (h false) ∙ ap (registry false) (sym e))
    go false true k e = rw k (sym (h true) ∙ ap (registry true) (sym e))
    go false false k e = rw k refl

    go_ne :
        (kind p : Bool)
        → (m == id) ≡ false
        → (if m == id then users_of (with_users kind l g) p else registry p m)
          ≡ replace kind id l registry p m
    go_ne true true k = rw k refl
    go_ne true false k = rw k refl
    go_ne false true k = rw k refl
    go_ne false false k = rw k refl

pub with_users-msg_id :
    (publisher : Bool) (l : List ℕ) (g : Group) → (with_users publisher l g).msg_id ≡ g.msg_id
with_users-msg_id true l g = refl
with_users-msg_id false l g = refl

pub with_users-in_use :
    (publisher : Bool) (thread : ℕ) (l : List ℕ) (g : Group)
    → is_unused (with_users publisher (thread ∷ l) g) ≡ false
with_users-in_use true thread l g = refl
with_users-in_use false thread l (g) = ground arith

pub settle-replace :
    (id : ℕ) (g : Group) (publisher : Bool) (l : List ℕ) (groups : List Group)
    → IsDistinct groups
    → find_group id groups ≡ some g
    → g.msg_id ≡ id
    → users (settle id (with_users publisher l g) groups) ≡ replace publisher id l (users groups)
unfolding users
settle-replace id g publisher l groups d e h = fun_ext (λ p. fun_ext (λ m.
    settle-users id g (with_users publisher l g) groups d e (with_users-msg_id publisher l g ∙ h) p
      m
    ∙ replace_self publisher id l g (users groups) p m (λ q. rw e refl)))

pub users-found :
    (id : ℕ) (o : Option Group) (groups : List Group) (p : Bool)
    → find_group id groups ≡ o
    → users groups p id ≡ group_users p o
unfolding users
users-found id o groups p e = ap (group_users p) e
