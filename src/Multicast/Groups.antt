-- ===== src/Multicast/Groups.antt =====
-- Looking for a group after a write, an insertion or a removal.
use mathlib.Core.Path.{subst}
use sfptpd.Prelude.{
  ℕ, ◌≡◌, ◌≢◌, refl, sym, ◌∙◌, none, some, List, [], ◌∷◌, ◌==◌, arith, inl, inr, Bool-cases, ==_iff,
}
use sfptpd.Sorting.{All, AllPairs}
use sfptpd.Multicast.Defs.{Group, find_group, set_group, remove_group}

pub find_group-set_self :
    (id : ℕ) (g new : Group) (groups : List Group)
    → find_group id groups ≡ some g
    → new.msg_id ≡ id
    → find_group id (set_group id new groups) ≡ some new
unfolding find_group set_group
find_group-set_self id g new [] e h = cc
find_group-set_self id g new (k ∷ groups) e h = ground (arith, find_group-set_self id g new groups)

pub find_group-set_ne :
    (id other : ℕ) (new : Group) (groups : List Group)
    → new.msg_id ≡ id
    → id ≢ other
    → find_group other (set_group id new groups) ≡ find_group other groups
unfolding find_group set_group
find_group-set_ne id other new [] h d = refl
find_group-set_ne id other new (k ∷ groups) h d =
    ground (arith, find_group-set_ne id other new groups h d)

-- The identifiers of the groups differ.
abbrev pub IsDistinct : List Group → Type 0
IsDistinct groups = AllPairs (λ g h. g.msg_id ≢ h.msg_id) groups

pub find_group-All :
    (P : Group → Type 0) (id : ℕ) (g : Group) (groups : List Group)
    → All P groups
    → find_group id groups ≡ some g
    → P g × (g.msg_id ≡ id)
unfolding find_group
find_group-All P id g [] a e = cc
find_group-All P id g (k ∷ groups) a e = elim (Bool-cases (k.msg_id == id)) [
  | inl h ↦
      let same : k ≡ g = ground (arith, e, h) in
      subst (λ m. P m × (m.msg_id ≡ id)) same (a.0, (==_iff k.msg_id id).0 h)
  | inr h ↦ find_group-All P id g groups a.1 (ground (arith, e, h))
]

find_group-absent :
    (id : ℕ) (groups : List Group) → All (λ g. id ≢ g.msg_id) groups → find_group id groups ≡ none
unfolding find_group
find_group-absent id [] a = refl
find_group-absent id (k ∷ groups) a = ground (arith, find_group-absent id groups a.1, a.0)

pub find_group-remove_self :
    (id : ℕ) (groups : List Group)
    → IsDistinct groups
    → find_group id (remove_group id groups) ≡ none
unfolding find_group remove_group
find_group-remove_self id [] d = refl
find_group-remove_self id (k ∷ groups) d = elim (Bool-cases (k.msg_id == id)) [
  | inl h ↦ rw h (
      find_group-absent id groups
        (subst (λ m. All (λ g. m ≢ g.msg_id) groups) ((==_iff k.msg_id id).0 h) d.0))
  | inr h ↦ rw h (rw h (find_group-remove_self id groups d.1))
]

pub find_group-remove_ne :
    (id other : ℕ) (groups : List Group)
    → id ≢ other
    → find_group other (remove_group id groups) ≡ find_group other groups
unfolding find_group remove_group
find_group-remove_ne id other [] d = refl
find_group-remove_ne id other (k ∷ groups) d =
    ground (arith, find_group-remove_ne id other groups d)

pub find_group-none :
    (id : ℕ) (groups : List Group) → find_group id groups ≡ none → All (λ g. id ≢ g.msg_id) groups
unfolding find_group
find_group-none id [] e = tt
find_group-none id (k ∷ groups) e =
    (ground (arith, e), find_group-none id groups (ground (arith, e)))

-- A property of the identifiers survives a write that keeps the identifier.
set_group-All_id :
    (P : ℕ → Type 0) (id : ℕ) (new : Group) (groups : List Group)
    → new.msg_id ≡ id
    → All (λ g. P g.msg_id) groups
    → All (λ g. P g.msg_id) (set_group id new groups)
unfolding set_group
set_group-All_id P id new [] h a = tt
set_group-All_id P id new (k ∷ groups) h a = elim (Bool-cases (k.msg_id == id)) [
  | inl e ↦ rw e (subst P ((==_iff k.msg_id id).0 e ∙ sym h) a.0, a.1)
  | inr e ↦ rw e (a.0, set_group-All_id P id new groups h a.1)
]

pub set_group-IsDistinct :
    (id : ℕ) (new : Group) (groups : List Group)
    → new.msg_id ≡ id
    → IsDistinct groups
    → IsDistinct (set_group id new groups)
unfolding set_group
set_group-IsDistinct id new [] h d = tt
set_group-IsDistinct id new (k ∷ groups) h d = elim (Bool-cases (k.msg_id == id)) [
  | inl e ↦
      rw e (subst (λ m. All (λ g. m ≢ g.msg_id) groups) ((==_iff k.msg_id id).0 e ∙ sym h) d.0, d.1)
  | inr e ↦ rw e (
    set_group-All_id (λ m. k.msg_id ≢ m) id new groups h d.0,
    set_group-IsDistinct id new groups h d.1,
  )
]

pub set_group-All :
    (P : Group → Type 0) (id : ℕ) (new : Group) (groups : List Group)
    → P new
    → All P groups
    → All P (set_group id new groups)
unfolding set_group
set_group-All P id new [] h a = tt
set_group-All P id new (k ∷ groups) h a = elim (Bool-cases (k.msg_id == id)) [
  | inl e ↦ rw e (h, a.1)
  | inr e ↦ rw e (a.0, set_group-All P id new groups h a.1)
]

pub remove_group-All :
    (P : Group → Type 0) (id : ℕ) (groups : List Group)
    → All P groups
    → All P (remove_group id groups)
unfolding remove_group
remove_group-All P id [] a = tt
remove_group-All P id (k ∷ groups) a = elim (Bool-cases (k.msg_id == id)) [
  | inl e ↦ rw e a.1
  | inr e ↦ rw e (a.0, remove_group-All P id groups a.1)
]

pub remove_group-IsDistinct :
    (id : ℕ) (groups : List Group) → IsDistinct groups → IsDistinct (remove_group id groups)
unfolding remove_group
remove_group-IsDistinct id [] d = tt
remove_group-IsDistinct id (k ∷ groups) d = elim (Bool-cases (k.msg_id == id)) [
  | inl e ↦ rw e d.1
  | inr e ↦ rw e (
    remove_group-All (λ g. k.msg_id ≢ g.msg_id) id groups d.0,
    remove_group-IsDistinct id groups d.1,
  )
]

pub remove_group-set :
    (id : ℕ) (new : Group) (groups : List Group)
    → new.msg_id ≡ id
    → remove_group id (set_group id new groups) ≡ remove_group id groups
unfolding set_group remove_group
remove_group-set id new [] h = refl
remove_group-set id new (k ∷ groups) h = ground (arith, h, remove_group-set id new groups h)
