-- ===== src/Multicast/Defs.antt =====
-- sfptpd_multicast.c: the groups, and how threads join and leave them. A thread is its address, a
-- list of users the list of their threads, and an error its number. Whether `calloc` gives memory is
-- an argument.
use sfptpd.Prelude.{
  ℕ, Bool, true, false, not, ◌&&◌, Option, none, some, List, [], ◌∷◌, ◌==◌, if◌then◌else◌,
}

abbrev pub enoent : ℕ
enoent = 2

abbrev pub enomem : ℕ
enomem = 12

abbrev pub econnrefused : ℕ
econnrefused = 111

-- `struct multicast_group`.
pub record Group : Type 0 where
  pub msg_id : ℕ
  pub subscribers : List ℕ
  pub publishers : List ℕ

-- The loops that look for the group of a message.
unfoldable pub find_group : ℕ → List Group → Option Group
find_group id [] = none
find_group id (g ∷ groups) =
    let rest = find_group id groups in if g.msg_id == id then some g else rest

-- A write through the pointer to the group of a message.
unfoldable pub set_group : ℕ → Group → List Group → List Group
set_group id new [] = []
set_group id new (g ∷ groups) =
    let rest = set_group id new groups in if g.msg_id == id then new ∷ groups else g ∷ rest

-- SLIST_REMOVE of the group of a message.
unfoldable pub remove_group : ℕ → List Group → List Group
remove_group id [] = []
remove_group id (g ∷ groups) =
    let rest = remove_group id groups in if g.msg_id == id then groups else g ∷ rest

-- `publisher ? &group->publishers : &group->subscribers`, to read and to write.
abbrev pub users_of : Group → Bool → List ℕ
users_of g publisher = if publisher then g.publishers else g.subscribers

abbrev pub with_users : Bool → List ℕ → Group → Group
with_users true users g = record g { publishers = users }
with_users false users g = record g { subscribers = users }

-- `multicast_add_user`.
unfoldable pub add_user : Bool → Bool → ℕ → ℕ → Bool → List Group → ℕ × List Group
unfolding find_group set_group
add_user calloc_user calloc_group thread id publisher groups =
    if not calloc_user then (enomem, groups) else elim (find_group id groups) [
      | none ↦ if not calloc_group then (enomem, groups) else (
        0,
        with_users publisher (thread ∷ [])
              (record { msg_id = id; subscribers = []; publishers = [] })
            ∷ groups,
      )
      | some g ↦ (0, set_group id (with_users publisher (thread ∷ users_of g publisher) g) groups)
    ]

-- The loop that looks for the user of a thread.
abbrev pub has_user : ℕ → List ℕ → Bool
has_user thread [] = false
has_user thread (user ∷ users) = if user == thread then true else has_user thread users

-- SLIST_REMOVE of the user of a thread.
abbrev pub remove_first : ℕ → List ℕ → List ℕ
remove_first thread [] = []
remove_first thread (user ∷ users) =
    if user == thread then users else user ∷ remove_first thread users

-- SLIST_EMPTY.
abbrev pub is_empty : List ℕ → Bool
is_empty [] = true
is_empty (user ∷ users) = false

abbrev pub is_unused : Group → Bool
is_unused g = is_empty g.publishers && is_empty g.subscribers

-- `multicast_remove_user`.
unfoldable pub remove_user : ℕ → ℕ → Bool → List Group → ℕ × List Group
unfolding find_group set_group remove_group
remove_user thread id publisher groups = elim (find_group id groups) [
  | none ↦ (enoent, groups)
  | some g ↦
      let found = has_user thread (users_of g publisher) in
      let rc = if found then 0 else enoent in
      let left = remove_first thread (users_of g publisher) in
      let g' = if found then with_users publisher left g else g in
      let groups' = set_group id g' groups in
      (rc, if is_unused g' then remove_group id groups' else groups')
]

-- A call of the service: `sfptpd_multicast_subscribe` and `sfptpd_multicast_publish` join a group,
-- `sfptpd_multicast_unsubscribe` and `sfptpd_multicast_unpublish` leave it.
pub data Request : Type 0 where
  join : (calloc_user calloc_group : Bool) (thread msg_id : ℕ) (publisher : Bool) → Request
  leave : (thread msg_id : ℕ) (publisher : Bool) → Request

unfoldable pub handle : Request → List Group → ℕ × List Group
unfolding add_user remove_user
handle (Request.join calloc_user calloc_group thread id publisher) groups =
    add_user calloc_user calloc_group thread id publisher groups
handle (Request.leave thread id publisher) groups = remove_user thread id publisher groups

-- Some calls one after the other: the errors that they return, and the groups after them.
-- `sfptpd_multicast_init` starts with no groups.
unfoldable pub run : List Request → List Group → List ℕ × List Group
unfolding handle
run [] groups = ([], groups)
run (request ∷ requests) groups =
    let out = handle request groups in let rest = run requests out.1 in (out.0 ∷ rest.0, rest.1)
