-- ===== src/Groups/Invariant/Rows.antt =====
-- How one written row bears on each part of the invariant.
use academia_backend_api.Base.{
  ℕ, ◌+◌, ◌≤◌, true, false, some, List, [], ◌∷◌, ◌≡◌, sym, refl, arith, ◌==◌, leb, find, count,
  update, All, All-zip, All-update, find_unique, find-condition, subst, ◌∙◌, ==→eq, Bool-cases, inl,
  inr,
}
use mathlib.Core.Bool.{false≢true}
use academia_backend_api.Groups.Schema.{
  ProjectGroup, GroupStatus, GroupMember, SizeSetting, is_draft,
}
use academia_backend_api.Groups.Queries.{
  department_min_group_size, department_max_group_size, has_id, is_in_group,
}
use academia_backend_api.Groups.Invariant.{
  SizeOk, size_of, is_settled, is_draft_group, is_member, is_group, Placed,
}

abbrev pub row : ℕ → ℕ → GroupMember
row group_id user_id = record { project_group_id = group_id; user_id = user_id }

-- A new member of a draft group with room.
SizeOk-cons :
    (settings : List SizeSetting) (members : List GroupMember) (g : ProjectGroup)
    (group_id user_id : ℕ)
    → has_id group_id g ≡ true
    → is_draft g.status ≡ true
    → leb
        (department_max_group_size settings g.department_id)
        (1 + count (is_in_group g.id) members)
      ≡ false
    → (y : ProjectGroup) → SizeOk settings members y
    → (has_id group_id y ≡ true → y ≡ g)
    → SizeOk settings (row group_id user_id ∷ members) y
unfolding count
SizeOk-cons settings members g group_id user_id same d room y h u = ground arith

pub sizes-add_member :
    (settings : List SizeSetting) (members : List GroupMember) (groups : List ProjectGroup)
    (group_id user_id : ℕ) (g : ProjectGroup)
    → count (has_id group_id) groups ≤ 1
    → find (has_id group_id) groups ≡ some g
    → is_draft g.status ≡ true
    → leb
        (department_max_group_size settings g.department_id)
        (1 + count (is_in_group g.id) members)
      ≡ false
    → All (SizeOk settings members) groups
    → All (SizeOk settings (row group_id user_id ∷ members)) groups
sizes-add_member settings members groups group_id user_id g unique found d room h =
    All-zip _ _ _
      (SizeOk-cons settings members g group_id user_id (find-condition _ groups found) d room)
      groups h (find_unique _ groups unique found)

-- A group that becomes settled has been measured.
SizeOk-settled :
    (settings : List SizeSetting) (members : List GroupMember) (g y : ProjectGroup)
    → department_min_group_size settings g.department_id ≤ size_of members g
    → size_of members g ≤ department_max_group_size settings g.department_id
    → y ≡ g
    → (status : GroupStatus) → SizeOk settings members (record y { status = status })
SizeOk-settled settings members g y least most e status = ground arith

-- `f` changes the status only, as far as sizes go.
pub sizes-settle :
    (settings : List SizeSetting) (members : List GroupMember) (groups : List ProjectGroup)
    (g : ProjectGroup) (f : ProjectGroup → ProjectGroup)
    → ((y : ProjectGroup) → ((f y).id ≡ y.id) × ((f y).department_id ≡ y.department_id))
    → count (has_id g.id) groups ≤ 1
    → find (has_id g.id) groups ≡ some g
    → department_min_group_size settings g.department_id ≤ size_of members g
    → size_of members g ≤ department_max_group_size settings g.department_id
    → All (SizeOk settings members) groups
    → All (SizeOk settings members) (update (has_id g.id) f groups)
sizes-settle settings members groups g f keeps unique found least most h =
    All-update (λ y. SizeOk settings members y × (has_id g.id y ≡ true → y ≡ g))
      (SizeOk settings members) _ f (λ y k t. ground (arith, keeps y)) (λ y k t. k.0) groups
      (All-zip _ _ _ (λ y a b. (a, b)) groups h (find_unique _ groups unique found))

-- A group that is no longer settled needs no measuring.
pub sizes-unsettle :
    (settings : List SizeSetting) (members : List GroupMember) (groups : List ProjectGroup) (id : ℕ)
    (f : ProjectGroup → ProjectGroup)
    → ((y : ProjectGroup)
        → ((f y).id ≡ y.id)
          × ((f y).department_id ≡ y.department_id)
          × (is_settled (f y).status ≡ false))
    → All (SizeOk settings members) groups
    → All (SizeOk settings members) (update (has_id id) f groups)
sizes-unsettle settings members groups id f keeps =
    All-update (SizeOk settings members) (SizeOk settings members) _ f
      (λ y k t. ground (arith, keeps y)) (λ y k t. k) groups

-- Which groups are drafts after an update.
pub is_draft_group-update_ne :
    (groups : List ProjectGroup) (f : ProjectGroup → ProjectGroup)
    → ((y : ProjectGroup) → (f y).id ≡ y.id)
    → (id j : ℕ) → (j == id) ≡ false
    → is_draft_group (update (has_id id) f groups) j ≡ is_draft_group groups j
unfolding is_draft_group find update
is_draft_group-update_ne [] f keeps id j h = refl
is_draft_group-update_ne (y ∷ ys) f keeps id j h =
    ground (arith, keeps y, is_draft_group-update_ne ys f keeps id j h)

pub is_draft_group-update_draft :
    (groups : List ProjectGroup) (f : ProjectGroup → ProjectGroup)
    → ((y : ProjectGroup) → ((f y).id ≡ y.id) × (is_draft (f y).status ≡ true))
    → (id j : ℕ) → is_draft_group groups j ≡ true
    → is_draft_group (update (has_id id) f groups) j ≡ true
unfolding is_draft_group find update
is_draft_group-update_draft [] f keeps id j h = cc
is_draft_group-update_draft (y ∷ ys) f keeps id j h =
    ground (arith, keeps y, is_draft_group-update_draft ys f keeps id j)

pub is_member-cons :
    (members : List GroupMember) (m : GroupMember) (group_id user_id : ℕ)
    → is_member members group_id user_id ≡ true
    → is_member (m ∷ members) group_id user_id ≡ true
unfolding is_member find
is_member-cons members m group_id user_id h = ground arith

pub is_member-row :
    (members : List GroupMember) (group_id user_id : ℕ)
    → is_member (row group_id user_id ∷ members) group_id user_id ≡ true
unfolding is_member find
is_member-row members group_id user_id = ground arith

-- No group disappears.
pub is_group-update :
    (groups : List ProjectGroup) (f : ProjectGroup → ProjectGroup)
    → ((y : ProjectGroup) → (f y).id ≡ y.id)
    → (id j : ℕ) → is_group (update (has_id id) f groups) j ≡ is_group groups j
unfolding is_group find update
is_group-update [] f keeps id j = refl
is_group-update (y ∷ ys) f keeps id j = ground (arith, keeps y, is_group-update ys f keeps id j)

pub is_group-cons :
    (g : ProjectGroup) (groups : List ProjectGroup) (j : ℕ)
    → is_group groups j ≡ true
    → is_group (g ∷ groups) j ≡ true
unfolding is_group find
is_group-cons g groups j h = ground arith

-- A group that does not exist has no members.
pub count_members_of_none :
    (groups : List ProjectGroup) (members : List GroupMember) (id : ℕ)
    → is_group groups id ≡ false
    → All (Placed groups) members
    → count (is_in_group id) members ≡ 0
unfolding count
count_members_of_none groups [] id h k = refl
count_members_of_none groups (m ∷ ms) id h (placed, k) = elim (Bool-cases (is_in_group id m)) [
  | inl t ↦
      let there : is_group groups id ≡ true =
        subst (λ j. is_group groups j ≡ true) (==→eq m.project_group_id id t) placed in
      absurd (false≢true (sym h ∙ there))
  | inr t ↦ rw t (count_members_of_none groups ms id h k)
]

pub is_draft_group-cons :
    (g : ProjectGroup) (groups : List ProjectGroup) (j : ℕ)
    → is_draft g.status ≡ true
    → is_draft_group groups j ≡ true
    → is_draft_group (g ∷ groups) j ≡ true
unfolding is_draft_group find
is_draft_group-cons g groups j d h = ground arith
