-- ===== src/Groups/Lifecycle/Rows.antt =====
-- How one write moves the groups along the diagram.
use academia_backend_api.Base.{
  ℕ, true, false, some, List, ◌∷◌, ◌≡◌, refl, sym, subst, arith, inl, inr, ◌==◌, if◌then◌else◌,
  find, exists, update, find-condition, find-update, Bool-cases, ==→eq,
}
use academia_backend_api.Groups.Schema.{ProjectGroup, GroupMember, is_draft}
use academia_backend_api.Groups.Queries.{has_id}
use academia_backend_api.Groups.Invariant.{is_member}
use academia_backend_api.Groups.Invariant.Rows.{row}
use academia_backend_api.Groups.Lifecycle.{◌⟶◌, stay, Evolves}

pub Evolves-refl :
    (groups : List ProjectGroup) (members : List GroupMember)
    → Evolves groups members groups members
Evolves-refl groups members = record {
  moves = λ id g found. record {
    g' = g;
    found = found;
    edge = stay;
    same_leader = refl;
    same_department = refl;
  };
  frozen = λ id g found draft user_id. refl;
}

-- A student joins a draft group.
pub Evolves-join :
    (groups : List ProjectGroup) (members : List GroupMember) (group_id user_id : ℕ)
    (g : ProjectGroup)
    → find (has_id group_id) groups ≡ some g
    → is_draft g.status ≡ true
    → Evolves groups members groups (row group_id user_id ∷ members)
unfolding is_member find
Evolves-join groups members group_id user_id g found draft = record {
  moves = (Evolves-refl groups members).moves;
  frozen = λ id h other closed u. elim (Bool-cases (group_id == id)) [
    | inl t ↦
        let same : find (has_id id) groups ≡ some g =
          subst (λ j. find (has_id j) groups ≡ some g) (==→eq group_id id t) found in
        absurd (cc same)
    | inr t ↦ ground arith
  ];
}

same_row :
    (groups : List ProjectGroup) (id : ℕ) (g h : ProjectGroup)
    → find (has_id g.id) groups ≡ some g
    → find (has_id id) groups ≡ some h
    → has_id g.id h ≡ true
    → h ≡ g
same_row groups id g h here found t =
    let e : id ≡ g.id = ground (arith, find-condition (has_id id) groups found) in
    let there : find (has_id g.id) groups ≡ some h =
      subst (λ j. find (has_id j) groups ≡ some h) e found in
    cc

-- One group is rewritten along an edge.
pub Evolves-update :
    (groups : List ProjectGroup) (members : List GroupMember) (g : ProjectGroup)
    (f : ProjectGroup → ProjectGroup)
    → ((y : ProjectGroup)
        → ((f y).id ≡ y.id)
          × ((f y).leader_user_id ≡ y.leader_user_id)
          × ((f y).department_id ≡ y.department_id))
    → find (has_id g.id) groups ≡ some g
    → g.status ⟶ (f g).status
    → Evolves groups members (update (has_id g.id) f groups) members
Evolves-update groups members g f keeps here edge = record {
  moves = λ id h found.
      let found' : find (has_id id) (update (has_id g.id) f groups)
          ≡ some (if has_id g.id h then f h else h) =
        find-update (has_id id) (has_id g.id) f groups (λ y. ground (arith, keeps y)) found in
      elim (Bool-cases (has_id g.id h)) [
        | inl t ↦
            let same : h ≡ g = same_row groups id g h here found t in
            record {
              g' = f h;
              found = rw t at found';
              edge = subst (λ z. z.status ⟶ (f z).status) (sym same) edge;
              same_leader = (keeps h).1;
              same_department = (keeps h).2;
            }
        | inr t ↦ record {
          g' = h;
          found = rw t at found';
          edge = stay;
          same_leader = refl;
          same_department = refl;
        }
      ];
  frozen = λ id h found draft u. refl;
}

-- A new group with a new identifier.
pub Evolves-create :
    (groups : List ProjectGroup) (members : List GroupMember) (g : ProjectGroup)
    → exists (has_id g.id) groups ≡ false
    → Evolves groups members (g ∷ groups) members
unfolding find
Evolves-create groups members g new = record {
  moves = λ id h found. elim (Bool-cases (g.id == id)) [
    | inl t ↦
        let there : find (has_id g.id) groups ≡ some h =
          subst (λ j. find (has_id j) groups ≡ some h) (sym (==→eq g.id id t)) found in
        absurd (ground arith)
    | inr t ↦ record {
      g' = h;
      found = rw t found;
      edge = stay;
      same_leader = refl;
      same_department = refl;
    }
  ];
  frozen = λ id h found draft u. refl;
}
