-- ===== src/Groups/Lifecycle/Final.antt =====
-- An approved group is final.
use academia_backend_api.Base.{ℕ, String, false, List, [], ◌∷◌, some, ◌≡◌, ◌∙◌, sym, refl, subst}
use academia_backend_api.Groups.Schema.{Db, ProjectGroup, GroupStatus, is_draft}
use academia_backend_api.Groups.Queries.{find_group}
use academia_backend_api.Groups.System.{Request, handle, handle_all}
use academia_backend_api.Groups.Invariant.{Inv, is_member}
use academia_backend_api.Groups.Invariant.Reachable.{handle-Inv}
use academia_backend_api.Groups.Lifecycle.{◌⟶◌, stay, Moved}
use academia_backend_api.Groups.Lifecycle.Steps.{handle-Evolution}

-- The group is approved, and its members are those that `db` shows.
pub record IsFinal (db : Db) (id : ℕ) (s : Db) : Type 0 where
  pub g : ProjectGroup
  pub found : find_group id s ≡ some g
  pub approved : g.status ≡ GroupStatus.approved
  pub members : (user_id : ℕ) → is_member s.members id user_id ≡ is_member db.members id user_id

approved_edge : (s t : GroupStatus) → s ⟶ t → s ≡ GroupStatus.approved → t ≡ GroupStatus.approved
approved_edge s t stay h = h
approved_edge s t _ h = cc

module _ (trim lower : String → String) (start : Db) (id : ℕ) where
  IsFinal-step :
      (r : Request) (db : Db)
      → Inv db
      → IsFinal start id db
      → IsFinal start id (handle trim lower r db)
  IsFinal-step r db v f =
      let e = handle-Evolution trim lower r db v in
      let m : Moved f.g id (handle trim lower r db).groups = e.moves id f.g f.found in
      record {
        g = m.g';
        found = m.found;
        approved = approved_edge f.g.status m.g'.status m.edge f.approved;
        members = λ u.
            e.frozen id f.g f.found (subst (λ t. is_draft t ≡ false) (sym f.approved) refl) u
            ∙ f.members u;
      }

  IsFinal-steps :
      (rs : List Request) (db : Db)
      → Inv db
      → IsFinal start id db
      → IsFinal start id (handle_all trim lower rs db)
  unfolding handle_all
  IsFinal-steps [] db v f = f
  IsFinal-steps (r ∷ rs) db v f =
      IsFinal-steps rs (handle trim lower r db) (handle-Inv trim lower r db v)
        (IsFinal-step r db v f)

-- From tables that keep the invariant, a group that is approved is still there and approved after
-- any requests in any order, and has exactly the members that it had.
pub handle_all-IsFinal :
    (trim lower : String → String) (rs : List Request) (db : Db) (id : ℕ) (g : ProjectGroup)
    → Inv db
    → find_group id db ≡ some g
    → g.status ≡ GroupStatus.approved
    → IsFinal db id (handle_all trim lower rs db)
handle_all-IsFinal trim lower rs db id g v found approved =
    IsFinal-steps trim lower db id rs db v
      (record { g = g; found = found; approved = approved; members = λ u. refl })
