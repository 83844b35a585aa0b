-- ===== src/Store/Teams/Owners.antt =====
-- How many owners a team has.
use testovoe_bazis.Common.{
  ℕ, suc, ◌≤◌, ◌<◌, ◌≡◌, ◌≢◌, refl, sym, subst, ◌∙◌, inl, inr, true, false, Bool, Bool-cases, List,
  [], ◌∷◌, ◌++◌, ℤ, pos, pos_part, int_beq, int_beq_iff, int_eq, text_eq, text_beq, text_beq_iff,
  ◌==◌, ◌&&◌, arith, select, any, length, All, All-append, Text,
}
use testovoe_bazis.Domain.{Team, TeamMember, role_owner}
use testovoe_bazis.Store.Database.{Database, Tables, has_team}
use testovoe_bazis.Store.Teams.Founding.{new_team, owner_of, with_team}

-- A membership that makes its user the owner of a team.
abbrev pub is_owner : ℤ → TeamMember → Bool
is_owner team_id m = m.team_id == team_id && m.role == role_owner

abbrev pub owners : ℤ → List TeamMember → ℕ
owners team_id ms = length (select (is_owner team_id) ms)

-- Every team has exactly one owner; the ids of teams are below the counter, in both tables.
pub record IsOwned (t : Tables) (next : ℕ) : Type 0 where
  pub teams_below : All (λ (m : Team). pos_part m.id < next) t.teams
  pub members_below : All (λ (m : TeamMember). pos_part m.team_id < next) t.members
  pub owned : All (λ (m : Team). owners m.id t.members ≡ 1) t.teams

module _ {A : Type 0} (f : A → ℤ) where
  below-later :
      (m n : ℕ) (xs : List A)
      → m ≤ n
      → All (λ x. pos_part (f x) < m) xs
      → All (λ x. pos_part (f x) < n) xs
  below-later m n [] le h = tt
  below-later m n (x ∷ xs) le (p, h) = (omega (arith, p, le), below-later m n xs le h)

owners-append_other :
    (team_id : ℤ) (ms : List TeamMember) (m : TeamMember)
    → is_owner team_id m ≡ false
    → owners team_id (ms ++ (m ∷ [])) ≡ owners team_id ms
owners-append_other team_id [] m h = rw h refl
owners-append_other team_id (k ∷ ms) m h = elim (Bool-cases (is_owner team_id k)) [
  | inl counted ↦ rw counted (omega (arith, owners-append_other team_id ms m h))
  | inr passed ↦ rw passed (owners-append_other team_id ms m h)
]

owners-append_owner :
    (next : ℕ) (ms : List TeamMember) (m : TeamMember)
    → All (λ (k : TeamMember). pos_part k.team_id < next) ms
    → is_owner (pos next) m ≡ true
    → owners (pos next) (ms ++ (m ∷ [])) ≡ 1
owners-append_owner next [] m below h = rw h (omega arith)
owners-append_owner next (k ∷ ms) m (low, below) h =
    let passed : is_owner (pos next) k ≡ false =
      ground (arith, int_beq_iff k.team_id (pos next), low) in
    rw passed (owners-append_owner next ms m below h)

-- A row that makes nobody an owner, or the owner of a team that is not in the list.
owned-append :
    (ts : List Team) (ms : List TeamMember) (m : TeamMember)
    → All (λ (k : Team). is_owner k.id m ≡ false) ts
    → All (λ (k : Team). owners k.id ms ≡ 1) ts
    → All (λ (k : Team). owners k.id (ms ++ (m ∷ [])) ≡ 1) ts
owned-append [] ms m other h = tt
owned-append (k ∷ ts) ms m (free, other) (p, h) =
    (owners-append_other k.id ms m free ∙ p, owned-append ts ms m other h)

owner_elsewhere :
    (next : ℕ) (ts : List Team) (m : TeamMember)
    → m.team_id ≡ pos next
    → All (λ (k : Team). pos_part k.id < next) ts
    → All (λ (k : Team). is_owner k.id m ≡ false) ts
owner_elsewhere next [] m e h = tt
owner_elsewhere next (k ∷ ts) m e (low, h) =
    (ground (arith, int_beq_iff m.team_id k.id, e, low), owner_elsewhere next ts m e h)

no_owner :
    (ts : List Team) (m : TeamMember)
    → m.role ≢ role_owner
    → All (λ (k : Team). is_owner k.id m ≡ false) ts
no_owner [] m h = tt
no_owner (k ∷ ts) m h = (ground (arith, text_beq_iff m.role role_owner), no_owner ts m h)

-- A new team with its owner.
pub with_team-IsOwned :
    (db : Database) (next : ℕ) (name description : Text) (creator_id : ℤ)
    → IsOwned db.tables db.next_team
    → suc db.next_team ≤ next
    → IsOwned (with_team db.tables (new_team db name description creator_id)) next
unfolding text_beq
with_team-IsOwned db next name description creator_id c le =
    let m = new_team db name description creator_id in
    record {
      teams_below =
          All-append (λ (k : Team). pos_part k.id < next) db.tables.teams (m ∷ [])
            (below-later (λ (k : Team). k.id) db.next_team next db.tables.teams (omega (arith, le))
              c.teams_below)
            (omega (arith, le), tt);
      members_below =
          All-append (λ (k : TeamMember). pos_part k.team_id < next) db.tables.members
            (owner_of m ∷ [])
            (below-later (λ (k : TeamMember). k.team_id) db.next_team next db.tables.members
              (omega (arith, le)) c.members_below)
            (omega (arith, le), tt);
      owned =
          All-append (λ (k : Team). owners k.id (db.tables.members ++ (owner_of m ∷ [])) ≡ 1)
            db.tables.teams (m ∷ [])
            (owned-append db.tables.teams db.tables.members (owner_of m)
              (owner_elsewhere db.next_team db.tables.teams (owner_of m) refl c.teams_below)
              c.owned)
            (
              owners-append_owner db.next_team db.tables.members (owner_of m) c.members_below
                  (ground (arith, int_beq_iff m.id m.id)),
              tt,
            );
    }

pub IsOwned-later : (t : Tables) (m n : ℕ) → m ≤ n → IsOwned t m → IsOwned t n
IsOwned-later t m n le c = record {
  teams_below = below-later (λ (k : Team). k.id) m n t.teams le c.teams_below;
  members_below = below-later (λ (k : TeamMember). k.team_id) m n t.members le c.members_below;
  owned = c.owned;
}

team_below :
    (team_id : ℤ) (next : ℕ) (ts : List Team)
    → All (λ (k : Team). pos_part k.id < next) ts
    → any (λ (k : Team). k.id == team_id) ts ≡ true
    → pos_part team_id < next
team_below team_id next [] h found = absurd (ground arith)
team_below team_id next (k ∷ ts) (low, h) found = elim (Bool-cases (int_beq k.id team_id)) [
  | inl same ↦ subst (λ id. pos_part id < next) ((int_beq_iff k.id team_id).0 same) low
  | inr other ↦ team_below team_id next ts h (rw other at found)
]

-- A new member of a team that is there, who is not its owner.
pub with_member-IsOwned :
    (t : Tables) (next : ℕ) (m : TeamMember)
    → m.role ≢ role_owner
    → has_team m.team_id t ≡ true
    → IsOwned t next
    → IsOwned (record t { members = t.members ++ (m ∷ []) }) next
with_member-IsOwned t next m other there c = record {
  teams_below = c.teams_below;
  members_below =
      All-append (λ (k : TeamMember). pos_part k.team_id < next) t.members (m ∷ []) c.members_below
        (team_below m.team_id next t.teams c.teams_below there, tt);
  owned = owned-append t.teams t.members m (no_owner t.teams m other) c.owned;
}

-- What counts is the rows of the two tables.
pub IsOwned-rows :
    (t u : Tables) (m n : ℕ)
    → u.teams ≡ t.teams
    → u.members ≡ t.members
    → m ≤ n
    → IsOwned t m
    → IsOwned u n
IsOwned-rows t u m n teams members le c =
    let later = IsOwned-later t m n le c in
    record {
      teams_below =
          subst (λ ts. All (λ (k : Team). pos_part k.id < n) ts) (sym teams) later.teams_below;
      members_below =
          subst (λ ms. All (λ (k : TeamMember). pos_part k.team_id < n) ms) (sym members)
            later.members_below;
      owned =
          subst (λ ts. All (λ (k : Team). owners k.id u.members ≡ 1) ts) (sym teams)
            (subst (λ ms. All (λ (k : Team). owners k.id ms ≡ 1) t.teams) (sym members)
              later.owned);
    }
