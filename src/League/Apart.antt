-- ===== src/League/Apart.antt =====
-- Teams that share no member: what each action of the registration does to them.
use union_core.Prelude.{
  ℕ, ◌≡◌, ◌⊎◌, inl, inr, refl, arith, String, true, false, Option, none, some, text_key, ok,
  is_some, [], ◌∷◌, Option-cases,
}
use union_core.Prelude.Dict
use union_core.Prelude.Dict.{Dict}
use union_core.Prelude.Set
use union_core.Governance.State.{Context}
use union_core.League.State.{League, Team, team_of}
use union_core.League.Teams.{accept, create_team, invite, register}

-- No member is in two teams.
pub IsApart : League → Type 0
IsApart l =
    (p i j : String) (s t : Team)
    → Dict.lookup i l.teams ≡ some s
    → Dict.lookup j l.teams ≡ some t
    → Set.contains p s.members ≡ true
    → Set.contains p t.members ≡ true
    → i ≡ j

pub IsApart-at :
    (l : League) (p i j : String) (s t : Team)
    → IsApart l
    → Dict.lookup i l.teams ≡ some s
    → Dict.lookup j l.teams ≡ some t
    → Set.contains p s.members ≡ true
    → Set.contains p t.members ≡ true
    → i ≡ j
unfolding IsApart
IsApart-at l p i j s t v = v p i j s t

-- Whoever has no team is in none.
team_of-none :
    (l : League) (p i : String) (t : Team)
    → is_some (team_of l p) ≡ false
    → Dict.lookup i l.teams ≡ some t
    → Set.contains p t.members ≡ false
unfolding team_of
team_of-none l p i t h e =
    ground (arith, Dict.find-none (λ _ t. Set.contains p t.members) l.teams i t)

-- The members of the team that is put in: `p`, and those it had before.
Joins : League → String → Team → String → Type 0
Joins l id t p =
    (q : String)
    → Set.contains q t.members ≡ true
    → (q ≡ p) ⊎ ((s : Team) × (Dict.lookup id l.teams ≡ some s) × (Set.contains q s.members ≡ true))

-- `p` has no team, or this one.
Free : League → String → String → Type 0
Free l id p =
    (is_some (team_of l p) ≡ false)
    ⊎ ((s : Team) × (Dict.lookup id l.teams ≡ some s) × (Set.contains p s.members ≡ true))

joined-home :
    (l : League) (id : String) (t : Team) (p q j : String) (u : Team)
    → Joins l id t p
    → Free l id p
    → IsApart l
    → Set.contains q t.members ≡ true
    → Dict.lookup j l.teams ≡ some u
    → Set.contains q u.members ≡ true
    → id ≡ j
unfolding Joins Free IsApart
joined-home l id t p q j u from free v c h d = elim (from q c) [
  | inr (s, here, old) ↦ v q id j s u here h old d
  | inl same ↦ elim free [
    | inl lone ↦ absurd (ground (arith, team_of-none l p j u lone h))
    | inr (s, here, old) ↦ v q id j s u here h (ground arith) d
  ]
]

put-IsApart :
    (l k : League) (id : String) (t : Team) (p : String)
    → k.teams ≡ Dict.insert id t l.teams
    → Joins l id t p
    → Free l id p
    → IsApart l
    → IsApart k
unfolding IsApart
put-IsApart l k id t p e from free v q i j s u hi hj ci cj =
    elim (Dict.found-insert i id t s l.teams (ground arith)) [
      | inl (ei, es) ↦ elim (Dict.found-insert j id t u l.teams (ground arith)) [
        | inl (ej, eu) ↦ ground arith
        | inr old ↦ ground (
          arith,
          joined-home l id t p q j u from free (unfold IsApart in v) (ground arith) old cj,
        )
      ]
      | inr here ↦ elim (Dict.found-insert j id t u l.teams (ground arith)) [
        | inl (ej, eu) ↦ ground (
          arith,
          joined-home l id t p q i s from free (unfold IsApart in v) (ground arith) here ci,
        )
        | inr old ↦ v q i j s u here old ci cj
      ]
    ]

pub create_team-IsApart :
    (l : League) (now_ms : ℕ) (player : Option String) (team : String) (k : League)
    → create_team l now_ms player team ≡ ok k
    → IsApart l
    → IsApart k
create_team-IsApart l now_ms none team k h v = absurd (unfold create_team in ground arith)
create_team-IsApart l now_ms (some p) team k h v =
    let t : Team = record { captain = p; members = p ∷ []; invited = []; registered = false } in
    put-IsApart l k team t p (unfold create_team in ground arith)
      (unfold Joins in λ q c. inl (unfold Set.contains in ground arith))
      (unfold Free in inl (unfold create_team in ground arith)) v

pub accept-IsApart :
    (l : League) (ctx : Context) (player : Option String) (team : String) (k : League)
    → accept l ctx player team ≡ ok k
    → IsApart l
    → IsApart k
accept-IsApart l ctx none team k h v = absurd (unfold accept in ground arith)
accept-IsApart l ctx (some p) team k h v = elim (Option-cases (Dict.lookup team l.teams)) [
  | inl missing ↦ absurd (unfold accept in ground arith)
  | inr (old, found) ↦
      let t : Team = record old {
        invited = Set.remove p old.invited;
        members = Set.insert p old.members;
        registered = false;
      } in
      put-IsApart l k team t p (unfold accept in ground arith)
        (unfold Joins in λ q c. ground (arith, found, Set.contains-insert q p old.members))
        (unfold Free in inl (unfold accept in ground arith)) v
]

-- A team that is replaced by one with the same members.
same_members-IsApart :
    (l k : League) (id : String) (old t : Team)
    → Dict.lookup id l.teams ≡ some old
    → t.members ≡ old.members
    → k.teams ≡ Dict.insert id t l.teams
    → IsApart l
    → IsApart k
unfolding IsApart
same_members-IsApart l k id old t found same e v q i j s u hi hj ci cj =
    let before : (i : String) (s : Team)
        → Dict.lookup i k.teams ≡ some s
        → Set.contains q s.members ≡ true
        → (r : Team) × (Dict.lookup i l.teams ≡ some r) × (Set.contains q r.members ≡ true) =
      λ i s h c. elim (Dict.found-insert i id t s l.teams (ground arith)) [
        | inl (ei, es) ↦ (old, ground arith, ground arith)
        | inr there ↦ (s, there, c)
      ] in
    let (r, hr, cr) = before i s hi ci in
    let (w, hw, cw) = before j u hj cj in v q i j r w hr hw cr cw

pub invite-IsApart :
    (l : League) (ctx : Context) (player : Option String) (team member : String) (k : League)
    → invite l ctx player team member ≡ ok k
    → IsApart l
    → IsApart k
unfolding invite
invite-IsApart l ctx player team member k h v = elim (Option-cases (Dict.lookup team l.teams)) [
  | inl missing ↦ absurd (ground arith)
  | inr (old, found) ↦
      same_members-IsApart l k team old (record old { invited = Set.insert member old.invited })
        found refl (ground arith) v
]

pub register-IsApart :
    (l : League) (now_ms : ℕ) (player : Option String) (team : String) (k : League)
    → register l now_ms player team ≡ ok k
    → IsApart l
    → IsApart k
unfolding register
register-IsApart l now_ms player team k h v = elim (Option-cases (Dict.lookup team l.teams)) [
  | inl missing ↦ absurd (ground arith)
  | inr (old, found) ↦
      same_members-IsApart l k team old (record old { registered = true }) found refl (ground arith)
        v
]

pub same_teams-IsApart : (l k : League) → k.teams ≡ l.teams → IsApart l → IsApart k
unfolding IsApart
same_teams-IsApart l k e v q i j s u hi hj ci cj = v q i j s u (ground arith) (ground arith) ci cj

-- A league without teams.
pub empty-IsApart : (l : League) → l.teams ≡ [] → IsApart l
unfolding IsApart Dict.lookup
empty-IsApart l e q i j s u hi hj ci cj = absurd (ground arith)

-- A league with one team.
pub one_team-IsApart : (l : League) (id : String) (t : Team) → l.teams ≡ (id, t) ∷ [] → IsApart l
unfolding IsApart Dict.lookup
one_team-IsApart l id t e q i j s u hi hj ci cj = ground arith
