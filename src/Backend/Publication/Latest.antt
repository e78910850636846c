-- ===== src/Backend/Publication/Latest.antt =====
-- The newest row of a record's group, and what the next version follows.
use mathlib.Core.Option.{some-injective}
use land_record_digitalizati.Prelude.{
  ◌+◌, ◌≤◌, ◌<◌, String, ◌==◌, eq_iff, ◌≡◌, ◌≢◌, ◌⊎◌, refl, sym, ap, ◌∙◌, subst, Option, none, some,
  List, [], ◌∷◌, filter, ltb, arith, inl, inr, Bool-cases, Option-cases, All, All-map, Any, Any-map,
  Any-out, filter-Any, All-Any, from_filter,
}
use land_record_digitalizati.Backend.Entities.{Record}
use land_record_digitalizati.Backend.Session.{Session}
use land_record_digitalizati.Backend.Publication.{
  in_group, newest, latest_version, previous_of, next_version,
}

newest-none : (rs : List Record) → newest rs ≡ none → rs ≡ []
unfolding newest
newest-none [] h = refl
newest-none (r ∷ rs) h = elim (Option-cases (newest rs)) [
  | inl p ↦ absurd (ground arith)
  | inr (q, p) ↦ absurd (ground arith)
]

-- The newest row is one of the list, and none has a higher version.
newest_lem :
    (rs : List Record) (q : Record)
    → newest rs ≡ some q
    → Any (λ r. r ≡ q) rs × All (λ r. r.version ≤ q.version) rs
unfolding newest
newest_lem [] q h = absurd (ground arith)
newest_lem (r ∷ rs) q h = elim (Option-cases (newest rs)) [
  | inl p ↦
      let same : ◌≡◌ {A = Option Record} (some r) (some q) = rw p at h in
      let e = some-injective _ _ same in
      let empty : All (λ u. u.version ≤ q.version) rs =
        subst (All (λ (u : Record). u.version ≤ q.version)) (sym (newest-none rs p)) tt in
      (inl e, (subst (λ (u : Record). r.version ≤ u.version) e (omega arith), empty))
  | inr (u, p) ↦
      let (found, top) = newest_lem rs u p in
      elim (Bool-cases (ltb r.version u.version)) [
        | inl less ↦
            let same : ◌≡◌ {A = Option Record} (some u) (some q) = rw (p, less) at h in
            subst
              (λ (x : Record).
                Any (λ v. v ≡ x) (r ∷ rs) × All (λ v. v.version ≤ x.version) (r ∷ rs))
              (some-injective _ _ same) (inr found, (ground arith, top))
        | inr more ↦
            let same : ◌≡◌ {A = Option Record} (some r) (some q) = rw (p, more) at h in
            let least : u.version ≤ r.version = ground arith in
            subst
              (λ (x : Record).
                Any (λ v. v ≡ x) (r ∷ rs) × All (λ v. v.version ≤ x.version) (r ∷ rs))
              (some-injective _ _ same)
              (inl refl, (omega arith, All-map _ _ rs (λ v le. omega (arith, le, least)) top))
      ]
]

-- A row of the group has the highest version of the group, and is the only one with it.
pub record IsLatest (s : Session) (group : String) (r : Record) : Type 0 where
  pub in_table : Any (λ u. u ≡ r) s.records
  pub own_group : r.record_group_id ≡ group
  pub newer : All (λ u. u.record_group_id ≡ group → (u ≡ r) ⊎ (u.version < r.version)) s.records

-- A first version of a group without rows, or the version behind the highest of its rows.
abbrev pub IsNext : Session → String → Record → Type 0
IsNext s group r =
    (All (λ u. u.record_group_id ≢ group) s.records × (r.version ≡ 1))
    ⊎ ((q : Record) × Any (λ u. u ≡ q) s.records
        × (q.record_group_id ≡ group)
        × All (λ u. u.record_group_id ≡ group → u.version ≤ q.version) s.records
        × (r.version ≡ q.version + 1))

module _ (s : Session) (group : String) where
  grouped :
      (P : Record → Type 0)
      → All P (filter (in_group group) s.records)
      → All (λ u. u.record_group_id ≡ group → P u) s.records
  grouped P h =
      All-map _ _ s.records (λ u f e. f ((eq_iff u.record_group_id group).1 e))
        (from_filter P (in_group group) s.records h)

  latest_lem :
      (q : Record)
      → latest_version s group ≡ some q
      → Any (λ u. u ≡ q) s.records
        × (q.record_group_id ≡ group)
        × All (λ u. u.record_group_id ≡ group → u.version ≤ q.version) s.records
  unfolding latest_version
  latest_lem q h =
      let (found, top) = newest_lem (filter (in_group group) s.records) q h in
      let kept = filter-Any (λ u. u ≡ q) (in_group group) s.records found in
      (
        Any-map _ _ s.records (λ u both. both.1) kept,
        Any-out (q.record_group_id ≡ group) _ s.records
            (λ u both.
              subst (λ (x : Record). x.record_group_id ≡ group) both.1
                ((eq_iff u.record_group_id group).0 both.0))
            kept,
        grouped _ top,
      )

  latest-none : latest_version s group ≡ none → All (λ u. u.record_group_id ≢ group) s.records
  unfolding latest_version
  latest-none h =
      grouped (λ u. ⊥)
        (subst (All (λ (u : Record). ⊥)) (sym (newest-none (filter (in_group group) s.records) h))
          tt)

  pub next_version-IsNext :
      (r : Record) → r.version ≡ next_version (latest_version s group) → IsNext s group r
  next_version-IsNext r h = elim (Option-cases (latest_version s group)) [
    | inl p ↦ inl (latest-none p, h ∙ ap next_version p)
    | inr (q, p) ↦
        let (found, own, top) = latest_lem q p in inr (q, found, own, top, h ∙ ap next_version p)
  ]

  -- The row with the highest version is the one that the query returns.
  pub latest-IsLatest : (r : Record) → IsLatest s group r → latest_version s group ≡ some r
  latest-IsLatest r l = elim (Option-cases (latest_version s group)) [
    | inl p ↦
        let out = All-Any _ _ s.records (latest-none p) l.in_table in
        elim (Any-out ⊥ _ s.records
          (λ u both. both.0 (ap (λ (x : Record). x.record_group_id) both.1 ∙ l.own_group)) out) [ ]
    | inr (q, p) ↦
        let (found, own, top) = latest_lem q p in
        let least : r.version ≤ q.version =
          Any-out _ _ s.records
            (λ u both.
              subst (λ (x : Record). x.version ≤ q.version) both.1
                (both.0 (ap (λ (x : Record). x.record_group_id) both.1 ∙ l.own_group)))
            (All-Any _ _ s.records top l.in_table) in
        let either : (q ≡ r) ⊎ (q.version < r.version) =
          Any-out _ _ s.records
            (λ u both.
              subst (λ (x : Record). (x ≡ r) ⊎ (x.version < r.version)) both.1
                (both.0 (ap (λ (x : Record). x.record_group_id) both.1 ∙ own)))
            (All-Any _ _ s.records l.newer found) in
        elim either [ inl same ↦ p ∙ ap some same | inr less ↦ absurd (omega (arith, least, less)) ]
  ]

-- A group that is named and not empty.
pub previous_of-named :
    (s : Session) (group : String)
    → group ≢ ""
    → previous_of s (some group) ≡ latest_version s group
previous_of-named s group h = elim (Bool-cases (group == "")) [
  | inl empty ↦ absurd (h ((eq_iff group "").0 empty))
  | inr named ↦ rw named refl
]
