-- ===== src/Db/Invariant.antt =====
-- The invariant of the tables of Db.antt, and what the changes of rows do to its parts.
use mrdns.Prelude.{
  ℕ, ◌<◌, String, Bool, true, false, not, ◌&&◌, ◌||◌, List, [], ◌∷◌, ◌++◌, ◌≡◌, refl, ◌∙◌, arith,
  All, select, eq_iff, ◌==◌, Bool-cases, inl, inr,
}
use mrdns.Db.{ZoneRow, Tables}
use mrdns.Db.Sql.{update, zone_named, has_zone}
use mrdns.Db.Ids.{KeysBelow, KeysAscend}

abbrev pub DistinctNames : List ZoneRow → Type 0
DistinctNames [] = Unit
DistinctNames (z ∷ zs) = (has_zone z.name zs ≡ false) × DistinctNames zs

abbrev pub Owned : {A : Type 0} → (A → String) → List ZoneRow → List A → Type 0
Owned zone zones rows = All (λ r. has_zone (zone r) zones ≡ true) rows

-- Zone names are distinct, every record and snapshot belongs to a zone of the table, and the ids
-- of either ascend and lie below the next one.
pub record IsWellFormed (t : Tables) : Type 0 where
  pub names : DistinctNames t.zones
  pub records_owned : All (λ r. has_zone r.zone t.zones ≡ true) t.records
  pub snapshots_owned : All (λ s. has_zone s.zone t.zones ≡ true) t.snapshots
  pub record_ids : KeysAscend (λ r. r.id) t.records
  pub records_below : KeysBelow (λ r. r.id) t.next_record t.records
  pub snapshot_ids : KeysAscend (λ s. s.id) t.snapshots
  pub snapshots_below : KeysBelow (λ s. s.id) t.next_snapshot t.snapshots

pub has_zone-append :
    (name : String) (zs ys : List ZoneRow)
    → has_zone name (zs ++ ys) ≡ (has_zone name zs || has_zone name ys)
has_zone-append name [] ys = refl
has_zone-append name (z ∷ zs) ys = ground (arith, has_zone-append name zs ys)

pub DistinctNames-append :
    (zs : List ZoneRow) (z : ZoneRow)
    → DistinctNames zs
    → has_zone z.name zs ≡ false
    → DistinctNames (zs ++ z ∷ [])
DistinctNames-append [] z h e = (refl, tt)
DistinctNames-append (x ∷ zs) z (n, h) e = (
  ground (arith, has_zone-append x.name zs (z ∷ []), eq_iff x.name z.name, eq_iff z.name x.name),
  DistinctNames-append zs z h (ground arith),
)

pub Owned-append :
    {A : Type 0} (zone : A → String) (zs : List ZoneRow) (z : ZoneRow) (rows : List A)
    → Owned zone zs rows
    → Owned zone (zs ++ z ∷ []) rows
Owned-append zone zs z [] h = tt
Owned-append zone zs z (r ∷ rows) (o, h) =
    (ground (arith, has_zone-append (zone r) zs (z ∷ [])), Owned-append zone zs z rows h)

-- An update that keeps the names keeps which zones there are.
pub has_zone-update :
    (name n : String) (f : ZoneRow → ZoneRow) (zs : List ZoneRow)
    → ((z : ZoneRow) → (f z).name ≡ z.name)
    → has_zone name (update (zone_named n) f zs) ≡ has_zone name zs
has_zone-update name n f [] k = refl
has_zone-update name n f (z ∷ zs) k = ground (arith, has_zone-update name n f zs k, k z)

pub DistinctNames-update :
    (n : String) (f : ZoneRow → ZoneRow) (zs : List ZoneRow)
    → ((z : ZoneRow) → (f z).name ≡ z.name)
    → DistinctNames zs
    → DistinctNames (update (zone_named n) f zs)
DistinctNames-update n f [] k h = tt
DistinctNames-update n f (z ∷ zs) k (e, h) =
    (ground (arith, has_zone-update z.name n f zs k, k z), DistinctNames-update n f zs k h)

pub Owned-update :
    {A : Type 0} (zone : A → String) (n : String) (f : ZoneRow → ZoneRow) (zs : List ZoneRow)
    (rows : List A)
    → ((z : ZoneRow) → (f z).name ≡ z.name)
    → Owned zone zs rows
    → Owned zone (update (zone_named n) f zs) rows
Owned-update zone n f zs [] k h = tt
Owned-update zone n f zs (r ∷ rows) k (o, h) =
    (has_zone-update (zone r) n f zs k ∙ o, Owned-update zone n f zs rows k h)

pub has_zone-select :
    (name n : String) (zs : List ZoneRow)
    → has_zone name (select (λ z. not (zone_named n z)) zs) ≡ (has_zone name zs && not (name == n))
has_zone-select name n [] = refl
has_zone-select name n (z ∷ zs) =
    ground (arith, has_zone-select name n zs, eq_iff z.name n, eq_iff name n, eq_iff z.name name)

pub DistinctNames-select :
    (n : String) (zs : List ZoneRow)
    → DistinctNames zs
    → DistinctNames (select (λ z. not (zone_named n z)) zs)
DistinctNames-select n [] h = tt
DistinctNames-select n (z ∷ zs) (e, h) =
    ground (arith, has_zone-select z.name n zs, DistinctNames-select n zs h)

pub Owned-select :
    {A : Type 0} (zone : A → String) (n : String) (zs : List ZoneRow) (rows : List A)
    → Owned zone zs rows
    → Owned zone (select (λ z. not (zone_named n z)) zs) (select (λ r. not (zone r == n)) rows)
Owned-select zone n zs [] h = tt
Owned-select zone n zs (r ∷ rows) (o, h) =
    ground (arith, has_zone-select (zone r) n zs, Owned-select zone n zs rows h)

-- An update that keeps what a predicate reads keeps the predicate.
pub All-update :
    {A : Type 0} (P : A → Type 0) (p : A → Bool) (f : A → A) (rows : List A)
    → ((r : A) → P r → P (f r))
    → All P rows
    → All P (update p f rows)
All-update P p f [] k h = tt
All-update P p f (r ∷ rows) k (o, h) = elim (Bool-cases (p r)) [
  | inl e ↦ rw e (k r o, All-update P p f rows k h)
  | inr e ↦ rw e (o, All-update P p f rows k h)
]

pub KeysAscend-update :
    {A : Type 0} (key : A → ℕ) (p : A → Bool) (f : A → A) (rows : List A)
    → ((r : A) → key (f r) ≡ key r)
    → KeysAscend key rows
    → KeysAscend key (update p f rows)
KeysAscend-update key p f [] k h = tt
KeysAscend-update key p f (r ∷ rows) k (a, h) = elim (Bool-cases (p r)) [
  | inl e ↦
      rw (e, k r)
        (
          All-update (λ x. key r < key x) p f rows (λ x q. rw (k x) q) a,
          KeysAscend-update key p f rows k h,
        )
  | inr e ↦ rw e (
    All-update (λ x. key r < key x) p f rows (λ x q. rw (k x) q) a,
    KeysAscend-update key p f rows k h,
  )
]
