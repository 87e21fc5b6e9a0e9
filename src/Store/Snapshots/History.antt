-- ===== src/Store/Snapshots/History.antt =====
-- What publishing does to the history of a zone.
use mathlib.Core.Path.{◌≡⟨◌⟩◌, ◌∎, subst}
use mathlib.Core.List.{reverse, reverse-append}
use mrdns.Prelude.{
  ℕ, String, Bool, not, ◌&&◌, List, [], ◌∷◌, ◌++◌, ◌≡◌, refl, sym, ap, arith, take, select,
  select-append, eq_iff,
}
use mrdns.Db.{SnapshotRow, Tables}
use mrdns.Db.Sql.{snapshots_desc, snapshot_of, id_in}
use mrdns.Db.Ids.{
  Ascending, Descending, KeysAscend-select, sort_by-reverse, Descending-reverse, select-reverse,
  select-take,
}

-- The order of the query is the reverse of the order of insertion.
pub snapshots_desc-reverse :
    (name : String) (t : Tables)
    → Ascending t.snapshots
    → snapshots_desc name t ≡ reverse (select (snapshot_of name) t.snapshots)
unfolding snapshots_desc
snapshots_desc-reverse name t h =
    sort_by-reverse (select (snapshot_of name) t.snapshots)
      (KeysAscend-select (λ s. s.id) (snapshot_of name) t.snapshots h)

select_of_all :
    (p q : SnapshotRow → Bool) (rows : List SnapshotRow)
    → select p (select (λ s. not (p s && not (q s))) rows) ≡ select q (select p rows)
select_of_all p q [] = refl
select_of_all p q (s ∷ rows) = ground (arith, select_of_all p q rows)

-- The table after the `DELETE` of `Publish`.
abbrev pub pruned : String → ℕ → Tables → Tables
pruned name keep t = record t {
  snapshots =
      select (λ s. not (snapshot_of name s && not (id_in s.id (take keep (snapshots_desc name t)))))
        t.snapshots;
}

pub snapshots_desc-pruned :
    (name : String) (keep : ℕ) (t : Tables)
    → Ascending t.snapshots
    → snapshots_desc name (pruned name keep t) ≡ take keep (snapshots_desc name t)
snapshots_desc-pruned name keep t h =
    let all_desc = snapshots_desc name t in
    let q : SnapshotRow → Bool = λ s. id_in s.id (take keep (snapshots_desc name t)) in
    snapshots_desc name (pruned name keep t)
    ≡⟨ snapshots_desc-reverse name (pruned name keep t)
        (KeysAscend-select (λ s. s.id) _ t.snapshots h) ⟩
      reverse (select (snapshot_of name) (pruned name keep t).snapshots)
    ≡⟨ ap reverse (select_of_all (snapshot_of name) q t.snapshots) ⟩
      reverse (select q (select (snapshot_of name) t.snapshots))
    ≡⟨ sym (select-reverse q (select (snapshot_of name) t.snapshots)) ⟩
      select q (reverse (select (snapshot_of name) t.snapshots))
    ≡⟨ ap (select q) (sym (snapshots_desc-reverse name t h)) ⟩ select q (snapshots_desc name t)
    ≡⟨ select-take keep (snapshots_desc name t) (
        subst Descending (sym (snapshots_desc-reverse name t h))
          (Descending-reverse _ (KeysAscend-select (λ s. s.id) (snapshot_of name) t.snapshots h))) ⟩
      take keep (snapshots_desc name t) ∎

-- The row that `Publish` inserts.
abbrev pub new_row : String → ℕ → String → String → Tables → SnapshotRow
new_row name serial content now t = record {
  id = t.next_snapshot;
  zone = name;
  serial = serial;
  content = content;
  created_at = now;
}

pub snapshots_desc-append :
    (name : String) (t u : Tables) (s : SnapshotRow)
    → Ascending t.snapshots
    → Ascending u.snapshots
    → s.zone ≡ name
    → u.snapshots ≡ t.snapshots ++ s ∷ []
    → snapshots_desc name u ≡ s ∷ snapshots_desc name t
snapshots_desc-append name t u s ht hu own e =
    snapshots_desc name u
    ≡⟨ snapshots_desc-reverse name u hu ⟩ reverse (select (snapshot_of name) u.snapshots)
    ≡⟨ ap (λ l. reverse (select (snapshot_of name) l)) e ⟩
      reverse (select (snapshot_of name) (t.snapshots ++ s ∷ []))
    ≡⟨ ap reverse (select-append (snapshot_of name) t.snapshots (s ∷ [])) ⟩
      reverse (select (snapshot_of name) t.snapshots ++ select (snapshot_of name) (s ∷ []))
    ≡⟨ ap (λ (l : List SnapshotRow). reverse (select (snapshot_of name) t.snapshots ++ l))
        (ground (arith, eq_iff s.zone name)) ⟩
      reverse (select (snapshot_of name) t.snapshots ++ s ∷ [])
    ≡⟨ reverse-append (select (snapshot_of name) t.snapshots) (s ∷ []) ⟩
      s ∷ reverse (select (snapshot_of name) t.snapshots)
    ≡⟨ ap (λ (l : List SnapshotRow). s ∷ l) (sym (snapshots_desc-reverse name t ht)) ⟩
      s ∷ snapshots_desc name t ∎
