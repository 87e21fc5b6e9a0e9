-- ===== src/Db/Ids.antt =====
-- Row ids: the tables of Db.antt keep their rows in ascending order of the ids, all below the next.
-- Sorting such rows by descending id reverses them.
use mathlib.Core.Path.{◌≡⟨◌⟩◌, ◌∎}
use mathlib.Core.List.{reverse, reverse-cons, append-nil}
use mrdns.Prelude.{
  ℕ, zero, suc, ◌+◌, ◌<◌, Bool, true, false, List, [], ◌∷◌, ◌++◌, ◌≡◌, refl, sym, ap, ◌∙◌, arith,
  All, All-append, select, select-append, take, leb, if◌then◌else◌,
}
use mrdns.Db.{SnapshotRow}
use mrdns.Db.Sql.{insert_by, sort_by, id_in}

pub All-select {ℓ κ} :
    {A : Type ℓ} (P : A → Type κ) (p : A → Bool) (xs : List A) → All P xs → All P (select p xs)
All-select P p [] h = tt
All-select P p (x ∷ xs) (h, hs) = ground (arith, All-select P p xs hs)

module _ {A : Type 0} (key : A → ℕ) where
  abbrev pub KeysBelow : ℕ → List A → Type 0
  KeysBelow n rows = All (λ s. key s < n) rows

  abbrev pub KeysAbove : ℕ → List A → Type 0
  KeysAbove n rows = All (λ s. n < key s) rows

  abbrev pub KeysAscend : List A → Type 0
  KeysAscend [] = Unit
  KeysAscend (s ∷ rows) = KeysAbove (key s) rows × KeysAscend rows

  pub KeysBelow-suc : (n : ℕ) (rows : List A) → KeysBelow n rows → KeysBelow (n + 1) rows
  KeysBelow-suc n [] h = tt
  KeysBelow-suc n (s ∷ rows) (b, h) = (omega arith, KeysBelow-suc n rows h)

  pub KeysAscend-select :
      (p : A → Bool) (rows : List A) → KeysAscend rows → KeysAscend (select p rows)
  KeysAscend-select p [] h = tt
  KeysAscend-select p (s ∷ rows) (a, h) =
      ground (arith, KeysAscend-select p rows h, All-select (λ x. key s < key x) p rows a)

  pub KeysAscend-append :
      (rows : List A) (s : A)
      → KeysAscend rows
      → KeysBelow (key s) rows
      → KeysAscend (rows ++ s ∷ [])
  KeysAscend-append [] s h b = (tt, tt)
  KeysAscend-append (r ∷ rows) s (a, h) (b, bs) =
      (All-append (λ x. key r < key x) rows (s ∷ []) a (b, tt), KeysAscend-append rows s h bs)

abbrev pub Below : ℕ → List SnapshotRow → Type 0
Below = KeysBelow (λ s. s.id)

abbrev pub Above : ℕ → List SnapshotRow → Type 0
Above = KeysAbove (λ s. s.id)

abbrev pub Ascending : List SnapshotRow → Type 0
Ascending = KeysAscend (λ s. s.id)

abbrev pub Descending : List SnapshotRow → Type 0
Descending [] = Unit
Descending (s ∷ rows) = Below s.id rows × Descending rows

abbrev pub newest_first : SnapshotRow → SnapshotRow → Bool
newest_first a b = leb b.id a.id

insert_by-last :
    (l : List SnapshotRow) (s : SnapshotRow)
    → Above s.id l
    → insert_by newest_first s l ≡ l ++ s ∷ []
unfolding insert_by
insert_by-last [] s h = refl
insert_by-last (x ∷ l) s (a, h) = ground (arith, insert_by-last l s h)

All-reverse {κ} : {A : Type 0} (P : A → Type κ) (xs : List A) → All P xs → All P (reverse xs)
All-reverse P [] h = tt
All-reverse P (x ∷ xs) (p, h) =
    rw (reverse-cons) (All-append P (reverse xs) (x ∷ []) (All-reverse P xs h) (p, tt))

pub sort_by-reverse :
    (rows : List SnapshotRow) → Ascending rows → sort_by newest_first rows ≡ reverse rows
unfolding sort_by
sort_by-reverse [] h = refl
sort_by-reverse (s ∷ rows) (a, h) =
    ap (insert_by newest_first s) (sort_by-reverse rows h)
    ∙ insert_by-last (reverse rows) s (All-reverse (λ x. s.id < x.id) rows a)
    ∙ sym (reverse-cons s rows)

Descending-append :
    (l : List SnapshotRow) (s : SnapshotRow)
    → Descending l
    → Above s.id l
    → Descending (l ++ s ∷ [])
Descending-append [] s h a = (tt, tt)
Descending-append (x ∷ l) s (b, h) (a, as') =
    (All-append (λ y. y.id < x.id) l (s ∷ []) b (a, tt), Descending-append l s h as')

pub Descending-reverse : (rows : List SnapshotRow) → Ascending rows → Descending (reverse rows)
Descending-reverse [] h = tt
Descending-reverse (s ∷ rows) (a, h) = rw (reverse-cons) (
    Descending-append (reverse rows) s (Descending-reverse rows h)
      (All-reverse (λ x. s.id < x.id) rows a))

-- A test that no element passes, or that agrees with another on all, may be replaced.
select_congr :
    (p q : SnapshotRow → Bool) (xs : List SnapshotRow)
    → All (λ x. p x ≡ q x) xs
    → select p xs ≡ select q xs
select_congr p q [] h = refl
select_congr p q (x ∷ xs) (h, hs) = ground (arith, select_congr p q xs hs)

put_last {ℓ} :
    {A : Type ℓ} (b : Bool) (x : A) (l : List A)
    → reverse l ++ (if b then x ∷ [] else []) ≡ reverse (if b then x ∷ l else l)
put_last true x l = sym (reverse-cons x l)
put_last false x l = append-nil (reverse l)

pub select-reverse {ℓ} :
    {A : Type ℓ} (p : A → Bool) (xs : List A) → select p (reverse xs) ≡ reverse (select p xs)
select-reverse p [] = refl
select-reverse p (x ∷ xs) =
    select p (reverse (x ∷ xs))
    ≡⟨ ap (select p) (reverse-cons x xs) ⟩ select p (reverse xs ++ x ∷ [])
    ≡⟨ select-append p (reverse xs) (x ∷ []) ⟩ select p (reverse xs) ++ select p (x ∷ [])
    ≡⟨ ap (λ l. l ++ select p (x ∷ [])) (select-reverse p xs) ⟩
      reverse (select p xs) ++ select p (x ∷ [])
    ≡⟨ put_last (p x) x (select p xs) ⟩ reverse (select p (x ∷ xs)) ∎

skips_first :
    (x : SnapshotRow) (l keep : List SnapshotRow)
    → Below x.id l
    → All (λ r. id_in r.id (x ∷ keep) ≡ id_in r.id keep) l
skips_first x [] keep h = tt
skips_first x (r ∷ l) keep (a, h) = (ground arith, skips_first x l keep h)

select_none : (l : List SnapshotRow) → select (λ s. id_in s.id []) l ≡ []
select_none [] = refl
select_none (x ∷ l) = select_none l

-- Of rows by descending ids, those whose id is among the first `n` are the first `n`.
pub select-take :
    (n : ℕ) (l : List SnapshotRow) → Descending l → select (λ s. id_in s.id (take n l)) l ≡ take n l
select-take zero l h = select_none l
select-take (suc n) [] h = refl
select-take (suc n) (x ∷ l) (b, h) =
    let rest =
      select_congr (λ s. id_in s.id (x ∷ take n l)) (λ s. id_in s.id (take n l)) l
        (skips_first x l (take n l) b)
      ∙ select-take n l h in
    ground (arith, rest)
