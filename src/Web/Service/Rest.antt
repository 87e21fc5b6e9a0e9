-- ===== src/Web/Service/Rest.antt =====
-- What the audit trail tells of the tables when no request is open.
use mrdns.Prelude.{[], ◌∷◌, ◌≡◌, ◌<◌, ◌⊎◌, inl, inr, All, length, refl, sym, ◌∙◌, arith}
use mathlib.Core.Path.{subst}
use mrdns.Dns.{Dns}
use mrdns.Config.{Config}
use mrdns.Web.Session.{Codec}
use mrdns.Web.World.{World}
use mrdns.Web.World.Rules.{Grown, Kept, Grows, IsQuiet-Grows, IsAccounted, IsAccounted-quiet}
use mrdns.Web.Server.Effects.{serve-IsAccounted}
use mrdns.Web.Service.{
  Pending, Service, Acts, acts, answers, another, Step, arrives, proceeds, Steps, still, further,
}

-- Some open request adds to the audit trail, whatever the others do.
unfoldable Owing : Pending → Type 0
Owing [] = ⊥
Owing (s ∷ rest) = Grows s ⊎ Owing rest

-- What one act does: it changes no table and leaves no request without its event, or there is a
-- request that owes one.
record Moves (w : World) (before : Pending) (w' : World) (after : Pending) : Type 0 where
  all_accounted : All (λ h. IsAccounted h) after
  kept : Kept w w'
  accounted :
      ((w'.db.tables ≡ w.db.tables) × (Owing before → Grown w w' ⊎ Owing after)) ⊎ Owing after

acts-Moves :
    {w w' : World} {before after : Pending}
    → Acts w before w' after
    → All (λ h. IsAccounted h) before
    → Moves w before w' after
unfolding IsAccounted Grows Owing
acts-Moves {w = w} acts (k, ks) = elim (k w) [
  | inl (q, h) ↦ record {
    all_accounted = (h, ks);
    kept = q.trail_kept;
    accounted = inl (
      q.tables_same,
      λ o. elim o [
        | inl g ↦ elim (g w).1 [ inl (x, y) ↦ inl x | inr y ↦ inr (inl y) ]
        | inr g ↦ inr (inr g)
      ],
    );
  }
  | inr (h, g) ↦ record {
    all_accounted = (IsAccounted-quiet _ (IsQuiet-Grows _ g), ks);
    kept = h;
    accounted = inr (inl g);
  }
]
acts-Moves answers (k, ks) = record {
  all_accounted = ks;
  kept = omega arith;
  accounted = inl (refl, λ o. elim o [ inl g ↦ absurd g | inr g ↦ inr g ]);
}
acts-Moves (another a) (k, ks) =
    let m = acts-Moves a ks in
    record {
      all_accounted = (k, m.all_accounted);
      kept = m.kept;
      accounted = elim m.accounted [
        | inl (same, f) ↦ inl (
          same,
          λ o. elim o [
            | inl g ↦ inr (inl g)
            | inr g ↦ elim (f g) [ inl x ↦ inl x | inr x ↦ inr (inr x) ]
          ],
        )
        | inr g ↦ inr (inr g)
      ];
    }

-- The service since the state `w`.
record Accounts (w : World) (t : Service) : Type 0 where
  all_accounted : All (λ h. IsAccounted h) t.pending
  kept : Kept w t.world
  accounted : (t.world.db.tables ≡ w.db.tables) ⊎ (Grown w t.world ⊎ Owing t.pending)

module _ (d : Dns) (c : Codec) (cfg : Config) where
  step-Accounts : {w : World} {t u : Service} → Step d c cfg t u → Accounts w t → Accounts w u
  unfolding Owing
  step-Accounts (arrives a) h = record {
    all_accounted = (serve-IsAccounted d c cfg a.moment a.request a.path, h.all_accounted);
    kept = h.kept;
    accounted = elim h.accounted [
      | inl x ↦ inl x
      | inr x ↦ inr (elim x [ inl y ↦ inl y | inr y ↦ inr (inr y) ])
    ];
  }
  step-Accounts (proceeds a) h =
      let m = acts-Moves a h.all_accounted in
      record {
        all_accounted = m.all_accounted;
        kept = omega (arith, h.kept, m.kept);
        accounted = elim h.accounted [
          | inl x ↦ elim m.accounted [ inl (y, f) ↦ inl (y ∙ x) | inr y ↦ inr (inr y) ]
          | inr (inl x) ↦ inr (inl (omega (arith, x, m.kept)))
          | inr (inr x) ↦ elim m.accounted [
            | inl (y, f) ↦ elim (f x) [
              | inl z ↦ inr (inl (omega (arith, z, h.kept)))
              | inr z ↦ inr (inr z)
            ]
            | inr y ↦ inr (inr y)
          ]
        ];
      }

  Steps-Accounts : {w : World} {s t : Service} → Steps d c cfg s t → Accounts w s → Accounts w t
  Steps-Accounts still h = h
  Steps-Accounts (further l st) h = step-Accounts st (Steps-Accounts l h)

  -- However the acts of the requests interleave, while the process is not ended: whenever no request
  -- is open, no table has changed since an earlier time at which none was open, or the audit trail
  -- is longer than it was then.
  pub rest_accounted :
      (s t : Service)
      → Steps d c cfg s t
      → s.pending ≡ []
      → t.pending ≡ []
      → (t.world.db.tables ≡ s.world.db.tables) ⊎ (length s.world.trail < length t.world.trail)
  unfolding Owing
  rest_accounted s t l o e =
      let h = Steps-Accounts {w = s.world} l (record {
        all_accounted = subst (λ x. All (λ h. IsAccounted h) x) (sym o) tt;
        kept = omega arith;
        accounted = inl refl;
      }) in
      elim h.accounted [
        | inl x ↦ inl x
        | inr (inl x) ↦ inr x
        | inr (inr x) ↦ absurd (subst Owing e x)
      ]
