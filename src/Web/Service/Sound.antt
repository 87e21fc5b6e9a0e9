-- ===== src/Web/Service/Sound.antt =====
-- What each act keeps true of the tables, the service keeps true of them, however the acts of its
-- requests interleave and wherever its process is ended.
use mathlib.Core.Path.{subst}
use mrdns.Prelude.{[], ◌≡◌, All, sym}
use mrdns.Dns.{Dns, IsLawful}
use mrdns.Config.{Config}
use mrdns.Db.{Tables, empty}
use mrdns.Db.Invariant.{IsWellFormed}
use mrdns.Store.SoaFree.{IsSoaFree}
use mrdns.Store.Laws.{StoreLaws, IsWellFormed-StoreLaws, IsSoaFree-StoreLaws}
use mrdns.Web.Session.{Codec}
use mrdns.Web.World.{World}
use mrdns.Web.World.Preserves.{Preserves}
use mrdns.Web.Server.Invariant.{serve-Preserves, empty-IsWellFormed}
use mrdns.Web.Service.{
  Pending, Service, Acts, acts, answers, another, Step, arrives, proceeds, restarted, Lives,
  started, goes_on, starts_again, panics, Dropped, gone, another_gone,
}

module _ (P : Tables → Type 0) where
  -- Every request that is open keeps `P`, and `P` holds.
  record Safe (s : Service) : Type 0 where
    holds : P s.world.db.tables
    keep : All (λ h. Preserves P h) s.pending

  acts-Safe :
      {w w' : World} {pending pending' : Pending}
      → Acts w pending w' pending'
      → P w.db.tables
      → All (λ h. Preserves P h) pending
      → P w'.db.tables × All (λ h. Preserves P h) pending'
  unfolding Preserves
  acts-Safe {w = w} acts p (k, ks) = ((k w).0 p, ((k w).1, ks))
  acts-Safe answers p (k, ks) = (p, ks)
  acts-Safe (another a) p (k, ks) = let (q, r) = acts-Safe a p ks in (q, (k, r))

  Dropped-keep :
      {before after : Pending}
      → Dropped before after
      → All (λ h. Preserves P h) before
      → All (λ h. Preserves P h) after
  Dropped-keep gone (k, ks) = ks
  Dropped-keep (another_gone g) (k, ks) = (k, Dropped-keep g ks)

  module _ (d : Dns) (lawful : IsLawful d) (laws : StoreLaws d P) (c : Codec) (cfg : Config) where
    step-Safe : {s t : Service} → Step d c cfg s t → Safe s → Safe t
    step-Safe (arrives a) h = record {
      holds = h.holds;
      keep = (serve-Preserves d lawful P laws c cfg a.moment a.request a.path, h.keep);
    }
    step-Safe (proceeds a) h =
        let (p, k) = acts-Safe a h.holds h.keep in record { holds = p; keep = k }

    Lives-Safe : {s t : Service} → Lives d c cfg s t → Safe s → Safe t
    unfolding restarted
    Lives-Safe started h = h
    Lives-Safe (goes_on l st) h = step-Safe st (Lives-Safe l h)
    Lives-Safe (panics l g) h = record {
      holds = (Lives-Safe l h).holds;
      keep = Dropped-keep g (Lives-Safe l h).keep;
    }
    Lives-Safe (starts_again l) h = record { holds = (Lives-Safe l h).holds; keep = tt }

-- Whatever requests reach a service that starts on an empty database, with whatever paths, methods
-- and forms, in whatever order the acts of the requests that are open at once follow each other,
-- wherever a handler panics or the process is ended and started again, and whatever the driver, the servers and the
-- clock do: zone names stay distinct, every record and every snapshot belongs to a zone that exists,
-- the ids of either ascend and lie below the next one, and no stored record is an SOA record.
pub all_runs_sound :
    (d : Dns) (c : Codec) (cfg : Config) (s t : Service)
    → IsLawful d
    → s.world.db.tables ≡ empty
    → s.pending ≡ []
    → Lives d c cfg s t
    → IsWellFormed t.world.db.tables × IsSoaFree t.world.db.tables
all_runs_sound d c cfg s t lawful h o l = (
  (Lives-Safe IsWellFormed d lawful (IsWellFormed-StoreLaws d) c cfg l (record {
    holds = subst IsWellFormed (sym h) empty-IsWellFormed;
    keep = subst (λ x. All (λ h. Preserves IsWellFormed h) x) (sym o) tt;
  })).holds,
  (Lives-Safe IsSoaFree d lawful (IsSoaFree-StoreLaws d) c cfg l (record {
    holds = subst IsSoaFree (sym h) (record { rows = tt });
    keep = subst (λ x. All (λ h. Preserves IsSoaFree h) x) (sym o) tt;
  })).holds,
)
