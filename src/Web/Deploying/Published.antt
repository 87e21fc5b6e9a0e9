-- ===== src/Web/Deploying/Published.antt =====
-- What `handleDeploy` has stored when it reports a deploy as promoted.
use mathlib.Core.Path.{subst}
use mrdns.Prelude.{
  ℕ, String, true, false, Option, none, some, ◌∷◌, Result, ok, err, take, ◌≡◌, refl, ap, sym, ◌∙◌,
  Bool-cases, inl, inr,
}
use mrdns.Dns.{Dns}
use mrdns.Zone.{Zone, render}
use mrdns.Zone.Serial.{Time, bump_serial}
use mrdns.Db.{Db, Tables}
use mrdns.Db.Invariant.{IsWellFormed}
use mrdns.Store.{StoredZone, get_zone}
use mrdns.Store.Rendered.{build}
use mrdns.Store.Snapshots.{publish, history, scan_snapshot}
use mrdns.Store.Snapshots.History.{new_row}
use mrdns.Store.Snapshots.Publish.{publish-history}
use mrdns.Deploy.{DeployResult, all_moved}
use mrdns.Deploy.Remote.{Remote, DeployError}
use mrdns.Deploy.Pipeline.Outcome.{deploy_fields}
use mrdns.Web.Deploying.Parts.{handle_deploy-Parts, page_of}
use mrdns.Deploy.Pipeline.{deploy}
use mrdns.Web.Deploying.{Page, request_for, deployed, handle_deploy, settled, marked}
use mrdns.Store.Reading.{get_zone-IsReading, build-IsReading}

pub same_result : (a b : DeployResult) → deployed a ≡ deployed b → a ≡ b
same_result a b h = cc h

module _ (d : Dns) (rem : Remote) (policy : String) (keep : ℕ) (now : Time) (stamp : String) where
  pub marked_sound :
      (res0 res : DeployResult) (r : Result (Unit {0}))
      → res0.promoted ≡ false
      → deployed (marked res0 r) ≡ deployed res
      → res.promoted ≡ true
      → (r ≡ ok tt) × (all_moved res ≡ all_moved res0) × (res.new_serial ≡ res0.new_serial)
  unfolding marked all_moved
  marked_sound res0 res (ok u) f h p =
      let same = same_result _ res h in
      (refl, sym (ap all_moved same), sym (ap (λ (r : DeployResult). r.new_serial) same))
  marked_sound res0 res (err e) f h p =
      absurd (cc (f, p, ap (λ (r : DeployResult). r.promoted) (same_result res0 res h)))

  marked_same :
      (res0 res : DeployResult) (r : Result (Unit {0}))
      → res0.promoted ≡ false
      → deployed (marked res0 r) ≡ deployed res
      → res.promoted ≡ true
      → res ≡ record res0 { promoted = true }
  unfolding marked
  marked_same res0 res (ok u) f h p = sym (same_result _ res h)
  marked_same res0 res (err e) f h p =
      absurd (cc (f, p, ap (λ (r : DeployResult). r.promoted) (same_result res0 res h)))

  -- What the end of a deploy that is reported as promoted, with this content and serial, was.
  record IsSettled (name content : String) (new : ℕ) (r : DeployResult × Option DeployError)
      (res : DeployResult) (before after : Tables) : Type 0 where
    no_error : r.1 ≡ none
    result : res ≡ record r.0 { promoted = true }
    reached : all_moved res ≡ true
    stored :
        history name after
        ≡ take keep (scan_snapshot (new_row name new content stamp before) ∷ history name before)

  settled-IsSettled :
      (name content : String) (new : ℕ) (r : DeployResult × Option DeployError) (db : Db)
      (res : DeployResult)
      → r.0.promoted ≡ false
      → IsWellFormed db.tables
      → (settled d rem policy keep now stamp name content new r db).0 ≡ deployed res
      → res.promoted ≡ true
      → IsSettled name content new r res db.tables
          (settled d rem policy keep now stamp name content new r db).1.tables
  unfolding settled
  settled-IsSettled name content new (res0, some e) db res f wf h p = cc
  settled-IsSettled name content new (res0, none) db res f wf h p =
      let (r, db') = publish keep name content new stamp db in
      elim (Bool-cases (all_moved res0)) [
        | inl e ↦
            let (done, moved, serial) = marked_sound res0 res r f (rw e at h) p in
            rw e record {
              no_error = refl;
              result = marked_same res0 res r f (rw e at h) p;
              reached = moved ∙ e;
              stored = publish-history keep name content new stamp db wf done;
            }
        | inr e ↦
            absurd
              (cc (f, p, ap (λ (x : DeployResult). x.promoted) (same_result res0 res (rw e at h))))
      ]

  before_mark :
      (r : DeployResult × Option DeployError) (res : DeployResult)
      → r.0.promoted ≡ false
      → r.1 ≡ none
      → res ≡ record r.0 { promoted = true }
      → r ≡ (record res { promoted = false }, none)
  before_mark (res0, o) res f n e =
      ap (λ b. (record res0 { promoted = b }, o)) f
      ∙ ap (λ x. (record res0 { promoted = false }, x)) n
      ∙ ap (λ (x : DeployResult). (record x { promoted = false }, none)) (sym e)

  -- What a deploy that is reported as promoted did: `zone` is the row that it read, `built` what
  -- `Build` gave, and `content` the text of that zone after `BumpSerial`.
  pub record IsStored (name : String) (res : DeployResult) (before : Db) (after : Tables)
      : Type 0 where
    pub zone : StoredZone
    pub built : Zone d
    pub content : String
    pub found : (get_zone name before).0 ≡ ok zone
    pub made : (build d name (get_zone name before).1).0 ≡ ok built
    pub bumps : (bump_serial d built policy now).0 ≡ ok (res.old_serial, res.new_serial)
    pub is_content : content ≡ render d (bump_serial d built policy now).1
    -- the pipeline was given the content, and ended without an error
    pub rolled_out :
        deploy d rem (record {
          zone = name;
          content = content;
          old_serial = res.old_serial;
          new_serial = res.new_serial;
          targets = zone.targets;
        })
        ≡ (record res { promoted = false }, none)
    pub reached : all_moved res ≡ true
    -- the content heads the history of the zone
    pub stored :
        history name after
        ≡ take keep (
            scan_snapshot (new_row name res.new_serial content stamp before.tables)
            ∷ history name before.tables)

  -- A deploy that is reported as promoted, on tables that are well formed, gave the pipeline the
  -- text of the zone as `Build` makes it, under the serial of `BumpSerial`, and moved it into place on
  -- every target; the zone's history is then a snapshot of that text under that serial and the older
  -- ones, the newest `keep` in all.
  pub handle_deploy-IsStored :
      (name : String) (db : Db) (res : DeployResult)
      → IsWellFormed db.tables
      → (handle_deploy d rem policy keep now stamp name db).0 ≡ deployed res
      → res.promoted ≡ true
      → IsStored name res db (handle_deploy d rem policy keep now stamp name db).1.tables
  handle_deploy-IsStored name db res wf h p =
      let parts = handle_deploy-Parts d rem policy keep now stamp name db res h in
      let content = render d (bump_serial d parts.built policy now).1 in
      let sent = request_for d rem policy keep now stamp name parts.zone content in
      let r = deploy d rem (sent parts.old parts.new) in
      let fields = deploy_fields d rem (sent parts.old parts.new) in
      let same =
        (build-IsReading d name).same (get_zone name db).1 ∙ (get_zone-IsReading name).same db in
      let left =
        settled-IsSettled name content parts.new r (build d name (get_zone name db).1).1 res
          fields.0 (subst IsWellFormed (sym same) wf)
          (page_of d rem policy keep now stamp parts.rest h) p in
      let news = ap (λ (x : DeployResult). x.new_serial) left.result ∙ fields.1 in
      let olds = ap (λ (x : DeployResult). x.old_serial) left.result ∙ fields.2 in
      record {
        zone = parts.zone;
        built = parts.built;
        content = content;
        found = parts.found;
        made = parts.made;
        bumps =
            parts.bumps
            ∙ ap (λ o. ok (o, parts.new)) (sym olds)
            ∙ ap (λ n. ok (res.old_serial, n)) (sym news);
        is_content = refl;
        rolled_out =
            ap (λ o. deploy d rem (sent o res.new_serial)) olds
            ∙ ap (λ n. deploy d rem (sent parts.old n)) news
            ∙ before_mark r res fields.0 left.no_error left.result;
        reached = left.reached;
        stored =
            ap (λ (q : Page × Db). history name q.1.tables) parts.rest
            ∙ left.stored
            ∙ ap
                (λ t.
                  take keep
                    (scan_snapshot (new_row name parts.new content stamp t) ∷ history name t))
                same
            ∙ ap
                (λ n.
                  take keep (
                    scan_snapshot (new_row name n content stamp db.tables)
                    ∷ history name db.tables))
                (sym news);
      }
