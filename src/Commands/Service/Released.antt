-- ===== src/Commands/Service/Released.antt =====
-- What the process leaves open, and what is open when it serves.
use mathlib.Core.Path.{subst}
use mrdns.Prelude.{
  ◌⊎◌, inl, inr, Bool-cases, ap, sym, ◌∙◌, String, Bool, true, false, Option, none, some, List, [],
  ◌∷◌, ◌++◌, ◌≡◌, ◌↔◌, refl, arith, ◌==◌, if◌then◌else◌,
}
use mrdns.Resources.{Act, opened, closed, did, Outcome, open_after, open_after-append, without}
use mrdns.Audit.File.{new_logger, close_logger, logger_for, make_parent}
use mrdns.Store.Open.{open_store}
use mrdns.Config.{Config, Loaded, loaded, refused, load, db_path}
use mrdns.Commands.{Given, failed, given}
use mrdns.Commands.Service.{
  Resource, audit_file, database, signals, shutdown_context, Step, listening, shutting_down,
  signalled, Boot, run_service, with_file, with_config, with_audit, with_dir, with_store,
  with_server, ended,
}

abbrev pub same : Resource → Resource → Bool
same audit_file audit_file = true
same database database = true
same signals signals = true
same shutdown_context shutdown_context = true
same _ _ = false

-- What is open at the first moment at which the process listens.
unfoldable pub listens_with : List Resource → List (Act Resource Step) → Option (List Resource)
listens_with l [] = none
listens_with l (opened r ∷ as') = listens_with (r ∷ l) as'
listens_with l (closed r ∷ as') = listens_with (without same r l) as'
listens_with l (did (listening a) ∷ as') = some l
listens_with l (did shutting_down ∷ as') = listens_with l as'

-- What an audit log takes open.
abbrev pub audit_open : Config → List Resource
audit_open cfg = if cfg.audit_log == "" then [] else audit_file ∷ []

-- The calls between the load of the config and the listening succeed.
pub record Opens (b : Boot) (cfg : Config) : Type 0 where
  pub audit_opens : (new_logger {S = Step} audit_file b.files cfg.audit_log).1 ≡ none
  pub dir_made : b.make_dir cfg.data_dir ≡ none
  pub store_opens : (open_store {S = Step} database (b.opening (db_path cfg))).1 ≡ none
  pub templates_parse : b.templates ≡ none

-- Everything before the listening succeeds, with the config `cfg`.
pub record Starts (b : Boot) (cfg : Config) : Type 0 where
  pub raw : Config
  pub parsed : b.config ≡ given raw
  pub config_loads : load b.process raw ≡ loaded cfg
  pub opens : Opens b cfg

-- Acts that do not listen change nothing at the end.
silent-append :
    (l : List Resource) (as' bs : List (Act Resource Step))
    → ((k : List Resource) → listens_with k bs ≡ none)
    → listens_with l (as' ++ bs) ≡ listens_with l as'
unfolding listens_with
silent-append l [] bs h = h l
silent-append l (opened r ∷ as') bs h = silent-append (r ∷ l) as' bs h
silent-append l (closed r ∷ as') bs h = silent-append (without same r l) as' bs h
silent-append l (did (listening a) ∷ as') bs h = refl
silent-append l (did shutting_down ∷ as') bs h = silent-append l as' bs h

module _ (b : Boot) where
  store-tidy :
      (cfg : Config) (l : List Resource)
      → open_after same l (with_dir b cfg (b.make_dir cfg.data_dir)).0 ≡ l
  unfolding open_after with_dir with_store with_server ended open_store
  store-tidy cfg l = ground arith

  file_cases :
      (o p : Option String)
      → let r : Outcome Resource Step String = elim o [
        | some e ↦ ([], some e)
        | none ↦ elim p [ some e ↦ ([], some e) | none ↦ (opened audit_file ∷ [], none) ]
      ] in
        ((e : String) × (r ≡ ([], some e))) ⊎ (r ≡ (opened audit_file ∷ [], none))
  file_cases (some e) p = inl (e, refl)
  file_cases none (some e) = inl (e, refl)
  file_cases none none = inr refl

  logger_cases :
      (path : String)
      → ((new_logger {S = Step} audit_file b.files path ≡ ([], none)) × ((path == "") ≡ true))
        ⊎ (((e : String) × (new_logger {S = Step} audit_file b.files path ≡ ([], some e)))
            ⊎ ((new_logger {S = Step} audit_file b.files path ≡ (opened audit_file ∷ [], none))
                × ((path == "") ≡ false)))
  unfolding new_logger
  logger_cases path = elim (Bool-cases (path == "")) [
    | inl e ↦ inl (rw e refl, e)
    | inr e ↦
        elim (file_cases (make_parent b.files (b.files.dir_of path)) (b.files.open_append path)) [
          | inl (x, h) ↦ inr (inl (x, rw e h))
          | inr h ↦ inr (inr (rw e h, e))
        ]
  ]

  -- The acts behind a logger that opened `l`.
  logged-tidy :
      (cfg : Config) (l : List Resource) (as' : List (Act Resource Step))
      → open_after same [] as' ≡ l
      → open_after {S = Step} same l (close_logger audit_file (logger_for cfg.audit_log)) ≡ []
      → open_after same [] (with_audit b cfg (as', none)).0 ≡ []
  unfolding with_audit
  logged-tidy cfg l as' h k =
      let rest = (with_dir b cfg (b.make_dir cfg.data_dir)).0 in
      let closing = close_logger audit_file (logger_for cfg.audit_log) in
      open_after-append same [] as' (rest ++ closing)
      ∙ ap (λ x. open_after same x (rest ++ closing)) h
      ∙ open_after-append same l rest closing
      ∙ ap (λ x. open_after same x closing) (store-tidy cfg l)
      ∙ k

  audit-tidy :
      (cfg : Config)
      → open_after same [] (with_audit b cfg (new_logger audit_file b.files cfg.audit_log)).0 ≡ []
  unfolding open_after close_logger with_audit
  audit-tidy cfg = elim (logger_cases cfg.audit_log) [
    | inl (e, k) ↦ rw e (logged-tidy cfg [] [] refl (rw k refl))
    | inr (inl (x, e)) ↦ rw e refl
    | inr (inr (e, k)) ↦
        rw e (logged-tidy cfg (audit_file ∷ []) (opened audit_file ∷ []) refl (rw k refl))
  ]

  store-clean_iff :
      (cfg : Config)
      → ((with_dir b cfg (b.make_dir cfg.data_dir)).1 ≡ none) ↔ (
          (b.make_dir cfg.data_dir ≡ none)
          × ((open_store {S = Step} database (b.opening (db_path cfg))).1 ≡ none)
          × (b.templates ≡ none)
          × (b.ending ≡ signalled none))
  unfolding with_dir with_store with_server ended open_store
  store-clean_iff cfg = ground arith

  audit-clean_iff :
      (cfg : Config) (o : Outcome Resource Step String)
      → ((with_audit b cfg o).1 ≡ none)
        ↔ ((o.1 ≡ none) × ((with_dir b cfg (b.make_dir cfg.data_dir)).1 ≡ none))
  unfolding with_audit
  audit-clean_iff cfg (as', none) = ground arith
  audit-clean_iff cfg (as', some e) = ground arith

  store-listens_iff :
      (cfg : Config) (l m : List Resource)
      → (listens_with l (with_dir b cfg (b.make_dir cfg.data_dir)).0 ≡ some m) ↔ (
          (b.make_dir cfg.data_dir ≡ none)
          × ((open_store {S = Step} database (b.opening (db_path cfg))).1 ≡ none)
          × (b.templates ≡ none)
          × (m ≡ signals ∷ database ∷ l))
  unfolding listens_with with_dir with_store with_server ended open_store
  store-listens_iff cfg l m = ground arith

  Opens-clean_iff :
      (cfg : Config)
      → ((with_audit b cfg (new_logger audit_file b.files cfg.audit_log)).1 ≡ none)
        ↔ (Opens b cfg × (b.ending ≡ signalled none))
  Opens-clean_iff cfg = (
    λ x.
        let (a, y) = (audit-clean_iff cfg (new_logger audit_file b.files cfg.audit_log)).0 x in
        let (dir, store, tmpl, last) = (store-clean_iff cfg).0 y in
        (
          record { audit_opens = a; dir_made = dir; store_opens = store; templates_parse = tmpl },
          last,
        ),
    λ (s, x).
        (audit-clean_iff cfg _).1 (
          s.audit_opens,
          (store-clean_iff cfg).1 (s.dir_made, s.store_opens, s.templates_parse, x),
        ),
  )

  close_logger-silent :
      (l : List Resource) (cfg : Config)
      → listens_with l (close_logger audit_file (logger_for cfg.audit_log)) ≡ none
  unfolding listens_with close_logger
  close_logger-silent l cfg = ground arith

  -- Behind a logger that opened `l`.
  logged-listens :
      (cfg : Config) (l m : List Resource)
      → listens_with l (
          (with_dir b cfg (b.make_dir cfg.data_dir)).0
          ++ close_logger audit_file (logger_for cfg.audit_log))
        ≡ some m
      → (b.make_dir cfg.data_dir ≡ none)
        × ((open_store {S = Step} database (b.opening (db_path cfg))).1 ≡ none)
        × (b.templates ≡ none)
        × (m ≡ signals ∷ database ∷ l)
  logged-listens cfg l m h = (store-listens_iff cfg l m).0 (
      sym (
        silent-append l (with_dir b cfg (b.make_dir cfg.data_dir)).0 _
          (λ k. close_logger-silent k cfg))
      ∙ h)

  audit-listens :
      (cfg : Config) (m : List Resource)
      → listens_with [] (with_audit b cfg (new_logger audit_file b.files cfg.audit_log)).0 ≡ some m
      → Opens b cfg × (m ≡ signals ∷ database ∷ audit_open cfg)
  unfolding listens_with with_audit
  audit-listens cfg m h = elim (logger_cases cfg.audit_log) [
    | inl (e, k) ↦
        let (dir, store, tmpl, last) = logged-listens cfg [] m (rw e at h) in
        (
          record {
            audit_opens = ap (λ o. o.1) e;
            dir_made = dir;
            store_opens = store;
            templates_parse = tmpl;
          },
          rw k last,
        )
    | inr (inl (x, e)) ↦ absurd (ground (arith, rw e at h))
    | inr (inr (e, k)) ↦
        let (dir, store, tmpl, last) = logged-listens cfg (audit_file ∷ []) m (rw e at h) in
        (
          record {
            audit_opens = ap (λ o. o.1) e;
            dir_made = dir;
            store_opens = store;
            templates_parse = tmpl;
          },
          rw k last,
        )
  ]

  the_config :
      (cfg cfg' raw : Config)
      → b.config ≡ given raw
      → load b.process raw ≡ loaded cfg
      → Starts b cfg'
      → cfg' ≡ cfg
  the_config cfg cfg' raw h k s = cc (h, k, s.parsed, s.config_loads)

  config-clean_iff :
      (raw : Config) (o : Loaded)
      → b.config ≡ given raw
      → load b.process raw ≡ o
      → ((with_config b o).1 ≡ none) ↔ ((cfg : Config) × Starts b cfg × (b.ending ≡ signalled none))
  unfolding with_config
  config-clean_iff raw (refused e) h k =
      (λ x. absurd (ground (arith, x)), λ (cfg, s, x). absurd (cc (s.parsed, s.config_loads, h, k)))
  config-clean_iff raw (loaded cfg) h k = (
    λ x.
        let (s, last) = (Opens-clean_iff cfg).0 x in
        (cfg, record { raw = raw; parsed = h; config_loads = k; opens = s }, last),
    λ (cfg', s, x).
        (Opens-clean_iff cfg).1 (subst (λ y. Opens b y) (the_config cfg cfg' raw h k s) s.opens, x),
  )

  file-clean_iff :
      (g : Given Config)
      → b.config ≡ g
      → ((with_file b g).1 ≡ none) ↔ ((cfg : Config) × Starts b cfg × (b.ending ≡ signalled none))
  unfolding with_file
  file-clean_iff (failed e) h =
      (λ x. absurd (ground (arith, x)), λ (cfg, s, x). absurd (cc (s.parsed, h)))
  file-clean_iff (given raw) h = config-clean_iff raw (load b.process raw) h refl

  config-listens :
      (raw : Config) (o : Loaded) (m : List Resource)
      → b.config ≡ given raw
      → load b.process raw ≡ o
      → listens_with [] (with_config b o).0 ≡ some m
      → (cfg : Config) × Starts b cfg × (m ≡ signals ∷ database ∷ audit_open cfg)
  unfolding with_config listens_with
  config-listens raw (refused e) m h k x = absurd (ground (arith, x))
  config-listens raw (loaded cfg) m h k x =
      let (s, last) = audit-listens cfg m x in
      (cfg, record { raw = raw; parsed = h; config_loads = k; opens = s }, last)

  file-listens :
      (g : Given Config) (m : List Resource)
      → b.config ≡ g
      → listens_with [] (with_file b g).0 ≡ some m
      → (cfg : Config) × Starts b cfg × (m ≡ signals ∷ database ∷ audit_open cfg)
  unfolding with_file listens_with
  file-listens (failed e) m h x = absurd (ground (arith, x))
  file-listens (given raw) m h x = config-listens raw (load b.process raw) m h refl x

  config-tidy : (o : Loaded) → open_after same [] (with_config b o).0 ≡ []
  unfolding with_config open_after
  config-tidy (refused e) = refl
  config-tidy (loaded cfg) = audit-tidy cfg

  file-tidy : (g : Given Config) → open_after same [] (with_file b g).0 ≡ []
  unfolding with_file open_after
  file-tidy (failed e) = refl
  file-tidy (given raw) = config-tidy (load b.process raw)

-- On every path, one that fails at any point of the start included, the process closes what it
-- opened. When it listens, the config has been loaded, every call before has succeeded, and the
-- handler of the signals, the database, and the audit file if one is configured, are open. It ends
-- without an error exactly when it starts, is stopped by a signal, and the shutdown has no error.
pub run_service_lem :
    (b : Boot)
    → (open_after same [] (run_service b).0 ≡ [])
      × ((m : List Resource)
          → listens_with [] (run_service b).0 ≡ some m
          → (cfg : Config) × Starts b cfg × (m ≡ signals ∷ database ∷ audit_open cfg))
      × (((run_service b).1 ≡ none) ↔ ((cfg : Config) × Starts b cfg × (b.ending ≡ signalled none)))
unfolding run_service
run_service_lem b =
    (file-tidy b b.config, λ m h. file-listens b b.config m refl h, file-clean_iff b b.config refl)
