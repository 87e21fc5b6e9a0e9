-- ===== src/Deploy/Ssh/Released.antt =====
-- What the connections of Deploy/Ssh.antt leave open.
use mrdns.Prelude.{
  String, Bool, true, false, Option, none, some, List, [], ◌∷◌, ◌++◌, ◌≡◌, ◌≢◌, ◌↔◌, refl, arith,
  ◌==◌, eq_iff, Bool-cases, inl, inr,
}
use mrdns.Config.{ServerConfig}
use mrdns.Resources.{Act, opened, closed, did, Outcome, open_after}
use mrdns.Deploy.Ssh.{
  Resource, connection, sftp_session, remote_file, session, Step, started, killed, waited, Network,
  dial_ssh, pin_hosts, read_key, parse_key, connect, shake_hands, start_sftp, close_conn, Transfer,
  upload,
}

abbrev same : Resource → Resource → Bool
same connection connection = true
same sftp_session sftp_session = true
same remote_file remote_file = true
same session session = true
same _ _ = false

abbrev pub left_after : List (Act Resource Step) → List Resource
left_after as' = open_after same [] as'

-- What is open after a dial, and what `Close` does when there is a connection to close.
abbrev pub left : {E : Type 0} → Option E → List Resource
left (some e) = []
left none = sftp_session ∷ connection ∷ []

abbrev pub closing : {E : Type 0} → Option E → List (Act Resource Step)
closing (some e) = []
closing none = close_conn

pub record IsTidy {E : Type 0} (o : Outcome Resource Step E) : Type 0 where
  pub left_open : left_after o.0 ≡ left o.1
  pub closed_all : left_after (o.0 ++ closing o.1) ≡ []

module _ (net : Network) where
  start_sftp-IsTidy : (e : Option String) → IsTidy (start_sftp net e)
  unfolding start_sftp open_after
  start_sftp-IsTidy (some e) = record { left_open = refl; closed_all = refl }
  start_sftp-IsTidy none = record { left_open = refl; closed_all = refl }

  shake_hands-IsTidy : (addr : String) (e : Option String) → IsTidy (shake_hands net addr e)
  unfolding shake_hands open_after
  shake_hands-IsTidy addr (some e) = record { left_open = refl; closed_all = refl }
  shake_hands-IsTidy addr none = start_sftp-IsTidy (net.sftp addr)

  connect-IsTidy :
      (srv : ServerConfig) (addr : String) (e : Option String) → IsTidy (connect net srv addr e)
  unfolding connect open_after
  connect-IsTidy srv addr (some e) = record { left_open = refl; closed_all = refl }
  connect-IsTidy srv addr none = shake_hands-IsTidy addr (net.handshake addr srv.user)

  parse_key-IsTidy : (srv : ServerConfig) (e : Option String) → IsTidy (parse_key net srv e)
  unfolding parse_key open_after
  parse_key-IsTidy srv (some e) = record { left_open = refl; closed_all = refl }
  parse_key-IsTidy srv none = connect-IsTidy srv _ _

  read_key-IsTidy : (srv : ServerConfig) (e : Option String) → IsTidy (read_key net srv e)
  unfolding read_key open_after
  read_key-IsTidy srv (some e) = record { left_open = refl; closed_all = refl }
  read_key-IsTidy srv none = parse_key-IsTidy srv (net.parse_key srv.ssh_key)

  pin_hosts-IsTidy : (srv : ServerConfig) (e : Option String) → IsTidy (pin_hosts net srv e)
  unfolding pin_hosts open_after
  pin_hosts-IsTidy srv (some e) = record { left_open = refl; closed_all = refl }
  pin_hosts-IsTidy srv none = read_key-IsTidy srv (net.read_key srv.ssh_key)

  pinned : (srv : ServerConfig) (e : Option String) → (pin_hosts net srv e).0 ≢ [] → e ≡ none
  unfolding pin_hosts
  pinned srv (some e) h = absurd (h refl)
  pinned srv none h = refl

  -- A dial that fails leaves no connection and no session open; one that succeeds leaves one of
  -- each, and `Close` closes both. Nothing is opened for a server without a file of known hosts, or
  -- with one that cannot be read.
  pub dial_ssh_lem :
      (srv : ServerConfig)
      → IsTidy (dial_ssh net srv)
        × (((dial_ssh net srv).0 ≢ [])
            → (srv.known_hosts ≢ "") × (net.known_hosts srv.known_hosts ≡ none))
  unfolding dial_ssh open_after
  dial_ssh_lem srv = elim (Bool-cases (srv.known_hosts == "")) [
    | inl e ↦ rw e (record { left_open = refl; closed_all = refl }, λ h. absurd (h refl))
    | inr e ↦ rw e (
      pin_hosts-IsTidy srv _,
      λ h. (λ x. absurd (ground (arith, e, x, eq_iff srv.known_hosts "")), pinned srv _ h),
    )
  ]

-- An upload closes the file that it opened, and succeeds exactly when all four of its calls do.
pub upload_lem :
    (t : Transfer)
    → (left_after (upload t).0 ≡ [])
      × (((upload t).1 ≡ none)
          ↔ ((t.open_file ≡ none) × (t.write ≡ none) × (t.close ≡ none) × (t.chmod ≡ none)))
unfolding upload open_after
upload_lem t = ground arith

-- Whether `Wait` is still to return for a command that was started.
unfoldable pub unwaited_after : Bool → List (Act Resource Step) → Bool
unwaited_after b [] = b
unwaited_after b (opened r ∷ as') = unwaited_after b as'
unwaited_after b (closed r ∷ as') = unwaited_after b as'
unwaited_after b (did (started cmd) ∷ as') = unwaited_after true as'
unwaited_after b (did killed ∷ as') = unwaited_after b as'
unwaited_after b (did waited ∷ as') = unwaited_after false as'

-- Whether a kill was sent to the command.
unfoldable pub kills : List (Act Resource Step) → Bool
kills [] = false
kills (opened r ∷ as') = kills as'
kills (closed r ∷ as') = kills as'
kills (did (started cmd) ∷ as') = kills as'
kills (did killed ∷ as') = true
kills (did waited ∷ as') = kills as'
