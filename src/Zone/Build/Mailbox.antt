-- ===== src/Zone/Build/Mailbox.antt =====
-- `dnsMbox` of internal/zone/build.go on addresses with and without an "@".
use Prim.Native.String.{◌++◌}
use mrdns.Prelude.{String, ◌≡◌, refl}
use mrdns.Text.Trim.{Lacks, cut-none, cut-some}
use mrdns.Dns.{Dns}
use mrdns.Zone.Build.{dns_mbox}

module _ (d : Dns) where
  -- An address `user@host` whose user part has no "@" becomes the absolute name of `user.host`,
  -- whatever the host part holds, and a text with no "@" becomes its absolute name as it stands.
  pub dns_mbox_forms :
      (user host : String)
      → Lacks b'@' user
      → (dns_mbox d (user ++ String.◌∷◌ "@" host) ≡ d.fqdn (user ++ ("." ++ host)))
        × (dns_mbox d user ≡ d.fqdn user)
  unfolding dns_mbox
  dns_mbox_forms user host h =
      (rw (cut-some b'@' user host "@" h refl, dns_mbox), rw (cut-none b'@' user h, dns_mbox))
