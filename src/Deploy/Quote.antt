-- ===== src/Deploy/Quote.antt =====
-- The commands and paths of internal/deploy/ssh.go: quoting for the remote shell, and the names of
-- the staged and the final file.
pub mod Shell
use Prim.Native.Char.{Char, code}
use Prim.Native.String
use Prim.Native.String.{◌++◌}
use mrdns.Prelude.{String, eqb, if◌then◌else◌}
use mrdns.Text.Paths.{base, join_paths}

-- `strings.ReplaceAll(s, "'", "'\''")`
unfoldable pub escape_quotes : String → String
escape_quotes String.[] = ""
escape_quotes (String.◌∷◌ c s) =
    let rest = escape_quotes s in if eqb (code c) 39 then "'\\''" ++ rest else String.◌∷◌ c rest

unfoldable pub shell_quote : String → String
unfolding escape_quotes
shell_quote s = "'" ++ (escape_quotes s ++ "'")

-- the fields of `config.Server` that a deploy reads
pub record Server : Type 0 where
  pub host : String
  pub remote_zone_dir : String
  pub checkzone_cmd : String
  pub reload_cmd : String

unfoldable pub remote_final_path : Server → String → String
remote_final_path srv file = join_paths srv.remote_zone_dir (base file)

-- `suffix` is what `randomSuffix` drew.
unfoldable pub remote_tmp_path : Server → String → String → String
remote_tmp_path srv file suffix =
    join_paths srv.remote_zone_dir (".mrdns-" ++ (base file ++ ("-" ++ (suffix ++ ".tmp"))))
