-- ===== src/Config/Names.antt =====
-- `ServerNames` of internal/config/config.go against the map's order of iteration.
use mathlib.Core.List.{Perm}
use mrdns.Prelude.{String, List, map, ◌≡◌}
use mrdns.Text.Order.Sorted.{Ascends, insertion_sort_lem, insertion_sort-same}
use mrdns.Config.{Config, server_names}

abbrev pub names_of : Config → List String
names_of c = map (λ e. e.0) c.servers

-- The names of the servers come in the order of texts, each as often as the configuration has it,
-- and they are the same list in whatever order the servers are visited.
pub server_names_lem :
    (c c' : Config)
    → Perm (names_of c) (names_of c')
    → Ascends (server_names c)
      × Perm (server_names c) (names_of c)
      × (server_names c ≡ server_names c')
unfolding server_names
server_names_lem c c' p =
    let (s, q) = insertion_sort_lem (names_of c) in
    (s, q, insertion_sort-same (names_of c) (names_of c') p)
