-- ===== src/Domains/Reserved.antt =====
-- services/domain_service.js, lines 7 to 10: `RESERVED_CLUSTER_NAMES`.
use Prim.Native.String.{String}
use Prim.Native.Char.{code}
use virgo_fleet.Base.{Bool, List, [], ◌∷◌, any}
use virgo_fleet.Domains.Names.{Text, same_text}

abbrev pub codes : String → Text
codes String.[] = []
codes (String.◌∷◌ c s) = code c ∷ codes s

abbrev pub reserved_cluster_names : List String
reserved_cluster_names =
    "fleet" ∷ "apps" ∷ "packages" ∷ "www" ∷ "api" ∷ "auth" ∷ "admin" ∷ "mail" ∷ "smtp" ∷ "imap"
    ∷ "ns" ∷ "ns1" ∷ "ns2" ∷ "mx" ∷ "traefik" ∷ "status" ∷ "docs" ∷ "blog" ∷ "cdn" ∷ "static" ∷ []

unfoldable pub is_reserved : Text → Bool
unfolding same_text
is_reserved label = any (λ name. same_text (codes name) label) reserved_cluster_names
