-- ===== src/Tests/Start.antt =====
-- The configuration and the join request at concrete inputs.
use jario.Base.{◌≡◌, refl, false, not, ◌&&◌, List, [], ◌∷◌, if◌then◌else◌}
use jario.Text.{Text, codes, text_eq, has_prefix}
use jario.Outcome.{Outcome, ok}
use jario.Config.{Config, Flag, default, load, visit, configure, listen_flag, join_flag}
use jario.Config.Precedence
use jario.Config.Precedence.{setting, on_line}
use jario.Api.Join.{join_url}

abbrev decode : Text → Config → Outcome Config
decode path cfg = ok (record cfg { listen = codes ":80"; region = codes "eu" })

abbrev file : Config
file = record default { listen = codes ":80"; region = codes "eu" }

abbrev given : Config
given = record default { listen = codes ":81"; join = codes "node2:9000" }

abbrev chosen : Config
chosen = record file { listen = codes ":81"; join = codes "node2:9000" }

abbrev line : List Flag
line = join_flag ∷ listen_flag ∷ []

configure_lem_example :
    ((f : Flag) → setting f chosen ≡ (if on_line f line then setting f given else setting f file))
    × ((chosen.bootstrap && not (text_eq chosen.join [])) ≡ false)
unfolding load configure visit text_eq
configure_lem_example =
    Precedence.configure_lem decode (codes "jario.toml") given file chosen line refl refl

join_url_test : join_url (codes "node1:9000/") ≡ codes "http://node1:9000/internal/join"
unfolding join_url has_prefix
join_url_test = refl
