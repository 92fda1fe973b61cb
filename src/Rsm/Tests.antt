-- ===== src/Rsm/Tests.antt =====
-- The round trip of a result set at concrete data.
use slixmpp_go.Common.{◌≡◌, true, none, some, arith}
use slixmpp_go.Common.Int.{pos}
use slixmpp_go.Common.Int.Strokes.{numbers, numbers-IsStrconv}
use slixmpp_go.Common.Result.{ok}
use slixmpp_go.Rsm.{Rsm, to_node, parse_rsm}
use slixmpp_go.Rsm.RoundTrip.{IsNormal, parse_rsm-to_node}

-- The last page before an id.
abbrev page : Rsm
page = record {
  after = "";
  before = "id-1";
  first = "id-0";
  last = "";
  before_set = true;
  first_index = some (pos 2);
  max = some (pos 10);
  count = none;
  index = none;
}

page-IsNormal : IsNormal page
page-IsNormal = record {
  before_given = λ h. cc;
  first_index_fits = omega arith;
  max_fits = omega arith;
  count_fits = tt;
  index_fits = tt;
}

parse_rsm-to_node_example : parse_rsm numbers.atoi (to_node numbers.itoa page) ≡ ok page
parse_rsm-to_node_example =
    parse_rsm-to_node numbers.atoi numbers.itoa numbers-IsStrconv.read_back page page-IsNormal
