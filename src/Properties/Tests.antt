-- ===== src/Properties/Tests.antt =====
-- A file with two lines for one key, read by properties.cc.
use server_client_peer_netwo.Base.{◌≡◌, refl, none, some, [], ◌∷◌, codes, map, arith}
use server_client_peer_netwo.Properties.{
  Pairs, value_at, get, is_skipped, parse_line, parse_file, no_value,
}
use server_client_peer_netwo.Properties.RoundTrip.{
  line_of, IsPair, no_pairs, pairs_cons, parse_file-pairs,
}
use server_client_peer_netwo.Strings.{find}

abbrev pairs : Pairs
pairs = (codes "a", codes "1") ∷ ((codes "b", codes "x=y") ∷ ((codes "a", codes "2") ∷ []))

first-IsPair : IsPair (codes "a", codes "1")
unfolding is_skipped
first-IsPair = record {
  no_equals = (omega arith, tt);
  not_skipped = refl;
  one_line = ((omega arith, tt), (omega arith, tt));
}

second-IsPair : IsPair (codes "b", codes "x=y")
unfolding is_skipped
second-IsPair = record {
  no_equals = (omega arith, tt);
  not_skipped = refl;
  one_line = ((omega arith, tt), (omega arith, (omega arith, (omega arith, tt))));
}

third-IsPair : IsPair (codes "a", codes "2")
unfolding is_skipped
third-IsPair = record {
  no_equals = (omega arith, tt);
  not_skipped = refl;
  one_line = ((omega arith, tt), (omega arith, tt));
}

parse_file-pairs_example :
    (rs : Pairs) × (parse_file [] (codes "p") (some (map line_of pairs)) ≡ (rs, none))
    × (get rs (codes "a") ≡ value_at pairs (codes "a"))
parse_file-pairs_example =
    parse_file-pairs (codes "p") pairs (codes "a")
      (pairs_cons first-IsPair (pairs_cons second-IsPair (pairs_cons third-IsPair no_pairs)))
      (omega arith, tt)

-- A line without a value
parse_line-no_value : parse_line [] (codes "key") ≡ ([], some (no_value (codes "key")))
unfolding parse_line is_skipped find
parse_line-no_value = refl
