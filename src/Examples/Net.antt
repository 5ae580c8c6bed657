-- ===== src/Examples/Net.antt =====
-- Addresses that are numbers, for which what the interface of the runtime promises holds.
use gobalance.Common.{eqb, eqb_iff, ℕ, String, ap, true, none, some}
use gobalance.Net.{Net}
use gobalance.Examples.Texts.{
  split_colon-with_colon, with_colon, strokes, split_colon, count_strokes-strokes, count_strokes,
}

abbrev pub stroke_net : Net
stroke_net = record {
  Ip = ℕ;
  equal = eqb;
  equal_iff = eqb_iff;
  has_ip4 = λ ip. true;
  ip_string = strokes;
  parse_ip = λ s. some (count_strokes s);
  port_string = strokes;
  parse_port = λ s. some (count_strokes s);
  join_ip4 = with_colon;
  join_ip6 = with_colon;
  split_host_port = split_colon;
  lookup_ip = λ name. none;
  parse_ip-ip_string = λ ip. ap some (count_strokes-strokes ip);
  parse_port-port_string = λ p small. ap some (count_strokes-strokes p);
  split-join_ip4 = λ ip p four. split_colon-with_colon ip (strokes p);
  split-join_ip6 = λ ip p six. split_colon-with_colon ip (strokes p);
}

abbrev pub one_host : String
one_host = "I:II"
