-- ===== src/Tests/Clock.antt =====
-- A runtime that knows the texts of two instants and of three lists.
use package.shinzo_scheduler_service.Base.{
  String, none, some, Option, List, [], ◌∷◌, ◌==◌, if◌then◌else◌,
}
use package.shinzo_scheduler_service.Base.Int.{ℤ, pos, eqb_ℤ}
use package.shinzo_scheduler_service.Base.Time.{Runtime}

abbrev pub noon : ℤ
noon = pos 43200000000000

abbrev encode : List String → String
encode [] = "[]"
encode (a ∷ []) = if a == "sig" then "[\"sig\"]" else "[\"cid\"]"
encode _ = "[\"sig\",\"sig\"]"

abbrev decode : String → Option (List String)
decode text =
    if text == "[]"
    then some []
    else if text == "[\"sig\"]"
    then some ("sig" ∷ [])
    else if text == "[\"cid\"]"
    then some ("cid" ∷ [])
    else if text == "[\"sig\",\"sig\"]"
    then some ("sig" ∷ "sig" ∷ [])
    else none

abbrev pub clock : Runtime
clock = record {
  format_time = λ t. if eqb_ℤ t noon then "1970-01-01T12:00:00Z" else "1970-01-01T00:00:00Z";
  parse_time = λ text.
      if text == "1970-01-01T12:00:00Z"
      then some noon
      else if text == "1970-01-01T00:00:00Z"
      then some (pos 0)
      else none;
  encode_strings = encode;
  decode_strings = decode;
  show_count = λ n. "2";
}
