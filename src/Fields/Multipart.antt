-- ===== src/Fields/Multipart.antt =====
-- The multipart branch of `parse_content`, `parse_multipart_header` and `parse_multipart_content`.
-- Positions are kept as in the source; `npos` is the greatest one, to which sums wrap.
pub mod Fuel
use waspp.Base.{
  ℕ, zero, suc, ◌+◌, ◌-◌, [], ◌∷◌, ◌++◌, ltb, if◌then◌else◌, Bytes, codes, length, is_empty, take,
  drop, substr, find, find_from, none, some,
}
use waspp.Request.{Request, MultipartHeader}
use waspp.Utility.Percent.{percent_decode}
use waspp.Utility.Text.{extract_between}
use waspp.Fields.Outcome.{Outcome, done, invalid_part_header, ◌>>=◌}

unfoldable pub parse_multipart_header : Bytes → MultipartHeader
parse_multipart_header s = record {
  disposition = extract_between s (codes "Content-Disposition: ") (codes ";");
  name = extract_between s (codes "name=\"") (codes "\"");
  filename = percent_decode (extract_between s (codes "filename=\"") (codes "\""));
  filetype = extract_between s (codes "Content-Type: ") (codes "\r\n\r\n");
}

-- The text behind the part's header, less the two bytes of its last line end. `substr` is given
-- `size - value_start - 2`, which wraps to a great number where there are fewer than two.
abbrev part_value : Bytes → Bytes
part_value s = if ltb (length s) 2 then s else take (length s - 2) s

abbrev add_part : MultipartHeader → Bytes → Request → Request
add_part head value req =
    if is_empty head.filename
    then record req { params = req.params ++ record { name = head.name; value = value } ∷ [] }
    else record req {
      uploads =
          req.uploads
          ++ record {
            name = head.name;
            filename = head.filename;
            filetype = head.filetype;
            content = value;
          }
            ∷ [];
    }

unfoldable pub parse_multipart_content : Bytes → Request → Outcome
unfolding parse_multipart_header
parse_multipart_content s req = elim (find s (codes "\r\n\r\n")) [
  | none ↦ invalid_part_header
  | some head_limit ↦ done (
      add_part (parse_multipart_header (take (head_limit + 4) s))
        (part_value (drop (head_limit + 4) s)) req)
]

-- `content_type.substr(content_type.find("boundary=") + 9)`, up to a semicolon. Without the word the
-- position is `npos + 9`, which is 8.
unfoldable pub boundary : Bytes → Bytes
boundary content_type =
    let start : ℕ = elim (find content_type (codes "boundary=")) [
      | none ↦ 8
      | some pos ↦ pos + 9
    ] in
    let text = drop start content_type in
    elim (find text (codes ";")) [ none ↦ text | some pos ↦ take pos text ]

-- `while (true)`: the parts before each further separator. Each round moves `old_pos` on.
unfoldable pub parts_loop : ℕ → Bytes → ℕ → Request → Outcome × ℕ
parts_loop zero sep old_pos req = (done req, old_pos)
parts_loop (suc fuel) sep old_pos req = elim (find_from req.content sep old_pos) [
  | none ↦ (done req, old_pos)
  | some pos ↦ elim (parse_multipart_content (substr req.content old_pos (pos - old_pos)) req) [
    | done req' ↦ parts_loop fuel sep (pos + length sep) req'
    | other ↦ (other, old_pos)
  ]
]

-- `req.content.find(sep1) + sep_size`; without the separator this is `npos + sep_size`, which is
-- `sep_size - 1`.
abbrev first_part : Bytes → Bytes → ℕ
first_part s sep = elim (find s sep) [ none ↦ length sep - 1 | some pos ↦ pos + length sep ]

-- The part before the closing separator.
unfoldable pub last_part : Bytes → ℕ → Request → Outcome
last_part sep old_pos req = elim (find_from req.content sep old_pos) [
  | none ↦ done req
  | some pos ↦ parse_multipart_content (substr req.content old_pos (pos - old_pos)) req
]

unfoldable pub parse_multipart : Bytes → Request → Outcome
unfolding boundary parts_loop last_part
parse_multipart content_type req =
    let sep1 = codes "--" ++ (boundary content_type ++ codes "\r\n") in
    let sep2 = codes "--" ++ (boundary content_type ++ codes "--\r\n") in
    let (parts, old_pos) =
      parts_loop (suc (length req.content)) sep1 (first_part req.content sep1) req in
    parts >>= last_part sep2 old_pos
