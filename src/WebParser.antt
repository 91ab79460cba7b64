-- ===== src/WebParser.antt =====
-- `is_valid_html` of src/spidercheck/webparser.py.
use spidercheck.Prelude.{
  ◌-◌, Bool, true, false, ◌||◌, ◌&&◌, [], ◌∷◌, Text, codes, text_eq, length, drop, ltb, ◌==◌,
  if◌then◌else◌,
}
use spidercheck.Prelude.Chars.{strip, lower, starts_with_ci}

-- `.*>`: a `>` before the end of the line.
closes_in_line : Text → Bool
closes_in_line [] = false
closes_in_line (c ∷ s) =
    let later = closes_in_line s in if c == b'>' then true else if c == b'\n' then false else later

-- `re.search('<html.*>', body, re.IGNORECASE)`
search_html_begin : Text → Bool
unfolding closes_in_line
search_html_begin [] = false
search_html_begin (c ∷ s) =
    (starts_with_ci (codes "<html") (c ∷ s) && closes_in_line (drop 5 (c ∷ s)))
    || search_html_begin s

unfoldable pub is_valid_html : Text → Bool
unfolding search_html_begin starts_with_ci strip lower
is_valid_html text =
    let body = strip text in
    if ltb (length body) 14
    then false
    else if text_eq (lower (drop (length body - 7) body)) (codes "</html>")
    then search_html_begin body
    else false
